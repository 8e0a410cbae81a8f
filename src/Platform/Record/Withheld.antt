-- ===== src/Platform/Record/Withheld.antt =====
-- The errors of `ProcessRecord` (platform/process.go).
use seshatops.Base.{ℕ, ◌≡◌, refl, Bool, true, false, not, Option, none, some, Bytes, if◌then◌else◌}
use seshatops.Base.Result.{Result, ok, err}
use seshatops.Event.Text.{malformed}
use seshatops.Event.Json.{Tokens}
use seshatops.Event.Payload.{Envelope}
use seshatops.Event.Decode.{ParseResult}
use seshatops.Event.Parse.{parse}
use seshatops.Platform.World.{World, Position, PlatformError, transient, quarantined_mismatch}
use seshatops.Platform.Lineage.{is_projection_family, projection_self_id}
use seshatops.Platform.Process.{Decision, process_validated, quarantine_inbox}
use seshatops.Platform.Failure.{
  Identity, Handled, parked, retry, poisoned, persist_parse_failure, persist_consumer_unsupported,
  bump_poison_attempt,
}
use seshatops.Platform.Redrive.{redrive_gaps}
use seshatops.Platform.Record.{
  Delivery, acked, handled, settle, redriven, is_redrivable, after_decision, process_valid,
  key_matches, process_self, process_parsed, process_record,
}

-- No acknowledgement without an error to tell.
abbrev pub Explained : Delivery → Type 0
Explained d = d.should_ack ≡ false → (e : PlatformError) × (d.failure ≡ some e)

settle-Explained :
    {A : Type 0} (f : A → Delivery) (r : Result PlatformError A × World)
    → ((a : A) → Explained (f a))
    → Explained (settle f r).0
settle-Explained f (ok a, w) h = h a
settle-Explained f (err e, w) h = λ _. (e, refl)

handled-Explained : (h : Handled) → Explained (handled h)
handled-Explained parked h = cc
handled-Explained retry h = (transient, refl)
handled-Explained poisoned h = cc

if-Explained :
    (b : Bool) (x y : Delivery × World)
    → Explained x.0
    → Explained y.0
    → Explained (if b then x else y).0
if-Explained true x y h k = h
if-Explained false x y h k = k

module _ (lower : ℕ → ℕ) (hash : Bytes → Bytes) (tokens : Bytes → Tokens) where
  redriven-Explained :
      (c : Decision) (r : Result PlatformError (Unit {0}) × World) → Explained (redriven c r).0
  redriven-Explained c (ok a, w) h = cc
  redriven-Explained c (err e, w) h = (transient, refl)

  after_decision-Explained :
      (env : Envelope) (r : Result PlatformError Decision × World)
      → Explained (after_decision lower hash tokens env r).0
  after_decision-Explained env (err e, w) = λ _. (e, refl)
  after_decision-Explained env (ok c, w) =
      if-Explained (is_redrivable c.disposition) _ (acked c.disposition c.event_id, w)
        (redriven-Explained c
          (redrive_gaps lower hash tokens env.tenant_id env.aggregate_type env.aggregate_id w))
        (λ h. cc)

  module _ (faulty : Bool) (who : Identity) (key value : Bytes) (p : Position) (w : World) where
    process_self-Explained :
        (env : Envelope) (o : Option Bytes)
        → Explained (process_self lower hash tokens faulty who key env value p o w).0
    unfolding process_self process_valid
    process_self-Explained env none =
        settle-Explained handled (persist_parse_failure hash who value p malformed w)
          handled-Explained
    process_self-Explained env (some self) =
        if-Explained (not (key_matches lower hash tokens key env self)) _ _
          (settle-Explained (λ d. acked d.disposition d.event_id)
            (quarantine_inbox lower hash env quarantined_mismatch none none w) (λ d h. cc))
          (if-Explained faulty _ _
            (settle-Explained handled (bump_poison_attempt hash lower env value p _ w)
              handled-Explained)
            (after_decision-Explained env (process_validated lower hash env w)))

    process_parsed-Explained :
        (r : ParseResult Envelope)
        → Explained (process_parsed lower hash tokens faulty who key value p r w).0
    unfolding process_parsed
    process_parsed-Explained (err e) =
        settle-Explained handled (persist_parse_failure hash who value p e w) handled-Explained
    process_parsed-Explained (ok env) =
        if-Explained (not (is_projection_family env.event_type)) _ _
          (settle-Explained handled (persist_consumer_unsupported hash lower env value p w)
            handled-Explained)
          (process_self-Explained env (projection_self_id env))

    -- `ProcessRecord` withholds an acknowledgement only together with an error.

    pub process_record-Explained :
        Explained (process_record lower hash tokens faulty who key value p w).0
    unfolding process_record
    process_record-Explained = process_parsed-Explained (parse lower tokens value)
