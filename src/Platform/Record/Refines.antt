-- ===== src/Platform/Record/Refines.antt =====
-- Rules for `ProcessRecord` (platform/process.go): what it keeps.
use seshatops.Base.{ℕ, Bool, true, false, not, Option, none, some, Bytes, if◌then◌else◌}
use seshatops.Base.Result.{Result, ok, err}
use seshatops.Event.Text.{malformed}
use seshatops.Event.Json.{Tokens}
use seshatops.Event.Payload.{Envelope}
use seshatops.Event.Decode.{ParseResult}
use seshatops.Event.Parse.{parse}
use seshatops.Platform.World.{Db, World, Position, PlatformError, quarantined_mismatch}
use seshatops.Platform.Writes.{Writes}
use seshatops.Platform.Lineage.{is_projection_family, projection_self_id}
use seshatops.Platform.Process.{Decision, process_validated, quarantine_inbox}
use seshatops.Platform.Process.Refines.{process_validated-Moves, quarantine_inbox-Moves}
use seshatops.Platform.Failure.{
  Identity, bump_poison_attempt, persist_parse_failure, persist_consumer_unsupported,
}
use seshatops.Platform.Failure.Refines.{
  persist_parse_failure-Moves, persist_consumer_unsupported-Moves, bump_poison_attempt-Moves,
}
use seshatops.Platform.Redrive.{redrive_gaps}
use seshatops.Platform.Redrive.Refines.{redrive_gaps-Moves}
use seshatops.Platform.Record.{
  Delivery, settle, redriven, is_redrivable, after_decision, process_valid, key_matches,
  process_self, process_parsed, process_record,
}

module _ {P : Bytes → Type 0} {R : Db → Db → Type 0} (W : Writes P R)
    (all : (id : Bytes) → P id) where
  -- The delivery is read off the result; the database is what the action left.
  settle-moves :
      {A : Type 0} (d : Db) (f : A → Delivery) (r : Result PlatformError A × World)
      → R d r.1.db
      → R d (settle f r).1.db
  settle-moves d f (ok a, w) h = h
  settle-moves d f (err e, w) h = h

  redriven-moves :
      (d : Db) (c : Decision) (r : Result PlatformError (Unit {0}) × World)
      → R d r.1.db
      → R d (redriven c r).1.db
  redriven-moves d c (ok a, w) h = h
  redriven-moves d c (err e, w) h = h

  if-moves :
      (d : Db) (b : Bool) (x y : Delivery × World)
      → R d x.1.db
      → R d y.1.db
      → R d (if b then x else y).1.db
  if-moves d true x y h k = h
  if-moves d false x y h k = k

  module _ (lower : ℕ → ℕ) (hash : Bytes → Bytes) (tokens : Bytes → Tokens) where
    after_decision-moves :
        (d : Db) (env : Envelope) (r : Result PlatformError Decision × World)
        → R d r.1.db
        → R d (after_decision lower hash tokens env r).1.db
    after_decision-moves d env (err e, w) h = h
    after_decision-moves d env (ok c, w) h =
        if-moves d (is_redrivable c.disposition) _ _
          (redriven-moves d c
            (redrive_gaps lower hash tokens env.tenant_id env.aggregate_type env.aggregate_id w)
            (W.path.join d w.db _ h (
              (redrive_gaps-Moves W all lower hash tokens env.tenant_id env.aggregate_type
                  env.aggregate_id).at
                w)))
          h

    module _ (faulty : Bool) (who : Identity) (key value : Bytes) (p : Position) (w : World) where
      process_valid-moves :
          (env : Envelope) → R w.db (process_valid lower hash tokens faulty env value p w).1.db
      unfolding process_valid
      process_valid-moves env =
          if-moves w.db faulty _ _
            (settle-moves w.db _ (bump_poison_attempt hash lower env value p _ w)
              ((bump_poison_attempt-Moves W hash lower env value p _).at w))
            (after_decision-moves w.db env (process_validated lower hash env w)
              ((process_validated-Moves W lower hash env (all env.event_id)).at w))

      process_self-moves :
          (env : Envelope) (o : Option Bytes)
          → R w.db (process_self lower hash tokens faulty who key env value p o w).1.db
      unfolding process_self
      process_self-moves env none =
          settle-moves w.db _ (persist_parse_failure hash who value p malformed w)
            ((persist_parse_failure-Moves W hash who value p malformed).at w)
      process_self-moves env (some self) =
          if-moves w.db (not (key_matches lower hash tokens key env self)) _ _
            (settle-moves w.db _ (quarantine_inbox lower hash env quarantined_mismatch none none w)
              ((quarantine_inbox-Moves W lower hash env (all env.event_id) quarantined_mismatch none
                  none).at
                w))
            (process_valid-moves env)

      process_parsed-moves :
          (r : ParseResult Envelope)
          → R w.db (process_parsed lower hash tokens faulty who key value p r w).1.db
      unfolding process_parsed
      process_parsed-moves (err e) =
          settle-moves w.db _ (persist_parse_failure hash who value p e w)
            ((persist_parse_failure-Moves W hash who value p e).at w)
      process_parsed-moves (ok env) =
          if-moves w.db (not (is_projection_family env.event_type)) _ _
            (settle-moves w.db _ (persist_consumer_unsupported hash lower env value p w)
              ((persist_consumer_unsupported-Moves W hash lower env value p).at w))
            (process_self-moves env (projection_self_id env))

      pub process_record-Moves :
          R w.db (process_record lower hash tokens faulty who key value p w).1.db
      unfolding process_record
      process_record-Moves = process_parsed-moves (parse lower tokens value)
