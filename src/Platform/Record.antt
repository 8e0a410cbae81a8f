-- ===== src/Platform/Record.antt =====
-- `ProcessRecord` of platform/process.go.
--
-- The hooks that only tests set are nil, but for the handler fault, which `faulty` gives.
pub mod Withheld
pub mod Durable
pub mod Acks
pub mod Refines
use seshatops.Base.{
  ℕ, zero, suc, Bool, true, false, ◌&&◌, ◌||◌, not, Option, none, some, List, [], ◌∷◌, ◌++◌, Bytes,
  lit, str_eq, if◌then◌else◌,
}
use seshatops.Base.Int64.{ℤ, pos, eqb_ℤ, ◌+ℤ◌}
use seshatops.Base.Table.{select_row, count_where, is_some}
use seshatops.Base.Result.{Result, ok, err}
use seshatops.Relay.Claim.{aggregate_key}
use seshatops.Event.Text.{EventError, malformed, unsupported}
use seshatops.Event.Json.{Tokens}
use seshatops.Event.Payload.{Envelope}
use seshatops.Event.Decode.{ParseResult}
use seshatops.Event.Canonical.{content_hash}
use seshatops.Event.Parse.{parse}
use seshatops.Platform.World.{
  Disposition, applied, duplicate_noop, quarantined_conflict, quarantined_gap, quarantined_invalid,
  quarantined_mismatch, PlatformError, transient, handler_poison, poison, exhausted, InboxRow,
  ProjectionRow, Position, Db, World,
}
use seshatops.Platform.World
use seshatops.Platform.Monad.{M, pure, raise, ◌>>=◌, ◌>>◌, query}
use seshatops.Platform.Store.{is_gap, is_applied, find_projection}
use seshatops.Platform.Lineage.{is_projection_family, projection_self_id}
use seshatops.Platform.Process.{Decision, process_validated, quarantine_inbox}
use seshatops.Platform.Redrive.{redrive_gaps}
use seshatops.Platform.Failure.{
  Identity, Handled, parked, retry, poisoned, persist_parse_failure, persist_consumer_unsupported,
  bump_poison_attempt,
}

-- `Result` with its error: what the caller of `ProcessRecord` sees.
pub record Delivery : Type 0 where
  pub disposition : Option Disposition
  pub event_id : Bytes
  pub should_ack : Bool
  pub failure : Option PlatformError

abbrev pub acked : Disposition → Bytes → Delivery
acked d id = record { disposition = some d; event_id = id; should_ack = true; failure = none }

abbrev pub withheld : PlatformError → Delivery
withheld e = record { disposition = none; event_id = []; should_ack = false; failure = some e }

abbrev pub handled : Handled → Delivery
handled parked = acked quarantined_invalid []
handled retry = withheld transient
handled poisoned = record (acked quarantined_invalid []) { failure = some poison }

abbrev pub settle :
    {A : Type 0} → (A → Delivery) → Result PlatformError A × World → Delivery × World
settle f (ok a, w) = (f a, w)
settle f (err e, w) = (withheld e, w)

-- The end of `ProcessRecord`: an applied event or a repeat re-drives the gaps behind it.
abbrev pub redriven : Decision → Result PlatformError (Unit {0}) × World → Delivery × World
redriven d (ok _, w) = (acked d.disposition d.event_id, w)
redriven d (err e, w) =
    (record (acked d.disposition d.event_id) { should_ack = false; failure = some transient }, w)

abbrev pub is_redrivable : Disposition → Bool
is_redrivable applied = true
is_redrivable duplicate_noop = true
is_redrivable _ = false

module _ (lower : ℕ → ℕ) (hash : Bytes → Bytes) (tokens : Bytes → Tokens) where
  abbrev after_decision : Envelope → Result PlatformError Decision × World → Delivery × World
  after_decision env (err e, w) = (withheld e, w)
  after_decision env (ok d, w) =
      if is_redrivable d.disposition
      then redriven d
          (redrive_gaps lower hash tokens env.tenant_id env.aggregate_type env.aggregate_id w)
      else (acked d.disposition d.event_id, w)

  unfoldable pub process_valid : Bool → Envelope → Bytes → Position → World → Delivery × World
  process_valid faulty env value p w =
      if faulty
      then settle handled (bump_poison_attempt hash lower env value p (lit "handler_poison") w)
      else after_decision env (process_validated lower hash env w)

  abbrev key_matches : Bytes → Envelope → Bytes → Bool
  key_matches key env self =
      str_eq key (aggregate_key env.tenant_id env.aggregate_type env.aggregate_id)
      && str_eq self env.aggregate_id

  unfoldable pub process_self :
      Bool
      → Identity
      → Bytes
      → Envelope
      → Bytes
      → Position
      → Option Bytes
      → World
      → Delivery × World
  process_self faulty recovered key env value p none w =
      settle handled (persist_parse_failure hash recovered value p malformed w)
  process_self faulty recovered key env value p (some self) w =
      if not (key_matches key env self)
      then settle (λ d. acked d.disposition d.event_id)
          (quarantine_inbox lower hash env quarantined_mismatch none none w)
      else process_valid faulty env value p w

  unfoldable pub process_parsed :
      Bool → Identity → Bytes → Bytes → Position → ParseResult Envelope → World → Delivery × World
  process_parsed faulty recovered key value p (err e) w =
      settle handled (persist_parse_failure hash recovered value p e w)
  process_parsed faulty recovered key value p (ok env) w =
      if not (is_projection_family env.event_type)
      then settle handled (persist_consumer_unsupported hash lower env value p w)
      else process_self faulty recovered key env value p (projection_self_id env) w

  -- `ProcessRecord` on a non-nil database; an empty topic has been replaced by the default.
  unfoldable pub process_record :
      Bool → Identity → Bytes → Bytes → Position → World → Delivery × World
  process_record faulty recovered key value p w =
      process_parsed faulty recovered key value p (parse lower tokens value) w
