-- ===== src/Platform/Redrive.antt =====
-- `redriveGaps` of platform/process.go.
--
-- The loop takes fuel: one more than the number of gap rows (`gap_count`).
pub mod Measure
pub mod Enough
pub mod Refines
use seshatops.Base.{
  ℕ, zero, suc, Bool, true, false, ◌&&◌, ◌||◌, not, Option, none, some, List, [], ◌∷◌, ◌++◌, Bytes,
  lit, str_eq, if◌then◌else◌,
}
use seshatops.Base.Int64.{ℤ, pos, eqb_ℤ, ◌+ℤ◌}
use seshatops.Base.Table.{select_row, count_where, is_some}
use seshatops.Base.Result.{Result, ok, err}
use seshatops.Event.Text.{EventError, malformed, unsupported}
use seshatops.Event.Json.{Tokens}
use seshatops.Event.Payload.{Envelope}
use seshatops.Event.Decode.{ParseResult}
use seshatops.Event.Canonical.{content_hash}
use seshatops.Event.Parse.{parse}
use seshatops.Platform.World.{
  Disposition, applied, duplicate_noop, quarantined_conflict, quarantined_gap, quarantined_invalid,
  quarantined_mismatch, PlatformError, transient, handler_poison, poison, exhausted, InboxRow,
  ProjectionRow, Position, Db, World,
}
use seshatops.Platform.World
use seshatops.Platform.Monad.{M, pure, raise, ◌>>=◌, ◌>>◌, query}
use seshatops.Platform.Store.{is_gap, is_applied, find_projection}
use seshatops.Platform.Lineage.{is_projection_family, projection_self_id}
use seshatops.Platform.Process.{Decision, process_validated, quarantine_inbox}
use seshatops.Platform.Failure.{
  Identity, Handled, parked, retry, poisoned, persist_parse_failure, persist_consumer_unsupported,
  bump_poison_attempt,
}

unfoldable pub is_stored : Option Bytes → Bool
is_stored none = false
is_stored (some _) = true

-- The WHERE clause on the inbox, for the version of the projection row.
unfoldable pub is_next_gap : Bytes → Bytes → Bytes → ℤ → InboxRow → Bool
is_next_gap tenant type id version row =
    str_eq row.tenant_id tenant
    && str_eq row.aggregate_type type
    && str_eq row.aggregate_id id
    && is_gap row.disposition
    && eqb_ℤ row.aggregate_version (version +ℤ pos 1)
    && is_stored row.event_bytes

unfoldable pub next_gap_of : Bytes → Bytes → Bytes → Db → Option ProjectionRow → Option InboxRow
next_gap_of tenant type id db none = none
next_gap_of tenant type id db (some p) =
    select_row (is_next_gap tenant type id p.aggregate_version) db.inbox

-- The join of the inbox and the projection, for one aggregate.
unfoldable pub next_gap : Bytes → Bytes → Bytes → Db → Option InboxRow
unfolding next_gap_of
next_gap tenant type id db = next_gap_of tenant type id db (find_projection tenant id db)

abbrev pub gap_count : Db → ℕ
gap_count db = count_where (λ r. is_gap r.disposition) db.inbox

abbrev pub platform_error : EventError → PlatformError
platform_error unsupported = World.unsupported
platform_error _ = World.malformed

unfoldable pub lift_event : {A : Type 0} → ParseResult A → M A
lift_event (ok a) = pure a
lift_event (err e) = raise (platform_error e)

abbrev pub bytes_of : InboxRow → Bytes
bytes_of row = elim row.event_bytes [ none ↦ [] | some b ↦ b ]

-- `exhausted` stands for a loop that goes on longer than that.
abbrev pub ended : Bool → M (Unit {0})
ended true = pure tt
ended false = raise exhausted

module _ (lower : ℕ → ℕ) (hash : Bytes → Bytes) (tokens : Bytes → Tokens) where
  -- One round of the loop on a selected row: whether to go round again.
  unfoldable pub redrive_row : InboxRow → M Bool
  redrive_row row = do
    env ← lift_event (parse lower tokens (bytes_of row))
    got ← lift_event (content_hash lower hash env)
    if not (str_eq got row.content_hash)
        then (do _ ← quarantine_inbox lower hash env quarantined_conflict none none; pure true)
        else (do res ← process_validated lower hash env; pure (is_applied res.disposition))

  unfoldable pub redrive_found : Option InboxRow → M Bool
  redrive_found none = pure false
  redrive_found (some row) = redrive_row row

  unfoldable pub redrive_round : Bytes → Bytes → Bytes → M Bool
  redrive_round tenant type id = do found ← query (next_gap tenant type id); redrive_found found

  -- The loop: whether it reached its end within the rounds that it may take.
  unfoldable pub redrive : ℕ → Bytes → Bytes → Bytes → M Bool
  redrive zero tenant type id = pure false
  redrive (suc f) tenant type id = redrive_round tenant type id >>= λ again. elim again [
    | true ↦ redrive f tenant type id
    | false ↦ pure true
  ]

  unfoldable pub redrive_gaps : Bytes → Bytes → Bytes → M (Unit {0})
  redrive_gaps tenant type id w = (redrive (suc (gap_count w.db)) tenant type id >>= ended) w
