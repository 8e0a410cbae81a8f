-- ===== src/Platform/Process.antt =====
-- `processValidated` and `quarantineInbox` of platform/process.go.
--
-- `hash` is the hexadecimal SHA-256. `commitWithHook` is the commit: its hook is nil outside tests.
pub mod Records
pub mod Applies
pub mod Repeats
pub mod Refines
use seshatops.Base.{
  ℕ, Bool, true, false, ◌&&◌, not, Option, none, some, [], ◌∷◌, ◌++◌, Bytes, str_eq, if◌then◌else◌,
}
use seshatops.Base.Int64.{ℤ}
use seshatops.Base.Result.{Result, ok, err}
use seshatops.Event.Payload.{
  Envelope, QuantityDecremented, as_quantity_decremented, event_type_quantity_decremented,
}
use seshatops.Event.Decode.{ParseResult}
use seshatops.Event.Canonical.{canonical_bytes, content_hash}
use seshatops.Platform.World.{
  Disposition, applied, duplicate_noop, quarantined_conflict, quarantined_gap, transient, malformed,
  InboxRow, AppliedUpdate, World,
}
use seshatops.Platform.Monad.{M, pure, raise, ◌>>=◌, ◌>>◌, transact}
use seshatops.Platform.Store.{is_gap, is_applied, inbox_row, lock_inbox, upsert_inbox}
use seshatops.Platform.Projection.{decide}
use seshatops.Platform.Lineage.{apply_event}

-- `Result` of a delivery that was decided; `ShouldAck` is true in all of them.
pub record Decision : Type 0 where
  pub disposition : Disposition
  pub event_id : Bytes

-- An error of package event, wrapped as transient.
unfoldable pub or_transient : {A : Type 0} → ParseResult A → M A
or_transient (ok a) = pure a
or_transient (err _) = raise transient

-- What a transaction decided, and whether `applyEvent` decided it.
abbrev pub Verdict : Type 0
Verdict = Disposition × Bool

unfoldable pub apply_fresh : Envelope → Bytes → Bytes → M Verdict
apply_fresh env hash canonical = do
  disposition ← apply_event env hash canonical
  pure (disposition, true)

unfoldable pub keep_decision : Disposition → M Verdict
keep_decision disposition = pure (disposition, false)

unfoldable pub repeat_decision : Envelope → Bytes → Disposition → M Verdict
repeat_decision env hash disposition = do _ ← decide env hash disposition; pure (disposition, false)

-- The inbox has the event with the same content: the `switch` on its disposition.
unfoldable pub known_event : Envelope → Bytes → Bytes → Disposition → M Verdict
known_event env hash canonical applied = repeat_decision env hash duplicate_noop
known_event env hash canonical duplicate_noop = repeat_decision env hash duplicate_noop
known_event env hash canonical quarantined_gap = apply_fresh env hash canonical
known_event env hash canonical terminal = keep_decision terminal

unfoldable pub decide_event : Envelope → Bytes → Bytes → Option InboxRow → M Verdict
decide_event env hash canonical none = apply_fresh env hash canonical
decide_event env hash canonical (some existing) =
    if not (str_eq existing.content_hash hash)
    then repeat_decision env existing.content_hash quarantined_conflict
    else known_event env hash canonical existing.disposition

-- The transaction of `processValidated`.
unfoldable pub process_transaction : Envelope → Bytes → Bytes → M Verdict
process_transaction env hash canonical =
    transact (do existing ← lock_inbox env.event_id; decide_event env hash canonical existing)

unfoldable pub notify_applied : AppliedUpdate → M (Unit {0})
notify_applied u w = (ok tt, record w { notified = w.notified ++ u ∷ [] })

pub announce_payload : Envelope → Option QuantityDecremented → M (Unit {0})
announce_payload env none = raise malformed
announce_payload env (some p) = notify_applied (record {
  tenant_id = env.tenant_id;
  item_id = env.aggregate_id;
  quantity_on_hand = p.quantity_after;
  aggregate_version = env.aggregate_version;
  event_id = env.event_id;
})

unfoldable pub announce : Envelope → Verdict → M (Unit {0})
unfolding announce_payload
announce env (disposition, fresh) =
    if fresh && is_applied disposition && str_eq env.event_type event_type_quantity_decremented
    then announce_payload env (as_quantity_decremented env)
    else pure tt

module _ (lower : ℕ → ℕ) (hash : Bytes → Bytes) where
  unfoldable pub process_validated : Envelope → M Decision
  process_validated env = do
    h ← or_transient (content_hash lower hash env)
    canonical ← or_transient (canonical_bytes lower env)
    verdict ← process_transaction env h canonical
    announce env verdict
    pure (record { disposition = verdict.0; event_id = env.event_id })

  -- A hash that cannot be computed is stored empty, bytes that cannot be computed are not stored.
  abbrev hash_or_empty : ParseResult Bytes → Bytes
  hash_or_empty (ok h) = h
  hash_or_empty (err _) = []

  abbrev bytes_or_none : ParseResult Bytes → Option Bytes
  bytes_or_none (ok b) = some b
  bytes_or_none (err _) = none

  unfoldable pub quarantine_inbox : Envelope → Disposition → Option ℤ → Option ℤ → M Decision
  quarantine_inbox env disposition expected received = do
    transact (
        upsert_inbox
          (record (inbox_row env (hash_or_empty (content_hash lower hash env)) disposition) {
            expected_version = expected;
            received_version = received;
            event_bytes =
                if is_gap disposition then bytes_or_none (canonical_bytes lower env) else none;
          }))
    pure (record { disposition = disposition; event_id = env.event_id })
