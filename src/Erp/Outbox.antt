-- ===== src/Erp/Outbox.antt =====
-- erp/outbox.go: the pending outbox row of an event, and the parent of a hop.
use seshatops.Base.{
  ℕ, Bool, false, select, ◌&&◌, ◌||◌, not, Option, none, some, List, [], ◌∷◌, ◌++◌, Bytes, str_eq,
  if◌then◌else◌,
}
use seshatops.Base.Int64.{ltb_ℤ, eqb_ℤ}
use seshatops.Base.Table.{select_row, is_some}
use seshatops.Event.Payload.{Envelope}
use seshatops.Event.Validate.{validate}
use seshatops.Event.Canonical.{canonical_bytes, content_hash}
use seshatops.Relay.Claim.{OutboxRow, pending, has_id}
use seshatops.Erp.World.{
  ErpDb, M, ◌>>=◌, ◌>>◌, pure, raise_if, lift_event, query, write, found, unknown_source,
  invalid_transition, duplicate_event,
}

abbrev pub is_of : Bytes → Bytes → Bytes → OutboxRow → Bool
is_of tenant type id row =
    str_eq row.tenant_id tenant && str_eq row.aggregate_type type && str_eq row.aggregate_id id

-- A key of erp.outbox is taken: event_id, or the aggregate with its version.
abbrev pub outbox_taken : Envelope → ErpDb → Bool
outbox_taken env db =
    is_some (select_row (has_id env.event_id) db.outbox)
    || is_some (
        select_row
          (λ row.
            is_of env.tenant_id env.aggregate_type env.aggregate_id row
            && eqb_ℤ row.aggregate_version env.aggregate_version)
          db.outbox)

abbrev pub pending_row : Envelope → Bytes → Bytes → OutboxRow
pending_row env bytes hash = record {
  event_id = env.event_id;
  tenant_id = env.tenant_id;
  aggregate_type = env.aggregate_type;
  aggregate_id = env.aggregate_id;
  aggregate_version = env.aggregate_version;
  content_hash = hash;
  event_bytes = bytes;
  status = pending;
  publish_attempts = 0;
  last_error_code = none;
  lease_owner = none;
  lease_expires_at = none;
}

abbrev pub add_outbox : OutboxRow → ErpDb → ErpDb
add_outbox row db = record db { outbox = db.outbox ++ row ∷ [] }

-- ORDER BY aggregate_version LIMIT 1: of equal versions the first.
unfoldable pub first_version : Option OutboxRow → List OutboxRow → Option OutboxRow
first_version best [] = best
first_version none (r ∷ rs) = first_version (some r) rs
first_version (some b) (r ∷ rs) =
    first_version (some (if ltb_ℤ r.aggregate_version b.aggregate_version then r else b)) rs

unfoldable pub parent_row : Bytes → Bytes → Bytes → List OutboxRow → Option OutboxRow
parent_row tenant type id rows = first_version none (select (is_of tenant type id) rows)

-- `parentOutboxEventID`
unfoldable pub parent_outbox_event_id : Bytes → Bytes → Bytes → M Bytes
parent_outbox_event_id tenant type id = do
  row ← query (λ db. parent_row tenant type id db.outbox)
  parent ← found unknown_source row
  pure (parent.event_id)

abbrev pub names : Option Bytes → Bytes → Bool
names none want = false
names (some got) want = str_eq got want

-- `requireCausation`
unfoldable pub require_causation : Option Bytes → Bytes → M (Unit {0})
require_causation got want = raise_if (not (names got want)) invalid_transition

module _ (lower : ℕ → ℕ) (hash : Bytes → Bytes) where
  -- `insertPendingOutbox`
  unfoldable pub insert_pending_outbox : Envelope → M (Bytes × Bytes)
  insert_pending_outbox env = do
    lift_event (validate lower env)
    bytes ← lift_event (canonical_bytes lower env)
    digest ← lift_event (content_hash lower hash env)
    write (outbox_taken env) duplicate_event (add_outbox (pending_row env bytes digest))
    pure (bytes, digest)
