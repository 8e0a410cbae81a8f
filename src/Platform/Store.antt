-- ===== src/Platform/Store.antt =====
-- The SQL statements of platform/process.go on the inbox and the inventory projection.
pub mod Gaps
use seshatops.Base.{
  Bool, true, false, ◌&&◌, Option, none, some, Bytes, str_eq, ◌∷◌, [], ◌++◌, if◌then◌else◌,
}
use seshatops.Base.Int64.{ℤ}
use seshatops.Base.Table.{select_row, update_where, upsert}
use seshatops.Event.Payload.{Envelope}
use seshatops.Platform.World.{
  Disposition, applied, quarantined_conflict, quarantined_gap, InboxRow, ProjectionRow, Db,
}
use seshatops.Platform.Monad.{M, query, exec}

abbrev pub is_conflict : Disposition → Bool
is_conflict quarantined_conflict = true
is_conflict _ = false

abbrev pub is_gap : Disposition → Bool
is_gap quarantined_gap = true
is_gap _ = false

abbrev pub is_applied : Disposition → Bool
is_applied applied = true
is_applied _ = false

-- WHERE event_id = $2
abbrev pub has_event_id : Bytes → InboxRow → Bool
has_event_id id row = str_eq row.event_id id

-- WHERE tenant_id = $1 AND item_id = $2
abbrev pub is_item : Bytes → Bytes → ProjectionRow → Bool
is_item tenant item row = str_eq row.tenant_id tenant && str_eq row.item_id item

unfoldable pub find_inbox : Bytes → Db → Option InboxRow
find_inbox id db = select_row (has_event_id id) db.inbox

unfoldable pub find_projection : Bytes → Bytes → Db → Option ProjectionRow
find_projection tenant item db = select_row (is_item tenant item) db.inventory

-- SET … of the upsert: a conflict keeps the hash that was stored first.
abbrev pub merge_inbox : InboxRow → InboxRow → InboxRow
merge_inbox new old = record new {
  event_id = old.event_id;
  content_hash = if is_conflict new.disposition then old.content_hash else new.content_hash;
}

unfoldable pub put_inbox : InboxRow → Db → Db
put_inbox row db = record db {
  inbox = upsert (has_event_id row.event_id) (merge_inbox row) row db.inbox;
}

unfoldable pub add_projection : ProjectionRow → Db → Db
add_projection row db = record db { inventory = db.inventory ++ row ∷ [] }

unfoldable pub set_projection : Bytes → Bytes → ℤ → ℤ → Db → Db
set_projection tenant item qty version db = record db {
  inventory =
      update_where (is_item tenant item)
        (λ r. record r { quantity_on_hand = qty; aggregate_version = version }) db.inventory;
}

unfoldable pub lock_inbox : Bytes → M (Option InboxRow)
lock_inbox id = query (find_inbox id)

unfoldable pub upsert_inbox : InboxRow → M (Unit {0})
upsert_inbox row = exec (put_inbox row)

unfoldable pub lock_projection : Bytes → Bytes → M (Option ProjectionRow)
lock_projection tenant item = query (find_projection tenant item)

-- `insertProjection`
unfoldable pub insert_projection : Bytes → Bytes → ℤ → ℤ → M (Unit {0})
insert_projection tenant item qty version = exec (
    add_projection (record {
      tenant_id = tenant;
      item_id = item;
      quantity_on_hand = qty;
      aggregate_version = version;
    }))

unfoldable pub update_projection : Bytes → Bytes → ℤ → ℤ → M (Unit {0})
update_projection tenant item qty version = exec (set_projection tenant item qty version)

-- The inbox row of an event, with no version evidence and no bytes.
abbrev pub inbox_row : Envelope → Bytes → Disposition → InboxRow
inbox_row env hash disposition = record {
  event_id = env.event_id;
  tenant_id = env.tenant_id;
  content_hash = hash;
  aggregate_type = env.aggregate_type;
  aggregate_id = env.aggregate_id;
  aggregate_version = env.aggregate_version;
  disposition = disposition;
  expected_version = none;
  received_version = none;
  event_bytes = none;
}

-- The same with the version that was expected and the one that came.
abbrev pub version_row : Envelope → Bytes → Disposition → ℤ → Option Bytes → InboxRow
version_row env hash disposition expected bytes = record (inbox_row env hash disposition) {
  expected_version = some expected;
  received_version = some env.aggregate_version;
  event_bytes = bytes;
}
