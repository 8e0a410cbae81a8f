-- ===== src/Platform/Lineage.antt =====
-- `applyLineage` of platform/lineage.go, and the family dispatch `applyEvent`.
pub mod Refines
use seshatops.Base.{
  Bool, true, false, ◌&&◌, ◌||◌, not, Option, none, some, List, [], ◌∷◌, ◌++◌, Bytes, lit, str_eq,
  if◌then◌else◌,
}
use seshatops.Base.Int64.{ℤ, pos, ltb_ℤ, eqb_ℤ, ◌+ℤ◌}
use seshatops.Base.Table.{select_row, is_some}
use seshatops.Event.Payload.{
  Envelope, as_quantity_decremented, as_supplier_registered, as_ingredient_lot_received,
  as_production_batch_produced, as_shipment_dispatched, event_type_quantity_decremented,
  event_type_supplier_registered, event_type_ingredient_lot_received,
  event_type_production_batch_produced, event_type_shipment_dispatched,
}
use seshatops.Platform.World.{
  Disposition, applied, duplicate_noop, quarantined_gap, quarantined_stale, quarantined_invalid,
  malformed, HopRow, Hop, supplier, lot, batch, shipment, Db,
}
use seshatops.Platform.Monad.{M, pure, raise, ◌>>=◌, ◌>>◌, query, exec_returning}
use seshatops.Platform.Store.{is_gap, inbox_row, upsert_inbox}
use seshatops.Platform.Projection.{decide, decide_version, apply_projection}

unfoldable pub is_projection_family : Bytes → Bool
is_projection_family t =
    str_eq t event_type_quantity_decremented
    || str_eq t event_type_supplier_registered
    || str_eq t event_type_ingredient_lot_received
    || str_eq t event_type_production_batch_produced
    || str_eq t event_type_shipment_dispatched

-- The identifier of its own aggregate in the payload, if the payload is of the event's family.
unfoldable pub projection_self_id : Envelope → Option Bytes
projection_self_id env =
    if str_eq env.event_type event_type_quantity_decremented
    then elim (as_quantity_decremented env) [ none ↦ none | some p ↦ some p.item_id ]
    else if str_eq env.event_type event_type_supplier_registered
    then elim (as_supplier_registered env) [ none ↦ none | some p ↦ some p.supplier_id ]
    else if str_eq env.event_type event_type_ingredient_lot_received
    then elim (as_ingredient_lot_received env) [ none ↦ none | some p ↦ some p.lot_id ]
    else if str_eq env.event_type event_type_production_batch_produced
    then elim (as_production_batch_produced env) [ none ↦ none | some p ↦ some p.batch_id ]
    else if str_eq env.event_type event_type_shipment_dispatched
    then elim (as_shipment_dispatched env) [ none ↦ none | some p ↦ some p.shipment_id ]
    else none

-- The lineage table of an event type: the `switch` of each query.
unfoldable pub hop_of : Bytes → Option Hop
hop_of t =
    if str_eq t event_type_supplier_registered
    then some supplier
    else if str_eq t event_type_ingredient_lot_received
    then some lot
    else if str_eq t event_type_production_batch_produced
    then some batch
    else if str_eq t event_type_shipment_dispatched
    then some shipment
    else none

unfoldable pub table : Hop → Db → List HopRow
table supplier db = db.suppliers
table lot db = db.lots
table batch db = db.batches
table shipment db = db.shipments

unfoldable pub append_hop : Hop → HopRow → Db → Db
append_hop supplier row db = record db { suppliers = db.suppliers ++ row ∷ [] }
append_hop lot row db = record db { lots = db.lots ++ row ∷ [] }
append_hop batch row db = record db { batches = db.batches ++ row ∷ [] }
append_hop shipment row db = record db { shipments = db.shipments ++ row ∷ [] }

abbrev pub is_hop : Bytes → Bytes → HopRow → Bool
is_hop tenant id row = str_eq row.tenant_id tenant && str_eq row.id id

unfoldable pub find_hop : Hop → Bytes → Bytes → Db → Option HopRow
unfolding table
find_hop h tenant id db = select_row (is_hop tenant id) (table h db)

-- The primary key and the UNIQUE constraints of the lineage tables.
unfoldable pub clashes : Hop → HopRow → HopRow → Bool
clashes supplier new old = is_hop new.tenant_id new.id old
clashes lot new old =
    str_eq old.tenant_id new.tenant_id
    && (str_eq old.id new.id || str_eq old.parent_id new.parent_id)
clashes batch new old =
    str_eq old.tenant_id new.tenant_id
    && (str_eq old.id new.id || str_eq old.parent_id new.parent_id)
clashes shipment new old =
    str_eq old.tenant_id new.tenant_id
    && (str_eq old.id new.id
        || str_eq old.parent_id new.parent_id
        || str_eq old.order_id new.order_id)

-- INSERT … ON CONFLICT DO NOTHING; the rows affected are read before the change.
unfoldable pub hop_is_free : Hop → HopRow → Db → Bool
unfolding table clashes
hop_is_free h row db = not (is_some (select_row (clashes h row) (table h db)))

unfoldable pub add_hop : Hop → HopRow → Db → Db
unfolding append_hop
add_hop h row db = if hop_is_free h row db then append_hop h row db else db

abbrev hop_row : Envelope → Bytes → Bytes → Bytes → Bytes → HopRow
hop_row env id parent item order = record {
  tenant_id = env.tenant_id;
  id = id;
  parent_id = parent;
  item_id = item;
  order_id = order;
  aggregate_version = env.aggregate_version;
  source_event_id = env.event_id;
  event_schema_version = env.event_schema_version;
  occurred_at = env.occurred_at;
  recorded_at = env.recorded_at;
  correlation_id = env.correlation_id;
  causation_id = env.causation_id;
  trace_id = env.trace_id;
}

-- The row of the event, if its payload is of the table's family.
unfoldable pub row_of : Hop → Envelope → Option HopRow
row_of supplier env = elim (as_supplier_registered env) [
  | none ↦ none
  | some p ↦ some (hop_row env p.supplier_id [] [] [])
]
row_of lot env = elim (as_ingredient_lot_received env) [
  | none ↦ none
  | some p ↦ some (hop_row env p.lot_id p.supplier_id p.item_id [])
]
row_of batch env = elim (as_production_batch_produced env) [
  | none ↦ none
  | some p ↦ some (hop_row env p.batch_id p.lot_id [] [])
]
row_of shipment env = elim (as_shipment_dispatched env) [
  | none ↦ none
  | some p ↦ some (hop_row env p.shipment_id p.batch_id [] p.order_id)
]

-- The statement answers whether it inserted its row.
unfoldable pub insert_row : Hop → Option HopRow → M Bool
insert_row h none = raise malformed
insert_row h (some row) = exec_returning (hop_is_free h row) (add_hop h row)

unfoldable pub insert_lineage_hop : Hop → Envelope → M Bool
unfolding insert_row row_of
insert_lineage_hop h env = insert_row h (row_of h env)

unfoldable pub lock_lineage_version : Hop → Envelope → M (Option HopRow)
lock_lineage_version h env = query (find_hop h env.tenant_id env.aggregate_id)

unfoldable pub lineage_source_event_id : Hop → Envelope → M (Option HopRow)
lineage_source_event_id h env = query (find_hop h env.tenant_id env.aggregate_id)

unfoldable pub lineage_existing_disposition : ℤ → ℤ → Disposition
lineage_existing_disposition current incoming =
    if not (ltb_ℤ current incoming)
    then quarantined_stale
    else if ltb_ℤ (current +ℤ pos 1) incoming
    then quarantined_gap
    else quarantined_invalid

abbrev gap_bytes : Disposition → Bytes → Option Bytes
gap_bytes disposition canonical = if is_gap disposition then some canonical else none

abbrev pub is_source : Envelope → Option HopRow → Bool
is_source env none = false
is_source env (some row) = str_eq row.source_event_id env.event_id

-- The hop is there: stale, unless the row came from this very event.
unfoldable pub lineage_existing :
    Hop → Envelope → Bytes → Bytes → HopRow → Disposition → M Disposition
lineage_existing h env hash canonical row quarantined_stale = do
  source ← lineage_source_event_id h env
  if is_source env source
      then decide env hash duplicate_noop
      else decide_version env hash quarantined_stale (row.aggregate_version +ℤ pos 1) none
lineage_existing h env hash canonical row disposition =
    decide_version env hash disposition (row.aggregate_version +ℤ pos 1)
      (gap_bytes disposition canonical)

unfoldable pub lineage_first : Hop → Envelope → Bytes → Bytes → M Disposition
lineage_first h env hash canonical =
    if not (eqb_ℤ env.aggregate_version (pos 1))
    then decide_version env hash quarantined_gap (pos 1) (some canonical)
    else do
      inserted ← insert_lineage_hop h env
      if inserted then decide env hash applied else do
        source ← lineage_source_event_id h env
        decide env hash (if is_source env source then duplicate_noop else quarantined_invalid)

unfoldable pub lineage_row : Hop → Envelope → Bytes → Bytes → Option HopRow → M Disposition
lineage_row h env hash canonical none = lineage_first h env hash canonical
lineage_row h env hash canonical (some row) =
    lineage_existing h env hash canonical row
      (lineage_existing_disposition row.aggregate_version env.aggregate_version)

unfoldable pub lineage_hop : Envelope → Bytes → Bytes → Option Hop → M Disposition
lineage_hop env hash canonical none = raise malformed
lineage_hop env hash canonical (some h) = do
  row ← lock_lineage_version h env
  lineage_row h env hash canonical row

unfoldable pub apply_lineage : Envelope → Bytes → Bytes → M Disposition
apply_lineage env hash canonical = lineage_hop env hash canonical (hop_of env.event_type)

unfoldable pub apply_event : Envelope → Bytes → Bytes → M Disposition
apply_event env hash canonical =
    if str_eq env.event_type event_type_quantity_decremented
    then apply_projection env hash canonical
    else apply_lineage env hash canonical
