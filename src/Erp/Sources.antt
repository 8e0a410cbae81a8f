-- ===== src/Erp/Sources.antt =====
-- erp/lineage.go: the hops of the lineage, each a row and its event in one transaction.
pub mod Settles
pub mod Spec
use seshatops.Base.{
  ℕ, Bool, true, false, ◌&&◌, ◌||◌, not, Option, none, some, List, [], ◌∷◌, ◌++◌, Bytes, str_eq,
  if◌then◌else◌,
}
use seshatops.Base.Int64.{ℤ, pos}
use seshatops.Base.Table.{select_row, is_some}
use seshatops.Base.Result.{Result, ok, err}
use seshatops.Event.Text.{valid_utf8, is_blank}
use seshatops.Event.Payload.{
  Envelope, Payload, supplier_registered, ingredient_lot_received, production_batch_produced,
  shipment_dispatched, event_type_supplier_registered, event_type_ingredient_lot_received,
  event_type_production_batch_produced, event_type_shipment_dispatched, aggregate_type_supplier,
  aggregate_type_ingredient_lot, aggregate_type_production_batch, aggregate_type_shipment,
  producer_synthetic_erp, schema_version_v1,
}
use seshatops.Erp.Checks.{accepts_uuid, accepts_lower_uuid, accepts_canonical_id, accepts_time_z}
use seshatops.Erp.World.{
  Item, Supplier, Lot, Batch, Shipment, ErpDb, ErpError, M, ◌>>=◌, ◌>>◌, raise_if, query, write,
  found, Weather, in_transaction, unknown_item, unknown_source, tenant_mismatch, invalid_transition,
  duplicate_source,
}
use seshatops.Erp.Outbox.{parent_outbox_event_id, require_causation, insert_pending_outbox}
use seshatops.Erp.Orders.{is_item}

-- The fields that every command of a hop has.
pub record Hop : Type 0 where
  pub event_id : Bytes
  pub tenant_id : Bytes
  pub occurred_at : Bytes
  pub recorded_at : Bytes
  pub correlation_id : Bytes
  pub causation_id : Option Bytes
  pub trace_id : Bytes

abbrev pub first_aggregate_version : ℤ
first_aggregate_version = pos 1

-- The envelope of a hop: the first version of its aggregate.
abbrev pub hop_event : Hop → Bytes → Bytes → Bytes → Option Bytes → Payload → Envelope
hop_event hop type aggregate id causation payload = record {
  event_id = hop.event_id;
  tenant_id = hop.tenant_id;
  event_type = type;
  event_schema_version = schema_version_v1;
  aggregate_type = aggregate;
  aggregate_id = id;
  aggregate_version = first_aggregate_version;
  occurred_at = hop.occurred_at;
  recorded_at = hop.recorded_at;
  producer = producer_synthetic_erp;
  correlation_id = hop.correlation_id;
  causation_id = causation;
  trace_id = hop.trace_id;
  payload = payload;
}

abbrev pub is_supplier : Bytes → Bytes → Supplier → Bool
is_supplier tenant id row = str_eq row.tenant_id tenant && str_eq row.supplier_id id

abbrev pub is_lot : Bytes → Bytes → Lot → Bool
is_lot tenant id row = str_eq row.tenant_id tenant && str_eq row.lot_id id

abbrev pub is_batch : Bytes → Bytes → Batch → Bool
is_batch tenant id row = str_eq row.tenant_id tenant && str_eq row.batch_id id

abbrev pub is_shipment : Bytes → Bytes → Shipment → Bool
is_shipment tenant id row = str_eq row.tenant_id tenant && str_eq row.shipment_id id

-- `lockTenantRow`: `f` answers the tenant of the row that the statement finds.
unfoldable pub lock_tenant_row : (ErpDb → Option Bytes) → Bytes → ErpError → M (Unit {0})
lock_tenant_row f tenant missing = do
  row ← query f
  row_tenant ← found missing row
  raise_if (not (str_eq row_tenant tenant)) tenant_mismatch

abbrev tenant_of_supplier : Option Supplier → Option Bytes
tenant_of_supplier none = none
tenant_of_supplier (some row) = some row.tenant_id

abbrev tenant_of_item : Option Item → Option Bytes
tenant_of_item none = none
tenant_of_item (some row) = some row.tenant_id

abbrev tenant_of_lot : Option Lot → Option Bytes
tenant_of_lot none = none
tenant_of_lot (some row) = some row.tenant_id

abbrev tenant_of_batch : Option Batch → Option Bytes
tenant_of_batch none = none
tenant_of_batch (some row) = some row.tenant_id

-- The parent of the hop is the cause that the command names.
unfoldable pub require_parent : Hop → Bytes → Bytes → M (Unit {0})
require_parent hop type id = do
  parent ← parent_outbox_event_id hop.tenant_id type id
  require_causation hop.causation_id parent

unfoldable pub require_times : Hop → M (Unit {0})
require_times hop = do
  raise_if (not (accepts_time_z hop.occurred_at)) tenant_mismatch
  raise_if (not (accepts_time_z hop.recorded_at)) tenant_mismatch

-- The result of a hop: the canonical bytes and the content hash of its event.
abbrev pub Source : Type 0
Source = Bytes × Bytes

module _ (lower : ℕ → ℕ) where
  -- `validateHopIdentity`
  unfoldable pub validate_hop_identity : Hop → Bool
  validate_hop_identity hop =
      accepts_lower_uuid lower hop.tenant_id
      && accepts_uuid lower hop.event_id
      && accepts_uuid lower hop.correlation_id
      && not (is_blank hop.trace_id)
      && valid_utf8 hop.trace_id
      && accepts_time_z hop.occurred_at
      && accepts_time_z hop.recorded_at

  -- `requireRequiredCausation`
  unfoldable pub require_required_causation : Option Bytes → Result ErpError (Unit {0})
  require_required_causation none = err invalid_transition
  require_required_causation (some id) =
      if accepts_uuid lower id then ok tt else err tenant_mismatch

  -- The causation that a supplier has none of.
  abbrev refuse_causation : Option Bytes → Result ErpError (Unit {0})
  refuse_causation none = ok tt
  refuse_causation (some id) =
      if accepts_uuid lower id then err invalid_transition else err tenant_mismatch

  unfoldable pub validate_supplier_command : Hop → Bytes → Result ErpError (Unit {0})
  validate_supplier_command hop supplier =
      if validate_hop_identity hop && accepts_canonical_id lower supplier
      then refuse_causation hop.causation_id
      else err tenant_mismatch

  unfoldable pub validate_ingredient_lot_command :
      Hop → Bytes → Bytes → Bytes → Result ErpError (Unit {0})
  validate_ingredient_lot_command hop lot supplier item =
      if validate_hop_identity hop
        && accepts_canonical_id lower lot
        && accepts_canonical_id lower supplier
        && accepts_canonical_id lower item
      then require_required_causation hop.causation_id
      else err tenant_mismatch

  unfoldable pub validate_production_batch_command :
      Hop → Bytes → Bytes → Result ErpError (Unit {0})
  validate_production_batch_command hop batch lot =
      if validate_hop_identity hop
        && accepts_canonical_id lower batch
        && accepts_canonical_id lower lot
      then require_required_causation hop.causation_id
      else err tenant_mismatch

  unfoldable pub validate_shipment_command :
      Hop → Bytes → Bytes → Bytes → Result ErpError (Unit {0})
  validate_shipment_command hop shipment batch order =
      if validate_hop_identity hop
        && accepts_canonical_id lower shipment
        && accepts_canonical_id lower batch
        && accepts_uuid lower order
      then require_required_causation hop.causation_id
      else err tenant_mismatch

  module _ (hash : Bytes → Bytes) where
    unfoldable pub register_body : Hop → Bytes → M Source
    register_body hop supplier = do
      require_times hop
      write (λ db. is_some (select_row (is_supplier hop.tenant_id supplier) db.suppliers))
          duplicate_source
          (λ db. record db {
            suppliers =
                db.suppliers ++ record { tenant_id = hop.tenant_id; supplier_id = supplier } ∷ [];
          })
      insert_pending_outbox lower hash (
          hop_event hop event_type_supplier_registered aggregate_type_supplier supplier none
            (supplier_registered (record { supplier_id = supplier })))

    unfoldable pub receive_body : Hop → Bytes → Bytes → Bytes → M Source
    receive_body hop lot supplier item = do
      lock_tenant_row
          (λ db. tenant_of_supplier (select_row (is_supplier hop.tenant_id supplier) db.suppliers))
          hop.tenant_id unknown_source
      lock_tenant_row (λ db. tenant_of_item (select_row (is_item hop.tenant_id item) db.items))
          hop.tenant_id unknown_item
      require_parent hop aggregate_type_supplier supplier
      require_times hop
      write
          (λ db.
            is_some (select_row (is_lot hop.tenant_id lot) db.lots)
            || is_some (
                select_row
                  (λ row. str_eq row.tenant_id hop.tenant_id && str_eq row.supplier_id supplier)
                  db.lots))
          duplicate_source
          (λ db. record db {
            lots =
                db.lots
                ++ record {
                  tenant_id = hop.tenant_id;
                  lot_id = lot;
                  supplier_id = supplier;
                  item_id = item;
                }
                  ∷ [];
          })
      insert_pending_outbox lower hash (
          hop_event hop event_type_ingredient_lot_received aggregate_type_ingredient_lot lot
            hop.causation_id
            (ingredient_lot_received
              (record { lot_id = lot; supplier_id = supplier; item_id = item })))

    unfoldable pub produce_body : Hop → Bytes → Bytes → M Source
    produce_body hop batch lot = do
      lock_tenant_row (λ db. tenant_of_lot (select_row (is_lot hop.tenant_id lot) db.lots))
          hop.tenant_id unknown_source
      require_parent hop aggregate_type_ingredient_lot lot
      require_times hop
      write
          (λ db.
            is_some (select_row (is_batch hop.tenant_id batch) db.batches)
            || is_some (
                select_row (λ row. str_eq row.tenant_id hop.tenant_id && str_eq row.lot_id lot)
                  db.batches))
          duplicate_source
          (λ db. record db {
            batches =
                db.batches
                ++ record { tenant_id = hop.tenant_id; batch_id = batch; lot_id = lot } ∷ [];
          })
      insert_pending_outbox lower hash (
          hop_event hop event_type_production_batch_produced aggregate_type_production_batch batch
            hop.causation_id
            (production_batch_produced (record { batch_id = batch; lot_id = lot })))

    unfoldable pub dispatch_body : Hop → Bytes → Bytes → Bytes → M Source
    dispatch_body hop shipment batch order = do
      lock_tenant_row (λ db. tenant_of_batch (select_row (is_batch hop.tenant_id batch) db.batches))
          hop.tenant_id unknown_source
      require_parent hop aggregate_type_production_batch batch
      require_times hop
      write
          (λ db.
            is_some (select_row (is_shipment hop.tenant_id shipment) db.shipments)
            || is_some (
                select_row (λ row. str_eq row.tenant_id hop.tenant_id && str_eq row.batch_id batch)
                  db.shipments)
            || is_some (
                select_row (λ row. str_eq row.tenant_id hop.tenant_id && str_eq row.order_id order)
                  db.shipments))
          duplicate_source
          (λ db. record db {
            shipments =
                db.shipments
                ++ record {
                  tenant_id = hop.tenant_id;
                  shipment_id = shipment;
                  batch_id = batch;
                  order_id = order;
                }
                  ∷ [];
          })
      insert_pending_outbox lower hash (
          hop_event hop event_type_shipment_dispatched aggregate_type_shipment shipment
            hop.causation_id
            (shipment_dispatched
              (record { shipment_id = shipment; batch_id = batch; order_id = order })))

    abbrev pub once_valid :
        Result ErpError (Unit {0}) → Weather → M Source → ErpDb → Result ErpError Source × ErpDb
    once_valid (err e) weather body db = (err e, db)
    once_valid (ok _) weather body db = in_transaction weather body db

    -- `RegisterSupplier`
    unfoldable pub register_supplier :
        Weather → Hop → Bytes → ErpDb → Result ErpError Source × ErpDb
    register_supplier weather hop supplier =
        once_valid (validate_supplier_command hop supplier) weather (register_body hop supplier)

    -- `ReceiveIngredientLot`
    unfoldable pub receive_ingredient_lot :
        Weather → Hop → Bytes → Bytes → Bytes → ErpDb → Result ErpError Source × ErpDb
    receive_ingredient_lot weather hop lot supplier item =
        once_valid (validate_ingredient_lot_command hop lot supplier item) weather
          (receive_body hop lot supplier item)

    -- `ProduceProductionBatch`
    unfoldable pub produce_production_batch :
        Weather → Hop → Bytes → Bytes → ErpDb → Result ErpError Source × ErpDb
    produce_production_batch weather hop batch lot =
        once_valid (validate_production_batch_command hop batch lot) weather
          (produce_body hop batch lot)

    -- `DispatchShipment`
    unfoldable pub dispatch_shipment :
        Weather → Hop → Bytes → Bytes → Bytes → ErpDb → Result ErpError Source × ErpDb
    dispatch_shipment weather hop shipment batch order =
        once_valid (validate_shipment_command hop shipment batch order) weather
          (dispatch_body hop shipment batch order)
