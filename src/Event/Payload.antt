-- ===== src/Event/Payload.antt =====
-- The event families and the envelope: event/families.go and the record of event/envelope.go.
use seshatops.Base.{Option, none, some, Bytes, lit, str_eq, if◌then◌else◌}
use seshatops.Base.Int64.{ℤ, pos, eqb_ℤ}
use seshatops.Base.Result.{Result, ok, err}
use seshatops.Event.Text.{EventError, unsupported}

abbrev pub event_type_quantity_decremented : Bytes
event_type_quantity_decremented = lit "inventory.quantity_decremented"

abbrev pub event_type_supplier_registered : Bytes
event_type_supplier_registered = lit "supplier.registered"

abbrev pub event_type_ingredient_lot_received : Bytes
event_type_ingredient_lot_received = lit "ingredient_lot.received"

abbrev pub event_type_production_batch_produced : Bytes
event_type_production_batch_produced = lit "production_batch.produced"

abbrev pub event_type_shipment_dispatched : Bytes
event_type_shipment_dispatched = lit "shipment.dispatched"

abbrev pub aggregate_type_inventory_item : Bytes
aggregate_type_inventory_item = lit "inventory_item"

abbrev pub aggregate_type_supplier : Bytes
aggregate_type_supplier = lit "supplier"

abbrev pub aggregate_type_ingredient_lot : Bytes
aggregate_type_ingredient_lot = lit "ingredient_lot"

abbrev pub aggregate_type_production_batch : Bytes
aggregate_type_production_batch = lit "production_batch"

abbrev pub aggregate_type_shipment : Bytes
aggregate_type_shipment = lit "shipment"

abbrev pub producer_synthetic_erp : Bytes
producer_synthetic_erp = lit "synthetic-erp"

abbrev pub schema_version_v1 : ℤ
schema_version_v1 = pos 1

pub record QuantityDecremented : Type 0 where
  pub order_id : Bytes
  pub item_id : Bytes
  pub quantity_decremented : ℤ
  pub quantity_before : ℤ
  pub quantity_after : ℤ

pub record SupplierRegistered : Type 0 where
  pub supplier_id : Bytes

pub record IngredientLotReceived : Type 0 where
  pub lot_id : Bytes
  pub supplier_id : Bytes
  pub item_id : Bytes

pub record ProductionBatchProduced : Type 0 where
  pub batch_id : Bytes
  pub lot_id : Bytes

pub record ShipmentDispatched : Type 0 where
  pub shipment_id : Bytes
  pub batch_id : Bytes
  pub order_id : Bytes

-- The sealed interface `Payload`, with `nil`.
pub data Payload : Type 0 where
  missing : Payload
  quantity_decremented : QuantityDecremented → Payload
  supplier_registered : SupplierRegistered → Payload
  ingredient_lot_received : IngredientLotReceived → Payload
  production_batch_produced : ProductionBatchProduced → Payload
  shipment_dispatched : ShipmentDispatched → Payload

pub record Envelope : Type 0 where
  pub event_id : Bytes
  pub tenant_id : Bytes
  pub event_type : Bytes
  pub event_schema_version : ℤ
  pub aggregate_type : Bytes
  pub aggregate_id : Bytes
  pub aggregate_version : ℤ
  pub occurred_at : Bytes
  pub recorded_at : Bytes
  pub producer : Bytes
  pub correlation_id : Bytes
  pub causation_id : Option Bytes
  pub trace_id : Bytes
  pub payload : Payload

unfoldable pub as_quantity_decremented : Envelope → Option QuantityDecremented
as_quantity_decremented env = elim env.payload [ quantity_decremented p ↦ some p | _ ↦ none ]

unfoldable pub as_supplier_registered : Envelope → Option SupplierRegistered
as_supplier_registered env = elim env.payload [ supplier_registered p ↦ some p | _ ↦ none ]

unfoldable pub as_ingredient_lot_received : Envelope → Option IngredientLotReceived
as_ingredient_lot_received env = elim env.payload [ ingredient_lot_received p ↦ some p | _ ↦ none ]

unfoldable pub as_production_batch_produced : Envelope → Option ProductionBatchProduced
as_production_batch_produced env = elim env.payload [
  | production_batch_produced p ↦ some p
  | _ ↦ none
]

unfoldable pub as_shipment_dispatched : Envelope → Option ShipmentDispatched
as_shipment_dispatched env = elim env.payload [ shipment_dispatched p ↦ some p | _ ↦ none ]

-- The aggregate type of an event type, `none` for an unknown one: the `switch` of the code.
unfoldable pub aggregate_of : Bytes → Option Bytes
aggregate_of t =
    if str_eq t event_type_quantity_decremented
    then some aggregate_type_inventory_item
    else if str_eq t event_type_supplier_registered
    then some aggregate_type_supplier
    else if str_eq t event_type_ingredient_lot_received
    then some aggregate_type_ingredient_lot
    else if str_eq t event_type_production_batch_produced
    then some aggregate_type_production_batch
    else if str_eq t event_type_shipment_dispatched
    then some aggregate_type_shipment
    else none

unfoldable pub family_aggregate_type : Bytes → ℤ → Result EventError Bytes
family_aggregate_type event_type schema = elim (aggregate_of event_type) [
  | none ↦ err unsupported
  | some agg ↦ if eqb_ℤ schema schema_version_v1 then ok agg else err unsupported
]
