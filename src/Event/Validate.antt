-- ===== src/Event/Validate.antt =====
-- `Validate` of event/envelope.go and the `validateAgainst` methods of event/families.go.
pub mod Payloads
pub mod Sound
use seshatops.Base.{ℕ, Bool, ◌||◌, not, Option, none, some, Bytes, str_eq}
use seshatops.Base.Int64.{ℤ, pos, ltb_ℤ, eqb_ℤ, ◌-ℤ◌, max_safe_int}
use seshatops.Base.Result.{ok, err, ◌>>=◌, ◌>>◌, refuse_if}
use seshatops.Event.Text.{
  EventError, malformed, Check, require_utf8, require_uuid, require_lower_uuid,
  require_canonical_id, require_time_z, is_blank,
}
use seshatops.Event.Payload.{
  Envelope, Payload, QuantityDecremented, SupplierRegistered, IngredientLotReceived,
  ProductionBatchProduced, ShipmentDispatched, missing, quantity_decremented, supplier_registered,
  ingredient_lot_received, production_batch_produced, shipment_dispatched,
  event_type_quantity_decremented, event_type_supplier_registered,
  event_type_ingredient_lot_received, event_type_production_batch_produced,
  event_type_shipment_dispatched, producer_synthetic_erp, family_aggregate_type,
}

-- `n < lo || n > maxSafeInt`
abbrev pub out_of_range : ℕ → ℤ → Bool
out_of_range lo n = ltb_ℤ n (pos lo) || ltb_ℤ (pos max_safe_int) n

abbrev pub optional : (Bytes → Check) → Option Bytes → Check
optional f none = ok tt
optional f (some v) = f v

module _ (lower : ℕ → ℕ) where
  unfoldable pub validate_quantity : QuantityDecremented → Envelope → Check
  validate_quantity p env = do
    refuse_if (not (str_eq env.event_type event_type_quantity_decremented)) malformed
    require_utf8 p.order_id
    require_utf8 p.item_id
    require_uuid p.order_id
    require_canonical_id lower p.item_id
    refuse_if (not (str_eq p.item_id env.aggregate_id)) malformed
    refuse_if (out_of_range 1 p.quantity_decremented) malformed
    refuse_if (out_of_range 0 p.quantity_before) malformed
    refuse_if (out_of_range 0 p.quantity_after) malformed
    refuse_if (not (eqb_ℤ (p.quantity_before -ℤ p.quantity_decremented) p.quantity_after)) malformed

  unfoldable pub validate_supplier : SupplierRegistered → Envelope → Check
  validate_supplier p env = do
    refuse_if (not (str_eq env.event_type event_type_supplier_registered)) malformed
    require_utf8 p.supplier_id
    require_canonical_id lower p.supplier_id
    refuse_if (not (str_eq p.supplier_id env.aggregate_id)) malformed

  unfoldable pub validate_lot : IngredientLotReceived → Envelope → Check
  validate_lot p env = do
    refuse_if (not (str_eq env.event_type event_type_ingredient_lot_received)) malformed
    require_utf8 p.lot_id
    require_utf8 p.supplier_id
    require_utf8 p.item_id
    require_canonical_id lower p.lot_id
    require_canonical_id lower p.supplier_id
    require_canonical_id lower p.item_id
    refuse_if (not (str_eq p.lot_id env.aggregate_id)) malformed

  unfoldable pub validate_batch : ProductionBatchProduced → Envelope → Check
  validate_batch p env = do
    refuse_if (not (str_eq env.event_type event_type_production_batch_produced)) malformed
    require_utf8 p.batch_id
    require_utf8 p.lot_id
    require_canonical_id lower p.batch_id
    require_canonical_id lower p.lot_id
    refuse_if (not (str_eq p.batch_id env.aggregate_id)) malformed

  unfoldable pub validate_shipment : ShipmentDispatched → Envelope → Check
  validate_shipment p env = do
    refuse_if (not (str_eq env.event_type event_type_shipment_dispatched)) malformed
    require_utf8 p.shipment_id
    require_utf8 p.batch_id
    require_utf8 p.order_id
    require_canonical_id lower p.shipment_id
    require_canonical_id lower p.batch_id
    require_uuid p.order_id
    refuse_if (not (str_eq p.shipment_id env.aggregate_id)) malformed

  unfoldable pub validate_against : Payload → Envelope → Check
  validate_against missing env = err malformed
  validate_against (quantity_decremented p) env = validate_quantity p env
  validate_against (supplier_registered p) env = validate_supplier p env
  validate_against (ingredient_lot_received p) env = validate_lot p env
  validate_against (production_batch_produced p) env = validate_batch p env
  validate_against (shipment_dispatched p) env = validate_shipment p env

  unfoldable pub validate_payload : Envelope → Check
  unfolding validate_against
  validate_payload env = validate_against env.payload env

  unfoldable pub validate : Envelope → Check
  validate env = do
    require_utf8 env.event_id
    require_utf8 env.tenant_id
    require_utf8 env.event_type
    require_utf8 env.aggregate_type
    require_utf8 env.aggregate_id
    require_utf8 env.occurred_at
    require_utf8 env.recorded_at
    require_utf8 env.producer
    require_utf8 env.correlation_id
    optional require_utf8 env.causation_id
    require_utf8 env.trace_id
    require_uuid env.event_id
    require_lower_uuid lower env.tenant_id
    want_agg ← family_aggregate_type env.event_type env.event_schema_version
    refuse_if (not (str_eq env.aggregate_type want_agg)) malformed
    require_canonical_id lower env.aggregate_id
    refuse_if (out_of_range 1 env.aggregate_version) malformed
    require_time_z env.occurred_at
    require_time_z env.recorded_at
    refuse_if (not (str_eq env.producer producer_synthetic_erp)) malformed
    require_uuid env.correlation_id
    optional require_uuid env.causation_id
    refuse_if (is_blank env.trace_id) malformed
    validate_payload env
