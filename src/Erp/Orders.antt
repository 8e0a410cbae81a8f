-- ===== src/Erp/Orders.antt =====
-- `AcceptOrder` of erp/accept.go: one order takes its quantity off the stock and leaves its event in
-- the outbox, in one transaction.
pub mod Accepts
use seshatops.Base.{
  ℕ, Bool, true, false, ◌&&◌, ◌||◌, not, Option, none, some, List, [], ◌∷◌, ◌++◌, Bytes, str_eq,
  if◌then◌else◌,
}
use seshatops.Base.Int64.{ℤ, pos, ltb_ℤ, ◌+ℤ◌, ◌-ℤ◌, max_safe_int}
use seshatops.Base.Table.{select_row, update_where, is_some}
use seshatops.Base.Result.{Result, ok, err}
use seshatops.Event.Text.{valid_utf8, is_blank}
use seshatops.Event.Payload.{
  Envelope, QuantityDecremented, quantity_decremented, event_type_quantity_decremented,
  aggregate_type_inventory_item, aggregate_type_shipment, producer_synthetic_erp, schema_version_v1,
}
use seshatops.Event.Validate.{out_of_range}
use seshatops.Erp.Checks.{
  accepts_uuid, accepts_lower_uuid, accepts_canonical_id, accepts_optional_uuid, accepts_time_z,
}
use seshatops.Erp.World.{
  Item, Order, Shipment, ErpDb, ErpError, M, ◌>>=◌, ◌>>◌, pure, raise, raise_if, query, write,
  found, Weather, in_transaction, invalid_quantity, unknown_item, tenant_mismatch,
  invalid_transition, duplicate_order, driver,
}
use seshatops.Erp.Outbox.{parent_outbox_event_id, require_causation, insert_pending_outbox}

pub record OrderCommand : Type 0 where
  pub event_id : Bytes
  pub tenant_id : Bytes
  pub order_id : Bytes
  pub item_id : Bytes
  pub quantity : ℤ
  pub occurred_at : Bytes
  pub recorded_at : Bytes
  pub correlation_id : Bytes
  pub causation_id : Option Bytes
  pub trace_id : Bytes

-- The outcome; its other fields repeat those of the command.
pub record AcceptResult : Type 0 where
  pub quantity_before : ℤ
  pub quantity_after : ℤ
  pub aggregate_version : ℤ
  pub content_hash : Bytes
  pub event_bytes : Bytes

abbrev pub is_item : Bytes → Bytes → Item → Bool
is_item tenant id row = str_eq row.tenant_id tenant && str_eq row.item_id id

abbrev pub is_shipment_of : Bytes → Bytes → Shipment → Bool
is_shipment_of tenant order row = str_eq row.tenant_id tenant && str_eq row.order_id order

abbrev pub is_order : Bytes → Order → Bool
is_order id row = str_eq row.order_id id

-- The event of an order that takes `cmd.quantity` off `before`.
abbrev pub order_event : OrderCommand → ℤ → ℤ → ℤ → Envelope
order_event cmd before after version = record {
  event_id = cmd.event_id;
  tenant_id = cmd.tenant_id;
  event_type = event_type_quantity_decremented;
  event_schema_version = schema_version_v1;
  aggregate_type = aggregate_type_inventory_item;
  aggregate_id = cmd.item_id;
  aggregate_version = version;
  occurred_at = cmd.occurred_at;
  recorded_at = cmd.recorded_at;
  producer = producer_synthetic_erp;
  correlation_id = cmd.correlation_id;
  causation_id = cmd.causation_id;
  trace_id = cmd.trace_id;
  payload = quantity_decremented (record {
    order_id = cmd.order_id;
    item_id = cmd.item_id;
    quantity_decremented = cmd.quantity;
    quantity_before = before;
    quantity_after = after;
  });
}

abbrev pub order_row : OrderCommand → Order
order_row cmd = record {
  order_id = cmd.order_id;
  tenant_id = cmd.tenant_id;
  item_id = cmd.item_id;
  quantity = cmd.quantity;
}

abbrev pub set_stock : OrderCommand → ℤ → ℤ → ErpDb → ErpDb
set_stock cmd quantity version db = record db {
  items =
      update_where (is_item cmd.tenant_id cmd.item_id)
        (λ row. record row { quantity_on_hand = quantity; aggregate_version = version }) db.items;
}

abbrev pub add_order : OrderCommand → ErpDb → ErpDb
add_order cmd db = record db { orders = db.orders ++ order_row cmd ∷ [] }

abbrev nothing : ErpDb → Bool
nothing db = false

-- What `FOR UPDATE` answers for the shipment of the order, and the causation that it asks for.
unfoldable pub shipment_causation : OrderCommand → Option Shipment → M (Unit {0})
shipment_causation cmd none = raise_if (is_some cmd.causation_id) invalid_transition
shipment_causation cmd (some s) = do
  parent ← parent_outbox_event_id cmd.tenant_id aggregate_type_shipment s.shipment_id
  require_causation cmd.causation_id parent

-- `requireOrderShipmentCausation`
unfoldable pub require_order_shipment_causation : OrderCommand → M (Unit {0})
require_order_shipment_causation cmd = do
  s ← query (λ db. select_row (is_shipment_of cmd.tenant_id cmd.order_id) db.shipments)
  shipment_causation cmd s

module _ (lower : ℕ → ℕ) where
  -- `validateCommand`
  unfoldable pub validate_command : OrderCommand → Result ErpError (Unit {0})
  validate_command cmd =
      if out_of_range 1 cmd.quantity
      then err invalid_quantity
      else if accepts_lower_uuid lower cmd.tenant_id
          && accepts_uuid lower cmd.order_id
          && accepts_uuid lower cmd.event_id
          && accepts_uuid lower cmd.correlation_id
          && accepts_canonical_id lower cmd.item_id
          && not (is_blank cmd.trace_id)
          && valid_utf8 cmd.trace_id
          && accepts_time_z cmd.occurred_at
          && accepts_time_z cmd.recorded_at
          && accepts_optional_uuid lower cmd.causation_id
      then ok tt
      else err tenant_mismatch

  module _ (hash : Bytes → Bytes) where
    -- The part that is reached with the stock `row` locked.
    unfoldable pub accept_stock : OrderCommand → Item → M AcceptResult
    accept_stock cmd row =
        let after = row.quantity_on_hand -ℤ cmd.quantity in
        let version = row.aggregate_version +ℤ pos 1 in
        do
          raise_if (not (str_eq row.tenant_id cmd.tenant_id)) tenant_mismatch
          raise_if (ltb_ℤ row.quantity_on_hand cmd.quantity) invalid_transition
          raise_if (out_of_range 1 version) invalid_transition
          require_order_shipment_causation cmd
          write nothing driver (set_stock cmd after version)
          raise_if (not (accepts_time_z cmd.occurred_at)) tenant_mismatch
          raise_if (not (accepts_time_z cmd.recorded_at)) tenant_mismatch
          write (λ db. is_some (select_row (is_order cmd.order_id) db.orders)) duplicate_order
              (add_order cmd)
          (bytes, digest) ←
              insert_pending_outbox lower hash (order_event cmd row.quantity_on_hand after version)
          pure (record {
            quantity_before = row.quantity_on_hand;
            quantity_after = after;
            aggregate_version = version;
            content_hash = digest;
            event_bytes = bytes;
          })

    unfoldable pub accept_body : OrderCommand → M AcceptResult
    accept_body cmd = do
      row ← query (λ db. select_row (is_item cmd.tenant_id cmd.item_id) db.items)
      stock ← found unknown_item row
      accept_stock cmd stock

    -- `AcceptOrder`
    unfoldable pub accept_order :
        Weather → OrderCommand → ErpDb → Result ErpError AcceptResult × ErpDb
    accept_order weather cmd db = elim (validate_command cmd) [
      | err e ↦ (err e, db)
      | ok _ ↦ in_transaction weather (accept_body cmd) db
    ]
