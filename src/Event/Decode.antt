-- ===== src/Event/Decode.antt =====
-- `envelopeFromObject` of event/parse.go and the payload readers of event/families.go.
pub mod RoundTrip
use seshatops.Base.{
  Bool, true, false, ◌&&◌, ◌||◌, not, Option, none, some, List, [], ◌∷◌, Bytes, lit, str_eq,
  if◌then◌else◌,
}
use seshatops.Base.Int64.{ℤ}
use seshatops.Base.Result.{Result, ok, err, ◌>>=◌, ◌>>◌, refuse_if}
use seshatops.Event.Text.{EventError, malformed, unsupported, Check}
use seshatops.Event.Json.{
  Json, null, text, int, object, Members, end, member, find_member, has_member,
}
use seshatops.Event.Payload.{
  Envelope, Payload, QuantityDecremented, SupplierRegistered, IngredientLotReceived,
  ProductionBatchProduced, ShipmentDispatched, missing, quantity_decremented, supplier_registered,
  ingredient_lot_received, production_batch_produced, shipment_dispatched,
  event_type_quantity_decremented, event_type_supplier_registered,
  event_type_ingredient_lot_received, event_type_production_batch_produced,
  event_type_shipment_dispatched, family_aggregate_type,
}

abbrev pub ParseResult : Type 0 → Type 0
ParseResult A = Result EventError A

-- A type assertion on the value of a key; a missing key is `nil`.
unfoldable pub as_string : Option Json → ParseResult Bytes
as_string (some (text s)) = ok s
as_string _ = err malformed

unfoldable pub as_nullable_string : Option Json → ParseResult (Option Bytes)
as_nullable_string none = ok none
as_nullable_string (some null) = ok none
as_nullable_string (some (text s)) = ok (some s)
as_nullable_string _ = err malformed

unfoldable pub as_int : Option Json → ParseResult ℤ
as_int (some (int n)) = ok n
as_int _ = err malformed

as_object : Option Json → ParseResult Members
as_object (some (object m)) = ok m
as_object _ = err malformed

unfoldable pub contains : Bytes → List Bytes → Bool
contains k [] = false
contains k (j ∷ ks) = str_eq k j || contains k ks

unfoldable pub all_present : List Bytes → Members → Bool
all_present [] obj = true
all_present (k ∷ ks) obj = has_member k obj && all_present ks obj

unfoldable pub all_known : List Bytes → Members → Bool
all_known ks end = true
all_known ks (member k _ m) = contains k ks && all_known ks m

-- `requirePayloadKeys`, and the same two loops at the head of `envelopeFromObject`
unfoldable pub require_keys : List Bytes → Members → Check
require_keys keys obj = do
  refuse_if (not (all_present keys obj)) malformed
  refuse_if (not (all_known keys obj)) malformed

unfoldable pub quantity_decremented_from_object : Members → ParseResult QuantityDecremented
quantity_decremented_from_object obj = do
  require_keys
      (lit "order_id"
        ∷ lit "item_id"
        ∷ lit "quantity_decremented"
        ∷ lit "quantity_before"
        ∷ lit "quantity_after"
        ∷ [])
      obj
  order_id ← as_string (find_member (lit "order_id") obj)
  item_id ← as_string (find_member (lit "item_id") obj)
  decremented ← as_int (find_member (lit "quantity_decremented") obj)
  before ← as_int (find_member (lit "quantity_before") obj)
  after ← as_int (find_member (lit "quantity_after") obj)
  ok (record {
    order_id = order_id;
    item_id = item_id;
    quantity_decremented = decremented;
    quantity_before = before;
    quantity_after = after;
  })

unfoldable pub supplier_registered_from_object : Members → ParseResult SupplierRegistered
supplier_registered_from_object obj = do
  require_keys (lit "supplier_id" ∷ []) obj
  id ← as_string (find_member (lit "supplier_id") obj)
  ok (record { supplier_id = id })

unfoldable pub ingredient_lot_received_from_object : Members → ParseResult IngredientLotReceived
ingredient_lot_received_from_object obj = do
  require_keys (lit "lot_id" ∷ lit "supplier_id" ∷ lit "item_id" ∷ []) obj
  lot ← as_string (find_member (lit "lot_id") obj)
  supplier ← as_string (find_member (lit "supplier_id") obj)
  item ← as_string (find_member (lit "item_id") obj)
  ok (record { lot_id = lot; supplier_id = supplier; item_id = item })

unfoldable pub production_batch_produced_from_object : Members → ParseResult ProductionBatchProduced
production_batch_produced_from_object obj = do
  require_keys (lit "batch_id" ∷ lit "lot_id" ∷ []) obj
  batch ← as_string (find_member (lit "batch_id") obj)
  lot ← as_string (find_member (lit "lot_id") obj)
  ok (record { batch_id = batch; lot_id = lot })

unfoldable pub shipment_dispatched_from_object : Members → ParseResult ShipmentDispatched
shipment_dispatched_from_object obj = do
  require_keys (lit "shipment_id" ∷ lit "batch_id" ∷ lit "order_id" ∷ []) obj
  shipment ← as_string (find_member (lit "shipment_id") obj)
  batch ← as_string (find_member (lit "batch_id") obj)
  order ← as_string (find_member (lit "order_id") obj)
  ok (record { shipment_id = shipment; batch_id = batch; order_id = order })

unfoldable pub payload_from_object : Bytes → ℤ → Members → ParseResult Payload
payload_from_object event_type schema obj = do
  _ ← family_aggregate_type event_type schema
  if str_eq event_type event_type_quantity_decremented
      then (do p ← quantity_decremented_from_object obj; ok (quantity_decremented p))
      else if str_eq event_type event_type_supplier_registered
      then (do p ← supplier_registered_from_object obj; ok (supplier_registered p))
      else if str_eq event_type event_type_ingredient_lot_received
      then (do p ← ingredient_lot_received_from_object obj; ok (ingredient_lot_received p))
      else if str_eq event_type event_type_production_batch_produced
      then (do p ← production_batch_produced_from_object obj; ok (production_batch_produced p))
      else if str_eq event_type event_type_shipment_dispatched
      then (do p ← shipment_dispatched_from_object obj; ok (shipment_dispatched p))
      else err unsupported

abbrev pub envelope_keys : List Bytes
envelope_keys =
    lit "event_id"
    ∷ lit "tenant_id"
    ∷ lit "event_type"
    ∷ lit "event_schema_version"
    ∷ lit "aggregate_type"
    ∷ lit "aggregate_id"
    ∷ lit "aggregate_version"
    ∷ lit "occurred_at"
    ∷ lit "recorded_at"
    ∷ lit "producer"
    ∷ lit "correlation_id"
    ∷ lit "causation_id"
    ∷ lit "trace_id"
    ∷ lit "payload"
    ∷ []

unfoldable pub envelope_from_object : Members → ParseResult Envelope
unfolding as_object
envelope_from_object obj = do
  require_keys envelope_keys obj
  event_id ← as_string (find_member (lit "event_id") obj)
  tenant_id ← as_string (find_member (lit "tenant_id") obj)
  event_type ← as_string (find_member (lit "event_type") obj)
  schema ← as_int (find_member (lit "event_schema_version") obj)
  aggregate_type ← as_string (find_member (lit "aggregate_type") obj)
  aggregate_id ← as_string (find_member (lit "aggregate_id") obj)
  version ← as_int (find_member (lit "aggregate_version") obj)
  occurred_at ← as_string (find_member (lit "occurred_at") obj)
  recorded_at ← as_string (find_member (lit "recorded_at") obj)
  producer ← as_string (find_member (lit "producer") obj)
  correlation_id ← as_string (find_member (lit "correlation_id") obj)
  causation_id ← as_nullable_string (find_member (lit "causation_id") obj)
  trace_id ← as_string (find_member (lit "trace_id") obj)
  payload_obj ← as_object (find_member (lit "payload") obj)
  payload ← payload_from_object event_type schema payload_obj
  ok (record {
    event_id = event_id;
    tenant_id = tenant_id;
    event_type = event_type;
    event_schema_version = schema;
    aggregate_type = aggregate_type;
    aggregate_id = aggregate_id;
    aggregate_version = version;
    occurred_at = occurred_at;
    recorded_at = recorded_at;
    producer = producer;
    correlation_id = correlation_id;
    causation_id = causation_id;
    trace_id = trace_id;
    payload = payload;
  })
