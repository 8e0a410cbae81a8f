-- ===== src/Event/Samples.antt =====
-- An event of each kind of use, for the examples.
use seshatops.Base.{ℕ, none, Bytes, lit}
use seshatops.Base.Int64.{pos}
use seshatops.Event.Json.{open_object, close_object, null_token, string, number, Tokens, eof, next}
use seshatops.Event.Payload.{Envelope, quantity_decremented}

abbrev pub same_rune : ℕ → ℕ
same_rune r = r

abbrev pub content : Bytes
content = lit "h"

abbrev pub constant_hash : Bytes → Bytes
constant_hash b = content

abbrev pub item_id : Bytes
item_id = lit "item-flour"

abbrev pub tenant_id : Bytes
tenant_id = lit "1b4e28ba-2fa1-4d3a-883f-0016d3cca427"

abbrev pub event_id : Bytes
event_id = lit "6fa459ea-ee8a-4ca4-894e-db77e160355e"

-- Ten of fifteen are left.
abbrev pub decrement : Envelope
decrement = record {
  event_id = event_id;
  tenant_id = tenant_id;
  event_type = lit "inventory.quantity_decremented";
  event_schema_version = pos 1;
  aggregate_type = lit "inventory_item";
  aggregate_id = item_id;
  aggregate_version = pos 1;
  occurred_at = lit "2026-01-02T03:04:05Z";
  recorded_at = lit "2026-01-02T03:04:06.5Z";
  producer = lit "synthetic-erp";
  correlation_id = lit "16fd2706-8baf-433b-82eb-8c7fada847da";
  causation_id = none;
  trace_id = lit "t";
  payload = quantity_decremented (record {
    order_id = lit "9b2d3f60-51c4-4c1e-8a53-0d4f6f0e2b11";
    item_id = item_id;
    quantity_decremented = pos 5;
    quantity_before = pos 15;
    quantity_after = pos 10;
  });
}

-- The next event of the item.
abbrev pub second : Envelope
second = record decrement { aggregate_version = pos 2 }

abbrev field : Bytes → Bytes → Tokens → Tokens
field key value rest = next (string key) (next (string value) rest)

abbrev counter : Bytes → Bytes → Tokens → Tokens
counter key value rest = next (string key) (next (number value) rest)

-- The tokens of its JSON.
abbrev pub decrement_tokens : Bytes → Tokens
decrement_tokens _ = next open_object (
    field (lit "event_id") event_id (
      field (lit "tenant_id") tenant_id (
        field (lit "event_type") (lit "inventory.quantity_decremented") (
          counter (lit "event_schema_version") (lit "1") (
            field (lit "aggregate_type") (lit "inventory_item") (
              field (lit "aggregate_id") item_id (
                counter (lit "aggregate_version") (lit "1") (
                  field (lit "occurred_at") (lit "2026-01-02T03:04:05Z") (
                    field (lit "recorded_at") (lit "2026-01-02T03:04:06.5Z") (
                      field (lit "producer") (lit "synthetic-erp") (
                        field (lit "correlation_id") (lit "16fd2706-8baf-433b-82eb-8c7fada847da") (
                          next (string (lit "causation_id")) (
                            next null_token (
                              field (lit "trace_id") (lit "t") (
                                next (string (lit "payload")) (
                                  next open_object (
                                    field (lit "order_id")
                                      (lit "9b2d3f60-51c4-4c1e-8a53-0d4f6f0e2b11")
                                      (field (lit "item_id") item_id (
                                        counter (lit "quantity_decremented") (lit "5") (
                                          counter (lit "quantity_before") (lit "15") (
                                            counter (lit "quantity_after") (lit "10") (
                                              next close_object
                                                (next close_object eof)))))))))))))))))))))))
