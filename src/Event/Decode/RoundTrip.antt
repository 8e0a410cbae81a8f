-- ===== src/Event/Decode/RoundTrip.antt =====
-- Reading back the map of an envelope: `envelopeMap` (event/content_hash.go) and
-- `envelopeFromObject` (event/parse.go).
use seshatops.Base.{ℕ, ◌≡◌, refl, Option, none, some, Bytes, lit, str_eq}
use seshatops.Base.Result.{ok}
use seshatops.Event.Json.{find_member, has_member}
use seshatops.Event.Payload.{
  Envelope, Payload, missing, quantity_decremented, supplier_registered, ingredient_lot_received,
  production_batch_produced, shipment_dispatched, aggregate_of, family_aggregate_type,
  schema_version_v1,
}
use seshatops.Event.Validate.Sound.{IsEnvelope}
use seshatops.Event.Validate.Payloads.{PayloadIsValid}
use seshatops.Event.Canonical.{payload_map, envelope_map, nullable}
use seshatops.Event.Decode.{
  envelope_from_object, payload_from_object, require_keys, all_present, all_known, contains,
  as_string, as_int, as_nullable_string, quantity_decremented_from_object,
  supplier_registered_from_object, ingredient_lot_received_from_object,
  production_batch_produced_from_object, shipment_dispatched_from_object,
}

payload_read :
    (lower : ℕ → ℕ) (env : Envelope) (p : Payload)
    → env.event_schema_version ≡ schema_version_v1
    → PayloadIsValid lower p env
    → payload_from_object env.event_type env.event_schema_version (payload_map p) ≡ ok p
unfolding payload_from_object family_aggregate_type aggregate_of payload_map require_keys
    all_present all_known contains has_member find_member as_string as_int str_eq lit
    quantity_decremented_from_object supplier_registered_from_object
    ingredient_lot_received_from_object production_batch_produced_from_object
    shipment_dispatched_from_object
payload_read lower env missing s h = absurd h
payload_read lower env (quantity_decremented p) s h = rw (h.family, s)
payload_read lower env (supplier_registered p) s h = rw (h.family, s)
payload_read lower env (ingredient_lot_received p) s h = rw (h.family, s)
payload_read lower env (production_batch_produced p) s h = rw (h.family, s)
payload_read lower env (shipment_dispatched p) s h = rw (h.family, s)

nullable_read : (v : Option Bytes) → as_nullable_string (some (nullable v)) ≡ ok v
unfolding as_nullable_string
nullable_read none = refl
nullable_read (some v) = refl

-- Reading the map of a valid envelope gives the envelope back, field by field.
pub envelope_from_object-envelope_map :
    (lower : ℕ → ℕ) (env : Envelope)
    → IsEnvelope lower env
    → envelope_from_object (envelope_map env) ≡ ok env
unfolding envelope_from_object envelope_map require_keys all_present all_known contains has_member
    find_member as_string as_int str_eq lit
envelope_from_object-envelope_map lower env h =
    rw (nullable_read env.causation_id)
      (rw (payload_read lower env env.payload h.schema h.payload_valid))
