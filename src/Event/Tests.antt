-- ===== src/Event/Tests.antt =====
-- Examples of package event.
use seshatops.Base.{suc, ◌≡◌, refl, ◌↔◌, false, true, Bytes, arith, []}
use seshatops.Base.Result.{>>=-eq-ok, ok}
use seshatops.Base.{lit, str_eq}
use seshatops.Base.Int64.{◌-ℤ◌}
use seshatops.Event.Text.{
  require_utf8, valid_utf8, require_uuid, is_uuid, require_lower_uuid, is_lowercase, runes,
  require_canonical_id, any, is_space, require_time_z, is_time_z, parses_rfc3339, days_in,
  decode_runes, is_blank, is_digit, is_hex, is_lower_hex, lower_rune, match_prefix,
}
use seshatops.Event.Payload.{family_aggregate_type, aggregate_of}
use seshatops.Event.Validate.{validate, validate_against, validate_payload, validate_quantity}
use seshatops.Event.Parse.{parse, decode_strict}
use seshatops.Event.Unicode.{ensure_jcs_compatible_json, reject_unpaired_surrogate_escapes, scan}
use seshatops.Event.Json.{
  decode_value, decode_object, has_member, add_member, parse_integer_number, parse_int, find_member,
}
use seshatops.Event.Decode.{
  envelope_from_object, require_keys, all_present, all_known, contains, as_int, as_nullable_string,
  as_string, payload_from_object, quantity_decremented_from_object,
}
use seshatops.Event.Canonical.{
  content_hash, canonical_bytes, envelope_map, payload_map, jcs_object, jcs_value, jcs_rows,
  jcs_string, escape, escape_all, digits_of, format_int, less_utf16, sort_keys,
}
use seshatops.Event.Json.{size}
use seshatops.Event.Json.Fuel.{Within, decode_value-enough}
use seshatops.Event.Unicode.Paired.{Paired, reject_iff}
use seshatops.Event.Parse.Sound.{parse_sound}
use seshatops.Event.Decode.RoundTrip.{envelope_from_object-envelope_map}
use seshatops.Event.Validate.Sound.{IsEnvelope, validate_sound, validate_iff}
use seshatops.Event.Samples.{second, same_rune, constant_hash, content, decrement, decrement_tokens}

decrement_validates : validate same_rune decrement ≡ ok tt
unfolding lit str_eq ◌-ℤ◌ require_utf8 valid_utf8 require_uuid is_uuid require_lower_uuid
    is_lowercase runes require_canonical_id any is_space require_time_z is_time_z parses_rfc3339
    days_in decode_runes is_blank is_digit is_hex is_lower_hex lower_rune match_prefix
    family_aggregate_type aggregate_of validate validate_against validate_payload validate_quantity
decrement_validates = refl

pub decrement-IsEnvelope : IsEnvelope same_rune decrement
decrement-IsEnvelope = validate_sound same_rune decrement decrement_validates

pub decrement_parses : parse same_rune decrement_tokens (lit "{}") ≡ ok decrement
unfolding lit str_eq ◌-ℤ◌ require_utf8 valid_utf8 require_uuid is_uuid require_lower_uuid
    is_lowercase runes require_canonical_id any is_space require_time_z is_time_z parses_rfc3339
    days_in decode_runes is_blank is_digit is_hex is_lower_hex lower_rune match_prefix
    family_aggregate_type aggregate_of validate validate_against validate_payload validate_quantity
    parse decode_strict ensure_jcs_compatible_json reject_unpaired_surrogate_escapes scan
    decode_value decode_object has_member add_member parse_integer_number parse_int find_member
    envelope_from_object require_keys all_present all_known contains as_int as_nullable_string
    as_string payload_from_object quantity_decremented_from_object
decrement_parses = refl

pub decrement_hash : content_hash same_rune constant_hash decrement ≡ ok content
unfolding lit str_eq ◌-ℤ◌ require_utf8 valid_utf8 require_uuid is_uuid require_lower_uuid
    is_lowercase runes require_canonical_id any is_space require_time_z is_time_z parses_rfc3339
    days_in decode_runes is_blank is_digit is_hex is_lower_hex lower_rune match_prefix
    family_aggregate_type aggregate_of validate validate_against validate_payload validate_quantity
    content_hash canonical_bytes envelope_map payload_map jcs_object jcs_value jcs_rows jcs_string
    escape escape_all digits_of format_int less_utf16 sort_keys
decrement_hash = refl

pub second_hash : content_hash same_rune constant_hash second ≡ ok content
unfolding lit str_eq ◌-ℤ◌ require_utf8 valid_utf8 require_uuid is_uuid require_lower_uuid
    is_lowercase runes require_canonical_id any is_space require_time_z is_time_z parses_rfc3339
    days_in decode_runes is_blank is_digit is_hex is_lower_hex lower_rune match_prefix
    family_aggregate_type aggregate_of validate validate_against validate_payload validate_quantity
    content_hash canonical_bytes envelope_map payload_map jcs_object jcs_value jcs_rows jcs_string
    escape escape_all digits_of format_int less_utf16 sort_keys
second_hash = refl

pub second_bytes : (b : Bytes) × (canonical_bytes same_rune second ≡ ok b)
unfolding content_hash
second_bytes = let (b, e, _) = >>=-eq-ok (canonical_bytes same_rune second) _ second_hash in (b, e)

validate_iff_example : (validate same_rune decrement ≡ ok tt) ↔ IsEnvelope same_rune decrement
validate_iff_example = validate_iff same_rune decrement

parse_sound_example :
    (valid_utf8 (lit "{}") ≡ true) × Paired false (lit "{}") × IsEnvelope same_rune decrement
parse_sound_example = parse_sound same_rune decrement_tokens (lit "{}") decrement decrement_parses

-- An escaped pair of surrogates.
abbrev escaped_pair : Bytes
escaped_pair = lit "\"\\ud83d\\ude00\""

reject_iff_example :
    (reject_unpaired_surrogate_escapes escaped_pair ≡ ok tt) ↔ Paired false escaped_pair
reject_iff_example = reject_iff escaped_pair

decode_value-enough_example :
    Within
      (size (decrement_tokens []))
      (decode_value (suc (size (decrement_tokens []))) (decrement_tokens []))
decode_value-enough_example =
    decode_value-enough (suc (size (decrement_tokens []))) (decrement_tokens []) (omega arith)

envelope_from_object-envelope_map_example :
    envelope_from_object (envelope_map decrement) ≡ ok decrement
envelope_from_object-envelope_map_example =
    envelope_from_object-envelope_map same_rune decrement decrement-IsEnvelope
