-- ===== src/Event/Canonical.antt =====
-- event/content_hash.go: the RFC 8785 serialisation of an envelope, its hash, and the identity check.
--
-- `jcs_string` copies the bytes above ASCII: for a valid string that is what `WriteRune` writes.
-- `hash` stands for the hexadecimal SHA-256 of the standard library.
use seshatops.Base.{
  ℕ, zero, suc, ◌+◌, ◌-◌, ◌/◌, ◌%◌, Bool, true, false, ◌||◌, not, Option, none, some, List, [], ◌∷◌,
  ◌++◌, Bytes, lit, str_eq, ltb, ◌==◌, if◌then◌else◌,
}
use seshatops.Base.Int64.{ℤ, pos, negsuc}
use seshatops.Base.Result.{ok, err, ◌>>=◌, ◌>>◌, refuse_if}
use seshatops.Event.Text.{malformed, identity_conflict, Check, valid_utf8, runes}
use seshatops.Event.Json.{Json, null, text, int, object, Members, end, member}
use seshatops.Event.Payload.{
  Envelope, Payload, missing, quantity_decremented, supplier_registered, ingredient_lot_received,
  production_batch_produced, shipment_dispatched,
}
use seshatops.Event.Validate.{validate}
use seshatops.Event.Decode.{ParseResult}

-- The `payloadMap` methods.
unfoldable pub payload_map : Payload → Members
payload_map missing = end
payload_map (quantity_decremented p) = member (lit "order_id") (text p.order_id) (
    member (lit "item_id") (text p.item_id) (
      member (lit "quantity_decremented") (int p.quantity_decremented) (
        member (lit "quantity_before") (int p.quantity_before)
          (member (lit "quantity_after") (int p.quantity_after) end))))
payload_map (supplier_registered p) = member (lit "supplier_id") (text p.supplier_id) end
payload_map (ingredient_lot_received p) =
    member (lit "lot_id") (text p.lot_id) (
      member (lit "supplier_id") (text p.supplier_id) (member (lit "item_id") (text p.item_id) end))
payload_map (production_batch_produced p) =
    member (lit "batch_id") (text p.batch_id) (member (lit "lot_id") (text p.lot_id) end)
payload_map (shipment_dispatched p) =
    member (lit "shipment_id") (text p.shipment_id)
      (member (lit "batch_id") (text p.batch_id) (member (lit "order_id") (text p.order_id) end))

abbrev pub nullable : Option Bytes → Json
nullable none = null
nullable (some v) = text v

unfoldable pub envelope_map : Envelope → Members
unfolding payload_map
envelope_map env = member (lit "event_id") (text env.event_id) (
    member (lit "tenant_id") (text env.tenant_id) (
      member (lit "event_type") (text env.event_type) (
        member (lit "event_schema_version") (int env.event_schema_version) (
          member (lit "aggregate_type") (text env.aggregate_type) (
            member (lit "aggregate_id") (text env.aggregate_id) (
              member (lit "aggregate_version") (int env.aggregate_version) (
                member (lit "occurred_at") (text env.occurred_at) (
                  member (lit "recorded_at") (text env.recorded_at) (
                    member (lit "producer") (text env.producer) (
                      member (lit "correlation_id") (text env.correlation_id) (
                        member (lit "causation_id") (nullable env.causation_id) (
                          member (lit "trace_id") (text env.trace_id) (
                            member (lit "payload") (object (payload_map env.payload))
                              end)))))))))))))

hex_digit : ℕ → ℕ
hex_digit d = if ltb d 10 then b'0' + d else b'a' + (d - 10)

-- What one rune of a string becomes between the quotes.
unfoldable pub escape : ℕ → Bytes
unfolding hex_digit
escape r =
    if r == 0x22 || r == 0x5C
    then 0x5C ∷ r ∷ []
    else if r == 8
    then 0x5C ∷ b'b' ∷ []
    else if r == 12
    then 0x5C ∷ b'f' ∷ []
    else if r == 10
    then 0x5C ∷ b'n' ∷ []
    else if r == 13
    then 0x5C ∷ b'r' ∷ []
    else if r == 9
    then 0x5C ∷ b't' ∷ []
    else if ltb r 0x20
    then 0x5C ∷ b'u' ∷ b'0' ∷ b'0' ∷ hex_digit (r / 16) ∷ hex_digit (r % 16) ∷ []
    else r ∷ []

unfoldable pub escape_all : Bytes → Bytes
escape_all [] = []
escape_all (b ∷ s) = escape b ++ escape_all s

unfoldable pub jcs_string : Bytes → ParseResult Bytes
jcs_string s = do refuse_if (not (valid_utf8 s)) malformed; ok (0x22 ∷ (escape_all s ++ 0x22 ∷ []))

-- The decimal digits of `n` in front of `out`; twenty rounds write any 64-bit number.
unfoldable pub digits_of : ℕ → ℕ → Bytes → Bytes
digits_of zero n out = out
digits_of (suc f) n out =
    let d = b'0' + n % 10 in
    let rest = digits_of f (n / 10) (d ∷ out) in if ltb n 10 then d ∷ out else rest

-- `strconv.FormatInt(v, 10)`
unfoldable pub format_int : ℤ → Bytes
unfolding digits_of
format_int (pos n) = digits_of 20 n []
format_int (negsuc n) = b'-' ∷ digits_of 20 (suc n) []

-- The UTF-16 code units of a rune.
utf16_units : ℕ → List ℕ
utf16_units r =
    if ltb r 0x10000
    then r ∷ []
    else (0xD800 + (r - 0x10000) / 0x400) ∷ (0xDC00 + (r - 0x10000) % 0x400) ∷ []

utf16_encode : List ℕ → List ℕ
utf16_encode [] = []
utf16_encode (r ∷ rs) = utf16_units r ++ utf16_encode rs

lex_less : List ℕ → List ℕ → Bool
lex_less [] [] = false
lex_less [] (_ ∷ _) = true
lex_less (_ ∷ _) [] = false
lex_less (a ∷ s) (b ∷ t) = let rest = lex_less s t in if a == b then rest else ltb a b

unfoldable pub less_utf16 : Bytes → Bytes → Bool
unfolding utf16_units utf16_encode lex_less
less_utf16 a b = lex_less (utf16_encode (runes a)) (utf16_encode (runes b))

-- `sort.Slice(keys, …)`; the keys of a map are distinct, so the order is determined.
insert_key : Bytes × Bytes → List (Bytes × Bytes) → List (Bytes × Bytes)
insert_key (k, v) [] = (k, v) ∷ []
insert_key (k, v) ((j, w) ∷ r) =
    let rest = insert_key (k, v) r in if less_utf16 j k then (j, w) ∷ rest else (k, v) ∷ (j, w) ∷ r

unfoldable pub sort_keys : List (Bytes × Bytes) → List (Bytes × Bytes)
unfolding insert_key less_utf16
sort_keys [] = []
sort_keys (p ∷ r) = insert_key p (sort_keys r)

-- The members behind the first one, each after a comma.
write_rest : List (Bytes × Bytes) → ParseResult Bytes
write_rest [] = ok []
write_rest ((k, v) ∷ r) = do
  key ← jcs_string k
  rest ← write_rest r
  ok (b',' ∷ (key ++ b':' ∷ (v ++ rest)))

write_members : List (Bytes × Bytes) → ParseResult Bytes
unfolding write_rest
write_members [] = ok (b'{' ∷ b'}' ∷ [])
write_members ((k, v) ∷ r) = do
  key ← jcs_string k
  rest ← write_rest r
  ok (b'{' ∷ (key ++ b':' ∷ (v ++ (rest ++ b'}' ∷ []))))

unfoldable mutual
  unfolding write_members sort_keys

  pub jcs_value : Json → ParseResult Bytes
  jcs_value null = ok (lit "null")
  jcs_value (text s) = jcs_string s
  jcs_value (int n) = ok (format_int n)
  jcs_value (object m) = elim (jcs_rows m) [
    | err e ↦ err e
    | ok rows ↦ write_members (sort_keys rows)
  ]

  -- Each key with the serialisation of its value.
  pub jcs_rows : Members → ParseResult (List (Bytes × Bytes))
  jcs_rows end = ok []
  jcs_rows (member k v m) = elim (jcs_value v) [
    | err e ↦ err e
    | ok w ↦ elim (jcs_rows m) [ err e ↦ err e | ok rows ↦ ok ((k, w) ∷ rows) ]
  ]

-- `jcsObject`
unfoldable pub jcs_object : Members → ParseResult Bytes
jcs_object m = jcs_value (object m)

module _ (lower : ℕ → ℕ) where
  unfoldable pub canonical_bytes : Envelope → ParseResult Bytes
  canonical_bytes env = do validate lower env; jcs_object (envelope_map env)

  module _ (hash : Bytes → Bytes) where
    unfoldable pub content_hash : Envelope → ParseResult Bytes
    content_hash env = do b ← canonical_bytes env; ok (hash b)

    unfoldable pub check_identity_conflict : Envelope → Envelope → Check
    check_identity_conflict a b =
        if str_eq a.event_id b.event_id
        then (do
          ha ← content_hash a
          hb ← content_hash b
          refuse_if (not (str_eq ha hb)) identity_conflict)
        else ok tt
