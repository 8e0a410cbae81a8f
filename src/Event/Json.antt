-- ===== src/Event/Json.antt =====
-- `decodeValue`, `decodeObject` and `parseIntegerNumber` of event/parse.go.
--
-- The tokens come from `encoding/json`, which stays outside: `Tokens` is what `dec.Token()` returns
-- in turn, up to the end of the input or the first error. The recursion takes fuel, and the module
-- below shows that one more than the number of tokens is enough.
pub mod Fuel
use seshatops.Base.{
  ℕ, zero, suc, ◌+◌, ◌-◌, ◌*◌, ◌^◌, Bool, true, false, ◌&&◌, ◌||◌, not, Option, none, some, [], ◌∷◌,
  Bytes, str_eq, ltb, leb, ◌==◌, if◌then◌else◌, length,
}
use seshatops.Base.Int64.{ℤ, pos, negsuc, max_safe_int}
use seshatops.Base.Result.{Result, ok, err, ◌>>=◌, ◌>>◌, refuse_if}
use seshatops.Event.Text.{is_digit, any}

pub data Token : Type 0 where
  open_object close_object open_array close_array null_token : Token
  boolean : Bool → Token
  string : Bytes → Token
  number : Bytes → Token

pub data Tokens : Type 0 where
  eof fault : Tokens
  next : Token → Tokens → Tokens

abbrev pub size : Tokens → ℕ
size eof = 0
size fault = 0
size (next _ s) = suc (size s)

-- `nil`, `string`, `int64` and `map[string]any`
mutual
  pub data Json : Type 0 where
    null : Json
    text : Bytes → Json
    int : ℤ → Json
    object : Members → Json

  pub data Members : Type 0 where
    end : Members
    member : Bytes → Json → Members → Members

unfoldable pub find_member : Bytes → Members → Option Json
find_member k end = none
find_member k (member j v m) = let rest = find_member k m in if str_eq j k then some v else rest

abbrev is_there : Option Json → Bool
is_there none = false
is_there (some _) = true

unfoldable pub has_member : Bytes → Members → Bool
unfolding find_member
has_member k m = is_there (find_member k m)

-- `out[key] = val` for a key that is not there
unfoldable pub add_member : Members → Bytes → Json → Members
add_member end k v = member k v end
add_member (member j w m) k v = member j w (add_member m k v)

-- An error, and the fuel run out.
pub data DecodeError : Type 0 where
  bad exhausted : DecodeError

digits_value : ℕ → Bytes → Option ℕ
digits_value n [] = some n
digits_value n (c ∷ s) =
    let rest = digits_value (n * 10 + (c - b'0')) s in if is_digit c then rest else none

abbrev magnitude : Bytes → Option ℕ
unfolding digits_value
magnitude [] = none
magnitude (c ∷ s) = digits_value 0 (c ∷ s)

abbrev negative : ℕ → ℤ
negative zero = pos 0
negative (suc n) = negsuc n

-- `strconv.ParseInt(s, 10, 64)`
unfoldable pub parse_int : Bytes → Option ℤ
unfolding digits_value
parse_int [] = none
parse_int (c ∷ s) =
    if c == b'-'
    then elim (magnitude s) [
      | none ↦ none
      | some n ↦ if leb n (2 ^ 63) then some (negative n) else none
    ]
    else elim (magnitude (if c == b'+' then s else c ∷ s)) [
      | none ↦ none
      | some n ↦ if ltb n (2 ^ 63) then some (pos n) else none
    ]

has_leading_zero : Bytes → Bool
has_leading_zero [] = false
has_leading_zero (a ∷ []) = false
has_leading_zero (a ∷ b ∷ []) = a == b'0'
has_leading_zero (a ∷ b ∷ _ ∷ _) = a == b'0' || ((a == b'-') && (b == b'0'))

abbrev in_safe_range : Option ℤ → Result DecodeError ℤ
in_safe_range none = err bad
in_safe_range (some (negsuc n)) = err bad
in_safe_range (some (pos n)) = if ltb max_safe_int n then err bad else ok (pos n)

unfoldable pub parse_integer_number : Bytes → Result DecodeError ℤ
unfolding has_leading_zero
parse_integer_number s = do
  refuse_if (any (λ c. c == b'.' || c == b'e' || c == b'E') s) bad
  refuse_if (has_leading_zero s) bad
  in_safe_range (parse_int s)

unfoldable mutual
  pub decode_value : ℕ → Tokens → Result DecodeError (Json × Tokens)
  decode_value zero s = err exhausted
  decode_value (suc f) eof = err bad
  decode_value (suc f) fault = err bad
  decode_value (suc f) (next open_object s) = elim (decode_object f end s) [
    | err e ↦ err e
    | ok (m, s') ↦ ok (object m, s')
  ]
  decode_value (suc f) (next (string v) s) = ok (text v, s)
  decode_value (suc f) (next (number n) s) = elim (parse_integer_number n) [
    | err e ↦ err e
    | ok v ↦ ok (int v, s)
  ]
  decode_value (suc f) (next null_token s) = ok (null, s)
  decode_value (suc f) (next _ s) = err bad

  pub decode_object : ℕ → Members → Tokens → Result DecodeError (Members × Tokens)
  decode_object zero out s = err exhausted
  decode_object (suc f) out eof = err bad
  decode_object (suc f) out fault = err bad
  decode_object (suc f) out (next close_object s) = ok (out, s)
  decode_object (suc f) out (next (string key) s) = elim (has_member key out) [
    | true ↦ err bad
    | false ↦ elim (decode_value f s) [
      | err e ↦ err e
      | ok (v, s') ↦ decode_object f (add_member out key v) s'
    ]
  ]
  decode_object (suc f) out (next _ s) = err bad
