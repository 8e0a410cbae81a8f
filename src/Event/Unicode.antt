-- ===== src/Event/Unicode.antt =====
-- event/unicode.go: the scan that refuses unpaired surrogate escapes before `encoding/json` reads.
--
-- The index `i` is the rest of the input behind it. `string_step` is one round of the loop inside a
-- string literal; the fuel of `scan` counts the rounds, and `scan-enough` shows that one more than
-- the length of the input is enough.
pub mod Paired
use seshatops.Base.{
  ℕ, zero, suc, ◌+◌, ◌-◌, ◌*◌, Bool, true, false, ◌&&◌, ◌||◌, not, Option, none, some, [], ◌∷◌,
  Bytes, ◌==◌, if◌then◌else◌, length,
}
use seshatops.Base.Result.{Result, ok, err, ◌>>=◌, ◌>>◌, refuse_if}
use seshatops.Event.Text.{EventError, malformed, Check, between, is_digit, valid_utf8}
use seshatops.Event.Json.{DecodeError, bad, exhausted}

unfoldable pub nibble : ℕ → Option ℕ
nibble b =
    if is_digit b
    then some (b - b'0')
    else if between b'a' b'f' b
    then some (b - b'a' + 10)
    else if between b'A' b'F' b
    then some (b - b'A' + 10)
    else none

unfoldable pub is_high_surrogate : ℕ → Bool
is_high_surrogate u = between 0xD800 0xDBFF u

unfoldable pub is_low_surrogate : ℕ → Bool
is_low_surrogate u = between 0xDC00 0xDFFF u

abbrev pub quote : ℕ
quote = 0x22

abbrev pub backslash : ℕ
backslash = 0x5C

-- `\u` or `\U`
abbrev pub starts_escape : ℕ → ℕ → Bool
starts_escape a b = a == backslash && (b == b'u' || b == b'U')

abbrev unit_of : Option ℕ → Option ℕ → Option ℕ → Option ℕ → Option ℕ
unit_of (some a) (some b) (some c) (some d) = some (((a * 16 + b) * 16 + c) * 16 + d)
unit_of _ _ _ _ = none

-- The code unit that four hexadecimal digits write.
unfoldable pub hex_unit : ℕ → ℕ → ℕ → ℕ → Option ℕ
unfolding nibble
hex_unit a b c d = unit_of (nibble a) (nibble b) (nibble c) (nibble d)

unfoldable pub parse_json_unicode_escape : Bytes → Result DecodeError (ℕ × Bytes)
parse_json_unicode_escape (s ∷ u ∷ a ∷ b ∷ c ∷ d ∷ rest) =
    if starts_escape s u
    then elim (hex_unit a b c d) [ none ↦ err bad | some unit ↦ ok (unit, rest) ]
    else err bad
parse_json_unicode_escape _ = err bad

-- The low surrogate that must follow a high one.
unfoldable pub low_half : Bytes → Result DecodeError (Bool × Bytes)
low_half [] = err bad
low_half (_ ∷ []) = err bad
low_half (x ∷ y ∷ t) =
    if starts_escape x y
    then elim (parse_json_unicode_escape (x ∷ y ∷ t)) [
      | err e ↦ err e
      | ok (low, rest) ↦ if is_low_surrogate low then ok (true, rest) else err bad
    ]
    else err bad

unfoldable pub unicode_step : Bytes → Result DecodeError (Bool × Bytes)
unicode_step raw = elim (parse_json_unicode_escape raw) [
  | err e ↦ err e
  | ok (unit, next) ↦
      if is_high_surrogate unit
      then low_half next
      else if is_low_surrogate unit
      then err bad
      else ok (true, next)
]

unfoldable pub escape_step : ℕ → Bytes → Result DecodeError (Bool × Bytes)
escape_step c [] = err bad
escape_step c (esc ∷ s) =
    if esc == b'u' || esc == b'U' then unicode_step (c ∷ esc ∷ s) else ok (true, s)

unfoldable pub string_step : ℕ → Bytes → Result DecodeError (Bool × Bytes)
string_step c s = if c == backslash then escape_step c s else ok (not (c == quote), s)

unfoldable pub scan : ℕ → Bool → Bytes → Result DecodeError (Unit {0})
scan zero in_string s = err exhausted
scan (suc f) in_string [] = ok tt
scan (suc f) false (c ∷ s) = scan f (c == quote) s
scan (suc f) true (c ∷ s) = elim (string_step c s) [
  | err e ↦ err e
  | ok (in_string, rest) ↦ scan f in_string rest
]

unfoldable pub reject_unpaired_surrogate_escapes : Bytes → Check
reject_unpaired_surrogate_escapes raw = elim (scan (suc (length raw)) false raw) [
  | ok _ ↦ ok tt
  | err _ ↦ err malformed
]

unfoldable pub ensure_jcs_compatible_json : Bytes → Check
ensure_jcs_compatible_json raw = do
  refuse_if (not (valid_utf8 raw)) malformed
  reject_unpaired_surrogate_escapes raw
