-- ===== src/Event/Text.antt =====
-- The string checks of event/envelope.go: UTF-8, UUIDs, canonical identifiers, timestamps.
--
-- A Go string is a list of bytes. `decode_runes` is the decoding that `utf8.ValidString` and
-- `range` make; the checks below it are only reached by strings that passed `require_utf8`.
-- `lower` stands for `unicode.ToLower` on the runes outside ASCII, whose tables are not modelled.
use mathlib.Core.Option.{get_or}
use seshatops.Base.{
  ℕ, zero, suc, ◌+◌, ◌-◌, ◌*◌, ◌%◌, Bool, true, false, ◌&&◌, ◌||◌, not, Option, none, some, List,
  [], ◌∷◌, map, Bytes, str_eq, ltb, leb, ◌==◌, if◌then◌else◌, get_elem?,
}
use seshatops.Base.Table.{is_some}
use seshatops.Base.Result.{Result, ◌>>◌, refuse_if}

-- The sentinel errors of event/errors.go.
pub data EventError : Type 0 where
  malformed unsupported identity_conflict : EventError

abbrev pub Check : Type 0
Check = Result EventError (Unit {0})

abbrev pub between : ℕ → ℕ → ℕ → Bool
between lo hi b = leb lo b && leb b hi

-- The leading byte of a rune: how many bytes follow, the range of the first of them, and the bits.
lead : ℕ → Option (ℕ × ℕ × ℕ × ℕ)
lead b =
    if ltb b 0x80
    then some (0, 0x80, 0xBF, b)
    else if between 0xC2 0xDF b
    then some (1, 0x80, 0xBF, b - 0xC0)
    else if b == 0xE0
    then some (2, 0xA0, 0xBF, 0)
    else if b == 0xED
    then some (2, 0x80, 0x9F, 13)
    else if between 0xE1 0xEF b
    then some (2, 0x80, 0xBF, b - 0xE0)
    else if b == 0xF0
    then some (3, 0x90, 0xBF, 0)
    else if between 0xF1 0xF3 b
    then some (3, 0x80, 0xBF, b - 0xF0)
    else if b == 0xF4
    then some (3, 0x80, 0x8F, 4)
    else none

-- `n` bytes of the current rune are to come, the next of them in `lo` to `hi`.
decode_from : ℕ → ℕ → ℕ → ℕ → Bytes → Option (List ℕ)
decode_from zero lo hi bits [] = some []
decode_from (suc n) lo hi bits [] = none
decode_from zero lo hi bits (b ∷ s) = elim (lead b) [
  | none ↦ none
  | some (zero, _, _, r) ↦ elim (decode_from zero 0 0 0 s) [ none ↦ none | some rs ↦ some (r ∷ rs) ]
  | some (suc m, l, h, r) ↦ decode_from (suc m) l h r s
]
decode_from (suc zero) lo hi bits (b ∷ s) =
    let r = bits * 64 + (b - 0x80) in
    let rest = decode_from zero 0 0 0 s in
    if between lo hi b then elim rest [ none ↦ none | some rs ↦ some (r ∷ rs) ] else none
decode_from (suc (suc n)) lo hi bits (b ∷ s) =
    let rest = decode_from (suc n) 0x80 0xBF (bits * 64 + (b - 0x80)) s in
    if between lo hi b then rest else none

unfoldable pub decode_runes : Bytes → Option (List ℕ)
unfolding lead decode_from
decode_runes s = decode_from 0 0 0 0 s

unfoldable pub valid_utf8 : Bytes → Bool
unfolding decode_runes
valid_utf8 s = is_some (decode_runes s)

-- The runes that `range` visits.
unfoldable pub runes : Bytes → List ℕ
unfolding decode_runes
runes s = get_or (decode_runes s) []

-- `unicode.IsSpace`
unfoldable pub is_space : ℕ → Bool
is_space r =
    between 9 13 r
    || r == 0x20
    || r == 0x85
    || r == 0xA0
    || r == 0x1680
    || between 0x2000 0x200A r
    || r == 0x2028
    || r == 0x2029
    || r == 0x202F
    || r == 0x205F
    || r == 0x3000

unfoldable pub any : (ℕ → Bool) → List ℕ → Bool
any p [] = false
any p (r ∷ rs) = p r || any p rs

unfoldable pub is_digit : ℕ → Bool
is_digit c = between b'0' b'9' c

unfoldable pub is_lower_hex : ℕ → Bool
unfolding is_digit
is_lower_hex c = is_digit c || between b'a' b'f' c

-- `[0-9a-f]` under `(?i)`
unfoldable pub is_hex : ℕ → Bool
unfolding is_lower_hex
is_hex c = is_lower_hex c || between b'A' b'F' c

is_variant : ℕ → Bool
is_variant c = c == b'8' || c == b'9' || c == b'a' || c == b'b' || c == b'A' || c == b'B'

is_byte : ℕ → ℕ → Bool
is_byte c b = b == c

repeat : ℕ → (ℕ → Bool) → List (ℕ → Bool) → List (ℕ → Bool)
repeat zero p ps = ps
repeat (suc n) p ps = p ∷ repeat n p ps

-- The rest of the string behind a match of the character classes at its start.
unfoldable pub match_prefix : List (ℕ → Bool) → Bytes → Option Bytes
match_prefix [] s = some s
match_prefix (p ∷ ps) [] = none
match_prefix (p ∷ ps) (b ∷ s) = let rest = match_prefix ps s in if p b then rest else none

uuid_v4_regexp : List (ℕ → Bool)
unfolding is_hex is_variant is_byte repeat
uuid_v4_regexp = repeat 8 is_hex (
    is_byte b'-'
    ∷ repeat 4 is_hex (
        is_byte b'-'
        ∷ is_byte b'4'
        ∷ repeat 3 is_hex
            (is_byte b'-' ∷ is_variant ∷ repeat 3 is_hex (is_byte b'-' ∷ repeat 12 is_hex []))))

unfoldable pub time_z_regexp : List (ℕ → Bool)
unfolding is_digit is_byte repeat
time_z_regexp = repeat 4 is_digit (
    is_byte b'-'
    ∷ repeat 2 is_digit (
        is_byte b'-'
        ∷ repeat 2 is_digit (
            is_byte b'T'
            ∷ repeat 2 is_digit
                (is_byte b':' ∷ repeat 2 is_digit (is_byte b':' ∷ repeat 2 is_digit [])))))

abbrev pub is_empty : Bytes → Bool
is_empty [] = true
is_empty (_ ∷ _) = false

abbrev whole : Option Bytes → Bool
whole none = false
whole (some rest) = is_empty rest

unfoldable pub is_uuid : Bytes → Bool
unfolding uuid_v4_regexp match_prefix
is_uuid v = whole (match_prefix uuid_v4_regexp v)

-- `[0-9]*Z$`
digits_then_z : Bytes → Bool
unfolding is_digit
digits_then_z [] = false
digits_then_z (b ∷ s) =
    let rest = digits_then_z s in if is_digit b then rest else b == b'Z' && is_empty s

-- `(\.[0-9]+)?Z$`
fraction_then_z : Bytes → Bool
unfolding digits_then_z
fraction_then_z [] = false
fraction_then_z (b ∷ []) = b == b'Z'
fraction_then_z (b ∷ c ∷ s) = b == b'.' && is_digit c && digits_then_z s

abbrev after_seconds : Option Bytes → Bool
unfolding fraction_then_z
after_seconds none = false
after_seconds (some rest) = fraction_then_z rest

unfoldable pub is_time_z : Bytes → Bool
unfolding time_z_regexp match_prefix fraction_then_z
is_time_z v = after_seconds (match_prefix time_z_regexp v)

-- The number that two digits at a position write.
two_digits : Bytes → ℕ → ℕ
two_digits s i =
    (get_or (get_elem? s i) b'0' - b'0') * 10 + (get_or (get_elem? s (i + 1)) b'0' - b'0')

unfoldable pub days_in : ℕ → ℕ → ℕ
days_in year month =
    if month == 2
    then (if (year % 4 == 0) && (not (year % 100 == 0) || year % 400 == 0) then 29 else 28)
    else if month == 4 || month == 6 || month == 9 || month == 11
    then 30
    else 31

-- `time.Parse(time.RFC3339Nano, v)` succeeds, for a string that has the shape of `time_z_regexp`.
unfoldable pub parses_rfc3339 : Bytes → Bool
unfolding two_digits days_in
parses_rfc3339 v =
    let year = two_digits v 0 * 100 + two_digits v 2 in
    let month = two_digits v 5 in
    let day = two_digits v 8 in
    between 1 12 month
    && between 1 (days_in year month) day
    && ltb (two_digits v 11) 24
    && ltb (two_digits v 14) 60
    && ltb (two_digits v 17) 60

unfoldable pub require_utf8 : Bytes → Check
require_utf8 v = refuse_if (not (valid_utf8 v)) malformed

unfoldable pub require_uuid : Bytes → Check
require_uuid v = refuse_if (not (is_uuid v)) malformed

unfoldable pub require_time_z : Bytes → Check
require_time_z v = do
  refuse_if (not (is_time_z v)) malformed
  refuse_if (not (parses_rfc3339 v)) malformed

-- `strings.TrimSpace(v) == ""`
unfoldable pub is_blank : Bytes → Bool
is_blank v = not (any (λ r. not (is_space r)) (runes v))

module _ (lower : ℕ → ℕ) where
  -- `unicode.ToLower`
  unfoldable pub lower_rune : ℕ → ℕ
  lower_rune r = if ltb r 0x80 then (if between b'A' b'Z' r then r + 32 else r) else lower r

  -- `v == strings.ToLower(v)`, for a valid string: no rune changes.
  unfoldable pub is_lowercase : Bytes → Bool
  unfolding lower_rune
  is_lowercase v = str_eq (runes v) (map lower_rune (runes v))

  unfoldable pub require_lower_uuid : Bytes → Check
  require_lower_uuid v = do require_uuid v; refuse_if (not (is_lowercase v)) malformed

  unfoldable pub require_canonical_id : Bytes → Check
  require_canonical_id v = do
    refuse_if (is_empty v) malformed
    refuse_if (not (is_lowercase v)) malformed
    refuse_if (any is_space (runes v)) malformed
