-- ===== src/Erp/Checks.antt =====
-- The string checks of erp/accept.go, which are written by hand beside those of package event.
--
-- `lower` stands for `unicode.ToLower` outside ASCII.
use mathlib.Core.Option.{get_or}
use seshatops.Base.{
  ℕ, ◌+◌, Bool, true, false, ◌&&◌, ◌||◌, not, Option, none, some, List, [], ◌∷◌, map, Bytes, ltb,
  ◌==◌, length, get_elem?, drop, take, ◌++◌, if◌then◌else◌,
}
use seshatops.Event.Text.{
  valid_utf8, runes, is_space, any, is_lower_hex, is_digit, lower_rune, is_lowercase, is_empty,
  time_z_regexp, match_prefix, parses_rfc3339,
}

-- The bytes of a rune in UTF-8.
abbrev width : ℕ → ℕ
width r = if ltb r 0x80 then 1 else if ltb r 0x800 then 2 else if ltb r 0x10000 then 3 else 4

abbrev is_hyphen_place : ℕ → Bool
is_hyphen_place i = i == 8 || i == 13 || i == 18 || i == 23

-- The loop `for i, c := range lower`: `i` counts bytes.
unfoldable pub uuid_places : ℕ → List ℕ → Bool
uuid_places i [] = true
uuid_places i (c ∷ cs) =
    let rest = uuid_places (i + width c) cs in
    if is_hyphen_place i then c == b'-' && rest else is_lower_hex c && rest

abbrev is_variant_rune : ℕ → Bool
is_variant_rune c = c == b'8' || c == b'9' || c == b'a' || c == b'b'

-- What stands behind the seconds: `([.,][0-9]+)?Z`.
unfoldable pub only_digits_then_z : Bytes → Bool
only_digits_then_z [] = false
only_digits_then_z (b ∷ s) =
    let rest = only_digits_then_z s in if is_digit b then rest else b == b'Z' && is_empty s

unfoldable pub zone_z : Bytes → Bool
zone_z [] = false
zone_z (b ∷ []) = b == b'Z'
zone_z (b ∷ c ∷ s) = (b == b'.' || b == b',') && is_digit c && only_digits_then_z s

abbrev zone_after : Option Bytes → Bool
zone_after none = false
zone_after (some rest) = zone_z rest

-- `time.Parse` takes an hour of one digit too.
unfoldable pub pad_hour : Bytes → Bytes
pad_hour v = if get_or (get_elem? v 12) 0 == b':' then take 11 v ++ (b'0' ∷ drop 11 v) else v

-- `parseTimeZ`: `time.Parse(time.RFC3339Nano, v)` succeeds and the zone is Z.
unfoldable pub accepts_time_z : Bytes → Bool
accepts_time_z v =
    let padded = pad_hour v in
    valid_utf8 v && zone_after (match_prefix time_z_regexp padded) && parses_rfc3339 padded

module _ (lower : ℕ → ℕ) where
  -- `requireUUID`; behind the loop every rune is one byte.
  unfoldable pub accepts_uuid : Bytes → Bool
  accepts_uuid v =
      let lowered = map (lower_rune lower) (runes v) in
      valid_utf8 v
      && length v == 36
      && uuid_places 0 lowered
      && get_or (get_elem? lowered 14) 0 == b'4'
      && is_variant_rune (get_or (get_elem? lowered 19) 0)

  -- `requireLowerUUID`
  unfoldable pub accepts_lower_uuid : Bytes → Bool
  accepts_lower_uuid v = accepts_uuid v && is_lowercase lower v

  -- `requireCanonicalID`
  unfoldable pub accepts_canonical_id : Bytes → Bool
  accepts_canonical_id v =
      not (is_empty v) && valid_utf8 v && is_lowercase lower v && not (any is_space (runes v))

  -- `requireOptionalUUID`
  unfoldable pub accepts_optional_uuid : Option Bytes → Bool
  accepts_optional_uuid none = true
  accepts_optional_uuid (some v) = accepts_uuid v
