-- ===== src/Event/Parse/Sound.antt =====
-- What an accepted input of `Parse` (event/parse.go) is.
use seshatops.Base.{ℕ, ◌≡◌, true, false, Bytes, arith}
use seshatops.Base.Result.{ok, >>=-eq-ok}
use seshatops.Event.Text.{valid_utf8}
use seshatops.Event.Json.{Tokens}
use seshatops.Event.Payload.{Envelope}
use seshatops.Event.Validate.{validate}
use seshatops.Event.Validate.Sound.{IsEnvelope, validate_sound}
use seshatops.Event.Unicode.{ensure_jcs_compatible_json}
use seshatops.Event.Unicode.Paired.{Paired, reject_iff}
use seshatops.Event.Parse.{parse, decode_strict, from_root}

module _ (lower : ℕ → ℕ) (tokens : Bytes → Tokens) where
  -- An accepted input is valid UTF-8 with its surrogate escapes in pairs, and the envelope that
  -- `Parse` returns satisfies the whole contract of `Validate`.
  pub parse_sound :
      (raw : Bytes) (env : Envelope)
      → parse lower tokens raw ≡ ok env
      → (valid_utf8 raw ≡ true) × Paired false raw × IsEnvelope lower env
  unfolding parse decode_strict ensure_jcs_compatible_json
  parse_sound raw env h =
      let (root, p, q) = >>=-eq-ok (decode_strict lower tokens raw) _ h in
      let (read, p', q') = >>=-eq-ok (from_root root) _ q in
      let checked : validate lower read ≡ ok tt = ground arith in
      let same : read ≡ env = ground arith in
      (
        ground arith,
        (reject_iff raw).0 (ground arith),
        validate_sound lower env (rw same at checked),
      )
