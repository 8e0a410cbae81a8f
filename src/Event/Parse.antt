-- ===== src/Event/Parse.antt =====
-- `Parse` and `decodeStrict` of event/parse.go.
--
-- `tokens` stands for the tokenizer of `encoding/json`: what `dec.Token()` returns on an input.
pub mod Sound
use seshatops.Base.{ℕ, suc, Bytes}
use seshatops.Base.Result.{Result, ok, err, ◌>>=◌, ◌>>◌}
use seshatops.Event.Text.{EventError, malformed, Check}
use seshatops.Event.Json.{Json, object, Tokens, eof, size, DecodeError, decode_value}
use seshatops.Event.Payload.{Envelope}
use seshatops.Event.Validate.{validate}
use seshatops.Event.Unicode.{ensure_jcs_compatible_json}
use seshatops.Event.Decode.{ParseResult, envelope_from_object}

-- The value, if nothing follows it.
abbrev no_trailing : Result DecodeError (Json × Tokens) → ParseResult Json
no_trailing (ok (v, eof)) = ok v
no_trailing (ok (v, _)) = err malformed
no_trailing (err e) = err malformed

abbrev from_root : Json → ParseResult Envelope
from_root (object m) = envelope_from_object m
from_root _ = err malformed

module _ (lower : ℕ → ℕ) (tokens : Bytes → Tokens) where
  unfoldable pub decode_strict : Bytes → ParseResult Json
  decode_strict raw = do
    ensure_jcs_compatible_json raw
    no_trailing (decode_value (suc (size (tokens raw))) (tokens raw))

  unfoldable pub parse : Bytes → ParseResult Envelope
  parse raw = do root ← decode_strict raw; env ← from_root root; validate lower env; ok env
