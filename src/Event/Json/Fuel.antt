-- ===== src/Event/Json/Fuel.antt =====
-- Enough fuel for the decoder of event/parse.go.
use seshatops.Base.{ℕ, zero, suc, ◌<◌, Bytes, Bool-cases, inl, inr, ◌≡◌, arith}
use seshatops.Base.Int64.{ℤ}
use seshatops.Base.Result.{Result, ok, err}
use seshatops.Event.Json.{
  Tokens, eof, fault, next, size, open_object, close_object, open_array, close_array, null_token,
  boolean, string, number, Json, Members, end, int, object, DecodeError, bad, exhausted, has_member,
  add_member, parse_integer_number, decode_value, decode_object,
}

-- The fuel did not run out, and a result leaves fewer than `n` tokens.
abbrev pub Within {ℓ} : {A : Type ℓ} → ℕ → Result DecodeError (A × Tokens) → Type 0
Within n (ok (_, s)) = size s < n
Within n (err bad) = Unit
Within n (err exhausted) = ⊥

Within-weaken {ℓ} :
    {A : Type ℓ} (m n : ℕ) (r : Result DecodeError (A × Tokens)) → m < n → Within m r → Within n r
Within-weaken m n (ok (a, s)) h w = omega arith
Within-weaken m n (err bad) h w = tt
Within-weaken m n (err exhausted) h w = absurd w

Within-object :
    (n : ℕ) (r : Result DecodeError (Members × Tokens))
    → Within n r
    → Within (suc n) (elim r [ err e ↦ err e | ok (m, s') ↦ ok (object m, s') ])
Within-object n (ok (m, s)) w = omega arith
Within-object n (err bad) w = tt
Within-object n (err exhausted) w = absurd w

module _ (n : ℕ) (out : Members) (key : Bytes)
    (go : Members → Tokens → Result DecodeError (Members × Tokens))
    (later : (m : Members) (s : Tokens) → size s < n → Within n (go m s)) where
  Within-bind :
      (r : Result DecodeError (Json × Tokens))
      → Within n r
      → Within (suc n) (elim r [ err e ↦ err e | ok (v, s') ↦ go (add_member out key v) s' ])
  Within-bind (ok (v, s)) w =
      Within-weaken n (suc n) (go (add_member out key v) s) (omega arith)
        (later (add_member out key v) s w)
  Within-bind (err bad) w = tt
  Within-bind (err exhausted) w = absurd w

Within-number :
    (s : Tokens) (r : Result DecodeError ℤ)
    → ((r ≡ err exhausted) → ⊥)
    → Within (suc (size s)) (elim r [ err e ↦ err e | ok v ↦ ok (int v, s) ])
Within-number s (ok v) h = omega arith
Within-number s (err bad) h = tt
Within-number s (err exhausted) h = h (cc)

number_ends : (b : Bytes) → parse_integer_number b ≡ err exhausted → ⊥
unfolding parse_integer_number
number_ends b h = ground arith

mutual
  unfolding decode_value decode_object

  value-Within : (f : ℕ) (s : Tokens) → size s < f → Within (size s) (decode_value f s)
  value-Within zero s h = elim h [ ]
  value-Within (suc f) eof h = tt
  value-Within (suc f) fault h = tt
  value-Within (suc f) (next open_object s) h =
      (Within-object (size s) (decode_object f end s) (object-Within f end s (omega arith)))
  value-Within (suc f) (next (string v) s) h = omega arith
  value-Within (suc f) (next (number b) s) h =
      (Within-number s (parse_integer_number b) (number_ends b))
  value-Within (suc f) (next null_token s) h = omega arith
  value-Within (suc f) (next close_object s) h = tt
  value-Within (suc f) (next open_array s) h = tt
  value-Within (suc f) (next close_array s) h = tt
  value-Within (suc f) (next (boolean b) s) h = tt

  object-Within :
      (f : ℕ) (out : Members) (s : Tokens) → size s < f → Within (size s) (decode_object f out s)
  object-Within zero out s h = elim h [ ]
  object-Within (suc f) out eof h = tt
  object-Within (suc f) out fault h = tt
  object-Within (suc f) out (next close_object s) h = omega arith
  object-Within (suc f) out (next (string key) s) h = elim (Bool-cases (has_member key out)) [
    | inl e ↦ rw (e, decode_object) tt
    | inr e ↦
        rw (e, decode_object)
          (Within-bind (size s) out key (decode_object f)
            (λ m t lt.
              Within-weaken (size t) (size s) (decode_object f m t) lt
                (object-Within f m t (omega arith)))
            (decode_value f s) (value-Within f s (omega arith)))
  ]
  object-Within (suc f) out (next (number b) s) h = tt
  object-Within (suc f) out (next null_token s) h = tt
  object-Within (suc f) out (next open_object s) h = tt
  object-Within (suc f) out (next open_array s) h = tt
  object-Within (suc f) out (next close_array s) h = tt
  object-Within (suc f) out (next (boolean b) s) h = tt

-- With more fuel than tokens the decoder never runs out of it, and a decoded value has taken at
-- least one token.
pub decode_value-enough : (f : ℕ) (s : Tokens) → size s < f → Within (size s) (decode_value f s)
decode_value-enough f s h = value-Within f s h
