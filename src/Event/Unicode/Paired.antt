-- ===== src/Event/Unicode/Paired.antt =====
-- Surrogate pairs: the scan of event/unicode.go against its description.
use seshatops.Base.{
  ℕ, zero, suc, ◌≤◌, ◌<◌, Bool, true, false, ◌≡◌, refl, ap, subst, not, ◌||◌, ◌↔◌, inl, inr, some,
  [], ◌∷◌, Bytes, ◌==◌, length, Bool-cases, arith,
}
use seshatops.Base.Result.{Result, ok, err}
use seshatops.Event.Json.{DecodeError}
use seshatops.Event.Unicode.{
  hex_unit, is_high_surrogate, is_low_surrogate, quote, backslash, starts_escape,
  parse_json_unicode_escape, low_half, unicode_step, escape_step, string_step, scan,
  reject_unpaired_surrogate_escapes,
}

-- `u` is the code unit of the escape that `s` begins with, and `rest` is what follows it.
abbrev Escape : Bytes → ℕ → Bytes → Type 0
Escape (s ∷ u ∷ a ∷ b ∷ c ∷ d ∷ t) unit rest =
    (starts_escape s u ≡ true) × (hex_unit a b c d ≡ some unit) × (t ≡ rest)
Escape _ unit rest = ⊥

escape_lem :
    (s : Bytes) {u : ℕ} {rest : Bytes}
    → parse_json_unicode_escape s ≡ ok (u, rest)
    → Escape s u rest
unfolding parse_json_unicode_escape
escape_lem [] h = cc
escape_lem (s ∷ []) h = cc
escape_lem (s ∷ u ∷ []) h = cc
escape_lem (s ∷ u ∷ a ∷ []) h = cc
escape_lem (s ∷ u ∷ a ∷ b ∷ []) h = cc
escape_lem (s ∷ u ∷ a ∷ b ∷ c ∷ []) h = cc
escape_lem (s ∷ u ∷ a ∷ b ∷ c ∷ d ∷ t) h = ground arith

Escape-parses :
    (s : Bytes) (u : ℕ) (rest : Bytes)
    → Escape s u rest
    → parse_json_unicode_escape s ≡ ok (u, rest)
unfolding parse_json_unicode_escape
Escape-parses [] u rest h = absurd h
Escape-parses (s ∷ []) u rest h = absurd h
Escape-parses (s ∷ x ∷ []) u rest h = absurd h
Escape-parses (s ∷ x ∷ a ∷ []) u rest h = absurd h
Escape-parses (s ∷ x ∷ a ∷ b ∷ []) u rest h = absurd h
Escape-parses (s ∷ x ∷ a ∷ b ∷ c ∷ []) u rest h = absurd h
Escape-parses (s ∷ x ∷ a ∷ b ∷ c ∷ d ∷ t) u rest h = ground arith

Escape-shorter : (s : Bytes) (u : ℕ) (rest : Bytes) → Escape s u rest → length rest < length s
Escape-shorter [] u rest h = absurd h
Escape-shorter (s ∷ []) u rest h = absurd h
Escape-shorter (s ∷ x ∷ []) u rest h = absurd h
Escape-shorter (s ∷ x ∷ a ∷ []) u rest h = absurd h
Escape-shorter (s ∷ x ∷ a ∷ b ∷ []) u rest h = absurd h
Escape-shorter (s ∷ x ∷ a ∷ b ∷ c ∷ []) u rest h = absurd h
Escape-shorter (s ∷ x ∷ a ∷ b ∷ c ∷ d ∷ t) u rest h = omega (arith, ap length h.2)

-- One item inside a string literal: a plain byte, a short escape, a unit that is no surrogate, or a
-- pair of a high and a low surrogate. `q` says whether the literal goes on.
pub data Round (c : ℕ) (s : Bytes) (q : Bool) (rest : Bytes) : Type 0 where
  plain : (c == backslash) ≡ false → q ≡ not (c == quote) → rest ≡ s → Round c s q rest
  short :
      (e : ℕ)
      → (c == backslash) ≡ true
      → s ≡ e ∷ rest
      → (e == b'u' || e == b'U') ≡ false
      → q ≡ true
      → Round c s q rest
  unit :
      (u : ℕ)
      → Escape (c ∷ s) u rest
      → is_high_surrogate u ≡ false
      → is_low_surrogate u ≡ false
      → q ≡ true
      → Round c s q rest
  pair :
      (u v : ℕ) (mid : Bytes)
      → Escape (c ∷ s) u mid
      → is_high_surrogate u ≡ true
      → Escape mid v rest
      → is_low_surrogate v ≡ true
      → q ≡ true
      → Round c s q rest

-- The inputs whose surrogate escapes come in pairs, from inside (`true`) or outside a literal.
pub data Paired : Bool → Bytes → Type 0 where
  done : {q : Bool} → Paired q []
  outside : {c : ℕ} {s : Bytes} → Paired (c == quote) s → Paired false (c ∷ s)
  inside :
      {c : ℕ} {s : Bytes} (q : Bool) (rest : Bytes)
      → Round c s q rest
      → Paired q rest
      → Paired true (c ∷ s)

low_half_sound :
    (s : Bytes) (q : Bool) (rest : Bytes)
    → low_half s ≡ ok (q, rest)
    → (v : ℕ) × Escape s v rest × (is_low_surrogate v ≡ true) × (q ≡ true)
unfolding low_half
low_half_sound [] q rest h = ground arith
low_half_sound (_ ∷ []) q rest h = ground arith
low_half_sound (x ∷ y ∷ t) q rest h = go (parse_json_unicode_escape (x ∷ y ∷ t)) refl
  where
    go :
        (r : Result DecodeError (ℕ × Bytes))
        → parse_json_unicode_escape (x ∷ y ∷ t) ≡ r
        → (v : ℕ) × Escape (x ∷ y ∷ t) v rest × (is_low_surrogate v ≡ true) × (q ≡ true)
    go (err e) p = ground arith
    go (ok (v, after)) p =
        let e : after ≡ rest = ground arith in
        (
          v,
          subst (λ r. Escape (x ∷ y ∷ t) v r) e (escape_lem (x ∷ y ∷ t) p),
          ground arith,
          ground arith,
        )

unicode_step_sound :
    (c : ℕ) (s : Bytes) (q : Bool) (rest : Bytes)
    → unicode_step (c ∷ s) ≡ ok (q, rest)
    → Round c s q rest
unfolding unicode_step
unicode_step_sound c s q rest h = go (parse_json_unicode_escape (c ∷ s)) refl
  where
    go :
        (r : Result DecodeError (ℕ × Bytes))
        → parse_json_unicode_escape (c ∷ s) ≡ r
        → Round c s q rest
    go (err e) p = absurd (ground arith)
    go (ok (u, mid)) p = elim (Bool-cases (is_high_surrogate u)) [
      | inl high ↦
          let (v, low, is_low, on) = low_half_sound mid q rest (ground arith) in
          Round.pair u v mid (escape_lem (c ∷ s) p) high low is_low on
      | inr flat ↦
          let e : mid ≡ rest = ground arith in
          Round.unit u (subst (λ r. Escape (c ∷ s) u r) e (escape_lem (c ∷ s) p)) flat
            (ground arith) (ground arith)
    ]

string_step_sound :
    (c : ℕ) (s : Bytes) (q : Bool) (rest : Bytes)
    → string_step c s ≡ ok (q, rest)
    → Round c s q rest
unfolding string_step escape_step
string_step_sound c [] q rest h = Round.plain (ground arith) (ground arith) (ground arith)
string_step_sound c (e ∷ s) q rest h = elim (Bool-cases (c == backslash)) [
  | inr no_escape ↦ Round.plain no_escape (ground arith) (ground arith)
  | inl escaped ↦ elim (Bool-cases (e == b'u' || e == b'U')) [
    | inr other ↦ Round.short e escaped (ground arith) other (ground arith)
    | inl u ↦ unicode_step_sound c (e ∷ s) q rest (ground arith)
  ]
]

scan_sound : (f : ℕ) (q : Bool) (s : Bytes) → scan f q s ≡ ok tt → Paired q s
unfolding scan
scan_sound zero q s h = absurd (ground arith)
scan_sound (suc f) q [] h = done
scan_sound (suc f) false (c ∷ s) h = outside (scan_sound f (c == quote) s h)
scan_sound (suc f) true (c ∷ s) h = go (string_step c s) refl (scan_sound f)
  where
    go :
        (r : Result DecodeError (Bool × Bytes))
        → string_step c s ≡ r
        → ((q : Bool) (rest : Bytes) → scan f q rest ≡ ok tt → Paired q rest)
        → Paired true (c ∷ s)
    go (err e) p later = absurd (ground arith)
    go (ok (q, rest)) p later =
        inside q rest (string_step_sound c s q rest p) (later q rest (ground arith))

low_half_complete :
    (s : Bytes) (v : ℕ) (rest : Bytes)
    → Escape s v rest
    → is_low_surrogate v ≡ true
    → low_half s ≡ ok (true, rest)
unfolding low_half
low_half_complete [] v rest h low = absurd h
low_half_complete (_ ∷ []) v rest h low = absurd h
low_half_complete (x ∷ y ∷ []) v rest h low = absurd h
low_half_complete (x ∷ y ∷ a ∷ []) v rest h low = absurd h
low_half_complete (x ∷ y ∷ a ∷ b ∷ []) v rest h low = absurd h
low_half_complete (x ∷ y ∷ a ∷ b ∷ c ∷ []) v rest h low = absurd h
low_half_complete (x ∷ y ∷ a ∷ b ∷ c ∷ d ∷ t) v rest h low =
    ground (arith, Escape-parses (x ∷ y ∷ a ∷ b ∷ c ∷ d ∷ t) v rest h)

-- A `\u` escape inside a literal is handled by `unicode_step`.
Escape-of :
    (c : ℕ) (s : Bytes) (u : ℕ) (rest : Bytes)
    → Escape (c ∷ s) u rest
    → string_step c s ≡ unicode_step (c ∷ s)
unfolding string_step escape_step
Escape-of c [] u rest h = absurd h
Escape-of c (x ∷ []) u rest h = absurd h
Escape-of c (x ∷ a ∷ []) u rest h = absurd h
Escape-of c (x ∷ a ∷ b ∷ []) u rest h = absurd h
Escape-of c (x ∷ a ∷ b ∷ d ∷ []) u rest h = absurd h
Escape-of c (x ∷ a ∷ b ∷ d ∷ e ∷ t) u rest h = ground arith

unicode_step-unit :
    (s : Bytes) (u : ℕ) (rest : Bytes)
    → Escape s u rest
    → is_high_surrogate u ≡ false
    → is_low_surrogate u ≡ false
    → unicode_step s ≡ ok (true, rest)
unfolding unicode_step
unicode_step-unit s u rest h high low = ground (arith, Escape-parses s u rest h)

unicode_step-pair :
    (s : Bytes) (u v : ℕ) (mid rest : Bytes)
    → Escape s u mid
    → is_high_surrogate u ≡ true
    → Escape mid v rest
    → is_low_surrogate v ≡ true
    → unicode_step s ≡ ok (true, rest)
unfolding unicode_step
unicode_step-pair s u v mid rest h high h' low =
    ground (arith, Escape-parses s u mid h, low_half_complete mid v rest h' low)

string_step_complete :
    (c : ℕ) (s : Bytes) (q : Bool) (rest : Bytes)
    → Round c s q rest
    → (string_step c s ≡ ok (q, rest)) × (length rest ≤ length s)
string_step_complete c s q rest (Round.plain no_escape on e) =
    (unfold string_step in ground arith, omega (arith, ap length e))
string_step_complete c s q rest (Round.short x escaped e other on) =
    (rw e (unfold string_step escape_step in ground arith), omega (arith, ap length e))
string_step_complete c s q rest (Round.unit u h high low on) = (
  rw (Escape-of c s u rest h, on) (unicode_step-unit (c ∷ s) u rest h high low),
  omega (arith, Escape-shorter (c ∷ s) u rest h),
)
string_step_complete c s q rest (Round.pair u v mid h high h' low on) = (
  rw (Escape-of c s u mid h, on) (unicode_step-pair (c ∷ s) u v mid rest h high h' low),
  omega (arith, Escape-shorter (c ∷ s) u mid h, Escape-shorter mid v rest h'),
)

scan_complete : (f : ℕ) (q : Bool) (s : Bytes) → length s < f → Paired q s → scan f q s ≡ ok tt
unfolding scan
scan_complete zero q s lt p = elim lt [ ]
scan_complete (suc f) q [] lt done = refl
scan_complete (suc f) false (c ∷ s) lt (outside p) = scan_complete f (c == quote) s (omega arith) p
scan_complete (suc f) true (c ∷ s) lt (inside q rest r p) =
    let (step, shorter) = string_step_complete c s q rest r in
    rw (step, scan) (scan_complete f q rest (omega arith) p)

-- `rejectUnpairedSurrogateEscapes` accepts an input exactly when, inside its string literals, every
-- escaped high surrogate is followed at once by an escaped low one, no low one stands alone, and
-- every escape is complete.
pub reject_iff : (raw : Bytes) → (reject_unpaired_surrogate_escapes raw ≡ ok tt) ↔ Paired false raw
unfolding reject_unpaired_surrogate_escapes
reject_iff raw = (
  λ h. scan_sound (suc (length raw)) false raw (ground arith),
  λ p. ground (arith, scan_complete (suc (length raw)) false raw (omega arith) p),
)
