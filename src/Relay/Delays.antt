-- ===== src/Relay/Delays.antt =====
-- The two forms of the delay in relay/claim.go.
use seshatops.Base.{
  ℕ, zero, suc, ◌-◌, ◌^◌, ◌≤◌, ◌<◌, ◌≡◌, inl, inr, subst, Option, none, some, ltb, leb,
  if◌then◌else◌, arith, false, Bool-cases, ltb→lt,
}
use seshatops.Relay.Backoff.{backoff_after_attempts, sql_backoff, at_least_one}

pow_pos : (k : ℕ) → 1 ≤ 2 ^ k
pow_pos zero = omega arith
pow_pos (suc k) = omega (arith, pow_pos k)

pow_mono : (a b : ℕ) → a ≤ b → 2 ^ a ≤ 2 ^ b
pow_mono zero b h = pow_pos b
pow_mono (suc a) zero h = omega arith
pow_mono (suc a) (suc b) h = omega (arith, pow_mono a b (omega arith))

abbrev sql_delay : ℕ → Option ℕ
sql_delay shift =
    if leb (2 ^ 63) (2 ^ shift) then none else some (if ltb 60 (2 ^ shift) then 60 else 2 ^ shift)

abbrev go_delay : ℕ → ℕ
go_delay shift =
    let capped = if ltb 6 shift then 6 else shift in
    let d = 2 ^ capped in if ltb 60 d then 60 else d

delays-long : (k : ℕ) → 63 ≤ k → sql_delay k ≡ none
delays-long k h = ground (arith, pow_mono 63 k h)

delays-middle : (k : ℕ) → 6 ≤ k → k < 63 → sql_delay k ≡ some (go_delay k)
delays-middle k low high = ground (arith, pow_mono 6 k low, pow_mono k 62 (omega arith))

delays-short : (k : ℕ) → k < 6 → sql_delay k ≡ some (go_delay k)
delays-short k low = ground (arith, pow_mono k 5 (omega arith))

not_ltb→le : (a b : ℕ) → ltb a b ≡ false → b ≤ a
not_ltb→le a b h = ground arith

delays-agree : (k : ℕ) → sql_delay k ≡ (if ltb k 63 then some (go_delay k) else none)
delays-agree k = elim (Bool-cases (ltb k 63)) [
  | inl e ↦ rw e (elim (Bool-cases (ltb k 6)) [
    | inl low ↦ delays-short k (ltb→lt k 6 low)
    | inr high ↦ delays-middle k (not_ltb→le k 6 high) (ltb→lt k 63 e)
  ])
  | inr e ↦ rw e (delays-long k (not_ltb→le k 63 e))
]

shift_range : (n : ℕ) → ltb (at_least_one n - 1) 63 ≡ ltb n 64
shift_range n = ground arith

-- Up to 63 attempts the SQL of ReleaseTransient computes the delay of BackoffAfterAttempts; from 64 attempts on the
-- statement fails.
pub sql_backoff-backoff_after_attempts :
    (n : ℕ) → sql_backoff n ≡ (if ltb n 64 then some (backoff_after_attempts n) else none)
unfolding sql_backoff backoff_after_attempts
sql_backoff-backoff_after_attempts n =
    subst (λ b. sql_backoff n ≡ (if b then some (backoff_after_attempts n) else none))
      (shift_range n) (delays-agree (at_least_one n - 1))
