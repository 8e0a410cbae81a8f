-- ===== src/Relay/Backoff.antt =====
-- The delays of relay/claim.go: `BackoffAfterAttempts`, and the expression of `ReleaseTransient`.
use seshatops.Base.{ℕ, ◌-◌, ◌^◌, Option, none, some, ltb, leb, if◌then◌else◌}

abbrev pub at_least_one : ℕ → ℕ
at_least_one n = if ltb n 1 then 1 else n

-- `BackoffAfterAttempts`, in seconds
unfoldable pub backoff_after_attempts : ℕ → ℕ
backoff_after_attempts attempts =
    let shift = at_least_one attempts - 1 in
    let capped = if ltb 6 shift then 6 else shift in
    let d = 2 ^ capped in if ltb 60 d then 60 else d

-- LEAST(60, POWER(2, GREATEST(publish_attempts, 1) - 1)::bigint), in seconds: the cast fails from 2^63 on.
unfoldable pub sql_backoff : ℕ → Option ℕ
sql_backoff attempts =
    let power = 2 ^ (at_least_one attempts - 1) in
    if leb (2 ^ 63) power then none else some (if ltb 60 power then 60 else power)
