-- ===== src/Relay/Tests.antt =====
-- Runs of the operations of relay/claim.go on an outbox with two rows.
use seshatops.Base.{
  ℕ, suc, ◌≡◌, refl, ◌∙◌, sym, Bool, true, false, Option, none, some, ltb, if◌then◌else◌, List, [],
  ◌∷◌, Bytes, map, All, arith, str_eq_iff, str_eq,
}
use seshatops.Base.Int64.{pos}
use seshatops.Base.Table.{update_where, count_where}
use seshatops.Relay.Backoff.{backoff_after_attempts, sql_backoff}
use seshatops.Relay.Delays.{sql_backoff-backoff_after_attempts}
use seshatops.Relay.Claim.{
  pending, published, OutboxRow, lease, claim_due, claim_each, mark_published, release_transient,
  quarantine, release_quarantined,
}
use seshatops.Relay.Evolves.{Follow, Pairwise}
use seshatops.Relay.Leases.{Unclaimed, claim_due-Unclaimed}
use seshatops.Relay.Keyed.{IsKeyed}
use seshatops.Relay.Runs.{
  Op, claim_op, published_op, transient_op, quarantine_op, retry_op, run_ops, relay_step,
  run_ops-Follow,
}

abbrev outbox_row : Bytes → OutboxRow
outbox_row id = record {
  event_id = id;
  tenant_id = 1 ∷ [];
  aggregate_type = 2 ∷ [];
  aggregate_id = 3 ∷ [];
  aggregate_version = pos 1;
  content_hash = 4 ∷ [];
  event_bytes = 5 ∷ [];
  status = pending;
  publish_attempts = 0;
  last_error_code = none;
  lease_owner = none;
  lease_expires_at = none;
}

abbrev first : OutboxRow
first = outbox_row (10 ∷ [])

abbrev second : OutboxRow
second = outbox_row (20 ∷ [])

abbrev two_rows : List OutboxRow
two_rows = first ∷ second ∷ []

-- The first row is published; the second is released, claimed again, parked and retried.
abbrev history : List Op
history =
    claim_op (7 ∷ []) 0 5 100
    ∷ published_op (10 ∷ []) (7 ∷ [])
    ∷ transient_op (20 ∷ []) (7 ∷ []) (9 ∷ []) 200
    ∷ claim_op (8 ∷ []) 500 5 1200
    ∷ quarantine_op (20 ∷ []) (8 ∷ []) (9 ∷ [])
    ∷ retry_op (1 ∷ []) (20 ∷ [])
    ∷ []

history-statuses : map (λ r. r.status) (run_ops history two_rows) ≡ published ∷ pending ∷ []
unfolding run_ops relay_step claim_due mark_published quarantine release_transient
    release_quarantined update_where claim_each seshatops.Base.select count_where str_eq sql_backoff
history-statuses = refl

history-attempts : map (λ r. r.publish_attempts) (run_ops history two_rows) ≡ 1 ∷ 2 ∷ []
unfolding run_ops relay_step claim_due mark_published quarantine release_transient
    release_quarantined update_where claim_each seshatops.Base.select count_where str_eq sql_backoff
history-attempts = refl

apart : first.event_id ≡ second.event_id → ⊥
apart e = apart_bool ((str_eq_iff first.event_id second.event_id).1 e)
  where
    apart_bool : str_eq first.event_id second.event_id ≡ true → ⊥
    apart_bool h = ground arith

two_rows-IsKeyed : IsKeyed two_rows
two_rows-IsKeyed = (
  (λ _. refl, (λ e. elim (apart (sym e)) [ ], tt)),
  (((λ e. elim (apart e) [ ]), (λ _. refl, tt)), tt),
)

run_ops-Follow_example : Follow two_rows (run_ops history two_rows)
run_ops-Follow_example = run_ops-Follow history two_rows two_rows-IsKeyed

-- The attempt that no release can follow.
sql_backoff-backoff_after_attempts_example :
    sql_backoff 64 ≡ (if ltb 64 64 then some (backoff_after_attempts 64) else none)
sql_backoff-backoff_after_attempts_example = sql_backoff-backoff_after_attempts 64

-- The second row under the lease of a relay.
abbrev held_row : OutboxRow
held_row = lease (7 ∷ []) 30100 second

abbrev one_held : List OutboxRow
one_held = first ∷ held_row ∷ []

held_apart : first.event_id ≡ held_row.event_id → ⊥
held_apart e = apart e

one_held-IsKeyed : IsKeyed one_held
one_held-IsKeyed = (
  (λ _. refl, (λ e. elim (held_apart (sym e)) [ ], tt)),
  (((λ e. elim (held_apart e) [ ]), (λ _. refl, tt)), tt),
)

-- Another relay, which gets the first row only.
claim_due-Unclaimed_example :
    Pairwise (Unclaimed 200) one_held (claim_due (8 ∷ []) 500 5 200 one_held).1
claim_due-Unclaimed_example = claim_due-Unclaimed (8 ∷ []) 500 5 200 one_held one_held-IsKeyed
