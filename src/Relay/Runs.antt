-- ===== src/Relay/Runs.antt =====
-- Any sequence of the operations of relay/claim.go, by any relays, on one outbox.
use seshatops.Base.{
  ℕ, ◌+◌, ◌*◌, ◌≡◌, refl, Bool, true, false, ◌&&◌, ◌||◌, Option, none, some, List, [], ◌∷◌, Bytes,
  ◌==◌, if◌then◌else◌, arith,
}
use seshatops.Base.Table.{update_where, count_where}
use seshatops.Event.Text.{is_empty}
use seshatops.Relay.Backoff.{sql_backoff}
use seshatops.Relay.Claim.{
  Status, pending, published, quarantined, OutboxRow, claim_due, due_rows, ttl_or_default, is_held,
  freed, delay_row, mark_published, quarantine, delayed, overflows, release_transient, is_parked,
  retried, release_quarantined,
}
use seshatops.Relay.Evolves.{
  Evolves, Follow, Follow-refl, Follow-join, Follow-update_where, All-any, changed_row,
  Evolves-refl,
}
use seshatops.Relay.Keyed.{
  IsKeyed, update_where-IsKeyed, claim_each-Follow, claim_each-IsKeyed, due_rows-IsOpenId,
}

pub data Op : Type 0 where
  claim_op : Bytes → ℕ → ℕ → ℕ → Op
  published_op : Bytes → Bytes → Op
  quarantine_op : Bytes → Bytes → Bytes → Op
  transient_op : Bytes → Bytes → Bytes → ℕ → Op
  retry_op : Bytes → Bytes → Op

-- The table after an operation, whether it succeeds or not.
unfoldable pub relay_step : Op → List OutboxRow → List OutboxRow
relay_step (claim_op owner ttl limit now) rows = (claim_due owner ttl limit now rows).1
relay_step (published_op id owner) rows = (mark_published id owner rows).1
relay_step (quarantine_op id owner code) rows = (quarantine id owner code rows).1
relay_step (transient_op id owner code now) rows = (release_transient id owner code now rows).1
relay_step (retry_op tenant id) rows = (release_quarantined tenant id rows).1

unfoldable pub run_ops : List Op → List OutboxRow → List OutboxRow
run_ops [] rows = rows
run_ops (op ∷ ops) rows = run_ops ops (relay_step op rows)

-- The next table of a keyed table.
abbrev pub Next : List OutboxRow → List OutboxRow → Type 0
Next rows rows' = Follow rows rows' × IsKeyed rows'

pub Next-refl : (rows : List OutboxRow) → IsKeyed rows → Next rows rows
Next-refl rows keyed = (Follow-refl rows, keyed)

Next-if :
    {A : Type 0} (b : Bool) (rows : List OutboxRow) (x y : A × List OutboxRow)
    → Next rows x.1
    → Next rows y.1
    → Next rows (if b then x else y).1
Next-if true rows x y p q = p
Next-if false rows x y p q = q

Next-update_where :
    (p : OutboxRow → Bool) (f : OutboxRow → OutboxRow) (rows : List OutboxRow)
    → ((r : OutboxRow) → (f r).event_id ≡ r.event_id)
    → ((r : OutboxRow) → p r ≡ true → Evolves r (f r))
    → IsKeyed rows
    → Next rows (update_where p f rows)
Next-update_where p f rows same grows keyed =
    (Follow-update_where p f rows (All-any _ rows grows), update_where-IsKeyed p f rows same keyed)

held_live :
    (id owner : Bytes) (r : OutboxRow) → is_held id owner r ≡ true → (r.status ≡ published → ⊥)
held_live id owner r h e = ground arith

parked_live :
    (tenant id : Bytes) (r : OutboxRow) → is_parked tenant id r ≡ true → (r.status ≡ published → ⊥)
parked_live tenant id r h e = ground arith

Next-freed :
    (id owner : Bytes) (s : Status) (t : Option ℕ) (c : Option Bytes) (rows : List OutboxRow)
    → IsKeyed rows
    → Next rows (update_where (is_held id owner) (freed s t c) rows)
Next-freed id owner s t c rows =
    Next-update_where (is_held id owner) (freed s t c) rows (λ r. refl)
      (λ r h. changed_row r s none t c r.publish_attempts (omega arith) (held_live id owner r h))

delay_row-Evolves :
    (now : ℕ) (code : Bytes) (d : Option ℕ) (r : OutboxRow)
    → (r.status ≡ published → ⊥)
    → Evolves r (delay_row now code d r)
delay_row-Evolves now code none r live = Evolves-refl r
delay_row-Evolves now code (some d) r live =
    changed_row r pending none (some (now + d * 1000)) (some code) r.publish_attempts (omega arith)
      live

delay_row-event_id :
    (now : ℕ) (code : Bytes) (d : Option ℕ) (r : OutboxRow)
    → (delay_row now code d r).event_id ≡ r.event_id
delay_row-event_id now code none r = refl
delay_row-event_id now code (some d) r = refl

pub relay_step-Next :
    (op : Op) (rows : List OutboxRow) → IsKeyed rows → Next rows (relay_step op rows)
unfolding relay_step claim_due mark_published quarantine release_transient release_quarantined
relay_step-Next (claim_op owner ttl limit now) rows keyed =
    Next-if (is_empty owner) rows _ _ (Next-refl rows keyed) (
      claim_each-Follow owner (now + ttl_or_default ttl) (due_rows limit now rows) rows
          (due_rows-IsOpenId limit now rows keyed),
      claim_each-IsKeyed owner (now + ttl_or_default ttl) (due_rows limit now rows) rows keyed,
    )
relay_step-Next (published_op id owner) rows keyed =
    Next-freed id owner published none none rows keyed
relay_step-Next (quarantine_op id owner code) rows keyed =
    Next-freed id owner quarantined none (some code) rows keyed
relay_step-Next (transient_op id owner code now) rows keyed =
    Next-if (count_where (λ r. is_held id owner r && overflows r.publish_attempts) rows == 0) rows _
      _
      (Next-update_where (is_held id owner) (delayed now code) rows
        (λ r. delay_row-event_id now code (sql_backoff r.publish_attempts) r)
        (λ r h.
          delay_row-Evolves now code (sql_backoff r.publish_attempts) r (held_live id owner r h))
        keyed)
      (Next-refl rows keyed)
relay_step-Next (retry_op tenant id) rows keyed =
    Next-if (is_empty tenant || is_empty id) rows _ _ (Next-refl rows keyed) (
      Next-update_where (is_parked tenant id) retried rows (λ r. refl)
        (λ r h.
          changed_row r pending none none r.last_error_code r.publish_attempts (omega arith)
            (parked_live tenant id r h))
        keyed)

-- Whatever operations any relays do, from a table in which a key names one row: no row is added or
-- lost, no event is rewritten, the count of attempts never falls, and a published row stays as it is.
pub run_ops-Follow :
    (ops : List Op) (rows : List OutboxRow) → IsKeyed rows → Follow rows (run_ops ops rows)
unfolding run_ops
run_ops-Follow [] rows keyed = Follow-refl rows
run_ops-Follow (op ∷ ops) rows keyed =
    let next = relay_step-Next op rows keyed in
    Follow-join rows (relay_step op rows) (run_ops (op ∷ ops) rows) next.0
      (run_ops-Follow ops (relay_step op rows) next.1)
