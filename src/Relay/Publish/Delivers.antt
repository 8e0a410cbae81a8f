-- ===== src/Relay/Publish/Delivers.antt =====
-- What relay/publish.go has put on the topic, for the rows that it marks published.
use seshatops.Base.{
  ℕ, ◌+◌, ◌≡◌, refl, ◌⊎◌, inl, inr, Bool, true, false, ◌&&◌, ◌||◌, Bool-cases, Option, none, some,
  List, [], ◌∷◌, ◌++◌, Bytes, All, All-map, Some, ◌==◌, if◌then◌else◌, arith,
}
use seshatops.Base.Table.{update_where, count_where}
use seshatops.Event.Text.{is_empty}
use seshatops.Relay.Backoff.{sql_backoff}
use seshatops.Relay.Claim.{
  Status, published, publishing, quarantined, pending, OutboxRow, has_id, is_held, freed, delayed,
  delay_row, lease, claim_each, claim_due, due_rows, ttl_or_default, quarantine, release_transient,
  release_quarantined, overflows, is_parked, retried, aggregate_key,
}
use seshatops.Relay.Publish.{
  LogRecord, Table, CallOutcome, answered, failed, unheard, attempt, produced, Answer,
}

-- The record is the event of the row, under the key of its columns.
abbrev pub Carries : OutboxRow → LogRecord → Type 0
Carries r l =
    (l.key ≡ aggregate_key r.tenant_id r.aggregate_type r.aggregate_id) × (l.value ≡ r.event_bytes)

abbrev pub IsLogged : List LogRecord → OutboxRow → Type 0
IsLogged log r = Some (Carries r) log

-- Every published row is on the topic.
abbrev pub IsDelivered : List LogRecord → Table → Type 0
IsDelivered log rows = All (λ r. r.status ≡ published → IsLogged log r) rows

Some-snoc_old :
    (P : LogRecord → Type 0) (xs : List LogRecord) (x : LogRecord)
    → Some P xs
    → Some P (xs ++ x ∷ [])
Some-snoc_old P [] x h = elim h [ ]
Some-snoc_old P (y ∷ ys) x (inl h) = inl h
Some-snoc_old P (y ∷ ys) x (inr h) = inr (Some-snoc_old P ys x h)

pub Some-snoc_new :
    (P : LogRecord → Type 0) (xs : List LogRecord) (x : LogRecord) → P x → Some P (xs ++ x ∷ [])
Some-snoc_new P [] x h = inl h
Some-snoc_new P (y ∷ ys) x h = inr (Some-snoc_new P ys x h)

pub produced-IsDelivered :
    (o : CallOutcome) (l : LogRecord) (log : List LogRecord) (rows : Table)
    → IsDelivered log rows
    → IsDelivered (produced o l log) rows
produced-IsDelivered answered l log rows h =
    All-map _ _ rows (λ r d e. Some-snoc_old (Carries r) log l (d e)) h
produced-IsDelivered failed l log rows h = h
produced-IsDelivered unheard l log rows h =
    All-map _ _ rows (λ r d e. Some-snoc_old (Carries r) log l (d e)) h

-- An update keeps it whose rows are not published, or are on the topic.
pub update_where-IsDelivered :
    (p : OutboxRow → Bool) (f : OutboxRow → OutboxRow) (log : List LogRecord) (rows : Table)
    → All (λ r. p r ≡ true → (f r).status ≡ published → IsLogged log (f r)) rows
    → IsDelivered log rows
    → IsDelivered log (update_where p f rows)
unfolding update_where
update_where-IsDelivered p f log [] g h = tt
update_where-IsDelivered p f log (r ∷ rows) (g, gs) (h, hs) = elim (Bool-cases (p r)) [
  | inl e ↦ (rw e (g e), update_where-IsDelivered p f log rows gs hs)
  | inr e ↦ (rw e h, update_where-IsDelivered p f log rows gs hs)
]

-- An update after which no row that it changed is published.
withdrawn :
    (p : OutboxRow → Bool) (f : OutboxRow → OutboxRow) (log : List LogRecord) (rows : Table)
    → ((r : OutboxRow) → p r ≡ true → (f r).status ≡ published → ⊥)
    → IsDelivered log rows
    → IsDelivered log (update_where p f rows)
withdrawn p f log rows never = update_where-IsDelivered p f log rows (everywhere rows)
  where
    everywhere :
        (rows : Table) → All (λ r. p r ≡ true → (f r).status ≡ published → IsLogged log (f r)) rows
    everywhere [] = tt
    everywhere (r ∷ rs) = ((λ h e. absurd (never r h e)), everywhere rs)

unpublished :
    (s : Status) → (s ≡ publishing) ⊎ (s ≡ quarantined) ⊎ (s ≡ pending) → s ≡ published → ⊥
unpublished s which e = ground arith

pub claim_each-IsDelivered :
    (owner : Bytes) (expires : ℕ) (log : List LogRecord) (cs rows : Table)
    → IsDelivered log rows
    → IsDelivered log (claim_each owner expires cs rows)
unfolding claim_each
claim_each-IsDelivered owner expires log [] rows h = h
claim_each-IsDelivered owner expires log (c ∷ cs) rows h =
    claim_each-IsDelivered owner expires log cs
      (update_where (has_id c.event_id) (lease owner expires) rows)
      (withdrawn (has_id c.event_id) (lease owner expires) log rows
        (λ r _. unpublished publishing (inl refl)) h)

-- One call of the database, whatever its outcome.
pub attempt-IsDelivered :
    {A : Type 0} (o : CallOutcome) (done : Answer A × Table) (log : List LogRecord) (rows : Table)
    → IsDelivered log done.1
    → IsDelivered log rows
    → IsDelivered log (attempt o done rows).1
attempt-IsDelivered answered done log rows p q = p
attempt-IsDelivered failed done log rows p q = q
attempt-IsDelivered unheard done log rows p q = p

if-IsDelivered :
    {A : Type 0} (b : Bool) (log : List LogRecord) (x y : Answer A × Table)
    → IsDelivered log x.1
    → IsDelivered log y.1
    → IsDelivered log (if b then x else y).1
if-IsDelivered true log x y p q = p
if-IsDelivered false log x y p q = q

pub claim_due-IsDelivered :
    (owner : Bytes) (ttl limit now : ℕ) (log : List LogRecord) (rows : Table)
    → IsDelivered log rows
    → IsDelivered log (claim_due owner ttl limit now rows).1
unfolding claim_due
claim_due-IsDelivered owner ttl limit now log rows h =
    if-IsDelivered (is_empty owner) log _ _ h
      (claim_each-IsDelivered owner (now + ttl_or_default ttl) log (due_rows limit now rows) rows h)

pub quarantine-IsDelivered :
    (id owner code : Bytes) (log : List LogRecord) (rows : Table)
    → IsDelivered log rows
    → IsDelivered log (quarantine id owner code rows).1
unfolding quarantine
quarantine-IsDelivered id owner code log rows =
    withdrawn (is_held id owner) (freed quarantined none (some code)) log rows
      (λ r _. unpublished quarantined (inr (inl refl)))

held_delay :
    (id owner code : Bytes) (now : ℕ) (d : Option ℕ) (r : OutboxRow)
    → is_held id owner r ≡ true
    → (delay_row now code d r).status ≡ published
    → ⊥
held_delay id owner code now none r h e = ground arith
held_delay id owner code now (some d) r h e = unpublished pending (inr (inr refl)) e

pub release_transient-IsDelivered :
    (id owner code : Bytes) (now : ℕ) (log : List LogRecord) (rows : Table)
    → IsDelivered log rows
    → IsDelivered log (release_transient id owner code now rows).1
unfolding release_transient
release_transient-IsDelivered id owner code now log rows h =
    if-IsDelivered (count_where (λ r. is_held id owner r && overflows r.publish_attempts) rows == 0)
      log _ _
      (withdrawn (is_held id owner) (delayed now code) log rows
        (λ r. held_delay id owner code now (sql_backoff r.publish_attempts) r) h)
      h

pub release_quarantined-IsDelivered :
    (tenant id : Bytes) (log : List LogRecord) (rows : Table)
    → IsDelivered log rows
    → IsDelivered log (release_quarantined tenant id rows).1
unfolding release_quarantined
release_quarantined-IsDelivered tenant id log rows h =
    if-IsDelivered (is_empty tenant || is_empty id) log _ _ h (
      withdrawn (is_parked tenant id) retried log rows (λ r _. unpublished pending (inr (inr refl)))
        h)
