-- ===== src/Relay/Keyed.antt =====
-- event_id is the primary key of erp.outbox: a claim (relay/claim.go) reaches only rows that are due.
use seshatops.Base.{
  ℕ, zero, suc, ◌≡◌, refl, sym, ap, ◌∙◌, inl, inr, Bool, true, Bool-cases, some, List, [], ◌∷◌,
  Bytes, All, All-map, str_eq_iff, select, take, ◌==◌, if◌then◌else◌, arith,
}
use seshatops.Base.Table.{update_where}
use seshatops.Relay.Claim.{
  Status, publishing, published, OutboxRow, is_open, is_due, has_id, lease, claim_each, due_rows,
}
use seshatops.Relay.Evolves.{Follow, Follow-refl, Follow-join, Follow-update_where, changed_row}

-- The rows with this row's key are equal to it.
abbrev pub Names : OutboxRow → List OutboxRow → Type 0
Names a rows = All (λ b. b.event_id ≡ a.event_id → b ≡ a) rows

abbrev pub IsKeyed : List OutboxRow → Type 0
IsKeyed rows = All (λ a. Names a rows) rows

abbrev pub IsOpenId : List OutboxRow → OutboxRow → Type 0
IsOpenId rows c = All (λ r. r.event_id ≡ c.event_id → is_open r.status ≡ true) rows

abbrev changed : (OutboxRow → Bool) → (OutboxRow → OutboxRow) → OutboxRow → OutboxRow
changed p f r = if p r then f r else r

pub All-update_where :
    (P Q : OutboxRow → Type 0) (p : OutboxRow → Bool) (f : OutboxRow → OutboxRow)
    (rows : List OutboxRow)
    → ((r : OutboxRow) → P r → Q (changed p f r))
    → All P rows
    → All Q (update_where p f rows)
unfolding update_where
All-update_where P Q p f [] h a = tt
All-update_where P Q p f (r ∷ rows) h (a, more) = (h r a, All-update_where P Q p f rows h more)

changed-event_id :
    (p : OutboxRow → Bool) (f : OutboxRow → OutboxRow) (r : OutboxRow)
    → ((r : OutboxRow) → (f r).event_id ≡ r.event_id)
    → (changed p f r).event_id ≡ r.event_id
changed-event_id p f r same = elim (Bool-cases (p r)) [ inl e ↦ rw e (same r) | inr e ↦ rw e refl ]

pub update_where-IsKeyed :
    (p : OutboxRow → Bool) (f : OutboxRow → OutboxRow) (rows : List OutboxRow)
    → ((r : OutboxRow) → (f r).event_id ≡ r.event_id)
    → IsKeyed rows
    → IsKeyed (update_where p f rows)
update_where-IsKeyed p f rows same keyed =
    All-update_where (λ a. Names a rows) (λ a. Names a (update_where p f rows)) p f rows
      (λ a named.
        All-update_where (λ b. b.event_id ≡ a.event_id → b ≡ a)
          (λ b. b.event_id ≡ (changed p f a).event_id → b ≡ changed p f a) p f rows
          (λ b eq e.
            ap (changed p f)
              (eq (sym (changed-event_id p f b same) ∙ e ∙ changed-event_id p f a same)))
          named)
      keyed

lease-IsOpenId :
    (c d : OutboxRow) (owner : Bytes) (expires : ℕ) (rows : List OutboxRow)
    → IsOpenId rows d
    → IsOpenId (update_where (has_id c.event_id) (lease owner expires) rows) d
lease-IsOpenId c d owner expires rows live =
    All-update_where (λ r. r.event_id ≡ d.event_id → is_open r.status ≡ true)
      (λ r. r.event_id ≡ d.event_id → is_open r.status ≡ true) (has_id c.event_id)
      (lease owner expires) rows
      (λ r h. elim (Bool-cases (has_id c.event_id r)) [ inl e ↦ rw e (λ _. refl) | inr e ↦ rw e h ])
      live

not_published : (s : Status) → is_open s ≡ true → (s ≡ published → ⊥)
not_published s live e = ground arith

pub claim_each-Follow :
    (owner : Bytes) (expires : ℕ) (cs rows : List OutboxRow)
    → All (IsOpenId rows) cs
    → Follow rows (claim_each owner expires cs rows)
unfolding claim_each
claim_each-Follow owner expires [] rows live = Follow-refl rows
claim_each-Follow owner expires (c ∷ cs) rows (here, later) =
    Follow-join rows (update_where (has_id c.event_id) (lease owner expires) rows)
      (claim_each owner expires (c ∷ cs) rows)
      (Follow-update_where (has_id c.event_id) (lease owner expires) rows (
        All-map _ _ rows
          (λ r h e.
            changed_row r publishing (some owner) (some expires) r.last_error_code
              (suc r.publish_attempts) (omega arith)
              (not_published r.status (h ((str_eq_iff r.event_id c.event_id).0 e))))
          here))
      (claim_each-Follow owner expires cs
        (update_where (has_id c.event_id) (lease owner expires) rows)
        (All-map _ _ cs (λ d. lease-IsOpenId c d owner expires rows) later))

pub claim_each-IsKeyed :
    (owner : Bytes) (expires : ℕ) (cs rows : List OutboxRow)
    → IsKeyed rows
    → IsKeyed (claim_each owner expires cs rows)
unfolding claim_each
claim_each-IsKeyed owner expires [] rows keyed = keyed
claim_each-IsKeyed owner expires (c ∷ cs) rows keyed =
    claim_each-IsKeyed owner expires cs
      (update_where (has_id c.event_id) (lease owner expires) rows)
      (update_where-IsKeyed (has_id c.event_id) (lease owner expires) rows (λ r. refl) keyed)

pub All-take :
    (P : OutboxRow → Type 0) (n : ℕ) (rows : List OutboxRow) → All P rows → All P (take n rows)
All-take P zero rows a = tt
All-take P (suc n) [] a = tt
All-take P (suc n) (r ∷ rows) (a, more) = (a, All-take P n rows more)

pub All-select :
    (P Q : OutboxRow → Type 0) (p : OutboxRow → Bool) (rows : List OutboxRow)
    → ((r : OutboxRow) → p r ≡ true → P r → Q r)
    → All P rows
    → All Q (select p rows)
unfolding select
All-select P Q p [] h a = tt
All-select P Q p (r ∷ rows) h (a, more) = elim (Bool-cases (p r)) [
  | inl e ↦ rw e (h r e a, All-select P Q p rows h more)
  | inr e ↦ rw e (All-select P Q p rows h more)
]

due-live : (now : ℕ) (r : OutboxRow) → is_due now r ≡ true → is_open r.status ≡ true
due-live now r due = ground arith

pub due_rows-IsOpenId :
    (limit now : ℕ) (rows : List OutboxRow)
    → IsKeyed rows
    → All (IsOpenId rows) (due_rows limit now rows)
due_rows-IsOpenId limit now rows keyed =
    All-take (IsOpenId rows) (if limit == 0 then 1 else limit) (select (is_due now) rows) (
      All-select (λ a. Names a rows) (IsOpenId rows) (is_due now) rows
        (λ a due named.
          All-map _ _ rows (λ b eq e. ap (λ r. is_open r.status) (eq e) ∙ due-live now a due) named)
        keyed)
