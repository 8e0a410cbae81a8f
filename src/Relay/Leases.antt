-- ===== src/Relay/Leases.antt =====
-- Whose rows `ClaimDue` of relay/claim.go takes.
use seshatops.Base.{
  ℕ, ◌+◌, ◌<◌, ◌≡◌, refl, sym, ap, ◌∙◌, inl, inr, Bool, true, false, some, Bool-cases, List, [],
  ◌∷◌, Bytes, All, All-map, str_eq_iff, arith, if◌then◌else◌,
}
use seshatops.Base.Table.{update_where}
use seshatops.Event.Text.{is_empty}
use seshatops.Relay.Claim.{
  OutboxRow, published, quarantined, is_due, has_id, lease, claim_each, due_rows, claim_due,
  ttl_or_default,
}
use seshatops.Relay.Evolves.{Pairwise}
use seshatops.Relay.Keyed.{Names, IsKeyed, All-take, All-select}

-- A row that none of the claimed rows names stays.
abbrev Spared : List OutboxRow → OutboxRow → OutboxRow → Type 0
Spared cs r r' = All (λ c. has_id c.event_id r ≡ false) cs → r' ≡ r

pub Pairwise-refl :
    (R : OutboxRow → OutboxRow → Type 0) (rs : List OutboxRow)
    → ((r : OutboxRow) → R r r)
    → Pairwise R rs rs
Pairwise-refl R [] h = tt
Pairwise-refl R (r ∷ rs) h = (h r, Pairwise-refl R rs h)

-- After an update, what holds of the updated row holds of the row.
pub Pairwise-update_where :
    (R S : OutboxRow → OutboxRow → Type 0) (p : OutboxRow → Bool) (f : OutboxRow → OutboxRow)
    (rs rs' : List OutboxRow)
    → ((r r' : OutboxRow) → R (if p r then f r else r) r' → S r r')
    → Pairwise R (update_where p f rs) rs'
    → Pairwise S rs rs'
unfolding update_where
Pairwise-update_where R S p f [] [] h a = tt
Pairwise-update_where R S p f [] (y ∷ rs') h a = elim a [ ]
Pairwise-update_where R S p f (r ∷ rs) [] h a = elim a [ ]
Pairwise-update_where R S p f (r ∷ rs) (y ∷ rs') h (a, more) =
    (h r y a, Pairwise-update_where R S p f rs rs' h more)

pub Pairwise-given :
    (P : OutboxRow → Type 0) (R S : OutboxRow → OutboxRow → Type 0) (rs rs' : List OutboxRow)
    → ((r r' : OutboxRow) → P r → R r r' → S r r')
    → All P rs
    → Pairwise R rs rs'
    → Pairwise S rs rs'
Pairwise-given P R S [] [] h p a = tt
Pairwise-given P R S [] (y ∷ rs') h p a = elim a [ ]
Pairwise-given P R S (r ∷ rs) [] h p a = elim a [ ]
Pairwise-given P R S (r ∷ rs) (y ∷ rs') h (p, ps) (a, more) =
    (h r y p a, Pairwise-given P R S rs rs' h ps more)

claim_each-Spared :
    (owner : Bytes) (expires : ℕ) (cs rows : List OutboxRow)
    → Pairwise (Spared cs) rows (claim_each owner expires cs rows)
unfolding claim_each
claim_each-Spared owner expires [] rows = Pairwise-refl (Spared []) rows (λ r _. refl)
claim_each-Spared owner expires (c ∷ cs) rows =
    Pairwise-update_where (Spared cs) (Spared (c ∷ cs)) (has_id c.event_id) (lease owner expires)
      rows (claim_each owner expires (c ∷ cs) rows)
      (λ r r' spared (apart, others). spared_row c cs owner expires r r' apart spared others)
      (claim_each-Spared owner expires cs
        (update_where (has_id c.event_id) (lease owner expires) rows))
  where
    spared_row :
        (c : OutboxRow) (cs : List OutboxRow) (owner : Bytes) (expires : ℕ) (r r' : OutboxRow)
        → has_id c.event_id r ≡ false
        → Spared cs (if has_id c.event_id r then lease owner expires r else r) r'
        → All (λ d. has_id d.event_id r ≡ false) cs
        → r' ≡ r
    spared_row c cs owner expires r r' apart = rw apart (λ spared others. spared others)

-- No claimed row names a row that is not due.
abbrev Missed : ℕ → List OutboxRow → OutboxRow → Type 0
Missed now cs r = is_due now r ≡ false → All (λ c. has_id c.event_id r ≡ false) cs

clash : false ≡ true → ⊥
clash e = ground arith

has_id-apart :
    (now : ℕ) (c r : OutboxRow)
    → is_due now c ≡ true
    → (r.event_id ≡ c.event_id → r ≡ c)
    → is_due now r ≡ false
    → has_id c.event_id r ≡ false
has_id-apart now c r due named idle = elim (Bool-cases (has_id c.event_id r)) [
  | inl e ↦
      elim (clash
        (sym idle ∙ ap (is_due now) (named ((str_eq_iff r.event_id c.event_id).0 e)) ∙ due)) [ ]
  | inr e ↦ e
]

Names-Missed :
    (limit now : ℕ) (rows : List OutboxRow) (r : OutboxRow)
    → Names r rows
    → Missed now (due_rows limit now rows) r
Names-Missed limit now rows r named idle = All-take _ _ _ (
    All-select (λ c. c.event_id ≡ r.event_id → c ≡ r) (λ c. has_id c.event_id r ≡ false)
      (is_due now) rows (λ c due same. has_id-apart now c r due (λ e. sym (same (sym e))) idle)
      named)

-- The row is published or quarantined, or its lease or its delay ends after now.
pub data Rests (now : ℕ) (r : OutboxRow) : Type 0 where
  done : r.status ≡ published → Rests now r
  parked : r.status ≡ quarantined → Rests now r
  waits : (until : ℕ) → r.lease_expires_at ≡ some until → now < until → Rests now r

Rests-idle : (now : ℕ) (r : OutboxRow) → Rests now r → is_due now r ≡ false
Rests-idle now r (done e) = rw e refl
Rests-idle now r (parked e) = rw e refl
Rests-idle now r (waits until e later) = rw e (ground (arith, later))

-- A row that rests is as it was.
abbrev pub Unclaimed : ℕ → OutboxRow → OutboxRow → Type 0
Unclaimed now r r' = Rests now r → r' ≡ r

-- From a table in which a key names one row, ClaimDue leaves every row as it is that is published or
-- quarantined, or whose lease_expires_at lies after now: a relay holds it, or it waits for its delay.
pub claim_due-Unclaimed :
    (owner : Bytes) (ttl limit now : ℕ) (rows : List OutboxRow)
    → IsKeyed rows
    → Pairwise (Unclaimed now) rows (claim_due owner ttl limit now rows).1
unfolding claim_due
claim_due-Unclaimed owner ttl limit now rows keyed =
    claimed_if (is_empty owner) _ _ (Pairwise-refl (Unclaimed now) rows (λ r _. refl)) (
      Pairwise-given (λ r. Missed now (due_rows limit now rows) r)
        (Spared (due_rows limit now rows)) (Unclaimed now) rows
        (claim_each owner (now + ttl_or_default ttl) (due_rows limit now rows) rows)
        (λ r r' missed spared rests. spared (missed (Rests-idle now r rests)))
        (All-map _ _ rows (λ r. Names-Missed limit now rows r) keyed)
        (claim_each-Spared owner (now + ttl_or_default ttl) (due_rows limit now rows) rows))
  where
    claimed_if :
        {A : Type 0} (b : Bool) (x y : A × List OutboxRow)
        → Pairwise (Unclaimed now) rows x.1
        → Pairwise (Unclaimed now) rows y.1
        → Pairwise (Unclaimed now) rows (if b then x else y).1
    claimed_if true x y same h = same
    claimed_if false x y same h = h
