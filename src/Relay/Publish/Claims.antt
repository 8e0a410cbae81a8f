-- ===== src/Relay/Publish/Claims.antt =====
-- Whose lease the due rows are under after `ClaimDue`, as `DrainOnce` of relay/publish.go calls it.
use seshatops.Base.{
  ℕ, zero, suc, ◌≤◌, ◌≡◌, refl, sym, ap, subst, ◌⊎◌, inl, inr, Bool, true, false, Bool-cases, some,
  [], ◌∷◌, map, Bytes, All, All-map, Some, str_eq_iff, length, ◌==◌, if◌then◌else◌, arith, select,
  take,
}
use seshatops.Base.Table.{update_where}
use seshatops.Relay.Claim.{OutboxRow, publishing, has_id, lease, claim_each, due_rows, is_due}
use seshatops.Relay.Evolves.{Pairwise}
use seshatops.Relay.Leases.{Pairwise-update_where, Pairwise-refl, Pairwise-given}
use seshatops.Relay.Publish.{Table}

-- The row is under a lease of the owner.
abbrev pub Leased : Bytes → OutboxRow → Type 0
Leased owner r = (r.status ≡ publishing) × (r.lease_owner ≡ some owner)

abbrev pub Shares : OutboxRow → OutboxRow → Type 0
Shares r c = c.event_id ≡ r.event_id

same_id : (id : Bytes) (r : OutboxRow) → has_id id r ≡ true → id ≡ r.event_id
same_id id r h = sym ((str_eq_iff r.event_id id).0 h)

pub other_id : (id : Bytes) (r : OutboxRow) → has_id id r ≡ false → id ≡ r.event_id → ⊥
other_id id r h e = ground (arith, str_eq_iff r.event_id id)

-- After a claim a row is leased that the claim names, or that was leased.
abbrev Leases : Bytes → Table → OutboxRow → OutboxRow → Type 0
Leases owner cs r r' =
    (r'.event_id ≡ r.event_id) × (Some (Shares r) cs ⊎ Leased owner r → Leased owner r')

claim_each-Leases :
    (owner : Bytes) (expires : ℕ) (cs rows : Table)
    → Pairwise (Leases owner cs) rows (claim_each owner expires cs rows)
unfolding claim_each
claim_each-Leases owner expires [] rows =
    Pairwise-refl (Leases owner []) rows (λ r. (refl, λ h. untouched r h))
  where
    untouched : (r : OutboxRow) → Some (Shares r) [] ⊎ Leased owner r → Leased owner r
    untouched r (inl h) = elim h [ ]
    untouched r (inr h) = h
claim_each-Leases owner expires (c ∷ cs) rows =
    Pairwise-update_where (Leases owner cs) (Leases owner (c ∷ cs)) (has_id c.event_id)
      (lease owner expires) rows (claim_each owner expires (c ∷ cs) rows) (λ r r'. one c cs r r')
      (claim_each-Leases owner expires cs
        (update_where (has_id c.event_id) (lease owner expires) rows))
  where
    one :
        (c : OutboxRow) (cs : Table) (r r' : OutboxRow)
        → Leases owner cs (if has_id c.event_id r then lease owner expires r else r) r'
        → Leases owner (c ∷ cs) r r'
    one c cs r r' h = elim (Bool-cases (has_id c.event_id r)) [
      | inl e ↦ let (same, leased) = rw e at h in (same, λ _. leased (inr (refl, refl)))
      | inr e ↦ let (same, leased) = rw e at h in (same, λ k. leased (rest e k))
    ]
      where
        rest :
            has_id c.event_id r ≡ false
            → Some (Shares r) (c ∷ cs) ⊎ Leased owner r
            → Some (Shares r) cs ⊎ Leased owner r
        rest e (inl (inl s)) = absurd (other_id c.event_id r e s)
        rest e (inl (inr s)) = inl s
        rest e (inr s) = inr s

-- Every row that the WHERE clause of the claim takes is among the rows of the claim.
abbrev Fetched : ℕ → Table → OutboxRow → Type 0
Fetched now cs r = is_due now r ≡ true → Some (Shares r) cs

select_due :
    (now : ℕ) (x : OutboxRow) (rows : Table)
    → is_due now x ≡ true
    → select (is_due now) (x ∷ rows) ≡ x ∷ select (is_due now) rows
unfolding select
select_due now x rows e = rw e refl

select_idle :
    (now : ℕ) (x : OutboxRow) (rows : Table)
    → is_due now x ≡ false
    → select (is_due now) (x ∷ rows) ≡ select (is_due now) rows
unfolding select
select_idle now x rows e = rw e refl

select-Fetched : (now : ℕ) (rows : Table) → All (Fetched now (select (is_due now) rows)) rows
select-Fetched now [] = tt
select-Fetched now (x ∷ rows) = elim (Bool-cases (is_due now x)) [
  | inl e ↦
      subst (λ cs. All (Fetched now cs) (x ∷ rows)) (sym (select_due now x rows e))
        (
          (λ _. inl refl),
          All-map (Fetched now (select (is_due now) rows))
              (Fetched now (x ∷ select (is_due now) rows)) rows (λ r h due. inr (h due))
              (select-Fetched now rows),
        )
  | inr e ↦
      subst (λ cs. All (Fetched now cs) (x ∷ rows)) (sym (select_idle now x rows e))
        ((λ due. absurd (clash due e)), select-Fetched now rows)
]
  where
    clash : {b : Bool} → b ≡ true → b ≡ false → ⊥
    clash h e = ground arith

take_all : (n : ℕ) (rows : Table) → length rows ≤ n → take n rows ≡ rows
take_all zero [] h = refl
take_all zero (r ∷ rows) h = absurd (omega arith)
take_all (suc n) [] h = refl
take_all (suc n) (r ∷ rows) h = ap (r ∷◌) (take_all n rows (omega arith))

Some-lease :
    (owner : Bytes) (expires : ℕ) (r : OutboxRow) (cs : Table)
    → Some (Shares r) cs
    → Some (Shares r) (map (lease owner expires) cs)
Some-lease owner expires r [] h = elim h [ ]
Some-lease owner expires r (c ∷ cs) (inl h) = inl h
Some-lease owner expires r (c ∷ cs) (inr h) = inr (Some-lease owner expires r cs h)

-- A due row is leased by the claim, under the event of a claimed row.
abbrev pub Claimed : Bytes → ℕ → Table → OutboxRow → OutboxRow → Type 0
Claimed owner now recs r r' = is_due now r ≡ true → Leased owner r' × Some (Shares r') recs

pub claim_each-Claimed :
    (owner : Bytes) (expires limit now : ℕ) (rows : Table)
    → length (select (is_due now) rows) ≤ (if limit == 0 then 1 else limit)
    → Pairwise
        (Claimed owner now (map (lease owner expires) (due_rows limit now rows)))
        rows
        (claim_each owner expires (due_rows limit now rows) rows)
claim_each-Claimed owner expires limit now rows few =
    let due = due_rows limit now rows in
    Pairwise-given (Fetched now due) (Leases owner due)
      (Claimed owner now (map (lease owner expires) due)) rows (claim_each owner expires due rows)
      (λ r r'. leased r r' due)
      (subst (λ cs. All (Fetched now cs) rows) (sym (take_all _ _ few)) (select-Fetched now rows))
      (claim_each-Leases owner expires due rows)
  where
    leased :
        (r r' : OutboxRow) (due : Table)
        → Fetched now due r
        → Leases owner due r r'
        → Claimed owner now (map (lease owner expires) due) r r'
    leased r r' due fetched (same, leases) open_row = (
      leases (inl (fetched open_row)),
      Some-lease owner expires r' due
          (subst (λ id. Some (λ c. c.event_id ≡ id) due) (sym same) (fetched open_row)),
    )
