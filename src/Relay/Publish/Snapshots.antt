-- ===== src/Relay/Publish/Snapshots.antt =====
-- The claimed records that relay/publish.go works on, and the rows that they were read from.
use seshatops.Base.{
  ℕ, ◌+◌, ◌≡◌, refl, sym, ap, ◌∙◌, inl, inr, Bool, true, false, List, [], ◌∷◌, map, Bytes, All,
  All-map, Some, if◌then◌else◌,
}
use seshatops.Base.Result.{ok, err}
use seshatops.Event.Text.{is_empty}
use seshatops.Relay.Claim.{OutboxRow, lease, due_rows, claim_due, ttl_or_default, is_due}
use seshatops.Relay.Evolves.{Evolves, Follow}
use seshatops.Relay.Keyed.{IsKeyed, Names, All-take, All-select}
use seshatops.Relay.Publish.{Table, Answer, CallOutcome, answered, failed, unheard, attempt}

-- The columns of a row that never change.
pub record SameEvent (rec r : OutboxRow) : Type 0 where
  pub tenant_id : r.tenant_id ≡ rec.tenant_id
  pub aggregate_type : r.aggregate_type ≡ rec.aggregate_type
  pub aggregate_id : r.aggregate_id ≡ rec.aggregate_id
  pub event_bytes : r.event_bytes ≡ rec.event_bytes

-- The rows of the record's key have the record's event, and there is one.
abbrev pub IsSnapshot : Table → OutboxRow → Type 0
IsSnapshot rows rec =
    All (λ r. r.event_id ≡ rec.event_id → SameEvent rec r) rows
    × Some (λ r. r.event_id ≡ rec.event_id) rows

SameEvent-Evolves : (rec r r' : OutboxRow) → SameEvent rec r → Evolves r r' → SameEvent rec r'
SameEvent-Evolves rec r r' s e = record {
  tenant_id = e.tenant_id ∙ s.tenant_id;
  aggregate_type = e.aggregate_type ∙ s.aggregate_type;
  aggregate_id = e.aggregate_id ∙ s.aggregate_id;
  event_bytes = e.event_bytes ∙ s.event_bytes;
}

events-Follow :
    (rec : OutboxRow) (rows rows' : Table)
    → Follow rows rows'
    → All (λ r. r.event_id ≡ rec.event_id → SameEvent rec r) rows
    → All (λ r. r.event_id ≡ rec.event_id → SameEvent rec r) rows'
events-Follow rec [] [] f h = tt
events-Follow rec [] (y ∷ ys) f h = elim f [ ]
events-Follow rec (x ∷ xs) [] f h = elim f [ ]
events-Follow rec (x ∷ xs) (y ∷ ys) (f, fs) (h, hs) =
    ((λ e. SameEvent-Evolves rec x y (h (sym f.event_id ∙ e)) f), events-Follow rec xs ys fs hs)

known-Follow :
    (rec : OutboxRow) (rows rows' : Table)
    → Follow rows rows'
    → Some (λ r. r.event_id ≡ rec.event_id) rows
    → Some (λ r. r.event_id ≡ rec.event_id) rows'
known-Follow rec [] rows' f h = elim h [ ]
known-Follow rec (x ∷ xs) [] f h = elim f [ ]
known-Follow rec (x ∷ xs) (y ∷ ys) (f, fs) (inl h) = inl (f.event_id ∙ h)
known-Follow rec (x ∷ xs) (y ∷ ys) (f, fs) (inr h) = inr (known-Follow rec xs ys fs h)

pub IsSnapshot-Follow :
    (rec : OutboxRow) (rows rows' : Table)
    → Follow rows rows'
    → IsSnapshot rows rec
    → IsSnapshot rows' rec
IsSnapshot-Follow rec rows rows' follow (events, known) =
    (events-Follow rec rows rows' follow events, known-Follow rec rows rows' follow known)

-- Each row is among the rows.
All-among :
    (P : OutboxRow → Type 0) (rows : Table)
    → All P rows
    → All (λ a. P a × Some (λ r. r.event_id ≡ a.event_id) rows) rows
All-among P [] h = tt
All-among P (r ∷ rows) (h, hs) =
    ((h, inl refl), All-map _ _ rows (λ a (p, k). (p, inr k)) (All-among P rows hs))

SameEvent-eq : (rec r : OutboxRow) → r ≡ rec → SameEvent rec r
SameEvent-eq rec r e = record {
  tenant_id = ap (λ x. x.tenant_id) e;
  aggregate_type = ap (λ x. x.aggregate_type) e;
  aggregate_id = ap (λ x. x.aggregate_id) e;
  event_bytes = ap (λ x. x.event_bytes) e;
}

SameEvent-lease :
    (owner : Bytes) (expires : ℕ) (rec r : OutboxRow)
    → SameEvent rec r
    → SameEvent (lease owner expires rec) r
SameEvent-lease owner expires rec r s = record {
  tenant_id = s.tenant_id;
  aggregate_type = s.aggregate_type;
  aggregate_id = s.aggregate_id;
  event_bytes = s.event_bytes;
}

All-lease :
    (P : OutboxRow → Type 0) (owner : Bytes) (expires : ℕ) (rows : Table)
    → All (λ r. P (lease owner expires r)) rows
    → All P (map (lease owner expires) rows)
All-lease P owner expires [] h = tt
All-lease P owner expires (r ∷ rows) (h, hs) = (h, All-lease P owner expires rows hs)

leased_due-IsSnapshot :
    (owner : Bytes) (expires limit now : ℕ) (rows : Table)
    → IsKeyed rows
    → All (IsSnapshot rows) (map (lease owner expires) (due_rows limit now rows))
leased_due-IsSnapshot owner expires limit now rows keyed =
    All-lease (IsSnapshot rows) owner expires (due_rows limit now rows) (
      All-take _ _ _ (
        All-select (λ a. Names a rows × Some (λ r. r.event_id ≡ a.event_id) rows)
          (λ a. IsSnapshot rows (lease owner expires a)) (is_due now) rows
          (λ a due (named, known). (
            All-map _ _ rows (λ b eq e. SameEvent-lease owner expires a b (SameEvent-eq a b (eq e)))
                named,
            known,
          ))
          (All-among (λ a. Names a rows) rows keyed)))

-- The records that a claim returns, if it does.
abbrev pub Returned : (OutboxRow → Type 0) → Answer (List OutboxRow) → Type 0
Returned P (ok recs) = All P recs
Returned P (err e) = Unit

Returned-if :
    {B : Type 0} (P : OutboxRow → Type 0) (b : Bool) (x y : Answer (List OutboxRow) × B)
    → Returned P x.0
    → Returned P y.0
    → Returned P (if b then x else y).0
Returned-if P true x y p q = p
Returned-if P false x y p q = q

claim_due-Returned :
    (owner : Bytes) (ttl limit now : ℕ) (rows : Table)
    → IsKeyed rows
    → Returned (IsSnapshot rows) (claim_due owner ttl limit now rows).0
unfolding claim_due
claim_due-Returned owner ttl limit now rows keyed =
    Returned-if (IsSnapshot rows) (is_empty owner) _ _ tt
      (leased_due-IsSnapshot owner (now + ttl_or_default ttl) limit now rows keyed)

Returned-map :
    (P Q : OutboxRow → Type 0) (a : Answer (List OutboxRow))
    → ((r : OutboxRow) → P r → Q r)
    → Returned P a
    → Returned Q a
Returned-map P Q (ok recs) f h = All-map P Q recs f h
Returned-map P Q (err e) f h = tt

Returned-attempt :
    (P : OutboxRow → Type 0) (o : CallOutcome) (done : Answer (List OutboxRow) × Table)
    (rows : Table)
    → Returned P done.0
    → Returned P (attempt o done rows).0
Returned-attempt P answered done rows h = h
Returned-attempt P failed done rows h = tt
Returned-attempt P unheard done rows h = tt

-- What a claim returns are snapshots of the table after it.
pub claim-IsSnapshot :
    (o : CallOutcome) (owner : Bytes) (ttl limit now : ℕ) (rows : Table)
    → IsKeyed rows
    → Follow rows (attempt o (claim_due owner ttl limit now rows) rows).1
    → Returned
        (IsSnapshot (attempt o (claim_due owner ttl limit now rows) rows).1)
        (attempt o (claim_due owner ttl limit now rows) rows).0
claim-IsSnapshot o owner ttl limit now rows keyed follow =
    Returned-map (IsSnapshot rows) _ _ (λ rec. IsSnapshot-Follow rec rows _ follow)
      (Returned-attempt (IsSnapshot rows) o (claim_due owner ttl limit now rows) rows
        (claim_due-Returned owner ttl limit now rows keyed))
