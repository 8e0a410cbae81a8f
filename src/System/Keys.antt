-- ===== src/System/Keys.antt =====
-- A new event of the ERP (erp/outbox.go) and what the relays know of the outbox.
use seshatops.Base.{
  ◌≡◌, refl, sym, ◌∙◌, inl, inr, Bool, false, Bool-cases, ◌||◌, List, [], ◌∷◌, ◌++◌, Bytes, All,
  All-snoc, Some, str_eq_iff, arith,
}
use seshatops.Base.Table.{select_row, is_some}
use seshatops.Relay.Claim.{OutboxRow, pending, has_id}
use seshatops.Relay.Keyed.{IsKeyed, Names}
use seshatops.Relay.Publish.{LogRecord, Table}
use seshatops.Relay.Publish.Delivers.{IsDelivered}
use seshatops.Relay.Publish.Snapshots.{IsSnapshot}
use seshatops.Event.Payload.{Envelope}
use seshatops.Erp.World.{ErpDb}
use seshatops.Erp.Outbox.{outbox_taken}

-- No row has the key.
abbrev pub IsFresh : Bytes → Table → Type 0
IsFresh id rows = All (λ r. r.event_id ≡ id → ⊥) rows

pub select_none-IsFresh :
    (id : Bytes) (rows : Table) → is_some (select_row (has_id id) rows) ≡ false → IsFresh id rows
unfolding select_row
select_none-IsFresh id [] h = tt
select_none-IsFresh id (r ∷ rows) h = elim (Bool-cases (has_id id r)) [
  | inl e ↦ absurd (cc (rw e at h))
  | inr e ↦ ((λ same. apart same e), select_none-IsFresh id rows (rw e at h))
]
  where
    apart : r.event_id ≡ id → has_id id r ≡ false → ⊥
    apart same e = ground (arith, str_eq_iff r.event_id id)

pub taken-IsFresh :
    (env : Envelope) (db : ErpDb) → outbox_taken env db ≡ false → IsFresh env.event_id db.outbox
taken-IsFresh env db h = select_none-IsFresh env.event_id db.outbox (or_left _ _ h)
  where
    or_left : (a b : Bool) → (a || b) ≡ false → a ≡ false
    or_left a b h = ground arith

module _ (row : OutboxRow) (rows : Table) (fresh : IsFresh row.event_id rows) where
  Names-snoc_old :
      (a : OutboxRow) (xs : Table)
      → (a.event_id ≡ row.event_id → ⊥)
      → Names a xs
      → Names a (xs ++ row ∷ [])
  Names-snoc_old a xs apart named = All-snoc _ xs row named (λ e. absurd (apart (sym e)))

  fresh-Names : (xs : Table) → IsFresh row.event_id xs → Names row xs
  fresh-Names [] f = tt
  fresh-Names (x ∷ xs) (f, fs) = ((λ e. absurd (f e)), fresh-Names xs fs)

  keyed_old :
      (xs : Table)
      → IsFresh row.event_id xs
      → All (λ a. Names a rows) xs
      → All (λ a. Names a (rows ++ row ∷ [])) xs
  keyed_old [] f k = tt
  keyed_old (x ∷ xs) (f, fs) (k, ks) = (Names-snoc_old x rows f k, keyed_old xs fs ks)

  pub snoc-IsKeyed : IsKeyed rows → IsKeyed (rows ++ row ∷ [])
  snoc-IsKeyed keyed =
      All-snoc (λ a. Names a (rows ++ row ∷ [])) rows row (keyed_old rows fresh keyed)
        (All-snoc _ rows row (fresh-Names rows fresh) (λ _. refl))

  pub snoc-IsDelivered :
      (log : List LogRecord)
      → row.status ≡ pending
      → IsDelivered log rows
      → IsDelivered log (rows ++ row ∷ [])
  snoc-IsDelivered log waiting h = All-snoc _ rows row h (λ e. absurd (ground (arith, waiting, e)))

  known_apart :
      (id : Bytes) (xs : Table)
      → IsFresh row.event_id xs
      → Some (λ r. r.event_id ≡ id) xs
      → row.event_id ≡ id
      → ⊥
  known_apart id [] f k e = k
  known_apart id (x ∷ xs) (f, fs) (inl k) e = f (k ∙ sym e)
  known_apart id (x ∷ xs) (f, fs) (inr k) e = known_apart id xs fs k e

  Some-old :
      (id : Bytes) (xs : Table)
      → Some (λ r. r.event_id ≡ id) xs
      → Some (λ r. r.event_id ≡ id) (xs ++ row ∷ [])
  Some-old id [] h = elim h [ ]
  Some-old id (x ∷ xs) (inl h) = inl h
  Some-old id (x ∷ xs) (inr h) = inr (Some-old id xs h)

  pub snoc-IsSnapshot : (rec : OutboxRow) → IsSnapshot rows rec → IsSnapshot (rows ++ row ∷ []) rec
  snoc-IsSnapshot rec (events, known) = (
    All-snoc _ rows row events (λ e. absurd (known_apart rec.event_id rows fresh known e)),
    Some-old rec.event_id rows known,
  )
