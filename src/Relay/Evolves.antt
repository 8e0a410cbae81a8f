-- ===== src/Relay/Evolves.antt =====
-- What the operations of relay/claim.go do to the rows of the outbox.
use seshatops.Base.{
  ℕ, ◌≤◌, ◌≡◌, refl, ap, ◌∙◌, inl, inr, Bool, true, Bool-cases, Option, List, [], ◌∷◌, Bytes, All,
  arith,
}
use seshatops.Base.Table.{update_where}
use seshatops.Relay.Claim.{Status, published, OutboxRow}

-- A row later on: its event is the same, its attempts have not fallen, and if it was published it is
-- as it was.
pub record Evolves (r r' : OutboxRow) : Type 0 where
  pub event_id : r'.event_id ≡ r.event_id
  pub tenant_id : r'.tenant_id ≡ r.tenant_id
  pub aggregate_type : r'.aggregate_type ≡ r.aggregate_type
  pub aggregate_id : r'.aggregate_id ≡ r.aggregate_id
  pub aggregate_version : r'.aggregate_version ≡ r.aggregate_version
  pub content_hash : r'.content_hash ≡ r.content_hash
  pub event_bytes : r'.event_bytes ≡ r.event_bytes
  pub attempts : r.publish_attempts ≤ r'.publish_attempts
  pub final : r.status ≡ published → r' ≡ r

pub Evolves-refl : (r : OutboxRow) → Evolves r r
Evolves-refl r = record {
  event_id = refl;
  tenant_id = refl;
  aggregate_type = refl;
  aggregate_id = refl;
  aggregate_version = refl;
  content_hash = refl;
  event_bytes = refl;
  attempts = omega arith;
  final = λ _. refl;
}

pub Evolves-join : (a b c : OutboxRow) → Evolves a b → Evolves b c → Evolves a c
Evolves-join a b c p q = record {
  event_id = q.event_id ∙ p.event_id;
  tenant_id = q.tenant_id ∙ p.tenant_id;
  aggregate_type = q.aggregate_type ∙ p.aggregate_type;
  aggregate_id = q.aggregate_id ∙ p.aggregate_id;
  aggregate_version = q.aggregate_version ∙ p.aggregate_version;
  content_hash = q.content_hash ∙ p.content_hash;
  event_bytes = q.event_bytes ∙ p.event_bytes;
  attempts = omega (arith, p.attempts, q.attempts);
  final = λ e. q.final (ap (λ r. r.status) (p.final e) ∙ e) ∙ p.final e;
}

-- Row by row: none is added, none is lost, and the order stays.
abbrev pub Pairwise : (OutboxRow → OutboxRow → Type 0) → List OutboxRow → List OutboxRow → Type 0
Pairwise R [] [] = Unit
Pairwise R (x ∷ xs) (y ∷ ys) = R x y × Pairwise R xs ys
Pairwise R _ _ = ⊥

abbrev pub Follow : List OutboxRow → List OutboxRow → Type 0
Follow rows rows' = Pairwise Evolves rows rows'

pub Follow-refl : (rs : List OutboxRow) → Follow rs rs
Follow-refl [] = tt
Follow-refl (r ∷ rs) = (Evolves-refl r, Follow-refl rs)

pub Follow-join : (a b c : List OutboxRow) → Follow a b → Follow b c → Follow a c
Follow-join [] [] [] p q = tt
Follow-join [] [] (z ∷ c) p q = elim q [ ]
Follow-join [] (y ∷ b) c p q = elim p [ ]
Follow-join (x ∷ a) [] c p q = elim p [ ]
Follow-join (x ∷ a) (y ∷ b) [] p q = elim q [ ]
Follow-join (x ∷ a) (y ∷ b) (z ∷ c) (p, ps) (q, qs) =
    (Evolves-join x y z p q, Follow-join a b c ps qs)

pub Follow-update_where :
    (p : OutboxRow → Bool) (f : OutboxRow → OutboxRow) (rs : List OutboxRow)
    → All (λ r. p r ≡ true → Evolves r (f r)) rs
    → Follow rs (update_where p f rs)
unfolding update_where
Follow-update_where p f [] h = tt
Follow-update_where p f (r ∷ rs) (h, hs) = elim (Bool-cases (p r)) [
  | inl e ↦ (rw e (h e), Follow-update_where p f rs hs)
  | inr e ↦ (rw e (Evolves-refl r), Follow-update_where p f rs hs)
]

pub All-any : (P : OutboxRow → Type 0) (rs : List OutboxRow) → ((r : OutboxRow) → P r) → All P rs
All-any P [] h = tt
All-any P (r ∷ rs) h = (h r, All-any P rs h)

-- A change of the fields that publishing may change, of a row that is not published.
pub changed_row :
    (r : OutboxRow) (s : Status) (o : Option Bytes) (t : Option ℕ) (c : Option Bytes) (n : ℕ)
    → r.publish_attempts ≤ n
    → (r.status ≡ published → ⊥)
    → Evolves r (record r {
      status = s;
      lease_owner = o;
      lease_expires_at = t;
      last_error_code = c;
      publish_attempts = n;
    })
changed_row r s o t c n up open_row = record {
  event_id = refl;
  tenant_id = refl;
  aggregate_type = refl;
  aggregate_id = refl;
  aggregate_version = refl;
  content_hash = refl;
  event_bytes = refl;
  attempts = up;
  final = λ e. elim (open_row e) [ ];
}
