-- ===== src/Erp/World/Yields.antt =====
-- What a part of a transaction yields when it does not fail: one rule for each statement.
use seshatops.Base.{
  Bool, true, false, Option, none, some, List, [], ◌∷◌, ◌≡◌, refl, ◌⊎◌, inl, inr, if◌then◌else◌,
}
use seshatops.Base.Result.{Result, ok, err}
use seshatops.Event.Text.{EventError}
use seshatops.Relay.Publish.{CallOutcome, answered, failed, unheard}
use seshatops.Erp.World.{
  ErpDb, ErpError, Tx, M, ◌>>=◌, continue, query, write, raise_if, found, lift_event, Weather,
  finished, in_transaction,
}

abbrev pub Yields : {A : Type 0} → (A → ErpDb → Type 0) → Result ErpError (A × Tx) → Type 0
Yields Q (ok (a, t)) = Q a t.db
Yields Q (err e) = Unit

abbrev pub at : ErpDb → List Bool → Tx
at db faults = record { db = db; faults = faults }

module _ {A B : Type 0} (Q : B → ErpDb → Type 0) where
  pub bind_rule :
      (P : A → ErpDb → Type 0) (m : M A) (f : A → M B) (t : Tx)
      → Yields P (m t)
      → ((a : A) (t' : Tx) → P a t'.db → Yields Q (f a t'))
      → Yields Q ((m >>= f) t)
  unfolding ◌>>=◌
  bind_rule P m f t h k = go (m t) h
    where
      go : (r : Result ErpError (A × Tx)) → Yields P r → Yields Q (continue r f)
      go (ok (a, t')) p = k a t' p
      go (err e) p = tt

  pub query_rule :
      (f : ErpDb → A) (k : A → M B) (t : Tx)
      → ((faults : List Bool) → Yields Q (k (f t.db) (at t.db faults)))
      → Yields Q ((query f >>= k) t)
  unfolding ◌>>=◌ query
  query_rule f k t h = go t.faults
    where
      go : (s : List Bool) → Yields Q ((query f >>= k) (at t.db s))
      go [] = h []
      go (false ∷ faults) = h faults
      go (true ∷ faults) = tt

  pub found_rule :
      (e : ErpError) (o : Option A) (k : A → M B) (t : Tx)
      → ((a : A) → o ≡ some a → Yields Q (k a t))
      → Yields Q ((found e o >>= k) t)
  unfolding ◌>>=◌
  found_rule e none k t h = tt
  found_rule e (some a) k t h = h a refl

  pub lift_rule :
      (r : Result EventError A) (k : A → M B) (t : Tx)
      → ((a : A) → r ≡ ok a → Yields Q (k a t))
      → Yields Q ((lift_event r >>= k) t)
  unfolding ◌>>=◌
  lift_rule (ok a) k t h = h a refl
  lift_rule (err e) k t h = tt

module _ {B : Type 0} (Q : B → ErpDb → Type 0) where
  pub write_rule :
      (taken : ErpDb → Bool) (e : ErpError) (f : ErpDb → ErpDb) (k : Unit {0} → M B) (t : Tx)
      → ((faults : List Bool) → taken t.db ≡ false → Yields Q (k tt (at (f t.db) faults)))
      → Yields Q ((write taken e f >>= k) t)
  unfolding ◌>>=◌ write
  write_rule taken e f k t h = go t.faults
    where
      landed :
          (b : Bool) (faults : List Bool)
          → taken t.db ≡ b
          → Yields Q (continue (if b then err e else ok (tt, at (f t.db) faults)) k)
      landed true faults eq = tt
      landed false faults eq = h faults eq

      go : (s : List Bool) → Yields Q ((write taken e f >>= k) (at t.db s))
      go [] = landed (taken t.db) [] refl
      go (false ∷ faults) = landed (taken t.db) faults refl
      go (true ∷ faults) = tt

  pub raise_if_rule :
      (b : Bool) (e : ErpError) (k : Unit {0} → M B) (t : Tx)
      → (b ≡ false → Yields Q (k tt t))
      → Yields Q ((raise_if b e >>= k) t)
  unfolding ◌>>=◌
  raise_if_rule true e k t h = tt
  raise_if_rule false e k t h = h refl

-- The transaction was begun, and its commit ended so.
abbrev pub Commits : Weather → CallOutcome → Type 0
Commits weather outcome = (weather.begins ≡ true) × (weather.commits ≡ outcome)

-- How a transaction ends: it succeeded with what it did, and its commit was answered; or it failed,
-- and the tables are as they were, or as after a success if the answer of the commit was lost.
abbrev pub Settled :
    {A : Type 0} → (A → ErpDb → Type 0) → Weather → ErpDb → Result ErpError A × ErpDb → Type 0
Settled {A} P weather db (ok a, db') = Commits weather answered × P a db'
Settled {A} P weather db (err e, db') =
    (db' ≡ db) ⊎ Commits weather unheard × (e ≡ ErpError.driver) × ((a : A) × P a db')

pub in_transaction-Settled :
    {A : Type 0} (P : A → ErpDb → Type 0) (weather : Weather) (m : M A) (db : ErpDb)
    → Yields P (m (at db weather.faults))
    → Settled P weather db (in_transaction weather m db)
unfolding in_transaction
in_transaction-Settled {A} P weather m db h = begins weather.begins refl
  where
    ends :
        (o : CallOutcome) (r : Result ErpError (A × Tx))
        → weather.begins ≡ true
        → weather.commits ≡ o
        → Yields P r
        → Settled P weather db (finished o db r)
    ends o (err e) b c y = inl refl
    ends answered (ok (a, t)) b c y = ((b, c), y)
    ends failed (ok (a, t)) b c y = inl refl
    ends unheard (ok (a, t)) b c y = inr ((b, c), refl, (a, y))

    begins :
        (b : Bool)
        → weather.begins ≡ b
        → Settled P weather db (
            if b
            then finished weather.commits db (m (at db weather.faults))
            else (err ErpError.driver, db))
    begins true b = ends weather.commits (m (at db weather.faults)) b refl h
    begins false b = inl refl

pub Yields-map :
    {A : Type 0} (P Q : A → ErpDb → Type 0) (r : Result ErpError (A × Tx))
    → ((a : A) (db : ErpDb) → P a db → Q a db)
    → Yields P r
    → Yields Q r
Yields-map P Q (ok (a, t)) f h = f a t.db h
Yields-map P Q (err e) f h = tt
