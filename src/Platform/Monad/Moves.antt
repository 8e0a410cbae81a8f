-- ===== src/Platform/Monad/Moves.antt =====
-- Which changes of the database an action can make: a rule for each way to build an action.
use seshatops.Base.{◌≡◌, refl, ap, sym, subst, Bool, true, false, if◌then◌else◌, arith}
use seshatops.Base.Result.{Result, ok, err}
use seshatops.Platform.World.{Db, World, Outcome, succeeds, fails, unheard, PlatformError}
use seshatops.Platform.Monad.{
  M, pure, raise, ◌>>=◌, continue, outcome, query, exec, exec_returning, transact, finished,
  committed, begun, changed, answer,
}

-- A relation between databases that any number of steps keeps.
pub record IsPath (R : Db → Db → Type 0) : Type 0 where
  pub stay : (d : Db) → R d d
  pub join : (a b c : Db) → R a b → R b c → R a c

-- Whatever the outcomes, and whether it fails or not, `m` moves the database along `R`.
pub record Moves (R : Db → Db → Type 0) {A : Type 0} (m : M A) : Type 0 where
  pub at : (w : World) → R w.db (m w).1.db

pub db-outcome : (w : World) → (outcome w).1.db ≡ w.db
unfolding outcome
db-outcome w = ground arith

module _ {R : Db → Db → Type 0} (path : IsPath R) where
  pub Moves-pure : {A : Type 0} (a : A) → Moves R (pure a)
  unfolding pure
  Moves-pure a = record { at = λ w. path.stay w.db }

  pub Moves-raise : {A : Type 0} (e : PlatformError) → Moves R (raise {A = A} e)
  unfolding raise
  Moves-raise e = record { at = λ w. path.stay w.db }

  Moves-continue :
      {A B : Type 0} (d : Db) (r : Result PlatformError A) (f : A → M B) (w : World)
      → R d w.db
      → ((a : A) → Moves R (f a))
      → R d (continue r f w).1.db
  Moves-continue d (ok a) f w h k = path.join d w.db (f a w).1.db h ((k a).at w)
  Moves-continue d (err e) f w h k = h

  pub Moves-bind :
      {A B : Type 0} (m : M A) (f : A → M B)
      → Moves R m
      → ((a : A) → Moves R (f a))
      → Moves R (m >>= f)
  unfolding ◌>>=◌
  Moves-bind m f h k = record {
    at = λ w. let (r, w') = m w in Moves-continue w.db r f w' (h.at w) k;
  }

  -- The same at one world, for the first action.
  pub bind-at :
      {A B : Type 0} (m : M A) (f : A → M B) (w : World)
      → R w.db (m w).1.db
      → ((a : A) → Moves R (f a))
      → R w.db ((m >>= f) w).1.db
  unfolding ◌>>=◌
  bind-at m f w h k = let (r, w') = m w in Moves-continue w.db r f w' h k

  -- What follows a query may use that its value was read from the database as it stands.
  pub Moves-bind-query :
      {A B : Type 0} (f : Db → A) (k : A → M B)
      → ((w : World) (a : A) → a ≡ f w.db → R w.db (k a w).1.db)
      → Moves R (query f >>= k)
  unfolding ◌>>=◌ query
  Moves-bind-query f k h = record {
    at = λ w.
        let (o, w') = outcome w in
        answered o (f w.db) k w.db w' (db-outcome w)
          (λ v e. subst (λ d. R d (k (f w.db) v).1.db) e (h v (f w.db) (ap f (sym e))));
  }
    where
      answered :
          {A B : Type 0} (o : Outcome) (a : A) (k : A → M B) (d : Db) (w : World)
          → w.db ≡ d
          → ((v : World) → v.db ≡ d → R d (k a v).1.db)
          → R d (continue (answer o a) k w).1.db
      answered succeeds a k d w e h = h w e
      answered fails a k d w e h = subst (R d) (sym e) (path.stay d)
      answered unheard a k d w e h = subst (R d) (sym e) (path.stay d)

  pub Moves-query : {A : Type 0} (f : Db → A) → Moves R (query f)
  unfolding query
  Moves-query f = record { at = λ w. subst (R w.db) (sym (db-outcome w)) (path.stay w.db) }

  changed-moves :
      (o : Outcome) (f : Db → Db) (d : Db) (w : World)
      → w.db ≡ d
      → R d (f d)
      → R d (changed o f w).db
  changed-moves succeeds f d w e h = subst (λ x. R d (f x)) (sym e) h
  changed-moves fails f d w e h = subst (R d) (sym e) (path.stay d)
  changed-moves unheard f d w e h = subst (R d) (sym e) (path.stay d)

  pub Moves-exec_returning :
      {A : Type 0} (g : Db → A) (f : Db → Db)
      → ((d : Db) → R d (f d))
      → Moves R (exec_returning g f)
  unfolding exec_returning
  Moves-exec_returning g f h = record {
    at = λ w. let (o, w') = outcome w in changed-moves o f w.db w' (db-outcome w) (h w.db);
  }

  pub exec-at : (f : Db → Db) (w : World) → R w.db (f w.db) → R w.db (exec f w).1.db
  unfolding exec exec_returning
  exec-at f w h = let (o, w') = outcome w in changed-moves o f w.db w' (db-outcome w) h

  pub exec_returning-at :
      {A : Type 0} (g : Db → A) (f : Db → Db) (w : World)
      → R w.db (f w.db)
      → R w.db (exec_returning g f w).1.db
  unfolding exec_returning
  exec_returning-at g f w h = let (o, w') = outcome w in changed-moves o f w.db w' (db-outcome w) h

  pub Moves-exec : (f : Db → Db) → ((d : Db) → R d (f d)) → Moves R (exec f)
  unfolding exec
  Moves-exec f h = Moves-exec_returning (λ _. tt) f h

  pub if-at :
      {A : Type 0} (b : Bool) (m n : M A) (w : World)
      → (b ≡ true → R w.db (m w).1.db)
      → (b ≡ false → R w.db (n w).1.db)
      → R w.db ((if b then m else n) w).1.db
  if-at true m n w km kn = km refl
  if-at false m n w km kn = kn refl

  pub Moves-if :
      {A : Type 0} (b : Bool) (m n : M A)
      → (b ≡ true → Moves R m)
      → (b ≡ false → Moves R n)
      → Moves R (if b then m else n)
  Moves-if true m n km kn = km refl
  Moves-if false m n km kn = kn refl

  committed-moves :
      {A : Type 0} (o : Outcome) (d : Db) (a : A) (w : World)
      → R d w.db
      → R d (committed o d a w).1.db
  committed-moves succeeds d a w h = h
  committed-moves fails d a w h = path.stay d
  committed-moves unheard d a w h = h

  finished-moves :
      {A : Type 0} (d : Db) (r : Result PlatformError A) (w : World)
      → R d w.db
      → R d (finished d r w).1.db
  finished-moves d (ok a) w h =
      let (o, w') = outcome w in committed-moves o d a w' (subst (R d) (sym (db-outcome w)) h)
  finished-moves d (err e) w h = path.stay d

  begun-moves :
      {A : Type 0} (o : Outcome) (m : M A) (w : World) → Moves R m → R w.db (begun o m w).1.db
  begun-moves succeeds m w h = let (r, w') = m w in finished-moves w.db r w' (h.at w)
  begun-moves fails m w h = path.stay w.db
  begun-moves unheard m w h = path.stay w.db

  pub Moves-transact : {A : Type 0} (m : M A) → Moves R m → Moves R (transact m)
  unfolding transact
  Moves-transact m h = record {
    at = λ w.
        let (o, w') = outcome w in
        subst (λ d. R d (begun o m w').1.db) (db-outcome w) (begun-moves o m w' h);
  }
