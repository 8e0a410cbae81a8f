-- ===== src/Platform/Monad/Ensures.antt =====
-- What holds of the database once an action has succeeded: a rule for each way to build an action.
use seshatops.Base.{◌≡◌, ap, sym, subst, Bool, true, false, if◌then◌else◌}
use seshatops.Base.Result.{Result, ok, err}
use seshatops.Platform.World.{Db, World, Outcome, succeeds, fails, unheard, PlatformError}
use seshatops.Platform.Monad.{
  M, pure, raise, ◌>>=◌, continue, outcome, query, exec, exec_returning, transact, finished,
  committed, begun, changed, answer,
}
use seshatops.Platform.Monad.Moves.{Moves, db-outcome}

-- The result and the database satisfy `P` if the action succeeded.
abbrev pub Post {ι} : {A : Type 0} → (A → Db → Type ι) → Result PlatformError A × World → Type ι
Post P (r, w) = elim r [ ok a ↦ P a w.db | err e ↦ Unit ]

pub record Ensures {ι} {A : Type 0} (P : A → Db → Type ι) (m : M A) : Type ι where
  pub at : (w : World) → Post P (m w)

module _ {ι} {A : Type 0} {P : A → Db → Type ι} where
  pub Ensures-raise : (e : PlatformError) → Ensures P (raise e)
  unfolding raise
  Ensures-raise e = record { at = λ w. tt }

  pub Ensures-if :
      (b : Bool) (m n : M A) → Ensures P m → Ensures P n → Ensures P (if b then m else n)
  Ensures-if true m n h k = h
  Ensures-if false m n h k = k

  pub Ensures-bind :
      {B : Type 0} (m : M B) (f : B → M A) → ((b : B) → Ensures P (f b)) → Ensures P (m >>= f)
  unfolding ◌>>=◌
  Ensures-bind {B = B} m f h = record { at = λ w. let (r, w') = m w in rest r w' }
    where
      rest : (r : Result PlatformError B) (w : World) → Post P (continue r f w)
      rest (ok b) w = (h b).at w
      rest (err e) w = tt

  -- What follows an action may use what the action ensures.
  pub Ensures-then {κ} :
      {B : Type 0} {Q : B → Db → Type κ} (m : M B) (f : B → M A)
      → Ensures Q m
      → ((b : B) (w : World) → Q b w.db → Post P (f b w))
      → Ensures P (m >>= f)
  unfolding ◌>>=◌
  Ensures-then {B = B} {Q = Q} m f k h = record { at = λ w. rest (m w) (k.at w) }
    where
      rest : (r : Result PlatformError B × World) → Post Q r → Post P (continue r.0 f r.1)
      rest (ok b, w) q = h b w q
      rest (err e, w) q = tt

  pub Ensures-exec_returning :
      (g : Db → A) (f : Db → Db) → ((d : Db) → P (g d) (f d)) → Ensures P (exec_returning g f)
  unfolding exec_returning
  Ensures-exec_returning g f h = record {
    at = λ w. let (o, w') = outcome w in answered o w' w.db (db-outcome w);
  }
    where
      answered :
          (o : Outcome) (w : World) (d : Db) → w.db ≡ d → Post P (answer o (g d), changed o f w)
      answered succeeds w d e = subst (λ x. P (g d) (f x)) (sym e) (h d)
      answered fails w d e = tt
      answered unheard w d e = tt

  pub Ensures-transact : (m : M A) → Ensures P m → Ensures P (transact m)
  unfolding transact
  Ensures-transact m h = record { at = λ w. let (o, w') = outcome w in begun-post o w' }
    where
      committed-post :
          (o : Outcome) (d : Db) (a : A) (w : World) → P a w.db → Post P (committed o d a w)
      committed-post succeeds d a w p = p
      committed-post fails d a w p = tt
      committed-post unheard d a w p = tt

      finished-post :
          (d : Db) (r : Result PlatformError A × World) → Post P r → Post P (finished d r.0 r.1)
      finished-post d (ok a, w) p =
          let (o, w') = outcome w in committed-post o d a w' (subst (P a) (sym (db-outcome w)) p)
      finished-post d (err e, w) p = tt

      begun-post : (o : Outcome) (w : World) → Post P (begun o m w)
      begun-post succeeds w = finished-post w.db (m w) (h.at w)
      begun-post fails w = tt
      begun-post unheard w = tt

pub Ensures-query : {A : Type 0} (f : Db → A) → Ensures (λ a d. a ≡ f d) (query f)
unfolding query
Ensures-query f = record { at = λ w. let (o, w') = outcome w in answered o w' w.db (db-outcome w) }
  where
    answered :
        (o : Outcome) (w : World) (d : Db) → w.db ≡ d → Post (λ a d. a ≡ f d) (answer o (f d), w)
    answered succeeds w d e = ap f (sym e)
    answered fails w d e = tt
    answered unheard w d e = tt

-- An action that keeps `P` ends with it.
pub Post-moves {ι} :
    (P : Db → Type ι) {A : Type 0} (m : M A) (w : World)
    → (P w.db → P (m w).1.db)
    → P w.db
    → Post (λ _. P) (m w)
Post-moves P {A} m w h p = settled (m w) (h p)
  where
    settled : (r : Result PlatformError A × World) → P r.1.db → Post (λ _. P) r
    settled (ok a, w) q = q
    settled (err e, w) q = tt

module _ {ι} {A : Type 0} {P : A → Db → Type ι} where
  -- A statement, and then a value.
  pub Ensures-exec-pure :
      (f : Db → Db) (a : A) → ((d : Db) → P a (f d)) → Ensures P (exec f >>= λ _. pure a)
  unfolding exec pure
  Ensures-exec-pure f a h =
      Ensures-then {Q = λ _ d. P a d} (exec f) (λ _. pure a) (Ensures-exec_returning (λ _. tt) f h)
        (λ _ w p. p)

-- What an action ensures holds to the end if the rest keeps it.
pub Ensures-keep :
    {A B : Type 0} (P : Db → Type 0) (m : M B) (f : B → M A)
    → Ensures (λ _. P) m
    → ((b : B) → Moves (λ d d'. P d → P d') (f b))
    → Ensures (λ _. P) (m >>= f)
Ensures-keep P m f h k = Ensures-then m f h (λ b w p. Post-moves P (f b) w ((k b).at w) p)

module _ {ι κ} {A B : Type 0} (P : A → Db → Type ι) (Q : B → Db → Type κ) where
  -- The same at one world.
  pub Post-bind :
      (m : M B) (f : B → M A) (w : World)
      → Post Q (m w)
      → ((b : B) (w' : World) → Q b w'.db → Post P (f b w'))
      → Post P ((m >>= f) w)
  unfolding ◌>>=◌
  Post-bind m f w q h = rest (m w) q
    where
      rest : (r : Result PlatformError B × World) → Post Q r → Post P (continue r.0 f r.1)
      rest (ok b, w) q = h b w q
      rest (err e, w) q = tt

pub Post-both {ι κ} :
    {A : Type 0} (P : A → Db → Type ι) (S : Db → Type κ) (r : Result PlatformError A × World)
    → Post P r
    → S r.1.db
    → Post (λ a d. P a d × S d) r
Post-both P S (ok a, w) p s = (p, s)
Post-both P S (err e, w) p s = tt
