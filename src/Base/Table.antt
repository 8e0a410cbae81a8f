-- ===== src/Base/Table.antt =====
-- SQL tables as lists of rows, with what the statements of the code do to them.
use mathlib.Core.Path.{◌≡◌, refl, sym, ◌∙◌}
use mathlib.Core.Bool.{Bool, true, false, ◌&&◌, not}
use mathlib.Core.Option.{Option, none, some}
use mathlib.Core.List.{List, [], ◌∷◌, ◌++◌}
use Prim.Native.Nat.{ℕ, suc, ◌+◌, ◌≤◌}
use native.Mathlib.Omega.{arith}
use seshatops.Base.Tests.{if◌then◌else◌}

module _ {ℓ} {A : Type ℓ} where
  -- SELECT … WHERE p LIMIT 1
  unfoldable pub select_row : (A → Bool) → List A → Option A
  select_row p [] = none
  select_row p (r ∷ rs) = let rest = select_row p rs in if p r then some r else rest

  -- UPDATE … SET f WHERE p
  unfoldable pub update_where : (A → Bool) → (A → A) → List A → List A
  update_where p f [] = []
  update_where p f (r ∷ rs) = (if p r then f r else r) ∷ update_where p f rs

  -- The number of rows that a WHERE clause matches.
  unfoldable pub count_where : (A → Bool) → List A → ℕ
  count_where p [] = 0
  count_where p (r ∷ rs) = let rest = count_where p rs in if p r then suc rest else rest

  -- DELETE … WHERE p
  unfoldable pub delete_where : (A → Bool) → List A → List A
  delete_where p [] = []
  delete_where p (r ∷ rs) = let rest = delete_where p rs in if p r then rest else r ∷ rest

  abbrev pub is_some : Option A → Bool
  is_some none = false
  is_some (some _) = true

  abbrev pub or_else : Option A → Option A → Option A
  or_else none b = b
  or_else (some a) b = some a

  -- INSERT … ON CONFLICT (key) DO UPDATE SET merge, where `same` is equality with the key of `row`
  unfoldable pub upsert : (A → Bool) → (A → A) → A → List A → List A
  unfolding select_row update_where
  upsert same merge row rs =
      if is_some (select_row same rs) then update_where same merge rs else rs ++ row ∷ []

  pub select_row-append :
      (p : A → Bool) (rs : List A) (r : A)
      → select_row p (rs ++ r ∷ []) ≡ or_else (select_row p rs) (if p r then some r else none)
  unfolding select_row
  select_row-append p [] r = ground arith
  select_row-append p (x ∷ rs) r = ground (arith, select_row-append p rs r)

  -- An update whose change keeps the WHERE clause of a later query.
  pub select_row-update_where :
      (p q : A → Bool) (f : A → A) (rs : List A)
      → ((r : A) → p r ≡ true → q (f r) ≡ q r)
      → select_row q (update_where p f rs)
        ≡ elim (select_row q rs) [ none ↦ none | some r ↦ some (if p r then f r else r) ]
  unfolding select_row update_where
  select_row-update_where p q f [] keep = refl
  select_row-update_where p q f (r ∷ rs) keep =
      ground (arith, keep r, select_row-update_where p q f rs keep)

  -- A found row passes the test.
  pub select_row_sound :
      (p : A → Bool) (rs : List A) (r : A) → select_row p rs ≡ some r → p r ≡ true
  unfolding select_row
  select_row_sound p [] r h = cc
  select_row_sound p (x ∷ rs) r h = ground (arith, select_row_sound p rs r)

  -- The row of a key after an upsert of that key.
  pub select_row-upsert :
      (same : A → Bool) (merge : A → A) (row : A) (rs : List A)
      → same row ≡ true
      → ((r : A) → same r ≡ true → same (merge r) ≡ true)
      → select_row same (upsert same merge row rs)
        ≡ some (elim (select_row same rs) [ none ↦ row | some old ↦ merge old ])
  unfolding upsert
  select_row-upsert same merge row rs key keep = found (select_row same rs) refl
    where
      found :
          (o : Option A)
          → select_row same rs ≡ o
          → select_row same
              (if is_some (select_row same rs) then update_where same merge rs else rs ++ row ∷ [])
            ≡ some (elim (select_row same rs) [ none ↦ row | some old ↦ merge old ])
      found none e = ground (arith, e, select_row-append same rs row)
      found (some r) e = ground (
        arith,
        e,
        select_row_sound same rs r e,
        keep r,
        select_row-update_where same same merge rs (λ x h. keep x h ∙ sym h),
      )

  -- An upsert leaves no query without the row that it had.
  pub is_some-upsert :
      (same q : A → Bool) (merge : A → A) (row : A) (rs : List A)
      → ((r : A) → same r ≡ true → q (merge r) ≡ q r)
      → is_some (select_row q rs) ≡ true
      → is_some (select_row q (upsert same merge row rs)) ≡ true
  unfolding upsert
  is_some-upsert same q merge row rs keep h =
      ground (arith, select_row-append q rs row, select_row-update_where same q merge rs keep)

  -- An upsert after which no row of the key passes a test that only rows of the key pass.
  pub count_where-upsert-none :
      (same q : A → Bool) (merge : A → A) (row : A) (rs : List A)
      → ((r : A) → same r ≡ true → q (merge r) ≡ false)
      → ((r : A) → same r ≡ false → q r ≡ false)
      → q row ≡ false
      → count_where q (upsert same merge row rs) ≡ 0
  unfolding upsert count_where update_where select_row
  count_where-upsert-none same q merge row rs here there new =
      ground (arith, updated rs, appended rs)
    where
      updated : (rs : List A) → count_where q (update_where same merge rs) ≡ 0
      updated [] = refl
      updated (r ∷ rs) = ground (arith, updated rs, here r, there r)

      appended :
          (rs : List A) → is_some (select_row same rs) ≡ false → count_where q (rs ++ row ∷ []) ≡ 0
      appended [] h = ground arith
      appended (r ∷ rs) h = ground (arith, appended rs, there r)

  -- An upsert leaves the count of a test that no row of its key passes.
  pub count_where-upsert-other :
      (same q : A → Bool) (merge : A → A) (row : A) (rs : List A)
      → ((r : A) → same r ≡ true → (q (merge r) ≡ false) × (q r ≡ false))
      → q row ≡ false
      → count_where q (upsert same merge row rs) ≡ count_where q rs
  unfolding upsert count_where update_where
  count_where-upsert-other same q merge row rs here new = ground (arith, updated rs, appended rs)
    where
      updated : (rs : List A) → count_where q (update_where same merge rs) ≡ count_where q rs
      updated [] = refl
      updated (r ∷ rs) = ground (arith, updated rs, here r)

      appended : (rs : List A) → count_where q (rs ++ row ∷ []) ≡ count_where q rs
      appended [] = ground arith
      appended (r ∷ rs) = ground (arith, appended rs)

  -- A row that is found counts.
  pub count_where-found :
      (p q : A → Bool) (rs : List A) (r : A)
      → select_row p rs ≡ some r
      → q r ≡ true
      → 1 ≤ count_where q rs
  unfolding select_row count_where
  count_where-found p q [] r h k = cc
  count_where-found p q (x ∷ rs) r h k = ground (arith, count_where-found p q rs r)

  pub count_where-split :
      (q t : A → Bool) (rs : List A)
      → count_where q rs ≡ count_where (λ r. q r && t r) rs + count_where (λ r. q r && not (t r)) rs
  unfolding count_where
  count_where-split q t [] = refl
  count_where-split q t (r ∷ rs) = ground (arith, count_where-split q t rs)
