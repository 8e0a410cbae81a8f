-- ===== src/Identity/Policy/Gather.antt =====
-- The membership rows that `Policy.Allow` (identity/policy.go) gathers, and the matrix it asks.
use seshatops.Base.{
  append-nil, append_assoc, ◌≡◌, refl, sym, ◌↔◌, inl, inr, Bool, true, false, ◌&&◌, ◌||◌,
  Bool-cases, List, [], ◌∷◌, ◌++◌, Bytes, All, All-snoc, Some, any_of, str_eq, str_eq_iff,
  if◌then◌else◌, arith,
}
use seshatops.Base.Result.{ok}
use seshatops.Event.Text.{is_empty}
use seshatops.Identity.Matrix.{AllowRow, grants, frozen_allow_list, matrix_allows}
use seshatops.Identity.Directory.{
  Assignment, assign, clear, Change, assigned, cleared, directory_after,
}
use seshatops.Identity.Policy.{gather}

-- A membership row that is complete for a scope.
abbrev pub IsComplete : Bytes → Assignment → Type 0
IsComplete scope row =
    (is_empty row.tenant_id ≡ false) × (row.tenant_id ≡ scope → is_empty row.role_id ≡ false)

-- The matrix has a row for the four.
abbrev pub InMatrix : Bytes → Bytes → Bytes → Bytes → Type 0
InMatrix tenant role resource action =
    Some
      (λ r.
        (r.tenant_id ≡ tenant) × (r.role_id ≡ role) × (r.resource ≡ resource) × (r.action ≡ action))
      frozen_allow_list

pub Some-sound :
    {A : Type 0} (p : A → Bool) (P : A → Type 0) (xs : List A)
    → ((x : A) → p x ≡ true → P x)
    → any_of p xs ≡ true
    → Some P xs
Some-sound p P [] f h = cc
Some-sound p P (x ∷ xs) f h = elim (Bool-cases (p x)) [
  | inl e ↦ inl (f x e)
  | inr e ↦ inr (Some-sound p P xs f (ground (arith, e)))
]

pub Some-complete :
    {A : Type 0} (p : A → Bool) (P : A → Type 0) (xs : List A)
    → ((x : A) → P x → p x ≡ true)
    → Some P xs
    → any_of p xs ≡ true
Some-complete p P [] f h = elim h [ ]
Some-complete p P (x ∷ xs) f (inl h) = ground (arith, f x h)
Some-complete p P (x ∷ xs) f (inr h) = ground (arith, Some-complete p P xs f h)

grants_iff :
    (t r s a : Bytes) (row : AllowRow)
    → (grants t r s a row ≡ true)
      ↔ ((row.tenant_id ≡ t) × (row.role_id ≡ r) × (row.resource ≡ s) × (row.action ≡ a))
grants_iff t r s a row = (
  λ h. (
    (str_eq_iff row.tenant_id t).0 (ground arith),
    (str_eq_iff row.role_id r).0 (ground arith),
    (str_eq_iff row.resource s).0 (ground arith),
    (str_eq_iff row.action a).0 (ground arith),
  ),
  λ (et, er, es, ea). ground (
    arith,
    (str_eq_iff row.tenant_id t).1 et,
    (str_eq_iff row.role_id r).1 er,
    (str_eq_iff row.resource s).1 es,
    (str_eq_iff row.action a).1 ea,
  ),
)

pub Some-All :
    {A : Type 0} (P Q : A → Type 0) (xs : List A) → All P xs → Some Q xs → Some (λ x. P x × Q x) xs
Some-All P Q [] a h = elim h [ ]
Some-All P Q (x ∷ xs) (p, ps) (inl h) = inl (p, h)
Some-All P Q (x ∷ xs) (p, ps) (inr h) = inr (Some-All P Q xs ps h)

module _ (t r s a : Bytes) where
  pub matrix_allows_sound : matrix_allows t r s a ≡ true → InMatrix t r s a
  unfolding matrix_allows
  matrix_allows_sound h =
      Some-sound (grants t r s a) _ frozen_allow_list (λ row. (grants_iff t r s a row).0)
        (ground arith)

  pub matrix_allows_complete :
      is_empty t ≡ false
      → is_empty r ≡ false
      → is_empty s ≡ false
      → is_empty a ≡ false
      → InMatrix t r s a
      → matrix_allows t r s a ≡ true
  unfolding matrix_allows
  matrix_allows_complete ht hr hs ha m =
      rw (ht, hr, hs, ha)
        (Some-complete (grants t r s a) _ frozen_allow_list (λ row. (grants_iff t r s a row).1) m)

-- The roles of the rows in the scope.
abbrev pub scoped : Bytes → List Assignment → List Bytes
scoped scope [] = []
scoped scope (row ∷ rows) =
    let rest = scoped scope rows in if str_eq row.tenant_id scope then row.role_id ∷ rest else rest

abbrev pub is_cons : List Bytes → Bool
is_cons [] = false
is_cons (_ ∷ _) = true

abbrev pub Filed : Bytes → List Assignment → Type 0
Filed principal rows = All (λ row. row.principal_id ≡ principal) rows

module _ (principal scope : Bytes) where
  pub gather_complete :
      (rows : List Assignment) (roles : List Bytes) (matched : Bool)
      → Filed principal rows
      → All (IsComplete scope) rows
      → gather principal scope rows roles matched
        ≡ ok (roles ++ scoped scope rows, matched || is_cons (scoped scope rows))
  unfolding gather
  gather_complete [] roles matched filed complete = ground (arith, append-nil roles)
  gather_complete (row ∷ rows) roles matched (f, fs) (c, cs) =
      elim (Bool-cases (str_eq row.tenant_id scope)) [
        | inl e ↦ ground (
          arith,
          e,
          str_eq_iff row.principal_id principal,
          str_eq_iff row.tenant_id scope,
          f,
          c.0,
          c.1,
          gather_complete rows (roles ++ row.role_id ∷ []) true fs cs,
          append_assoc roles (row.role_id ∷ []) (scoped scope rows),
        )
        | inr e ↦ ground (
          arith,
          e,
          str_eq_iff row.principal_id principal,
          f,
          c.0,
          gather_complete rows roles matched fs cs,
        )
      ]

  pub gather_sound :
      (rows : List Assignment) (roles : List Bytes) (matched : Bool) (x : List Bytes × Bool)
      → gather principal scope rows roles matched ≡ ok x
      → All (IsComplete scope) rows
  unfolding gather
  gather_sound [] roles matched x h = tt
  gather_sound (row ∷ rows) roles matched x h = elim (Bool-cases (str_eq row.tenant_id scope)) [
    | inl e ↦ (
      (ground arith, λ _. ground arith),
      gather_sound rows (roles ++ row.role_id ∷ []) true x (ground arith),
    )
    | inr e ↦ (
      (ground arith, λ k. cc (e, (str_eq_iff row.tenant_id scope).1 k)),
      gather_sound rows roles matched x (ground arith),
    )
  ]

pub any_of-scoped :
    (scope : Bytes) (f : Bytes → Bool) (rows : List Assignment)
    → any_of f (scoped scope rows)
      ≡ any_of (λ row. str_eq row.tenant_id scope && f row.role_id) rows
any_of-scoped scope f [] = refl
any_of-scoped scope f (row ∷ rows) = ground (arith, any_of-scoped scope f rows)

pub is_cons-any_of : (f : Bytes → Bool) (xs : List Bytes) → any_of f xs ≡ true → is_cons xs ≡ true
is_cons-any_of f [] h = cc
is_cons-any_of f (x ∷ xs) h = refl

-- Every row of a principal carries its identifier.
pub directory-Filed : (changes : List Change) (p : Bytes) → Filed p (directory_after changes p)
unfolding directory_after assign clear
directory-Filed [] p = tt
directory-Filed (assigned a ∷ before) p = elim (Bool-cases (is_empty a.principal_id)) [
  | inl e ↦ rw e (directory-Filed before p)
  | inr e ↦ elim (Bool-cases (str_eq p a.principal_id)) [
    | inl same ↦
        rw (e, same)
          (All-snoc (λ row. row.principal_id ≡ p) (directory_after before p) a
            (directory-Filed before p) (sym ((str_eq_iff p a.principal_id).0 same)))
    | inr other ↦ rw (e, other) (directory-Filed before p)
  ]
]
directory-Filed (cleared q ∷ before) p = elim (Bool-cases (is_empty q)) [
  | inl e ↦ rw e (directory-Filed before p)
  | inr e ↦ elim (Bool-cases (str_eq p q)) [
    | inl same ↦ rw (e, same) tt
    | inr other ↦ rw (e, other) (directory-Filed before p)
  ]
]
