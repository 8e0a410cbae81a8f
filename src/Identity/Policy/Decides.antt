-- ===== src/Identity/Policy/Decides.antt =====
-- What `Policy.Allow` (identity/policy.go) lets through.
use seshatops.Base.{
  ◌≡◌, refl, sym, ◌∙◌, ◌↔◌, ◌⊎◌, inl, inr, false, ◌&&◌, List, [], ◌∷◌, Bytes, All, Some, str_eq,
  str_eq_iff, arith,
}
use seshatops.Base.Result.{Result, ok, err}
use seshatops.Event.Text.{is_empty}
use seshatops.Identity.Matrix.{matrix_allows}
use seshatops.Identity.Directory.{Assignment, Directory, assignments, Change, directory_after}
use seshatops.Identity.Policy.{gather, allow, is_nil}
use seshatops.Identity.Policy.Gather.{
  IsComplete, InMatrix, scoped, Some-sound, Some-complete, Some-All, gather_complete, gather_sound,
  any_of-scoped, is_cons-any_of, directory-Filed, matrix_allows_sound, matrix_allows_complete,
}

-- Nothing is left empty, no membership row of the principal is incomplete, and one of them is in the
-- scope with a role that the matrix grants the action on the resource.
pub record IsAllowed (dir : Directory) (principal scope resource action : Bytes) : Type 0 where
  pub principal_named : is_empty principal ≡ false
  pub scope_named : is_empty scope ≡ false
  pub resource_named : is_empty resource ≡ false
  pub action_named : is_empty action ≡ false
  pub complete : All (IsComplete scope) (dir principal)
  pub granted :
      Some
        (λ row. (row.tenant_id ≡ scope) × InMatrix scope row.role_id resource action)
        (dir principal)

result_cases : {E A : Type 0} (g : Result E A) → ((x : A) × (g ≡ ok x)) ⊎ ((e : E) × (g ≡ err e))
result_cases (ok x) = inl (x, refl)
result_cases (err e) = inr (e, refl)

is_nil-Some : (P : Assignment → Type 0) (rows : List Assignment) → Some P rows → is_nil rows ≡ false
is_nil-Some P [] h = elim h [ ]
is_nil-Some P (x ∷ xs) h = refl

module _ (changes : List Change) (p s r a : Bytes) where
  allow_sound :
      allow (directory_after changes) p s r a ≡ ok tt → IsAllowed (directory_after changes) p s r a
  unfolding allow assignments
  allow_sound h = elim (result_cases (gather p s (directory_after changes p) [] false)) [
    | inr (e, k) ↦ ground (arith, k)
    | inl (x, k) ↦
        let complete = gather_sound p s (directory_after changes p) [] false x k in
        let gathered =
          gather_complete p s (directory_after changes p) [] false (directory-Filed changes p)
            complete in
        record {
          principal_named = ground arith;
          scope_named = ground arith;
          resource_named = ground arith;
          action_named = ground arith;
          complete = complete;
          granted =
              Some-sound (λ row. str_eq row.tenant_id s && matrix_allows s row.role_id r a) _
                (directory_after changes p)
                (λ row e. (
                  (str_eq_iff row.tenant_id s).0 (ground arith),
                  matrix_allows_sound s row.role_id r a (ground arith),
                ))
                (sym
                    (any_of-scoped s (λ role. matrix_allows s role r a) (directory_after changes p))
                  ∙ ground (arith, gathered));
        }
  ]

  allow_complete :
      IsAllowed (directory_after changes) p s r a → allow (directory_after changes) p s r a ≡ ok tt
  unfolding allow assignments
  allow_complete h =
      let gathered =
        gather_complete p s (directory_after changes p) [] false (directory-Filed changes p)
          h.complete in
      let found =
        any_of-scoped s (λ role. matrix_allows s role r a) (directory_after changes p)
        ∙ Some-complete (λ row. str_eq row.tenant_id s && matrix_allows s row.role_id r a) _
            (directory_after changes p)
            (λ row ((_, role), (tenant, m)). ground (
              arith,
              (str_eq_iff row.tenant_id s).1 tenant,
              matrix_allows_complete s row.role_id r a h.scope_named (role tenant) h.resource_named
                  h.action_named m,
            ))
            (Some-All _ _ (directory_after changes p) h.complete h.granted) in
      ground (
        arith,
        h.principal_named,
        h.scope_named,
        h.resource_named,
        h.action_named,
        is_nil-Some _ (directory_after changes p) h.granted,
        gathered,
        found,
        is_cons-any_of (λ role. matrix_allows s role r a) (scoped s (directory_after changes p))
            found,
      )

  -- `Allow` answers nil exactly when nothing is left empty, every membership row of the principal names a
  -- tenant (and, in the scope, a role), and some row in the scope has a role to which the frozen matrix
  -- grants the action on the resource; every other request is forbidden.
  pub allow_iff :
      (allow (directory_after changes) p s r a ≡ ok tt)
      ↔ IsAllowed (directory_after changes) p s r a
  allow_iff = (allow_sound, allow_complete)
