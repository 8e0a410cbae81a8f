-- ===== src/Identity/Policy.antt =====
-- `Policy.Allow` of identity/policy.go.
pub mod Gather
pub mod Decides
use seshatops.Base.{
  any_of, Bool, true, false, ◌||◌, not, List, [], ◌∷◌, ◌++◌, Bytes, str_eq, if◌then◌else◌,
}
use seshatops.Base.Result.{Result, ok, err, ◌>>=◌, ◌>>◌, refuse_if}
use seshatops.Event.Text.{is_empty}
use seshatops.Identity.Matrix.{matrix_allows}
use seshatops.Identity.Directory.{Assignment, Directory, assignments}

pub data PolicyError : Type 0 where
  forbidden : PolicyError

-- The loop over the rows: the roles in the scope, and whether there is one.
unfoldable pub gather :
    Bytes → Bytes → List Assignment → List Bytes → Bool → Result PolicyError (List Bytes × Bool)
gather principal scope [] roles matched = ok (roles, matched)
gather principal scope (row ∷ rows) roles matched =
    let passed_over = gather principal scope rows roles matched in
    let taken = gather principal scope rows (roles ++ row.role_id ∷ []) true in
    if not (str_eq row.principal_id principal)
    then err forbidden
    else if is_empty row.tenant_id
    then err forbidden
    else if not (str_eq row.tenant_id scope)
    then passed_over
    else if is_empty row.role_id
    then err forbidden
    else taken

abbrev pub is_nil : List Assignment → Bool
is_nil [] = true
is_nil (_ ∷ _) = false

unfoldable pub allow : Directory → Bytes → Bytes → Bytes → Bytes → Result PolicyError (Unit {0})
allow dir principal scope resource action = do
  refuse_if (is_empty principal || is_empty scope || is_empty resource || is_empty action) forbidden
  refuse_if (is_nil (assignments dir principal)) forbidden
  (roles, matched) ← gather principal scope (assignments dir principal) [] false
  refuse_if (not matched) forbidden
  refuse_if (not (any_of (λ role. matrix_allows scope role resource action) roles)) forbidden
