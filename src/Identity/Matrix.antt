-- ===== src/Identity/Matrix.antt =====
-- The frozen permission matrix of identity/matrix.go.
use seshatops.Base.{
  any_of, Bool, false, ◌&&◌, ◌||◌, List, [], ◌∷◌, Bytes, lit, str_eq, if◌then◌else◌,
}
use seshatops.Event.Text.{is_empty}

abbrev pub tenant_ns_001_uuid : Bytes
tenant_ns_001_uuid = lit "11111111-1111-4111-8111-111111111111"

abbrev pub scope_runtime : Bytes
scope_runtime = lit "SCOPE-RUNTIME"

abbrev pub role_ops_reader : Bytes
role_ops_reader = lit "ROLE-OPS-READER"

abbrev pub role_platform_operator : Bytes
role_platform_operator = lit "ROLE-PLATFORM-OPERATOR"

abbrev pub role_release_observer : Bytes
role_release_observer = lit "ROLE-RELEASE-OBSERVER"

abbrev pub res_ops_visibility : Bytes
res_ops_visibility = lit "RES-OPS-VISIBILITY"

abbrev pub act_read : Bytes
act_read = lit "ACT-READ"

-- `allowRow`
pub record AllowRow : Type 0 where
  pub tenant_id : Bytes
  pub role_id : Bytes
  pub resource : Bytes
  pub action : Bytes

abbrev row : Bytes → Bytes → Bytes → Bytes → AllowRow
row t r s a = record { tenant_id = t; role_id = r; resource = s; action = a }

-- `frozenAllowList`, without the identifiers MX-001 to MX-010, which nothing reads
unfoldable pub frozen_allow_list : List AllowRow
frozen_allow_list =
    row tenant_ns_001_uuid role_ops_reader (lit "RES-INVENTORY-PROJECTION") act_read
    ∷ row tenant_ns_001_uuid role_ops_reader res_ops_visibility act_read
    ∷ row tenant_ns_001_uuid role_platform_operator res_ops_visibility act_read
    ∷ row tenant_ns_001_uuid role_platform_operator (lit "RES-QUARANTINE")
        (lit "ACT-QUARANTINE-RELEASE")
    ∷ row tenant_ns_001_uuid role_platform_operator (lit "RES-REPLAY") (lit "ACT-REPLAY")
    ∷ row tenant_ns_001_uuid role_platform_operator (lit "RES-REBUILD") (lit "ACT-REBUILD")
    ∷ row tenant_ns_001_uuid role_platform_operator (lit "RES-AUDIT") (lit "ACT-AUDIT-READ")
    ∷ row tenant_ns_001_uuid role_ops_reader (lit "RES-FORECAST-FEATURES") act_read
    ∷ row tenant_ns_001_uuid role_ops_reader (lit "RES-FORECAST-PREDICTIONS") act_read
    ∷ row scope_runtime role_release_observer (lit "RES-RELEASE-METRICS") act_read
    ∷ []

-- A row of the matrix for the four.
abbrev pub grants : Bytes → Bytes → Bytes → Bytes → AllowRow → Bool
grants tenant role resource action r =
    str_eq r.tenant_id tenant
    && str_eq r.role_id role
    && str_eq r.resource resource
    && str_eq r.action action

unfoldable pub matrix_allows : Bytes → Bytes → Bytes → Bytes → Bool
matrix_allows tenant role resource action =
    if is_empty tenant || is_empty role || is_empty resource || is_empty action
    then false
    else any_of (grants tenant role resource action) frozen_allow_list
