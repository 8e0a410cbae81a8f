-- ===== src/Identity/Tests.antt =====
-- Examples of package identity.
use seshatops.Base.{◌≡◌, ◌↔◌, refl, List, [], ◌∷◌, lit, str_eq}
use seshatops.Base.Result.{ok}
use seshatops.Identity.Matrix.{
  tenant_ns_001_uuid, role_ops_reader, res_ops_visibility, act_read, frozen_allow_list,
  matrix_allows,
}
use seshatops.Identity.Directory.{Change, assigned, directory_after, assign, assignments}
use seshatops.Identity.Policy.{allow, gather}
use seshatops.Identity.Policy.Decides.{IsAllowed, allow_iff}

-- One reader of the demo tenant.
abbrev changes : List Change
changes =
    assigned (record {
      principal_id = lit "u1";
      tenant_id = tenant_ns_001_uuid;
      role_id = role_ops_reader;
    })
    ∷ []

reader_allowed :
    allow (directory_after changes) (lit "u1") tenant_ns_001_uuid res_ops_visibility act_read
    ≡ ok tt
unfolding allow gather directory_after assign assignments matrix_allows frozen_allow_list str_eq lit
reader_allowed = refl

allow_iff_example :
    (allow (directory_after changes) (lit "u1") tenant_ns_001_uuid res_ops_visibility act_read
      ≡ ok tt)
    ↔ IsAllowed (directory_after changes) (lit "u1") tenant_ns_001_uuid res_ops_visibility act_read
allow_iff_example = allow_iff changes (lit "u1") tenant_ns_001_uuid res_ops_visibility act_read
