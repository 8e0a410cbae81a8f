-- ===== src/Api/Tests.antt =====
-- An operator of the demo tenant releases an event from quarantine (api/controls.go).
use seshatops.Base.{◌≡◌, refl, some, List, [], ◌∷◌, lit, str_eq}
use seshatops.Base.Result.{ok}
use seshatops.Identity.Matrix.{
  tenant_ns_001_uuid, role_platform_operator, frozen_allow_list, matrix_allows,
}
use seshatops.Identity.Directory.{Change, assigned, directory_after, assign, assignments}
use seshatops.Identity.Policy.{allow, gather}
use seshatops.Identity.Sessions.{Session}
use seshatops.Identity.Audit.{inserted, append_decision}
use seshatops.Api.Controls.{Control, authorize_control}
use seshatops.Api.Controls.Recorded.{Recorded, authorize_control-Recorded}

abbrev operators : List Change
operators =
    assigned (record {
      principal_id = lit "op";
      tenant_id = tenant_ns_001_uuid;
      role_id = role_platform_operator;
    })
    ∷ []

abbrev operator : Session
operator = record {
  id = lit "id";
  principal_id = lit "op";
  issuer = lit "https://idp";
  subject = lit "op";
  authenticated_at = 10;
  expires_at = 3600;
  correlation_id = lit "c";
}

abbrev release : Control
release = record {
  tenant_id = tenant_ns_001_uuid;
  resource = lit "RES-QUARANTINE";
  action = lit "ACT-QUARANTINE-RELEASE";
  target_id = lit "event";
}

released :
    (authorize_control inserted
      (some (lit "d1"))
      20
      (directory_after operators)
      (some operator)
      release
      []).0
    ≡ ok tt
unfolding authorize_control append_decision allow gather directory_after assign assignments
    matrix_allows frozen_allow_list str_eq lit
released = refl

authorize_control-Recorded_example :
    Recorded (directory_after operators) (some operator) release [] (
      authorize_control inserted
        (some (lit "d1"))
        20
        (directory_after operators)
        (some operator)
        release
        [])
authorize_control-Recorded_example =
    authorize_control-Recorded operators inserted (some (lit "d1")) 20 (some operator) release []
