-- ===== src/Api/Controls.antt =====
-- `authorizeControl` and `recordDecision` of api/controls.go.
--
-- The hook OnDecision and the observations of the control are left out.
pub mod Recorded
use seshatops.Base.{ℕ, Bool, true, false, Option, none, some, List, [], Bytes, lit, if◌then◌else◌}
use seshatops.Base.Result.{Result, ok, err}
use seshatops.Identity.Sessions.{Session}
use seshatops.Identity.Directory.{Directory}
use seshatops.Identity.Policy.{PolicyError, allow}
use seshatops.Identity.Audit.{
  DecisionRecord, AuditError, Insert, decision_allow, decision_deny, append_decision,
}

-- The answers 401, 403 and 500.
pub data Refusal : Type 0 where
  unauthenticated forbidden audit_failed : Refusal

-- What an operator asks for.
pub record Control : Type 0 where
  pub tenant_id : Bytes
  pub resource : Bytes
  pub action : Bytes
  pub target_id : Bytes

abbrev pub is_nil_error : Result PolicyError (Unit {0}) → Bool
is_nil_error (ok _) = true
is_nil_error (err _) = false

abbrev pub decision_of : Bool → ℕ → Session → Control → DecisionRecord
decision_of allowed now s c = record {
  decision_id = [];
  principal_id = s.principal_id;
  tenant_id = c.tenant_id;
  resource = c.resource;
  action = c.action;
  outcome = if allowed then decision_allow else decision_deny;
  reason = if allowed then lit "matrix_allow" else lit "forbidden";
  target_id = c.target_id;
  recorded_at = now;
}

abbrev pub after_record :
    Bool
    → Result AuditError DecisionRecord × List DecisionRecord
    → Result Refusal (Unit {0}) × List DecisionRecord
after_record allowed (err e, rows) = (err audit_failed, rows)
after_record allowed (ok rec, rows) = (if allowed then ok tt else err forbidden, rows)

-- `authorizeControl`, for the session of the request.
unfoldable pub authorize_control :
    Insert
    → Option Bytes
    → ℕ
    → Directory
    → Option Session
    → Control
    → List DecisionRecord
    → Result Refusal (Unit {0}) × List DecisionRecord
authorize_control how drawn now dir sess c rows = elim sess [
  | none ↦ (err unauthenticated, rows)
  | some s ↦
      let allowed = is_nil_error (allow dir s.principal_id c.tenant_id c.resource c.action) in
      after_record allowed (append_decision how drawn now (decision_of allowed now s c) rows)
]
