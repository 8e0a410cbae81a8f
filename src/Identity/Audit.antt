-- ===== src/Identity/Audit.antt =====
-- `AppendDecision` of identity/audit.go, on the rows of identity.authorization_decisions.
use seshatops.Base.{
  ℕ, Bool, ◌||◌, ◌&&◌, not, Option, none, some, List, [], ◌∷◌, ◌++◌, Bytes, lit, str_eq, ◌==◌,
  if◌then◌else◌, any_of,
}
use seshatops.Base.Result.{Result, ok, err}
use seshatops.Event.Text.{is_empty}

-- `DecisionRecord`; zero stands for the zero time.
pub record DecisionRecord : Type 0 where
  pub decision_id : Bytes
  pub principal_id : Bytes
  pub tenant_id : Bytes
  pub resource : Bytes
  pub action : Bytes
  pub outcome : Bytes
  pub reason : Bytes
  pub target_id : Bytes
  pub recorded_at : ℕ

-- How the INSERT ends: the row is there and the answer came, it is not there, or the answer is lost.
pub data Insert : Type 0 where
  inserted failed unheard : Insert

pub data AuditError : Type 0 where
  invalid_decision random_failed database : AuditError

abbrev pub decision_allow : Bytes
decision_allow = lit "allow"

abbrev pub decision_deny : Bytes
decision_deny = lit "deny"

-- The refusals before the database is reached.
abbrev pub is_invalid : DecisionRecord → Bool
is_invalid rec =
    (is_empty rec.principal_id
      || is_empty rec.tenant_id
      || is_empty rec.resource
      || is_empty rec.action)
    || (not (str_eq rec.outcome decision_allow) && not (str_eq rec.outcome decision_deny))
    || is_empty rec.reason

abbrev pub or_drawn_id : Option Bytes → Bytes → Option Bytes
or_drawn_id drawn id = if is_empty id then drawn else some id

abbrev pub insert_decision :
    Insert
    → DecisionRecord
    → List DecisionRecord
    → Result AuditError DecisionRecord × List DecisionRecord
insert_decision inserted rec rows =
    if any_of (λ r. str_eq r.decision_id rec.decision_id) rows
    then (err database, rows)
    else (ok rec, rows ++ rec ∷ [])
insert_decision failed rec rows = (err database, rows)
insert_decision unheard rec rows =
    if any_of (λ r. str_eq r.decision_id rec.decision_id) rows
    then (err database, rows)
    else (err database, rows ++ rec ∷ [])

abbrev pub append_named :
    Insert
    → ℕ
    → Option Bytes
    → DecisionRecord
    → List DecisionRecord
    → Result AuditError DecisionRecord × List DecisionRecord
append_named how now none rec rows = (err random_failed, rows)
append_named how now (some id) rec rows =
    insert_decision how
      (record rec {
        decision_id = id;
        recorded_at = if rec.recorded_at == 0 then now else rec.recorded_at;
      })
      rows

-- `AppendDecision`
unfoldable pub append_decision :
    Insert
    → Option Bytes
    → ℕ
    → DecisionRecord
    → List DecisionRecord
    → Result AuditError DecisionRecord × List DecisionRecord
append_decision how drawn now rec rows =
    if is_invalid rec
    then (err invalid_decision, rows)
    else append_named how now (or_drawn_id drawn rec.decision_id) rec rows
