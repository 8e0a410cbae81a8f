-- ===== src/Api/Controls/Recorded.antt =====
-- Every decision of `authorizeControl` of api/controls.go is on record.
use seshatops.Base.{
  ℕ, ◌≡◌, refl, ◌⊎◌, inl, inr, true, false, Bool, Bool-cases, Option, none, some, List, [], ◌∷◌,
  ◌++◌, Bytes, any_of, str_eq, if◌then◌else◌, arith,
}
use seshatops.Base.Result.{Result, ok, err}
use seshatops.Identity.Sessions.{Session}
use seshatops.Identity.Directory.{Change, Directory, directory_after}
use seshatops.Identity.Policy.{PolicyError, allow}
use seshatops.Identity.Policy.Decides.{IsAllowed, allow_iff}
use seshatops.Identity.Audit.{
  DecisionRecord, AuditError, invalid_decision, Insert, inserted, failed, unheard, is_invalid,
  decision_allow, decision_deny, insert_decision, append_named, append_decision,
}
use seshatops.Api.Controls.{
  Refusal, unauthenticated, forbidden, audit_failed, Control, decision_of, is_nil_error,
  after_record, authorize_control,
}

-- The row has the answer for the session and the control.
pub record IsAbout (s : Session) (c : Control) (answer : Bytes) (r : DecisionRecord) : Type 0 where
  pub principal_id : r.principal_id ≡ s.principal_id
  pub tenant_id : r.tenant_id ≡ c.tenant_id
  pub resource : r.resource ≡ c.resource
  pub action : r.action ≡ c.action
  pub target_id : r.target_id ≡ c.target_id
  pub outcome : r.outcome ≡ answer

-- One row is added at the end.
abbrev Adds : (DecisionRecord → Type 0) → List DecisionRecord → List DecisionRecord → Type 0
Adds P rows rows' = (r : DecisionRecord) × P r × (rows' ≡ rows ++ r ∷ [])

abbrev Appends :
    (DecisionRecord → Type 0)
    → List DecisionRecord
    → Result AuditError DecisionRecord × List DecisionRecord
    → Type 0
Appends P rows (ok _, rows') = Adds P rows rows'
Appends P rows (err _, rows') = (rows' ≡ rows) ⊎ Adds P rows rows'

insert_decision-Appends :
    (P : DecisionRecord → Type 0) (how : Insert) (rec : DecisionRecord) (rows : List DecisionRecord)
    → P rec
    → Appends P rows (insert_decision how rec rows)
insert_decision-Appends P inserted rec rows p =
    elim (Bool-cases (any_of (λ r. str_eq r.decision_id rec.decision_id) rows)) [
      | inl e ↦ rw e (inl refl)
      | inr e ↦ rw e (rec, p, refl)
    ]
insert_decision-Appends P failed rec rows p = inl refl
insert_decision-Appends P unheard rec rows p =
    elim (Bool-cases (any_of (λ r. str_eq r.decision_id rec.decision_id) rows)) [
      | inl e ↦ rw e (inl refl)
      | inr e ↦ rw e (inr (rec, p, refl))
    ]

append_decision-Appends :
    (s : Session) (c : Control) (allowed : Bool) (how : Insert) (drawn : Option Bytes) (now : ℕ)
    (rows : List DecisionRecord)
    → Appends
        (IsAbout s c (if allowed then decision_allow else decision_deny))
        rows
        (append_decision how drawn now (decision_of allowed now s c) rows)
unfolding append_decision
append_decision-Appends s c allowed how drawn now rows =
    checked (is_invalid (decision_of allowed now s c)) drawn
  where
    checked :
        (b : Bool) (d : Option Bytes)
        → Appends (IsAbout s c (if allowed then decision_allow else decision_deny)) rows (
            if b
            then (err invalid_decision, rows)
            else append_named how now d (decision_of allowed now s c) rows)
    checked true d = inl refl
    checked false none = inl refl
    checked false (some id) = insert_decision-Appends _ how _ rows (record {
      principal_id = refl;
      tenant_id = refl;
      resource = refl;
      action = refl;
      target_id = refl;
      outcome = refl;
    })

-- What stands after each answer.
abbrev pub Recorded :
    Directory
    → Option Session
    → Control
    → List DecisionRecord
    → Result Refusal (Unit {0}) × List DecisionRecord
    → Type 0
Recorded dir sess c rows (ok _, rows') =
    (s : Session) × (sess ≡ some s)
    × Adds (IsAbout s c decision_allow) rows rows'
    × IsAllowed dir s.principal_id c.tenant_id c.resource c.action
Recorded dir sess c rows (err forbidden, rows') =
    (s : Session) × (sess ≡ some s)
    × Adds (IsAbout s c decision_deny) rows rows'
    × (IsAllowed dir s.principal_id c.tenant_id c.resource c.action → ⊥)
Recorded dir sess c rows (err unauthenticated, rows') = (sess ≡ none) × (rows' ≡ rows)
Recorded dir sess c rows (err audit_failed, rows') =
    (s : Session) × (sess ≡ some s)
    × ((rows' ≡ rows) ⊎ ((outcome : Bytes) × Adds (IsAbout s c outcome) rows rows'))

nil_error : (x : Result PolicyError (Unit {0})) → is_nil_error x ≡ true → x ≡ ok tt
nil_error (ok tt) h = refl
nil_error (err e) h = cc

nil_ok : (x : Result PolicyError (Unit {0})) → x ≡ ok tt → is_nil_error x ≡ true
nil_ok (ok _) h = refl
nil_ok (err e) h = cc

authorize_session-Recorded :
    (changes : List Change) (s : Session) (c : Control) (rows : List DecisionRecord)
    (allowed : Bool) (x : Result AuditError DecisionRecord × List DecisionRecord)
    → is_nil_error (allow (directory_after changes) s.principal_id c.tenant_id c.resource c.action)
      ≡ allowed
    → Appends (IsAbout s c (if allowed then decision_allow else decision_deny)) rows x
    → Recorded (directory_after changes) (some s) c rows (after_record allowed x)
authorize_session-Recorded changes s c rows allowed (err e, rows') h (inl same) =
    (s, refl, inl same)
authorize_session-Recorded changes s c rows allowed (err e, rows') h (inr adds) =
    (s, refl, inr (_, adds))
authorize_session-Recorded changes s c rows true (ok rec, rows') h adds = (
  s,
  refl,
  adds,
  (allow_iff changes s.principal_id c.tenant_id c.resource c.action).0 (nil_error _ h),
)
authorize_session-Recorded changes s c rows false (ok rec, rows') h adds = (s, refl, adds, refused)
  where
    refused : IsAllowed (directory_after changes) s.principal_id c.tenant_id c.resource c.action → ⊥
    refused a =
        contradiction
          (nil_ok _ ((allow_iff changes s.principal_id c.tenant_id c.resource c.action).1 a))
      where
        contradiction :
            is_nil_error
                (allow (directory_after changes) s.principal_id c.tenant_id c.resource c.action)
              ≡ true
            → ⊥
        contradiction k = ground (arith, h, k)

-- For any directory that assignments and removals gave, a control that authorizeControl lets pass has a
-- session to which the policy grants it, and its allow decision is the last row on record. A forbidden one is
-- not granted, and its deny decision is the last row. Without a session, nothing is recorded, and when the
-- record fails the control is refused. No earlier row changes.
pub authorize_control-Recorded :
    (changes : List Change) (how : Insert) (drawn : Option Bytes) (now : ℕ) (sess : Option Session)
    (c : Control) (rows : List DecisionRecord)
    → Recorded
        (directory_after changes)
        sess
        c
        rows
        (authorize_control how drawn now (directory_after changes) sess c rows)
unfolding authorize_control
authorize_control-Recorded changes how drawn now none c rows = (refl, refl)
authorize_control-Recorded changes how drawn now (some s) c rows =
    let allowed =
      is_nil_error
        (allow (directory_after changes) s.principal_id c.tenant_id c.resource c.action) in
    authorize_session-Recorded changes s c rows allowed
      (append_decision how drawn now (decision_of allowed now s c) rows) refl
      (append_decision-Appends s c allowed how drawn now rows)
