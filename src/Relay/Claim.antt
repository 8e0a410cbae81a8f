-- ===== src/Relay/Claim.antt =====
-- `ClaimDue`, `MarkPublished`, `ReleaseTransient`, `Quarantine` and `ReleaseQuarantined` of
-- relay/claim.go.
--
-- The rows stand in the order of created_at. One claim runs at a time, and times are milliseconds of
-- the database clock, which each operation is given.
use seshatops.Base.{
  ℕ, suc, ◌+◌, ◌*◌, Bool, true, false, ◌&&◌, ◌||◌, Option, none, some, List, [], ◌∷◌, ◌++◌, Bytes,
  lit, str_eq, leb, ◌==◌, if◌then◌else◌, take, select, map,
}
use seshatops.Base.Int64.{ℤ}
use seshatops.Base.Table.{update_where, count_where}
use seshatops.Base.Result.{Result, ok, err}
use seshatops.Event.Text.{is_empty}
use seshatops.Relay.Backoff.{sql_backoff}

pub data Status : Type 0 where
  pending publishing published quarantined : Status

-- `Record`
pub record OutboxRow : Type 0 where
  pub event_id : Bytes
  pub tenant_id : Bytes
  pub aggregate_type : Bytes
  pub aggregate_id : Bytes
  pub aggregate_version : ℤ
  pub content_hash : Bytes
  pub event_bytes : Bytes
  pub status : Status
  pub publish_attempts : ℕ
  pub last_error_code : Option Bytes
  pub lease_owner : Option Bytes
  pub lease_expires_at : Option ℕ

-- `AggregateKey`
unfoldable pub aggregate_key : Bytes → Bytes → Bytes → Bytes
aggregate_key tenant type id = tenant ++ lit "/" ++ type ++ lit "/" ++ id

pub data RelayError : Type 0 where
  owner_required unexpected_rows out_of_range quarantine_not_found database : RelayError

abbrev pub is_open : Status → Bool
is_open pending = true
is_open publishing = true
is_open _ = false

abbrev pub is_publishing : Status → Bool
is_publishing publishing = true
is_publishing _ = false

abbrev pub is_quarantined : Status → Bool
is_quarantined quarantined = true
is_quarantined _ = false

abbrev pub is_expired : ℕ → Option ℕ → Bool
is_expired now none = true
is_expired now (some t) = leb t now

-- The WHERE clause of the claim.
abbrev pub is_due : ℕ → OutboxRow → Bool
is_due now row = is_open row.status && is_expired now row.lease_expires_at

abbrev pub has_id : Bytes → OutboxRow → Bool
has_id id row = str_eq row.event_id id

abbrev pub lease : Bytes → ℕ → OutboxRow → OutboxRow
lease owner expires row = record row {
  status = publishing;
  lease_owner = some owner;
  lease_expires_at = some expires;
  publish_attempts = suc row.publish_attempts;
}

-- The UPDATE of each claimed row.
unfoldable pub claim_each : Bytes → ℕ → List OutboxRow → List OutboxRow → List OutboxRow
claim_each owner expires [] rows = rows
claim_each owner expires (c ∷ cs) rows =
    claim_each owner expires cs (update_where (has_id c.event_id) (lease owner expires) rows)

abbrev pub default_lease_ttl : ℕ
default_lease_ttl = 30000

abbrev pub ttl_or_default : ℕ → ℕ
ttl_or_default ttl = if ttl == 0 then default_lease_ttl else ttl

abbrev pub due_rows : ℕ → ℕ → List OutboxRow → List OutboxRow
due_rows limit now rows = take (if limit == 0 then 1 else limit) (select (is_due now) rows)

-- `ClaimDue`: the claimed rows, and the table.
unfoldable pub claim_due :
    Bytes → ℕ → ℕ → ℕ → List OutboxRow → Result RelayError (List OutboxRow) × List OutboxRow
claim_due owner ttl limit now rows =
    let claimed = due_rows limit now rows in
    if is_empty owner then (err owner_required, rows) else (
      ok (map (lease owner (now + ttl_or_default ttl)) claimed),
      claim_each owner (now + ttl_or_default ttl) claimed rows,
    )

abbrev is_owner : Bytes → Option Bytes → Bool
is_owner owner none = false
is_owner owner (some o) = str_eq o owner

-- WHERE event_id = $1 AND status = 'publishing' AND publish_lease_owner = $2
abbrev pub is_held : Bytes → Bytes → OutboxRow → Bool
is_held id owner row = has_id id row && is_publishing row.status && is_owner owner row.lease_owner

-- An UPDATE that should affect one row.
abbrev pub affect_one :
    RelayError
    → (OutboxRow → Bool)
    → (OutboxRow → OutboxRow)
    → List OutboxRow
    → Result RelayError (Unit {0}) × List OutboxRow
affect_one e p f rows = (if count_where p rows == 1 then ok tt else err e, update_where p f rows)

abbrev pub freed : Status → Option ℕ → Option Bytes → OutboxRow → OutboxRow
freed status expires code row = record row {
  status = status;
  lease_owner = none;
  lease_expires_at = expires;
  last_error_code = code;
}

unfoldable pub mark_published :
    Bytes → Bytes → List OutboxRow → Result RelayError (Unit {0}) × List OutboxRow
mark_published id owner rows =
    affect_one unexpected_rows (is_held id owner) (freed published none none) rows

unfoldable pub quarantine :
    Bytes → Bytes → Bytes → List OutboxRow → Result RelayError (Unit {0}) × List OutboxRow
quarantine id owner code rows =
    affect_one unexpected_rows (is_held id owner) (freed quarantined none (some code)) rows

abbrev pub delay_row : ℕ → Bytes → Option ℕ → OutboxRow → OutboxRow
delay_row now code none row = row
delay_row now code (some d) row = freed pending (some (now + d * 1000)) (some code) row

-- The change of one row; a row whose delay is out of range fails the statement, below.
abbrev pub delayed : ℕ → Bytes → OutboxRow → OutboxRow
delayed now code row = delay_row now code (sql_backoff row.publish_attempts) row

abbrev pub overflows : ℕ → Bool
overflows attempts = elim (sql_backoff attempts) [ none ↦ true | some _ ↦ false ]

unfoldable pub release_transient :
    Bytes → Bytes → Bytes → ℕ → List OutboxRow → Result RelayError (Unit {0}) × List OutboxRow
release_transient id owner code now rows =
    if count_where (λ r. is_held id owner r && overflows r.publish_attempts) rows == 0
    then affect_one unexpected_rows (is_held id owner) (delayed now code) rows
    else (err out_of_range, rows)

-- WHERE event_id = $1 AND tenant_id = $2 AND status = 'quarantined'
abbrev pub is_parked : Bytes → Bytes → OutboxRow → Bool
is_parked tenant id row = has_id id row && str_eq row.tenant_id tenant && is_quarantined row.status

abbrev pub retried : OutboxRow → OutboxRow
retried row = record row { status = pending; lease_owner = none; lease_expires_at = none }

unfoldable pub release_quarantined :
    Bytes → Bytes → List OutboxRow → Result RelayError (Unit {0}) × List OutboxRow
release_quarantined tenant id rows =
    if is_empty tenant || is_empty id
    then (err quarantine_not_found, rows)
    else affect_one quarantine_not_found (is_parked tenant id) retried rows
