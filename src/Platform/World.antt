-- ===== src/Platform/World.antt =====
-- The tables of platform/migrate.sql, the rows of platform/process.go and platform/lineage.go, and
-- the surroundings of one consumer process.
--
-- `consumer_name` is one constant in every statement, and the `created_at` and `updated_at` columns
-- are read by nothing that is modelled here: both are left out.
use seshatops.Base.{ℕ, Option, List, [], Bytes}
use seshatops.Base.Int64.{ℤ}

-- The values that the CHECK of `platform.inbox` admits.
pub data Disposition : Type 0 where
  applied duplicate_noop quarantined_conflict quarantined_gap quarantined_stale : Disposition
  quarantined_invalid quarantined_mismatch quarantined_transition : Disposition

-- The sentinel errors that a caller tells apart; `exhausted` is the fuel of `redrive_gaps` run out.
pub data PlatformError : Type 0 where
  transient handler_poison poison malformed unsupported exhausted : PlatformError

pub record InboxRow : Type 0 where
  pub event_id : Bytes
  pub tenant_id : Bytes
  pub content_hash : Bytes
  pub aggregate_type : Bytes
  pub aggregate_id : Bytes
  pub aggregate_version : ℤ
  pub disposition : Disposition
  pub expected_version : Option ℤ
  pub received_version : Option ℤ
  pub event_bytes : Option Bytes

pub record ProjectionRow : Type 0 where
  pub tenant_id : Bytes
  pub item_id : Bytes
  pub quantity_on_hand : ℤ
  pub aggregate_version : ℤ

-- The four lineage tables share this shape; a column that a table lacks is empty.
pub record HopRow : Type 0 where
  pub tenant_id : Bytes
  pub id : Bytes
  pub parent_id : Bytes
  pub item_id : Bytes
  pub order_id : Bytes
  pub aggregate_version : ℤ
  pub source_event_id : Bytes
  pub event_schema_version : ℤ
  pub occurred_at : Bytes
  pub recorded_at : Bytes
  pub correlation_id : Bytes
  pub causation_id : Option Bytes
  pub trace_id : Bytes

pub data Hop : Type 0 where
  supplier lot batch shipment : Hop

-- `SourcePosition`
pub record Position : Type 0 where
  pub topic : Bytes
  pub partition : ℤ
  pub offset : ℤ

pub data QuarantineStatus : Type 0 where
  retrying quarantined : QuarantineStatus

pub record FailureRow : Type 0 where
  pub failure_id : Bytes
  pub event_id : Option Bytes
  pub tenant_id : Option Bytes
  pub aggregate_type : Option Bytes
  pub aggregate_id : Option Bytes
  pub aggregate_version : Option ℤ
  pub event_schema_version : Option ℤ
  pub event_type : Option Bytes
  pub failure_category : Bytes
  pub content_hash : Option Bytes
  pub received_bytes_hash : Option Bytes
  pub source : Position
  pub attempt_count : ℕ
  pub diagnostic_code : Bytes
  pub quarantine_status : QuarantineStatus

pub record Db : Type 0 where
  pub inbox : List InboxRow
  pub inventory : List ProjectionRow
  pub suppliers : List HopRow
  pub lots : List HopRow
  pub batches : List HopRow
  pub shipments : List HopRow
  pub failures : List FailureRow

abbrev pub empty_db : Db
empty_db = record {
  inbox = [];
  inventory = [];
  suppliers = [];
  lots = [];
  batches = [];
  shipments = [];
  failures = [];
}

-- What a call of the database driver does: it succeeds, it fails, or, for a commit, it takes effect
-- and the answer is lost.
pub data Outcome : Type 0 where
  succeeds fails unheard : Outcome

-- `AppliedUpdate`, what `notifyApplied` hands to the subscribers.
pub record AppliedUpdate : Type 0 where
  pub tenant_id : Bytes
  pub item_id : Bytes
  pub quantity_on_hand : ℤ
  pub aggregate_version : ℤ
  pub event_id : Bytes

-- The database, the updates announced so far, the outcomes of the next database calls (past the end
-- of the list all succeed), and the identifiers that the random source will give (none left: the
-- read of the source fails).
pub record World : Type 0 where
  pub db : Db
  pub notified : List AppliedUpdate
  pub outcomes : List Outcome
  pub fresh_ids : List Bytes

abbrev pub quiet_world : Db → World
quiet_world db = record { db = db; notified = []; outcomes = []; fresh_ids = [] }
