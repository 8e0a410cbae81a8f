-- ===== src/Platform/Failure.antt =====
-- `platform.processing_failures`: the parse failures and the attempt budget of platform/process.go.
--
-- `recovered` stands for `recoveredParseIdentity`, which reads the identity fields of a malformed
-- input by `json.Unmarshal`; `hash_of` is the hexadecimal SHA-256 of the received bytes. The random
-- identifier of a new row comes from the list `fresh_ids`.
pub mod Budget
pub mod Refines
use seshatops.Base.{
  ℕ, zero, suc, Bool, true, false, ◌&&◌, Option, none, some, List, [], ◌∷◌, ◌++◌, Bytes, lit,
  str_eq, leb, if◌then◌else◌,
}
use seshatops.Base.Int64.{ℤ, eqb_ℤ}
use seshatops.Base.Table.{select_row, update_where, upsert}
use seshatops.Base.Result.{Result, ok, err}
use seshatops.Event.Text.{EventError, unsupported}
use seshatops.Event.Payload.{Envelope}
use seshatops.Event.Decode.{ParseResult}
use seshatops.Event.Canonical.{content_hash}
use seshatops.Platform.World.{
  Position, FailureRow, QuarantineStatus, retrying, quarantined, Db, World, transient,
}
use seshatops.Platform.Monad.{M, pure, raise, ◌>>=◌, ◌>>◌, exec, exec_returning, transact}

abbrev pub max_handler_attempts : ℕ
max_handler_attempts = 5

-- The envelope columns of a failure row.
pub record Identity : Type 0 where
  pub event_id : Option Bytes
  pub tenant_id : Option Bytes
  pub aggregate_type : Option Bytes
  pub aggregate_id : Option Bytes
  pub aggregate_version : Option ℤ
  pub event_schema_version : Option ℤ
  pub event_type : Option Bytes

-- WHERE source_topic, source_partition, source_offset
abbrev pub is_source : Position → FailureRow → Bool
is_source p row =
    str_eq row.source.topic p.topic
    && eqb_ℤ row.source.partition p.partition
    && eqb_ℤ row.source.offset p.offset

abbrev pub non_empty : Bytes → Option Bytes
non_empty [] = none
non_empty (b ∷ s) = some (b ∷ s)

abbrev pub failure_row :
    Identity
    → Bytes
    → Option Bytes
    → Bytes
    → Position
    → Bytes
    → QuarantineStatus
    → Bytes
    → FailureRow
failure_row who category hash received pos code status id = record {
  failure_id = id;
  event_id = who.event_id;
  tenant_id = who.tenant_id;
  aggregate_type = who.aggregate_type;
  aggregate_id = who.aggregate_id;
  aggregate_version = who.aggregate_version;
  event_schema_version = who.event_schema_version;
  event_type = who.event_type;
  failure_category = category;
  content_hash = hash;
  received_bytes_hash = non_empty received;
  source = pos;
  attempt_count = 1;
  diagnostic_code = code;
  quarantine_status = status;
}

unfoldable pub find_failure : Position → Db → Option FailureRow
find_failure p db = select_row (is_source p) db.failures

-- ON CONFLICT DO UPDATE: one more attempt, the new code and category; the status stays.
abbrev pub merge_failure : FailureRow → FailureRow → FailureRow
merge_failure new old = record old {
  failure_category = new.failure_category;
  attempt_count = suc old.attempt_count;
  diagnostic_code = new.diagnostic_code;
}

unfoldable pub put_failure : FailureRow → Db → Db
put_failure row db = record db {
  failures = upsert (is_source row.source) (merge_failure row) row db.failures;
}

-- RETURNING attempt_count
abbrev pub attempts_after : Option FailureRow → ℕ
attempts_after none = 1
attempts_after (some old) = suc old.attempt_count

unfoldable pub next_id : List Bytes → M Bytes
next_id [] w = (err transient, w)
next_id (id ∷ rest) w = (ok id, record w { fresh_ids = rest })

unfoldable pub new_failure_id : M Bytes
unfolding next_id
new_failure_id w = next_id w.fresh_ids w

unfoldable pub upsert_failure_returning : (Bytes → FailureRow) → M ℕ
upsert_failure_returning row = do
  id ← new_failure_id
  exec_returning (λ db. attempts_after (find_failure (row id).source db)) (put_failure (row id))

unfoldable pub set_quarantined : Position → Db → Db
set_quarantined p db = record db {
  failures =
      update_where (is_source p) (λ r. record r { quarantine_status = quarantined }) db.failures;
}

-- What a delivery that is not decided in the inbox comes to.
pub data Handled : Type 0 where
  -- acknowledged, recorded as a failure
  parked : Handled
  -- to be delivered again
  retry : Handled
  -- acknowledged with `ErrPoison`
  poisoned : Handled

unfoldable pub failure_code : EventError → Bytes
failure_code unsupported = lit "unsupported_contract"
failure_code _ = lit "malformed_envelope"

module _ (hash : Bytes → Bytes) where
  -- `persistParseFailure`
  unfoldable pub persist_parse_failure : Identity → Bytes → Position → EventError → M Handled
  persist_parse_failure recovered value pos e = do
    _ ← transact (
        upsert_failure_returning (
          failure_row recovered (failure_code e) none (hash value) pos (failure_code e)
            quarantined))
    pure parked

  abbrev pub known : ParseResult Bytes → Option Bytes
  known (ok h) = some h
  known (err _) = none

  module _ (lower : ℕ → ℕ) where
    -- `failureIdentity`
    abbrev pub identity_of : Envelope → Identity
    identity_of env = record {
      event_id = some env.event_id;
      tenant_id = some env.tenant_id;
      aggregate_type = some env.aggregate_type;
      aggregate_id = some env.aggregate_id;
      aggregate_version = some env.aggregate_version;
      event_schema_version = some env.event_schema_version;
      event_type = some env.event_type;
    }

    -- `persistConsumerUnsupported`
    unfoldable pub persist_consumer_unsupported : Envelope → Bytes → Position → M Handled
    persist_consumer_unsupported env value pos = do
      _ ← transact (
          upsert_failure_returning (
            failure_row (identity_of env) (lit "unsupported_contract")
              (known (content_hash lower hash env)) (hash value) pos (lit "unsupported_contract")
              quarantined))
      pure parked

    unfoldable pub poison_attempt : Envelope → Bytes → Position → Bytes → M Handled
    poison_attempt env value pos code = do
      attempts ← upsert_failure_returning (
          failure_row (identity_of env) (lit "handler_poison") (known (content_hash lower hash env))
            (hash value) pos code retrying)
      if leb max_handler_attempts attempts
          then (do exec (set_quarantined pos); pure poisoned)
          else pure retry

    -- `bumpPoisonAttempt`
    unfoldable pub bump_poison_attempt : Envelope → Bytes → Position → Bytes → M Handled
    bump_poison_attempt env value pos code = transact (poison_attempt env value pos code)
