-- ===== src/Event/Validate/Sound.antt =====
-- What `Validate` of event/envelope.go accepts, in the contract's own words.
use seshatops.Base.{
  ℕ, ◌≤◌, Bool, true, false, ◌≡◌, refl, ◌↔◌, not, Option, none, some, Bytes, str_eq_iff,
  str_eq_refl, arith, Option-cases, inl, inr,
}
use seshatops.Base.Int64.{ℤ, pos, negsuc, eqb_ℤ_iff, max_safe_int}
use seshatops.Base.Result.{ok, refuse_if}
use seshatops.Event.Text.{
  malformed, require_utf8, require_uuid, require_lower_uuid, require_time_z, valid_utf8, is_uuid,
  is_lowercase, is_time_z, parses_rfc3339, is_blank,
}
use seshatops.Event.Payload.{
  Envelope, producer_synthetic_erp, family_aggregate_type, aggregate_of, schema_version_v1,
}
use seshatops.Event.Validate.{validate, validate_payload, out_of_range, optional}
use seshatops.Event.Validate.Payloads.{
  IsCanonicalId, canonical_id_lem, PayloadIsValid, validate_against_sound,
  validate_against_complete,
}

-- A counter from 1 to 2^53 - 1.
abbrev pub IsVersion : ℤ → Type 0
IsVersion v = (n : ℕ) × (v ≡ pos n) × (1 ≤ n) × (n ≤ max_safe_int)

IsVersion-sound : (v : ℤ) → out_of_range 1 v ≡ false → IsVersion v
IsVersion-sound (pos n) h = (n, refl, ground arith, ground arith)
IsVersion-sound (negsuc n) h = ground arith

version_complete : (v : ℤ) → IsVersion v → out_of_range 1 v ≡ false
version_complete v (n, e, one, small) = rw e (ground arith)

-- The string, if there is one, passes the test.
abbrev pub Passes : (Bytes → Bool) → Option Bytes → Type 0
Passes test none = Unit
Passes test (some v) = test v ≡ true

abbrev pub IsTimestamp : Bytes → Type 0
IsTimestamp v = (is_time_z v ≡ true) × (parses_rfc3339 v ≡ true)

module _ (lower : ℕ → ℕ) where
  pub record IsText (env : Envelope) : Type 0 where
    pub event_id : valid_utf8 env.event_id ≡ true
    pub tenant_id : valid_utf8 env.tenant_id ≡ true
    pub event_type : valid_utf8 env.event_type ≡ true
    pub aggregate_type : valid_utf8 env.aggregate_type ≡ true
    pub aggregate_id : valid_utf8 env.aggregate_id ≡ true
    pub occurred_at : valid_utf8 env.occurred_at ≡ true
    pub recorded_at : valid_utf8 env.recorded_at ≡ true
    pub producer : valid_utf8 env.producer ≡ true
    pub correlation_id : valid_utf8 env.correlation_id ≡ true
    pub causation_id : Passes valid_utf8 env.causation_id
    pub trace_id : valid_utf8 env.trace_id ≡ true

  pub record IsEnvelope (env : Envelope) : Type 0 where
    pub text : IsText env
    pub event_uuid : is_uuid env.event_id ≡ true
    pub tenant_uuid : is_uuid env.tenant_id ≡ true
    pub tenant_lower : is_lowercase lower env.tenant_id ≡ true
    pub family : aggregate_of env.event_type ≡ some env.aggregate_type
    pub schema : env.event_schema_version ≡ schema_version_v1
    pub aggregate : IsCanonicalId lower env.aggregate_id
    pub version : IsVersion env.aggregate_version
    pub occurred : IsTimestamp env.occurred_at
    pub recorded : IsTimestamp env.recorded_at
    pub producer_name : env.producer ≡ producer_synthetic_erp
    pub correlation_uuid : is_uuid env.correlation_id ≡ true
    pub causation_uuid : Passes is_uuid env.causation_id
    pub traced : is_blank env.trace_id ≡ false
    pub payload_valid : PayloadIsValid lower env.payload env

  family_sound :
      (env : Envelope)
      → validate lower env ≡ ok tt
      → aggregate_of env.event_type ≡ some env.aggregate_type
  unfolding validate family_aggregate_type
  family_sound env h = elim (Option-cases (aggregate_of env.event_type)) [
    | inl e ↦ ground (arith, e)
    | inr (agg, e) ↦ ground (arith, e, str_eq_iff env.aggregate_type agg)
  ]

  pub validate_sound : (env : Envelope) → validate lower env ≡ ok tt → IsEnvelope env
  unfolding validate require_utf8 require_uuid require_lower_uuid require_time_z
      family_aggregate_type validate_payload
  validate_sound env h = record {
    text = ground arith;
    event_uuid = ground arith;
    tenant_uuid = ground arith;
    tenant_lower = ground arith;
    family = family_sound env h;
    schema = ground (arith, eqb_ℤ_iff env.event_schema_version schema_version_v1);
    aggregate = (canonical_id_lem lower env.aggregate_id).0 (ground arith);
    version = IsVersion-sound env.aggregate_version (ground arith);
    occurred = ground arith;
    recorded = ground arith;
    producer_name = ground (arith, str_eq_iff env.producer producer_synthetic_erp);
    correlation_uuid = ground arith;
    causation_uuid = ground arith;
    traced = ground arith;
    payload_valid = validate_against_sound lower env.payload env (ground arith);
  }

  Passes-check :
      (test : Bytes → Bool) (v : Option Bytes)
      → Passes test v
      → optional (λ s. refuse_if (not (test s)) malformed) v ≡ ok tt
  Passes-check test none h = refl
  Passes-check test (some v) h = ground arith

  pub validate_complete : (env : Envelope) → IsEnvelope env → validate lower env ≡ ok tt
  unfolding validate require_utf8 require_uuid require_lower_uuid require_time_z
      family_aggregate_type validate_payload
  validate_complete env h = ground (
    arith,
    eqb_ℤ_iff env.event_schema_version schema_version_v1,
    str_eq_refl env.aggregate_type,
    str_eq_iff env.producer producer_synthetic_erp,
    (canonical_id_lem lower env.aggregate_id).1 h.aggregate,
    version_complete env.aggregate_version h.version,
    validate_against_complete lower env.payload env h.payload_valid,
  )

  -- `Validate` accepts exactly the envelopes of the contract: every string is UTF-8, the identifiers
  -- are UUIDs or canonical, the aggregate type is that of the event type at schema version 1, the
  -- version lies in 1 to 2^53 - 1, the timestamps are RFC 3339 in UTC, and the payload belongs to the
  -- event type, names the aggregate and, for a decrement, conserves the quantity.
  pub validate_iff : (env : Envelope) → (validate lower env ≡ ok tt) ↔ IsEnvelope env
  validate_iff env = (validate_sound env, validate_complete env)
