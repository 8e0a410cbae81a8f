-- ===== src/Relay/Publish.antt =====
-- `DrainOnce` and `publishOne` of relay/publish.go, on the outbox and the log of the broker.
--
-- Each call of the database or of the broker has an outcome: it succeeds, it fails, or it takes
-- effect and the answer is lost. The hook that only tests set is left out.
pub mod Claims
pub mod Counts
pub mod Delivers
pub mod Drains
pub mod Fleet
pub mod Publishes
pub mod Safe
pub mod Snapshots
pub mod Tests
use seshatops.Base.{
  ℕ, suc, Bool, true, false, ◌||◌, not, List, [], ◌∷◌, ◌++◌, Bytes, lit, str_eq, length,
  if◌then◌else◌,
}
use seshatops.Base.Result.{Result, ok, err}
use seshatops.Event.Text.{EventError, malformed, unsupported, identity_conflict}
use seshatops.Event.Json.{Tokens}
use seshatops.Event.Payload.{Envelope}
use seshatops.Event.Parse.{parse}
use seshatops.Event.Decode.{ParseResult}
use seshatops.Relay.Claim.{
  aggregate_key, OutboxRow, RelayError, database, claim_due, mark_published, quarantine,
  release_transient,
}

pub data CallOutcome : Type 0 where
  answered failed unheard : CallOutcome

-- What the surroundings do while one record is handled.
pub record Turn : Type 0 where
  pub broker : CallOutcome
  pub statement : CallOutcome
  pub now : ℕ

abbrev pub Table : Type 0
Table = List OutboxRow

-- A record of the topic.
pub record LogRecord : Type 0 where
  pub key : Bytes
  pub value : Bytes

pub record Relayed : Type 0 where
  pub rows : Table
  pub log : List LogRecord

abbrev pub Answer : Type 0 → Type 0
Answer A = Result RelayError A

-- One statement, or one transaction, under its outcome.
abbrev pub attempt : {A : Type 0} → CallOutcome → Answer A × Table → Table → Answer A × Table
attempt answered done rows = done
attempt failed done rows = (err database, rows)
attempt unheard done rows = (err database, done.1)

pub data OutcomeKind : Type 0 where
  outcome_published outcome_transient outcome_quarantine outcome_ambiguous : OutcomeKind

-- `Publish`: the record is on the topic before the acknowledgement is.
abbrev pub produced : CallOutcome → LogRecord → List LogRecord → List LogRecord
produced failed r log = log
produced _ r log = log ++ r ∷ []

abbrev pub is_acked : CallOutcome → Bool
is_acked answered = true
is_acked _ = false

abbrev pub error_code : EventError → Bytes
error_code malformed = lit "malformed_envelope"
error_code unsupported = lit "unsupported_contract"
error_code identity_conflict = lit "contract_invalid"

-- The columns of the row disagree with its event.
abbrev pub disagrees : Envelope → OutboxRow → Bool
disagrees env rec =
    not (str_eq env.tenant_id rec.tenant_id)
    || not (str_eq env.aggregate_type rec.aggregate_type)
    || not (str_eq env.aggregate_id rec.aggregate_id)

-- `if qerr != nil { return qerr }`, then the outcome.
abbrev pub settled :
    OutcomeKind → List LogRecord → Answer (Unit {0}) × Table → Answer OutcomeKind × Relayed
settled kind log (ok _, rows) = (ok kind, record { rows = rows; log = log })
settled kind log (err e, rows) = (err e, record { rows = rows; log = log })

-- A record that the broker acknowledged is never reported as failed.
abbrev pub marked : List LogRecord → Answer (Unit {0}) × Table → Answer OutcomeKind × Relayed
marked log (ok _, rows) = (ok outcome_published, record { rows = rows; log = log })
marked log (err e, rows) = (ok outcome_ambiguous, record { rows = rows; log = log })

unfoldable pub park : Bytes → Turn → OutboxRow → Bytes → Relayed → Answer OutcomeKind × Relayed
park owner turn rec code w =
    settled outcome_quarantine w.log
      (attempt turn.statement (quarantine rec.event_id owner code w.rows) w.rows)

-- `Publish`, and what follows it.
unfoldable pub produce :
    CallOutcome → Bytes → Turn → OutboxRow → Envelope → Relayed → Answer OutcomeKind × Relayed
produce broker owner turn rec env w =
    let key = aggregate_key env.tenant_id env.aggregate_type env.aggregate_id in
    let log = produced broker (record { key = key; value = rec.event_bytes }) w.log in
    if is_acked broker
    then marked log (attempt turn.statement (mark_published rec.event_id owner w.rows) w.rows)
    else settled outcome_transient log (
        attempt turn.statement
          (release_transient rec.event_id owner (lit "broker_publish_failed") turn.now w.rows)
          w.rows)

abbrev pub publish_parsed :
    Bytes → Turn → OutboxRow → ParseResult Envelope → Relayed → Answer OutcomeKind × Relayed
publish_parsed owner turn rec (err e) w = park owner turn rec (error_code e) w
publish_parsed owner turn rec (ok env) w =
    if disagrees env rec
    then park owner turn rec (lit "aggregate_key_mismatch") w
    else produce turn.broker owner turn rec env w

-- `DrainResult`
pub record DrainResult : Type 0 where
  pub claimed : ℕ
  pub published : ℕ
  pub transient : ℕ
  pub quarantined : ℕ
  pub ambiguous : ℕ

abbrev pub count : OutcomeKind → DrainResult → DrainResult
count outcome_published out = record out { published = suc out.published }
count outcome_transient out = record out { transient = suc out.transient }
count outcome_quarantine out = record out { quarantined = suc out.quarantined }
count outcome_ambiguous out = record out { ambiguous = suc out.ambiguous }

-- The turn of the next record; with no more of them, nothing goes wrong.
abbrev pub next_turn : List Turn → Turn × List Turn
next_turn [] = (record { broker = answered; statement = answered; now = 0 }, [])
next_turn (t ∷ turns) = (t, turns)

abbrev pub no_drain : ℕ → DrainResult
no_drain n = record { claimed = n; published = 0; transient = 0; quarantined = 0; ambiguous = 0 }

module _ (lower : ℕ → ℕ) (tokens : Bytes → Tokens) where
  -- `publishOne`
  unfoldable pub publish_one : Bytes → Turn → OutboxRow → Relayed → Answer OutcomeKind × Relayed
  publish_one owner turn rec w =
      publish_parsed owner turn rec (parse lower tokens rec.event_bytes) w

  -- The loop: the counts so far come back with an error, too.
  unfoldable pub drain_each :
      Bytes
      → List Turn
      → List OutboxRow
      → DrainResult
      → Relayed
      → DrainResult × Answer (Unit {0}) × Relayed
  drain_each owner turns [] out w = (out, ok tt, w)
  drain_each owner turns (rec ∷ recs) out w =
      let (turn, more) = next_turn turns in
      let (r, w') = publish_one owner turn rec w in
      elim r [ ok kind ↦ drain_each owner more recs (count kind out) w' | err e ↦ (out, err e, w') ]

  abbrev pub drained :
      Bytes
      → List Turn
      → List LogRecord
      → Answer (List OutboxRow) × Table
      → DrainResult × Answer (Unit {0}) × Relayed
  drained owner turns log (err e, rows) = (no_drain 0, err e, record { rows = rows; log = log })
  drained owner turns log (ok recs, rows) =
      drain_each owner turns recs (no_drain (length recs)) (record { rows = rows; log = log })

  -- `DrainOnce`; the first turn is that of the claim.
  unfoldable pub drain_once :
      Bytes → ℕ → ℕ → Turn → List Turn → Relayed → DrainResult × Answer (Unit {0}) × Relayed
  drain_once owner ttl limit first turns w =
      drained owner turns w.log
        (attempt first.statement (claim_due owner ttl limit first.now w.rows) w.rows)
