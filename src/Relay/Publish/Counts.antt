-- ===== src/Relay/Publish/Counts.antt =====
-- The counts of `DrainOnce` of relay/publish.go.
use seshatops.Base.{
  ℕ, zero, suc, ◌+◌, ◌≤◌, ◌≡◌, refl, ap, inl, inr, Bool, true, false, Bool-cases, List, [], ◌∷◌,
  ◌++◌, map, Bytes, length, length-append, ◌==◌, if◌then◌else◌, arith, select, take,
}
use seshatops.Base.Result.{ok, err}
use seshatops.Event.Text.{is_empty}
use seshatops.Event.Json.{Tokens}
use seshatops.Event.Payload.{Envelope}
use seshatops.Event.Parse.{parse}
use seshatops.Event.Decode.{ParseResult}
use seshatops.Relay.Claim.{
  OutboxRow, RelayError, lease, due_rows, claim_due, ttl_or_default, aggregate_key, is_due,
}
use seshatops.Relay.Publish.{
  LogRecord, Relayed, Table, Turn, CallOutcome, answered, failed, unheard, attempt, produced,
  Answer, OutcomeKind, settled, marked, park, produce, disagrees, publish_parsed, publish_one,
  outcome_quarantine, outcome_transient, outcome_published, outcome_ambiguous, DrainResult, count,
  no_drain, drain_each, drained, drain_once, next_turn,
}

abbrev pub handled : DrainResult → ℕ
handled out = out.published + out.transient + out.quarantined + out.ambiguous

-- The rows of which the broker has acknowledged the record.
abbrev pub acked : DrainResult → ℕ
acked out = out.published + out.ambiguous

-- One record at most, and one for each outcome that rests on an acknowledgement.
abbrev Sends : ℕ → Answer OutcomeKind × Relayed → Type 0
Sends before (ok outcome_published, w) = length w.log ≡ suc before
Sends before (ok outcome_ambiguous, w) = length w.log ≡ suc before
Sends before (_, w) = (before ≤ length w.log) × (length w.log ≤ suc before)

parked-Sends :
    (log : List LogRecord) (x : Answer (Unit {0}) × Table)
    → Sends (length log) (settled outcome_quarantine log x)
parked-Sends log (ok _, rows) = omega arith
parked-Sends log (err e, rows) = omega arith

released-Sends :
    (o : CallOutcome) (l : LogRecord) (log : List LogRecord) (x : Answer (Unit {0}) × Table)
    → Sends (length log) (settled outcome_transient (produced o l log) x)
released-Sends answered l log (ok _, rows) = omega (arith, length-append log (l ∷ []))
released-Sends answered l log (err e, rows) = omega (arith, length-append log (l ∷ []))
released-Sends failed l log (ok _, rows) = omega arith
released-Sends failed l log (err e, rows) = omega arith
released-Sends unheard l log (ok _, rows) = omega (arith, length-append log (l ∷ []))
released-Sends unheard l log (err e, rows) = omega (arith, length-append log (l ∷ []))

marked-Sends :
    (l : LogRecord) (log : List LogRecord) (x : Answer (Unit {0}) × Table)
    → Sends (length log) (marked (log ++ l ∷ []) x)
marked-Sends l log (ok _, rows) = omega (arith, length-append log (l ∷ []))
marked-Sends l log (err e, rows) = omega (arith, length-append log (l ∷ []))

abbrev sent : OutboxRow → Envelope → LogRecord
sent rec env = record {
  key = aggregate_key env.tenant_id env.aggregate_type env.aggregate_id;
  value = rec.event_bytes;
}

produce-Sends :
    (o : CallOutcome) (owner : Bytes) (turn : Turn) (rec : OutboxRow) (env : Envelope) (w : Relayed)
    → Sends (length w.log) (produce o owner turn rec env w)
unfolding produce
produce-Sends answered owner turn rec env w = marked-Sends (sent rec env) w.log _
produce-Sends failed owner turn rec env w = released-Sends failed (sent rec env) w.log _
produce-Sends unheard owner turn rec env w = released-Sends unheard (sent rec env) w.log _

publish_parsed-Sends :
    (owner : Bytes) (turn : Turn) (rec : OutboxRow) (p : ParseResult Envelope) (w : Relayed)
    → Sends (length w.log) (publish_parsed owner turn rec p w)
unfolding park
publish_parsed-Sends owner turn rec (err e) w = parked-Sends w.log _
publish_parsed-Sends owner turn rec (ok env) w = elim (Bool-cases (disagrees env rec)) [
  | inl e ↦ rw e (parked-Sends w.log _)
  | inr e ↦ rw e (produce-Sends turn.broker owner turn rec env w)
]

-- What a loop over `n` records has done, from the counts `out` and a log of length `before`.
abbrev Accounts : ℕ → DrainResult → ℕ → DrainResult × Answer (Unit {0}) × Relayed → Type 0
Accounts n out before (out', r, w') =
    (out'.claimed ≡ out.claimed)
    × (handled out' ≤ handled out + n)
    × (r ≡ ok tt → handled out' ≡ handled out + n)
    × (before + acked out' ≤ length w'.log + acked out)
    × (length w'.log ≤ before + n)

Accounts-count :
    (kind : OutcomeKind) (n : ℕ) (out : DrainResult) (before : ℕ) (w : Relayed)
    (x : DrainResult × Answer (Unit {0}) × Relayed)
    → Sends before (ok kind, w)
    → Accounts n (count kind out) (length w.log) x
    → Accounts (suc n) out before x
Accounts-count outcome_published n out before w (out', r, w') s (c, most, all, sent, few) =
    (c, omega arith, λ e. omega (arith, all e), omega arith, omega arith)
Accounts-count outcome_transient n out before w (out', r, w') s (c, most, all, sent, few) =
    (c, omega arith, λ e. omega (arith, all e), omega arith, omega arith)
Accounts-count outcome_quarantine n out before w (out', r, w') s (c, most, all, sent, few) =
    (c, omega arith, λ e. omega (arith, all e), omega arith, omega arith)
Accounts-count outcome_ambiguous n out before w (out', r, w') s (c, most, all, sent, few) =
    (c, omega arith, λ e. omega (arith, all e), omega arith, omega arith)

Accounts-err :
    (e : RelayError) (n : ℕ) (out : DrainResult) (before : ℕ) (w : Relayed)
    → Sends before (err e, w)
    → Accounts (suc n) out before (out, err e, w)
Accounts-err e n out before w s = (refl, omega arith, λ h. cc, omega arith, omega arith)

-- The claimed rows are no more than the limit.
abbrev IsBounded : ℕ → Answer (List OutboxRow) → Type 0
IsBounded n (ok recs) = length recs ≤ n
IsBounded n (err e) = Unit

length-map-lease :
    (owner : Bytes) (expires : ℕ) (rows : Table)
    → length (map (lease owner expires) rows) ≡ length rows
length-map-lease owner expires [] = refl
length-map-lease owner expires (r ∷ rows) = ap suc (length-map-lease owner expires rows)

length-take_le : (n : ℕ) (rows : Table) → length (take n rows) ≤ n
length-take_le zero rows = omega arith
length-take_le (suc n) [] = omega arith
length-take_le (suc n) (r ∷ rows) = omega (arith, length-take_le n rows)

if-IsBounded :
    (b : Bool) (n : ℕ) (x y : Answer (List OutboxRow) × Table)
    → IsBounded n x.0
    → IsBounded n y.0
    → IsBounded n (if b then x else y).0
if-IsBounded true n x y p q = p
if-IsBounded false n x y p q = q

claim_due-IsBounded :
    (owner : Bytes) (ttl limit now : ℕ) (rows : Table)
    → IsBounded (if limit == 0 then 1 else limit) (claim_due owner ttl limit now rows).0
unfolding claim_due
claim_due-IsBounded owner ttl limit now rows =
    if-IsBounded (is_empty owner) (if limit == 0 then 1 else limit) _ _ tt (
      omega (
        arith,
        length-map-lease owner (now + ttl_or_default ttl) (due_rows limit now rows),
        length-take_le (if limit == 0 then 1 else limit) (select (is_due now) rows),
      ))

attempt-IsBounded :
    (o : CallOutcome) (n : ℕ) (done : Answer (List OutboxRow) × Table) (rows : Table)
    → IsBounded n done.0
    → IsBounded n (attempt o done rows).0
attempt-IsBounded answered n done rows h = h
attempt-IsBounded failed n done rows h = tt
attempt-IsBounded unheard n done rows h = tt

module _ (lower : ℕ → ℕ) (tokens : Bytes → Tokens) where
  drain_each-Accounts :
      (owner : Bytes) (turns : List Turn) (recs : List OutboxRow) (out : DrainResult) (w : Relayed)
      → Accounts (length recs) out (length w.log) (drain_each lower tokens owner turns recs out w)
  unfolding drain_each publish_one
  drain_each-Accounts owner turns [] out w =
      (refl, omega arith, λ _. omega arith, omega arith, omega arith)
  drain_each-Accounts owner turns (rec ∷ recs) out w =
      let (turn, more) = next_turn turns in
      go (publish_one lower tokens owner turn rec w)
        (publish_parsed-Sends owner turn rec (parse lower tokens rec.event_bytes) w)
        (drain_each-Accounts owner more recs)
    where
      go :
          (x : Answer OutcomeKind × Relayed)
          → Sends (length w.log) x
          → ((out' : DrainResult) (w' : Relayed)
              → Accounts
                  (length recs)
                  out'
                  (length w'.log)
                  (drain_each lower tokens owner (next_turn turns).1 recs out' w'))
          → Accounts (suc (length recs)) out (length w.log) (elim (x.0) [
            | ok kind ↦ drain_each lower tokens owner (next_turn turns).1 recs (count kind out) x.1
            | err e ↦ (out, err e, x.1)
          ])
      go (ok kind, w') s ih =
          Accounts-count kind (length recs) out (length w.log) w'
            (drain_each lower tokens owner (next_turn turns).1 recs (count kind out) w') s
            (ih (count kind out) w')
      go (err e, w') s ih = Accounts-err e (length recs) out (length w.log) w' s

  -- A drain claims `limit` rows at most (one, for a limit of 0), and handles each of them once if it
  -- succeeds. It sends one record at most for each row that it claimed, and one for each row that it
  -- reports as published or as ambiguous.
  pub drain_once-counts :
      (owner : Bytes) (ttl limit : ℕ) (first : Turn) (turns : List Turn) (w : Relayed)
      → let (out, r, w') = drain_once lower tokens owner ttl limit first turns w in
        (out.claimed ≤ (if limit == 0 then 1 else limit))
        × (handled out ≤ out.claimed)
        × (r ≡ ok tt → handled out ≡ out.claimed)
        × (length w.log + acked out ≤ length w'.log)
        × (length w'.log ≤ length w.log + out.claimed)
  unfolding drain_once
  drain_once-counts owner ttl limit first turns w =
      go (attempt first.statement (claim_due owner ttl limit first.now w.rows) w.rows) (
        attempt-IsBounded first.statement (if limit == 0 then 1 else limit)
          (claim_due owner ttl limit first.now w.rows) w.rows
          (claim_due-IsBounded owner ttl limit first.now w.rows))
    where
      go :
          (x : Answer (List OutboxRow) × Table)
          → IsBounded (if limit == 0 then 1 else limit) x.0
          → let (out, r, w') = drained lower tokens owner turns w.log x in
            (out.claimed ≤ (if limit == 0 then 1 else limit))
            × (handled out ≤ out.claimed)
            × (r ≡ ok tt → handled out ≡ out.claimed)
            × (length w.log + acked out ≤ length w'.log)
            × (length w'.log ≤ length w.log + out.claimed)
      go (ok recs, rows) few =
          let start : Relayed = record { rows = rows; log = w.log } in
          let (c, most, all, sent_all, sent_few) =
            drain_each-Accounts owner turns recs (no_drain (length recs)) start in
          (omega arith, omega arith, λ e. omega (arith, all e), omega arith, omega arith)
      go (err e, rows) few = (omega arith, omega arith, λ h. cc, omega arith, omega arith)
