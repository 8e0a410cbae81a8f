-- ===== src/Relay/Publish/Safe.antt =====
-- One call of `publishOne` of relay/publish.go.
use seshatops.Base.{
  ℕ, ◌≡◌, refl, sym, inl, inr, true, false, Bool-cases, none, List, [], ◌∷◌, ◌++◌, Bytes, All,
  All-map, All-snoc, lit, str_eq_iff, arith,
}
use seshatops.Base.Result.{ok, err}
use seshatops.Event.Json.{Tokens}
use seshatops.Event.Payload.{Envelope}
use seshatops.Event.Parse.{parse}
use seshatops.Event.Decode.{ParseResult}
use seshatops.Relay.Claim.{
  OutboxRow, published, is_held, freed, mark_published, quarantine, release_transient,
  aggregate_key,
}
use seshatops.Relay.Evolves.{Follow}
use seshatops.Relay.Keyed.{IsKeyed}
use seshatops.Relay.Runs.{
  published_op, quarantine_op, transient_op, relay_step, relay_step-Next, Next, Next-refl,
}
use seshatops.Relay.Publish.{
  LogRecord, Relayed, Table, Turn, CallOutcome, answered, failed, unheard, attempt, produced,
  Answer, OutcomeKind, settled, marked, park, produce, error_code, disagrees, publish_parsed,
  publish_one, outcome_quarantine, outcome_transient,
}
use seshatops.Relay.Publish.Delivers.{
  Carries, IsLogged, IsDelivered, produced-IsDelivered, update_where-IsDelivered,
  attempt-IsDelivered, quarantine-IsDelivered, release_transient-IsDelivered, Some-snoc_new,
}
use seshatops.Relay.Publish.Snapshots.{SameEvent, IsSnapshot}

-- A statement leaves a next table, whatever its outcome.
pub attempt-Next :
    {A : Type 0} (o : CallOutcome) (done : Answer A × Table) (rows : Table)
    → IsKeyed rows
    → Next rows done.1
    → Next rows (attempt o done rows).1
attempt-Next answered done rows keyed h = h
attempt-Next failed done rows keyed h = Next-refl rows keyed
attempt-Next unheard done rows keyed h = h

module _ (lower : ℕ → ℕ) (tokens : Bytes → Tokens) where
  -- `Parse` accepts the record, and its key is that of its event.
  abbrev pub IsReadable : LogRecord → Type 0
  IsReadable l =
      (env : Envelope) × (parse lower tokens l.value ≡ ok env)
      × (l.key ≡ aggregate_key env.tenant_id env.aggregate_type env.aggregate_id)

  pub record IsSafe (w : Relayed) : Type 0 where
    pub keyed : IsKeyed w.rows
    pub delivered : IsDelivered w.log w.rows
    pub readable : All IsReadable w.log

  abbrev pub Moves : Relayed → Relayed → Type 0
  Moves w w' = Follow w.rows w'.rows × IsSafe w'

  settled-Moves :
      (kind : OutcomeKind) (log : List LogRecord) (w : Relayed) (x : Answer (Unit {0}) × Table)
      → Moves w (record { rows = x.1; log = log })
      → Moves w (settled kind log x).1
  settled-Moves kind log w (ok _, rows) h = h
  settled-Moves kind log w (err e, rows) h = h

  marked-Moves :
      (log : List LogRecord) (w : Relayed) (x : Answer (Unit {0}) × Table)
      → Moves w (record { rows = x.1; log = log })
      → Moves w (marked log x).1
  marked-Moves log w (ok _, rows) h = h
  marked-Moves log w (err e, rows) h = h

  park-Moves :
      (owner : Bytes) (turn : Turn) (rec : OutboxRow) (code : Bytes) (w : Relayed)
      → IsSafe w
      → Moves w (park owner turn rec code w).1
  unfolding park relay_step
  park-Moves owner turn rec code w safe =
      let next =
        attempt-Next turn.statement (quarantine rec.event_id owner code w.rows) w.rows safe.keyed
          (relay_step-Next (quarantine_op rec.event_id owner code) w.rows safe.keyed) in
      settled-Moves outcome_quarantine w.log w
        (attempt turn.statement (quarantine rec.event_id owner code w.rows) w.rows)
        (
          next.0,
          record {
            keyed = next.1;
            delivered =
                attempt-IsDelivered turn.statement (quarantine rec.event_id owner code w.rows) w.log
                  w.rows
                  (quarantine-IsDelivered rec.event_id owner code w.log w.rows safe.delivered)
                  safe.delivered;
            readable = safe.readable;
          },
        )

  produced-IsReadable :
      (o : CallOutcome) (l : LogRecord) (log : List LogRecord)
      → IsReadable l
      → All IsReadable log
      → All IsReadable (produced o l log)
  produced-IsReadable answered l log h hs = All-snoc IsReadable log l hs h
  produced-IsReadable failed l log h hs = hs
  produced-IsReadable unheard l log h hs = All-snoc IsReadable log l hs h

  -- The columns of the record are those of its event.
  agrees :
      (env : Envelope) (rec : OutboxRow)
      → disagrees env rec ≡ false
      → (env.tenant_id ≡ rec.tenant_id)
        × (env.aggregate_type ≡ rec.aggregate_type)
        × (env.aggregate_id ≡ rec.aggregate_id)
  agrees env rec h = ground (
    arith,
    str_eq_iff env.tenant_id rec.tenant_id,
    str_eq_iff env.aggregate_type rec.aggregate_type,
    str_eq_iff env.aggregate_id rec.aggregate_id,
  )

  abbrev record_of : OutboxRow → Envelope → LogRecord
  record_of rec env = record {
    key = aggregate_key env.tenant_id env.aggregate_type env.aggregate_id;
    value = rec.event_bytes;
  }

  marked_row-IsLogged :
      (owner : Bytes) (rec r : OutboxRow) (env : Envelope) (log : List LogRecord)
      → disagrees env rec ≡ false
      → (r.event_id ≡ rec.event_id → SameEvent rec r)
      → is_held rec.event_id owner r ≡ true
      → IsLogged (log ++ record_of rec env ∷ []) (freed published none none r)
  marked_row-IsLogged owner rec r env log agree same held =
      let (t, y, i) = agrees env rec agree in
      let s = same (ground (arith, str_eq_iff r.event_id rec.event_id)) in
      Some-snoc_new (Carries (freed published none none r)) log (record_of rec env)
        (cc (t, y, i, s.tenant_id, s.aggregate_type, s.aggregate_id), sym s.event_bytes)

  released-Moves :
      (o : CallOutcome) (owner : Bytes) (turn : Turn) (rec : OutboxRow) (env : Envelope)
      (w : Relayed)
      → IsReadable (record_of rec env)
      → IsSafe w
      → Moves w
          (settled outcome_transient (produced o (record_of rec env) w.log) (
            attempt turn.statement
              (release_transient rec.event_id owner (lit "broker_publish_failed") turn.now w.rows)
              w.rows)).1
  unfolding relay_step
  released-Moves o owner turn rec env w read safe =
      let code = lit "broker_publish_failed" in
      let log = produced o (record_of rec env) w.log in
      let done = release_transient rec.event_id owner code turn.now w.rows in
      let kept = produced-IsDelivered o (record_of rec env) w.log w.rows safe.delivered in
      let next =
        attempt-Next turn.statement done w.rows safe.keyed
          (relay_step-Next (transient_op rec.event_id owner code turn.now) w.rows safe.keyed) in
      settled-Moves outcome_transient log w (attempt turn.statement done w.rows) (
        next.0,
        record {
          keyed = next.1;
          delivered =
              attempt-IsDelivered turn.statement done log w.rows
                (release_transient-IsDelivered rec.event_id owner code turn.now log w.rows kept)
                kept;
          readable = produced-IsReadable o (record_of rec env) w.log read safe.readable;
        },
      )

  acked-Moves :
      (owner : Bytes) (turn : Turn) (rec : OutboxRow) (env : Envelope) (w : Relayed)
      → IsReadable (record_of rec env)
      → disagrees env rec ≡ false
      → IsSafe w
      → IsSnapshot w.rows rec
      → Moves w
          (marked
            (w.log ++ record_of rec env ∷ [])
            (attempt turn.statement (mark_published rec.event_id owner w.rows) w.rows)).1
  unfolding relay_step mark_published
  acked-Moves owner turn rec env w read agree safe snap =
      let log = w.log ++ record_of rec env ∷ [] in
      let done = mark_published rec.event_id owner w.rows in
      let kept = produced-IsDelivered answered (record_of rec env) w.log w.rows safe.delivered in
      let next =
        attempt-Next turn.statement done w.rows safe.keyed
          (relay_step-Next (published_op rec.event_id owner) w.rows safe.keyed) in
      marked-Moves log w (attempt turn.statement done w.rows) (
        next.0,
        record {
          keyed = next.1;
          delivered =
              attempt-IsDelivered turn.statement done log w.rows
                (update_where-IsDelivered (is_held rec.event_id owner) (freed published none none)
                  log w.rows
                  (All-map _ _ w.rows
                    (λ r same held _. marked_row-IsLogged owner rec r env w.log agree same held)
                    snap.0)
                  kept)
                kept;
          readable = produced-IsReadable answered (record_of rec env) w.log read safe.readable;
        },
      )

  produce-Moves :
      (o : CallOutcome) (owner : Bytes) (turn : Turn) (rec : OutboxRow) (env : Envelope)
      (w : Relayed)
      → parse lower tokens rec.event_bytes ≡ ok env
      → disagrees env rec ≡ false
      → IsSafe w
      → IsSnapshot w.rows rec
      → Moves w (produce o owner turn rec env w).1
  unfolding produce
  produce-Moves answered owner turn rec env w read agree safe snap =
      acked-Moves owner turn rec env w (env, read, refl) agree safe snap
  produce-Moves failed owner turn rec env w read agree safe snap =
      released-Moves failed owner turn rec env w (env, read, refl) safe
  produce-Moves unheard owner turn rec env w read agree safe snap =
      released-Moves unheard owner turn rec env w (env, read, refl) safe

  publish_parsed-Moves :
      (owner : Bytes) (turn : Turn) (rec : OutboxRow) (p : ParseResult Envelope) (w : Relayed)
      → parse lower tokens rec.event_bytes ≡ p
      → IsSafe w
      → IsSnapshot w.rows rec
      → Moves w (publish_parsed owner turn rec p w).1
  publish_parsed-Moves owner turn rec (err e) w read safe snap =
      park-Moves owner turn rec (error_code e) w safe
  publish_parsed-Moves owner turn rec (ok env) w read safe snap =
      elim (Bool-cases (disagrees env rec)) [
        | inl e ↦ rw e (park-Moves owner turn rec (lit "aggregate_key_mismatch") w safe)
        | inr e ↦ rw e (produce-Moves turn.broker owner turn rec env w read e safe snap)
      ]

  pub publish_one-Moves :
      (owner : Bytes) (turn : Turn) (rec : OutboxRow) (w : Relayed)
      → IsSafe w
      → IsSnapshot w.rows rec
      → Moves w (publish_one lower tokens owner turn rec w).1
  unfolding publish_one
  publish_one-Moves owner turn rec w safe snap =
      publish_parsed-Moves owner turn rec (parse lower tokens rec.event_bytes) w refl safe snap
