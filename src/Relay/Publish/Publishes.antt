-- ===== src/Relay/Publish/Publishes.antt =====
-- `DrainOnce` of relay/publish.go where nothing fails: what is due gets published.
use seshatops.Base.{
  ℕ, ◌+◌, ◌≤◌, ◌≡◌, refl, sym, subst, ◌∙◌, ◌⊎◌, inl, inr, true, false, Bool-cases, none, List, [],
  ◌∷◌, map, Bytes, All, Some, str_eq_iff, length, ◌==◌, if◌then◌else◌, arith, select,
}
use seshatops.Base.Table.{update_where}
use seshatops.Base.Result.{ok, err}
use seshatops.Event.Text.{is_empty}
use seshatops.Event.Json.{Tokens}
use seshatops.Event.Payload.{Envelope}
use seshatops.Event.Parse.{parse}
use seshatops.Relay.Claim.{
  OutboxRow, published, has_id, is_held, freed, lease, claim_each, claim_due, due_rows, is_due,
  ttl_or_default, mark_published,
}
use seshatops.Relay.Evolves.{Pairwise}
use seshatops.Relay.Keyed.{All-take, All-select}
use seshatops.Relay.Leases.{Pairwise-update_where, Pairwise-refl}
use seshatops.Relay.Publish.{
  Relayed, Table, Turn, answered, produced, Answer, OutcomeKind, DrainResult, count,
  outcome_published, outcome_ambiguous, marked, disagrees, produce, publish_one, no_drain,
  LogRecord, drain_each, drain_once, aggregate_key,
}
use seshatops.Relay.Publish.Claims.{Leased, Shares, other_id, Claimed, claim_each-Claimed}

Pairwise-join :
    (R S T : OutboxRow → OutboxRow → Type 0) (a b c : Table)
    → ((x y z : OutboxRow) → R x y → S y z → T x z)
    → Pairwise R a b
    → Pairwise S b c
    → Pairwise T a c
Pairwise-join R S T [] [] [] h p q = tt
Pairwise-join R S T [] [] (z ∷ c) h p q = elim q [ ]
Pairwise-join R S T [] (y ∷ b) c h p q = elim p [ ]
Pairwise-join R S T (x ∷ a) [] c h p q = elim p [ ]
Pairwise-join R S T (x ∷ a) (y ∷ b) [] h p q = elim q [ ]
Pairwise-join R S T (x ∷ a) (y ∷ b) (z ∷ c) h (p, ps) (q, qs) =
    (h x y z p q, Pairwise-join R S T a b c h ps qs)

-- What one record, and the whole loop, do to a row where nothing fails.
abbrev Frees : Bytes → Table → OutboxRow → OutboxRow → Type 0
Frees owner cs r r' =
    r.status ≡ published ⊎ Leased owner r × Some (Shares r) cs → r'.status ≡ published

abbrev freed_row : Bytes → OutboxRow → OutboxRow → OutboxRow
freed_row owner c r = if is_held c.event_id owner r then freed published none none r else r

is_held-Leased :
    (owner : Bytes) (c r : OutboxRow)
    → Leased owner r
    → is_held c.event_id owner r ≡ has_id c.event_id r
is_held-Leased owner c r (busy, own) = rw (busy, own) (ground (arith, str_eq_iff owner owner))

is_held_published :
    (owner : Bytes) (c r : OutboxRow) → r.status ≡ published → is_held c.event_id owner r ≡ false
is_held_published owner c r done = rw done (ground arith)

freed_row-Frees :
    (owner : Bytes) (c : OutboxRow) (cs : Table) (r r' : OutboxRow)
    → Frees owner cs (freed_row owner c r) r'
    → Frees owner (c ∷ cs) r r'
freed_row-Frees owner c cs r r' h (inl done) =
    (rw (is_held_published owner c r done) at h) (inl done)
freed_row-Frees owner c cs r r' h (inr (leased, named)) = elim (Bool-cases (has_id c.event_id r)) [
  | inl e ↦ (rw (is_held-Leased owner c r leased ∙ e) at h) (inl refl)
  | inr e ↦ (rw (is_held-Leased owner c r leased ∙ e) at h) (inr (leased, rest e named))
]
  where
    rest : has_id c.event_id r ≡ false → Some (Shares r) (c ∷ cs) → Some (Shares r) cs
    rest e (inl s) = absurd (other_id c.event_id r e s)
    rest e (inr s) = s

-- Whatever the update of a sent row answers, no error stands.
marked_always :
    (log : List LogRecord) (x : Answer (Unit {0}) × Table)
    → (kind : OutcomeKind) × (marked log x ≡ (ok kind, record { rows = x.1; log = log }))
marked_always log (ok _, rows) = (outcome_published, refl)
marked_always log (err e, rows) = (outcome_ambiguous, refl)

-- No call fails.
abbrev pub calm : ℕ → Turn
calm now = record { broker = answered; statement = answered; now = now }

-- The loop returns nil and leaves the rows so.
abbrev pub Ends :
    (OutboxRow → OutboxRow → Type 0) → Table → DrainResult × Answer (Unit {0}) × Relayed → Type 0
Ends R rows x = (x.1 ≡ ok tt) × Pairwise R rows x.2.rows

-- A due row is published.
abbrev pub Publishes : ℕ → OutboxRow → OutboxRow → Type 0
Publishes now r r' = is_due now r ≡ true → r'.status ≡ published

module _ (lower : ℕ → ℕ) (tokens : Bytes → Tokens) where
  -- `publishOne` can send the event of the row: it is readable, and of the row's columns.
  abbrev pub IsGood : OutboxRow → Type 0
  IsGood r =
      (env : Envelope) × (parse lower tokens r.event_bytes ≡ ok env) × (disagrees env r ≡ false)

  -- A good row is sent and marked.
  publish_one-calm :
      (owner : Bytes) (rec : OutboxRow) (w : Relayed)
      → IsGood rec
      → (kind : OutcomeKind) × (log : List LogRecord) × (publish_one lower tokens owner
            (calm 0)
            rec
            w
          ≡ (
            ok kind,
            record {
              rows = update_where (is_held rec.event_id owner) (freed published none none) w.rows;
              log = log;
            },
          ))
  unfolding publish_one produce mark_published
  publish_one-calm owner rec w (env, read, agree) =
      rw (read, agree)
        (let log =
            produced answered
              (record {
                key = aggregate_key env.tenant_id env.aggregate_type env.aggregate_id;
                value = rec.event_bytes;
              })
              w.log in
          let (kind, same) = marked_always log (mark_published rec.event_id owner w.rows) in
          (kind, log, same))

  -- The loop, once a record is handled.
  abbrev resume :
      Bytes
      → Table
      → DrainResult
      → Answer OutcomeKind × Relayed
      → DrainResult × Answer (Unit {0}) × Relayed
  resume owner cs out x = elim x.0 [
    | ok kind ↦ drain_each lower tokens owner [] cs (count kind out) x.1
    | err e ↦ (out, err e, x.1)
  ]

  drain_each-Frees :
      (owner : Bytes) (recs : Table) (out : DrainResult) (w : Relayed)
      → All IsGood recs
      → Ends (Frees owner recs) w.rows (drain_each lower tokens owner [] recs out w)
  unfolding drain_each
  drain_each-Frees owner [] out w good = (refl, Pairwise-refl (Frees owner []) w.rows untouched)
    where
      untouched : (r : OutboxRow) → Frees owner [] r r
      untouched r (inl done) = done
      untouched r (inr (leased, named)) = elim named [ ]
  drain_each-Frees owner (c ∷ cs) out w (good, more) =
      let (kind, log, same) = publish_one-calm owner c w good in
      let rows = update_where (is_held c.event_id owner) (freed published none none) w.rows in
      let (ends, frees) =
        drain_each-Frees owner cs (count kind out) (record { rows = rows; log = log }) more in
      subst (λ x. Ends (Frees owner (c ∷ cs)) w.rows (resume owner cs out x)) (sym same)
        (
          ends,
          Pairwise-update_where (Frees owner cs) (Frees owner (c ∷ cs)) (is_held c.event_id owner)
              (freed published none none) w.rows
              (drain_each lower tokens owner [] cs (count kind out)
                (record { rows = rows; log = log })).2.rows
              (λ r r'. freed_row-Frees owner c cs r r') frees,
        )

  All-lease :
      (owner : Bytes) (expires : ℕ) (cs : Table)
      → All IsGood cs
      → All IsGood (map (lease owner expires) cs)
  All-lease owner expires [] h = tt
  All-lease owner expires (c ∷ cs) (h, hs) = (h, All-lease owner expires cs hs)

  abbrev pub IsSendable : ℕ → OutboxRow → Type 0
  IsSendable now r = is_due now r ≡ true → IsGood r

  due_rows-Good :
      (limit now : ℕ) (rows : Table)
      → All (IsSendable now) rows
      → All IsGood (due_rows limit now rows)
  due_rows-Good limit now rows good =
      All-take IsGood _ _
        (All-select (IsSendable now) IsGood (is_due now) rows (λ r due send. send due) good)

  -- With no failure, no empty owner, and no more due rows than the limit, each of them readable and of its
  -- columns, DrainOnce returns nil and leaves every due row published.
  pub drain_once-Publishes :
      (owner : Bytes) (ttl limit now : ℕ) (w : Relayed)
      → is_empty owner ≡ false
      → length (select (is_due now) w.rows) ≤ (if limit == 0 then 1 else limit)
      → All (IsSendable now) w.rows
      → Ends (Publishes now) w.rows (drain_once lower tokens owner ttl limit (calm now) [] w)
  unfolding drain_once claim_due
  drain_once-Publishes owner ttl limit now w named few good =
      let due = due_rows limit now w.rows in
      let expires = now + ttl_or_default ttl in
      let recs = map (lease owner expires) due in
      let (ends, frees) =
        drain_each-Frees owner recs (no_drain (length recs))
          (record { rows = claim_each owner expires due w.rows; log = w.log })
          (All-lease owner expires due (due_rows-Good limit now w.rows good)) in
      rw named (
        ends,
        Pairwise-join (Claimed owner now recs) (Frees owner recs) (Publishes now) w.rows
            (claim_each owner expires due w.rows) _
            (λ x y z claimed frees open_row. frees (inr (claimed open_row)))
            (claim_each-Claimed owner expires limit now w.rows few) frees,
      )
