-- ===== src/Relay/Publish/Drains.antt =====
-- One claim, one retry, and one `DrainOnce` of relay/publish.go.
use seshatops.Base.{ℕ, List, [], ◌∷◌, Bytes, All, All-map, length}
use seshatops.Base.Result.{ok, err}
use seshatops.Event.Json.{Tokens}
use seshatops.Relay.Claim.{OutboxRow, claim_due, release_quarantined}
use seshatops.Relay.Evolves.{Follow, Follow-refl, Follow-join}
use seshatops.Relay.Runs.{claim_op, retry_op, relay_step, relay_step-Next}
use seshatops.Relay.Publish.{
  Relayed, Table, Turn, CallOutcome, attempt, Answer, OutcomeKind, publish_one, count, DrainResult,
  no_drain, next_turn, drain_each, drained, drain_once,
}
use seshatops.Relay.Publish.Delivers.{
  attempt-IsDelivered, claim_due-IsDelivered, release_quarantined-IsDelivered,
}
use seshatops.Relay.Publish.Snapshots.{IsSnapshot, IsSnapshot-Follow, Returned, claim-IsSnapshot}
use seshatops.Relay.Publish.Safe.{IsSafe, Moves, attempt-Next, publish_one-Moves}

module _ (lower : ℕ → ℕ) (tokens : Bytes → Tokens) where
  pub claim-Moves :
      (o : CallOutcome) (owner : Bytes) (ttl limit now : ℕ) (w : Relayed)
      → IsSafe lower tokens w
      → Moves lower tokens w (record {
        rows = (attempt o (claim_due owner ttl limit now w.rows) w.rows).1;
        log = w.log;
      })
  unfolding relay_step
  claim-Moves o owner ttl limit now w safe =
      let done = claim_due owner ttl limit now w.rows in
      let next =
        attempt-Next o done w.rows safe.keyed
          (relay_step-Next (claim_op owner ttl limit now) w.rows safe.keyed) in
      (
        next.0,
        record {
          keyed = next.1;
          delivered =
              attempt-IsDelivered o done w.log w.rows
                (claim_due-IsDelivered owner ttl limit now w.log w.rows safe.delivered)
                safe.delivered;
          readable = safe.readable;
        },
      )

  pub retry-Moves :
      (o : CallOutcome) (tenant id : Bytes) (w : Relayed)
      → IsSafe lower tokens w
      → Moves lower tokens w (record {
        rows = (attempt o (release_quarantined tenant id w.rows) w.rows).1;
        log = w.log;
      })
  unfolding relay_step
  retry-Moves o tenant id w safe =
      let done = release_quarantined tenant id w.rows in
      let next =
        attempt-Next o done w.rows safe.keyed
          (relay_step-Next (retry_op tenant id) w.rows safe.keyed) in
      (
        next.0,
        record {
          keyed = next.1;
          delivered =
              attempt-IsDelivered o done w.log w.rows
                (release_quarantined-IsDelivered tenant id w.log w.rows safe.delivered)
                safe.delivered;
          readable = safe.readable;
        },
      )

  drain_each-Moves :
      (owner : Bytes) (turns : List Turn) (recs : List OutboxRow) (out : DrainResult) (w : Relayed)
      → IsSafe lower tokens w
      → All (IsSnapshot w.rows) recs
      → Moves lower tokens w (drain_each lower tokens owner turns recs out w).2
  unfolding drain_each
  drain_each-Moves owner turns [] out w safe snaps = (Follow-refl w.rows, safe)
  drain_each-Moves owner turns (rec ∷ recs) out w safe (snap, snaps) =
      let (follow, safe') =
        publish_one-Moves lower tokens owner (next_turn turns).0 rec w safe snap in
      go (publish_one lower tokens owner (next_turn turns).0 rec w) follow safe' (λ out' w' f s.
        drain_each-Moves owner (next_turn turns).1 recs out' w' s
          (All-map _ _ recs (λ r. IsSnapshot-Follow r w.rows w'.rows f) snaps))
    where
      go :
          (x : Answer OutcomeKind × Relayed)
          → Follow w.rows x.1.rows
          → IsSafe lower tokens x.1
          → ((out' : DrainResult) (w' : Relayed)
              → Follow w.rows w'.rows
              → IsSafe lower tokens w'
              → Moves lower tokens w'
                  (drain_each lower tokens owner (next_turn turns).1 recs out' w').2)
          → Moves lower tokens w
              (elim (x.0) as (λ _. DrainResult × Answer (Unit {0}) × Relayed) [
                | ok kind ↦
                    drain_each lower tokens owner (next_turn turns).1 recs (count kind out) x.1
                | err e ↦ (out, err e, x.1)
              ]).2
      go (ok kind, w') follow safe' ih =
          let (f, s) = ih (count kind out) w' follow safe' in
          (Follow-join w.rows w'.rows _ follow f, s)
      go (err e, w') follow safe' ih = (follow, safe')

  drained-Moves :
      (owner : Bytes) (turns : List Turn) (x : Answer (List OutboxRow) × Table) (w : Relayed)
      → Moves lower tokens w (record { rows = x.1; log = w.log })
      → Returned (IsSnapshot x.1) x.0
      → Moves lower tokens w (drained lower tokens owner turns w.log x).2
  drained-Moves owner turns (err e, rows) w (follow, safe) snaps = (follow, safe)
  drained-Moves owner turns (ok recs, rows) w (follow, safe) snaps =
      let start : Relayed = record { rows = rows; log = w.log } in
      let (f, s) = drain_each-Moves owner turns recs (no_drain (length recs)) start safe snaps in
      (Follow-join w.rows rows _ follow f, s)

  pub drain_once-Moves :
      (owner : Bytes) (ttl limit : ℕ) (first : Turn) (turns : List Turn) (w : Relayed)
      → IsSafe lower tokens w
      → Moves lower tokens w (drain_once lower tokens owner ttl limit first turns w).2
  unfolding drain_once
  drain_once-Moves owner ttl limit first turns w safe =
      let moves = claim-Moves first.statement owner ttl limit first.now w safe in
      drained-Moves owner turns
        (attempt first.statement (claim_due owner ttl limit first.now w.rows) w.rows) w moves
        (claim-IsSnapshot first.statement owner ttl limit first.now w.rows safe.keyed moves.0)
