-- ===== src/Relay/Publish/Fleet.antt =====
-- Several relays (relay/publish.go) on one outbox and one topic, their steps interleaved.
use seshatops.Base.{
  ℕ, zero, suc, Option, none, some, List, [], ◌∷◌, ◌++◌, Bytes, All, All-map, get_elem?,
}
use seshatops.Base.Result.{ok, err}
use seshatops.Event.Json.{Tokens}
use seshatops.Relay.Claim.{OutboxRow, claim_due, release_quarantined}
use seshatops.Relay.Evolves.{Follow, Follow-refl, Follow-join}
use seshatops.Relay.Publish.{
  LogRecord, Relayed, Table, Turn, CallOutcome, attempt, Answer, publish_one, drain_once,
}
use seshatops.Relay.Publish.Snapshots.{IsSnapshot, IsSnapshot-Follow, Returned, claim-IsSnapshot}
use seshatops.Relay.Publish.Safe.{IsSafe, Moves, publish_one-Moves}
use seshatops.Relay.Publish.Drains.{claim-Moves, retry-Moves, drain_once-Moves}

-- A record that a relay has claimed and not handled yet.
pub record Claimed : Type 0 where
  pub owner : Bytes
  pub rec : OutboxRow

pub record Fleet : Type 0 where
  pub world : Relayed
  pub held : List Claimed

-- A relay claims, or handles its claimed record at a position; one that stops handles none. An
-- operator releases a quarantined row. A drain may also run undisturbed.
pub data Act : Type 0 where
  claim_act : Bytes → ℕ → ℕ → Turn → Act
  handle_act : ℕ → Turn → Act
  drain_act : Bytes → ℕ → ℕ → Turn → List Turn → Act
  retry_act : CallOutcome → Bytes → Bytes → Act

abbrev pub remove_at : ℕ → List Claimed → List Claimed
remove_at n [] = []
remove_at zero (c ∷ cs) = cs
remove_at (suc n) (c ∷ cs) = c ∷ remove_at n cs

abbrev pub owned : Bytes → List OutboxRow → List Claimed
owned owner [] = []
owned owner (r ∷ rs) = record { owner = owner; rec = r } ∷ owned owner rs

abbrev pub hold : Bytes → Answer (List OutboxRow) × Table → List LogRecord → List Claimed → Fleet
hold owner (ok recs, rows) log held = record {
  world = record { rows = rows; log = log };
  held = held ++ owned owner recs;
}
hold owner (err e, rows) log held = record {
  world = record { rows = rows; log = log };
  held = held;
}

module _ (lower : ℕ → ℕ) (tokens : Bytes → Tokens) where
  abbrev pub handle : Option Claimed → ℕ → Turn → Fleet → Fleet
  handle none n turn f = f
  handle (some c) n turn f = record {
    world = (publish_one lower tokens c.owner turn c.rec f.world).1;
    held = remove_at n f.held;
  }

  unfoldable pub act : Act → Fleet → Fleet
  act (claim_act owner ttl limit turn) f =
      hold owner
        (attempt turn.statement (claim_due owner ttl limit turn.now f.world.rows) f.world.rows)
        f.world.log f.held
  act (handle_act n turn) f = handle (get_elem? f.held n) n turn f
  act (drain_act owner ttl limit first turns) f = record f {
    world = (drain_once lower tokens owner ttl limit first turns f.world).2;
  }
  act (retry_act o tenant id) f =
      let done = release_quarantined tenant id f.world.rows in
      record f { world = record { rows = (attempt o done f.world.rows).1; log = f.world.log } }

  unfoldable pub run_acts : List Act → Fleet → Fleet
  run_acts [] f = f
  run_acts (a ∷ acts) f = run_acts acts (act a f)

  -- The outbox and the topic are sound, and each claimed record is the event of its row.
  pub record IsSound (f : Fleet) : Type 0 where
    pub safe : IsSafe lower tokens f.world
    pub snapshots : All (λ c. IsSnapshot f.world.rows c.rec) f.held

  abbrev pub Progress : Fleet → Fleet → Type 0
  Progress f f' = Follow f.world.rows f'.world.rows × IsSound f'

  snapshots-Follow :
      (rows rows' : Table) (held : List Claimed)
      → Follow rows rows'
      → All (λ c. IsSnapshot rows c.rec) held
      → All (λ c. IsSnapshot rows' c.rec) held
  snapshots-Follow rows rows' held follow =
      All-map _ _ held (λ c. IsSnapshot-Follow c.rec rows rows' follow)

  All-owned :
      (rows : Table) (owner : Bytes) (held : List Claimed) (recs : List OutboxRow)
      → All (λ c. IsSnapshot rows c.rec) held
      → All (IsSnapshot rows) recs
      → All (λ c. IsSnapshot rows c.rec) (held ++ owned owner recs)
  All-owned rows owner [] [] h s = tt
  All-owned rows owner [] (r ∷ rs) h (s, ss) = (s, All-owned rows owner [] rs tt ss)
  All-owned rows owner (c ∷ cs) recs (h, hs) s = (h, All-owned rows owner cs recs hs s)

  All-remove_at :
      (P : Claimed → Type 0) (n : ℕ) (held : List Claimed) → All P held → All P (remove_at n held)
  All-remove_at P n [] h = tt
  All-remove_at P zero (c ∷ cs) (h, hs) = hs
  All-remove_at P (suc n) (c ∷ cs) (h, hs) = (h, All-remove_at P n cs hs)

  abbrev Found : (Claimed → Type 0) → Option Claimed → Type 0
  Found P none = Unit
  Found P (some c) = P c

  All-get_elem? :
      (P : Claimed → Type 0) (n : ℕ) (held : List Claimed) → All P held → Found P (get_elem? held n)
  All-get_elem? P n [] h = tt
  All-get_elem? P zero (d ∷ cs) (h, hs) = h
  All-get_elem? P (suc n) (d ∷ cs) (h, hs) = All-get_elem? P n cs hs

  hold-Progress :
      (owner : Bytes) (x : Answer (List OutboxRow) × Table) (f : Fleet)
      → Moves lower tokens f.world (record { rows = x.1; log = f.world.log })
      → Returned (IsSnapshot x.1) x.0
      → IsSound f
      → Progress f (hold owner x f.world.log f.held)
  hold-Progress owner (ok recs, rows) f (follow, safe) snaps sound = (
    follow,
    record {
      safe = safe;
      snapshots =
          All-owned rows owner f.held recs
            (snapshots-Follow f.world.rows rows f.held follow sound.snapshots) snaps;
    },
  )
  hold-Progress owner (err e, rows) f (follow, safe) snaps sound = (
    follow,
    record {
      safe = safe;
      snapshots = snapshots-Follow f.world.rows rows f.held follow sound.snapshots;
    },
  )

  handle-Progress :
      (o : Option Claimed) (n : ℕ) (turn : Turn) (f : Fleet)
      → Found (λ c. IsSnapshot f.world.rows c.rec) o
      → IsSound f
      → Progress f (handle o n turn f)
  handle-Progress none n turn f snap sound = (Follow-refl f.world.rows, sound)
  handle-Progress (some c) n turn f snap sound =
      let (follow, safe) =
        publish_one-Moves lower tokens c.owner turn c.rec f.world sound.safe snap in
      let world' = (publish_one lower tokens c.owner turn c.rec f.world).1 in
      (
        follow,
        record {
          safe = safe;
          snapshots =
              All-remove_at (λ c. IsSnapshot world'.rows c.rec) n f.held
                (snapshots-Follow f.world.rows world'.rows f.held follow sound.snapshots);
        },
      )

  world-Progress :
      (f : Fleet) (w : Relayed)
      → IsSound f
      → Moves lower tokens f.world w
      → Progress f (record f { world = w })
  world-Progress f w sound (follow, safe) = (
    follow,
    record {
      safe = safe;
      snapshots = snapshots-Follow f.world.rows w.rows f.held follow sound.snapshots;
    },
  )

  pub act-Progress : (a : Act) (f : Fleet) → IsSound f → Progress f (act a f)
  unfolding act
  act-Progress (claim_act owner ttl limit turn) f sound =
      hold-Progress owner
        (attempt turn.statement (claim_due owner ttl limit turn.now f.world.rows) f.world.rows) f
        (claim-Moves lower tokens turn.statement owner ttl limit turn.now f.world sound.safe)
        (claim-IsSnapshot turn.statement owner ttl limit turn.now f.world.rows sound.safe.keyed
          (claim-Moves lower tokens turn.statement owner ttl limit turn.now f.world sound.safe).0)
        sound
  act-Progress (handle_act n turn) f sound =
      handle-Progress (get_elem? f.held n) n turn f
        (All-get_elem? (λ c. IsSnapshot f.world.rows c.rec) n f.held sound.snapshots) sound
  act-Progress (drain_act owner ttl limit first turns) f sound =
      world-Progress f _ sound
        (drain_once-Moves lower tokens owner ttl limit first turns f.world sound.safe)
  act-Progress (retry_act o tenant id) f sound =
      world-Progress f _ sound (retry-Moves lower tokens o tenant id f.world sound.safe)

  run_acts-Progress : (acts : List Act) (f : Fleet) → IsSound f → Progress f (run_acts acts f)
  unfolding run_acts
  run_acts-Progress [] f sound = (Follow-refl f.world.rows, sound)
  run_acts-Progress (a ∷ acts) f sound =
      let (one, sound') = act-Progress a f sound in
      let (rest, sound'') = run_acts-Progress acts (act a f) sound' in
      (Follow-join f.world.rows (act a f).world.rows _ one rest, sound'')

  -- From a sound state (outbox keys name one row each, every row marked published is on the topic under
  -- the key of its columns, Parse accepts every record of the topic and its key is that of its event,
  -- and each claimed record that a relay holds has a row under its id, with the same event), in any interleaving of the
  -- steps of any relays, with any failures of the database and of the broker: every row that is marked published is on the topic, under the key of
  -- its columns; every record of the topic is accepted by Parse and has the key of its event; and the
  -- outbox keeps its rows, their events and those that are published.
  pub run_acts-IsSafe :
      (acts : List Act) (f : Fleet)
      → IsSound f
      → Follow f.world.rows (run_acts acts f).world.rows
        × IsSafe lower tokens (run_acts acts f).world
  run_acts-IsSafe acts f sound =
      let (follow, sound') = run_acts-Progress acts f sound in (follow, sound'.safe)
