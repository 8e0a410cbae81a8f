-- ===== src/Platform/Consume/Runs.antt =====
-- Runs of `ConsumeOnce` (platform/consume.go), one poll after another.
use seshatops.Base.{ℕ, ◌≡◌, refl, Bool, Option, none, some, List, [], ◌∷◌, Bytes, arith}
use seshatops.Base.Table.{select_row}
use seshatops.Base.Int64.{pos}
use seshatops.Event.Json.{Tokens}
use seshatops.Platform.World.{
  Db, World, Outcome, empty_db, quiet_world, Hop, HopRow, supplier, lot, batch, shipment,
  PlatformError,
}
use seshatops.Platform.Store.{find_projection}
use seshatops.Platform.Projection.Advance.{
  view, Keeps, Keeps-path, Keeps-same, Keeps-put_inbox, IsSound, Advances,
}
use seshatops.Platform.Projection.Monotone.{IsLater, Advances-view}
use seshatops.Platform.Projection.Refines.{apply_projection-Moves}
use seshatops.Platform.Lineage.{append_hop}
use seshatops.Platform.Failure.{put_failure, set_quarantined}
use seshatops.Platform.Writes.{Writes}
use seshatops.Platform.Record.Refines.{process_record-Moves}
use seshatops.Platform.Record.{Delivery}
use seshatops.Platform.Consume.{
  Fetched, Partition, Loop, account, deliver, each_record, consume_loop, consume_once,
  handle_unless,
}

Keeps-append_hop : (h : Hop) (row : HopRow) (d : Db) → Keeps d (append_hop h row d)
unfolding append_hop find_projection
Keeps-append_hop supplier row d = Keeps-same d (append_hop supplier row d) (λ t i. refl)
Keeps-append_hop lot row d = Keeps-same d (append_hop lot row d) (λ t i. refl)
Keeps-append_hop batch row d = Keeps-same d (append_hop batch row d) (λ t i. refl)
Keeps-append_hop shipment row d = Keeps-same d (append_hop shipment row d) (λ t i. refl)

-- Every write of the consumer keeps to the specification of the inventory projection.
pub Keeps-Writes : Writes (λ _. Unit {0}) Keeps
unfolding put_failure set_quarantined find_projection
Keeps-Writes = record {
  path = Keeps-path;
  inbox = λ row d _. Keeps-put_inbox row d;
  hop = Keeps-append_hop;
  failure = λ row d. Keeps-same d (put_failure row d) (λ t i. refl);
  quarantine = λ p d. Keeps-same d (set_quarantined p d) (λ t i. refl);
  projection = λ lower env hash canonical _. apply_projection-Moves lower env hash canonical;
}

-- One call of `ConsumeOnce`: what the poll returned, whether the commit succeeds, and the outcomes of
-- the database and the random source from then on (a restart of the process included).
pub record Poll : Type 0 where
  pub commit_ok : Bool
  pub partitions : List Partition
  pub outcomes : List Outcome
  pub fresh_ids : List Bytes

pub IsSound-empty_db : IsSound empty_db
unfolding find_projection select_row
IsSound-empty_db = record { versions = λ t i q v h. cc }

module _ (lower : ℕ → ℕ) (hash : Bytes → Bytes) (tokens : Bytes → Tokens) where
  account-world : (s : Loop) (r : Fetched) (d : Delivery) (w : World) → (account s r d w).world ≡ w
  unfolding account
  account-world s r d w = ground arith

  handle_record-Keeps :
      (o : Option PlatformError) (s : Loop) (r : Fetched)
      → Keeps s.world.db (handle_unless lower hash tokens o s r).world.db
  unfolding handle_unless
  handle_record-Keeps (some e) s r = Keeps-path.stay s.world.db
  handle_record-Keeps none s r =
      let (d, w) = deliver lower hash tokens r s.world in
      rw (account-world s r d w) (
        process_record-Moves Keeps-Writes (λ _. tt) lower hash tokens r.faulty r.recovered r.key
          r.value r.position s.world)

  each_record-Keeps :
      (s : Loop) (rs : List Fetched)
      → Keeps s.world.db (each_record lower hash tokens s rs).world.db
  unfolding each_record
  each_record-Keeps s [] = Keeps-path.stay s.world.db
  each_record-Keeps s (r ∷ rs) =
      let s' = handle_unless lower hash tokens s.first_error s r in
      Keeps-path.join s.world.db s'.world.db _ (handle_record-Keeps s.first_error s r)
        (each_record-Keeps s' rs)

  -- A run: the polls in order, each on the database that the one before it left.
  unfoldable pub run : List Poll → World → World
  unfolding consume_once
  run [] w = w
  run (p ∷ ps) w =
      let (_, _, w') =
        consume_once lower hash tokens p.commit_ok p.partitions
          (record w { outcomes = p.outcomes; fresh_ids = p.fresh_ids }) in
      run ps w'

  pub run-Keeps : (ps : List Poll) (w : World) → Keeps w.db (run ps w).db
  unfolding run consume_once consume_loop
  run-Keeps [] w = Keeps-path.stay w.db
  run-Keeps (p ∷ ps) w =
      let (_, _, w') =
        consume_once lower hash tokens p.commit_ok p.partitions
          (record w { outcomes = p.outcomes; fresh_ids = p.fresh_ids }) in
      Keeps-path.join w.db w'.db _ (each_record-Keeps _ _) (run-Keeps ps w')

  -- From an empty database, any polls, commits that fail, faults of the database, restarts and
  -- redeliveries lead to a projection that the specification reaches.
  pub run-Advances :
      (ps : List Poll)
      → Advances empty_db (run ps (quiet_world empty_db)).db
        × IsSound (run ps (quiet_world empty_db)).db
  unfolding find_projection select_row
  run-Advances ps = run-Keeps ps (quiet_world empty_db) IsSound-empty_db

  -- In any run from a projection whose versions lie between 1 and 2^53 - 1, an item that has a quantity
  -- of at least zero keeps one: its version never falls, its quantity never rises, each new version
  -- takes off at least one, and an unchanged version means an unchanged quantity.
  pub run-monotone :
      (ps : List Poll) (w : World) (t i : Bytes) (q v : ℕ)
      → IsSound w.db
      → view t i w.db ≡ some (pos q, pos v)
      → (q' v' : ℕ) × (view t i (run ps w).db ≡ some (pos q', pos v')) × IsLater q v q' v'
  run-monotone ps w t i q v sound h = Advances-view t i q v (run-Keeps ps w sound).0 h
