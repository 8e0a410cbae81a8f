-- ===== src/Platform/Projection/Decide.antt =====
-- The writes of a decision (platform/process.go, platform/lineage.go) to the inbox.
use seshatops.Base.{◌≡◌, refl, Option, Bytes}
use seshatops.Base.Int64.{ℤ}
use seshatops.Event.Payload.{Envelope}
use seshatops.Platform.World.{Db, Disposition, InboxRow}
use seshatops.Platform.Monad.Moves.{IsPath, Moves, Moves-pure, Moves-bind, Moves-exec}
use seshatops.Platform.Store.{put_inbox, upsert_inbox}
use seshatops.Platform.Projection.{decide, decide_version}

module _ {R : Db → Db → Type 0} (path : IsPath R) (env : Envelope) (hash : Bytes)
    (put : (row : InboxRow) (d : Db) → row.event_id ≡ env.event_id → R d (put_inbox row d)) where
  pub decide-Moves : (d : Disposition) → Moves R (decide env hash d)
  unfolding decide upsert_inbox
  decide-Moves d =
      Moves-bind path _ _ (Moves-exec path _ (λ d. put _ d refl)) (λ _. Moves-pure path d)

  pub decide_version-Moves :
      (d : Disposition) (expected : ℤ) (bytes : Option Bytes)
      → Moves R (decide_version env hash d expected bytes)
  unfolding decide_version upsert_inbox
  decide_version-Moves d expected bytes =
      Moves-bind path _ _ (Moves-exec path _ (λ d. put _ d refl)) (λ _. Moves-pure path d)
