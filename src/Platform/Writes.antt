-- ===== src/Platform/Writes.antt =====
-- The writes of platform/process.go and platform/lineage.go, as hypotheses on a relation between
-- databases.
use seshatops.Base.{ℕ, Bytes}
use seshatops.Event.Payload.{Envelope}
use seshatops.Event.Validate.Sound.{IsEnvelope}
use seshatops.Platform.World.{Db, InboxRow, Hop, HopRow, FailureRow, Position}
use seshatops.Platform.Monad.Moves.{IsPath, Moves}
use seshatops.Platform.Store.{put_inbox}
use seshatops.Platform.Projection.{apply_projection}
use seshatops.Platform.Lineage.{append_hop}
use seshatops.Platform.Failure.{put_failure, set_quarantined}

-- `P` says of which events the writes to the inbox are covered.
pub record Writes (P : Bytes → Type 0) (R : Db → Db → Type 0) : Type 0 where
  pub path : IsPath R
  pub inbox : (row : InboxRow) (d : Db) → P row.event_id → R d (put_inbox row d)
  pub hop : (h : Hop) (row : HopRow) (d : Db) → R d (append_hop h row d)
  pub failure : (row : FailureRow) (d : Db) → R d (put_failure row d)
  pub quarantine : (p : Position) (d : Db) → R d (set_quarantined p d)
  pub projection :
      (lower : ℕ → ℕ) (env : Envelope) (hash canonical : Bytes)
      → P env.event_id
      → IsEnvelope lower env
      → Moves R (apply_projection env hash canonical)
