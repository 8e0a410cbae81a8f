-- ===== src/Platform/Projection.antt =====
-- `applyProjection` of platform/process.go.
pub mod Advance
pub mod Monotone
pub mod Decide
pub mod Writes
pub mod Refines
use seshatops.Base.{Bool, not, Option, none, some, Bytes, if◌then◌else◌}
use seshatops.Base.Int64.{ℤ, pos, ltb_ℤ, eqb_ℤ, ◌+ℤ◌, ◌-ℤ◌}
use seshatops.Event.Payload.{Envelope, QuantityDecremented, as_quantity_decremented}
use seshatops.Platform.World.{
  Disposition, applied, quarantined_gap, quarantined_stale, quarantined_transition,
  quarantined_invalid, malformed, ProjectionRow,
}
use seshatops.Platform.Monad.{M, pure, raise, ◌>>=◌, ◌>>◌}
use seshatops.Platform.Store.{
  inbox_row, version_row, lock_projection, upsert_inbox, insert_projection, update_projection,
}

-- Record the decision in the inbox, and return it.
unfoldable pub decide : Envelope → Bytes → Disposition → M Disposition
decide env hash disposition = do upsert_inbox (inbox_row env hash disposition); pure disposition

unfoldable pub decide_version : Envelope → Bytes → Disposition → ℤ → Option Bytes → M Disposition
decide_version env hash disposition expected bytes = do
  upsert_inbox (version_row env hash disposition expected bytes)
  pure disposition

-- No projection row: only version 1 starts one.
unfoldable pub project_first : Envelope → QuantityDecremented → Bytes → Bytes → M Disposition
project_first env payload hash canonical =
    if not (eqb_ℤ env.aggregate_version (pos 1))
    then decide_version env hash quarantined_gap (pos 1) (some canonical)
    else do
      insert_projection env.tenant_id env.aggregate_id payload.quantity_after (pos 1)
      decide env hash applied

-- A projection row at a version: only the next version advances it.
unfoldable pub project_next :
    Envelope → QuantityDecremented → Bytes → Bytes → ProjectionRow → M Disposition
project_next env payload hash canonical row =
    if not (ltb_ℤ row.aggregate_version env.aggregate_version)
    then decide_version env hash quarantined_stale (row.aggregate_version +ℤ pos 1) none
    else if ltb_ℤ (row.aggregate_version +ℤ pos 1) env.aggregate_version
    then decide_version env hash quarantined_gap (row.aggregate_version +ℤ pos 1) (some canonical)
    else if not (eqb_ℤ payload.quantity_before row.quantity_on_hand)
    then decide env hash quarantined_transition
    else if not
        (eqb_ℤ (payload.quantity_before -ℤ payload.quantity_decremented) payload.quantity_after)
    then decide env hash quarantined_invalid
    else do
      update_projection env.tenant_id env.aggregate_id payload.quantity_after env.aggregate_version
      decide env hash applied

unfoldable pub project_row :
    Envelope → QuantityDecremented → Bytes → Bytes → Option ProjectionRow → M Disposition
project_row env payload hash canonical none = project_first env payload hash canonical
project_row env payload hash canonical (some row) = project_next env payload hash canonical row

unfoldable pub project_payload :
    Envelope → Bytes → Bytes → Option QuantityDecremented → M Disposition
project_payload env hash canonical none = raise malformed
project_payload env hash canonical (some payload) = do
  row ← lock_projection env.tenant_id env.aggregate_id
  project_row env payload hash canonical row

unfoldable pub apply_projection : Envelope → Bytes → Bytes → M Disposition
apply_projection env hash canonical =
    project_payload env hash canonical (as_quantity_decremented env)
