-- ===== src/Platform/Projection/Writes.antt =====
-- Rules for `applyProjection` (platform/process.go), for relations that its statements keep.
use seshatops.Base.{◌≡◌, Option, none, some, Bytes}
use seshatops.Base.Int64.{ℤ}
use seshatops.Event.Payload.{Envelope, QuantityDecremented, as_quantity_decremented}
use seshatops.Platform.World.{Db, InboxRow, ProjectionRow, malformed}
use seshatops.Platform.Monad.Moves.{
  IsPath, Moves, Moves-pure, Moves-raise, Moves-bind, Moves-query, Moves-exec, Moves-if,
}
use seshatops.Platform.Store.{
  put_inbox, add_projection, set_projection, lock_projection, insert_projection, update_projection,
}
use seshatops.Platform.Projection.{
  project_first, project_next, project_row, project_payload, apply_projection,
}
use seshatops.Platform.Projection.Decide.{decide-Moves, decide_version-Moves}

ruleset moves = (Moves-pure, Moves-raise, Moves-bind, Moves-query, Moves-exec, Moves-if)

module _ {R : Db → Db → Type 0} (path : IsPath R) (env : Envelope) (hash canonical : Bytes)
    (put : (row : InboxRow) (d : Db) → row.event_id ≡ env.event_id → R d (put_inbox row d))
    (add : (row : ProjectionRow) (d : Db) → R d (add_projection row d))
    (set : (t i : Bytes) (q v : ℤ) (d : Db) → R d (set_projection t i q v d)) where
  insert_projection-Moves : (t i : Bytes) (q v : ℤ) → Moves R (insert_projection t i q v)
  unfolding insert_projection
  insert_projection-Moves t i q v = Moves-exec path _ (add _)

  update_projection-Moves : (t i : Bytes) (q v : ℤ) → Moves R (update_projection t i q v)
  unfolding update_projection
  update_projection-Moves t i q v = Moves-exec path _ (set t i q v)

  project_row-Moves :
      (p : QuantityDecremented) (o : Option ProjectionRow)
      → Moves R (project_row env p hash canonical o)
  unfolding project_row project_first project_next
  project_row-Moves p none =
      search (moves, path, put, decide-Moves, decide_version-Moves, insert_projection-Moves) depth 9
  project_row-Moves p (some row) =
      search (moves, path, put, decide-Moves, decide_version-Moves, update_projection-Moves) depth 9

  project_payload-Moves :
      (o : Option QuantityDecremented) → Moves R (project_payload env hash canonical o)
  unfolding project_payload lock_projection
  project_payload-Moves none = Moves-raise path malformed
  project_payload-Moves (some p) = Moves-bind path _ _ (Moves-query path _) (project_row-Moves p)

  pub apply_projection-Moves : Moves R (apply_projection env hash canonical)
  unfolding apply_projection
  apply_projection-Moves = project_payload-Moves (as_quantity_decremented env)
