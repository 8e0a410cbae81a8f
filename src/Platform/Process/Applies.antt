-- ===== src/Platform/Process/Applies.antt =====
-- The normal path of `processValidated` (platform/process.go).
use seshatops.Base.{
  ℕ, suc, ◌≡◌, refl, ◌∙◌, ◌≤◌, true, false, none, some, [], ◌∷◌, ◌++◌, Bytes, str_eq, str_eq_refl,
  arith,
}
use seshatops.Base.Int64.{pos, ltb_ℤ, eqb_ℤ, eqb_ℤ_iff, ◌+ℤ◌, ◌-ℤ◌, +ℤ-one, max_safe_int}
use seshatops.Base.Result.{ok}
use seshatops.Event.Payload.{
  Envelope, QuantityDecremented, quantity_decremented, as_quantity_decremented,
  event_type_quantity_decremented,
}
use seshatops.Event.Canonical.{canonical_bytes, content_hash}
use seshatops.Platform.World.{Db, World, applied, ProjectionRow, AppliedUpdate, succeeds}
use seshatops.Platform.Monad.{
  pure, ◌>>=◌, outcome, take_outcome, query, exec, exec_returning, transact,
}
use seshatops.Platform.Store.{
  find_inbox, find_projection, lock_inbox, put_inbox, upsert_inbox, lock_projection,
  update_projection, set_projection, inbox_row,
}
use seshatops.Platform.Projection.{
  decide, project_next, project_row, project_payload, apply_projection,
}
use seshatops.Platform.Projection.Advance.{view, view-set_projection}
use seshatops.Platform.Lineage.{apply_event}
use seshatops.Platform.Process.{
  apply_fresh, decide_event, process_transaction, notify_applied, announce, announce_payload,
  or_transient, process_validated,
}

-- The event is the next one of its item: the version is one more, the quantity before is what there is.
pub record IsNext (env : Envelope) (p : QuantityDecremented) (old : ProjectionRow) : Type 0 where
  pub version : ℕ
  pub payload : env.payload ≡ quantity_decremented p
  pub event_type : env.event_type ≡ event_type_quantity_decremented
  pub stored : old.aggregate_version ≡ pos version
  pub received : env.aggregate_version ≡ pos (suc version)
  pub small : suc version ≤ max_safe_int
  pub before : p.quantity_before ≡ old.quantity_on_hand
  pub balance : p.quantity_before -ℤ p.quantity_decremented ≡ p.quantity_after

quiet_outcome : (w : World) → w.outcomes ≡ [] → outcome w ≡ (succeeds, w)
unfolding outcome take_outcome
quiet_outcome w quiet = rw quiet refl

module _ (env : Envelope) (p : QuantityDecremented) (old : ProjectionRow)
    (n : IsNext env p old) where
  is_newer : ltb_ℤ old.aggregate_version env.aggregate_version ≡ true
  is_newer = ground (arith, n.stored, n.received)

  no_gap : ltb_ℤ (old.aggregate_version +ℤ pos 1) env.aggregate_version ≡ false
  no_gap = ground (arith, n.stored, n.received, +ℤ-one n.version (omega (arith, n.small)))

  same_before : eqb_ℤ p.quantity_before old.quantity_on_hand ≡ true
  same_before = (eqb_ℤ_iff p.quantity_before old.quantity_on_hand).1 n.before

  balanced : eqb_ℤ (p.quantity_before -ℤ p.quantity_decremented) p.quantity_after ≡ true
  balanced = (eqb_ℤ_iff (p.quantity_before -ℤ p.quantity_decremented) p.quantity_after).1 n.balance

  -- What the applied event leaves.
  abbrev pub applied_db : Bytes → Db → Db
  applied_db h d =
      put_inbox (inbox_row env h applied)
        (set_projection env.tenant_id env.aggregate_id p.quantity_after env.aggregate_version d)

  project_next-applies :
      (h canonical : Bytes) (w : World)
      → w.outcomes ≡ []
      → project_next env p h canonical old w ≡ (ok applied, record w { db = applied_db h w.db })
  unfolding project_next update_projection decide upsert_inbox exec exec_returning ◌>>=◌ outcome
      take_outcome pure
  project_next-applies h canonical w quiet =
      rw (is_newer, no_gap, same_before, balanced, quiet) refl

  as_payload : as_quantity_decremented env ≡ some p
  unfolding as_quantity_decremented
  as_payload = rw (n.payload) refl

  same_type : str_eq env.event_type event_type_quantity_decremented ≡ true
  same_type = rw (n.event_type) (str_eq_refl event_type_quantity_decremented)

  apply_event-applies :
      (h canonical : Bytes) (w : World)
      → w.outcomes ≡ []
      → find_projection env.tenant_id env.aggregate_id w.db ≡ some old
      → apply_event env h canonical w ≡ (ok applied, record w { db = applied_db h w.db })
  unfolding apply_event apply_projection project_payload lock_projection project_row query ◌>>=◌
  apply_event-applies h canonical w quiet found =
      rw (same_type, as_payload, quiet_outcome w quiet, found)
        (project_next-applies h canonical w quiet)

  lock_inbox-none :
      (w : World)
      → w.outcomes ≡ []
      → find_inbox env.event_id w.db ≡ none
      → lock_inbox env.event_id w ≡ (ok none, w)
  unfolding lock_inbox query
  lock_inbox-none w quiet fresh = rw (quiet_outcome w quiet, fresh) refl

  decide_event-applies :
      (h canonical : Bytes) (w : World)
      → w.outcomes ≡ []
      → find_projection env.tenant_id env.aggregate_id w.db ≡ some old
      → decide_event env h canonical none w
        ≡ (ok (applied, true), record w { db = applied_db h w.db })
  unfolding decide_event apply_fresh ◌>>=◌ pure
  decide_event-applies h canonical w quiet found =
      rw (apply_event-applies h canonical w quiet found) refl

  process_transaction-applies :
      (h canonical : Bytes) (w : World)
      → w.outcomes ≡ []
      → find_inbox env.event_id w.db ≡ none
      → find_projection env.tenant_id env.aggregate_id w.db ≡ some old
      → process_transaction env h canonical w
        ≡ (ok (applied, true), record w { db = applied_db h w.db })
  unfolding process_transaction transact ◌>>=◌
  process_transaction-applies h canonical w quiet fresh found =
      let after : World = record w { db = applied_db h w.db } in
      rw
        (
          quiet_outcome w quiet,
          lock_inbox-none w quiet fresh,
          decide_event-applies h canonical w quiet found,
          quiet_outcome after quiet,
        )
        refl

  abbrev pub update : AppliedUpdate
  update = record {
    tenant_id = env.tenant_id;
    item_id = env.aggregate_id;
    quantity_on_hand = p.quantity_after;
    aggregate_version = env.aggregate_version;
    event_id = env.event_id;
  }

  applied_view :
      (h : Bytes) (d : Db)
      → find_projection env.tenant_id env.aggregate_id d ≡ some old
      → view env.tenant_id env.aggregate_id (applied_db h d)
        ≡ some (p.quantity_after, env.aggregate_version)
  unfolding put_inbox find_projection
  applied_view h d found =
      view-set_projection env.tenant_id env.aggregate_id p.quantity_after env.aggregate_version d
        env.tenant_id env.aggregate_id old found
      ∙ ground (arith, str_eq_refl env.tenant_id, str_eq_refl env.aggregate_id)

  -- While the database answers, a new event that is the next of its item is applied: the inbox has it as
  -- applied under its content hash, the item has the event's quantity and version, and subscribers are
  -- told once.
  pub process_validated-applies :
      (lower : ℕ → ℕ) (hash : Bytes → Bytes) (h canonical : Bytes) (w : World)
      → content_hash lower hash env ≡ ok h
      → canonical_bytes lower env ≡ ok canonical
      → w.outcomes ≡ []
      → find_inbox env.event_id w.db ≡ none
      → find_projection env.tenant_id env.aggregate_id w.db ≡ some old
      → (process_validated lower hash env w ≡ (
        ok (record { disposition = applied; event_id = env.event_id }),
        record w { db = applied_db h w.db; notified = w.notified ++ update ∷ [] },
      ))
        × (view env.tenant_id env.aggregate_id (applied_db h w.db)
            ≡ some (p.quantity_after, env.aggregate_version))
  unfolding process_validated or_transient announce announce_payload notify_applied ◌>>=◌ pure
  process_validated-applies lower hash h canonical w eh eb quiet fresh found = (
    rw (eh, eb, process_transaction-applies h canonical w quiet fresh found, same_type, as_payload)
        refl,
    applied_view h w.db found,
  )
