-- ===== src/Platform/Projection/Refines.antt =====
-- `applyProjection` (platform/process.go) against the specification of the projection.
use seshatops.Base.{
  ℕ, suc, ◌+◌, ◌≤◌, ◌≡◌, sym, ◌∙◌, inl, inr, true, false, not, Bool-cases, Option, none, some,
  Bytes, arith,
}
use seshatops.Base.Int64.{ℤ, pos, ltb_ℤ, eqb_ℤ, eqb_ℤ_iff, ◌+ℤ◌, ◌-ℤ◌, +ℤ-one, max_safe_int}
use seshatops.Event.Payload.{
  Envelope, QuantityDecremented, Payload, quantity_decremented, as_quantity_decremented,
}
use seshatops.Event.Validate.Payloads.{Decrements, PayloadIsValid}
use seshatops.Event.Validate.Sound.{IsVersion, IsEnvelope}
use seshatops.Platform.World.{
  Db, InboxRow, World, ProjectionRow, applied, quarantined_gap, quarantined_stale,
  quarantined_transition, quarantined_invalid, malformed,
}
use seshatops.Platform.Monad.{◌>>◌}
use seshatops.Platform.Monad.Moves.{Moves, Moves-raise, bind-at, exec-at, if-at, Moves-bind-query}
use seshatops.Platform.Store.{
  put_inbox, find_projection, lock_projection, add_projection, set_projection, insert_projection,
  update_projection,
}
use seshatops.Platform.Projection.{
  decide, decide_version, project_first, project_next, project_row, project_payload,
  apply_projection,
}
use seshatops.Platform.Projection.Decide.{decide-Moves, decide_version-Moves}
use seshatops.Platform.Projection.Advance.{
  row, Keeps, Keeps-path, Keeps-put_inbox, Keeps-add_projection, Keeps-set_projection, IsSound,
}

next_version :
    (old new : ℤ) (v n : ℕ)
    → old ≡ pos v
    → new ≡ pos n
    → v ≤ max_safe_int
    → ltb_ℤ old new ≡ true
    → ltb_ℤ (old +ℤ pos 1) new ≡ false
    → n ≡ suc v
next_version old new v n eo en small newer adjacent = ground (arith, +ℤ-one v (omega arith), eo, en)

module _ (env : Envelope) (hash : Bytes) where
  Keeps-inbox : (row : InboxRow) (d : Db) → row.event_id ≡ env.event_id → Keeps d (put_inbox row d)
  Keeps-inbox row d _ = Keeps-put_inbox row d

  module _ (p : QuantityDecremented) (canonical : Bytes) where
    first_insert :
        (a : ℕ) (w : World)
        → p.quantity_after ≡ pos a
        → find_projection env.tenant_id env.aggregate_id w.db ≡ none
        → Keeps w.db
            (insert_projection env.tenant_id env.aggregate_id p.quantity_after (pos 1) w).1.db
    unfolding insert_projection
    first_insert a w e absent = rw e (
        exec-at Keeps-path (add_projection (row env.tenant_id env.aggregate_id (pos a) (pos 1))) w
          (Keeps-add_projection env.tenant_id env.aggregate_id a w.db absent))

    project_first-at :
        (a : ℕ) (w : World)
        → p.quantity_after ≡ pos a
        → find_projection env.tenant_id env.aggregate_id w.db ≡ none
        → Keeps w.db (project_first env p hash canonical w).1.db
    unfolding project_first
    project_first-at a w e absent =
        if-at Keeps-path (not (eqb_ℤ env.aggregate_version (pos 1)))
          (decide_version env hash quarantined_gap (pos 1) (some canonical))
          (insert_projection env.tenant_id env.aggregate_id p.quantity_after (pos 1)
            >> decide env hash applied)
          w
          (λ _.
            (decide_version-Moves Keeps-path env hash Keeps-inbox quarantined_gap (pos 1)
                (some canonical)).at
              w)
          (λ _.
            bind-at Keeps-path
              (insert_projection env.tenant_id env.aggregate_id p.quantity_after (pos 1))
              (λ _. decide env hash applied) w (first_insert a w e absent)
              (λ _. decide-Moves Keeps-path env hash Keeps-inbox applied))

    -- The version and the quantity that the tests of `applyProjection` have let through.
    next_update :
        (old : ProjectionRow) (w : World)
        → IsVersion env.aggregate_version
        → Decrements p.quantity_decremented p.quantity_before p.quantity_after
        → IsSound w.db
        → find_projection env.tenant_id env.aggregate_id w.db ≡ some old
        → ltb_ℤ old.aggregate_version env.aggregate_version ≡ true
        → ltb_ℤ (old.aggregate_version +ℤ pos 1) env.aggregate_version ≡ false
        → eqb_ℤ p.quantity_before old.quantity_on_hand ≡ true
        → Keeps w.db
            (update_projection env.tenant_id env.aggregate_id p.quantity_after env.aggregate_version
              w).1.db
    unfolding update_projection
    next_update old w (n, en, one, small) (t, a, et, ea, eb, pos_t, small_t) sound found newer
          adjacent same =
        let (v, ev, one_v, small_v) =
          sound.versions env.tenant_id env.aggregate_id old.quantity_on_hand old.aggregate_version
            (cc found) in
        let step : n ≡ suc v =
          next_version old.aggregate_version env.aggregate_version v n ev en small_v newer
            adjacent in
        let qty : old.quantity_on_hand ≡ pos (a + t) =
          sym ((eqb_ℤ_iff p.quantity_before old.quantity_on_hand).0 same) ∙ eb in
        rw (ea, en, step)
          (exec-at Keeps-path (set_projection env.tenant_id env.aggregate_id (pos a) (pos (suc v)))
            w
            (Keeps-set_projection env.tenant_id env.aggregate_id a w.db t v old found qty ev pos_t
              (omega arith)))

    project_next-at :
        (old : ProjectionRow) (w : World)
        → IsVersion env.aggregate_version
        → Decrements p.quantity_decremented p.quantity_before p.quantity_after
        → find_projection env.tenant_id env.aggregate_id w.db ≡ some old
        → Keeps w.db (project_next env p hash canonical old w).1.db
    unfolding project_next
    project_next-at old w version quantities found sound =
        elim (Bool-cases (ltb_ℤ old.aggregate_version env.aggregate_version)) [
          | inr stale ↦ rw stale (
              (decide_version-Moves Keeps-path env hash Keeps-inbox quarantined_stale _ none).at w
                sound)
          | inl newer ↦
              elim (Bool-cases (ltb_ℤ (old.aggregate_version +ℤ pos 1) env.aggregate_version)) [
                | inl gap ↦
                    rw (newer, gap)
                      ((decide_version-Moves Keeps-path env hash Keeps-inbox quarantined_gap _
                          (some canonical)).at
                        w sound)
                | inr adjacent ↦ elim (Bool-cases (eqb_ℤ p.quantity_before old.quantity_on_hand)) [
                  | inr other ↦
                      rw (newer, adjacent, other)
                        ((decide-Moves Keeps-path env hash Keeps-inbox quarantined_transition).at w
                          sound)
                  | inl same ↦
                      rw (newer, adjacent, same)
                        (if-at Keeps-path
                          (not
                            (eqb_ℤ (p.quantity_before -ℤ p.quantity_decremented) p.quantity_after))
                          (decide env hash quarantined_invalid)
                          (update_projection env.tenant_id env.aggregate_id p.quantity_after
                              env.aggregate_version
                            >> decide env hash applied)
                          w
                          (λ _.
                            (decide-Moves Keeps-path env hash Keeps-inbox quarantined_invalid).at w)
                          (λ _.
                            bind-at Keeps-path
                              (update_projection env.tenant_id env.aggregate_id p.quantity_after
                                env.aggregate_version)
                              (λ _. decide env hash applied) w
                              (λ s.
                                next_update old w version quantities s found newer adjacent same s)
                              (λ _. decide-Moves Keeps-path env hash Keeps-inbox applied))
                          sound)
                ]
              ]
        ]

    project_row-at :
        (o : Option ProjectionRow) (w : World)
        → IsVersion env.aggregate_version
        → Decrements p.quantity_decremented p.quantity_before p.quantity_after
        → o ≡ find_projection env.tenant_id env.aggregate_id w.db
        → Keeps w.db (project_row env p hash canonical o w).1.db
    unfolding project_row
    project_row-at none w version quantities e =
        project_first-at quantities.1 w quantities.3 (sym e)
    project_row-at (some old) w version quantities e =
        project_next-at old w version quantities (sym e)

-- On a valid envelope `applyProjection` moves the projection along its specification, whatever the
-- database answers.
pub apply_projection-Moves :
    (lower : ℕ → ℕ) (env : Envelope) (hash canonical : Bytes)
    → IsEnvelope lower env
    → Moves Keeps (apply_projection env hash canonical)
unfolding apply_projection as_quantity_decremented project_payload lock_projection
apply_projection-Moves lower env hash canonical valid =
    payload_moves env.payload valid.payload_valid
  where
    payload_moves :
        (q : Payload)
        → PayloadIsValid lower q env
        → Moves Keeps (
            project_payload env hash canonical
              (elim q [ quantity_decremented p ↦ some p | _ ↦ none ]))
    payload_moves (quantity_decremented p) h =
        Moves-bind-query Keeps-path (find_projection env.tenant_id env.aggregate_id)
          (project_row env p hash canonical)
          (λ w o e. project_row-at env hash p canonical o w valid.version h.quantities e)
    payload_moves _ h = Moves-raise Keeps-path malformed
