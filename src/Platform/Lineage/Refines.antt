-- ===== src/Platform/Lineage/Refines.antt =====
-- Rules for the lineage writes of platform/lineage.go: what they keep.
use seshatops.Base.{◌≡◌, subst, sym, ℕ, inl, inr, Bool-cases, Option, none, some, Bytes, str_eq}
use seshatops.Event.Payload.{Envelope, event_type_quantity_decremented}
use seshatops.Event.Validate.Sound.{IsEnvelope}
use seshatops.Platform.World.{InboxRow, Db, Disposition, quarantined_stale, malformed, Hop, HopRow}
use seshatops.Platform.Monad.Moves.{
  Moves, Moves-pure, Moves-raise, Moves-bind, Moves-query, Moves-exec_returning, Moves-if,
  Moves-transact,
}
use seshatops.Platform.Store.{put_inbox}
use seshatops.Platform.Writes.{Writes}
use seshatops.Platform.Projection.Decide.{decide-Moves, decide_version-Moves}
use seshatops.Platform.Lineage.{
  add_hop, hop_is_free, insert_lineage_hop, insert_row, lock_lineage_version,
  lineage_source_event_id, lineage_existing, lineage_existing_disposition, lineage_first,
  lineage_row, lineage_hop, apply_lineage, apply_event, hop_of,
}

ruleset moves = (Moves-pure, Moves-raise, Moves-bind, Moves-query, Moves-if, Moves-transact)

module _ {P : Bytes → Type 0} {R : Db → Db → Type 0} (W : Writes P R) where
  add_hop-moves : (h : Hop) (row : HopRow) (d : Db) → R d (add_hop h row d)
  unfolding add_hop
  add_hop-moves h row d = elim (Bool-cases (hop_is_free h row d)) [
    | inl e ↦ rw e (W.hop h row d)
    | inr e ↦ rw e (W.path.stay d)
  ]

  insert_row-Moves : (h : Hop) (o : Option HopRow) → Moves R (insert_row h o)
  unfolding insert_row
  insert_row-Moves h none = Moves-raise W.path malformed
  insert_row-Moves h (some row) =
      Moves-exec_returning W.path (hop_is_free h row) (add_hop h row) (add_hop-moves h row)

  module _ (env : Envelope) (mine : P env.event_id) (hash canonical : Bytes) where
    own : (row : InboxRow) (d : Db) → row.event_id ≡ env.event_id → R d (put_inbox row d)
    own row d e = W.inbox row d (subst P (sym e) mine)

    lineage_first-Moves : (h : Hop) → Moves R (lineage_first h env hash canonical)
    unfolding lineage_first insert_lineage_hop lineage_source_event_id
    lineage_first-Moves h =
        search
          (
            moves,
            W.path,
            decide-Moves W.path env hash own,
            decide_version-Moves W.path env hash own,
            insert_row-Moves,
          )
          depth 9

    lineage_existing-Moves :
        (h : Hop) (row : HopRow) (d : Disposition)
        → Moves R (lineage_existing h env hash canonical row d)
    unfolding lineage_existing lineage_source_event_id
    lineage_existing-Moves h row quarantined_stale =
        search
          (
            moves,
            W.path,
            decide-Moves W.path env hash own,
            decide_version-Moves W.path env hash own,
          )
          depth 9
    lineage_existing-Moves h row d = decide_version-Moves W.path env hash own d _ _

    lineage_row-Moves : (h : Hop) (o : Option HopRow) → Moves R (lineage_row h env hash canonical o)
    unfolding lineage_row
    lineage_row-Moves h none = lineage_first-Moves h
    lineage_row-Moves h (some row) =
        lineage_existing-Moves h row
          (lineage_existing_disposition row.aggregate_version env.aggregate_version)

    lineage_hop-Moves : (o : Option Hop) → Moves R (lineage_hop env hash canonical o)
    unfolding lineage_hop lock_lineage_version
    lineage_hop-Moves none = Moves-raise W.path malformed
    lineage_hop-Moves (some h) =
        Moves-bind W.path _ (lineage_row h env hash canonical) (Moves-query W.path _)
          (lineage_row-Moves h)

    -- `applyEvent` of a valid envelope moves the projection along its specification.
    pub apply_event-Moves :
        (lower : ℕ → ℕ) → IsEnvelope lower env → Moves R (apply_event env hash canonical)
    unfolding apply_event apply_lineage
    apply_event-Moves lower valid =
        Moves-if W.path (str_eq env.event_type event_type_quantity_decremented) _ _
          (λ _. W.projection lower env hash canonical mine valid)
          (λ _. lineage_hop-Moves (hop_of env.event_type))
