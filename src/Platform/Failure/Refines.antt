-- ===== src/Platform/Failure/Refines.antt =====
-- Rules for the writes of `platform.processing_failures` (platform/process.go): what they keep.
use seshatops.Base.{ℕ, List, Bytes, leb, [], ◌∷◌}
use seshatops.Event.Text.{EventError}
use seshatops.Event.Payload.{Envelope}
use seshatops.Platform.World.{Db, World, FailureRow, Position}
use seshatops.Platform.Monad.Moves.{
  Moves, Moves-pure, Moves-bind, Moves-exec, Moves-exec_returning, Moves-if, Moves-transact,
}
use seshatops.Platform.Writes.{Writes}
use seshatops.Platform.Failure.{
  Identity, put_failure, next_id, new_failure_id, upsert_failure_returning, parked, retry, poisoned,
  persist_parse_failure, persist_consumer_unsupported, poison_attempt, bump_poison_attempt,
  max_handler_attempts,
}

module _ {P : Bytes → Type 0} {R : Db → Db → Type 0} (W : Writes P R) where
  next_id-stays : (ids : List Bytes) (w : World) → R w.db (next_id ids w).1.db
  unfolding next_id
  next_id-stays [] w = W.path.stay w.db
  next_id-stays (id ∷ rest) w = W.path.stay w.db

  new_failure_id-Moves : Moves R new_failure_id
  unfolding new_failure_id
  new_failure_id-Moves = record { at = λ w. next_id-stays w.fresh_ids w }

  upsert_failure_returning-Moves :
      (row : Bytes → FailureRow) → Moves R (upsert_failure_returning row)
  unfolding upsert_failure_returning
  upsert_failure_returning-Moves row =
      Moves-bind W.path _ _ new_failure_id-Moves
        (λ id. Moves-exec_returning W.path _ (put_failure (row id)) (W.failure (row id)))

  module _ (hash : Bytes → Bytes) where
    pub persist_parse_failure-Moves :
        (who : Identity) (value : Bytes) (p : Position) (e : EventError)
        → Moves R (persist_parse_failure hash who value p e)
    unfolding persist_parse_failure
    persist_parse_failure-Moves who value p e =
        Moves-bind W.path _ _ (Moves-transact W.path _ (upsert_failure_returning-Moves _))
          (λ _. Moves-pure W.path parked)

    module _ (lower : ℕ → ℕ) (env : Envelope) (value : Bytes) (p : Position) where
      pub persist_consumer_unsupported-Moves :
          Moves R (persist_consumer_unsupported hash lower env value p)
      unfolding persist_consumer_unsupported
      persist_consumer_unsupported-Moves =
          Moves-bind W.path _ _ (Moves-transact W.path _ (upsert_failure_returning-Moves _))
            (λ _. Moves-pure W.path parked)

      pub bump_poison_attempt-Moves :
          (code : Bytes) → Moves R (bump_poison_attempt hash lower env value p code)
      unfolding bump_poison_attempt poison_attempt
      bump_poison_attempt-Moves code = Moves-transact W.path _ (
          Moves-bind W.path _ _ (upsert_failure_returning-Moves _) (λ n.
            Moves-if W.path (leb max_handler_attempts n) _ _
              (λ _.
                Moves-bind W.path _ _ (Moves-exec W.path _ (W.quarantine p))
                  (λ _. Moves-pure W.path poisoned))
              (λ _. Moves-pure W.path retry)))
