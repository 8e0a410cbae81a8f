-- ===== src/Platform/Redrive/Refines.antt =====
-- Rules for `redriveGaps` (platform/process.go): what it keeps.
use seshatops.Base.{ℕ, zero, suc, Bool, true, false, Option, none, some, Bytes, not, str_eq}
use seshatops.Base.Result.{ok, err}
use seshatops.Event.Json.{Tokens}
use seshatops.Event.Canonical.{content_hash}
use seshatops.Event.Decode.{ParseResult}
use seshatops.Event.Parse.{parse}
use seshatops.Platform.World.{Db, InboxRow, quarantined_conflict, exhausted}
use seshatops.Platform.Monad.{M, pure}
use seshatops.Platform.Monad.Moves.{
  Moves, Moves-pure, Moves-raise, Moves-bind, Moves-query, Moves-if,
}
use seshatops.Platform.Writes.{Writes}
use seshatops.Platform.Process.Refines.{process_validated-Moves, quarantine_inbox-Moves}
use seshatops.Platform.Redrive.{
  lift_event, platform_error, bytes_of, redrive_row, ended, redrive_found, redrive_round, redrive,
  redrive_gaps,
}

module _ {P : Bytes → Type 0} {R : Db → Db → Type 0} (W : Writes P R)
    (all : (id : Bytes) → P id) where
  lift_event-Moves : {A : Type 0} (r : ParseResult A) → Moves R (lift_event r)
  unfolding lift_event
  lift_event-Moves (ok a) = Moves-pure W.path a
  lift_event-Moves (err e) = Moves-raise W.path (platform_error e)

  again-Moves :
      {m : M Bool} → Moves R m → (b : Bool) → Moves R (elim b [ true ↦ m | false ↦ pure true ])
  again-Moves h true = h
  again-Moves h false = Moves-pure W.path true

  ended-Moves : (b : Bool) → Moves R (ended b)
  ended-Moves true = Moves-pure W.path tt
  ended-Moves false = Moves-raise W.path exhausted

  module _ (lower : ℕ → ℕ) (hash : Bytes → Bytes) (tokens : Bytes → Tokens) where
    redrive_row-Moves : (row : InboxRow) → Moves R (redrive_row lower hash tokens row)
    unfolding redrive_row
    redrive_row-Moves row =
        Moves-bind W.path _ _ (lift_event-Moves (parse lower tokens (bytes_of row))) (λ env.
          Moves-bind W.path _ _ (lift_event-Moves (content_hash lower hash env)) (λ got.
            Moves-if W.path (not (str_eq got row.content_hash)) _ _
              (λ _.
                Moves-bind W.path _ _
                  (quarantine_inbox-Moves W lower hash env (all env.event_id) quarantined_conflict
                    none none)
                  (λ _. Moves-pure W.path true))
              (λ _.
                Moves-bind W.path _ _ (process_validated-Moves W lower hash env (all env.event_id))
                  (λ _. Moves-pure W.path _))))

    redrive_found-Moves : (o : Option InboxRow) → Moves R (redrive_found lower hash tokens o)
    unfolding redrive_found
    redrive_found-Moves none = Moves-pure W.path false
    redrive_found-Moves (some row) = redrive_row-Moves row

    module _ (tenant type id : Bytes) where
      redrive_round-Moves : Moves R (redrive_round lower hash tokens tenant type id)
      unfolding redrive_round
      redrive_round-Moves =
          Moves-bind W.path _ (redrive_found lower hash tokens) (Moves-query W.path _)
            redrive_found-Moves

      redrive-Moves : (f : ℕ) → Moves R (redrive lower hash tokens f tenant type id)
      unfolding redrive
      redrive-Moves zero = Moves-pure W.path false
      redrive-Moves (suc f) =
          Moves-bind W.path (redrive_round lower hash tokens tenant type id) _ redrive_round-Moves
            (λ again. again-Moves (redrive-Moves f) again)

      pub redrive_gaps-Moves : Moves R (redrive_gaps lower hash tokens tenant type id)
      unfolding redrive_gaps
      redrive_gaps-Moves = record {
        at = λ w. (Moves-bind W.path _ ended (redrive-Moves _) ended-Moves).at w;
      }
