-- ===== src/Platform/Process/Refines.antt =====
-- Rules for `processValidated` and `quarantineInbox` (platform/process.go): what they keep.
use seshatops.Base.{subst, sym, ℕ, ◌≡◌, refl, true, false, Option, none, some, Bytes, str_eq, not}
use seshatops.Base.Int64.{ℤ}
use seshatops.Base.Result.{ok, err, >>=-eq-ok}
use seshatops.Event.Payload.{Envelope, QuantityDecremented, as_quantity_decremented}
use seshatops.Event.Decode.{ParseResult}
use seshatops.Event.Validate.{validate}
use seshatops.Event.Validate.Sound.{IsEnvelope, validate_sound}
use seshatops.Event.Canonical.{canonical_bytes, content_hash}
use seshatops.Platform.World.{
  Db, Disposition, applied, duplicate_noop, quarantined_conflict, quarantined_gap, malformed,
  InboxRow,
}
use seshatops.Platform.Monad.{M, pure, raise, ◌>>=◌}
use seshatops.Platform.Monad.Moves.{
  IsPath, Moves, Moves-pure, Moves-raise, Moves-bind, Moves-query, Moves-exec, Moves-if,
  Moves-transact,
}
use seshatops.Platform.Store.{lock_inbox, upsert_inbox}
use seshatops.Platform.Writes.{Writes}
use seshatops.Platform.Projection.Decide.{decide-Moves}
use seshatops.Platform.Lineage.Refines.{apply_event-Moves}
use seshatops.Platform.Process.{
  Verdict, apply_fresh, keep_decision, repeat_decision, known_event, decide_event,
  process_transaction, notify_applied, announce, announce_payload, or_transient, process_validated,
  quarantine_inbox,
}

pub Moves-or_transient :
    {R : Db → Db → Type 0} {A B : Type 0}
    → IsPath R
    → (r : ParseResult A) (k : A → M B) → ((a : A) → r ≡ ok a → Moves R (k a))
    → Moves R (or_transient r >>= k)
unfolding or_transient ◌>>=◌ pure raise
Moves-or_transient path (ok a) k h = record { at = λ w. (h a refl).at w }
Moves-or_transient path (err e) k h = record { at = λ w. path.stay w.db }

module _ {R : Db → Db → Type 0} (path : IsPath R) (env : Envelope) where
  announce_payload-Moves : (o : Option QuantityDecremented) → Moves R (announce_payload env o)
  unfolding announce_payload notify_applied
  announce_payload-Moves none = Moves-raise path malformed
  announce_payload-Moves (some p) = record { at = λ w. path.stay w.db }

  pub announce-Moves : (v : Verdict) → Moves R (announce env v)
  unfolding announce
  announce-Moves (d, fresh) =
      Moves-if path _ _ _ (λ _. announce_payload-Moves (as_quantity_decremented env))
        (λ _. Moves-pure path tt)

canonical_bytes-IsEnvelope :
    (lower : ℕ → ℕ) (env : Envelope) (b : Bytes)
    → canonical_bytes lower env ≡ ok b
    → IsEnvelope lower env
unfolding canonical_bytes
canonical_bytes-IsEnvelope lower env b h =
    let (_, valid, _) = >>=-eq-ok (validate lower env) _ h in validate_sound lower env valid

module _ {P : Bytes → Type 0} {R : Db → Db → Type 0} (W : Writes P R) where
  module _ (lower : ℕ → ℕ) (env : Envelope) (mine : P env.event_id) (valid : IsEnvelope lower env)
      (hash canonical : Bytes) where
    apply_fresh-Moves : Moves R (apply_fresh env hash canonical)
    unfolding apply_fresh
    apply_fresh-Moves =
        Moves-bind W.path _ _ (apply_event-Moves W env mine hash canonical lower valid)
          (λ d. Moves-pure W.path (d, true))

    repeat_decision-Moves : (h : Bytes) (d : Disposition) → Moves R (repeat_decision env h d)
    unfolding repeat_decision
    repeat_decision-Moves h d =
        Moves-bind W.path _ _
          (decide-Moves W.path env h (λ row x e. W.inbox row x (subst P (sym e) mine)) d)
          (λ _. Moves-pure W.path (d, false))

    known_event-Moves : (d : Disposition) → Moves R (known_event env hash canonical d)
    unfolding known_event keep_decision
    known_event-Moves applied = repeat_decision-Moves hash duplicate_noop
    known_event-Moves duplicate_noop = repeat_decision-Moves hash duplicate_noop
    known_event-Moves quarantined_gap = apply_fresh-Moves
    known_event-Moves d = Moves-pure W.path (d, false)

    decide_event-Moves : (o : Option InboxRow) → Moves R (decide_event env hash canonical o)
    unfolding decide_event
    decide_event-Moves none = apply_fresh-Moves
    decide_event-Moves (some row) =
        Moves-if W.path (not (str_eq row.content_hash hash)) _ _
          (λ _. repeat_decision-Moves row.content_hash quarantined_conflict)
          (λ _. known_event-Moves row.disposition)

    process_transaction-Moves : Moves R (process_transaction env hash canonical)
    unfolding process_transaction lock_inbox
    process_transaction-Moves = Moves-transact W.path _ (
        Moves-bind W.path _ (decide_event env hash canonical) (Moves-query W.path _)
          decide_event-Moves)

  module _ (lower : ℕ → ℕ) (hash : Bytes → Bytes) (env : Envelope) (mine : P env.event_id) where
    pub process_validated-Moves : Moves R (process_validated lower hash env)
    unfolding process_validated
    process_validated-Moves = Moves-or_transient W.path (content_hash lower hash env) _ (λ h _.
        Moves-or_transient W.path (canonical_bytes lower env) _ (λ b e.
          Moves-bind W.path (process_transaction env h b) _
            (process_transaction-Moves lower env mine (canonical_bytes-IsEnvelope lower env b e) h
              b)
            (λ v.
              Moves-bind W.path (announce env v) _ (announce-Moves W.path env v)
                (λ _. Moves-pure W.path _))))

    pub quarantine_inbox-Moves :
        (d : Disposition) (expected received : Option ℤ)
        → Moves R (quarantine_inbox lower hash env d expected received)
    unfolding quarantine_inbox upsert_inbox
    quarantine_inbox-Moves d expected received =
        Moves-bind W.path _ _
          (Moves-transact W.path _ (Moves-exec W.path _ (λ d. W.inbox _ d mine)))
          (λ _. Moves-pure W.path _)
