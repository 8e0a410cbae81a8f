-- ===== src/Platform/Record/Acks.antt =====
-- When `ProcessRecord` (platform/process.go) acknowledges a record, and when it withholds that.
use seshatops.Base.{
  ℕ, ◌≡◌, refl, sym, ◌⊎◌, inl, inr, Bool, true, false, not, Option, none, some, Bytes, leb,
  if◌then◌else◌,
}
use seshatops.Base.Int64.{ℤ}
use seshatops.Base.Result.{Result, ok, err}
use seshatops.Event.Text.{EventError, malformed}
use seshatops.Event.Json.{Tokens}
use seshatops.Event.Payload.{Envelope}
use seshatops.Event.Decode.{ParseResult}
use seshatops.Event.Parse.{parse}
use seshatops.Platform.World.{
  Db, World, Disposition, Position, PlatformError, FailureRow, quarantined_mismatch,
}
use seshatops.Platform.Monad.{pure, ◌>>=◌, exec}
use seshatops.Platform.Monad.Moves.{Moves, Moves-pure, Moves-bind, Moves-exec, Moves-if}
use seshatops.Platform.Monad.Ensures.{
  Post, Ensures, Ensures-bind, Ensures-then, Ensures-exec_returning, Ensures-transact, Ensures-keep,
}
use seshatops.Platform.Store.{put_inbox, upsert_inbox}
use seshatops.Platform.Lineage.{is_projection_family, projection_self_id}
use seshatops.Platform.Process.{Decision, process_validated, quarantine_inbox}
use seshatops.Platform.Process.Records.{
  IsRecorded, process_validated-Ensures, IsDecided, IsDecided-put_inbox,
}
use seshatops.Platform.Failure.{
  Identity, parked, retry, poisoned, put_failure, upsert_failure_returning, set_quarantined,
  persist_parse_failure, persist_consumer_unsupported, poison_attempt, bump_poison_attempt,
  max_handler_attempts,
}
use seshatops.Platform.Redrive.{redrive_gaps}
use seshatops.Platform.Redrive.Refines.{redrive_gaps-Moves}
use seshatops.Platform.Record.{
  Delivery, settle, redriven, is_redrivable, after_decision, process_valid, key_matches,
  process_self, process_parsed, process_record,
}
use seshatops.Platform.Record.Durable.{
  HasEvent, HasFailure, Follows, HasEvent-Writes, HasFailure-put, HasFailure-set_quarantined,
  Follows-path,
}

HasEvent-IsDecided :
    (id hash : Bytes) (d : Disposition) (db : Db) → IsDecided id hash d db → HasEvent id db
HasEvent-IsDecided id hash d db h = rw h.found refl

upsert_failure_returning-Ensures :
    (pos : Position) (row : Bytes → FailureRow)
    → ((id : Bytes) → (row id).source ≡ pos)
    → Ensures (λ _. HasFailure pos) (upsert_failure_returning row)
unfolding upsert_failure_returning
upsert_failure_returning-Ensures pos row at = Ensures-bind _ _ (λ id.
    Ensures-exec_returning _ (put_failure (row id))
      (λ db. rw (sym (at id)) (HasFailure-put (row id) db)))

module _ (hash : Bytes → Bytes) (value : Bytes) (p : Position) where
  persist_parse_failure-Ensures :
      (who : Identity) (e : EventError)
      → Ensures (λ _. HasFailure p) (persist_parse_failure hash who value p e)
  unfolding persist_parse_failure pure
  persist_parse_failure-Ensures who e =
      Ensures-then {Q = λ _. HasFailure p} _ (λ _. pure parked)
        (Ensures-transact _ (upsert_failure_returning-Ensures p _ (λ _. refl))) (λ _ w h. h)

  module _ (lower : ℕ → ℕ) (env : Envelope) where
    persist_consumer_unsupported-Ensures :
        Ensures (λ _. HasFailure p) (persist_consumer_unsupported hash lower env value p)
    unfolding persist_consumer_unsupported pure
    persist_consumer_unsupported-Ensures =
        Ensures-then {Q = λ _. HasFailure p} _ (λ _. pure parked)
          (Ensures-transact _ (upsert_failure_returning-Ensures p _ (λ _. refl))) (λ _ w h. h)

    quarantined-keeps :
        Moves (Follows (HasFailure p)) (exec (set_quarantined p) >>= λ _. pure poisoned)
    quarantined-keeps =
        Moves-bind (Follows-path (HasFailure p)) _ _
          (Moves-exec (Follows-path (HasFailure p)) _ (HasFailure-set_quarantined p p))
          (λ _. Moves-pure (Follows-path (HasFailure p)) poisoned)

    bump_poison_attempt-Ensures :
        (code : Bytes)
        → Ensures (λ _. HasFailure p) (bump_poison_attempt hash lower env value p code)
    unfolding bump_poison_attempt poison_attempt
    bump_poison_attempt-Ensures code = Ensures-transact _ (
        Ensures-keep (HasFailure p) _ _ (upsert_failure_returning-Ensures p _ (λ _. refl)) (λ n.
          Moves-if (Follows-path (HasFailure p)) (leb max_handler_attempts n) _ _
            (λ _. quarantined-keeps) (λ _. Moves-pure (Follows-path (HasFailure p)) retry)))

quarantine_inbox-Ensures :
    (lower : ℕ → ℕ) (hash : Bytes → Bytes) (env : Envelope) (d : Disposition)
    (expected received : Option ℤ)
    → Ensures (λ _. HasEvent env.event_id) (quarantine_inbox lower hash env d expected received)
unfolding quarantine_inbox upsert_inbox exec pure
quarantine_inbox-Ensures lower hash env d expected received =
    Ensures-then {Q = λ _. HasEvent env.event_id} _ _
      (Ensures-transact _ (
        Ensures-exec_returning (λ _. tt) (put_inbox _)
          (λ db. HasEvent-IsDecided env.event_id _ d _ (IsDecided-put_inbox _ db))))
      (λ _ w h. h)

-- An acknowledged delivery comes from an action that succeeded.
settle-acked :
    {A : Type 0} (P : Db → Type 0) (f : A → Delivery) (r : Result PlatformError A × World)
    → Post (λ _. P) r
    → (settle f r).0.should_ack ≡ true
    → P (settle f r).1.db
settle-acked P f (ok a, w) p h = p
settle-acked P f (err e, w) p h = cc

module _ (lower : ℕ → ℕ) (hash : Bytes → Bytes) (tokens : Bytes → Tokens) where
  -- The record of a delivery in the database: a row of the inbox for the event of the bytes, or a row of
  -- `processing_failures` for the position.
  abbrev pub Evidence : Bytes → Position → Db → Type 0
  Evidence value p db =
      ((env : Envelope) × (parse lower tokens value ≡ ok env) × HasEvent env.event_id db)
      ⊎ HasFailure p db

  redriven-evident :
      (id : Bytes) (c : Decision) (r : Result PlatformError (Unit {0}) × World)
      → HasEvent id r.1.db
      → HasEvent id (redriven c r).1.db
  redriven-evident id c (ok a, w) h = h
  redriven-evident id c (err e, w) h = h

  after_decision-evident :
      (env : Envelope) (r : Result PlatformError Decision × World)
      → Post (IsRecorded lower hash env) r
      → (after_decision lower hash tokens env r).0.should_ack ≡ true
      → HasEvent env.event_id (after_decision lower hash tokens env r).1.db
  after_decision-evident env (err e, w) p h = cc
  after_decision-evident env (ok c, w) p h =
      let here = HasEvent-IsDecided env.event_id p.content c.disposition w.db p.decided in
      evident (is_redrivable c.disposition) _ _ here (
        redriven-evident env.event_id c
          (redrive_gaps lower hash tokens env.tenant_id env.aggregate_type env.aggregate_id w)
          ((redrive_gaps-Moves (HasEvent-Writes env.event_id) (λ _. tt) lower hash tokens
              env.tenant_id env.aggregate_type env.aggregate_id).at
            w here))
    where
      evident :
          (b : Bool) (x y : Delivery × World)
          → HasEvent env.event_id y.1.db
          → HasEvent env.event_id x.1.db
          → HasEvent env.event_id (if b then x else y).1.db
      evident true x y h k = k
      evident false x y h k = h

  module _ (faulty : Bool) (who : Identity) (key value : Bytes) (p : Position) (w : World) where
    process_valid-evident :
        (env : Envelope)
        → parse lower tokens value ≡ ok env
        → (b : Bool) → (process_valid lower hash tokens b env value p w).0.should_ack ≡ true
        → Evidence value p (process_valid lower hash tokens b env value p w).1.db
    unfolding process_valid
    process_valid-evident env e true h = inr (
        settle-acked (HasFailure p) _ (bump_poison_attempt hash lower env value p _ w)
          ((bump_poison_attempt-Ensures hash value p lower env _).at w) h)
    process_valid-evident env e false h = inl (
      env,
      e,
      after_decision-evident env (process_validated lower hash env w)
          ((process_validated-Ensures lower hash env).at w) h,
    )

    if-evident :
        (b : Bool) (x y : Delivery × World)
        → (y.0.should_ack ≡ true → Evidence value p y.1.db)
        → (x.0.should_ack ≡ true → Evidence value p x.1.db)
        → (if not b then x else y).0.should_ack ≡ true
        → Evidence value p (if not b then x else y).1.db
    if-evident true x y h k e = h e
    if-evident false x y h k e = k e

    process_self-evident :
        (env : Envelope) (o : Option Bytes)
        → parse lower tokens value ≡ ok env
        → (process_self lower hash tokens faulty who key env value p o w).0.should_ack ≡ true
        → Evidence value p (process_self lower hash tokens faulty who key env value p o w).1.db
    unfolding process_self
    process_self-evident env none e h = inr (
        settle-acked (HasFailure p) _ (persist_parse_failure hash who value p malformed w)
          ((persist_parse_failure-Ensures hash value p who malformed).at w) h)
    process_self-evident env (some self) e h =
        if-evident (key_matches lower hash tokens key env self) _ _
          (λ k. process_valid-evident env e faulty k)
          (λ k. inl (
            env,
            e,
            settle-acked (HasEvent env.event_id) _
                (quarantine_inbox lower hash env quarantined_mismatch none none w)
                ((quarantine_inbox-Ensures lower hash env quarantined_mismatch none none).at w) k,
          ))
          h

    process_parsed-evident :
        (r : ParseResult Envelope)
        → parse lower tokens value ≡ r
        → (process_parsed lower hash tokens faulty who key value p r w).0.should_ack ≡ true
        → Evidence value p (process_parsed lower hash tokens faulty who key value p r w).1.db
    unfolding process_parsed
    process_parsed-evident (err x) e h = inr (
        settle-acked (HasFailure p) _ (persist_parse_failure hash who value p x w)
          ((persist_parse_failure-Ensures hash value p who x).at w) h)
    process_parsed-evident (ok env) e h =
        if-evident (is_projection_family env.event_type) _ _
          (process_self-evident env (projection_self_id env) e)
          (λ k. inr (
            settle-acked (HasFailure p) _ (persist_consumer_unsupported hash lower env value p w)
              ((persist_consumer_unsupported-Ensures hash value p lower env).at w) k))
          h

    -- An acknowledged record is in the database: its bytes parse and the inbox has a row for their event,
    -- or `processing_failures` has a row for its position.
    pub process_record-acked :
        (process_record lower hash tokens faulty who key value p w).0.should_ack ≡ true
        → Evidence value p (process_record lower hash tokens faulty who key value p w).1.db
    unfolding process_record
    process_record-acked = process_parsed-evident (parse lower tokens value) refl
