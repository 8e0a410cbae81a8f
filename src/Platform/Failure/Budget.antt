-- ===== src/Platform/Failure/Budget.antt =====
-- The attempt budget of `bumpPoisonAttempt` (platform/process.go).
use seshatops.Base.{
  ℕ, suc, ◌≡◌, refl, ◌∙◌, inl, inr, true, Bool-cases, Option, none, some, List, [], ◌∷◌, Bytes, leb,
  str_eq_refl, lit, if◌then◌else◌, arith,
}
use seshatops.Base.Int64.{eqb_ℤ_iff}
use seshatops.Base.Table.{select_row, select_row-upsert, select_row-update_where}
use seshatops.Base.Result.{ok}
use seshatops.Event.Payload.{Envelope}
use seshatops.Platform.World.{Db, World, FailureRow, Position, quarantined, retrying}
use seshatops.Platform.Monad.{pure, ◌>>=◌, exec, exec_returning, outcome, take_outcome, transact}
use seshatops.Event.Canonical.{content_hash}
use seshatops.Platform.Failure.{
  identity_of, known, find_failure, is_source, merge_failure, put_failure, set_quarantined,
  attempts_after, next_id, new_failure_id, upsert_failure_returning, poisoned, retry,
  poison_attempt, bump_poison_attempt, failure_row,
}

-- The attempts recorded for a position.
abbrev attempts_of : Option FailureRow → ℕ
attempts_of none = 0
attempts_of (some row) = row.attempt_count

abbrev pub attempts : Position → Db → ℕ
attempts p db = attempts_of (find_failure p db)

is_source_refl : (row : FailureRow) → is_source row.source row ≡ true
is_source_refl row = ground (
  arith,
  str_eq_refl row.source.topic,
  eqb_ℤ_iff row.source.partition row.source.partition,
  eqb_ℤ_iff row.source.offset row.source.offset,
)

attempts-put_failure :
    (row : FailureRow) (db : Db)
    → row.attempt_count ≡ 1
    → attempts row.source (put_failure row db) ≡ suc (attempts row.source db)
unfolding put_failure find_failure
attempts-put_failure row db one =
    rw
      (select_row-upsert (is_source row.source) (merge_failure row) row db.failures
        (is_source_refl row) (λ r h. h))
      (counted (select_row (is_source row.source) db.failures))
  where
    counted :
        (o : Option FailureRow)
        → attempts_of (some (elim o [ none ↦ row | some old ↦ merge_failure row old ]))
          ≡ suc (attempts_of o)
    counted none = one
    counted (some old) = refl

attempts-set_quarantined :
    (p : Position) (db : Db) → attempts p (set_quarantined p db) ≡ attempts p db
unfolding set_quarantined find_failure
attempts-set_quarantined p db =
    rw
      (select_row-update_where (is_source p) (is_source p)
        (λ r. record r { quarantine_status = quarantined }) db.failures (λ r _. refl))
      (kept (select_row (is_source p) db.failures))
  where
    kept :
        (o : Option FailureRow)
        → attempts_of (elim o [
          | none ↦ none
          | some r ↦
              some (if is_source p r then record r { quarantine_status = quarantined } else r)
        ])
          ≡ attempts_of o
    kept none = refl
    kept (some r) = ground arith

module _ (hash : Bytes → Bytes) (lower : ℕ → ℕ) (env : Envelope) (value : Bytes) (p : Position)
    (code : Bytes) where
  abbrev new_row : Bytes → FailureRow
  new_row =
      failure_row (identity_of hash lower env) (lit "handler_poison")
        (known hash (content_hash lower hash env)) (hash value) p code retrying

  attempts_after_lem : (o : Option FailureRow) → attempts_after o ≡ suc (attempts_of o)
  attempts_after_lem none = refl
  attempts_after_lem (some old) = refl

  -- A failing handler, while the database and the random source answer: one more attempt is recorded for
  -- the position, and the delivery is retried below five attempts and given up from the fifth.
  pub bump_poison_attempt-counts :
      (w : World) (id : Bytes) (ids : List Bytes)
      → w.outcomes ≡ []
      → w.fresh_ids ≡ id ∷ ids
      → ((bump_poison_attempt hash lower env value p code w).0
          ≡ ok (if leb 5 (suc (attempts p w.db)) then poisoned else retry))
        × (attempts p (bump_poison_attempt hash lower env value p code w).1.db
            ≡ suc (attempts p w.db))
  unfolding bump_poison_attempt poison_attempt transact outcome take_outcome ◌>>=◌ pure exec
      exec_returning upsert_failure_returning new_failure_id next_id
  bump_poison_attempt-counts w id ids quiet drawn =
      let count = attempts_after_lem (find_failure p w.db) in
      let put = attempts-put_failure (new_row id) w.db refl in
      let set = attempts-set_quarantined p (put_failure (new_row id) w.db) in
      elim (Bool-cases (leb 5 (suc (attempts p w.db)))) [
        | inl spent ↦
            (rw (quiet, drawn, count, spent) refl, rw (quiet, drawn, count, spent) (set ∙ put))
        | inr left ↦ (rw (quiet, drawn, count, left) refl, rw (quiet, drawn, count, left) put)
      ]
