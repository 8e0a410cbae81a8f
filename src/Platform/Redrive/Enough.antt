-- ===== src/Platform/Redrive/Enough.antt =====
-- The rounds of the loop of `redriveGaps` (platform/process.go).
use seshatops.Base.{
  subst, str_eq_refl, ℕ, zero, suc, ◌≤◌, ◌<◌, ◌≡◌, refl, sym, ◌∙◌, inl, inr, Bool, true, false, not,
  Bool-cases, Option, none, some, List, [], ◌∷◌, Bytes, All, str_eq, if◌then◌else◌, arith,
}
use seshatops.Base.Table.{select_row, select_row_sound, count_where-found}
use seshatops.Base.Result.{ok, err}
use seshatops.Event.Json.{Tokens}
use seshatops.Event.Payload.{Envelope}
use seshatops.Event.Decode.{ParseResult}
use seshatops.Event.Canonical.{content_hash}
use seshatops.Event.Parse.{parse}
use seshatops.Platform.World.{Db, World, InboxRow, ProjectionRow, quarantined_conflict}
use seshatops.Platform.Monad.{M, pure, raise, ◌>>=◌, query, exec}
use seshatops.Platform.Monad.Moves.{IsPath, Moves-query}
use seshatops.Platform.Monad.Ensures.{
  Post, Ensures, Ensures-then, Ensures-query, Ensures-transact, Ensures-exec_returning, Post-bind,
  Post-both,
}
use seshatops.Platform.Store.{find_projection, is_gap, is_applied, put_inbox, upsert_inbox}
use seshatops.Platform.Store.Gaps.{own_gaps, own_gaps-put_inbox, is_own_gap}
use seshatops.Platform.Process.{process_validated, quarantine_inbox}
use seshatops.Platform.Process.Refines.{process_validated-Moves, quarantine_inbox-Moves}
use seshatops.Platform.Process.Records.{IsRecorded, process_validated-Ensures}
use seshatops.Platform.Redrive.{
  is_next_gap, next_gap, next_gap_of, gap_count, lift_event, bytes_of, redrive_row, redrive_found,
  redrive_round, redrive,
}
use seshatops.Platform.Redrive.Measure.{GapsAreOwn, OwnBytes, Others, Others-Writes, Less, less_lem}

same-path : IsPath (λ d d'. d' ≡ d)
same-path = record { stay = λ d. refl; join = λ a b c p q. q ∙ p }

All-select {ℓ κ} :
    {A : Type ℓ} (P : A → Type κ) (p : A → Bool) (rs : List A) (r : A)
    → select_row p rs ≡ some r
    → All P rs
    → P r
unfolding select_row
All-select P p [] r e h = cc
All-select P p (x ∷ rs) r e (h, hs) = elim (Bool-cases (p x)) [
  | inl k ↦ subst P (cc (rw k at e)) h
  | inr k ↦ All-select P p rs r (rw k at e) hs
]

module _ (lower : ℕ → ℕ) (hash : Bytes → Bytes) (tokens : Bytes → Tokens) where
  lift_event-Post {ι} :
      {A B : Type 0} (P : B → Db → Type ι) (r : ParseResult A) (k : A → M B) (w : World)
      → ((a : A) → r ≡ ok a → Post P (k a w))
      → Post P ((lift_event r >>= k) w)
  unfolding lift_event ◌>>=◌ pure raise
  lift_event-Post P (ok a) k w h = h a refl
  lift_event-Post P (err e) k w h = tt

  quarantine_inbox-cleared :
      (env : Envelope)
      → Ensures
          (λ _ d. own_gaps env.event_id d ≡ 0)
          (quarantine_inbox lower hash env quarantined_conflict none none)
  unfolding quarantine_inbox upsert_inbox exec pure
  quarantine_inbox-cleared env =
      Ensures-then {Q = λ _ d. own_gaps env.event_id d ≡ 0} _ _
        (Ensures-transact _
          (Ensures-exec_returning (λ _. tt) (put_inbox _) (λ db. own_gaps-put_inbox _ db refl)))
        (λ _ w h. h)

  -- A selected row, whose stored bytes are its event's.
  redrive_row-Less :
      (row : InboxRow) (w : World)
      → is_gap row.disposition ≡ true
      → 1 ≤ own_gaps row.event_id w.db
      → OwnBytes lower tokens row
      → GapsAreOwn lower tokens w.db
      → Post (Less lower tokens (gap_count w.db)) (redrive_row lower hash tokens row w)
  unfolding redrive_row pure
  redrive_row-Less row w gap one bytes own =
      lift_event-Post (Less lower tokens (gap_count w.db)) (parse lower tokens (bytes_of row)) _ w
        (λ env parsed.
          let same : env.event_id ≡ row.event_id = bytes gap env parsed in
          lift_event-Post (Less lower tokens (gap_count w.db)) (content_hash lower hash env) _ w
            (λ got _. chosen env same (str_eq got row.content_hash)))
    where
      id : Bytes
      id = row.event_id

      goes_on :
          (d : Db)
          → Others lower tokens id w.db d
          → own_gaps id d ≡ 0
          → (suc (gap_count d) ≤ gap_count w.db) × GapsAreOwn lower tokens d
      goes_on d others cleared = less_lem lower tokens id w.db d one own others cleared

      chosen :
          (env : Envelope)
          → env.event_id ≡ row.event_id
          → (b : Bool)
          → Post (Less lower tokens (gap_count w.db)) (
              (if not b
                  then (quarantine_inbox lower hash env quarantined_conflict none none >>= λ _.
                      pure true)
                  else (process_validated lower hash env >>= λ res.
                      pure (is_applied res.disposition)))
                w)
      chosen env same false =
          Post-bind (Less lower tokens (gap_count w.db))
            (λ _ d. (own_gaps env.event_id d ≡ 0) × Others lower tokens id w.db d) _ _ w
            (Post-both (λ _ d. own_gaps env.event_id d ≡ 0) (Others lower tokens id w.db)
              (quarantine_inbox lower hash env quarantined_conflict none none w)
              ((quarantine_inbox-cleared env).at w)
              ((quarantine_inbox-Moves (Others-Writes lower tokens id) lower hash env same
                  quarantined_conflict none none).at
                w))
            (λ _ w' (cleared, others) _. goes_on w'.db others (rw same at cleared))
      chosen env same true =
          Post-bind (Less lower tokens (gap_count w.db))
            (λ c d. IsRecorded lower hash env c d × Others lower tokens id w.db d) _ _ w
            (Post-both (IsRecorded lower hash env) (Others lower tokens id w.db)
              (process_validated lower hash env w) ((process_validated-Ensures lower hash env).at w)
              ((process_validated-Moves (Others-Writes lower tokens id) lower hash env same).at w))
            (λ c w' (recorded, others) is.
              goes_on w'.db others (rw same at (recorded.decided.cleared is)))

  module _ (tenant type id : Bytes) where
    next_gap-gap :
        (o : Option ProjectionRow) (d : Db) (row : InboxRow)
        → some row ≡ next_gap_of tenant type id d o
        → (is_gap row.disposition ≡ true) × (1 ≤ own_gaps row.event_id d)
    unfolding next_gap_of is_next_gap
    next_gap-gap none d row e = cc
    next_gap-gap (some p) d row e =
        let next = is_next_gap tenant type id p.aggregate_version in
        let picked : next row ≡ true = select_row_sound next d.inbox row (sym e) in
        let gap : is_gap row.disposition ≡ true = ground arith in
        (
          gap,
          count_where-found next (is_own_gap row.event_id) d.inbox row (sym e)
              (ground (arith, str_eq_refl row.event_id)),
        )

    found-OwnBytes :
        (o : Option ProjectionRow) (d : Db) (row : InboxRow)
        → some row ≡ next_gap_of tenant type id d o
        → GapsAreOwn lower tokens d
        → OwnBytes lower tokens row
    unfolding next_gap_of
    found-OwnBytes none d row e own = cc
    found-OwnBytes (some p) d row e own =
        All-select (OwnBytes lower tokens) (is_next_gap tenant type id p.aggregate_version) d.inbox
          row (sym e) own.all

    redrive_found-Less :
        (o : Option InboxRow) (w : World)
        → o ≡ next_gap tenant type id w.db
        → GapsAreOwn lower tokens w.db
        → Post (Less lower tokens (gap_count w.db)) (redrive_found lower hash tokens o w)
    unfolding redrive_found pure next_gap
    redrive_found-Less none w e own = λ k. cc
    redrive_found-Less (some row) w e own =
        let (gap, one) = next_gap-gap (find_projection tenant id w.db) w.db row e in
        redrive_row-Less row w gap one
          (found-OwnBytes (find_projection tenant id w.db) w.db row e own) own

    redrive_round-Less :
        (w : World)
        → GapsAreOwn lower tokens w.db
        → Post
            (Less lower tokens (gap_count w.db))
            (redrive_round lower hash tokens tenant type id w)
    unfolding redrive_round
    redrive_round-Less w own =
        Post-bind (Less lower tokens (gap_count w.db))
          (λ o d. (o ≡ next_gap tenant type id d) × (d ≡ w.db)) (query (next_gap tenant type id))
          (redrive_found lower hash tokens) w
          (Post-both (λ o d. o ≡ next_gap tenant type id d) (λ d. d ≡ w.db)
            (query (next_gap tenant type id) w) ((Ensures-query (next_gap tenant type id)).at w)
            ((Moves-query same-path (next_gap tenant type id)).at w))
          (λ o w' (e, same).
            subst
              (λ d. Post (Less lower tokens (gap_count d)) (redrive_found lower hash tokens o w'))
              same (redrive_found-Less o w' e (subst (GapsAreOwn lower tokens) (sym same) own)))

    -- While the stored bytes of each gap row are those of its event, the loop of `redriveGaps` reaches its
    -- end within one round more than there are gap rows, unless the database fails.
    pub redrive-ends :
        (f : ℕ) (w : World)
        → gap_count w.db < f
        → GapsAreOwn lower tokens w.db
        → Post (λ ended _. ended ≡ true) (redrive lower hash tokens f tenant type id w)
    unfolding redrive pure
    redrive-ends zero w lt own = elim lt [ ]
    redrive-ends (suc f) w lt own =
        Post-bind (λ ended _. ended ≡ true) (Less lower tokens (gap_count w.db))
          (redrive_round lower hash tokens tenant type id) _ w (redrive_round-Less w own)
          (rounds (λ w' fewer still_own. redrive-ends f w' (omega arith) still_own))
      where
        rounds :
            ((w' : World)
              → suc (gap_count w'.db) ≤ gap_count w.db
              → GapsAreOwn lower tokens w'.db
              → Post (λ ended _. ended ≡ true) (redrive lower hash tokens f tenant type id w'))
            → (again : Bool) (w' : World) → Less lower tokens (gap_count w.db) again w'.db
            → Post
                (λ ended _. ended ≡ true)
                ((elim again as (λ _. M Bool) [
                  | true ↦ redrive lower hash tokens f tenant type id
                  | false ↦ pure true
                ])
                  w')
        rounds later true w' less = let (fewer, still_own) = less refl in later w' fewer still_own
        rounds later false w' less = refl
