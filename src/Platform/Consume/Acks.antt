-- ===== src/Platform/Consume/Acks.antt =====
-- Which offsets `ConsumeOnce` (platform/consume.go) commits.
use seshatops.Base.{
  All-snoc, All-map, ℕ, ◌≡◌, refl, sym, ap, subst, ◌∙◌, inl, inr, true, false, Bool-cases, Option,
  none, some, List, [], ◌∷◌, ◌++◌, Bytes, All, append_assoc, append-nil, arith,
}
use seshatops.Event.Json.{Tokens}
use seshatops.Platform.World.{Db, World, PlatformError}
use seshatops.Platform.Record.{Delivery}
use seshatops.Platform.Record.Refines.{process_record-Moves}
use seshatops.Platform.Record.Durable.{HasEvent-Writes, HasFailure-Writes}
use seshatops.Platform.Record.Acks.{Evidence, process_record-acked}
use seshatops.Platform.Record.Withheld.{process_record-Explained}
use seshatops.Platform.Consume.{Fetched, Loop, account, deliver, handle_unless, each_record}

account-acked :
    (s : Loop) (r : Fetched) (d : Delivery) (w : World)
    → d.should_ack ≡ true
    → ((account s r d w).to_commit ≡ s.to_commit ++ r ∷ [])
      × ((account s r d w).first_error ≡ s.first_error)
unfolding account
account-acked s r d w h = (ground arith, ground arith)

account-withheld :
    (s : Loop) (r : Fetched) (d : Delivery) (w : World) (e : PlatformError)
    → d.should_ack ≡ false
    → d.failure ≡ some e
    → ((account s r d w).to_commit ≡ s.to_commit) × ((account s r d w).first_error ≡ some e)
unfolding account
account-withheld s r d w e h k = (ground arith, ground arith)

account-world : (s : Loop) (r : Fetched) (d : Delivery) (w : World) → (account s r d w).world ≡ w
unfolding account
account-world s r d w = ground arith

module _ (lower : ℕ → ℕ) (hash : Bytes → Bytes) (tokens : Bytes → Tokens) where
  -- The delivery of the record is in the database.
  abbrev pub IsDurable : Db → Fetched → Type 0
  IsDurable db r = Evidence lower hash tokens r.value r.position db

  IsDurable-kept :
      (q r : Fetched) (w : World)
      → IsDurable w.db q
      → IsDurable (deliver lower hash tokens r w).1.db q
  IsDurable-kept q r w (inl (env, e, h)) = inl (
    env,
    e,
    process_record-Moves (HasEvent-Writes env.event_id) (λ _. tt) lower hash tokens r.faulty
        r.recovered r.key r.value r.position w h,
  )
  IsDurable-kept q r w (inr h) = inr (
      process_record-Moves (HasFailure-Writes q.position) (λ _. tt) lower hash tokens r.faulty
        r.recovered r.key r.value r.position w h)

  -- After the records `rs`, given those to commit before: all of them are to be committed, or those
  -- before the one whose acknowledgement was withheld.
  pub data Handled (before rs : List Fetched) (s : Loop) : Type 0 where
    finished : s.first_error ≡ none → s.to_commit ≡ before ++ rs → Handled before rs s
    stopped :
        (done : List Fetched) (r : Fetched) (rest : List Fetched) (e : PlatformError)
        → rs ≡ done ++ r ∷ rest
        → s.first_error ≡ some e
        → s.to_commit ≡ before ++ done
        → Handled before rs s

  each_record-stopped :
      (s : Loop) (e : PlatformError) (rs : List Fetched)
      → s.first_error ≡ some e
      → each_record lower hash tokens s rs ≡ s
  unfolding each_record handle_unless
  each_record-stopped s e [] h = refl
  each_record-stopped s e (r ∷ rs) h =
      ap (λ o. each_record lower hash tokens (handle_unless lower hash tokens o s r) rs) h
      ∙ each_record-stopped s e rs h

  Handled-cons :
      (before : List Fetched) (r : Fetched) (rs : List Fetched) (s : Loop)
      → Handled (before ++ r ∷ []) rs s
      → Handled before (r ∷ rs) s
  Handled-cons before r rs s (finished e h) = finished e (h ∙ append_assoc before (r ∷ []) rs)
  Handled-cons before r rs s (stopped done x rest e eq er h) =
      stopped (r ∷ done) x rest e (ap (λ l. r ∷ l) eq) er (h ∙ append_assoc before (r ∷ []) done)

  withheld_here :
      (s : Loop) (r : Fetched) (rs : List Fetched) (d : Delivery) (w : World) (e : PlatformError)
      → d.should_ack ≡ false
      → d.failure ≡ some e
      → Handled s.to_commit (r ∷ rs) (each_record lower hash tokens (account s r d w) rs)
  withheld_here s r rs d w e h k =
      let (same, stop) = account-withheld s r d w e h k in
      subst (Handled s.to_commit (r ∷ rs)) (sym (each_record-stopped (account s r d w) e rs stop))
        (stopped [] r rs e refl stop (same ∙ sym (append-nil s.to_commit)))

  pub each_record-Handled :
      (s : Loop) (rs : List Fetched)
      → s.first_error ≡ none
      → Handled s.to_commit rs (each_record lower hash tokens s rs)
  unfolding each_record handle_unless
  each_record-Handled s [] h = finished h (sym (append-nil s.to_commit))
  each_record-Handled s (r ∷ rs) h =
      let (d, w) = deliver lower hash tokens r s.world in
      subst
        (λ o.
          Handled s.to_commit (r ∷ rs)
            (each_record lower hash tokens (handle_unless lower hash tokens o s r) rs))
        (sym h)
        (elim (Bool-cases d.should_ack) [
          | inl ack ↦
              let (more, on) = account-acked s r d w ack in
              Handled-cons s.to_commit r rs _ (
                subst (λ b. Handled b rs (each_record lower hash tokens (account s r d w) rs)) more
                  (each_record-Handled (account s r d w) rs (on ∙ h)))
          | inr held ↦
              let (e, k) =
                process_record-Explained lower hash tokens r.faulty r.recovered r.key r.value
                  r.position s.world held in
              withheld_here s r rs d w e held k
        ])

  handle_unless-IsDurable :
      (o : Option PlatformError) (s : Loop) (r : Fetched)
      → All (IsDurable s.world.db) s.to_commit
      → All
          (IsDurable (handle_unless lower hash tokens o s r).world.db)
          (handle_unless lower hash tokens o s r).to_commit
  unfolding handle_unless
  handle_unless-IsDurable (some e) s r h = h
  handle_unless-IsDurable none s r h =
      let (d, w) = deliver lower hash tokens r s.world in
      let kept =
        All-map (IsDurable s.world.db) (IsDurable w.db) s.to_commit
          (λ q. IsDurable-kept q r s.world) h in
      rw (account-world s r d w) (elim (Bool-cases d.should_ack) [
        | inl ack ↦ subst (All (IsDurable w.db)) (sym (account-acked s r d w ack).0) (
            All-snoc (IsDurable w.db) s.to_commit r kept (
              process_record-acked lower hash tokens r.faulty r.recovered r.key r.value r.position
                s.world ack))
        | inr held ↦
            let (e, k) =
              process_record-Explained lower hash tokens r.faulty r.recovered r.key r.value
                r.position s.world held in
            subst (All (IsDurable w.db)) (sym (account-withheld s r d w e held k).0) kept
      ])

  pub each_record-IsDurable :
      (s : Loop) (rs : List Fetched)
      → All (IsDurable s.world.db) s.to_commit
      → All
          (IsDurable (each_record lower hash tokens s rs).world.db)
          (each_record lower hash tokens s rs).to_commit
  unfolding each_record
  each_record-IsDurable s [] h = h
  each_record-IsDurable s (r ∷ rs) h =
      each_record-IsDurable (handle_unless lower hash tokens s.first_error s r) rs
        (handle_unless-IsDurable s.first_error s r h)
