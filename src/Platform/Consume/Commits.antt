-- ===== src/Platform/Consume/Commits.antt =====
-- What one call of `ConsumeOnce` (platform/consume.go) commits and counts.
use seshatops.Base.{
  ℕ, ◌≡◌, refl, sym, ap, subst, ◌∙◌, Bool, true, false, Option, none, some, List, [], ◌∷◌, ◌++◌,
  Bytes, All, length, append-nil, arith,
}
use seshatops.Event.Json.{Tokens}
use seshatops.Platform.World.{World, PlatformError}
use seshatops.Platform.Record.{Delivery}
use seshatops.Platform.Consume.{
  Fetched, Partition, ConsumeResult, no_result, observe_first, observe, Loop, account, deliver,
  handle_unless, each_record, consume_loop, consume_once, commit_records, all_records,
}
use seshatops.Platform.Consume.Acks.{
  IsDurable, Handled, finished, stopped, each_record-Handled, each_record-IsDurable,
}

observe-acked : (ps : List Partition) (out : ConsumeResult) → (observe ps out).acked ≡ out.acked
unfolding observe observe_first
observe-acked [] out = refl
observe-acked (p ∷ ps) out =
    observe-acked ps (observe_first p.records p.high_watermark out) ∙ first p.records
  where
    first : (rs : List Fetched) → (observe_first rs p.high_watermark out).acked ≡ out.acked
    first [] = refl
    first (r ∷ rs) = ground arith

account-out-acked :
    (s : Loop) (r : Fetched) (d : Delivery) (w : World) → (account s r d w).out.acked ≡ s.out.acked
unfolding account
account-out-acked s r d w = ground arith

module _ (lower : ℕ → ℕ) (hash : Bytes → Bytes) (tokens : Bytes → Tokens) where
  handle_unless-acked :
      (o : Option PlatformError) (s : Loop) (r : Fetched)
      → (handle_unless lower hash tokens o s r).out.acked ≡ s.out.acked
  unfolding handle_unless
  handle_unless-acked (some e) s r = refl
  handle_unless-acked none s r =
      let (d, w) = deliver lower hash tokens r s.world in account-out-acked s r d w

  each_record-acked :
      (s : Loop) (rs : List Fetched) → (each_record lower hash tokens s rs).out.acked ≡ s.out.acked
  unfolding each_record
  each_record-acked s [] = refl
  each_record-acked s (r ∷ rs) =
      each_record-acked (handle_unless lower hash tokens s.first_error s r) rs
      ∙ handle_unless-acked s.first_error s r

  -- The committed offsets are those of a beginning of the poll, of all of it if there is no error; each
  -- is durable; the count is theirs.
  pub record IsPolled (ps : List Partition)
      (out : (ConsumeResult × Option PlatformError) × List Fetched × World) : Type 0 where
    pub rest : List Fetched
    pub split : all_records ps ≡ out.1 ++ rest
    pub complete : out.0.1 ≡ none → rest ≡ []
    pub durable : All (IsDurable lower hash tokens out.2.db) out.1
    pub counted : out.0.0.acked ≡ length out.1

  module _ (ps : List Partition) (s : Loop) where
    committed_all :
        Handled lower hash tokens [] (all_records ps) s
        → (rest : List Fetched) × (all_records ps ≡ s.to_commit ++ rest)
          × (s.first_error ≡ none → rest ≡ [])
    committed_all (finished e h) = ([], sym h ∙ sym (append-nil s.to_commit), λ _. refl)
    committed_all (stopped done r rest e eq er h) =
        (r ∷ rest, eq ∙ ap (λ l. l ++ r ∷ rest) (sym h), λ k. cc (k, er))

    commit_records-IsPolled :
        (commit_ok : Bool) (l : List Fetched)
        → l ≡ s.to_commit
        → Handled lower hash tokens [] (all_records ps) s
        → All (IsDurable lower hash tokens s.world.db) s.to_commit
        → s.out.acked ≡ 0
        → IsPolled ps
            (let (res, committed) = commit_records commit_ok s l in (res, committed, s.world))
    unfolding commit_records
    commit_records-IsPolled commit_ok [] e h durable none_acked =
        let (rest, split, complete) = committed_all h in
        record {
          rest = rest;
          split = split ∙ ap (λ l. l ++ rest) (sym e);
          complete = complete;
          durable = tt;
          counted = none_acked;
        }
    commit_records-IsPolled true (r ∷ rs) e h durable none_acked =
        let (rest, split, complete) = committed_all h in
        record {
          rest = rest;
          split = split ∙ ap (λ l. l ++ rest) (sym e);
          complete = complete;
          durable = subst (All (IsDurable lower hash tokens s.world.db)) (sym e) durable;
          counted = refl;
        }
    commit_records-IsPolled false (r ∷ rs) e h durable none_acked = record {
      rest = all_records ps;
      split = refl;
      complete = λ k. cc;
      durable = tt;
      counted = none_acked;
    }

  -- `ConsumeOnce` commits the offsets of a beginning of what it polled, of all of it when it returns no
  -- error, and it commits a record only with its event in the inbox or its position in
  -- `processing_failures`; `Acked` is the number of the committed.
  pub consume_once-IsPolled :
      (commit_ok : Bool) (ps : List Partition) (w : World)
      → IsPolled ps (consume_once lower hash tokens commit_ok ps w)
  unfolding consume_once consume_loop
  consume_once-IsPolled commit_ok ps w =
      let s : Loop = record {
        out = observe ps no_result;
        to_commit = [];
        first_error = none;
        world = w;
      } in
      let s' = each_record lower hash tokens s (all_records ps) in
      commit_records-IsPolled ps s' commit_ok s'.to_commit refl
        (each_record-Handled lower hash tokens s (all_records ps) refl)
        (each_record-IsDurable lower hash tokens s (all_records ps) tt)
        (each_record-acked s (all_records ps) ∙ observe-acked ps no_result)
