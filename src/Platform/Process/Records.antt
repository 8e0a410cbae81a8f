-- ===== src/Platform/Process/Records.antt =====
-- What `processValidated` (platform/process.go) leaves in the inbox.
use seshatops.Base.{
  ℕ, ◌≡◌, refl, sym, inl, inr, ◌∙◌, ◌&&◌, Bool, true, false, Bool-cases, Option, none, some, Bytes,
  str_eq, str_eq_iff, str_eq_refl, if◌then◌else◌, arith,
}
use seshatops.Base.Int64.{ℤ}
use seshatops.Base.Table.{select_row, select_row-upsert}
use seshatops.Base.Result.{ok, err}
use seshatops.Event.Payload.{
  Envelope, QuantityDecremented, as_quantity_decremented, event_type_quantity_decremented,
}
use seshatops.Event.Decode.{ParseResult}
use seshatops.Event.Canonical.{canonical_bytes, content_hash}
use seshatops.Platform.World.{
  Db, World, Disposition, applied, duplicate_noop, quarantined_conflict, quarantined_gap,
  quarantined_stale, malformed, InboxRow, ProjectionRow, Hop, HopRow,
}
use seshatops.Platform.Monad.{M, pure, raise, ◌>>=◌, query}
use seshatops.Platform.Monad.Ensures.{
  Post, Ensures, Ensures-exec-pure, Ensures-raise, Ensures-if, Ensures-bind, Ensures-then,
  Ensures-query, Ensures-transact,
}
use seshatops.Platform.Store.Gaps.{own_gaps, own_gaps-put_inbox, is_applied-is_gap}
use seshatops.Platform.Store.{
  is_gap, find_inbox, has_event_id, is_applied, is_conflict, merge_inbox, put_inbox, lock_inbox,
  upsert_inbox, inbox_row, version_row,
}
use seshatops.Platform.Projection.{
  decide, decide_version, project_first, project_next, project_row, project_payload,
  apply_projection,
}
use seshatops.Platform.Lineage.{
  lineage_existing, lineage_existing_disposition, lineage_first, lineage_row, lineage_hop,
  apply_lineage, apply_event, hop_of,
}
use seshatops.Platform.Process.{
  Verdict, Decision, apply_fresh, keep_decision, repeat_decision, known_event, decide_event,
  process_transaction, announce, announce_payload, notify_applied, or_transient, process_validated,
}

-- The inbox holds the disposition of the event and, unless that is a conflict, its content hash.
pub record IsDecided (id hash : Bytes) (disposition : Disposition) (db : Db) : Type 0 where
  pub row : InboxRow
  pub found : find_inbox id db ≡ some row
  pub same : row.disposition ≡ disposition
  pub hashed : is_conflict disposition ≡ false → row.content_hash ≡ hash
  -- an applied event has no gap row left
  pub cleared : is_applied disposition ≡ true → own_gaps id db ≡ 0

pub IsDecided-put_inbox :
    (row : InboxRow) (db : Db)
    → IsDecided row.event_id row.content_hash row.disposition (put_inbox row db)
unfolding put_inbox find_inbox
IsDecided-put_inbox row db = stored (select_row (has_event_id row.event_id) db.inbox) (
    select_row-upsert (has_event_id row.event_id) (merge_inbox row) row db.inbox
      (str_eq_refl row.event_id) (λ r h. h))
  where
    cleared_row :
        (is_applied row.disposition ≡ true → is_gap row.disposition ≡ false)
        → is_applied row.disposition ≡ true
        → own_gaps row.event_id (put_inbox row db) ≡ 0
    cleared_row closed h = own_gaps-put_inbox row db (closed h)

    stored :
        (o : Option InboxRow)
        → find_inbox row.event_id (put_inbox row db)
          ≡ some (elim o [ none ↦ row | some old ↦ merge_inbox row old ])
        → IsDecided row.event_id row.content_hash row.disposition (put_inbox row db)
    stored none e = record {
      row = row;
      found = e;
      same = refl;
      hashed = λ _. refl;
      cleared = cleared_row (is_applied-is_gap row.disposition);
    }
    stored (some old) e = record {
      row = merge_inbox row old;
      found = e;
      same = refl;
      hashed = λ h. rw h refl;
      cleared = cleared_row (is_applied-is_gap row.disposition);
    }

ruleset ensures = (Ensures-raise, Ensures-if, Ensures-bind)

module _ (env : Envelope) (hash : Bytes) where
  decide-Ensures : (d : Disposition) → Ensures (IsDecided env.event_id hash) (decide env hash d)
  unfolding decide upsert_inbox
  decide-Ensures d = Ensures-exec-pure _ d (IsDecided-put_inbox (inbox_row env hash d))

  decide_version-Ensures :
      (d : Disposition) (expected : ℤ) (bytes : Option Bytes)
      → Ensures (IsDecided env.event_id hash) (decide_version env hash d expected bytes)
  unfolding decide_version upsert_inbox
  decide_version-Ensures d expected bytes =
      Ensures-exec-pure _ d (IsDecided-put_inbox (version_row env hash d expected bytes))

  module _ (canonical : Bytes) where
    project_row-Ensures :
        (p : QuantityDecremented) (o : Option ProjectionRow)
        → Ensures (IsDecided env.event_id hash) (project_row env p hash canonical o)
    unfolding project_row project_first project_next
    project_row-Ensures p none = search (ensures, decide-Ensures, decide_version-Ensures) depth 9
    project_row-Ensures p (some row) =
        search (ensures, decide-Ensures, decide_version-Ensures) depth 9

    apply_projection-Ensures :
        (o : Option QuantityDecremented)
        → Ensures (IsDecided env.event_id hash) (project_payload env hash canonical o)
    unfolding project_payload
    apply_projection-Ensures none = Ensures-raise malformed
    apply_projection-Ensures (some p) = Ensures-bind _ _ (project_row-Ensures p)

    lineage_first-Ensures :
        (h : Hop) → Ensures (IsDecided env.event_id hash) (lineage_first h env hash canonical)
    unfolding lineage_first
    lineage_first-Ensures h = search (ensures, decide-Ensures, decide_version-Ensures) depth 9

    lineage_existing-Ensures :
        (h : Hop) (row : HopRow) (d : Disposition)
        → Ensures (IsDecided env.event_id hash) (lineage_existing h env hash canonical row d)
    unfolding lineage_existing
    lineage_existing-Ensures h row quarantined_stale =
        search (ensures, decide-Ensures, decide_version-Ensures) depth 9
    lineage_existing-Ensures h row d = decide_version-Ensures d _ _

    lineage_row-Ensures :
        (h : Hop) (o : Option HopRow)
        → Ensures (IsDecided env.event_id hash) (lineage_row h env hash canonical o)
    unfolding lineage_row
    lineage_row-Ensures h none = lineage_first-Ensures h
    lineage_row-Ensures h (some row) =
        lineage_existing-Ensures h row
          (lineage_existing_disposition row.aggregate_version env.aggregate_version)

    lineage_hop-Ensures :
        (o : Option Hop) → Ensures (IsDecided env.event_id hash) (lineage_hop env hash canonical o)
    unfolding lineage_hop
    lineage_hop-Ensures none = Ensures-raise malformed
    lineage_hop-Ensures (some h) = Ensures-bind _ _ (lineage_row-Ensures h)

    apply_event-Ensures : Ensures (IsDecided env.event_id hash) (apply_event env hash canonical)
    unfolding apply_event apply_projection apply_lineage
    apply_event-Ensures =
        Ensures-if _ _ _ (apply_projection-Ensures (as_quantity_decremented env))
          (lineage_hop-Ensures (hop_of env.event_type))

    apply_fresh-Ensures :
        Ensures (λ v. IsDecided env.event_id hash v.0) (apply_fresh env hash canonical)
    unfolding apply_fresh pure
    apply_fresh-Ensures =
        Ensures-then {Q = IsDecided env.event_id hash} (apply_event env hash canonical) _
          apply_event-Ensures (λ _ w h. h)

    -- A decision taken again, under the hash that is stored, or as a conflict.
    repeat_decision-Ensures :
        (h : Bytes) (d : Disposition)
        → (is_conflict d ≡ false → h ≡ hash)
        → Ensures (λ v. IsDecided env.event_id hash v.0) (repeat_decision env h d)
    unfolding repeat_decision decide upsert_inbox pure
    repeat_decision-Ensures h d same =
        Ensures-then {Q = λ _. IsDecided env.event_id h d} (decide env h d) _
          (Ensures-exec-pure _ d (IsDecided-put_inbox (inbox_row env h d)))
          (λ _ w r. record {
            row = r.row;
            found = r.found;
            same = r.same;
            hashed = λ k. r.hashed k ∙ same k;
            cleared = r.cleared;
          })

    known_event-Post :
        (row : InboxRow) (d : Disposition) (w : World)
        → find_inbox env.event_id w.db ≡ some row
        → row.content_hash ≡ hash
        → row.disposition ≡ d
        → Post (λ v. IsDecided env.event_id hash v.0) (known_event env hash canonical d w)
    unfolding known_event keep_decision pure
    known_event-Post row applied w f h e =
        (repeat_decision-Ensures hash duplicate_noop (λ _. refl)).at w
    known_event-Post row duplicate_noop w f h e =
        (repeat_decision-Ensures hash duplicate_noop (λ _. refl)).at w
    known_event-Post row quarantined_gap w f h e = apply_fresh-Ensures.at w
    known_event-Post row d w f h e = record {
      row = row;
      found = f;
      same = e;
      hashed = λ _. h;
      cleared = λ k. cc;
    }

    decide_event-Post :
        (o : Option InboxRow) (w : World)
        → o ≡ find_inbox env.event_id w.db
        → Post (λ v. IsDecided env.event_id hash v.0) (decide_event env hash canonical o w)
    unfolding decide_event
    decide_event-Post none w e = apply_fresh-Ensures.at w
    decide_event-Post (some row) w e = elim (Bool-cases (str_eq row.content_hash hash)) [
      | inl same ↦ rw same (
          known_event-Post row row.disposition w (sym e) ((str_eq_iff row.content_hash hash).0 same)
            refl)
      | inr other ↦
          rw other (
            (repeat_decision-Ensures row.content_hash quarantined_conflict (λ k. ground arith)).at
              w)
    ]

    pub process_transaction-Ensures :
        Ensures (λ v. IsDecided env.event_id hash v.0) (process_transaction env hash canonical)
    unfolding process_transaction lock_inbox
    process_transaction-Ensures = Ensures-transact _ (
        Ensures-then (query (find_inbox env.event_id)) (decide_event env hash canonical)
          (Ensures-query (find_inbox env.event_id)) decide_event-Post)

-- What a returned decision says of the inbox.
pub record IsRecorded (lower : ℕ → ℕ) (hash : Bytes → Bytes) (env : Envelope) (decision : Decision)
    (db : Db) : Type 0 where
  pub content : Bytes
  pub hashed : content_hash lower hash env ≡ ok content
  pub event : decision.event_id ≡ env.event_id
  pub decided : IsDecided env.event_id content decision.disposition db

Ensures-or_transient {ι} :
    {A B : Type 0} {P : B → Db → Type ι} (r : ParseResult A) (k : A → M B)
    → ((a : A) → r ≡ ok a → Ensures P (k a))
    → Ensures P (or_transient r >>= k)
unfolding or_transient ◌>>=◌ pure raise
Ensures-or_transient (ok a) k h = record { at = λ w. (h a refl).at w }
Ensures-or_transient (err e) k h = record { at = λ w. tt }

announce_payload-Post {ι} :
    (P : Decision → Db → Type ι) (env : Envelope) (o : Option QuantityDecremented) (c : Decision)
    (w : World)
    → P c w.db
    → Post P ((announce_payload env o >>= λ _. pure c) w)
unfolding announce_payload notify_applied ◌>>=◌ pure raise
announce_payload-Post P env none c w p = tt
announce_payload-Post P env (some q) c w p = p

announce-Post {ι} :
    (P : Decision → Db → Type ι) (env : Envelope) (v : Verdict) (c : Decision) (w : World)
    → P c w.db
    → Post P ((announce env v >>= λ _. pure c) w)
unfolding announce ◌>>=◌ pure
announce-Post P env (d, fresh) c w p =
    announced (fresh && is_applied d && str_eq env.event_type event_type_quantity_decremented)
  where
    announced :
        (b : Bool)
        → Post P (
            ((if b then announce_payload env (as_quantity_decremented env) else pure tt) >>= λ _.
            pure c)
              w)
    announced true = announce_payload-Post P env (as_quantity_decremented env) c w p
    announced false = p

-- An error apart, `processValidated` returns the identifier of its event and the disposition that the
-- inbox then holds for it, beside the content hash of the event unless the disposition is a conflict.
pub process_validated-Ensures :
    (lower : ℕ → ℕ) (hash : Bytes → Bytes) (env : Envelope)
    → Ensures (IsRecorded lower hash env) (process_validated lower hash env)
unfolding process_validated
process_validated-Ensures lower hash env =
    Ensures-or_transient (content_hash lower hash env) _ (λ h eh.
      Ensures-or_transient (canonical_bytes lower env) _ (λ b _.
        Ensures-then (process_transaction env h b) _ (process_transaction-Ensures env h b)
          (λ v w decided.
            announce-Post (IsRecorded lower hash env) env v _ w
              (record { content = h; hashed = eh; event = refl; decided = decided }))))
