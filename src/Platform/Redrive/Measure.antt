-- ===== src/Platform/Redrive/Measure.antt =====
-- The measure of the loop of `redriveGaps` (platform/process.go): the gap rows of the inbox.
use seshatops.Base.{
  All-snoc, All-map, str_eq_refl, ℕ, suc, ◌≤◌, ◌≡◌, refl, ◌∙◌, inl, inr, Bool, true, false,
  Bool-cases, List, [], ◌∷◌, Bytes, All, arith,
}
use seshatops.Base.Table.{select_row, count_where, upsert, update_where, is_some}
use seshatops.Base.Result.{ok}
use seshatops.Event.Json.{Tokens}
use seshatops.Event.Payload.{Envelope}
use seshatops.Event.Parse.{parse}
use seshatops.Platform.World.{Db, InboxRow, Hop, HopRow, supplier, lot, batch, shipment}
use seshatops.Platform.Monad.Moves.{IsPath}
use seshatops.Platform.Store.{
  is_gap, has_event_id, merge_inbox, put_inbox, add_projection, set_projection,
}
use seshatops.Platform.Store.Gaps.{
  own_gaps, other_gaps, other_gaps-put_inbox, gaps-split, is_own_gap,
}
use seshatops.Platform.Projection.Writes.{apply_projection-Moves}
use seshatops.Platform.Lineage.{append_hop}
use seshatops.Platform.Failure.{put_failure, set_quarantined}
use seshatops.Platform.Writes.{Writes}
use seshatops.Platform.Redrive.{gap_count, bytes_of}

module _ {ℓ κ} {A : Type ℓ} (P : A → Type κ) (same : A → Bool) (merge : A → A) where
  All-update_where :
      (rs : List A)
      → ((r : A) → same r ≡ true → P (merge r))
      → All P rs
      → All P (update_where same merge rs)
  unfolding update_where
  All-update_where [] here h = tt
  All-update_where (r ∷ rs) here (p, ps) = elim (Bool-cases (same r)) [
    | inl e ↦ (rw e (here r e), All-update_where rs here ps)
    | inr e ↦ (rw e p, All-update_where rs here ps)
  ]

  All-upsert :
      (row : A) (rs : List A)
      → ((r : A) → same r ≡ true → P (merge r))
      → P row
      → All P rs
      → All P (upsert same merge row rs)
  unfolding upsert
  All-upsert row rs here new h = elim (Bool-cases (is_some (select_row same rs))) [
    | inl e ↦ rw e (All-update_where rs here h)
    | inr e ↦ rw e (All-snoc P rs row h new)
  ]

module _ (lower : ℕ → ℕ) (tokens : Bytes → Tokens) where
  -- The stored bytes of a gap row are those of its event.
  abbrev pub OwnBytes : InboxRow → Type 0
  OwnBytes r =
      is_gap r.disposition ≡ true
      → (env : Envelope) → parse lower tokens (bytes_of r) ≡ ok env
      → env.event_id ≡ r.event_id

  pub record GapsAreOwn (d : Db) : Type 0 where
    pub all : All OwnBytes d.inbox

  abbrev OtherBytes : Bytes → InboxRow → Type 0
  OtherBytes id r = has_event_id id r ≡ false → OwnBytes r

  -- The gap rows of the other events stay as they are.
  abbrev pub Others : Bytes → Db → Db → Type 0
  Others id d d' =
      (other_gaps id d' ≡ other_gaps id d)
      × (All (OtherBytes id) d.inbox → All (OtherBytes id) d'.inbox)

  Others-path : (id : Bytes) → IsPath (Others id)
  Others-path id = record {
    stay = λ d. (refl, λ h. h);
    join = λ a b c p q. (q.0 ∙ p.0, λ h. q.1 (p.1 h));
  }

  Others-put_inbox :
      (id : Bytes) (row : InboxRow) (d : Db) → row.event_id ≡ id → Others id d (put_inbox row d)
  unfolding put_inbox
  Others-put_inbox id row d e = (
    other_gaps-put_inbox id row d e,
    All-upsert (OtherBytes id) (has_event_id row.event_id) (merge_inbox row) row d.inbox
        (λ r same other. cc (rw e at same, other)) (λ other. cc (rw e at other, str_eq_refl id)),
  )

  Others-append_hop :
      (id : Bytes) (h : Hop) (row : HopRow) (d : Db) → Others id d (append_hop h row d)
  unfolding append_hop
  Others-append_hop id supplier row d = (refl, λ h. h)
  Others-append_hop id lot row d = (refl, λ h. h)
  Others-append_hop id batch row d = (refl, λ h. h)
  Others-append_hop id shipment row d = (refl, λ h. h)

  pub Others-Writes : (id : Bytes) → Writes (λ e. e ≡ id) (Others id)
  unfolding put_failure set_quarantined add_projection set_projection
  Others-Writes id = record {
    path = Others-path id;
    inbox = Others-put_inbox id;
    hop = Others-append_hop id;
    failure = λ row d. (refl, λ h. h);
    quarantine = λ p d. (refl, λ h. h);
    projection = λ _ env hash canonical mine _.
        apply_projection-Moves (Others-path id) env hash canonical
          (λ row d e. Others-put_inbox id row d (e ∙ mine)) (λ row d. (refl, λ h. h))
          (λ t i q v d. (refl, λ h. h));
  }

  no_own :
      (id : Bytes) (rs : List InboxRow)
      → count_where (is_own_gap id) rs ≡ 0
      → All (OtherBytes id) rs
      → All OwnBytes rs
  unfolding count_where
  no_own id [] h all = tt
  no_own id (r ∷ rs) h (p, ps) = (λ gap. p (ground arith) gap, no_own id rs (ground arith) ps)

  -- What a round that goes on achieves.
  abbrev pub Less : ℕ → Bool → Db → Type 0
  Less n again d = again ≡ true → (suc (gap_count d) ≤ n) × GapsAreOwn d

  pub less_lem :
      (id : Bytes) (d d' : Db)
      → 1 ≤ own_gaps id d
      → GapsAreOwn d
      → Others id d d'
      → own_gaps id d' ≡ 0
      → (suc (gap_count d') ≤ gap_count d) × GapsAreOwn d'
  less_lem id d d' one own others cleared = (
    omega (arith, gaps-split id d, gaps-split id d', others.0),
    record {
      all =
          no_own id d'.inbox cleared
            (others.1 (All-map OwnBytes (OtherBytes id) d.inbox (λ r p _. p) own.all));
    },
  )
