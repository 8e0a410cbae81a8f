-- ===== src/Platform/Process/Repeats.antt =====
-- Redelivery in `processValidated` (platform/process.go).
use seshatops.Base.{
  ℕ, ◌≡◌, refl, ◌∙◌, ap, ◌⊎◌, inl, inr, true, false, Bool-cases, Option, none, some, Bytes, str_eq,
}
use seshatops.Base.Result.{ok}
use seshatops.Event.Payload.{Envelope}
use seshatops.Event.Canonical.{canonical_bytes, content_hash}
use seshatops.Platform.World.{
  Db, World, Disposition, applied, duplicate_noop, quarantined_conflict, quarantined_gap, InboxRow,
}
use seshatops.Platform.Monad.Moves.{
  IsPath, Moves, Moves-pure, Moves-bind, Moves-bind-query, Moves-exec, Moves-transact,
}
use seshatops.Platform.Store.{find_inbox, is_gap, put_inbox, upsert_inbox, lock_inbox, inbox_row}
use seshatops.Platform.Projection.{decide}
use seshatops.Platform.Process.{
  keep_decision, repeat_decision, known_event, decide_event, process_transaction, announce,
  process_validated,
}
use seshatops.Platform.Process.Refines.{Moves-or_transient, announce-Moves}
use seshatops.Platform.Process.Records.{IsDecided-put_inbox}

-- The projections, the inventory and the lineage, are the same.
pub record SameTables (d d' : Db) : Type 0 where
  pub inventory : d'.inventory ≡ d.inventory
  pub suppliers : d'.suppliers ≡ d.suppliers
  pub lots : d'.lots ≡ d.lots
  pub batches : d'.batches ≡ d.batches
  pub shipments : d'.shipments ≡ d.shipments

SameTables-refl : (d : Db) → SameTables d d
SameTables-refl d = record {
  inventory = refl;
  suppliers = refl;
  lots = refl;
  batches = refl;
  shipments = refl;
}

SameTables-join : (a b c : Db) → SameTables a b → SameTables b c → SameTables a c
SameTables-join a b c p q = record {
  inventory = q.inventory ∙ p.inventory;
  suppliers = q.suppliers ∙ p.suppliers;
  lots = q.lots ∙ p.lots;
  batches = q.batches ∙ p.batches;
  shipments = q.shipments ∙ p.shipments;
}

SameTables-put_inbox : (row : InboxRow) (d : Db) → SameTables d (put_inbox row d)
unfolding put_inbox
SameTables-put_inbox row d = record {
  inventory = refl;
  suppliers = refl;
  lots = refl;
  batches = refl;
  shipments = refl;
}

-- The inbox has a row for the event that a delivery of the content with this hash does not reopen: it
-- is no gap, or its content is another.
pub record IsClosed (id hash : Bytes) (d : Db) : Type 0 where
  pub row : InboxRow
  pub found : find_inbox id d ≡ some row
  pub closed : (is_gap row.disposition ≡ false) ⊎ (str_eq row.content_hash hash ≡ false)

-- From a closed event only the inbox changes, and the event stays closed.
abbrev Repeats : Bytes → Bytes → Db → Db → Type 0
Repeats id hash d d' = IsClosed id hash d → SameTables d d' × IsClosed id hash d'

Repeats-path : (id hash : Bytes) → IsPath (Repeats id hash)
Repeats-path id hash = record {
  stay = λ d h. (SameTables-refl d, h);
  join =
      λ a b c p q h. let (s, h') = p h in let (s', h'') = q h' in (SameTables-join a b c s s', h'');
}

module _ (env : Envelope) (hash canonical : Bytes) where
  repeat_decision-Repeats :
      (h : Bytes) (d : Disposition)
      → is_gap d ≡ false
      → Moves (Repeats env.event_id hash) (repeat_decision env h d)
  unfolding repeat_decision decide upsert_inbox
  repeat_decision-Repeats h d done =
      let path = Repeats-path env.event_id hash in
      Moves-bind path _ _
        (Moves-bind path _ _
          (Moves-exec path _ (λ db _.
            let r = IsDecided-put_inbox (inbox_row env h d) db in
            (
              SameTables-put_inbox (inbox_row env h d) db,
              record { row = r.row; found = r.found; closed = inl (ap is_gap r.same ∙ done) },
            )))
          (λ _. Moves-pure path d))
        (λ _. Moves-pure path (d, false))

  -- The `switch` on a disposition, for a row with the hash of the event.
  known_event-Repeats :
      (d : Disposition)
      → is_gap d ≡ false
      → Moves (Repeats env.event_id hash) (known_event env hash canonical d)
  unfolding known_event keep_decision
  known_event-Repeats applied h = repeat_decision-Repeats hash duplicate_noop refl
  known_event-Repeats duplicate_noop h = repeat_decision-Repeats hash duplicate_noop refl
  known_event-Repeats quarantined_gap h = cc
  known_event-Repeats d h = Moves-pure (Repeats-path env.event_id hash) (d, false)

  decide_event-Repeats :
      (w : World) (o : Option InboxRow)
      → o ≡ find_inbox env.event_id w.db
      → Repeats env.event_id hash w.db (decide_event env hash canonical o w).1.db
  unfolding decide_event
  decide_event-Repeats w none e h = cc (e, h.found)
  decide_event-Repeats w (some row) e h = elim (Bool-cases (str_eq row.content_hash hash)) [
    | inr other ↦
        rw other ((repeat_decision-Repeats row.content_hash quarantined_conflict refl).at w h)
    | inl same ↦ rw same ((known_event-Repeats row.disposition (still_closed same h.closed)).at w h)
  ]
    where
      same_row : h.row ≡ row
      same_row = cc (e, h.found)

      still_closed :
          str_eq row.content_hash hash ≡ true
          → (is_gap h.row.disposition ≡ false) ⊎ (str_eq h.row.content_hash hash ≡ false)
          → is_gap row.disposition ≡ false
      still_closed same (inl k) = cc (same_row, k)
      still_closed same (inr k) = cc (same_row, k, same)

  process_transaction-Repeats :
      Moves (Repeats env.event_id hash) (process_transaction env hash canonical)
  unfolding process_transaction lock_inbox
  process_transaction-Repeats = Moves-transact (Repeats-path env.event_id hash) _ (
      Moves-bind-query (Repeats-path env.event_id hash) (find_inbox env.event_id)
        (decide_event env hash canonical) decide_event-Repeats)

-- Once the inbox has an event under a disposition that is no gap, or under another content hash, a
-- delivery of the event changes neither the inventory nor the lineage, whatever the database answers,
-- and the event stays so.
pub process_validated-Repeats :
    (lower : ℕ → ℕ) (hash : Bytes → Bytes) (env : Envelope) (h : Bytes) (w : World)
    → content_hash lower hash env ≡ ok h
    → IsClosed env.event_id h w.db
    → SameTables w.db (process_validated lower hash env w).1.db
      × IsClosed env.event_id h (process_validated lower hash env w).1.db
unfolding process_validated
process_validated-Repeats lower hash env h w eh = validated.at w
  where
    same_hash : (h' : Bytes) → content_hash lower hash env ≡ ok h' → h' ≡ h
    same_hash h' e = cc (e, eh)

    validated : Moves (Repeats env.event_id h) (process_validated lower hash env)
    validated =
        let path = Repeats-path env.event_id h in
        Moves-or_transient path (content_hash lower hash env) _ (λ h' e.
          Moves-or_transient path (canonical_bytes lower env) _ (λ b _.
            Moves-bind path (process_transaction env h' b) _
              (rw (same_hash h' e) (process_transaction-Repeats env h b))
              (λ v.
                Moves-bind path (announce env v) _ (announce-Moves path env v)
                  (λ _. Moves-pure path _))))
