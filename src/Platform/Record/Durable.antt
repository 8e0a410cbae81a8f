-- ===== src/Platform/Record/Durable.antt =====
-- What a delivery of `ProcessRecord` (platform/process.go) can leave in the database.
use seshatops.Base.{◌≡◌, refl, true, Bytes, str_eq_refl, arith}
use seshatops.Base.Int64.{eqb_ℤ_iff}
use seshatops.Base.Table.{is_some, is_some-upsert, select_row-upsert, select_row-update_where}
use seshatops.Platform.World.{
  Db, Position, quarantined, InboxRow, FailureRow, Hop, HopRow, supplier, lot, batch, shipment,
}
use seshatops.Platform.Monad.Moves.{IsPath}
use seshatops.Platform.Store.{
  find_inbox, has_event_id, put_inbox, merge_inbox, add_projection, set_projection,
}
use seshatops.Platform.Projection.Writes.{apply_projection-Moves}
use seshatops.Platform.Lineage.{append_hop}
use seshatops.Platform.Failure.{
  find_failure, is_source, put_failure, set_quarantined, merge_failure,
}
use seshatops.Platform.Writes.{Writes}

-- The inbox has a row for the event.
abbrev pub HasEvent : Bytes → Db → Type 0
HasEvent id db = is_some (find_inbox id db) ≡ true

-- `processing_failures` has a row for the source position.
abbrev pub HasFailure : Position → Db → Type 0
HasFailure p db = is_some (find_failure p db) ≡ true

-- What holds before holds after.
abbrev pub Follows : (Db → Type 0) → Db → Db → Type 0
Follows P d d' = P d → P d'

pub Follows-path : (P : Db → Type 0) → IsPath (Follows P)
Follows-path P = record { stay = λ d p. p; join = λ a b c f g p. g (f p) }

HasEvent-put_inbox :
    (id : Bytes) (row : InboxRow) (d : Db) → Follows (HasEvent id) d (put_inbox row d)
unfolding put_inbox find_inbox
HasEvent-put_inbox id row d =
    is_some-upsert (has_event_id row.event_id) (has_event_id id) (merge_inbox row) row d.inbox
      (λ r _. refl)

HasEvent-append_hop :
    (id : Bytes) (h : Hop) (row : HopRow) (d : Db) → Follows (HasEvent id) d (append_hop h row d)
unfolding append_hop find_inbox
HasEvent-append_hop id supplier row d p = p
HasEvent-append_hop id lot row d p = p
HasEvent-append_hop id batch row d p = p
HasEvent-append_hop id shipment row d p = p

-- No write takes the row of an event out of the inbox.
pub HasEvent-Writes : (id : Bytes) → Writes (λ _. Unit {0}) (Follows (HasEvent id))
unfolding find_inbox put_failure set_quarantined add_projection set_projection
HasEvent-Writes id = record {
  path = Follows-path (HasEvent id);
  inbox = λ row d _. HasEvent-put_inbox id row d;
  hop = HasEvent-append_hop id;
  failure = λ row d p. p;
  quarantine = λ pos d p. p;
  projection = λ lower env hash canonical _ _.
      apply_projection-Moves (Follows-path (HasEvent id)) env hash canonical
        (λ row d _. HasEvent-put_inbox id row d) (λ row d p. p) (λ t i q v d p. p);
}

HasFailure-put_failure :
    (pos : Position) (row : FailureRow) (d : Db) → Follows (HasFailure pos) d (put_failure row d)
unfolding put_failure find_failure
HasFailure-put_failure pos row d =
    is_some-upsert (is_source row.source) (is_source pos) (merge_failure row) row d.failures
      (λ r _. refl)

pub HasFailure-set_quarantined :
    (pos q : Position) (d : Db) → Follows (HasFailure pos) d (set_quarantined q d)
unfolding set_quarantined find_failure
HasFailure-set_quarantined pos q d h =
    rw
      (select_row-update_where (is_source q) (is_source pos)
        (λ r. record r { quarantine_status = quarantined }) d.failures (λ r _. refl))
      (ground arith)

HasFailure-append_hop :
    (pos : Position) (h : Hop) (row : HopRow) (d : Db)
    → Follows (HasFailure pos) d (append_hop h row d)
unfolding append_hop find_failure
HasFailure-append_hop pos supplier row d p = p
HasFailure-append_hop pos lot row d p = p
HasFailure-append_hop pos batch row d p = p
HasFailure-append_hop pos shipment row d p = p

-- No write takes the row of a position out of `processing_failures`.
pub HasFailure-Writes : (pos : Position) → Writes (λ _. Unit {0}) (Follows (HasFailure pos))
unfolding find_failure put_inbox add_projection set_projection
HasFailure-Writes pos = record {
  path = Follows-path (HasFailure pos);
  inbox = λ row d _ p. p;
  hop = HasFailure-append_hop pos;
  failure = HasFailure-put_failure pos;
  quarantine = HasFailure-set_quarantined pos;
  projection = λ lower env hash canonical _ _.
      apply_projection-Moves (Follows-path (HasFailure pos)) env hash canonical (λ row d _ p. p)
        (λ row d p. p) (λ t i q v d p. p);
}

-- The row that was put is there.
pub HasFailure-put : (row : FailureRow) (d : Db) → HasFailure row.source (put_failure row d)
unfolding put_failure find_failure
HasFailure-put row d =
    rw
      (select_row-upsert (is_source row.source) (merge_failure row) row d.failures
        (ground (
          arith,
          str_eq_refl row.source.topic,
          eqb_ℤ_iff row.source.partition row.source.partition,
          eqb_ℤ_iff row.source.offset row.source.offset,
        ))
        (λ r h. h))
      refl
