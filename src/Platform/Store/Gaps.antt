-- ===== src/Platform/Store/Gaps.antt =====
-- The gap rows of the inbox, by event (platform/process.go).
use seshatops.Base.{ℕ, ◌+◌, ◌≡◌, refl, Bool, true, false, ◌&&◌, not, Bytes, str_eq_refl, arith}
use seshatops.Base.Table.{
  count_where, count_where-upsert-none, count_where-upsert-other, count_where-split,
}
use seshatops.Platform.World.{Db, InboxRow, Disposition, applied, quarantined_gap}
use seshatops.Platform.Store.{is_gap, is_applied, has_event_id, merge_inbox, put_inbox}

-- The gap rows of an event.
abbrev pub is_own_gap : Bytes → InboxRow → Bool
is_own_gap id r = is_gap r.disposition && has_event_id id r

abbrev pub own_gaps : Bytes → Db → ℕ
own_gaps id db = count_where (is_own_gap id) db.inbox

-- A row that is no gap leaves none of its event.
pub own_gaps-put_inbox :
    (row : InboxRow) (db : Db)
    → is_gap row.disposition ≡ false
    → own_gaps row.event_id (put_inbox row db) ≡ 0
unfolding put_inbox
own_gaps-put_inbox row db open_row =
    count_where-upsert-none (has_event_id row.event_id) (is_own_gap row.event_id) (merge_inbox row)
      row db.inbox (λ r h. ground arith) (λ r h. ground arith) (ground arith)

pub is_applied-is_gap : (d : Disposition) → is_applied d ≡ true → is_gap d ≡ false
is_applied-is_gap applied h = refl
is_applied-is_gap quarantined_gap h = cc
is_applied-is_gap d h = refl

-- The gap rows of the other events.
abbrev is_other_gap : Bytes → InboxRow → Bool
is_other_gap id r = is_gap r.disposition && not (has_event_id id r)

abbrev pub other_gaps : Bytes → Db → ℕ
other_gaps id db = count_where (is_other_gap id) db.inbox

pub other_gaps-put_inbox :
    (id : Bytes) (row : InboxRow) (db : Db)
    → row.event_id ≡ id
    → other_gaps id (put_inbox row db) ≡ other_gaps id db
unfolding put_inbox
other_gaps-put_inbox id row db e =
    count_where-upsert-other (has_event_id row.event_id) (is_other_gap id) (merge_inbox row) row
      db.inbox (λ r h. (rw⁻¹ e (ground arith), rw⁻¹ e (ground arith)))
      (rw⁻¹ e (ground (arith, str_eq_refl row.event_id)))

pub gaps-split :
    (id : Bytes) (db : Db)
    → count_where (λ r. is_gap r.disposition) db.inbox ≡ own_gaps id db + other_gaps id db
gaps-split id db = count_where-split (λ r. is_gap r.disposition) (has_event_id id) db.inbox
