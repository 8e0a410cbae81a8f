-- ===== src/Platform/Tests.antt =====
-- Examples of package platform.
use seshatops.Base.{
  arith, ℕ, suc, ◌≡◌, refl, true, false, inl, none, some, [], ◌∷◌, Bytes, List, leb, if◌then◌else◌,
}
use seshatops.Base.Int64.{pos}
use seshatops.Base.Result.{ok}
use seshatops.Base.{lit, str_eq}
use seshatops.Base.Int64.{◌-ℤ◌, ◌+ℤ◌}
use seshatops.Base.Table.{select_row, update_where, upsert, count_where}
use seshatops.Event.Payload.{as_quantity_decremented}
use seshatops.Event.Text.{
  require_utf8, valid_utf8, require_uuid, is_uuid, require_lower_uuid, is_lowercase, runes,
  require_canonical_id, any, is_space, require_time_z, is_time_z, parses_rfc3339, days_in,
  decode_runes, is_blank, is_digit, is_hex, is_lower_hex, lower_rune, match_prefix,
}
use seshatops.Event.Payload.{family_aggregate_type, aggregate_of}
use seshatops.Event.Validate.{validate, validate_against, validate_payload, validate_quantity}
use seshatops.Event.Parse.{parse, decode_strict}
use seshatops.Event.Unicode.{ensure_jcs_compatible_json, reject_unpaired_surrogate_escapes, scan}
use seshatops.Event.Json.{
  decode_value, decode_object, has_member, add_member, parse_integer_number, parse_int, find_member,
}
use seshatops.Event.Decode.{
  envelope_from_object, require_keys, all_present, all_known, contains, as_int, as_nullable_string,
  as_string, payload_from_object, quantity_decremented_from_object,
}
use seshatops.Event.Canonical.{
  content_hash, canonical_bytes, envelope_map, payload_map, jcs_object, jcs_value, jcs_rows,
  jcs_string, escape, escape_all, digits_of, format_int, less_utf16, sort_keys,
}
use seshatops.Platform.Monad.{
  pure, raise, ◌>>=◌, take_outcome, outcome, query, exec, exec_returning, transact,
}
use seshatops.Platform.Store.{
  find_inbox, find_projection, put_inbox, add_projection, set_projection, lock_inbox, upsert_inbox,
  lock_projection, insert_projection, update_projection,
}
use seshatops.Platform.Projection.{
  decide, decide_version, project_first, project_next, project_row, project_payload,
  apply_projection,
}
use seshatops.Platform.Lineage.{is_projection_family, projection_self_id, apply_event}
use seshatops.Platform.Process.{
  or_transient, apply_fresh, keep_decision, repeat_decision, known_event, decide_event,
  process_transaction, notify_applied, announce, process_validated, quarantine_inbox,
}
use seshatops.Platform.Redrive.{
  is_stored, is_next_gap, next_gap, lift_event, redrive_row, redrive_found, redrive_round, redrive,
  redrive_gaps,
}
use seshatops.Platform.Record.{process_valid, process_self, process_parsed, process_record}
use seshatops.Relay.Claim.{aggregate_key}
use seshatops.Event.Samples.{
  same_rune, constant_hash, content, decrement, decrement_tokens, item_id, tenant_id, event_id,
}
use seshatops.Event.Tests.{decrement_hash}
use seshatops.Platform.World.{
  PlatformError, Db, World, Position, empty_db, quiet_world, applied, succeeds, fails, unheard,
}
use seshatops.Platform.Store.{inbox_row}
use seshatops.Platform.Failure.{Identity, poisoned, retry, bump_poison_attempt}
use seshatops.Platform.Failure.Budget.{attempts, bump_poison_attempt-counts}
use seshatops.Platform.Monad.Ensures.{Ensures}
use seshatops.Platform.Projection.Advance.{view, IsSound, Advances, Keeps-add_projection}
use seshatops.Platform.Projection.Advance
use seshatops.Platform.Projection.Monotone.{IsLater}
use seshatops.Platform.Process.Records.{IsRecorded, process_validated-Ensures}
use seshatops.Platform.Process.Repeats.{SameTables, IsClosed, process_validated-Repeats}
use seshatops.Platform.Record.Acks.{Evidence, process_record-acked}
use seshatops.Platform.Record.Withheld.{process_record-Explained}
use seshatops.Platform.Consume.{Fetched, Partition, consume_once}
use seshatops.Platform.Consume.Commits.{IsPolled, consume_once-IsPolled}
use seshatops.Platform.Consume.Runs.{Poll, run, run-Advances, run-monotone, IsSound-empty_db}
use seshatops.Event.Payload.{QuantityDecremented}
use seshatops.Event.Samples.{second}
use seshatops.Event.Tests.{second_hash, second_bytes, decrement_parses}
use seshatops.Platform.World.{quarantined_gap}
use seshatops.Platform.Monad.Ensures.{Post}
use seshatops.Platform.Process.Applies.{IsNext, applied_db, update, process_validated-applies}
use seshatops.Platform.Redrive.{redrive, gap_count}
use seshatops.Platform.Redrive.Measure.{GapsAreOwn}
use seshatops.Platform.Redrive.Enough.{redrive-ends}

abbrev somewhere : Position
somewhere = record { topic = lit "events"; partition = pos 0; offset = pos 7 }

abbrev nobody : Identity
nobody = record {
  event_id = none;
  tenant_id = none;
  aggregate_type = none;
  aggregate_id = none;
  aggregate_version = none;
  event_schema_version = none;
  event_type = none;
}

abbrev key : Bytes
key = lit "1b4e28ba-2fa1-4d3a-883f-0016d3cca427/inventory_item/item-flour"

abbrev fetched : Fetched
fetched = record {
  key = key;
  value = lit "{}";
  position = somewhere;
  recovered = nobody;
  faulty = false;
}

abbrev partitions : List Partition
partitions = record { records = fetched ∷ []; high_watermark = pos 8 } ∷ []

-- The record is polled twice; the answer to the commit of the first transaction is lost.
abbrev polls : List Poll
polls =
    record {
      commit_ok = true;
      partitions = partitions;
      outcomes = succeeds ∷ succeeds ∷ succeeds ∷ succeeds ∷ succeeds ∷ unheard ∷ [];
      fresh_ids = [];
    }
    ∷ record { commit_ok = true; partitions = partitions; outcomes = []; fresh_ids = [] }
    ∷ []

run-Advances_example :
    Advances empty_db (run same_rune constant_hash decrement_tokens polls (quiet_world empty_db)).db
    × IsSound (run same_rune constant_hash decrement_tokens polls (quiet_world empty_db)).db
run-Advances_example = run-Advances same_rune constant_hash decrement_tokens polls

consume_once-IsPolled_example :
    IsPolled same_rune constant_hash decrement_tokens partitions
      (consume_once same_rune constant_hash decrement_tokens true partitions (quiet_world empty_db))
consume_once-IsPolled_example =
    consume_once-IsPolled same_rune constant_hash decrement_tokens true partitions
      (quiet_world empty_db)

-- Fifteen of the item, at version 1.
abbrev stocked : Db
stocked = add_projection (Advance.row tenant_id item_id (pos 15) (pos 1)) empty_db

stocked-IsSound : IsSound stocked
unfolding find_projection select_row
stocked-IsSound = (Keeps-add_projection tenant_id item_id 15 empty_db refl IsSound-empty_db).1

stocked-view : view tenant_id item_id stocked ≡ some (pos 15, pos 1)
unfolding find_projection select_row add_projection str_eq lit
stocked-view = refl

run-monotone_example :
    (q v : ℕ) × (view tenant_id item_id
        (run same_rune constant_hash decrement_tokens polls (quiet_world stocked)).db
      ≡ some (pos q, pos v))
    × IsLater 15 1 q v
run-monotone_example =
    run-monotone same_rune constant_hash decrement_tokens polls (quiet_world stocked) tenant_id
      item_id 15 1 stocked-IsSound stocked-view

-- The event is in the inbox.
abbrev decided : Db
decided = put_inbox (inbox_row decrement content applied) empty_db

decided-IsClosed : IsClosed event_id content decided
unfolding find_inbox put_inbox upsert select_row str_eq lit
decided-IsClosed = record {
  row = inbox_row decrement content applied;
  found = refl;
  closed = inl refl;
}

process_validated-Repeats_example :
    SameTables decided
      (process_validated same_rune constant_hash decrement (quiet_world decided)).1.db
    × IsClosed event_id content
        (process_validated same_rune constant_hash decrement (quiet_world decided)).1.db
process_validated-Repeats_example =
    process_validated-Repeats same_rune constant_hash decrement content (quiet_world decided)
      decrement_hash decided-IsClosed

fetched_acked :
    (process_record same_rune constant_hash decrement_tokens false nobody key
      (lit "{}")
      somewhere
      (quiet_world empty_db)).0.should_ack
    ≡ true
unfolding lit str_eq ◌-ℤ◌ select_row update_where upsert count_where ◌+ℤ◌ as_quantity_decremented
    require_utf8 valid_utf8 require_uuid is_uuid require_lower_uuid is_lowercase runes
    require_canonical_id any is_space require_time_z is_time_z parses_rfc3339 days_in decode_runes
    is_blank is_digit is_hex is_lower_hex lower_rune match_prefix family_aggregate_type aggregate_of
    validate validate_against validate_payload validate_quantity parse decode_strict
    ensure_jcs_compatible_json reject_unpaired_surrogate_escapes scan decode_value decode_object
    has_member add_member parse_integer_number parse_int find_member envelope_from_object
    require_keys all_present all_known contains as_int as_nullable_string as_string
    payload_from_object quantity_decremented_from_object content_hash canonical_bytes envelope_map
    payload_map jcs_object jcs_value jcs_rows jcs_string escape escape_all digits_of format_int
    less_utf16 sort_keys pure raise ◌>>=◌ take_outcome outcome query exec exec_returning transact
    find_inbox find_projection put_inbox add_projection set_projection lock_inbox upsert_inbox
    lock_projection insert_projection update_projection decide decide_version project_first
    project_next project_row project_payload apply_projection is_projection_family
    projection_self_id apply_event or_transient apply_fresh keep_decision repeat_decision
    known_event decide_event process_transaction notify_applied announce process_validated
    quarantine_inbox is_stored is_next_gap next_gap lift_event redrive_row redrive_found
    redrive_round redrive redrive_gaps aggregate_key process_valid process_self process_parsed
    process_record
fetched_acked = refl

process_record-acked_example :
    Evidence same_rune constant_hash decrement_tokens
      (lit "{}")
      somewhere
      (process_record same_rune constant_hash decrement_tokens false nobody key
        (lit "{}")
        somewhere
        (quiet_world empty_db)).1.db
process_record-acked_example =
    process_record-acked same_rune constant_hash decrement_tokens false nobody key (lit "{}")
      somewhere (quiet_world empty_db) fetched_acked

process_validated-Ensures_example :
    Ensures
      (IsRecorded same_rune constant_hash decrement)
      (process_validated same_rune constant_hash decrement)
process_validated-Ensures_example = process_validated-Ensures same_rune constant_hash decrement

-- The database is out of reach: the acknowledgement is withheld.
abbrev unreachable : World
unreachable = record { db = empty_db; notified = []; outcomes = fails ∷ []; fresh_ids = [] }

fetched_withheld :
    (process_record same_rune constant_hash decrement_tokens false nobody key
      (lit "{}")
      somewhere
      unreachable).0.should_ack
    ≡ false
unfolding lit str_eq ◌-ℤ◌ select_row update_where upsert count_where ◌+ℤ◌ as_quantity_decremented
    require_utf8 valid_utf8 require_uuid is_uuid require_lower_uuid is_lowercase runes
    require_canonical_id any is_space require_time_z is_time_z parses_rfc3339 days_in decode_runes
    is_blank is_digit is_hex is_lower_hex lower_rune match_prefix family_aggregate_type aggregate_of
    validate validate_against validate_payload validate_quantity parse decode_strict
    ensure_jcs_compatible_json reject_unpaired_surrogate_escapes scan decode_value decode_object
    has_member add_member parse_integer_number parse_int find_member envelope_from_object
    require_keys all_present all_known contains as_int as_nullable_string as_string
    payload_from_object quantity_decremented_from_object content_hash canonical_bytes envelope_map
    payload_map jcs_object jcs_value jcs_rows jcs_string escape escape_all digits_of format_int
    less_utf16 sort_keys pure raise ◌>>=◌ take_outcome outcome query exec exec_returning transact
    find_inbox find_projection put_inbox add_projection set_projection lock_inbox upsert_inbox
    lock_projection insert_projection update_projection decide decide_version project_first
    project_next project_row project_payload apply_projection is_projection_family
    projection_self_id apply_event or_transient apply_fresh keep_decision repeat_decision
    known_event decide_event process_transaction notify_applied announce process_validated
    quarantine_inbox is_stored is_next_gap next_gap lift_event redrive_row redrive_found
    redrive_round redrive redrive_gaps aggregate_key process_valid process_self process_parsed
    process_record
fetched_withheld = refl

process_record-Explained_example :
    (e : PlatformError) × ((process_record same_rune constant_hash decrement_tokens false nobody key
        (lit "{}")
        somewhere
        unreachable).0.failure
      ≡ some e)
process_record-Explained_example =
    process_record-Explained same_rune constant_hash decrement_tokens false nobody key (lit "{}")
      somewhere unreachable fetched_withheld

abbrev failing : World
failing = record { db = empty_db; notified = []; outcomes = []; fresh_ids = lit "f" ∷ [] }

bump_poison_attempt-counts_example :
    ((bump_poison_attempt constant_hash same_rune decrement
        (lit "{}")
        somewhere
        (lit "handler_poison")
        failing).0
      ≡ ok (if leb 5 (suc (attempts somewhere empty_db)) then poisoned else retry))
    × (attempts somewhere
          (bump_poison_attempt constant_hash same_rune decrement
            (lit "{}")
            somewhere
            (lit "handler_poison")
            failing).1.db
        ≡ suc (attempts somewhere empty_db))
bump_poison_attempt-counts_example =
    bump_poison_attempt-counts constant_hash same_rune decrement (lit "{}") somewhere
      (lit "handler_poison") failing (lit "f") [] refl refl

abbrev decrement_payload : QuantityDecremented
decrement_payload = record {
  order_id = lit "9b2d3f60-51c4-4c1e-8a53-0d4f6f0e2b11";
  item_id = item_id;
  quantity_decremented = pos 5;
  quantity_before = pos 15;
  quantity_after = pos 10;
}

stocked_fresh : find_inbox event_id stocked ≡ none
unfolding find_inbox select_row add_projection
stocked_fresh = refl

decrement_is_next : IsNext second decrement_payload (Advance.row tenant_id item_id (pos 15) (pos 1))
unfolding ◌-ℤ◌
decrement_is_next = record {
  version = 1;
  payload = refl;
  event_type = refl;
  stored = refl;
  received = refl;
  small = omega arith;
  before = refl;
  balance = refl;
}

stocked_row :
    find_projection tenant_id item_id stocked
    ≡ some (Advance.row tenant_id item_id (pos 15) (pos 1))
unfolding find_projection select_row add_projection str_eq lit
stocked_row = refl

process_validated-applies_example :
    (process_validated same_rune constant_hash second (quiet_world stocked) ≡ (
      ok (record { disposition = applied; event_id = event_id }),
      record (quiet_world stocked) {
        db =
            applied_db second decrement_payload
              (Advance.row tenant_id item_id (pos 15) (pos 1))
              decrement_is_next
              content
              stocked;
        notified =
            update second decrement_payload
              (Advance.row tenant_id item_id (pos 15) (pos 1))
              decrement_is_next
            ∷ [];
      },
    ))
    × (view tenant_id item_id (
          applied_db second decrement_payload
            (Advance.row tenant_id item_id (pos 15) (pos 1))
            decrement_is_next
            content
            stocked)
        ≡ some (pos 10, pos 2))
process_validated-applies_example =
    process_validated-applies second decrement_payload
      (Advance.row tenant_id item_id (pos 15) (pos 1)) decrement_is_next same_rune constant_hash
      content second_bytes.0 (quiet_world stocked) second_hash second_bytes.1 refl stocked_fresh
      stocked_row

-- A gap row whose bytes are the event's.
abbrev gapped : Db
gapped =
    put_inbox
      (record (inbox_row decrement content quarantined_gap) { event_bytes = some (lit "{}") })
      empty_db

gapped-GapsAreOwn : GapsAreOwn same_rune decrement_tokens gapped
unfolding put_inbox upsert select_row str_eq lit
gapped-GapsAreOwn = record { all = (λ _ env e. cc (decrement_parses, e), tt) }

redrive-ends_example :
    Post
      (λ ended _. ended ≡ true)
      (redrive same_rune constant_hash decrement_tokens
        (suc (gap_count gapped))
        tenant_id
        (lit "inventory_item")
        item_id
        (quiet_world gapped))
redrive-ends_example =
    redrive-ends same_rune constant_hash decrement_tokens tenant_id (lit "inventory_item") item_id
      (suc (gap_count gapped)) (quiet_world gapped) (omega arith) gapped-GapsAreOwn
