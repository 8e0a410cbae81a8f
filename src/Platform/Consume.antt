-- ===== src/Platform/Consume.antt =====
-- `ConsumeOnce` of platform/consume.go: one poll, its records in order, and the offset commit.
--
-- The poll and the commit are the broker client's: `Fetch` is what a poll returned, `commit_ok` says
-- whether `CommitRecords` succeeds.
pub mod Acks
pub mod Commits
pub mod Runs
use seshatops.Base.{
  ℕ, suc, Bool, true, false, ◌&&◌, ◌||◌, not, Option, none, some, List, [], ◌∷◌, ◌++◌, Bytes,
  if◌then◌else◌, length,
}
use seshatops.Base.Int64.{ℤ, pos, ltb_ℤ, ◌+ℤ◌, ◌-ℤ◌}
use seshatops.Event.Json.{Tokens}
use seshatops.Platform.World.{PlatformError, transient, Position, World}
use seshatops.Platform.Failure.{Identity}
use seshatops.Platform.Record.{Delivery, process_record}

-- A fetched record, what `json.Unmarshal` recovers of it if it is malformed, and whether the handler
-- fails on it.
pub record Fetched : Type 0 where
  pub key : Bytes
  pub value : Bytes
  pub position : Position
  pub recovered : Identity
  pub faulty : Bool

pub record Partition : Type 0 where
  pub records : List Fetched
  pub high_watermark : ℤ

pub record ConsumeResult : Type 0 where
  pub fetched : ℕ
  pub processed : ℕ
  pub acked : ℕ
  pub skipped : ℕ
  pub ack_withheld : ℕ
  pub ack_commit_fail : Bool
  pub observed_lag : ℤ
  pub lag_known : Bool

abbrev pub no_result : ConsumeResult
no_result = record {
  fetched = 0;
  processed = 0;
  acked = 0;
  skipped = 0;
  ack_withheld = 0;
  ack_commit_fail = false;
  observed_lag = pos 0;
  lag_known = false;
}

-- The lag of one partition that returned records.
pub observe_first : List Fetched → ℤ → ConsumeResult → ConsumeResult
observe_first [] mark out = out
observe_first (r ∷ _) mark out =
    let lag = mark -ℤ r.position.offset in
    if ltb_ℤ mark (pos 0) then out else record out {
      observed_lag = out.observed_lag +ℤ (if ltb_ℤ lag (pos 0) then pos 0 else lag);
      lag_known = true;
    }

unfoldable pub observe : List Partition → ConsumeResult → ConsumeResult
unfolding observe_first
observe [] out = out
observe (p ∷ ps) out = observe ps (observe_first p.records p.high_watermark out)

unfoldable pub all_records : List Partition → List Fetched
all_records [] = []
all_records (p ∷ ps) = p.records ++ all_records ps

-- The variables of the loop over the records.
pub record Loop : Type 0 where
  pub out : ConsumeResult
  pub to_commit : List Fetched
  pub first_error : Option PlatformError
  pub world : World

abbrev withhold : ConsumeResult → ConsumeResult
withhold out = record out { skipped = suc out.skipped; ack_withheld = suc out.ack_withheld }

-- The counters and the commit list after one delivery.
unfoldable pub account : Loop → Fetched → Delivery → World → Loop
account s r d w =
    let out = record s.out { fetched = suc s.out.fetched } in
    let done = record out { processed = suc out.processed } in
    elim d.failure [
      | some e ↦
          if d.should_ack
          then record s { out = done; to_commit = s.to_commit ++ r ∷ []; world = w }
          else record s { out = withhold out; first_error = some e; world = w }
      | none ↦
          if d.should_ack
          then record s { out = done; to_commit = s.to_commit ++ r ∷ []; world = w }
          else record s { out = withhold done; world = w }
    ]

-- The offsets that were committed, beside the result and the error.
unfoldable pub commit_records :
    Bool → Loop → List Fetched → (ConsumeResult × Option PlatformError) × List Fetched
commit_records commit_ok s [] = ((s.out, s.first_error), [])
commit_records true s (r ∷ rs) = ((record s.out { acked = length (r ∷ rs) }, s.first_error), r ∷ rs)
commit_records false s (r ∷ rs) = ((record s.out { ack_commit_fail = true }, some transient), [])

module _ (lower : ℕ → ℕ) (hash : Bytes → Bytes) (tokens : Bytes → Tokens) where
  abbrev pub deliver : Fetched → World → Delivery × World
  deliver r w = process_record lower hash tokens r.faulty r.recovered r.key r.value r.position w

  -- One call of the closure: after the first error the records are passed over.
  unfoldable pub handle_unless : Option PlatformError → Loop → Fetched → Loop
  handle_unless (some e) s r = s
  handle_unless none s r = let (d, w) = deliver r s.world in account s r d w

  abbrev pub handle_record : Loop → Fetched → Loop
  handle_record s r = handle_unless s.first_error s r

  unfoldable pub each_record : Loop → List Fetched → Loop
  each_record s [] = s
  each_record s (r ∷ rs) = each_record (handle_record s r) rs

  unfoldable pub consume_loop : List Partition → World → Loop
  consume_loop ps w =
      each_record
        (record { out = observe ps no_result; to_commit = []; first_error = none; world = w })
        (all_records ps)

  unfoldable pub consume_once :
      Bool → List Partition → World → (ConsumeResult × Option PlatformError) × List Fetched × World
  consume_once commit_ok ps w =
      let s = consume_loop ps w in
      let (res, committed) = commit_records commit_ok s s.to_commit in (res, committed, s.world)
