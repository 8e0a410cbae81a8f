-- ===== src/Relay/Publish/Tests.antt =====
-- Runs of relays (relay/publish.go) on an outbox with one good row and one that cannot be read.
use seshatops.Base.{
  ℕ, ◌+◌, ◌≤◌, ◌≡◌, refl, sym, true, false, none, List, [], ◌∷◌, Bytes, All, select, arith, lit,
  str_eq_iff, str_eq, length, if◌then◌else◌, ◌==◌,
}
use seshatops.Base.Int64.{pos}
use seshatops.Base.Result.{ok}
use seshatops.Event.Tests.{decrement_parses}
use seshatops.Event.Samples.{decrement, same_rune, decrement_tokens, item_id, tenant_id}
use seshatops.Event.Payload.{aggregate_type_inventory_item}
use seshatops.Relay.Claim.{pending, is_due, OutboxRow}
use seshatops.Relay.Evolves.{Follow}
use seshatops.Relay.Keyed.{IsKeyed}
use seshatops.Relay.Publish.{Relayed, Turn, answered, unheard, disagrees, drain_once}
use seshatops.Relay.Publish.Safe.{IsSafe}
use seshatops.Relay.Publish.Publishes.{IsSendable, Publishes, Ends, calm, drain_once-Publishes}
use seshatops.Relay.Publish.Counts.{handled, acked, drain_once-counts}
use seshatops.Relay.Publish.Fleet.{
  Fleet, Act, claim_act, handle_act, drain_act, retry_act, IsSound, run_acts, run_acts-IsSafe,
}

abbrev row_with : Bytes → Bytes → OutboxRow
row_with id content = record {
  event_id = id;
  tenant_id = tenant_id;
  aggregate_type = aggregate_type_inventory_item;
  aggregate_id = item_id;
  aggregate_version = pos 1;
  content_hash = lit "h";
  event_bytes = content;
  status = pending;
  publish_attempts = 0;
  last_error_code = none;
  lease_owner = none;
  lease_expires_at = none;
}

abbrev good_row : OutboxRow
good_row = row_with (10 ∷ []) (lit "{}")

abbrev bad_row : OutboxRow
bad_row = row_with (20 ∷ []) (255 ∷ [])

abbrev fresh_world : Relayed
fresh_world = record { rows = good_row ∷ bad_row ∷ []; log = [] }

abbrev fresh_fleet : Fleet
fresh_fleet = record { world = fresh_world; held = [] }

abbrev turn_of : ℕ → Turn
turn_of now = record { broker = answered; statement = answered; now = now }

abbrev lost_answer : ℕ → Turn
lost_answer now = record { broker = unheard; statement = answered; now = now }

-- The first relay stops after its claim; the second one takes both rows over when the lease has
-- expired, loses the answer of the broker, and tries again; then the first one wakes up.
abbrev two_relays : List Act
two_relays =
    claim_act (1 ∷ []) 500 5 (turn_of 100)
    ∷ drain_act (2 ∷ []) 500 5 (turn_of 700) (lost_answer 700 ∷ [])
    ∷ drain_act (2 ∷ []) 500 5 (turn_of 2700) []
    ∷ handle_act 0 (turn_of 2800)
    ∷ retry_act answered tenant_id (20 ∷ [])
    ∷ []

apart : good_row.event_id ≡ bad_row.event_id → ⊥
apart e = apart_bool ((str_eq_iff good_row.event_id bad_row.event_id).1 e)
  where
    apart_bool : str_eq good_row.event_id bad_row.event_id ≡ true → ⊥
    apart_bool h = ground arith

fresh_rows-IsKeyed : IsKeyed fresh_world.rows
fresh_rows-IsKeyed =
    ((λ _. refl, (λ e. absurd (apart (sym e)), tt)), ((λ e. absurd (apart e), (λ _. refl, tt)), tt))

fresh_fleet-IsSound : IsSound same_rune decrement_tokens fresh_fleet
fresh_fleet-IsSound = record {
  safe = record {
    keyed = fresh_rows-IsKeyed;
    delivered = ((λ e. ground arith), ((λ e. ground arith), tt));
    readable = tt;
  };
  snapshots = tt;
}

run_acts-IsSafe_example :
    Follow fresh_world.rows (run_acts same_rune decrement_tokens two_relays fresh_fleet).world.rows
    × IsSafe same_rune decrement_tokens
        (run_acts same_rune decrement_tokens two_relays fresh_fleet).world
run_acts-IsSafe_example =
    run_acts-IsSafe same_rune decrement_tokens two_relays fresh_fleet fresh_fleet-IsSound

drain_once-counts_example :
    let (out, r, w') =
      drain_once same_rune decrement_tokens
        (1 ∷ [])
        500
        5
        (turn_of 100)
        (lost_answer 100 ∷ [])
        fresh_world in
    (out.claimed ≤ (if 5 == 0 then 1 else 5))
    × (handled out ≤ out.claimed)
    × (r ≡ ok tt → handled out ≡ out.claimed)
    × (length fresh_world.log + acked out ≤ length w'.log)
    × (length w'.log ≤ length fresh_world.log + out.claimed)
drain_once-counts_example =
    drain_once-counts same_rune decrement_tokens (1 ∷ []) 500 5 (turn_of 100) (lost_answer 100 ∷ [])
      fresh_world

-- One row that is due, and nothing that fails.
abbrev good_world : Relayed
good_world = record { rows = good_row ∷ []; log = [] }

columns : disagrees decrement good_row ≡ false
unfolding str_eq lit
columns = refl

good_world-IsSendable : All (IsSendable same_rune decrement_tokens 100) good_world.rows
good_world-IsSendable = ((λ _. (decrement, decrement_parses, columns)), tt)

few_due : length (select (is_due 100) good_world.rows) ≤ 5
unfolding select
few_due = omega arith

drain_once-Publishes_example :
    Ends
      (Publishes 100)
      good_world.rows
      (drain_once same_rune decrement_tokens (1 ∷ []) 500 5 (calm 100) [] good_world)
drain_once-Publishes_example =
    drain_once-Publishes same_rune decrement_tokens (1 ∷ []) 500 5 100 good_world refl few_due
      good_world-IsSendable
