-- ===== src/System/Tests.antt =====
-- An order on its way from the ERP (erp/accept.go) to the topic (relay/publish.go).
use seshatops.Base.{ℕ, refl, List, [], ◌∷◌}
use seshatops.Event.Samples.{same_rune, constant_hash, item_id, tenant_id, decrement_tokens}
use seshatops.Relay.Publish.{Turn, answered}
use seshatops.Relay.Publish.Fleet.{claim_act, drain_act, handle_act}
use seshatops.Relay.Publish.Safe.{IsSafe}
use seshatops.Erp.Ledger.{IsLedger, order_given}
use seshatops.Erp.Tests.{fair, seeded, order, seeded-IsLedger}
use seshatops.System.{Site, SiteStep, command_step, relay_act, run_site}
use seshatops.System.Runs.{run_site-IsSafe}

abbrev site : Site
site = record { erp = seeded; log = []; held = [] }

abbrev turn_of : ℕ → Turn
turn_of now = record { broker = answered; statement = answered; now = now }

-- A relay claims the event and stops; another one publishes it, and the first one wakes up.
abbrev steps : List SiteStep
steps =
    command_step (order_given fair order)
    ∷ relay_act (claim_act (1 ∷ []) 500 5 (turn_of 100))
    ∷ relay_act (drain_act (2 ∷ []) 500 5 (turn_of 700) [])
    ∷ command_step (order_given fair order)
    ∷ relay_act (handle_act 0 (turn_of 800))
    ∷ []

run_site-IsSafe_example :
    let s' = run_site same_rune constant_hash decrement_tokens steps site in
    IsSafe same_rune decrement_tokens (record { rows = s'.erp.outbox; log = s'.log })
    × IsLedger tenant_id item_id 10 s'.erp
run_site-IsSafe_example =
    run_site-IsSafe same_rune constant_hash decrement_tokens tenant_id item_id 10 steps site
      (record { no_events = refl; no_records = refl; none_held = refl }) seeded-IsLedger
