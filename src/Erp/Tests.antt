-- ===== src/Erp/Tests.antt =====
-- Commands of the ERP (erp/accept.go, erp/lineage.go) on a database with one item.
use seshatops.Base.{refl, true, none, List, [], ◌∷◌, lit, str_eq, arith}
use seshatops.Base.Int64.{pos}
use seshatops.Event.Samples.{same_rune, constant_hash, item_id, tenant_id, event_id}
use seshatops.Relay.Publish.{answered, unheard}
use seshatops.Erp.World.{ErpDb, Weather}
use seshatops.Erp.World.Yields.{Settled}
use seshatops.Erp.Orders.{OrderCommand, accept_order}
use seshatops.Erp.Orders.Accepts.{IsAccepted, accept_order-Settled}
use seshatops.Erp.Sources.{Hop}
use seshatops.Erp.Sources.Spec.{SourceCommand, supplier_command}
use seshatops.Erp.Sources.Settles.{run_source, IsRecorded, run_source-Settled}
use seshatops.Base.Table.{select_row}
use seshatops.Erp.Ledger.{
  ordered, versions, up_to, Command, order_given, source_given, run_commands, IsLedger,
}
use seshatops.Erp.Ledger.Runs.{run_commands-IsLedger}

abbrev pub fair : Weather
fair = record { begins = true; faults = []; commits = answered }

abbrev pub seeded : ErpDb
seeded = record {
  items =
      record {
        tenant_id = tenant_id;
        item_id = item_id;
        quantity_on_hand = pos 10;
        aggregate_version = pos 0;
      }
      ∷ [];
  orders = [];
  suppliers = [];
  lots = [];
  batches = [];
  shipments = [];
  outbox = [];
}

-- An order for three of the ten.
abbrev pub order : OrderCommand
order = record {
  event_id = event_id;
  tenant_id = tenant_id;
  order_id = lit "6fa459ea-ee8a-4ca4-894e-db77e160355e";
  item_id = item_id;
  quantity = pos 3;
  occurred_at = lit "2026-01-05T10:00:00Z";
  recorded_at = lit "2026-01-05T10:00:01Z";
  correlation_id = lit "16fd2706-8baf-433b-82eb-8c7fada847da";
  causation_id = none;
  trace_id = lit "trace-1";
}

abbrev pub hop : Hop
hop = record {
  event_id = lit "886313e1-3b8a-4372-9b90-0c9aee199e5d";
  tenant_id = tenant_id;
  occurred_at = lit "2026-01-05T9:00:00Z";
  recorded_at = lit "2026-01-05T09:00:01Z";
  correlation_id = lit "16fd2706-8baf-433b-82eb-8c7fada847da";
  causation_id = none;
  trace_id = lit "trace-1";
}

abbrev supplier : SourceCommand
supplier =
    supplier_command (record hop { occurred_at = lit "2026-01-05T09:00:00Z" }) (lit "supplier-1")

abbrev pub commands : List Command
commands =
    source_given fair supplier
    ∷ order_given (record fair { commits = unheard }) order
    ∷ order_given fair order
    ∷ []

accept_order-Settled_example :
    Settled
      (IsAccepted same_rune constant_hash order seeded)
      fair
      seeded
      (accept_order same_rune constant_hash fair order seeded)
accept_order-Settled_example = accept_order-Settled same_rune constant_hash fair order seeded

run_source-Settled_example :
    Settled
      (IsRecorded same_rune constant_hash supplier seeded)
      fair
      seeded
      (run_source same_rune constant_hash fair supplier seeded)
run_source-Settled_example = run_source-Settled same_rune constant_hash fair supplier seeded

pub seeded-IsLedger : IsLedger tenant_id item_id 10 seeded
unfolding select_row lit str_eq ordered versions up_to
seeded-IsLedger = (10, 0, refl, refl, refl, omega arith, refl)

run_commands-IsLedger_example :
    IsLedger tenant_id item_id 10 (run_commands same_rune constant_hash commands seeded)
run_commands-IsLedger_example =
    run_commands-IsLedger same_rune constant_hash tenant_id item_id 10 commands seeded
      seeded-IsLedger
