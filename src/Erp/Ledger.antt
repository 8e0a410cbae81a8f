-- ===== src/Erp/Ledger.antt =====
-- Any sequence of the commands of the ERP (erp/accept.go, erp/lineage.go), and the ledger of an item.
pub mod Kept
pub mod Runs
use seshatops.Base.{
  ℕ, zero, suc, ◌+◌, ◌-◌, ◌^◌, ◌≤◌, ◌<◌, Bool, true, false, Bool-cases, ◌&&◌, ◌||◌, not, Option,
  none, some, List, [], ◌∷◌, ◌++◌, map, select, Bytes, ◌≡◌, refl, sym, ◌∙◌, ap, subst, ◌⊎◌, inl,
  inr, str_eq, str_eq_iff, if◌then◌else◌, arith,
}
use seshatops.Base.Int64.{ℤ, pos, pos_part, max_safe_int}
use seshatops.Base.Table.{select_row}
use seshatops.Event.Payload.{aggregate_type_inventory_item}
use seshatops.Relay.Claim.{OutboxRow}
use seshatops.Erp.World.{Item, Order, ErpDb, Weather}
use seshatops.Erp.Outbox.{is_of}
use seshatops.Erp.Orders.{OrderCommand, is_item, accept_order}
use seshatops.Erp.Sources.Spec.{SourceCommand}
use seshatops.Erp.Sources.Settles.{run_source}

-- A command, with what the database does while it runs.
pub data Command : Type 0 where
  order_given : Weather → OrderCommand → Command
  source_given : Weather → SourceCommand → Command

module _ (lower : ℕ → ℕ) (hash : Bytes → Bytes) where
  abbrev pub run_command : Command → ErpDb → ErpDb
  run_command (order_given weather cmd) db = (accept_order lower hash weather cmd db).1
  run_command (source_given weather cmd) db = (run_source lower hash weather cmd db).1

  unfoldable pub run_commands : List Command → ErpDb → ErpDb
  run_commands [] db = db
  run_commands (c ∷ cs) db = run_commands cs (run_command c db)

abbrev pub is_order_of : Bytes → Bytes → Order → Bool
is_order_of tenant item o = str_eq o.tenant_id tenant && str_eq o.item_id item

-- The quantity that the accepted orders of an item take.
unfoldable pub ordered : Bytes → Bytes → List Order → ℕ
ordered tenant item [] = 0
ordered tenant item (o ∷ os) =
    (if is_order_of tenant item o then pos_part o.quantity else 0) + ordered tenant item os

-- The versions of the events of an item, in the order of the outbox.
unfoldable pub versions : Bytes → Bytes → List OutboxRow → List ℤ
versions tenant item [] = []
versions tenant item (r ∷ rs) =
    let rest = versions tenant item rs in
    if is_of tenant aggregate_type_inventory_item item r then r.aggregate_version ∷ rest else rest

-- 1, 2, …, n
unfoldable pub up_to : ℕ → List ℤ
up_to zero = []
up_to (suc n) = up_to n ++ pos (suc n) ∷ []

-- The books of an item that started with `stock`: what is on hand and what was ordered make up the
-- stock, and the outbox has the events 1, 2, … up to the version of the item, in this order.
abbrev pub Balances : Bytes → Bytes → ℕ → ErpDb → Option Item → Type 0
Balances tenant item stock db none = Unit
Balances tenant item stock db (some row) =
    (quantity : ℕ) × (version : ℕ) × (row.quantity_on_hand ≡ pos quantity)
    × (row.aggregate_version ≡ pos version)
    × (quantity + ordered tenant item db.orders ≡ stock)
    × (version ≤ max_safe_int)
    × (versions tenant item db.outbox ≡ up_to version)

abbrev pub IsLedger : Bytes → Bytes → ℕ → ErpDb → Type 0
IsLedger tenant item stock db =
    Balances tenant item stock db (select_row (is_item tenant item) db.items)

pub ordered-snoc :
    (tenant item : Bytes) (os : List Order) (o : Order)
    → ordered tenant item (os ++ o ∷ [])
      ≡ ordered tenant item os + (if is_order_of tenant item o then pos_part o.quantity else 0)
unfolding ordered
ordered-snoc tenant item [] o = omega arith
ordered-snoc tenant item (x ∷ os) o = omega (arith, ordered-snoc tenant item os o)

pub versions-snoc :
    (tenant item : Bytes) (rs : List OutboxRow) (r : OutboxRow)
    → versions tenant item (rs ++ r ∷ [])
      ≡ versions tenant item rs
        ++ (if is_of tenant aggregate_type_inventory_item item r
            then r.aggregate_version ∷ []
            else [])
unfolding versions
versions-snoc tenant item [] r = ground arith
versions-snoc tenant item (x ∷ rs) r = ground (arith, versions-snoc tenant item rs r)
