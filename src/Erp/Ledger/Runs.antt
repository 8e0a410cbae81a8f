-- ===== src/Erp/Ledger/Runs.antt =====
-- The books of an item over any sequence of commands (erp/accept.go, erp/lineage.go).
use seshatops.Base.{
  ℕ, false, Option, none, some, List, [], ◌∷◌, ◌++◌, Bytes, ◌≡◌, refl, sym, ◌∙◌, ap, subst, inl,
  inr, str_eq, arith, append-nil, lit,
}
use seshatops.Base.Table.{select_row}
use seshatops.Base.Result.{Result, ok, err}
use seshatops.Event.Payload.{aggregate_type_inventory_item}
use seshatops.Relay.Claim.{OutboxRow}
use seshatops.Erp.World.{Weather, Item, ErpDb, ErpError}
use seshatops.Erp.World.Yields.{Settled}
use seshatops.Erp.Outbox.{is_of, add_outbox, pending_row}
use seshatops.Erp.Orders.{is_item, accept_order}
use seshatops.Erp.Orders.Accepts.{IsAccepted, accept_order-Settled}
use seshatops.Erp.Sources.Spec.{
  SourceCommand, supplier_command, lot_command, batch_command, shipment_command, source_event,
  add_source,
}
use seshatops.Erp.Sources.Settles.{run_source, run_source-Settled, IsRecorded}
use seshatops.Erp.Ledger.{
  Command, order_given, source_given, run_command, run_commands, versions, Balances, IsLedger,
  versions-snoc,
}
use seshatops.Erp.Ledger.Kept.{accepted-IsLedger}

-- A settled operation keeps what its success keeps.
pub Settled-keeps :
    {A : Type 0} (P : A → ErpDb → Type 0) (I : ErpDb → Type 0) (weather : Weather) (db : ErpDb)
    (x : Result ErpError A × ErpDb)
    → Settled P weather db x
    → ((a : A) (db' : ErpDb) → P a db' → I db')
    → I db
    → I x.1
Settled-keeps P I weather db (ok a, db') (_, s) keep h = keep a db' s
Settled-keeps P I weather db (err e, db') (inl same) keep h = subst I (sym same) h
Settled-keeps P I weather db (err e, db') (inr (_, _, (a, p))) keep h = keep a db' p

-- The event of a hop is of another aggregate type than that of an item.
source_type-apart :
    (cmd : SourceCommand)
    → str_eq (source_event cmd).aggregate_type aggregate_type_inventory_item ≡ false
unfolding lit str_eq
source_type-apart (supplier_command hop supplier) = refl
source_type-apart (lot_command hop lot supplier item) = refl
source_type-apart (batch_command hop batch lot) = refl
source_type-apart (shipment_command hop shipment batch order) = refl

hop_of_no_item :
    (cmd : SourceCommand) (tenant item bytes digest : Bytes)
    → is_of tenant aggregate_type_inventory_item item (pending_row (source_event cmd) bytes digest)
      ≡ false
hop_of_no_item cmd tenant item bytes digest = ground (arith, source_type-apart cmd)

versions-hop :
    (cmd : SourceCommand) (tenant item bytes digest : Bytes) (rows : List OutboxRow)
    → versions tenant item (rows ++ pending_row (source_event cmd) bytes digest ∷ [])
      ≡ versions tenant item rows
versions-hop cmd tenant item bytes digest rows =
    versions-snoc tenant item rows (pending_row (source_event cmd) bytes digest)
    ∙ rw (hop_of_no_item cmd tenant item bytes digest) (append-nil (versions tenant item rows))

-- Balances read the orders and the versions of the events only.
pub Balances-outbox :
    (tenant item : Bytes) (stock : ℕ) (o : Option Item) (db db' : ErpDb)
    → db'.orders ≡ db.orders
    → versions tenant item db'.outbox ≡ versions tenant item db.outbox
    → Balances tenant item stock db o
    → Balances tenant item stock db' o
Balances-outbox tenant item stock none db db' e v books = tt
Balances-outbox tenant item stock (some row) db db' e v (q, n, qe, ne, sum, small, chain) =
    (q, n, qe, ne, rw e sum, small, v ∙ chain)

add_source-items : (cmd : SourceCommand) (db : ErpDb) → (add_source cmd db).items ≡ db.items
add_source-items (supplier_command hop supplier) db = refl
add_source-items (lot_command hop lot supplier item) db = refl
add_source-items (batch_command hop batch lot) db = refl
add_source-items (shipment_command hop shipment batch order) db = refl

add_source-orders : (cmd : SourceCommand) (db : ErpDb) → (add_source cmd db).orders ≡ db.orders
add_source-orders (supplier_command hop supplier) db = refl
add_source-orders (lot_command hop lot supplier item) db = refl
add_source-orders (batch_command hop batch lot) db = refl
add_source-orders (shipment_command hop shipment batch order) db = refl

pub add_source-outbox : (cmd : SourceCommand) (db : ErpDb) → (add_source cmd db).outbox ≡ db.outbox
add_source-outbox (supplier_command hop supplier) db = refl
add_source-outbox (lot_command hop lot supplier item) db = refl
add_source-outbox (batch_command hop batch lot) db = refl
add_source-outbox (shipment_command hop shipment batch order) db = refl

hop-IsLedger :
    (cmd : SourceCommand) (bytes digest tenant item : Bytes) (stock : ℕ) (db : ErpDb)
    → IsLedger tenant item stock db
    → IsLedger tenant item stock
        (add_outbox (pending_row (source_event cmd) bytes digest) (add_source cmd db))
hop-IsLedger cmd bytes digest tenant item stock db books =
    let row = pending_row (source_event cmd) bytes digest in
    let db' = add_outbox row (add_source cmd db) in
    subst (Balances tenant item stock db')
      (ap (select_row (is_item tenant item)) (sym (add_source-items cmd db)))
      (Balances-outbox tenant item stock (select_row (is_item tenant item) db.items) db db'
        (add_source-orders cmd db)
        (ap (λ rows. versions tenant item (rows ++ row ∷ [])) (add_source-outbox cmd db)
          ∙ versions-hop cmd tenant item bytes digest db.outbox)
        books)

module _ (lower : ℕ → ℕ) (hash : Bytes → Bytes) (tenant item : Bytes) (stock : ℕ) where
  pub run_command-IsLedger :
      (c : Command) (db : ErpDb)
      → IsLedger tenant item stock db
      → IsLedger tenant item stock (run_command lower hash c db)
  run_command-IsLedger (order_given weather cmd) db books =
      Settled-keeps (IsAccepted lower hash cmd db) (IsLedger tenant item stock) weather db
        (accept_order lower hash weather cmd db) (accept_order-Settled lower hash weather cmd db)
        (λ res db' acc. accepted-IsLedger lower hash cmd db res db' acc tenant item stock books)
        books
  run_command-IsLedger (source_given weather cmd) db books =
      Settled-keeps (IsRecorded lower hash cmd db) (IsLedger tenant item stock) weather db
        (run_source lower hash weather cmd db) (run_source-Settled lower hash weather cmd db)
        (λ (bytes, digest) db' (sourced, intent).
          subst (IsLedger tenant item stock) (sym intent.after)
            (hop-IsLedger cmd bytes digest tenant item stock db books))
        books

  -- From balanced books of an item, over any commands, with any failures of the database, they stay
  -- balanced: the quantity on hand, never negative, and the quantities of its accepted orders make up
  -- its first stock, and its events in the outbox have the versions 1, 2, … up to that of the item,
  -- each once and in this order.
  pub run_commands-IsLedger :
      (cs : List Command) (db : ErpDb)
      → IsLedger tenant item stock db
      → IsLedger tenant item stock (run_commands lower hash cs db)
  unfolding run_commands
  run_commands-IsLedger [] db books = books
  run_commands-IsLedger (c ∷ cs) db books =
      run_commands-IsLedger cs (run_command lower hash c db) (run_command-IsLedger c db books)
