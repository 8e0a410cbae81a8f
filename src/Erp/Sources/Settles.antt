-- ===== src/Erp/Sources/Settles.antt =====
-- What the operations of erp/lineage.go do: each hop with its event, or nothing.
use seshatops.Base.{
  ℕ, Bool, true, false, ◌&&◌, ◌||◌, not, Option, none, some, List, Bytes, ◌≡◌, refl, ◌∙◌, subst,
  inl, str_eq, arith,
}
use seshatops.Base.Table.{select_row, is_some}
use seshatops.Base.Result.{Result, ok, err}
use seshatops.Event.Payload.{
  aggregate_type_supplier, aggregate_type_ingredient_lot, aggregate_type_production_batch,
}
use seshatops.Erp.Checks.{accepts_time_z}
use seshatops.Erp.World.{
  raise_if, Item, Supplier, Lot, Batch, ErpDb, ErpError, Tx, M, Weather, unknown_source,
  unknown_item,
}
use seshatops.Erp.World.Yields.{
  Yields, at, bind_rule, query_rule, found_rule, write_rule, raise_if_rule, Yields-map, Settled,
  in_transaction-Settled,
}
use seshatops.Erp.Outbox.{insert_pending_outbox}
use seshatops.Erp.Orders.{is_item}
use seshatops.Erp.Orders.Accepts.{NamesParent, Reads, parent_Reads, IsIntent, insert-IsIntent}
use seshatops.Erp.Sources.{
  Hop, is_lot, is_batch, is_shipment, lock_tenant_row, tenant_of_supplier, tenant_of_item,
  tenant_of_lot, tenant_of_batch, require_parent, require_times, validate_supplier_command,
  validate_ingredient_lot_command, validate_production_batch_command, validate_shipment_command,
  register_body, receive_body, produce_body, dispatch_body, once_valid, register_supplier,
  receive_ingredient_lot, produce_production_batch, dispatch_shipment, Source,
}
use seshatops.Erp.Sources.Spec.{
  SourceCommand, supplier_command, lot_command, batch_command, shipment_command, source_event,
  add_source, IsSourced,
}

-- `lockTenantRow` reads, and the row is there.
lock-Reads :
    (f : ErpDb → Option Bytes) (tenant : Bytes) (missing : ErpError) (t : Tx)
    → Yields (Reads (is_some (f t.db) ≡ true) t.db) (lock_tenant_row f tenant missing t)
unfolding lock_tenant_row
lock-Reads f tenant missing t = query_rule (Reads (is_some (f t.db) ≡ true) t.db) f _ t (λ s.
    found_rule (Reads (is_some (f t.db) ≡ true) t.db) missing (f t.db) _ (at t.db s)
      (λ tenant_id e. last (not (str_eq tenant_id tenant)) s e))
  where
    last :
        {a : Bytes} (b : Bool) (s : List Bool)
        → f t.db ≡ some a
        → Yields
            (Reads (is_some (f t.db) ≡ true) t.db)
            (raise_if b ErpError.tenant_mismatch (at t.db s))
    last true s e = tt
    last false s e = (refl, rw e refl)

times-Reads : (hop : Hop) (t : Tx) → Yields (Reads (Unit {0}) t.db) (require_times hop t)
unfolding require_times
times-Reads hop t =
    raise_if_rule (Reads (Unit {0}) t.db) _ _ _ t (λ _. last (not (accepts_time_z hop.recorded_at)))
  where
    last : (b : Bool) → Yields (Reads (Unit {0}) t.db) (raise_if b ErpError.tenant_mismatch t)
    last true = tt
    last false = (refl, tt)

supplier_row : (o : Option Supplier) → is_some (tenant_of_supplier o) ≡ true → is_some o ≡ true
supplier_row none h = h
supplier_row (some row) h = refl

item_row : (o : Option Item) → is_some (tenant_of_item o) ≡ true → is_some o ≡ true
item_row none h = h
item_row (some row) h = refl

lot_row : (o : Option Lot) → is_some (tenant_of_lot o) ≡ true → is_some o ≡ true
lot_row none h = h
lot_row (some row) h = refl

batch_row : (o : Option Batch) → is_some (tenant_of_batch o) ≡ true → is_some o ≡ true
batch_row none h = h
batch_row (some row) h = refl

or_false : (a b : Bool) → (a || b) ≡ false → (a ≡ false) × (b ≡ false)
or_false a b h = ground arith

module _ (lower : ℕ → ℕ) (hash : Bytes → Bytes) where
  -- The hop is recorded: its source row, and its event in the outbox.
  abbrev pub IsRecorded : SourceCommand → ErpDb → Source → ErpDb → Type 0
  IsRecorded cmd db (bytes, digest) db' =
      IsSourced cmd db × IsIntent lower hash (source_event cmd) bytes digest (add_source cmd db) db'

  abbrev pub source_body : SourceCommand → M (Source)
  source_body (supplier_command hop supplier) = register_body lower hash hop supplier
  source_body (lot_command hop lot supplier item) = receive_body lower hash hop lot supplier item
  source_body (batch_command hop batch lot) = produce_body lower hash hop batch lot
  source_body (shipment_command hop shipment batch order) =
      dispatch_body lower hash hop shipment batch order

  -- The end of each hop, from the free keys of its table on.
  recorded :
      (cmd : SourceCommand) (db : ErpDb) (t : Tx)
      → t.db ≡ db
      → IsSourced cmd db
      → Yields
          (IsRecorded cmd db)
          (insert_pending_outbox lower hash (source_event cmd) (at (add_source cmd t.db) t.faults))
  recorded cmd db t same sourced =
      Yields-map
        (λ (bytes, digest) db'.
          IsIntent lower hash (source_event cmd) bytes digest (add_source cmd t.db) db')
        (IsRecorded cmd db)
        (insert_pending_outbox lower hash (source_event cmd) (at (add_source cmd t.db) t.faults))
        (λ (bytes, digest) db' intent. (
          sourced,
          subst (λ d. IsIntent lower hash (source_event cmd) bytes digest (add_source cmd d) db')
              same intent,
        ))
        (insert-IsIntent lower hash (source_event cmd) (at (add_source cmd t.db) t.faults))

  source_body-IsRecorded :
      (cmd : SourceCommand) (t : Tx) → Yields (IsRecorded cmd t.db) (source_body cmd t)
  unfolding register_body receive_body produce_body dispatch_body require_parent
  source_body-IsRecorded (supplier_command hop supplier) t =
      let cmd = supplier_command hop supplier in
      let Q = IsRecorded cmd t.db in
      bind_rule Q _ _ _ t (times-Reads hop t) (λ _ t1 (same, _).
        write_rule Q _ _ (add_source cmd) _ t1 (λ s fresh.
          recorded cmd t.db (at t1.db s) same (subst (λ (d : ErpDb). IsSourced cmd d) same fresh)))
  source_body-IsRecorded (lot_command hop lot supplier item) t =
      let cmd = lot_command hop lot supplier item in
      let Q = IsRecorded cmd t.db in
      bind_rule Q _ _ _ t (lock-Reads _ hop.tenant_id unknown_source t) (λ _ t1 (e1, has_supplier).
        bind_rule Q _ _ _ t1 (lock-Reads _ hop.tenant_id unknown_item t1) (λ _ t2 (e2, has_item).
          bind_rule Q _ _ _ t2
            (parent_Reads hop.causation_id hop.tenant_id aggregate_type_supplier supplier t2)
            (λ _ t3 (e3, parent). bind_rule Q _ _ _ t3 (times-Reads hop t3) (λ _ t4 (e4, _).
              write_rule Q _ _ (add_source cmd) _ t4 (λ s fresh.
                let same = e4 ∙ e3 ∙ e2 ∙ e1 in
                let (free_lot, free_supplier) = or_false _ _ fresh in
                recorded cmd t.db (at t4.db s) same (
                  supplier_row _ has_supplier,
                  subst
                      (λ (d : ErpDb).
                        is_some (select_row (is_item hop.tenant_id item) d.items) ≡ true)
                      e1 (item_row _ has_item),
                  subst
                      (NamesParent hop.causation_id hop.tenant_id aggregate_type_supplier supplier)
                      (e2 ∙ e1) parent,
                  subst
                      (λ (d : ErpDb).
                        is_some (select_row (is_lot hop.tenant_id lot) d.lots) ≡ false)
                      same free_lot,
                  subst
                      (λ (d : ErpDb).
                        is_some (
                          select_row
                            (λ row.
                              str_eq row.tenant_id hop.tenant_id && str_eq row.supplier_id supplier)
                            d.lots)
                        ≡ false)
                      same free_supplier,
                ))))))
  source_body-IsRecorded (batch_command hop batch lot) t =
      let cmd = batch_command hop batch lot in
      let Q = IsRecorded cmd t.db in
      bind_rule Q _ _ _ t (lock-Reads _ hop.tenant_id unknown_source t) (λ _ t1 (e1, has_lot).
        bind_rule Q _ _ _ t1
          (parent_Reads hop.causation_id hop.tenant_id aggregate_type_ingredient_lot lot t1)
          (λ _ t2 (e2, parent). bind_rule Q _ _ _ t2 (times-Reads hop t2) (λ _ t3 (e3, _).
            write_rule Q _ _ (add_source cmd) _ t3 (λ s fresh.
              let same = e3 ∙ e2 ∙ e1 in
              let (free_batch, free_lot) = or_false _ _ fresh in
              recorded cmd t.db (at t3.db s) same (
                lot_row _ has_lot,
                subst (NamesParent hop.causation_id hop.tenant_id aggregate_type_ingredient_lot lot)
                    e1 parent,
                subst
                    (λ (d : ErpDb).
                      is_some (select_row (is_batch hop.tenant_id batch) d.batches) ≡ false)
                    same free_batch,
                subst
                    (λ (d : ErpDb).
                      is_some (
                        select_row
                          (λ row. str_eq row.tenant_id hop.tenant_id && str_eq row.lot_id lot)
                          d.batches)
                      ≡ false)
                    same free_lot,
              )))))
  source_body-IsRecorded (shipment_command hop shipment batch order) t =
      let cmd = shipment_command hop shipment batch order in
      let Q = IsRecorded cmd t.db in
      bind_rule Q _ _ _ t (lock-Reads _ hop.tenant_id unknown_source t) (λ _ t1 (e1, has_batch).
        bind_rule Q _ _ _ t1
          (parent_Reads hop.causation_id hop.tenant_id aggregate_type_production_batch batch t1)
          (λ _ t2 (e2, parent). bind_rule Q _ _ _ t2 (times-Reads hop t2) (λ _ t3 (e3, _).
            write_rule Q _ _ (add_source cmd) _ t3 (λ s fresh.
              let same = e3 ∙ e2 ∙ e1 in
              let (more, free_order) = or_false _ _ fresh in
              let (free_shipment, free_batch) = or_false _ _ more in
              recorded cmd t.db (at t3.db s) same (
                batch_row _ has_batch,
                subst
                    (NamesParent hop.causation_id hop.tenant_id aggregate_type_production_batch
                      batch)
                    e1 parent,
                subst
                    (λ (d : ErpDb).
                      is_some (select_row (is_shipment hop.tenant_id shipment) d.shipments) ≡ false)
                    same free_shipment,
                subst
                    (λ (d : ErpDb).
                      is_some (
                        select_row
                          (λ row. str_eq row.tenant_id hop.tenant_id && str_eq row.batch_id batch)
                          d.shipments)
                      ≡ false)
                    same free_batch,
                subst
                    (λ (d : ErpDb).
                      is_some (
                        select_row
                          (λ row. str_eq row.tenant_id hop.tenant_id && str_eq row.order_id order)
                          d.shipments)
                      ≡ false)
                    same free_order,
              )))))

  once_valid-Settled :
      (cmd : SourceCommand) (r : Result ErpError (Unit {0})) (weather : Weather) (db : ErpDb)
      → Settled
          (IsRecorded cmd db)
          weather
          db
          (once_valid lower hash r weather (source_body cmd) db)
  once_valid-Settled cmd (err e) weather db = inl refl
  once_valid-Settled cmd (ok _) weather db =
      in_transaction-Settled (IsRecorded cmd db) weather (source_body cmd) db
        (source_body-IsRecorded cmd (at db weather.faults))

  -- The operation of the command.
  abbrev pub run_source : Weather → SourceCommand → ErpDb → Result ErpError Source × ErpDb
  run_source weather (supplier_command hop supplier) =
      register_supplier lower hash weather hop supplier
  run_source weather (lot_command hop lot supplier item) =
      receive_ingredient_lot lower hash weather hop lot supplier item
  run_source weather (batch_command hop batch lot) =
      produce_production_batch lower hash weather hop batch lot
  run_source weather (shipment_command hop shipment batch order) =
      dispatch_shipment lower hash weather hop shipment batch order

  -- RegisterSupplier, ReceiveIngredientLot, ProduceProductionBatch and DispatchShipment record their
  -- hop whole or leave every table as it was, whatever the database answers. A success means that the
  -- commit was answered. Only when the commit was reached and its answer lost may an error, that of the
  -- driver, stand for a recorded hop. Recorded means: the rows that it comes
  -- from exist, its cause is the first event of its parent, its keys and its one-to-one parent were
  -- free, and the tables have one source row more and one pending outbox row more, with the canonical
  -- bytes and the hash of a valid event of version 1.
  pub run_source-Settled :
      (weather : Weather) (cmd : SourceCommand) (db : ErpDb)
      → Settled (IsRecorded cmd db) weather db (run_source weather cmd db)
  unfolding register_supplier receive_ingredient_lot produce_production_batch dispatch_shipment
  run_source-Settled weather (supplier_command hop supplier) db =
      once_valid-Settled (supplier_command hop supplier)
        (validate_supplier_command lower hop supplier) weather db
  run_source-Settled weather (lot_command hop lot supplier item) db =
      once_valid-Settled (lot_command hop lot supplier item)
        (validate_ingredient_lot_command lower hop lot supplier item) weather db
  run_source-Settled weather (batch_command hop batch lot) db =
      once_valid-Settled (batch_command hop batch lot)
        (validate_production_batch_command lower hop batch lot) weather db
  run_source-Settled weather (shipment_command hop shipment batch order) db =
      once_valid-Settled (shipment_command hop shipment batch order)
        (validate_shipment_command lower hop shipment batch order) weather db
