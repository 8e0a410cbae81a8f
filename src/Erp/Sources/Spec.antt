-- ===== src/Erp/Sources/Spec.antt =====
-- The hops of erp/lineage.go: the event of each, its source row, and what it rests on.
use seshatops.Base.{true, false, ◌&&◌, none, [], ◌∷◌, ◌++◌, Bytes, ◌≡◌, str_eq}
use seshatops.Base.Table.{select_row, is_some}
use seshatops.Event.Payload.{
  Envelope, supplier_registered, ingredient_lot_received, production_batch_produced,
  shipment_dispatched, event_type_supplier_registered, event_type_ingredient_lot_received,
  event_type_production_batch_produced, event_type_shipment_dispatched, aggregate_type_supplier,
  aggregate_type_ingredient_lot, aggregate_type_production_batch, aggregate_type_shipment,
}
use seshatops.Erp.World.{ErpDb}
use seshatops.Erp.Orders.{is_item}
use seshatops.Erp.Orders.Accepts.{NamesParent}
use seshatops.Erp.Sources.{Hop, hop_event, is_supplier, is_lot, is_batch, is_shipment}

pub data SourceCommand : Type 0 where
  supplier_command : Hop → Bytes → SourceCommand
  lot_command : Hop → Bytes → Bytes → Bytes → SourceCommand
  batch_command : Hop → Bytes → Bytes → SourceCommand
  shipment_command : Hop → Bytes → Bytes → Bytes → SourceCommand

-- The envelope of the command's event.
abbrev pub source_event : SourceCommand → Envelope
source_event (supplier_command hop supplier) =
    hop_event hop event_type_supplier_registered aggregate_type_supplier supplier none
      (supplier_registered (record { supplier_id = supplier }))
source_event (lot_command hop lot supplier item) =
    hop_event hop event_type_ingredient_lot_received aggregate_type_ingredient_lot lot
      hop.causation_id
      (ingredient_lot_received (record { lot_id = lot; supplier_id = supplier; item_id = item }))
source_event (batch_command hop batch lot) =
    hop_event hop event_type_production_batch_produced aggregate_type_production_batch batch
      hop.causation_id (production_batch_produced (record { batch_id = batch; lot_id = lot }))
source_event (shipment_command hop shipment batch order) =
    hop_event hop event_type_shipment_dispatched aggregate_type_shipment shipment hop.causation_id
      (shipment_dispatched (record { shipment_id = shipment; batch_id = batch; order_id = order }))

-- The source row of the command is added.
abbrev pub add_source : SourceCommand → ErpDb → ErpDb
add_source (supplier_command hop supplier) db = record db {
  suppliers = db.suppliers ++ record { tenant_id = hop.tenant_id; supplier_id = supplier } ∷ [];
}
add_source (lot_command hop lot supplier item) db = record db {
  lots =
      db.lots
      ++ record { tenant_id = hop.tenant_id; lot_id = lot; supplier_id = supplier; item_id = item }
        ∷ [];
}
add_source (batch_command hop batch lot) db = record db {
  batches = db.batches ++ record { tenant_id = hop.tenant_id; batch_id = batch; lot_id = lot } ∷ [];
}
add_source (shipment_command hop shipment batch order) db = record db {
  shipments =
      db.shipments
      ++ record {
        tenant_id = hop.tenant_id;
        shipment_id = shipment;
        batch_id = batch;
        order_id = order;
      }
        ∷ [];
}

-- The rows that the hop comes from are there, its cause is the first event of its parent, and its
-- own keys are free.
abbrev pub IsSourced : SourceCommand → ErpDb → Type 0
IsSourced (supplier_command hop supplier) db =
    is_some (select_row (is_supplier hop.tenant_id supplier) db.suppliers) ≡ false
IsSourced (lot_command hop lot supplier item) db =
    (is_some (select_row (is_supplier hop.tenant_id supplier) db.suppliers) ≡ true)
    × (is_some (select_row (is_item hop.tenant_id item) db.items) ≡ true)
    × NamesParent hop.causation_id hop.tenant_id aggregate_type_supplier supplier db
    × (is_some (select_row (is_lot hop.tenant_id lot) db.lots) ≡ false)
    × (is_some (
          select_row (λ row. str_eq row.tenant_id hop.tenant_id && str_eq row.supplier_id supplier)
            db.lots)
        ≡ false)
IsSourced (batch_command hop batch lot) db =
    (is_some (select_row (is_lot hop.tenant_id lot) db.lots) ≡ true)
    × NamesParent hop.causation_id hop.tenant_id aggregate_type_ingredient_lot lot db
    × (is_some (select_row (is_batch hop.tenant_id batch) db.batches) ≡ false)
    × (is_some (
          select_row (λ row. str_eq row.tenant_id hop.tenant_id && str_eq row.lot_id lot)
            db.batches)
        ≡ false)
IsSourced (shipment_command hop shipment batch order) db =
    (is_some (select_row (is_batch hop.tenant_id batch) db.batches) ≡ true)
    × NamesParent hop.causation_id hop.tenant_id aggregate_type_production_batch batch db
    × (is_some (select_row (is_shipment hop.tenant_id shipment) db.shipments) ≡ false)
    × (is_some (
          select_row (λ row. str_eq row.tenant_id hop.tenant_id && str_eq row.batch_id batch)
            db.shipments)
        ≡ false)
    × (is_some (
          select_row (λ row. str_eq row.tenant_id hop.tenant_id && str_eq row.order_id order)
            db.shipments)
        ≡ false)
