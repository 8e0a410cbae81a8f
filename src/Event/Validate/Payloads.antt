-- ===== src/Event/Validate/Payloads.antt =====
-- What the `validateAgainst` methods of event/families.go accept, family by family.
use seshatops.Base.{
  ℕ, ◌+◌, ◌≤◌, Bool, true, false, ◌≡◌, refl, ap, ◌≢◌, ◌↔◌, ◌||◌, not, [], Bytes, str_eq_iff, arith,
}
use seshatops.Base.Int64.{ℤ, pos, negsuc, eqb_ℤ, -ℤ-small, ◌-ℤ◌, max_safe_int}
use seshatops.Base.Result.{ok}
use seshatops.Event.Text.{
  require_utf8, require_uuid, require_canonical_id, valid_utf8, is_uuid, is_lowercase, is_space,
  any, runes,
}
use seshatops.Event.Payload.{
  Envelope, Payload, QuantityDecremented, SupplierRegistered, IngredientLotReceived,
  ProductionBatchProduced, ShipmentDispatched, missing, quantity_decremented, supplier_registered,
  ingredient_lot_received, production_batch_produced, shipment_dispatched,
  event_type_quantity_decremented, event_type_supplier_registered,
  event_type_ingredient_lot_received, event_type_production_batch_produced,
  event_type_shipment_dispatched,
}
use seshatops.Event.Validate.{
  validate_quantity, validate_supplier, validate_lot, validate_batch, validate_shipment,
  validate_against, out_of_range,
}

module _ (lower : ℕ → ℕ) where
  -- A canonical identifier: non-empty, lowercase, without white space.
  pub record IsCanonicalId (v : Bytes) : Type 0 where
    pub non_empty : v ≢ []
    pub lowercase : is_lowercase lower v ≡ true
    pub no_space : any is_space (runes v) ≡ false

  pub canonical_id_lem : (v : Bytes) → (require_canonical_id lower v ≡ ok tt) ↔ IsCanonicalId v
  unfolding require_canonical_id
  canonical_id_lem v = ground arith

-- A decrement between safe integers: what was there is what is left and what was taken.
abbrev pub Decrements : ℤ → ℤ → ℤ → Type 0
Decrements taken before after =
    (t : ℕ) × (a : ℕ) × (taken ≡ pos t)
    × (after ≡ pos a)
    × (before ≡ pos (a + t))
    × (1 ≤ t)
    × (a + t ≤ max_safe_int)

abbrev quantity_tests : ℤ → ℤ → ℤ → Bool
quantity_tests t b a =
    out_of_range 1 t || out_of_range 0 b || out_of_range 0 a || not (eqb_ℤ (b -ℤ t) a)

sub-eq_pos :
    (t b a : ℕ)
    → quantity_tests (pos t) (pos b) (pos a) ≡ false
    → (b ≡ a + t) × (1 ≤ t) × (a + t ≤ max_safe_int)
unfolding ◌-ℤ◌
sub-eq_pos t b a h = ground arith

quantity_tests_sound : (t b a : ℤ) → quantity_tests t b a ≡ false → Decrements t b a
quantity_tests_sound (pos t) (pos b) (pos a) h =
    let (sum, one, small) = sub-eq_pos t b a h in (t, a, refl, refl, ap pos sum, one, small)
quantity_tests_sound (pos t) (pos b) (negsuc a) h = ground arith
quantity_tests_sound (pos t) (negsuc b) a h = ground arith
quantity_tests_sound (negsuc t) b a h = ground arith

quantity_tests_complete : (t b a : ℤ) → Decrements t b a → quantity_tests t b a ≡ false
quantity_tests_complete t b a (x, y, p, q, r, one, small) =
    rw (p, q, r) (rw (-ℤ-small (y + x) x (omega arith) (omega arith)) (ground arith))

module _ (lower : ℕ → ℕ) where
  pub record IsQuantity (p : QuantityDecremented) (env : Envelope) : Type 0 where
    pub family : env.event_type ≡ event_type_quantity_decremented
    pub order_text : valid_utf8 p.order_id ≡ true
    pub item_text : valid_utf8 p.item_id ≡ true
    pub order : is_uuid p.order_id ≡ true
    pub item : IsCanonicalId lower p.item_id
    pub self : p.item_id ≡ env.aggregate_id
    pub quantities : Decrements p.quantity_decremented p.quantity_before p.quantity_after

  IsQuantity-sound :
      (p : QuantityDecremented) (env : Envelope)
      → validate_quantity lower p env ≡ ok tt
      → IsQuantity p env
  unfolding validate_quantity require_utf8 require_uuid
  IsQuantity-sound p env h = record {
    family = ground (arith, str_eq_iff env.event_type event_type_quantity_decremented);
    order_text = ground arith;
    item_text = ground arith;
    order = ground arith;
    item = (canonical_id_lem lower p.item_id).0 (ground arith);
    self = ground (arith, str_eq_iff p.item_id env.aggregate_id);
    quantities =
        quantity_tests_sound p.quantity_decremented p.quantity_before p.quantity_after
          (ground arith);
  }

  quantity_complete :
      (p : QuantityDecremented) (env : Envelope)
      → IsQuantity p env
      → validate_quantity lower p env ≡ ok tt
  unfolding validate_quantity require_utf8 require_uuid
  quantity_complete p env h = ground (
    arith,
    str_eq_iff env.event_type event_type_quantity_decremented,
    str_eq_iff p.item_id env.aggregate_id,
    (canonical_id_lem lower p.item_id).1 h.item,
    quantity_tests_complete p.quantity_decremented p.quantity_before p.quantity_after h.quantities,
  )

  pub record IsSupplierRegistered (p : SupplierRegistered) (env : Envelope) : Type 0 where
    pub family : env.event_type ≡ event_type_supplier_registered
    pub supplier_id_text : valid_utf8 p.supplier_id ≡ true
    pub supplier_id_canonical : IsCanonicalId lower p.supplier_id
    pub self : p.supplier_id ≡ env.aggregate_id

  supplier_sound :
      (p : SupplierRegistered) (env : Envelope)
      → validate_supplier lower p env ≡ ok tt
      → IsSupplierRegistered p env
  unfolding validate_supplier require_utf8 require_uuid
  supplier_sound p env h = record {
    family = ground (arith, str_eq_iff env.event_type event_type_supplier_registered);
    supplier_id_text = ground arith;
    supplier_id_canonical = (canonical_id_lem lower p.supplier_id).0 (ground arith);
    self = ground (arith, str_eq_iff p.supplier_id env.aggregate_id);
  }

  supplier_complete :
      (p : SupplierRegistered) (env : Envelope)
      → IsSupplierRegistered p env
      → validate_supplier lower p env ≡ ok tt
  unfolding validate_supplier require_utf8 require_uuid
  supplier_complete p env h = ground (
    arith,
    str_eq_iff env.event_type event_type_supplier_registered,
    str_eq_iff p.supplier_id env.aggregate_id,
    (canonical_id_lem lower p.supplier_id).1 h.supplier_id_canonical,
  )

  pub record IsIngredientLotReceived (p : IngredientLotReceived) (env : Envelope) : Type 0 where
    pub family : env.event_type ≡ event_type_ingredient_lot_received
    pub lot_id_text : valid_utf8 p.lot_id ≡ true
    pub supplier_id_text : valid_utf8 p.supplier_id ≡ true
    pub item_id_text : valid_utf8 p.item_id ≡ true
    pub lot_id_canonical : IsCanonicalId lower p.lot_id
    pub supplier_id_canonical : IsCanonicalId lower p.supplier_id
    pub item_id_canonical : IsCanonicalId lower p.item_id
    pub self : p.lot_id ≡ env.aggregate_id

  lot_sound :
      (p : IngredientLotReceived) (env : Envelope)
      → validate_lot lower p env ≡ ok tt
      → IsIngredientLotReceived p env
  unfolding validate_lot require_utf8 require_uuid
  lot_sound p env h = record {
    family = ground (arith, str_eq_iff env.event_type event_type_ingredient_lot_received);
    lot_id_text = ground arith;
    supplier_id_text = ground arith;
    item_id_text = ground arith;
    lot_id_canonical = (canonical_id_lem lower p.lot_id).0 (ground arith);
    supplier_id_canonical = (canonical_id_lem lower p.supplier_id).0 (ground arith);
    item_id_canonical = (canonical_id_lem lower p.item_id).0 (ground arith);
    self = ground (arith, str_eq_iff p.lot_id env.aggregate_id);
  }

  lot_complete :
      (p : IngredientLotReceived) (env : Envelope)
      → IsIngredientLotReceived p env
      → validate_lot lower p env ≡ ok tt
  unfolding validate_lot require_utf8 require_uuid
  lot_complete p env h = ground (
    arith,
    str_eq_iff env.event_type event_type_ingredient_lot_received,
    str_eq_iff p.lot_id env.aggregate_id,
    (canonical_id_lem lower p.lot_id).1 h.lot_id_canonical,
    (canonical_id_lem lower p.supplier_id).1 h.supplier_id_canonical,
    (canonical_id_lem lower p.item_id).1 h.item_id_canonical,
  )

  pub record IsProductionBatchProduced (p : ProductionBatchProduced) (env : Envelope) : Type 0 where
    pub family : env.event_type ≡ event_type_production_batch_produced
    pub batch_id_text : valid_utf8 p.batch_id ≡ true
    pub lot_id_text : valid_utf8 p.lot_id ≡ true
    pub batch_id_canonical : IsCanonicalId lower p.batch_id
    pub lot_id_canonical : IsCanonicalId lower p.lot_id
    pub self : p.batch_id ≡ env.aggregate_id

  batch_sound :
      (p : ProductionBatchProduced) (env : Envelope)
      → validate_batch lower p env ≡ ok tt
      → IsProductionBatchProduced p env
  unfolding validate_batch require_utf8 require_uuid
  batch_sound p env h = record {
    family = ground (arith, str_eq_iff env.event_type event_type_production_batch_produced);
    batch_id_text = ground arith;
    lot_id_text = ground arith;
    batch_id_canonical = (canonical_id_lem lower p.batch_id).0 (ground arith);
    lot_id_canonical = (canonical_id_lem lower p.lot_id).0 (ground arith);
    self = ground (arith, str_eq_iff p.batch_id env.aggregate_id);
  }

  batch_complete :
      (p : ProductionBatchProduced) (env : Envelope)
      → IsProductionBatchProduced p env
      → validate_batch lower p env ≡ ok tt
  unfolding validate_batch require_utf8 require_uuid
  batch_complete p env h = ground (
    arith,
    str_eq_iff env.event_type event_type_production_batch_produced,
    str_eq_iff p.batch_id env.aggregate_id,
    (canonical_id_lem lower p.batch_id).1 h.batch_id_canonical,
    (canonical_id_lem lower p.lot_id).1 h.lot_id_canonical,
  )

  pub record IsShipmentDispatched (p : ShipmentDispatched) (env : Envelope) : Type 0 where
    pub family : env.event_type ≡ event_type_shipment_dispatched
    pub shipment_id_text : valid_utf8 p.shipment_id ≡ true
    pub batch_id_text : valid_utf8 p.batch_id ≡ true
    pub order_id_text : valid_utf8 p.order_id ≡ true
    pub shipment_id_canonical : IsCanonicalId lower p.shipment_id
    pub batch_id_canonical : IsCanonicalId lower p.batch_id
    pub order_id_uuid : is_uuid p.order_id ≡ true
    pub self : p.shipment_id ≡ env.aggregate_id

  shipment_sound :
      (p : ShipmentDispatched) (env : Envelope)
      → validate_shipment lower p env ≡ ok tt
      → IsShipmentDispatched p env
  unfolding validate_shipment require_utf8 require_uuid
  shipment_sound p env h = record {
    family = ground (arith, str_eq_iff env.event_type event_type_shipment_dispatched);
    shipment_id_text = ground arith;
    batch_id_text = ground arith;
    order_id_text = ground arith;
    shipment_id_canonical = (canonical_id_lem lower p.shipment_id).0 (ground arith);
    batch_id_canonical = (canonical_id_lem lower p.batch_id).0 (ground arith);
    order_id_uuid = ground arith;
    self = ground (arith, str_eq_iff p.shipment_id env.aggregate_id);
  }

  shipment_complete :
      (p : ShipmentDispatched) (env : Envelope)
      → IsShipmentDispatched p env
      → validate_shipment lower p env ≡ ok tt
  unfolding validate_shipment require_utf8 require_uuid
  shipment_complete p env h = ground (
    arith,
    str_eq_iff env.event_type event_type_shipment_dispatched,
    str_eq_iff p.shipment_id env.aggregate_id,
    (canonical_id_lem lower p.shipment_id).1 h.shipment_id_canonical,
    (canonical_id_lem lower p.batch_id).1 h.batch_id_canonical,
  )

  -- The payload is of the family that the event type names, and its fields are well formed.
  abbrev pub PayloadIsValid : Payload → Envelope → Type 0
  PayloadIsValid missing env = ⊥
  PayloadIsValid (quantity_decremented p) env = IsQuantity p env
  PayloadIsValid (supplier_registered p) env = IsSupplierRegistered p env
  PayloadIsValid (ingredient_lot_received p) env = IsIngredientLotReceived p env
  PayloadIsValid (production_batch_produced p) env = IsProductionBatchProduced p env
  PayloadIsValid (shipment_dispatched p) env = IsShipmentDispatched p env

  pub validate_against_sound :
      (p : Payload) (env : Envelope) → validate_against lower p env ≡ ok tt → PayloadIsValid p env
  unfolding validate_against
  validate_against_sound missing env h = cc
  validate_against_sound (quantity_decremented p) env h = IsQuantity-sound p env h
  validate_against_sound (supplier_registered p) env h = supplier_sound p env h
  validate_against_sound (ingredient_lot_received p) env h = lot_sound p env h
  validate_against_sound (production_batch_produced p) env h = batch_sound p env h
  validate_against_sound (shipment_dispatched p) env h = shipment_sound p env h

  pub validate_against_complete :
      (p : Payload) (env : Envelope) → PayloadIsValid p env → validate_against lower p env ≡ ok tt
  unfolding validate_against
  validate_against_complete missing env h = absurd h
  validate_against_complete (quantity_decremented p) env h = quantity_complete p env h
  validate_against_complete (supplier_registered p) env h = supplier_complete p env h
  validate_against_complete (ingredient_lot_received p) env h = lot_complete p env h
  validate_against_complete (production_batch_produced p) env h = batch_complete p env h
  validate_against_complete (shipment_dispatched p) env h = shipment_complete p env h
