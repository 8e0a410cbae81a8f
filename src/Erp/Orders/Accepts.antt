-- ===== src/Erp/Orders/Accepts.antt =====
-- What `AcceptOrder` of erp/accept.go does: an order is accepted whole, or not at all.
use seshatops.Base.{
  ℕ, Bool, true, false, not, Option, none, some, List, [], ◌∷◌, Bytes, ◌≡◌, refl, subst, str_eq_iff,
  inl, if◌then◌else◌, arith,
}
use seshatops.Base.Int64.{pos, ltb_ℤ, ◌+ℤ◌, ◌-ℤ◌}
use seshatops.Base.Table.{select_row, is_some}
use seshatops.Base.Result.{Result, ok, err}
use seshatops.Event.Payload.{Envelope, aggregate_type_shipment}
use seshatops.Event.Validate.{validate, out_of_range}
use seshatops.Event.Canonical.{canonical_bytes, content_hash}
use seshatops.Relay.Claim.{OutboxRow}
use seshatops.Erp.World.{
  Item, Shipment, continue, pure, unknown_source, ErpDb, ErpError, Tx, ◌>>=◌, query, raise_if,
  found, Weather, in_transaction, unknown_item, invalid_transition, duplicate_event,
}
use seshatops.Erp.World.Yields.{
  Yields, at, bind_rule, query_rule, found_rule, lift_rule, write_rule, raise_if_rule, Settled,
  in_transaction-Settled,
}
use seshatops.Erp.Outbox.{
  outbox_taken, pending_row, add_outbox, parent_outbox_event_id, parent_row, names,
  require_causation, insert_pending_outbox,
}
use seshatops.Erp.Orders.{
  OrderCommand, AcceptResult, is_item, is_shipment_of, is_order, order_event, set_stock, add_order,
  shipment_causation, require_order_shipment_causation, validate_command, accept_stock, accept_body,
  accept_order,
}

-- The command names the first event of the aggregate as its cause.
abbrev pub NamesParent : Option Bytes → Bytes → Bytes → Bytes → ErpDb → Type 0
NamesParent cause tenant type id db =
    (row : OutboxRow) × (parent_row tenant type id db.outbox ≡ some row)
    × (cause ≡ some row.event_id)

pub names_sound :
    (got : Option Bytes) (want : Bytes) → not (names got want) ≡ false → got ≡ some want
names_sound none want h = cc
names_sound (some got) want h = ground (arith, str_eq_iff got want)

-- A part of the transaction that only reads, and what it has found.
abbrev pub Reads : Type 0 → ErpDb → Unit {0} → ErpDb → Type 0
Reads P db _ db' = (db' ≡ db) × P

pub parent_Reads :
    (cause : Option Bytes) (tenant type id : Bytes) (t : Tx)
    → Yields
        (Reads (NamesParent cause tenant type id t.db) t.db)
        ((parent_outbox_event_id tenant type id >>= require_causation cause) t)
unfolding parent_outbox_event_id require_causation ◌>>=◌ query
parent_Reads cause tenant type id t = go t.faults
  where
    checked :
        (b : Bool) (row : OutboxRow) (s : List Bool)
        → parent_row tenant type id t.db.outbox ≡ some row
        → not (names cause row.event_id) ≡ b
        → Yields
            (Reads (NamesParent cause tenant type id t.db) t.db)
            (if b then err invalid_transition else ok (tt, at t.db s))
    checked true row s e n = tt
    checked false row s e n = (refl, (row, e, names_sound cause row.event_id n))

    located :
        (o : Option OutboxRow) (s : List Bool)
        → parent_row tenant type id t.db.outbox ≡ o
        → Yields (Reads (NamesParent cause tenant type id t.db) t.db) (
            continue
              (continue (found unknown_source o (at t.db s)) (λ row. pure (row.event_id)))
              (require_causation cause))
    located none s e = tt
    located (some row) s e = checked (not (names cause row.event_id)) row s e refl

    go :
        (s : List Bool)
        → Yields
            (Reads (NamesParent cause tenant type id t.db) t.db)
            ((parent_outbox_event_id tenant type id >>= require_causation cause) (at t.db s))
    go [] = located (parent_row tenant type id t.db.outbox) [] refl
    go (false ∷ s) = located (parent_row tenant type id t.db.outbox) s refl
    go (true ∷ s) = tt

-- The cause of an order: that of its shipment, or none for an order that is not shipped.
abbrev pub IsCaused : OrderCommand → ErpDb → Option Shipment → Type 0
IsCaused cmd db none = cmd.causation_id ≡ none
IsCaused cmd db (some s) =
    NamesParent cmd.causation_id cmd.tenant_id aggregate_type_shipment s.shipment_id db

shipment_causation-Reads :
    (cmd : OrderCommand) (s : Option Shipment) (t : Tx)
    → Yields (Reads (IsCaused cmd t.db s) t.db) (shipment_causation cmd s t)
unfolding shipment_causation
shipment_causation-Reads cmd none t = uncaused cmd.causation_id
  where
    uncaused :
        (c : Option Bytes)
        → Yields (Reads (c ≡ none) t.db) (raise_if (is_some c) invalid_transition t)
    uncaused none = (refl, refl)
    uncaused (some v) = tt
shipment_causation-Reads cmd (some s) t =
    parent_Reads cmd.causation_id cmd.tenant_id aggregate_type_shipment s.shipment_id t

pub causation-Reads :
    (cmd : OrderCommand) (t : Tx)
    → Yields
        (Reads
          (IsCaused cmd t.db
            (select_row (is_shipment_of cmd.tenant_id cmd.order_id) t.db.shipments))
          t.db)
        (require_order_shipment_causation cmd t)
unfolding require_order_shipment_causation
causation-Reads cmd t =
    query_rule
      (Reads
        (IsCaused cmd t.db (select_row (is_shipment_of cmd.tenant_id cmd.order_id) t.db.shipments))
        t.db)
      (λ db. select_row (is_shipment_of cmd.tenant_id cmd.order_id) db.shipments)
      (shipment_causation cmd) t
      (λ s.
        shipment_causation-Reads cmd
          (select_row (is_shipment_of cmd.tenant_id cmd.order_id) t.db.shipments) (at t.db s))

module _ (lower : ℕ → ℕ) (hash : Bytes → Bytes) where
  -- The event is valid and new, and its pending row stands at the end of the outbox.
  pub record IsIntent (env : Envelope) (bytes digest : Bytes) (db db' : ErpDb) : Type 0 where
    pub valid : validate lower env ≡ ok tt
    pub canonical : canonical_bytes lower env ≡ ok bytes
    pub hashed : content_hash lower hash env ≡ ok digest
    pub fresh : outbox_taken env db ≡ false
    pub after : db' ≡ add_outbox (pending_row env bytes digest) db

  pub insert-IsIntent :
      (env : Envelope) (t : Tx)
      → Yields
          (λ (bytes, digest) db'. IsIntent env bytes digest t.db db')
          (insert_pending_outbox lower hash env t)
  unfolding insert_pending_outbox
  insert-IsIntent env t =
      lift_rule (λ (bytes, digest) db'. IsIntent env bytes digest t.db db') (validate lower env) _ t
        (λ _ v.
          lift_rule (λ (bytes, digest) db'. IsIntent env bytes digest t.db db')
            (canonical_bytes lower env) _ t
            (λ bytes c.
              lift_rule (λ (bytes, digest) db'. IsIntent env bytes digest t.db db')
                (content_hash lower hash env) _ t
                (λ digest h.
                  write_rule (λ (bytes, digest) db'. IsIntent env bytes digest t.db db')
                    (outbox_taken env) duplicate_event (add_outbox (pending_row env bytes digest)) _
                    t
                    (λ s fresh. record {
                      valid = v;
                      canonical = c;
                      hashed = h;
                      fresh = fresh;
                      after = refl;
                    }))))

  -- An accepted order: the stock that it was taken from, its event, and the tables after it.
  pub record IsAccepted (cmd : OrderCommand) (db : ErpDb) (res : AcceptResult) (db' : ErpDb)
      : Type 0 where
    pub stock : Item
    pub located : select_row (is_item cmd.tenant_id cmd.item_id) db.items ≡ some stock
    pub enough : ltb_ℤ stock.quantity_on_hand cmd.quantity ≡ false
    pub before : res.quantity_before ≡ stock.quantity_on_hand
    pub after : res.quantity_after ≡ stock.quantity_on_hand -ℤ cmd.quantity
    pub next : res.aggregate_version ≡ stock.aggregate_version +ℤ pos 1
    pub countable : out_of_range 1 res.aggregate_version ≡ false
    pub caused :
        IsCaused cmd db (select_row (is_shipment_of cmd.tenant_id cmd.order_id) db.shipments)
    pub fresh : is_some (select_row (is_order cmd.order_id) db.orders) ≡ false
    pub intent :
        IsIntent
          (order_event cmd res.quantity_before res.quantity_after res.aggregate_version)
          res.event_bytes
          res.content_hash
          (add_order cmd (set_stock cmd res.quantity_after res.aggregate_version db))
          db'

  accept_stock-IsAccepted :
      (cmd : OrderCommand) (row : Item) (t : Tx)
      → select_row (is_item cmd.tenant_id cmd.item_id) t.db.items ≡ some row
      → Yields (IsAccepted cmd t.db) (accept_stock lower hash cmd row t)
  unfolding accept_stock
  accept_stock-IsAccepted cmd row t located =
      let Q = IsAccepted cmd t.db in
      let after = row.quantity_on_hand -ℤ cmd.quantity in
      let version = row.aggregate_version +ℤ pos 1 in
      let env = order_event cmd row.quantity_on_hand after version in
      raise_if_rule Q _ _ _ t (λ _. raise_if_rule Q _ _ _ t (λ enough.
        raise_if_rule Q _ _ _ t (λ countable.
          bind_rule Q _ _ _ t (causation-Reads cmd t) (λ _ t1 (same, caused).
            write_rule Q _ _ (set_stock cmd after version) _ t1 (λ s1 _.
              raise_if_rule Q _ _ _ _ (λ _. raise_if_rule Q _ _ _ _ (λ _.
                write_rule Q _ _ (add_order cmd) _ _ (λ s2 fresh.
                  bind_rule Q _ _ _ _
                    (insert-IsIntent env
                      (at (add_order cmd (set_stock cmd after version t1.db)) s2))
                    (λ (bytes, digest) t2 intent. record {
                      stock = row;
                      located = located;
                      enough = enough;
                      before = refl;
                      after = refl;
                      next = refl;
                      countable = countable;
                      caused = caused;
                      fresh =
                          subst
                            (λ (db : ErpDb).
                              is_some (select_row (is_order cmd.order_id) db.orders) ≡ false)
                            same fresh;
                      intent =
                          subst
                            (λ db.
                              IsIntent env bytes digest
                                (add_order cmd (set_stock cmd after version db)) t2.db)
                            same intent;
                    })))))))))

  accept_body-IsAccepted :
      (cmd : OrderCommand) (t : Tx) → Yields (IsAccepted cmd t.db) (accept_body lower hash cmd t)
  unfolding accept_body
  accept_body-IsAccepted cmd t = query_rule (IsAccepted cmd t.db) _ _ t (λ s.
      found_rule (IsAccepted cmd t.db) unknown_item _ _ (at t.db s)
        (λ row located. accept_stock-IsAccepted cmd row (at t.db s) located))

  -- AcceptOrder accepts the order whole or leaves every table as it was, whatever the database
  -- answers. A success means that the commit was answered. Only when the commit was reached and its
  -- answer lost may an error, that of the driver, stand for an accepted order.
  -- Accepted means: the stock of the item covered the quantity, which is taken off it; its version
  -- is the next one and at most 2^53 - 1; the order is new; its cause is the first event of its
  -- shipment, or none for an order that is not shipped; and the outbox has one row more, pending,
  -- with the canonical bytes and the hash of a valid event, whose keys were free.
  pub accept_order-Settled :
      (weather : Weather) (cmd : OrderCommand) (db : ErpDb)
      → Settled (IsAccepted cmd db) weather db (accept_order lower hash weather cmd db)
  unfolding accept_order
  accept_order-Settled weather cmd db = go (validate_command lower cmd)
    where
      go :
          (r : Result ErpError (Unit {0}))
          → Settled
              (IsAccepted cmd db)
              weather
              db
              (elim r as (λ _. Result ErpError AcceptResult × ErpDb) [
                | err e ↦ (err e, db)
                | ok _ ↦ in_transaction weather (accept_body lower hash cmd) db
              ])
      go (err e) = inl refl
      go (ok _) =
          in_transaction-Settled (IsAccepted cmd db) weather (accept_body lower hash cmd) db
            (accept_body-IsAccepted cmd (at db weather.faults))
