-- ===== src/Erp/World.antt =====
-- The tables of the ERP (erp/migrate.sql), the errors of erp/errors.go, and its transactions.
--
-- The columns that nothing reads (the times, correlation_id and trace_id of a source row) are left
-- out. One transaction runs at a time: the rows that decide are locked by FOR UPDATE.
pub mod Yields
use seshatops.Base.{ℕ, Bool, true, false, Option, none, some, List, [], ◌∷◌, Bytes, if◌then◌else◌}
use seshatops.Base.Int64.{ℤ}
use seshatops.Base.Result.{Result, ok, err}
use seshatops.Event.Text.{EventError}
use seshatops.Relay.Claim.{OutboxRow}
use seshatops.Relay.Publish.{CallOutcome, answered, failed, unheard}

pub record Item : Type 0 where
  pub tenant_id : Bytes
  pub item_id : Bytes
  pub quantity_on_hand : ℤ
  pub aggregate_version : ℤ

pub record Order : Type 0 where
  pub order_id : Bytes
  pub tenant_id : Bytes
  pub item_id : Bytes
  pub quantity : ℤ

pub record Supplier : Type 0 where
  pub tenant_id : Bytes
  pub supplier_id : Bytes

pub record Lot : Type 0 where
  pub tenant_id : Bytes
  pub lot_id : Bytes
  pub supplier_id : Bytes
  pub item_id : Bytes

pub record Batch : Type 0 where
  pub tenant_id : Bytes
  pub batch_id : Bytes
  pub lot_id : Bytes

pub record Shipment : Type 0 where
  pub tenant_id : Bytes
  pub shipment_id : Bytes
  pub batch_id : Bytes
  pub order_id : Bytes

pub record ErpDb : Type 0 where
  pub items : List Item
  pub orders : List Order
  pub suppliers : List Supplier
  pub lots : List Lot
  pub batches : List Batch
  pub shipments : List Shipment
  pub outbox : List OutboxRow

-- The sentinels, the errors of package event that are passed on, and those of the driver.
pub data ErpError : Type 0 where
  invalid_quantity unknown_item unknown_source tenant_mismatch invalid_transition : ErpError
  duplicate_order duplicate_source duplicate_event driver : ErpError
  contract : EventError → ErpError

-- An open transaction; `faults` says of each statement to come whether it fails.
pub record Tx : Type 0 where
  pub db : ErpDb
  pub faults : List Bool

-- An error drops what the transaction has done.
abbrev pub M : Type 0 → Type 0
M A = Tx → Result ErpError (A × Tx)

infixl 5 ◌>>=◌ ◌>>◌
abbrev pub continue :
    {A B : Type 0} → Result ErpError (A × Tx) → (A → M B) → Result ErpError (B × Tx)
continue (ok (a, t)) f = f a t
continue (err e) f = err e

unfoldable pub ◌>>=◌ : {A B : Type 0} → M A → (A → M B) → M B
◌>>=◌ m f t = continue (m t) f

abbrev pub ◌>>◌ : {B : Type 0} → M (Unit {0}) → M B → M B
m >> k = m >>= λ _. k

abbrev pub pure : {A : Type 0} → A → M A
pure a t = ok (a, t)

abbrev pub raise : {A : Type 0} → ErpError → M A
raise e t = err e

abbrev pub raise_if : Bool → ErpError → M (Unit {0})
raise_if b e t = if b then err e else ok (tt, t)

abbrev pub lift_event : {A : Type 0} → Result EventError A → M A
lift_event (ok a) t = ok (a, t)
lift_event (err e) t = err (contract e)

abbrev with_fault :
    {A : Type 0} → List Bool → (List Bool → Result ErpError (A × Tx)) → Result ErpError (A × Tx)
with_fault [] k = k []
with_fault (false ∷ faults) k = k faults
with_fault (true ∷ faults) k = err driver

-- SELECT
unfoldable pub query : {A : Type 0} → (ErpDb → A) → M A
query f t = with_fault t.faults (λ faults. ok (f t.db, record { db = t.db; faults = faults }))

-- UPDATE, or an INSERT under the test that a unique key is taken, with the error for that.
unfoldable pub write : (ErpDb → Bool) → ErpError → (ErpDb → ErpDb) → M (Unit {0})
write taken e f t =
    with_fault t.faults
      (λ faults. if taken t.db then err e else ok (tt, record { db = f t.db; faults = faults }))

-- `row.Scan` answered `sql.ErrNoRows`.
abbrev pub found : {A : Type 0} → ErpError → Option A → M A
found e none = raise e
found e (some a) = pure a

-- What the database does during one transaction.
pub record Weather : Type 0 where
  pub begins : Bool
  pub faults : List Bool
  pub commits : CallOutcome

abbrev pub finished :
    {A : Type 0} → CallOutcome → ErpDb → Result ErpError (A × Tx) → Result ErpError A × ErpDb
finished o db (err e) = (err e, db)
finished answered db (ok (a, t)) = (ok a, t.db)
finished failed db (ok (a, t)) = (err driver, db)
finished unheard db (ok (a, t)) = (err driver, t.db)

-- `BeginTx`, the body, and `Commit` or the deferred `Rollback`.
unfoldable pub in_transaction : {A : Type 0} → Weather → M A → ErpDb → Result ErpError A × ErpDb
in_transaction weather m db =
    if weather.begins
    then finished weather.commits db (m (record { db = db; faults = weather.faults }))
    else (err driver, db)
