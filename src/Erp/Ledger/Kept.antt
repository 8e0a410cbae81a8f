-- ===== src/Erp/Ledger/Kept.antt =====
-- The books of an item under the commands of the ERP (erp/accept.go, erp/lineage.go).
use seshatops.Base.{
  ℕ, suc, ◌+◌, ◌≤◌, Bool, true, false, Bool-cases, ◌&&◌, Option, none, some, [], ◌∷◌, ◌++◌, Bytes,
  ◌≡◌, refl, sym, ◌∙◌, ap, subst, inl, inr, str_eq, str_eq_iff, str_eq_refl, if◌then◌else◌, arith,
  append-nil,
}
use seshatops.Base.Int64.{ℤ, pos, pos_part, max_safe_int, ◌+ℤ◌, +ℤ-one}
use seshatops.Base.Table.{select_row, select_row-update_where, select_row_sound}
use seshatops.Event.Payload.{Envelope, aggregate_type_inventory_item}
use seshatops.Event.Validate.{out_of_range}
use seshatops.Event.Validate.Payloads.{Decrements}
use seshatops.Event.Validate.Sound.{validate_sound}
use seshatops.Erp.World.{Item, ErpDb}
use seshatops.Erp.Outbox.{is_of, add_outbox, pending_row}
use seshatops.Erp.Orders.{
  OrderCommand, AcceptResult, is_item, set_stock, add_order, order_row, order_event,
}
use seshatops.Erp.Orders.Accepts.{IsAccepted}
use seshatops.Erp.Ledger.{ordered, versions, up_to, Balances, IsLedger, ordered-snoc, versions-snoc}

-- The next version, when it is in range.
next_version :
    (v w : ℤ) (n : ℕ)
    → v ≡ pos n
    → n ≤ max_safe_int
    → w ≡ v +ℤ pos 1
    → out_of_range 1 w ≡ false
    → (w ≡ pos (suc n)) × (suc n ≤ max_safe_int)
next_version v w n e small next range =
    let same : w ≡ pos (suc n) = next ∙ ap (λ x. x +ℤ pos 1) e ∙ +ℤ-one n (omega arith) in
    (same, bounded (suc n) (ap (out_of_range 1) (sym same) ∙ range))
  where
    bounded : (m : ℕ) → out_of_range 1 (pos m) ≡ false → m ≤ max_safe_int
    bounded m h = ground arith

some_inj : {a b : Item} → some a ≡ some b → a ≡ b
some_inj e = cc

up_to-suc : (n : ℕ) → up_to (suc n) ≡ up_to n ++ pos (suc n) ∷ []
unfolding up_to
up_to-suc n = refl

both_eq : (a b c d : Bytes) → (str_eq a b && str_eq c d) ≡ true → (a ≡ b) × (c ≡ d)
both_eq a b c d h = ground (arith, str_eq_iff a b, str_eq_iff c d)

is_item-moved : (a b c d : Bytes) (row : Item) → a ≡ b → c ≡ d → is_item a c row ≡ is_item b d row
is_item-moved a b c d row e f = λ i. is_item (e i) (f i) row

is_item-apart :
    (a b c d : Bytes) (row : Item)
    → (str_eq a b && str_eq c d) ≡ false
    → is_item b d row ≡ true
    → is_item a c row ≡ false
is_item-apart a b c d row h here = ground (
  arith,
  str_eq_iff row.tenant_id a,
  str_eq_iff row.tenant_id b,
  str_eq_iff row.item_id c,
  str_eq_iff row.item_id d,
  str_eq_iff a b,
  str_eq_iff c d,
)

-- What an accepted order does to the item that it is for, and to any other.
module _ (lower : ℕ → ℕ) (hash : Bytes → Bytes) (cmd : OrderCommand) (db : ErpDb)
    (res : AcceptResult) (db' : ErpDb) (acc : IsAccepted lower hash cmd db res db') where
  abbrev env_of : Envelope
  env_of = order_event cmd res.quantity_before res.quantity_after res.aggregate_version

  abbrev restocked : Item → Item
  restocked row = record row {
    quantity_on_hand = res.quantity_after;
    aggregate_version = res.aggregate_version;
  }

  abbrev after_db : ErpDb
  after_db =
      add_outbox (pending_row env_of res.event_bytes res.content_hash)
        (add_order cmd (set_stock cmd res.quantity_after res.aggregate_version db))

  taken : Decrements cmd.quantity res.quantity_before res.quantity_after
  taken = (validate_sound lower env_of acc.intent.valid).payload_valid.quantities

  matches :
      (tenant item : Bytes) (b : Bool)
      → (str_eq cmd.tenant_id tenant && str_eq cmd.item_id item) ≡ b
      → is_of tenant aggregate_type_inventory_item item
          (pending_row env_of res.event_bytes res.content_hash)
        ≡ b
  matches tenant item b e = ground (arith, str_eq_refl aggregate_type_inventory_item)

  ordered-own :
      (tenant item : Bytes) (t : ℕ)
      → (str_eq cmd.tenant_id tenant && str_eq cmd.item_id item) ≡ true
      → cmd.quantity ≡ pos t
      → ordered tenant item after_db.orders ≡ ordered tenant item db.orders + t
  ordered-own tenant item t mine e =
      ordered-snoc tenant item db.orders (order_row cmd) ∙ rw (mine, e) refl

  ordered-other :
      (tenant item : Bytes)
      → (str_eq cmd.tenant_id tenant && str_eq cmd.item_id item) ≡ false
      → ordered tenant item after_db.orders ≡ ordered tenant item db.orders
  ordered-other tenant item other =
      ordered-snoc tenant item db.orders (order_row cmd) ∙ rw other (omega arith)

  versions-own :
      (tenant item : Bytes)
      → (str_eq cmd.tenant_id tenant && str_eq cmd.item_id item) ≡ true
      → versions tenant item after_db.outbox
        ≡ versions tenant item db.outbox ++ res.aggregate_version ∷ []
  versions-own tenant item mine =
      versions-snoc tenant item db.outbox (pending_row env_of res.event_bytes res.content_hash)
      ∙ rw (matches tenant item true mine) refl

  versions-other :
      (tenant item : Bytes)
      → (str_eq cmd.tenant_id tenant && str_eq cmd.item_id item) ≡ false
      → versions tenant item after_db.outbox ≡ versions tenant item db.outbox
  versions-other tenant item other =
      versions-snoc tenant item db.outbox (pending_row env_of res.event_bytes res.content_hash)
      ∙ rw (matches tenant item false other) (append-nil (versions tenant item db.outbox))

  own_item :
      (tenant item : Bytes) (stock : ℕ) (row : Item)
      → cmd.tenant_id ≡ tenant
      → cmd.item_id ≡ item
      → select_row (is_item tenant item) db.items ≡ some row
      → Balances tenant item stock db (some row)
      → Balances tenant item stock after_db (some (restocked row))
  own_item tenant item stock row te ie found (q, n, qe, ne, sum, small, chain) =
      let (t, a, e_taken, e_after, e_before, one, bounded) = taken in
      let same : acc.stock ≡ row =
        some_inj (sym acc.located ∙ (λ i. select_row (is_item (te i) (ie i)) db.items) ∙ found) in
      let (e_next, small') =
        next_version row.aggregate_version res.aggregate_version n ne small
          (acc.next ∙ ap (λ r. r.aggregate_version +ℤ pos 1) same) acc.countable in
      let had : q ≡ a + t =
        ap pos_part
          (sym qe ∙ sym (ap (λ r. r.quantity_on_hand) same) ∙ sym acc.before ∙ e_before) in
      let mine : (str_eq cmd.tenant_id tenant && str_eq cmd.item_id item) ≡ true =
        ground (arith, str_eq_iff cmd.tenant_id tenant, str_eq_iff cmd.item_id item) in
      (
        a,
        suc n,
        e_after,
        e_next,
        omega (arith, ordered-own tenant item t mine e_taken),
        small',
        versions-own tenant item mine
            ∙ ap (λ vs. vs ++ res.aggregate_version ∷ []) chain
            ∙ ap (λ v. up_to n ++ v ∷ []) e_next
            ∙ sym (up_to-suc n),
      )

  other_item :
      (tenant item : Bytes) (stock : ℕ) (row : Item)
      → (str_eq cmd.tenant_id tenant && str_eq cmd.item_id item) ≡ false
      → Balances tenant item stock db (some row)
      → Balances tenant item stock after_db (some row)
  other_item tenant item stock row other (q, n, qe, ne, sum, small, chain) = (
    q,
    n,
    qe,
    ne,
    omega (arith, ordered-other tenant item other),
    small,
    versions-other tenant item other ∙ chain,
  )

  after-Balances :
      (tenant item : Bytes) (stock : ℕ) (o : Option Item)
      → select_row (is_item tenant item) db.items ≡ o
      → Balances tenant item stock db o
      → Balances tenant item stock after_db (elim o as (λ _. Option Item) [
        | none ↦ none
        | some r ↦ some (if is_item cmd.tenant_id cmd.item_id r then restocked r else r)
      ])
  after-Balances tenant item stock none found books = tt
  after-Balances tenant item stock (some row) found books =
      let here = select_row_sound (is_item tenant item) db.items row found in
      elim (Bool-cases (str_eq cmd.tenant_id tenant && str_eq cmd.item_id item)) [
        | inl e ↦
            let (te, ie) = both_eq cmd.tenant_id tenant cmd.item_id item e in
            rw (is_item-moved cmd.tenant_id tenant cmd.item_id item row te ie ∙ here)
              (own_item tenant item stock row te ie found books)
        | inr e ↦
            rw (is_item-apart cmd.tenant_id tenant cmd.item_id item row e here)
              (other_item tenant item stock row e books)
      ]

  pub accepted-IsLedger :
      (tenant item : Bytes) (stock : ℕ)
      → IsLedger tenant item stock db
      → IsLedger tenant item stock db'
  accepted-IsLedger tenant item stock books =
      subst (IsLedger tenant item stock) (sym acc.intent.after) (
        subst (Balances tenant item stock after_db)
          (sym (
            select_row-update_where (is_item cmd.tenant_id cmd.item_id) (is_item tenant item)
              restocked db.items (λ r _. refl)))
          (after-Balances tenant item stock (select_row (is_item tenant item) db.items) refl books))
