-- ===== src/Platform/Projection/Advance.antt =====
-- The specification of the inventory projection of `applyProjection` (platform/process.go).
--
-- A projection maps an item of a tenant to a quantity at a version. It may only begin at version 1,
-- or go from one version to the next while a positive quantity is taken off.
use seshatops.Base.{
  ℕ, suc, ◌+◌, ◌≤◌, ◌≡◌, refl, sym, ap, ◌∙◌, Bool, true, false, ◌&&◌, Option, none, some, Bytes,
  str_eq, str_eq_iff, if◌then◌else◌, arith,
}
use seshatops.Base.Int64.{ℤ, pos, max_safe_int}
use seshatops.Base.Table.{select_row, select_row-append, select_row-update_where, select_row_sound}
use seshatops.Event.Validate.Sound.{IsVersion}
use seshatops.Platform.World.{Db, ProjectionRow, InboxRow}
use seshatops.Platform.Monad.Moves.{IsPath}
use seshatops.Platform.Store.{is_item, find_projection, put_inbox, add_projection, set_projection}

-- What `ProjectionState` (platform/process.go) reads of an item.
abbrev row_view : Option ProjectionRow → Option (ℤ × ℤ)
row_view none = none
row_view (some row) = some (row.quantity_on_hand, row.aggregate_version)

abbrev pub view : Bytes → Bytes → Db → Option (ℤ × ℤ)
view tenant item db = row_view (find_projection tenant item db)

abbrev pub same_item : Bytes → Bytes → Bytes → Bytes → Bool
same_item t i tenant item = str_eq t tenant && str_eq i item

module _ (t i : Bytes) (q v : ℤ) where
  abbrev pub row : ProjectionRow
  row = record { tenant_id = t; item_id = i; quantity_on_hand = q; aggregate_version = v }

  pub view-add_projection :
      (db : Db) (tenant item : Bytes)
      → view t i db ≡ none
      → view tenant item (add_projection row db)
        ≡ (if same_item t i tenant item then some (q, v) else view tenant item db)
  unfolding add_projection find_projection
  view-add_projection db tenant item h =
      rw (select_row-append (is_item tenant item) db.inventory row)
        (ground (arith, str_eq_iff t tenant, str_eq_iff i item))

  set_found :
      (tenant item : Bytes) (o : Option ProjectionRow) (old : ProjectionRow)
      → ((r : ProjectionRow) → o ≡ some r → is_item tenant item r ≡ true)
      → (same_item t i tenant item ≡ true → o ≡ some old)
      → row_view (elim o [
        | none ↦ none
        | some r ↦
            some (
              if is_item t i r then record r { quantity_on_hand = q; aggregate_version = v } else r)
      ])
        ≡ (if same_item t i tenant item then some (q, v) else row_view o)
  set_found tenant item none old found here = ground arith
  set_found tenant item (some r) old found here = ground (
    arith,
    found r refl,
    str_eq_iff r.tenant_id tenant,
    str_eq_iff r.item_id item,
    str_eq_iff r.tenant_id t,
    str_eq_iff r.item_id i,
    str_eq_iff t tenant,
    str_eq_iff i item,
  )

  same-find :
      (db : Db) (tenant item : Bytes)
      → same_item t i tenant item ≡ true
      → find_projection tenant item db ≡ find_projection t i db
  same-find db tenant item h =
      cc ((str_eq_iff t tenant).0 (ground arith), (str_eq_iff i item).0 (ground arith))

  pub view-set_projection :
      (db : Db) (tenant item : Bytes) (old : ProjectionRow)
      → find_projection t i db ≡ some old
      → view tenant item (set_projection t i q v db)
        ≡ (if same_item t i tenant item then some (q, v) else view tenant item db)
  unfolding set_projection find_projection
  view-set_projection db tenant item old h =
      rw
        (select_row-update_where (is_item t i) (is_item tenant item)
          (λ r. record r { quantity_on_hand = q; aggregate_version = v }) db.inventory
          (λ r _. refl))
        (set_found tenant item (select_row (is_item tenant item) db.inventory) old
          (select_row_sound (is_item tenant item) db.inventory)
          (λ same. same-find db tenant item same ∙ h))

-- One step of the specification: the first quantity of an item, at version 1, or the next version
-- after a positive quantity is taken off; every other item stays as it is.
pub data Step (d d' : Db) : Type 0 where
  start :
      (t i : Bytes) (q : ℕ)
      → view t i d ≡ none
      → ((tenant item : Bytes)
          → view tenant item d'
            ≡ (if same_item t i tenant item then some (pos q, pos 1) else view tenant item d))
      → Step d d'
  next :
      (t i : Bytes) (q taken v : ℕ)
      → view t i d ≡ some (pos (q + taken), pos v)
      → 1 ≤ taken
      → ((tenant item : Bytes)
          → view tenant item d'
            ≡ (if same_item t i tenant item then some (pos q, pos (suc v)) else view tenant item d))
      → Step d d'

-- Any number of steps.
pub data Advances (d : Db) : Db → Type 0 where
  still : {d' : Db} → ((t i : Bytes) → view t i d' ≡ view t i d) → Advances d d'
  after : {m d' : Db} → Advances d m → Step m d' → Advances d d'

-- Every version is a counter from 1 to 2^53 - 1.
pub record IsSound (d : Db) : Type 0 where
  pub versions : (t i : Bytes) (q v : ℤ) → view t i d ≡ some (q, v) → IsVersion v

-- From a sound projection the specification leads to a sound one.
abbrev pub Keeps : Db → Db → Type 0
Keeps d d' = IsSound d → Advances d d' × IsSound d'

Step-after : {m b c : Db} → Step m b → ((t i : Bytes) → view t i c ≡ view t i b) → Step m c
Step-after (start t i q h k) f = start t i q h (λ tenant item. f tenant item ∙ k tenant item)
Step-after (next t i q taken v h one k) f =
    next t i q taken v h one (λ tenant item. f tenant item ∙ k tenant item)

Advances-join : {a b c : Db} → Advances a b → Advances b c → Advances a c
Advances-join r (after s st) = after (Advances-join r s) st
Advances-join (still e) (still f) = still (λ t i. f t i ∙ e t i)
Advances-join (after r st) (still f) = after r (Step-after st f)

pub Keeps-path : IsPath Keeps
Keeps-path = record {
  stay = λ d h. (still (λ t i. refl), h);
  join = λ a b c p q h. let (r, h') = p h in let (s, h'') = q h' in (Advances-join r s, h'');
}

-- A write that leaves the projection alone.
pub Keeps-same : (d d' : Db) → ((t i : Bytes) → view t i d' ≡ view t i d) → Keeps d d'
Keeps-same d d' e h =
    (still e, record { versions = λ t i q v p. h.versions t i q v (sym (e t i) ∙ p) })

pub Keeps-put_inbox : (row : InboxRow) (d : Db) → Keeps d (put_inbox row d)
unfolding put_inbox find_projection
Keeps-put_inbox row d = Keeps-same d (put_inbox row d) (λ t i. refl)

-- A write of a counter in range to one item.
counter_set :
    (b : Bool) (n : ℕ) (a x v : ℤ) (o : Option (ℤ × ℤ))
    → 1 ≤ n
    → n ≤ max_safe_int
    → (if b then some (a, pos n) else o) ≡ some (x, v)
    → (o ≡ some (x, v) → IsVersion v)
    → IsVersion v
counter_set true n a x v o one small h old = (n, ground arith, one, small)
counter_set false n a x v o one small h old = old h

IsSound-set :
    {d d' : Db} (t i : Bytes) (a : ℤ) (n : ℕ)
    → IsSound d
    → 1 ≤ n
    → n ≤ max_safe_int
    → ((tenant item : Bytes)
        → view tenant item d'
          ≡ (if same_item t i tenant item then some (a, pos n) else view tenant item d))
    → IsSound d'
IsSound-set {d} t i a n h one small k = record {
  versions = λ tenant item x v p.
      counter_set (same_item t i tenant item) n a x v (view tenant item d) one small
        (sym (k tenant item) ∙ p) (h.versions tenant item x v);
}

module _ (t i : Bytes) (q : ℕ) (d : Db) where
  pub Keeps-add_projection :
      find_projection t i d ≡ none → Keeps d (add_projection (row t i (pos q) (pos 1)) d)
  Keeps-add_projection absent h =
      let seen = λ (tenant item : Bytes).
        view-add_projection t i (pos q) (pos 1) d tenant item (ap row_view absent) in
      (
        after (still (λ _ _. refl)) (start t i q (ap row_view absent) seen),
        IsSound-set t i (pos q) 1 h (omega arith) (omega arith) seen,
      )

  pub Keeps-set_projection :
      (taken v : ℕ) (old : ProjectionRow)
      → find_projection t i d ≡ some old
      → old.quantity_on_hand ≡ pos (q + taken)
      → old.aggregate_version ≡ pos v
      → 1 ≤ taken
      → suc v ≤ max_safe_int
      → Keeps d (set_projection t i (pos q) (pos (suc v)) d)
  Keeps-set_projection taken v old found quantity version one small h =
      let seen = λ (tenant item : Bytes).
        view-set_projection t i (pos q) (pos (suc v)) d tenant item old found in
      let before : view t i d ≡ some (pos (q + taken), pos v) = rw found (cc (quantity, version)) in
      (
        after (still (λ _ _. refl)) (next t i q taken v before one seen),
        IsSound-set t i (pos q) (suc v) h (omega arith) small seen,
      )
