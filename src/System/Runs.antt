-- ===== src/System/Runs.antt =====
-- The ERP (erp/*.go) and the relays (relay/*.go) at work together.
use seshatops.Base.{
  ℕ, ◌≡◌, refl, sym, subst, ◌&&◌, List, [], ◌∷◌, ◌++◌, Bytes, All-map, str_eq, if◌then◌else◌,
}
use seshatops.Base.Table.{select_row}
use seshatops.Event.Json.{Tokens}
use seshatops.Event.Payload.{Envelope, aggregate_type_inventory_item}
use seshatops.Relay.Claim.{OutboxRow, pending}
use seshatops.Relay.Evolves.{Evolves, Follow}
use seshatops.Relay.Publish.{Table, LogRecord}
use seshatops.Relay.Publish.Safe.{IsSafe}
use seshatops.Relay.Publish.Fleet.{Claimed, Fleet, act, IsSound, act-Progress}
use seshatops.Erp.World.{ErpDb}
use seshatops.Erp.Outbox.{is_of, pending_row}
use seshatops.Erp.Orders.{is_item, accept_order}
use seshatops.Erp.Orders.Accepts.{IsAccepted, accept_order-Settled, IsIntent}
use seshatops.Erp.Sources.Spec.{source_event, add_source}
use seshatops.Erp.Sources.Settles.{IsRecorded, run_source, run_source-Settled}
use seshatops.Erp.Ledger.{Command, order_given, source_given, run_command, versions, IsLedger}
use seshatops.Erp.Ledger.Runs.{
  Settled-keeps, add_source-outbox, Balances-outbox, run_command-IsLedger,
}
use seshatops.System.{Site, SiteStep, command_step, relay_act, fleet_of, site_step, run_site}
use seshatops.System.Keys.{IsFresh, taken-IsFresh, snoc-IsKeyed, snoc-IsDelivered, snoc-IsSnapshot}

-- The relays leave the events of an item alone.
event_of-Evolves :
    (tenant item : Bytes) (r r' : OutboxRow)
    → Evolves r r'
    → is_of tenant aggregate_type_inventory_item item r'
      ≡ is_of tenant aggregate_type_inventory_item item r
event_of-Evolves tenant item r r' e = λ i.
    str_eq (e.tenant_id i) tenant
    && str_eq (e.aggregate_type i) aggregate_type_inventory_item
    && str_eq (e.aggregate_id i) item

versions-Follow :
    (tenant item : Bytes) (rows rows' : Table)
    → Follow rows rows'
    → versions tenant item rows' ≡ versions tenant item rows
unfolding versions
versions-Follow tenant item [] [] f = refl
versions-Follow tenant item [] (y ∷ ys) f = elim f [ ]
versions-Follow tenant item (x ∷ xs) [] f = elim f [ ]
versions-Follow tenant item (x ∷ xs) (y ∷ ys) (f, fs) = λ i.
    if event_of-Evolves tenant item x y f i
    then f.aggregate_version i ∷ versions-Follow tenant item xs ys fs i
    else versions-Follow tenant item xs ys fs i

module _ (lower : ℕ → ℕ) (hash : Bytes → Bytes) (tokens : Bytes → Tokens) where
  abbrev fleet : Table → List LogRecord → List Claimed → Fleet
  fleet rows log held = record { world = record { rows = rows; log = log }; held = held }

  snoc-IsSound :
      (row : OutboxRow) (rows : Table) (log : List LogRecord) (held : List Claimed)
      → IsFresh row.event_id rows
      → row.status ≡ pending
      → IsSound lower tokens (fleet rows log held)
      → IsSound lower tokens (fleet (rows ++ row ∷ []) log held)
  snoc-IsSound row rows log held fresh waiting sound = record {
    safe = record {
      keyed = snoc-IsKeyed row rows fresh sound.safe.keyed;
      delivered = snoc-IsDelivered row rows fresh log waiting sound.safe.delivered;
      readable = sound.safe.readable;
    };
    snapshots = All-map _ _ held (λ c. snoc-IsSnapshot row rows fresh c.rec) sound.snapshots;
  }

  abbrev IsSoundAt : List LogRecord → List Claimed → ErpDb → Type 0
  IsSoundAt log held db = IsSound lower tokens (fleet db.outbox log held)

  intent-IsSound :
      (env : Envelope) (bytes digest : Bytes) (db db' : ErpDb) (log : List LogRecord)
      (held : List Claimed)
      → IsIntent lower hash env bytes digest db db'
      → IsSoundAt log held db
      → IsSoundAt log held db'
  intent-IsSound env bytes digest db db' log held intent sound =
      subst (IsSoundAt log held) (sym intent.after) (
        snoc-IsSound (pending_row env bytes digest) db.outbox log held
          (taken-IsFresh env db intent.fresh) refl sound)

  run_command-IsSound :
      (c : Command) (db : ErpDb) (log : List LogRecord) (held : List Claimed)
      → IsSoundAt log held db
      → IsSoundAt log held (run_command lower hash c db)
  run_command-IsSound (order_given weather cmd) db log held sound =
      Settled-keeps (IsAccepted lower hash cmd db) (IsSoundAt log held) weather db
        (accept_order lower hash weather cmd db) (accept_order-Settled lower hash weather cmd db)
        (λ res db' acc.
          intent-IsSound _ res.event_bytes res.content_hash _ db' log held acc.intent sound)
        sound
  run_command-IsSound (source_given weather cmd) db log held sound =
      Settled-keeps (IsRecorded lower hash cmd db) (IsSoundAt log held) weather db
        (run_source lower hash weather cmd db) (run_source-Settled lower hash weather cmd db)
        (λ (bytes, digest) db' (sourced, intent).
          intent-IsSound (source_event cmd) bytes digest (add_source cmd db) db' log held intent (
            subst (λ rows. IsSound lower tokens (fleet rows log held))
              (sym (add_source-outbox cmd db)) sound))
        sound

  -- What holds of a site at all times, and of the item of a tenant that started with `stock`.
  pub record IsWorking (tenant item : Bytes) (stock : ℕ) (s : Site) : Type 0 where
    pub sound : IsSound lower tokens (fleet_of s)
    pub books : IsLedger tenant item stock s.erp

  site_step-IsWorking :
      (tenant item : Bytes) (stock : ℕ) (x : SiteStep) (s : Site)
      → IsWorking tenant item stock s
      → IsWorking tenant item stock (site_step lower hash tokens x s)
  unfolding site_step
  site_step-IsWorking tenant item stock (command_step c) s w = record {
    sound = run_command-IsSound c s.erp s.log s.held w.sound;
    books = run_command-IsLedger lower hash tenant item stock c s.erp w.books;
  }
  site_step-IsWorking tenant item stock (relay_act a) s w =
      let (follow, sound) = act-Progress lower tokens a (fleet_of s) w.sound in
      let rows = (act lower tokens a (fleet_of s)).world.rows in
      record {
        sound = sound;
        books =
            Balances-outbox tenant item stock (select_row (is_item tenant item) s.erp.items) s.erp
              (record s.erp { outbox = rows }) refl
              (versions-Follow tenant item s.erp.outbox rows follow) w.books;
      }

  run_site-IsWorking :
      (tenant item : Bytes) (stock : ℕ) (xs : List SiteStep) (s : Site)
      → IsWorking tenant item stock s
      → IsWorking tenant item stock (run_site lower hash tokens xs s)
  unfolding run_site
  run_site-IsWorking tenant item stock [] s w = w
  run_site-IsWorking tenant item stock (x ∷ xs) s w =
      run_site-IsWorking tenant item stock xs (site_step lower hash tokens x s)
        (site_step-IsWorking tenant item stock x s w)

  -- The ERP and the relays begin with an empty outbox, an empty topic and nothing claimed.
  pub record IsInitial (s : Site) : Type 0 where
    pub no_events : s.erp.outbox ≡ []
    pub no_records : s.log ≡ []
    pub none_held : s.held ≡ []

  initial-IsSound : (s : Site) → IsInitial s → IsSound lower tokens (fleet_of s)
  initial-IsSound s start =
      subst (λ rows. IsSound lower tokens (fleet rows s.log s.held)) (sym start.no_events)
        (subst (λ log. IsSound lower tokens (fleet [] log s.held)) (sym start.no_records)
          (subst (λ held. IsSound lower tokens (fleet [] [] held)) (sym start.none_held)
            (record {
              safe = record { keyed = tt; delivered = tt; readable = tt };
              snapshots = tt;
            })))

  -- From an empty outbox and topic, whatever orders and hops the ERP is given and whatever the relays
  -- do between them, with any failures and lost answers of the database and of the broker: the keys
  -- of the outbox name one row each, every row marked published is on the topic under its key, Parse
  -- accepts every record of the topic and its key is that of its event; and the books of an item that
  -- balance stay balanced: stock and orders make up the first stock, and the events of the item have
  -- the versions 1, 2, … up to its own, in order.
  pub run_site-IsSafe :
      (tenant item : Bytes) (stock : ℕ) (xs : List SiteStep) (s : Site)
      → IsInitial s
      → IsLedger tenant item stock s.erp
      → let s' = run_site lower hash tokens xs s in
        IsSafe lower tokens (record { rows = s'.erp.outbox; log = s'.log })
        × IsLedger tenant item stock s'.erp
  run_site-IsSafe tenant item stock xs s start books =
      let w =
        run_site-IsWorking tenant item stock xs s
          (record { sound = initial-IsSound s start; books = books }) in
      (w.sound.safe, w.books)
