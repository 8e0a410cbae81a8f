-- ===== src/Identity/Sessions.antt =====
-- The in-memory store of identity/store.go, and `Session` of identity/session.go.
--
-- A map is a list of rows that carry their key. Times are nanoseconds; the mutex makes each
-- operation one step. A drawn random id is given to the operation, `none` when the draw fails.
use seshatops.Base.{
  ℕ, ◌+◌, ◌*◌, Bool, false, ◌||◌, not, Option, none, some, List, [], ◌∷◌, Bytes, str_eq, ltb, ◌==◌,
  if◌then◌else◌, length,
}
use seshatops.Base.Table.{select_row, delete_where}
use seshatops.Base.Result.{Result, ok, err}
use seshatops.Event.Text.{is_empty}

-- `Session`
pub record Session : Type 0 where
  pub id : Bytes
  pub principal_id : Bytes
  pub issuer : Bytes
  pub subject : Bytes
  pub authenticated_at : ℕ
  pub expires_at : ℕ
  pub correlation_id : Bytes

-- `pendingAuth`, under its state.
pub record PendingAuth : Type 0 where
  pub state : Bytes
  pub verifier : Bytes
  pub nonce : Bytes
  pub expires_at : ℕ

-- `Store`
pub record Store : Type 0 where
  pub sessions : List Session
  pub pending : List PendingAuth
  pub ttl : ℕ

abbrev pub default_session_ttl : ℕ
default_session_ttl = 3600 * 1000000000

abbrev pub default_pending_ttl : ℕ
default_pending_ttl = 600 * 1000000000

-- `NewStore`; a negative ttl is as zero.
abbrev pub new_store : ℕ → Store
new_store ttl = record {
  sessions = [];
  pending = [];
  ttl = if ttl == 0 then default_session_ttl else ttl;
}

-- `Fresh`
unfoldable pub is_fresh : ℕ → Session → Bool
is_fresh now s =
    if is_empty s.principal_id || is_empty s.subject || is_empty s.issuer
    then false
    else ltb now s.expires_at

abbrev pub is_session : Bytes → Session → Bool
is_session id s = str_eq s.id id

abbrev pub is_state : Bytes → PendingAuth → Bool
is_state state p = str_eq p.state state

-- `delete(s.sessions, id)`
abbrev pub drop_session : Bytes → Store → Store
drop_session id st = record st { sessions = delete_where (is_session id) st.sessions }

-- `s.sessions[id] = sess`
abbrev pub put_session : Session → Store → Store
put_session s st = record st { sessions = s ∷ delete_where (is_session s.id) st.sessions }

pub data StoreError : Type 0 where
  random_failed : StoreError

abbrev pub or_drawn : Option Bytes → Bytes → Option Bytes
or_drawn drawn correlation = if is_empty correlation then drawn else some correlation

-- `Create`
unfoldable pub create :
    Option Bytes
    → Option Bytes
    → Bytes
    → Bytes
    → Bytes
    → Bytes
    → ℕ
    → Store
    → Result StoreError Session × Store
create drawn drawn' principal issuer subject correlation now st = elim drawn [
  | none ↦ (err random_failed, st)
  | some id ↦ elim (or_drawn drawn' correlation) [
    | none ↦ (err random_failed, st)
    | some c ↦
        let s : Session = record {
          id = id;
          principal_id = principal;
          issuer = issuer;
          subject = subject;
          authenticated_at = now;
          expires_at = now + st.ttl;
          correlation_id = c;
        } in
        (ok s, put_session s st)
  ]
]

-- A found session, or none when it is no longer fresh: then it is removed.
abbrev pub get_found : Bytes → ℕ → Option Session → Store → Option Session × Store
get_found id now none st = (none, st)
get_found id now (some s) st = if is_fresh now s then (some s, st) else (none, drop_session id st)

-- `Get`
unfoldable pub get : Bytes → ℕ → Store → Option Session × Store
get id now st =
    if is_empty id then (none, st) else get_found id now (select_row (is_session id) st.sessions) st

-- `Delete`
unfoldable pub delete : Bytes → Store → Store
delete id st = if is_empty id then st else drop_session id st

-- `sweepPendingLocked`
abbrev pub sweep_pending : ℕ → Store → Store
sweep_pending now st = record st {
  pending = delete_where (λ p. not (ltb now p.expires_at)) st.pending;
}

-- `s.pending[state] = p`, after the sweep.
unfoldable pub put_pending : Bytes → Bytes → Bytes → ℕ → Store → Store
put_pending state verifier nonce now st =
    let swept = sweep_pending now st in
    let p : PendingAuth = record {
      state = state;
      verifier = verifier;
      nonce = nonce;
      expires_at = now + default_pending_ttl;
    } in
    record swept { pending = p ∷ delete_where (is_state state) swept.pending }

abbrev pub take_found : Bytes → Option PendingAuth → Store → Option PendingAuth × Store
take_found state none st = (none, st)
take_found state (some p) st =
    (some p, record st { pending = delete_where (is_state state) st.pending })

-- `takePending`
unfoldable pub take_pending : Bytes → ℕ → Store → Option PendingAuth × Store
take_pending state now st =
    let swept = sweep_pending now st in
    take_found state (select_row (is_state state) swept.pending) swept

-- `pendingLen`
unfoldable pub pending_len : ℕ → Store → ℕ × Store
pending_len now st = let swept = sweep_pending now st in (length swept.pending, swept)
