-- ===== src/Identity/Login/Cases.antt =====
-- The outcomes of the handlers of identity/handler.go for the store: what a property of the store has
-- to stand to hold after each of them.
use seshatops.Base.{
  ℕ, ◌+◌, ◌≡◌, refl, true, false, Bool, not, ◌||◌, Option, none, some, [], Bytes, ap, str_eq_iff,
  if◌then◌else◌, arith,
}
use seshatops.Base.Table.{select_row}
use seshatops.Base.Result.{Result, ok, err}
use seshatops.Event.Text.{is_empty}
use seshatops.Identity.Sessions.{
  Session, Store, is_fresh, is_session, drop_session, put_session, create, get, get_found, delete,
  put_pending, take_pending,
}
use seshatops.Identity.Login.{
  Request, Response, Draws, Service, IdToken, is_get, is_post, is_bound, handle_login,
  handle_callback, handle_logout, handle_session, require_session, session_of, established,
  asserted, callback_taken, delete_cookie, login_drawn,
}
use seshatops.Identity.Login.Runs.{kept_if}

-- The session that a callback opens.
abbrev pub session_for : IdToken → Bytes → Bytes → ℕ → Store → Session
session_for t id c later st = record {
  id = id;
  principal_id = t.subject;
  issuer = t.issuer;
  subject = t.subject;
  authenticated_at = later;
  expires_at = later + st.ttl;
  correlation_id = c;
}

-- A property of the store: it holds of this one, and no session that is dropped spoils it.
module _ (P : Store → Type 0) (st : Store) (kept : P st)
    (dropped : (id : Bytes) → P (drop_session id st)) where
  get-cases : (id : Bytes) (now : ℕ) → P (get id now st).1
  unfolding get
  get-cases id now =
      kept_if (λ (x : Option Session × Store). P x.1) (is_empty id) (λ _. kept)
        (λ _. found (select_row (is_session id) st.sessions))
    where
      found : (o : Option Session) → P (get_found id now o st).1
      found none = kept
      found (some s) =
          kept_if (λ (x : Option Session × Store). P x.1) (is_fresh now s) (λ _. kept)
            (λ _. dropped id)

  pub session_of-cases : (now : ℕ) (cookie : Option Bytes) → P (session_of now cookie st).1
  session_of-cases now none = kept
  session_of-cases now (some id) =
      kept_if (λ (x : Option Session × Store). P x.1) (is_empty id) (λ _. kept)
        (λ _. get-cases id now)

  pub handle_session-cases : (now : ℕ) (r : Request) → P (handle_session now r st).1
  unfolding handle_session
  handle_session-cases now r =
      kept_if (λ (x : Response × Store). P x.1) (is_get r)
        (λ _. session_of-cases now r.session_cookie) (λ _. kept)

  pub require_session-cases :
      (next : Session → Response) (now : ℕ) (r : Request) → P (require_session next now r st).1
  unfolding require_session
  require_session-cases next now r = session_of-cases now r.session_cookie

  pub handle_logout-cases : (svc : Service) (r : Request) → P (handle_logout svc r st).1
  unfolding handle_logout delete
  handle_logout-cases svc r =
      kept_if (λ (x : Response × Store). P x.1) (is_post r) (λ _. after r.session_cookie)
        (λ _. kept)
    where
      after : (cookie : Option Bytes) → P (delete_cookie cookie st)
      after none = kept
      after (some id) = kept_if P (is_empty id) (λ _. kept) (λ _. dropped id)

module _ (svc : Service) (P : Store → Type 0) where
  pub handle_login-cases :
      (draws : Draws) (now : ℕ) (r : Request) (st : Store)
      → P st
      → ((state nonce : Bytes)
          → is_get r ≡ true
          → draws.first ≡ some state
          → draws.second ≡ some nonce
          → P (put_pending state draws.verifier nonce now st))
      → P (handle_login svc draws now r st).1
  unfolding handle_login
  handle_login-cases draws now r st kept put =
      kept_if (λ (x : Response × Store). P x.1) (is_get r)
        (drawn draws.first draws.second refl refl) (λ _. kept)
    where
      drawn :
          (first second : Option Bytes)
          → draws.first ≡ first
          → draws.second ≡ second
          → is_get r ≡ true
          → P (login_drawn svc first second draws.verifier now st).1
      drawn none second e e' got = kept
      drawn (some state) none e e' got = kept
      drawn (some state) (some nonce) e e' got = put state nonce got e e'

  -- After the assertion.
  pub asserted-cases :
      (draws : Draws) (later : ℕ) (st : Store) (res : Result Response IdToken)
      → P st
      → ((t : IdToken) (id c : Bytes)
          → res ≡ ok t
          → draws.first ≡ some id
          → P (put_session (session_for t id c later st) st))
      → P (asserted svc draws later res st).1
  unfolding create
  asserted-cases draws later st (err e) kept put = kept
  asserted-cases draws later st (ok t) kept put = opened draws.first draws.second refl
    where
      opened :
          (first second : Option Bytes)
          → draws.first ≡ first
          → P (established svc (create first second t.subject t.issuer t.subject [] later st)).1
      opened none second e = kept
      opened (some id) none e = kept
      opened (some id) (some c) e = put t id c refl e

  bound_cookie :
      (state : Bytes) (cookie : Option Bytes)
      → not (is_bound svc state cookie) ≡ false
      → cookie ≡ some state
  bound_cookie state none h = cc
  bound_cookie state (some v) h = ap some ((str_eq_iff v state).0 (ground (arith, h)))

  -- The guards before the login is taken.
  pub handle_callback-cases :
      (draws : Draws) (now later : ℕ) (r : Request) (st : Store)
      → P st
      → (r.login_cookie ≡ some r.state
          → P
              (let (taken, st') = take_pending r.state now st in
                callback_taken svc draws later r.code taken st').1)
      → P (handle_callback svc draws now later r st).1
  unfolding handle_callback
  handle_callback-cases draws now later r st kept taken = unless (not (is_get r)) _ _ (λ _.
      unless (not (is_empty r.error)) _ _ (λ _.
        unless (is_empty r.code || is_empty r.state) _ _ (λ _.
          unless (not (is_bound svc r.state r.login_cookie)) _ _
            (λ e. taken (bound_cookie r.state r.login_cookie e)))))
    where
      unless :
          (b : Bool) (x : Response) (y : Response × Store)
          → (b ≡ false → P y.1)
          → P (if b then (x, st) else y).1
      unless b x y k = kept_if (λ (z : Response × Store). P z.1) b (λ _. kept) k
