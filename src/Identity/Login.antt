-- ===== src/Identity/Login.antt =====
-- The handlers of identity/handler.go, `Authenticator.Session` of authenticator.go and
-- `RequireSession` of middleware.go.
--
-- The OIDC library is a parameter: the URL of the provider, the exchange of a code, and the
-- verification of an ID token. The JSON of a body is left out: a body is a value.
pub mod Bounded
pub mod Cases
pub mod Grants
pub mod Vouched
pub mod LoggedOut
pub mod Runs
pub mod Tests
use seshatops.Base.{
  ℕ, Bool, true, false, ◌||◌, ◌&&◌, not, Option, none, some, List, [], ◌∷◌, Bytes, lit, str_eq,
  if◌then◌else◌,
}
use seshatops.Base.Result.{Result, ok, err, ◌>>=◌, ◌>>◌, refuse_if}
use seshatops.Event.Text.{is_empty}
use seshatops.Identity.Sessions.{
  Session, PendingAuth, Store, create, get, delete, put_pending, take_pending,
}

-- What the handlers read of an http.Request; a missing query value is empty.
pub record Request : Type 0 where
  pub method : Bytes
  pub error : Bytes
  pub code : Bytes
  pub state : Bytes
  pub login_cookie : Option Bytes
  pub session_cookie : Option Bytes

pub data Body : Type 0 where
  error_body redirect : Bytes → Body
  session_body : Session → Body
  no_body : Body

-- How long a browser keeps a cookie.
pub data Life : Type 0 where
  max_age expires : ℕ → Life
  at_once : Life

-- `http.Cookie`; each cookie of the package is HttpOnly, SameSite=Lax and for every path.
pub record Cookie : Type 0 where
  pub name : Bytes
  pub value : Bytes
  pub path : Bytes
  pub life : Life
  pub http_only : Bool
  pub same_site : Bytes
  pub secure : Bool

pub record Response : Type 0 where
  pub status : ℕ
  pub cookies : List Cookie
  pub body : Body

-- The claims that the code reads of a verified ID token.
pub record IdToken : Type 0 where
  pub issuer : Bytes
  pub subject : Bytes
  pub nonce : Bytes

-- `Service`: the OIDC library and the provider behind it, and the settings of the session cookie. A
-- token of an exchange may have no id_token string.
pub record Service : Type 0 where
  pub auth_code_url : Bytes → Bytes → Bytes → Bytes
  pub exchange : Bytes → Bytes → Option (Option Bytes)
  pub verify : Bytes → Option IdToken
  pub cookie_name : Bytes
  pub cookie_secure : Bool

abbrev refused : ℕ → Bytes → Response
refused status code = record { status = status; cookies = []; body = error_body code }

abbrev not_allowed : Response
not_allowed = refused 405 (lit "method_not_allowed")

abbrev login_failed : Response
login_failed = refused 500 (lit "login_failed")

abbrev invalid_callback : ℕ → Response
invalid_callback status = refused status (lit "invalid_callback")

abbrev pub invalid_assertion : Response
invalid_assertion = refused 401 (lit "invalid_assertion")

abbrev pub unauthenticated : Response
unauthenticated = refused 401 (lit "unauthenticated")

abbrev with_cookie : Cookie → Response → Response
with_cookie c r = record r { cookies = c ∷ r.cookies }

-- What one request draws: two random ids, and the PKCE verifier.
pub record Draws : Type 0 where
  pub first : Option Bytes
  pub second : Option Bytes
  pub verifier : Bytes

abbrev pub is_get : Request → Bool
is_get r = str_eq r.method (lit "GET")

abbrev pub is_post : Request → Bool
is_post r = str_eq r.method (lit "POST")

abbrev pub default_login_cookie_name : Bytes
default_login_cookie_name = lit "seshatops_login"

abbrev pub delete_cookie : Option Bytes → Store → Store
delete_cookie none st = st
delete_cookie (some id) st = delete id st

module _ (svc : Service) where
  abbrev cookie_of : Bytes → Bytes → Life → Cookie
  cookie_of name value life = record {
    name = name;
    value = value;
    path = lit "/";
    life = life;
    http_only = true;
    same_site = lit "Lax";
    secure = svc.cookie_secure;
  }

  -- `setLoginCookie`
  abbrev pub login_cookie : Bytes → Cookie
  login_cookie state = cookie_of default_login_cookie_name state (max_age 600)

  -- `clearLoginCookie`
  abbrev pub no_login_cookie : Cookie
  no_login_cookie = cookie_of default_login_cookie_name [] at_once

  -- `setSessionCookie`
  abbrev pub session_cookie : Bytes → ℕ → Cookie
  session_cookie id expiry = cookie_of svc.cookie_name id (expires expiry)

  -- `clearSessionCookie`
  abbrev pub no_session_cookie : Cookie
  no_session_cookie = cookie_of svc.cookie_name [] at_once

  abbrev pub login_drawn : Option Bytes → Option Bytes → Bytes → ℕ → Store → Response × Store
  login_drawn none _ verifier now st = (login_failed, st)
  login_drawn (some state) none verifier now st = (login_failed, st)
  login_drawn (some state) (some nonce) verifier now st = (
    record {
      status = 302;
      cookies = login_cookie state ∷ [];
      body = redirect (svc.auth_code_url state verifier nonce);
    },
    put_pending state verifier nonce now st,
  )

  -- `handleLogin`
  unfoldable pub handle_login : Draws → ℕ → Request → Store → Response × Store
  handle_login draws now r st =
      if is_get r
      then login_drawn draws.first draws.second draws.verifier now st
      else (not_allowed, st)

  -- Each failure has the one answer.
  abbrev pub granted : {A : Type 0} → Option A → Result Response A
  granted none = err invalid_assertion
  granted (some a) = ok a

  abbrev pub checked : PendingAuth → IdToken → Result Response IdToken
  checked p t =
      if is_empty t.subject
      then err invalid_assertion
      else if not (is_empty p.nonce) && not (str_eq t.nonce p.nonce)
      then err invalid_assertion
      else ok t

  abbrev pub verified : PendingAuth → Bytes → Result Response IdToken
  verified p raw = do
    refuse_if (is_empty raw) invalid_assertion
    t ← granted (svc.verify raw)
    checked p t

  -- From the exchange to the test of the nonce.
  unfoldable pub assertion : Bytes → PendingAuth → Result Response IdToken
  assertion code p = do
    token ← granted (svc.exchange code p.verifier)
    raw ← granted token
    verified p raw

  abbrev pub established : {E : Type 0} → Result E Session × Store → Response × Store
  established (err _, st) = (login_failed, st)
  established (ok s, st) = (
    record {
      status = 302;
      cookies = session_cookie s.id s.expires_at ∷ [];
      body = redirect (lit "/");
    },
    st,
  )

  abbrev pub asserted : Draws → ℕ → Result Response IdToken → Store → Response × Store
  asserted draws now (err e) st = (e, st)
  asserted draws now (ok t) st =
      established (create draws.first draws.second t.subject t.issuer t.subject [] now st)

  abbrev pub callback_taken : Draws → ℕ → Bytes → Option PendingAuth → Store → Response × Store
  callback_taken draws now code none st = (with_cookie no_login_cookie (invalid_callback 401), st)
  callback_taken draws now code (some p) st =
      let (r, st') = asserted draws now (assertion code p) st in
      (with_cookie no_login_cookie r, st')

  -- The cookie binds the state to the browser that started the login.
  abbrev pub is_bound : Bytes → Option Bytes → Bool
  is_bound state none = false
  is_bound state (some v) = not (is_empty v) && str_eq v state

  -- `handleCallback`; the clock is read again when the session is created.
  unfoldable pub handle_callback : Draws → ℕ → ℕ → Request → Store → Response × Store
  handle_callback draws now later r st =
      let (taken, st') = take_pending r.state now st in
      let done = callback_taken draws later r.code taken st' in
      if not (is_get r)
      then (not_allowed, st)
      else if not (is_empty r.error)
      then (invalid_assertion, st)
      else if is_empty r.code || is_empty r.state
      then (invalid_callback 400, st)
      else if not (is_bound r.state r.login_cookie)
      then (invalid_callback 401, st)
      else done

  -- `handleLogout`
  unfoldable pub handle_logout : Request → Store → Response × Store
  handle_logout r st =
      if is_post r
      then (
        record { status = 204; cookies = no_session_cookie ∷ []; body = no_body },
        delete_cookie r.session_cookie st,
      )
      else (not_allowed, st)

-- `Authenticator.Session`: `none` is ErrUnauthenticated.
abbrev pub session_of : ℕ → Option Bytes → Store → Option Session × Store
session_of now none st = (none, st)
session_of now (some id) st = if is_empty id then (none, st) else get id now st

abbrev session_answer : Option Session → Response
session_answer none = unauthenticated
session_answer (some s) = record { status = 200; cookies = []; body = session_body s }

-- `handleSession`
unfoldable pub handle_session : ℕ → Request → Store → Response × Store
handle_session now r st =
    let (found, st') = session_of now r.session_cookie st in
    if is_get r then (session_answer found, st') else (not_allowed, st)

abbrev passed_on : (Session → Response) → Option Session → Response
passed_on next none = unauthenticated
passed_on next (some s) = next s

-- `RequireSession` before a handler, which is given the session.
unfoldable pub require_session : (Session → Response) → ℕ → Request → Store → Response × Store
require_session next now r st =
    let (found, st') = session_of now r.session_cookie st in (passed_on next found, st')
