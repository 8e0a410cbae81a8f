-- ===== src/Identity/Login/Tests.antt =====
-- One login of identity/handler.go: the browser is sent away, comes back, and logs out.
use seshatops.Base.{
  ◌+◌, ◌≤◌, ◌≡◌, ◌≢◌, refl, true, false, none, some, Option, List, [], ◌∷◌, Bytes, lit, str_eq,
  str_eq_iff, arith,
}
use seshatops.Base.Table.{select_row, delete_where}
use seshatops.Event.Text.{is_empty}
use seshatops.Identity.Sessions.{
  Session, new_store, default_session_ttl, is_fresh, create, get, put_pending, take_pending,
}
use seshatops.Identity.Login.{
  Request, Draws, Service, is_post, handle_login, handle_callback, handle_logout, session_of,
  assertion,
}
use seshatops.Identity.Login.Runs.{Act, login_act, callback_act, run_acts}
use seshatops.Identity.Login.Vouched.{Vouched, session_of-Vouched}
use seshatops.Identity.Login.Bounded.{load, logins, run_acts-Bounded}
use seshatops.Identity.Login.LoggedOut.{handle_logout-Forgets}

abbrev issuer_url : Bytes
issuer_url = lit "https://idp"

-- A provider with one user.
abbrev one_user : Service
one_user = record {
  auth_code_url = λ state verifier nonce. lit "https://idp/auth";
  exchange = λ code verifier. some (some (lit "jwt"));
  verify = λ raw. some (record { issuer = issuer_url; subject = lit "u1"; nonce = lit "n" });
  cookie_name = lit "seshatops_session";
  cookie_secure = true;
}

abbrev request : Bytes → Option Bytes → Request
request method cookie = record {
  method = method;
  error = [];
  code = lit "c";
  state = lit "s";
  login_cookie = some (lit "s");
  session_cookie = cookie;
}

abbrev draws_of : Bytes → Bytes → Draws
draws_of first second = record { first = some first; second = some second; verifier = lit "v" }

-- The latest first; the callback comes twice.
abbrev round_trip : List Act
round_trip =
    callback_act (draws_of (lit "id2") (lit "c2")) 250 251 (request (lit "GET") none)
    ∷ callback_act (draws_of (lit "id") (lit "c1")) 200 201 (request (lit "GET") none)
    ∷ login_act (draws_of (lit "s") (lit "n")) 100 (request (lit "GET") none)
    ∷ []

abbrev session_one : Session
session_one = record {
  id = lit "id";
  principal_id = lit "u1";
  issuer = issuer_url;
  subject = lit "u1";
  authenticated_at = 201;
  expires_at = 201 + default_session_ttl;
  correlation_id = lit "c1";
}

-- The second callback opened nothing.
one_session : (run_acts one_user round_trip (new_store 0)).sessions ≡ session_one ∷ []
unfolding handle_login handle_callback take_pending put_pending create assertion str_eq lit
    select_row delete_where
one_session = refl

answered :
    (session_of 300 (some (lit "id")) (run_acts one_user round_trip (new_store 0))).0
    ≡ some session_one
unfolding handle_login handle_callback take_pending put_pending create assertion str_eq lit
    select_row delete_where get is_fresh
answered = refl

session_of-Vouched_example :
    (some (lit "id") ≡ some session_one.id)
    × (is_fresh 300 session_one ≡ true)
    × Vouched one_user round_trip session_one
session_of-Vouched_example =
    session_of-Vouched one_user 0 round_trip 300 (some (lit "id")) session_one answered

run_acts-Bounded_example : load (run_acts one_user round_trip (new_store 0)) ≤ logins round_trip
run_acts-Bounded_example = run_acts-Bounded one_user 0 round_trip

abbrev logout : Request
logout = request (lit "POST") (some (lit "id"))

is_logout : is_post logout ≡ true
unfolding str_eq lit
is_logout = refl

distinct : str_eq (lit "id2") (lit "id") ≡ false
unfolding str_eq lit
distinct = refl

apart : some (lit "id2") ≢ some (lit "id")
apart e = clash ((str_eq_iff (lit "id2") (lit "id")).1 (some_inj e))
  where
    some_inj : some (lit "id2") ≡ some (lit "id") → lit "id2" ≡ lit "id"
    some_inj h = cc

    clash : str_eq (lit "id2") (lit "id") ≡ true → ⊥
    clash h = ground (arith, distinct)

named : is_empty (lit "id") ≡ false
unfolding lit
named = refl

-- After the logout another login opens a session of another id.
abbrev second_trip : List Act
second_trip =
    callback_act (draws_of (lit "id2") (lit "c2")) 500 501 (request (lit "GET") none)
    ∷ login_act (draws_of (lit "s") (lit "n")) 400 (request (lit "GET") none)
    ∷ []

handle_logout-Forgets_example :
    (session_of 600 (some (lit "id")) (
      run_acts one_user second_trip
        (handle_logout one_user logout (run_acts one_user round_trip (new_store 0))).1)).0
    ≡ none
handle_logout-Forgets_example =
    handle_logout-Forgets one_user (lit "id") logout (run_acts one_user round_trip (new_store 0))
      second_trip 600 is_logout refl named (apart, (tt, tt))
