-- ===== src/Identity/Login/Vouched.antt =====
-- Where the sessions of identity/handler.go come from.
use seshatops.Base.{
  ℕ, ◌+◌, ◌<◌, ◌≡◌, refl, sym, ap, subst, ltb, ◌⊎◌, inl, inr, true, false, Bool-cases, not, Option,
  none, some, List, [], ◌∷◌, Bytes, All, All-map, Some, str_eq_iff, arith,
}
use seshatops.Base.Table.{select_row, select_row_sound}
use seshatops.Base.Result.{ok}
use seshatops.Event.Text.{is_empty}
use seshatops.Identity.Sessions.{
  drop_session, Session, PendingAuth, Store, new_store, default_pending_ttl, is_fresh, is_session,
  is_state, get, get_found, put_pending, sweep_pending, take_pending, take_found,
}
use seshatops.Identity.Login.{
  Request, Draws, Service, IdToken, is_get, handle_login, handle_callback, handle_logout,
  handle_session, require_session, session_of, assertion, callback_taken,
}
use seshatops.Identity.Login.Grants.{IsGrant, assertion-IsGrant}
use seshatops.Identity.Login.Cases.{
  session_for, handle_session-cases, require_session-cases, handle_logout-cases, handle_login-cases,
  asserted-cases, handle_callback-cases,
}
use seshatops.Identity.Login.Runs.{
  Act, login_act, callback_act, logout_act, session_act, guarded_act, run_act, run_acts,
  All-delete_where, delete_where-kept, All-select_row,
}

-- The act is the login that stored the row.
abbrev Starts : PendingAuth → Act → Type 0
Starts p (login_act draws now r) =
    (is_get r ≡ true)
    × (draws.first ≡ some p.state)
    × (draws.second ≡ some p.nonce)
    × (draws.verifier ≡ p.verifier)
    × (p.expires_at ≡ now + default_pending_ttl)
Starts p _ = ⊥

abbrev Started : List Act → PendingAuth → Type 0
Started h p = Some (Starts p) h

module _ (svc : Service) where
  -- The callback that opened the session: the browser of a login that was not ten minutes old brought
  -- its state, and the session is that of the token.
  pub record Opens (s : Session) (draws : Draws) (now later : ℕ) (r : Request) (before : List Act)
      : Type 0 where
    pub login : PendingAuth
    pub token : IdToken
    pub started : Started before login
    pub state : login.state ≡ r.state
    pub bound : r.login_cookie ≡ some r.state
    pub in_time : now < login.expires_at
    pub grant : IsGrant svc r.code login token
    pub drawn : draws.first ≡ some s.id
    pub principal : s.principal_id ≡ token.subject
    pub issuer : s.issuer ≡ token.issuer
    pub authenticated : s.authenticated_at ≡ later

  abbrev Opened : Session → Act → List Act → Type 0
  Opened s (callback_act draws now later r) before = Opens s draws now later r before
  Opened s _ before = ⊥

  -- Some callback of the acts, latest first, opened the session.
  abbrev pub Vouched : List Act → Session → Type 0
  Vouched [] s = ⊥
  Vouched (a ∷ before) s = Opened s a before ⊎ Vouched before s

  abbrev Known : List Act → Store → Type 0
  Known h st = All (Vouched h) st.sessions × All (Started h) st.pending

  Known-next : (a : Act) (h : List Act) (st : Store) → Known h st → Known (a ∷ h) st
  Known-next a h st (s, p) = (
    All-map (Vouched h) (Vouched (a ∷ h)) st.sessions (λ x v. inr v) s,
    All-map (Started h) (Started (a ∷ h)) st.pending (λ x v. inr v) p,
  )

  login-Known :
      (draws : Draws) (now : ℕ) (r : Request) (h : List Act) (st : Store)
      → Known h st
      → Known (login_act draws now r ∷ h) (handle_login svc draws now r st).1
  unfolding put_pending
  login-Known draws now r h st known =
      let (sessions, pending) = Known-next (login_act draws now r) h st known in
      handle_login-cases svc (Known (login_act draws now r ∷ h)) draws now r st (sessions, pending)
        (λ state nonce got e e'. (
          sessions,
          (inl (got, e, e', refl, refl), All-delete_where _ _ _ (All-delete_where _ _ _ pending)),
        ))

  -- A taken login was started and is in time.
  abbrev Taken : List Act → Bytes → ℕ → Option PendingAuth × Store → Type 0
  Taken h state now (none, st) = Known h st
  Taken h state now (some p, st) =
      Known h st × Started h p × (p.state ≡ state) × (now < p.expires_at)

  take_pending-Taken :
      (h : List Act) (state : Bytes) (now : ℕ) (st : Store)
      → Known h st
      → Taken h state now (take_pending state now st)
  unfolding take_pending
  take_pending-Taken h state now st (sessions, pending) =
      found (select_row (is_state state) (sweep_pending now st).pending) refl
    where
      kept : All (Started h) (sweep_pending now st).pending
      kept = All-delete_where _ _ _ pending

      in_time : (p : PendingAuth) → not (ltb now p.expires_at) ≡ false → now < p.expires_at
      in_time p e = ground arith

      found :
          (o : Option PendingAuth)
          → select_row (is_state state) (sweep_pending now st).pending ≡ o
          → Taken h state now (take_found state o (sweep_pending now st))
      found none e = (sessions, kept)
      found (some p) e = (
        (sessions, All-delete_where _ _ _ kept),
        All-select_row (Started h) _ (sweep_pending now st).pending p e kept,
        (str_eq_iff p.state state).0
            (select_row_sound (is_state state) (sweep_pending now st).pending p e),
        in_time p (
            All-select_row _ _ (sweep_pending now st).pending p e (delete_where-kept _ st.pending)),
      )

  callback-Known :
      (draws : Draws) (now later : ℕ) (r : Request) (h : List Act) (st : Store)
      → Known h st
      → Known (callback_act draws now later r ∷ h) (handle_callback svc draws now later r st).1
  callback-Known draws now later r h st known =
      handle_callback-cases svc (Known (callback_act draws now later r ∷ h)) draws now later r st
        (Known-next (callback_act draws now later r) h st known)
        (λ cookie.
          taken cookie (take_pending r.state now st) (take_pending-Taken h r.state now st known))
    where
      opened :
          (p : PendingAuth) (t : IdToken) (id c : Bytes) (st' : Store)
          → r.login_cookie ≡ some r.state
          → Taken h r.state now (some p, st')
          → assertion svc r.code p ≡ ok t
          → draws.first ≡ some id
          → Opens (session_for t id c later st') draws now later r h
      opened p t id c st' cookie (k, started, state, in_time) proof e = record {
        login = p;
        token = t;
        started = started;
        state = state;
        bound = cookie;
        in_time = in_time;
        grant = assertion-IsGrant svc r.code p t proof;
        drawn = e;
        principal = refl;
        issuer = refl;
        authenticated = refl;
      }

      taken :
          r.login_cookie ≡ some r.state
          → (x : Option PendingAuth × Store) → Taken h r.state now x
          → Known
              (callback_act draws now later r ∷ h)
              (callback_taken svc draws later r.code x.0 x.1).1
      taken cookie (none, st') k = Known-next (callback_act draws now later r) h st' k
      taken cookie (some p, st') (k, started, state, in_time) =
          let (sessions, pending) = Known-next (callback_act draws now later r) h st' k in
          asserted-cases svc (Known (callback_act draws now later r ∷ h)) draws later st'
            (assertion svc r.code p) (sessions, pending)
            (λ t id c proof e. (
              (
                inl (opened p t id c st' cookie (k, started, state, in_time) proof e),
                All-delete_where _ _ _ sessions,
              ),
              pending,
            ))

  drop-Known :
      (h : List Act) (st : Store) → Known h st → (id : Bytes) → Known h (drop_session id st)
  drop-Known h st known id = (All-delete_where _ _ _ known.0, known.1)

  run_act-Known :
      (a : Act) (h : List Act) (st : Store) → Known h st → Known (a ∷ h) (run_act svc a st)
  run_act-Known (login_act draws now r) h st known = login-Known draws now r h st known
  run_act-Known (callback_act draws now later r) h st known =
      callback-Known draws now later r h st known
  run_act-Known (logout_act r) h st known =
      Known-next (logout_act r) h (handle_logout svc r st).1
        (handle_logout-cases (Known h) st known (drop-Known h st known) svc r)
  run_act-Known (session_act now r) h st known =
      Known-next (session_act now r) h (handle_session now r st).1
        (handle_session-cases (Known h) st known (drop-Known h st known) now r)
  run_act-Known (guarded_act next now r) h st known =
      Known-next (guarded_act next now r) h (require_session next now r st).1
        (require_session-cases (Known h) st known (drop-Known h st known) next now r)

  run_acts-Known : (ttl : ℕ) (h : List Act) → Known h (run_acts svc h (new_store ttl))
  run_acts-Known ttl [] = (tt, tt)
  run_acts-Known ttl (a ∷ h) = run_act-Known a h _ (run_acts-Known ttl h)

  get_found-some :
      (id : Bytes) (now : ℕ) (o : Option Session) (st : Store) (s : Session)
      → (get_found id now o st).0 ≡ some s
      → (o ≡ some s) × (is_fresh now s ≡ true)
  get_found-some id now none st s h = cc
  get_found-some id now (some x) st s h = elim (Bool-cases (is_fresh now x)) [
    | inl e ↦
        subst (λ y. (some x ≡ some y) × (is_fresh now y ≡ true)) (some_inj (rw e at h)) (refl, e)
    | inr e ↦ absurd (none_apart (rw e at h))
  ]
    where
      some_inj : {y : Session} → some x ≡ some y → x ≡ y
      some_inj k = cc

      none_apart : {y : Session} → none ≡ some y → ⊥
      none_apart k = ground arith

  session_of-some :
      (now : ℕ) (cookie : Option Bytes) (st : Store) (s : Session)
      → (session_of now cookie st).0 ≡ some s
      → (cookie ≡ some s.id)
        × (is_fresh now s ≡ true)
        × ((P : Session → Type 0) → All P st.sessions → P s)
  unfolding get
  session_of-some now none st s h = cc
  session_of-some now (some id) st s h = elim (Bool-cases (is_empty id)) [
    | inl e ↦ absurd (none_apart (rw e at h))
    | inr e ↦
        let (found, fresh) =
          get_found-some id now (select_row (is_session id) st.sessions) st s (rw e at h) in
        (
          ap some
              (sym ((str_eq_iff s.id id).0 (select_row_sound (is_session id) st.sessions s found))),
          fresh,
          λ P all. All-select_row P (is_session id) st.sessions s found all,
        )
  ]
    where
      none_apart : none ≡ some s → ⊥
      none_apart k = ground arith

  -- Whatever requests came before to a new store, a session that Authenticator.Session answers is the one of
  -- the cookie, is fresh, and was opened by a callback: its browser started a login less than ten minutes
  -- before, and the provider gave a verified token for the code with the verifier and the nonce of that login.
  -- The session has the subject and the issuer of the token.
  pub session_of-Vouched :
      (ttl : ℕ) (h : List Act) (now : ℕ) (cookie : Option Bytes) (s : Session)
      → (session_of now cookie (run_acts svc h (new_store ttl))).0 ≡ some s
      → (cookie ≡ some s.id) × (is_fresh now s ≡ true) × Vouched h s
  session_of-Vouched ttl h now cookie s answered =
      let (named, fresh, from) =
        session_of-some now cookie (run_acts svc h (new_store ttl)) s answered in
      (named, fresh, from (Vouched h) (run_acts-Known ttl h).0)
