-- ===== src/Identity/Login/Bounded.antt =====
-- How many sessions the logins of identity/handler.go can open.
use seshatops.Base.{
  ℕ, suc, ◌+◌, ◌≤◌, ◌≡◌, refl, inl, inr, Bool, Bool-cases, not, Option, none, some, List, [], ◌∷◌,
  Bytes, length, ltb, arith,
}
use seshatops.Base.Table.{select_row, delete_where}
use seshatops.Identity.Sessions.{
  drop_session, PendingAuth, Store, new_store, is_session, is_state, sweep_pending, put_pending,
  take_pending, take_found,
}
use seshatops.Identity.Login.{
  Request, Draws, Service, handle_login, handle_callback, assertion, callback_taken,
}
use seshatops.Identity.Login.Cases.{
  handle_session-cases, require_session-cases, handle_logout-cases, handle_login-cases,
  asserted-cases, handle_callback-cases,
}
use seshatops.Identity.Login.Runs.{
  Act, login_act, callback_act, logout_act, session_act, guarded_act, run_act, run_acts,
}

-- The sessions, and the logins that may still open one.
abbrev pub load : Store → ℕ
load st = length st.sessions + length st.pending

abbrev pub logins : List Act → ℕ
logins [] = 0
logins (login_act _ _ _ ∷ h) = suc (logins h)
logins (_ ∷ h) = logins h

length-delete_where :
    {A : Type 0} (p : A → Bool) (rs : List A) → length (delete_where p rs) ≤ length rs
unfolding delete_where
length-delete_where p [] = omega arith
length-delete_where p (r ∷ rs) = elim (Bool-cases (p r)) [
  | inl e ↦ rw e (omega (arith, length-delete_where p rs))
  | inr e ↦ rw e (omega (arith, length-delete_where p rs))
]

-- A row that is found goes.
length-delete_where_found :
    {A : Type 0} (p : A → Bool) (rs : List A) (r : A)
    → select_row p rs ≡ some r
    → suc (length (delete_where p rs)) ≤ length rs
unfolding delete_where select_row
length-delete_where_found p [] r h = cc
length-delete_where_found p (x ∷ rs) r h = elim (Bool-cases (p x)) [
  | inl e ↦ rw e (omega (arith, length-delete_where p rs))
  | inr e ↦ rw e (omega (arith, length-delete_where_found p rs r (rw e at h)))
]

-- A login that is taken makes room for its session.
abbrev Room : ℕ → Option PendingAuth × Store → Type 0
Room n (none, st) = load st ≤ n
Room n (some p, st) = suc (load st) ≤ n

take_pending-Room :
    (state : Bytes) (now : ℕ) (st : Store) → Room (load st) (take_pending state now st)
unfolding take_pending
take_pending-Room state now st =
    found (select_row (is_state state) (sweep_pending now st).pending) refl
      (length-delete_where (λ p. not (ltb now p.expires_at)) st.pending)
  where
    found :
        (o : Option PendingAuth)
        → select_row (is_state state) (sweep_pending now st).pending ≡ o
        → length (sweep_pending now st).pending ≤ length st.pending
        → Room (load st) (take_found state o (sweep_pending now st))
    found none e fewer = omega arith
    found (some p) e fewer =
        omega (arith, length-delete_where_found (is_state state) (sweep_pending now st).pending p e)

module _ (svc : Service) where
  login-load :
      (draws : Draws) (now : ℕ) (r : Request) (st : Store)
      → load (handle_login svc draws now r st).1 ≤ suc (load st)
  unfolding put_pending
  login-load draws now r st =
      handle_login-cases svc (λ x. load x ≤ suc (load st)) draws now r st (omega arith)
        (λ state nonce _ _ _. omega (
          arith,
          length-delete_where (λ p. not (ltb now p.expires_at)) st.pending,
          length-delete_where (is_state state) (sweep_pending now st).pending,
        ))

  callback-load :
      (draws : Draws) (now later : ℕ) (r : Request) (st : Store)
      → load (handle_callback svc draws now later r st).1 ≤ load st
  callback-load draws now later r st =
      handle_callback-cases svc (λ x. load x ≤ load st) draws now later r st (omega arith)
        (λ _. taken (take_pending r.state now st) (take_pending-Room r.state now st))
    where
      taken :
          (x : Option PendingAuth × Store)
          → Room (load st) x
          → load (callback_taken svc draws later r.code x.0 x.1).1 ≤ load st
      taken (none, st') k = k
      taken (some p, st') k =
          asserted-cases svc (λ x. load x ≤ load st) draws later st' (assertion svc r.code p)
            (omega (arith, k))
            (λ t id c _ _. omega (arith, k, length-delete_where (is_session id) st'.sessions))

  drop-load : (st : Store) (id : Bytes) → load (drop_session id st) ≤ load st
  drop-load st id = omega (arith, length-delete_where (is_session id) st.sessions)

  run_act-load : (a : Act) (st : Store) → load (run_act svc a st) ≤ logins (a ∷ []) + load st
  run_act-load (login_act draws now r) st = omega (arith, login-load draws now r st)
  run_act-load (callback_act draws now later r) st =
      omega (arith, callback-load draws now later r st)
  run_act-load (logout_act r) st =
      omega
        (arith, handle_logout-cases (λ x. load x ≤ load st) st (omega arith) (drop-load st) svc r)
  run_act-load (session_act now r) st =
      omega
        (arith, handle_session-cases (λ x. load x ≤ load st) st (omega arith) (drop-load st) now r)
  run_act-load (guarded_act next now r) st = omega (
    arith,
    require_session-cases (λ x. load x ≤ load st) st (omega arith) (drop-load st) next now r,
  )

  logins-next : (a : Act) (h : List Act) → logins (a ∷ h) ≡ logins (a ∷ []) + logins h
  logins-next (login_act _ _ _) h = omega arith
  logins-next (callback_act _ _ _ _) h = omega arith
  logins-next (logout_act _) h = omega arith
  logins-next (session_act _ _) h = omega arith
  logins-next (guarded_act _ _ _) h = omega arith

  -- Whatever requests a new store gets, the sessions and the pending logins together are no more than the
  -- logins were: one login opens at most one session, however often its callback is replayed.
  pub run_acts-Bounded : (ttl : ℕ) (h : List Act) → load (run_acts svc h (new_store ttl)) ≤ logins h
  run_acts-Bounded ttl [] = omega arith
  run_acts-Bounded ttl (a ∷ h) = omega (
    arith,
    run_act-load a (run_acts svc h (new_store ttl)),
    run_acts-Bounded ttl h,
    logins-next a h,
  )
