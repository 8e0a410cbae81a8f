-- ===== src/Identity/Login/LoggedOut.antt =====
-- What `handleLogout` of identity/handler.go promises.
use seshatops.Base.{
  subst, ℕ, ◌≡◌, ◌≢◌, refl, ap, inl, inr, true, false, Bool-cases, Option, none, some, List, [],
  ◌∷◌, Bytes, All, str_eq, str_eq_iff,
}
use seshatops.Base.Table.{select_row}
use seshatops.Event.Text.{is_empty}
use seshatops.Identity.Sessions.{
  drop_session, Session, PendingAuth, Store, is_session, is_state, sweep_pending, get, delete,
  put_pending, take_pending, take_found,
}
use seshatops.Identity.Login.{
  Request, Draws, Service, is_post, handle_callback, handle_logout, session_of, assertion,
  callback_taken,
}
use seshatops.Identity.Login.Cases.{
  handle_session-cases, require_session-cases, handle_logout-cases, handle_login-cases,
  asserted-cases, handle_callback-cases,
}
use seshatops.Identity.Login.Runs.{
  Act, login_act, callback_act, logout_act, session_act, guarded_act, run_act, run_acts, kept_if,
  All-delete_where, delete_where-kept,
}

-- No session has the id.
abbrev IsGone : Bytes → Store → Type 0
IsGone id st = All (λ s. is_session id s ≡ false) st.sessions

-- The act does not draw the id for a session.
abbrev pub IsOther : Bytes → Act → Type 0
IsOther id (callback_act draws now later r) = draws.first ≢ some id
IsOther id _ = Unit

module _ (id : Bytes) where
  drop-IsGone : (st : Store) → IsGone id st → (key : Bytes) → IsGone id (drop_session key st)
  drop-IsGone st gone key = All-delete_where _ _ _ gone

  take_pending-IsGone :
      (state : Bytes) (now : ℕ) (st : Store)
      → IsGone id st
      → IsGone id (take_pending state now st).1
  unfolding take_pending
  take_pending-IsGone state now st gone =
      found (select_row (is_state state) (sweep_pending now st).pending)
    where
      found : (o : Option PendingAuth) → IsGone id (take_found state o (sweep_pending now st)).1
      found none = gone
      found (some p) = gone

  apart : (key : Bytes) → some key ≢ some id → str_eq key id ≡ false
  apart key other = elim (Bool-cases (str_eq key id)) [
    | inl e ↦ absurd (other (ap some ((str_eq_iff key id).0 e)))
    | inr e ↦ e
  ]

  module _ (svc : Service) where
    callback-IsGone :
        (draws : Draws) (now later : ℕ) (r : Request) (st : Store)
        → draws.first ≢ some id
        → IsGone id st
        → IsGone id (handle_callback svc draws now later r st).1
    callback-IsGone draws now later r st other gone =
        handle_callback-cases svc (IsGone id) draws now later r st gone
          (λ _. taken (take_pending r.state now st) (take_pending-IsGone r.state now st gone))
      where
        taken :
            (x : Option PendingAuth × Store)
            → IsGone id x.1
            → IsGone id (callback_taken svc draws later r.code x.0 x.1).1
        taken (none, st') k = k
        taken (some p, st') k =
            asserted-cases svc (IsGone id) draws later st' (assertion svc r.code p) k
              (λ t key c _ e.
                (apart key (subst (λ drawn. drawn ≢ some id) e other), All-delete_where _ _ _ k))

    run_act-IsGone :
        (a : Act) (st : Store) → IsOther id a → IsGone id st → IsGone id (run_act svc a st)
    unfolding put_pending
    run_act-IsGone (login_act draws now r) st other gone =
        handle_login-cases svc (IsGone id) draws now r st gone (λ _ _ _ _ _. gone)
    run_act-IsGone (callback_act draws now later r) st other gone =
        callback-IsGone draws now later r st other gone
    run_act-IsGone (logout_act r) st other gone =
        handle_logout-cases (IsGone id) st gone (drop-IsGone st gone) svc r
    run_act-IsGone (session_act now r) st other gone =
        handle_session-cases (IsGone id) st gone (drop-IsGone st gone) now r
    run_act-IsGone (guarded_act next now r) st other gone =
        require_session-cases (IsGone id) st gone (drop-IsGone st gone) next now r

    run_acts-IsGone :
        (h : List Act) (st : Store)
        → All (IsOther id) h
        → IsGone id st
        → IsGone id (run_acts svc h st)
    run_acts-IsGone [] st others gone = gone
    run_acts-IsGone (a ∷ h) st (other, others) gone =
        run_act-IsGone a (run_acts svc h st) other (run_acts-IsGone h st others gone)

  select_none :
      (rs : List Session)
      → All (λ s. is_session id s ≡ false) rs
      → select_row (is_session id) rs ≡ none
  unfolding select_row
  select_none [] gone = refl
  select_none (s ∷ rs) (e, gone) = rw e (select_none rs gone)

  get-IsGone-none : (now : ℕ) (st : Store) → IsGone id st → (get id now st).0 ≡ none
  unfolding get
  get-IsGone-none now st gone =
      kept_if (λ (x : Option Session × Store). x.0 ≡ none) (is_empty id) (λ _. refl)
        (λ _. rw (select_none st.sessions gone) refl)

  logged_out :
      (svc : Service) (r : Request) (st : Store)
      → is_post r ≡ true
      → r.session_cookie ≡ some id
      → is_empty id ≡ false
      → IsGone id (handle_logout svc r st).1
  unfolding handle_logout delete
  logged_out svc r st post cookie named =
      rw (post, cookie, named) (delete_where-kept (is_session id) st.sessions)

-- After a logout the session of its cookie is never answered again, whatever requests follow, as long as no
-- callback draws the same id for a session of its own.
pub handle_logout-Forgets :
    (svc : Service) (id : Bytes) (r : Request) (st : Store) (h : List Act) (now : ℕ)
    → is_post r ≡ true
    → r.session_cookie ≡ some id
    → is_empty id ≡ false
    → All (IsOther id) h
    → (session_of now (some id) (run_acts svc h (handle_logout svc r st).1)).0 ≡ none
handle_logout-Forgets svc id r st h now post cookie named others = rw named (
    get-IsGone-none id now _
      (run_acts-IsGone id svc h _ others (logged_out id svc r st post cookie named)))
