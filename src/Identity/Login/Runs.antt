-- ===== src/Identity/Login/Runs.antt =====
-- Requests to the handlers of identity/handler.go, one after the other.
use seshatops.Base.{
  ℕ, ◌≡◌, refl, subst, inl, inr, true, false, Bool, Bool-cases, some, List, [], ◌∷◌, All,
  if◌then◌else◌,
}
use seshatops.Base.Table.{select_row, delete_where}
use seshatops.Identity.Sessions.{Session, Store}
use seshatops.Identity.Login.{
  Request, Response, Draws, Service, handle_login, handle_callback, handle_logout, handle_session,
  require_session,
}

pub data Act : Type 0 where
  login_act : Draws → ℕ → Request → Act
  callback_act : Draws → ℕ → ℕ → Request → Act
  logout_act : Request → Act
  session_act : ℕ → Request → Act
  guarded_act : (Session → Response) → ℕ → Request → Act

module _ (svc : Service) where
  -- The store after one request; what is behind `RequireSession` does not reach it.
  abbrev pub run_act : Act → Store → Store
  run_act (login_act draws now r) st = (handle_login svc draws now r st).1
  run_act (callback_act draws now later r) st = (handle_callback svc draws now later r st).1
  run_act (logout_act r) st = (handle_logout svc r st).1
  run_act (session_act now r) st = (handle_session now r st).1
  run_act (guarded_act next now r) st = (require_session next now r st).1

  -- The latest act stands first.
  abbrev pub run_acts : List Act → Store → Store
  run_acts [] st = st
  run_acts (a ∷ before) st = run_act a (run_acts before st)

-- A store that both branches keep.
pub kept_if :
    {A : Type 0} (P : A → Type 0) (b : Bool) {x y : A}
    → (b ≡ true → P x)
    → (b ≡ false → P y)
    → P (if b then x else y)
kept_if P true h k = h refl
kept_if P false h k = k refl

pub All-delete_where :
    {A : Type 0} (P : A → Type 0) (p : A → Bool) (rs : List A)
    → All P rs
    → All P (delete_where p rs)
unfolding delete_where
All-delete_where P p [] h = tt
All-delete_where P p (r ∷ rs) (h, hs) =
    kept_if (All P) (p r) (λ _. All-delete_where P p rs hs) (λ _. (h, All-delete_where P p rs hs))

-- What is left after a deletion.
pub delete_where-kept :
    {A : Type 0} (p : A → Bool) (rs : List A) → All (λ r. p r ≡ false) (delete_where p rs)
unfolding delete_where
delete_where-kept p [] = tt
delete_where-kept p (r ∷ rs) =
    kept_if (All (λ r. p r ≡ false)) (p r) (λ _. delete_where-kept p rs)
      (λ e. (e, delete_where-kept p rs))

pub All-select_row :
    {A : Type 0} (P : A → Type 0) (p : A → Bool) (rs : List A) (r : A)
    → select_row p rs ≡ some r
    → All P rs
    → P r
unfolding select_row
All-select_row P p [] r h a = cc
All-select_row P p (x ∷ rs) r h (a, more) = elim (Bool-cases (p x)) [
  | inl e ↦ subst P (some_inj (rw e at h)) a
  | inr e ↦ All-select_row P p rs r (rw e at h) more
]
  where
    some_inj : {A : Type 0} {x y : A} → some x ≡ some y → x ≡ y
    some_inj h = cc
