-- ===== src/Identity/Login/Grants.antt =====
-- What a callback of identity/handler.go has verified when it opens a session.
use seshatops.Base.{
  ◌≡◌, refl, subst, ◌⊎◌, true, false, Bool, Option, none, some, Bytes, str_eq_iff, arith,
}
use seshatops.Base.Result.{ok, ◌>>=◌, ◌>>◌, refuse_if}
use seshatops.Event.Text.{is_empty}
use seshatops.Identity.Sessions.{PendingAuth}
use seshatops.Identity.Login.{
  Service, IdToken, granted, checked, verified, assertion, invalid_assertion,
}

module _ (svc : Service) where
  -- The provider gave this token for the code and the verifier of the login, with its nonce.
  pub record IsGrant (code : Bytes) (p : PendingAuth) (t : IdToken) : Type 0 where
    pub raw : Bytes
    pub exchanged : svc.exchange code p.verifier ≡ some (some raw)
    pub verified : svc.verify raw ≡ some t
    pub subject : is_empty t.subject ≡ false
    pub nonce : (is_empty p.nonce ≡ true) ⊎ (t.nonce ≡ p.nonce)

  checked-ok :
      (p : PendingAuth) (t t' : IdToken)
      → checked svc p t ≡ ok t'
      → (t ≡ t') × (is_empty t.subject ≡ false) × ((is_empty p.nonce ≡ true) ⊎ (t.nonce ≡ p.nonce))
  checked-ok p t t' h = ground (arith, str_eq_iff t.nonce p.nonce)

  verified-ok :
      (p : PendingAuth) (raw : Bytes) (t : IdToken)
      → verified svc p raw ≡ ok t
      → (svc.verify raw ≡ some t)
        × (is_empty t.subject ≡ false)
        × ((is_empty p.nonce ≡ true) ⊎ (t.nonce ≡ p.nonce))
  verified-ok p raw t h = unless_empty (is_empty raw) (svc.verify raw) refl h
    where
      unless_empty :
          (b : Bool) (o : Option IdToken)
          → svc.verify raw ≡ o
          → (refuse_if b invalid_assertion >> (granted svc o >>= checked svc p)) ≡ ok t
          → (svc.verify raw ≡ some t)
            × (is_empty t.subject ≡ false)
            × ((is_empty p.nonce ≡ true) ⊎ (t.nonce ≡ p.nonce))
      unless_empty true o e h = cc
      unless_empty false none e h = cc
      unless_empty false (some t') e h =
          let (same, subject, nonce) = checked-ok p t' t h in
          subst
            (λ x.
              (svc.verify raw ≡ some x)
              × (is_empty x.subject ≡ false)
              × ((is_empty p.nonce ≡ true) ⊎ (x.nonce ≡ p.nonce)))
            same (e, subject, nonce)

  pub assertion-IsGrant :
      (code : Bytes) (p : PendingAuth) (t : IdToken)
      → assertion svc code p ≡ ok t
      → IsGrant code p t
  unfolding assertion
  assertion-IsGrant code p t h = exchanged (svc.exchange code p.verifier) refl h
    where
      exchanged :
          (o : Option (Option Bytes))
          → svc.exchange code p.verifier ≡ o
          → (granted svc o >>= λ token. granted svc token >>= verified svc p) ≡ ok t
          → IsGrant code p t
      exchanged none e h = cc
      exchanged (some none) e h = cc
      exchanged (some (some raw)) e h =
          let (v, subject, nonce) = verified-ok p raw t h in
          record { raw = raw; exchanged = e; verified = v; subject = subject; nonce = nonce }
