-- ===== src/Identity.antt =====
-- Package identity: the policy (directory.go, matrix.go, policy.go), and the sessions and the login
-- (store.go, session.go, handler.go, authenticator.go, middleware.go of identity/).
pub mod Matrix
pub mod Audit
pub mod Directory
pub mod Login
pub mod Policy
pub mod Sessions
pub mod Tests
