-- ===== src/Relay.antt =====
-- The outbox relay: package relay (relay/claim.go).
pub mod Backoff
pub mod Claim
pub mod Delays
pub mod Evolves
pub mod Keyed
pub mod Leases
pub mod Runs
pub mod Publish
pub mod Tests
