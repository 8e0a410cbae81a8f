-- ===== src/Event.antt =====
-- The event contract: package event (event/*.go).
pub mod Text
pub mod Payload
pub mod Validate
pub mod Json
pub mod Unicode
pub mod Decode
pub mod Canonical
pub mod Parse
pub mod Samples
pub mod Tests
