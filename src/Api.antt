-- ===== src/Api.antt =====
-- The HTTP API: what stands before its operator controls (api/controls.go).
pub mod Controls
pub mod Tests
