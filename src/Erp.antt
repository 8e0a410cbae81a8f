-- ===== src/Erp.antt =====
-- The synthetic ERP: package erp (erp/accept.go, erp/outbox.go, erp/lineage.go).
pub mod Checks
pub mod World
pub mod Tests
pub mod Ledger
pub mod Outbox
pub mod Orders
pub mod Sources
