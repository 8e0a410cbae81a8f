-- ===== src/Platform.antt =====
-- The projection consumer: package platform (platform/*.go).
pub mod World
pub mod Monad
pub mod Store
pub mod Projection
pub mod Lineage
pub mod Process
pub mod Failure
pub mod Writes
pub mod Redrive
pub mod Record
pub mod Consume
pub mod Tests
