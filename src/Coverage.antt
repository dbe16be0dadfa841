-- ===== src/Coverage.antt =====
-- apps/api/src/services/snapshotIndexCoverage.ts
pub mod Paths
pub mod Rows
pub mod Inventory
pub mod Project
mod Tests
