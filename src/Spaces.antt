-- ===== src/Spaces.antt =====
-- The spaces, `SpaceService` of apps/api/src/services/spaceService.ts: the lock between the readers of a space
-- and its deletion (Gate).
pub mod Gate
pub mod Store
pub mod Repositories
pub mod Reconcile
pub mod Creation
mod Tests
pub mod Deletion
