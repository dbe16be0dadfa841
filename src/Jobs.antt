-- ===== src/Jobs.antt =====
-- apps/api/src/services/jobRunner.ts
pub mod Store
mod Runner
pub mod Message
mod Events
mod Tick
mod Enqueue
mod Coalesce
mod Control
mod Reach
mod Tests
mod Table
mod Exclusion
