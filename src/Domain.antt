-- ===== src/Domain.antt =====
-- The helpers of apps/api/src/domain: names of spaces and of clones (Slug), the text by which a
-- user names a repository of GitHub (Locator).
pub mod Slug
pub mod Locator
pub mod Sanitize
mod Tests
