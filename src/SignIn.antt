-- ===== src/SignIn.antt =====
-- The sign-in at GitHub by a device code: `GitHubOAuthService` of
-- apps/api/src/services/githubOAuthService.ts. SignIn/Answers reads what GitHub answers, SignIn/Flow
-- has the service's methods, each cut where the source awaits an answer.
pub mod Answers
pub mod Flow
pub mod Poll
pub mod Runs
pub mod Invariant
pub mod Scopes
pub mod Sound
pub mod Configured
mod Tests
