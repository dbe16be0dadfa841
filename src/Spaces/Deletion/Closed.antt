-- ===== src/Spaces/Deletion/Closed.antt =====
-- The deletion of a space leaves no reference open.
pub mod References
use memo_repo.Prelude.{
  ◌||◌, [], ◌∷◌, sym, In-filter, In-filter_intro, any-eq-false, eq_iff, eq_refl,
}
use memo_repo.Jobs.Store.{Job, JobEvent, Dependency}
use memo_repo.Spaces.Store.{SpaceRepository, RepoIndex, AgentChat, AgentTurn}
use memo_repo.Spaces.Deletion.Statements.{is_repository_of, is_dependency_of, is_turn_of}
