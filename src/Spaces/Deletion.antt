-- ===== src/Spaces/Deletion.antt =====
-- The deletion of a space's rows: `deleteSpace` and `deleteSpaceWithManagedData` of
-- apps/api/src/services/spaceService.ts, statement by statement. A statement is refused where a row is left that
-- refers to one it deletes, by the foreign keys of apps/api/src/db/schema.ts; those that cascade take job
-- dependencies, chats and turns along.
pub mod Closed
pub mod Statements
use memo_repo.Prelude.{
  find?, ℕ, String, Bool, true, false, not, ◌&&◌, ◌||◌, Option, none, some, List, [], ◌∷◌, ◌⊎◌, inl,
  inr, ◌==◌, ◌=?◌, if◌then◌else◌, any, filter, length, is_value,
}
use memo_repo.Jobs.Store.{Job, JobEvent, Dependency, is_active}
use memo_repo.ToolStats.{McpToolStat}
use memo_repo.Spaces.Store.{
  Tables, Space, SpaceRepository, SpaceSnapshot, RepoIndex, McpConnection, AgentChat, AgentTurn,
}
use memo_repo.Spaces.Deletion.Statements.{
  has_active_jobs, delete_job_events, is_in_space, delete_connections, delete_snapshots,
  delete_repositories, delete_jobs, has_space, delete_sessions, is_index_of, delete_indexes,
  delete_space_row, has_active_turns, delete_tool_stats,
}

infixl 5 ◌>=>◌
-- A statement behind others; where one is refused, the transaction is rolled back.
abbrev pub ◌>=>◌ : Option Tables → (Tables → Option Tables) → Option Tables
none >=> next = none
some t >=> next = next t

-- The statements of the transaction of `deleteSpaceWithManagedData`, in their order
unfoldable pub delete_rows : String → Tables → Option Tables
delete_rows space t =
    delete_job_events space t
    >=> delete_jobs space
    >=> delete_tool_stats space
    >=> delete_connections space
    >=> delete_indexes space
    >=> delete_snapshots space
    >=> delete_repositories space
    >=> delete_space_row space
    >=> delete_sessions

-- What is written to the journal before the rows go: the paths that are to be deleted behind them. Its version and
-- time are left out.
pub record Tombstone : Type 0 where
  pub space_id : String
  pub clone_paths : List String
  pub repo_index_paths : List String
  pub snapshot_artifact_paths : List String
  pub space_root_path : Option String

-- `SELECT DISTINCT`
unfoldable pub distinct_paths : List String → List String
distinct_paths [] = []
distinct_paths (s ∷ ss) =
    let rest = distinct_paths ss in if any (λ t. t == s) rest then rest else s ∷ rest

abbrev pub map_rows : {A : Type 0} → (A → String) → List A → List String
map_rows f [] = []
map_rows f (x ∷ xs) = f x ∷ map_rows f xs

unfoldable pub tombstone : String → Tables → Tombstone
tombstone space t = record {
  space_id = space;
  clone_paths =
      map_rows (λ (r : SpaceRepository). r.local_path)
        (filter (is_in_space space) t.space_repositories);
  repo_index_paths =
      distinct_paths
        (map_rows (λ (i : RepoIndex). i.cache_path) (filter (is_index_of t space) t.repo_indexes));
  snapshot_artifact_paths =
      map_rows (λ (s : SpaceSnapshot). s.artifact_path)
        (filter (λ (s : SpaceSnapshot). s.space_id == space) t.space_snapshots);
  space_root_path = elim (find? (λ (s : Space). s.id == space) t.spaces) [
    | none ↦ none
    | some s ↦ some s.root_path
  ];
}

-- What happens outside the tables: whether the sessions of the artifacts are closed without an error, and
-- whether the paths are accepted and the journal is written.
pub record Outside : Type 0 where
  pub closes : List String → Bool
  pub writes : Tombstone → Bool

pub data Refusal : Type 0 where
  space_not_found has_contents active_jobs active_turns : Refusal
  session_not_closed journal_not_written foreign_key : Refusal

abbrev pub committed : Option Tables → Refusal ⊎ Tables
committed none = inl foreign_key
committed (some t) = inr t

-- The last checks and the transaction, between which nothing is awaited; the checks inside the transaction see
-- the same tables.
unfoldable pub delete_checked : String → Tables → Refusal ⊎ Tables
delete_checked space t =
    if has_active_jobs t space
    then inl active_jobs
    else if has_active_turns t space
    then inl active_turns
    else committed (delete_rows space t)

-- `deleteSpaceWithManagedData` under the bar of `beginSpaceDeletion`: it reads and checks the tables `before`,
-- waits for the readers and for the sessions of the snapshots, writes the journal, and deletes from the tables
-- `t` that it finds then.
unfoldable pub delete_space_with_managed_data :
    Outside → String → Tables → Tables → Refusal ⊎ Tables
delete_space_with_managed_data o space before t =
    let journal = tombstone space before in
    if not (has_space space before)
    then inl space_not_found
    else if has_active_jobs before space
    then inl active_jobs
    else if has_active_turns before space
    then inl active_turns
    else if not (o.closes journal.snapshot_artifact_paths)
    then inl session_not_closed
    else if not (o.writes journal)
    then inl journal_not_written
    else delete_checked space t

-- The statements of `deleteSpace`, in their order
unfoldable pub delete_empty_rows : String → Tables → Option Tables
delete_empty_rows space t =
    delete_tool_stats space t
    >=> delete_connections space
    >=> delete_space_row space
    >=> delete_sessions

-- `deleteSpace` on the tables, of a space whose deletion is not under way
unfoldable pub delete_space : String → Tables → Refusal ⊎ Tables
delete_space space t =
    if not (has_space space t)
    then inl space_not_found
    else if has_active_turns t space
    then inl active_turns
    else if any (is_in_space space) t.space_repositories
        || any (λ (s : SpaceSnapshot). s.space_id == space) t.space_snapshots
        || any (λ (j : Job). is_value j.space_id space) t.jobs
    then inl has_contents
    else committed (delete_empty_rows space t)
