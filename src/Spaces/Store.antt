-- ===== src/Spaces/Store.antt =====
-- The tables that `SpaceService` (apps/api/src/services/spaceService.ts) reads and writes, by
-- apps/api/src/db/schema.ts. Columns that none of its operations reads or writes on its own are left out.
use memo_repo.Prelude.{ℕ, String, Bool, Option, List}
use memo_repo.Jobs.Store.{Job, JobEvent, Dependency}
use memo_repo.ToolStats.{McpToolStat}

pub record Space : Type 0 where
  pub id : String
  pub name : String
  pub slug : String
  pub root_path : String
  pub active_snapshot_id : Option String
  pub snapshot_status : String
  pub snapshot_status_updated_at : ℕ
  pub created_at : ℕ
  pub updated_at : ℕ

pub record SpaceRepository : Type 0 where
  pub id : String
  pub space_id : String
  pub github_repository_id : String
  pub local_path : String
  pub selected_commit : Option String
  pub remote_ref : Option String
  pub clone_status : String
  pub index_status : String
  pub snapshot_included : Bool
  pub last_error : Option String
  pub removed_at : Option ℕ
  pub created_at : ℕ
  pub updated_at : ℕ

pub record SpaceSnapshot : Type 0 where
  pub id : String
  pub space_id : String
  pub status : String
  pub artifact_path : String

pub record RepoIndex : Type 0 where
  pub id : String
  pub space_repository_id : String
  pub cache_path : String

pub record GithubRepository : Type 0 where
  pub id : String
  pub owner : String
  pub name : String

pub record McpConnection : Type 0 where
  pub id : String
  pub space_id : String

pub record AgentChat : Type 0 where
  pub id : String
  pub space_id : String
  pub account_session_id : Option String

pub record AgentTurn : Type 0 where
  pub id : String
  pub chat_id : String
  pub status : String

pub record Tables : Type 0 where
  pub spaces : List Space
  pub github_repositories : List GithubRepository
  pub space_repositories : List SpaceRepository
  pub space_snapshots : List SpaceSnapshot
  pub repo_indexes : List RepoIndex
  pub jobs : List Job
  pub job_dependencies : List Dependency
  pub job_events : List JobEvent
  pub mcp_connections : List McpConnection
  pub mcp_tool_stats : List McpToolStat
  pub agent_chats : List AgentChat
  pub agent_turns : List AgentTurn
  -- The ids of `agent_account_sessions`.
  pub agent_account_sessions : List String
