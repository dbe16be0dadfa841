-- ===== src/Spaces/Deletion/Statements.antt =====
-- The statements that delete the rows of a space (apps/api/src/services/spaceService.ts), each with the checks of the foreign keys of apps/api/src/db/schema.ts.
use memo_repo.Prelude.{
  String, Bool, false, not, ◌&&◌, ◌||◌, Option, none, some, ◌==◌, if◌then◌else◌, any, filter,
  is_value,
}
use memo_repo.Jobs.Store.{Job, JobEvent, Dependency, is_active}
use memo_repo.ToolStats.{McpToolStat}
use memo_repo.Spaces.Store.{
  Tables, Space, SpaceRepository, SpaceSnapshot, RepoIndex, McpConnection, AgentChat, AgentTurn,
}

abbrev pub is_in_space : String → SpaceRepository → Bool
is_in_space space r = r.space_id == space

-- space_repository_id IN (SELECT id FROM space_repositories WHERE space_id = ?)
abbrev pub is_repository_of : Tables → String → String → Bool
is_repository_of t space id =
    any (λ (r : SpaceRepository). r.id == id && is_in_space space r) t.space_repositories

-- The jobs of the space itself and those of its repositories.
abbrev pub is_job_of : Tables → String → Job → Bool
is_job_of t space j =
    is_value j.space_id space
    || elim j.space_repository_id [ none ↦ false | some id ↦ is_repository_of t space id ]

abbrev pub is_event_of : Tables → String → JobEvent → Bool
is_event_of t space e = any (λ (j : Job). j.id == e.job_id && is_job_of t space j) t.jobs

abbrev pub is_dependency_of : Tables → String → Dependency → Bool
is_dependency_of t space d =
    any (λ (j : Job). j.id == d.job_id && is_job_of t space j) t.jobs
    || any (λ (j : Job). j.id == d.dependency_job_id && is_job_of t space j) t.jobs

abbrev pub is_turn_of : Tables → String → AgentTurn → Bool
is_turn_of t space x =
    any (λ (c : AgentChat). c.id == x.chat_id && c.space_id == space) t.agent_chats

abbrev pub uses_session : String → AgentChat → Bool
uses_session id c = is_value c.account_session_id id

-- status IN ('queued', 'pending', 'running')
abbrev pub is_active_turn : AgentTurn → Bool
is_active_turn x = x.status == "queued" || x.status == "pending" || x.status == "running"

-- `assertNoActiveAgentTurns` throws.
abbrev pub has_active_turns : Tables → String → Bool
has_active_turns t space = any (λ x. is_turn_of t space x && is_active_turn x) t.agent_turns

-- `assertNoActiveSpaceJobs` throws.
abbrev pub has_active_jobs : Tables → String → Bool
has_active_jobs t space = any (λ (j : Job). is_job_of t space j && is_active j.status) t.jobs

-- DELETE FROM job_events, to which no row refers
unfoldable pub delete_job_events : String → Tables → Option Tables
delete_job_events space t =
    some (record t { job_events = filter (λ e. not (is_event_of t space e)) t.job_events })

-- DELETE FROM jobs; the dependencies go along, and an event that is left refuses.
unfoldable pub delete_jobs : String → Tables → Option Tables
delete_jobs space t =
    if any (is_event_of t space) t.job_events
    then none
    else some (record t {
      job_dependencies = filter (λ d. not (is_dependency_of t space d)) t.job_dependencies;
      jobs = filter (λ j. not (is_job_of t space j)) t.jobs;
    })

unfoldable pub delete_tool_stats : String → Tables → Option Tables
delete_tool_stats space t = some (record t {
  mcp_tool_stats = filter (λ (s : McpToolStat). not (s.space_id == space)) t.mcp_tool_stats;
})

unfoldable pub delete_connections : String → Tables → Option Tables
delete_connections space t = some (record t {
  mcp_connections = filter (λ (c : McpConnection). not (c.space_id == space)) t.mcp_connections;
})

abbrev pub is_index_of : Tables → String → RepoIndex → Bool
is_index_of t space i = is_repository_of t space i.space_repository_id

unfoldable pub delete_indexes : String → Tables → Option Tables
delete_indexes space t =
    some (record t { repo_indexes = filter (λ i. not (is_index_of t space i)) t.repo_indexes })

unfoldable pub delete_snapshots : String → Tables → Option Tables
delete_snapshots space t = some (record t {
  space_snapshots = filter (λ (s : SpaceSnapshot). not (s.space_id == space)) t.space_snapshots;
})

-- DELETE FROM space_repositories, which an index that is left refuses
unfoldable pub delete_repositories : String → Tables → Option Tables
delete_repositories space t =
    if any (is_index_of t space) t.repo_indexes
    then none
    else some (record t {
      space_repositories = filter (λ r. not (is_in_space space r)) t.space_repositories;
    })

abbrev pub has_space : String → Tables → Bool
has_space space t = any (λ (s : Space). s.id == space) t.spaces

-- The rows that refer to a space by a key that does not cascade.
abbrev pub has_owned_rows : String → Tables → Bool
has_owned_rows space t =
    any (is_in_space space) t.space_repositories
    || (any (λ (s : SpaceSnapshot). s.space_id == space) t.space_snapshots
        || (any (λ (c : McpConnection). c.space_id == space) t.mcp_connections
            || any (λ (s : McpToolStat). s.space_id == space) t.mcp_tool_stats))

-- DELETE FROM spaces; the chats go along with their turns, and another row of the space refuses.
unfoldable pub delete_space_row : String → Tables → Option Tables
delete_space_row space t =
    if has_owned_rows space t && has_space space t
    then none
    else some (record t {
      spaces = filter (λ (s : Space). not (s.id == space)) t.spaces;
      agent_chats = filter (λ (c : AgentChat). not (c.space_id == space)) t.agent_chats;
      agent_turns = filter (λ x. not (is_turn_of t space x)) t.agent_turns;
    })

abbrev pub is_used : Tables → String → Bool
is_used t id = any (uses_session id) t.agent_chats

-- Whether the chat's session is one that no chat uses.
abbrev pub uses_deleted : Tables → AgentChat → Bool
uses_deleted t c = any (λ id. uses_session id c && not (is_used t id)) t.agent_account_sessions

-- DELETE FROM agent_account_sessions WHERE NOT EXISTS …, which a chat of a deleted session refuses
unfoldable pub delete_sessions : Tables → Option Tables
delete_sessions t =
    if any (uses_deleted t) t.agent_chats
    then none
    else some (record t { agent_account_sessions = filter (is_used t) t.agent_account_sessions })
