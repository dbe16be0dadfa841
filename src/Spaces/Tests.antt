-- ===== src/Spaces/Tests.antt =====
-- Two spaces, one of which is deleted, and a repository that is added and removed.
use memo_repo.Prelude.{
  not, ◌==◌, String, true, false, Option, none, some, List, [], ◌∷◌, ◌≡◌, refl, any, arith,
}
use memo_repo.Jobs.Store.{Job, JobEvent, succeeded}
use memo_repo.Spaces.Store.{Tables, Space, SpaceRepository}
use memo_repo.Spaces.Deletion.{Outside, Tombstone}
use memo_repo.Spaces.Deletion.Statements.{delete_repositories}
use memo_repo.Spaces.Deletion.Closed.References.{rows_left}
use memo_repo.Spaces.Repositories.{Files, new_repository}
use memo_repo.Spaces.Repositories.Live.{IsTidy}
use memo_repo.Spaces.Repositories.Requests.{
  Request, add, remove, clean, reconcile, perform_all, perform_all-IsTidy,
}

abbrev space : String → Option String → Space
space id snapshot = record {
  id = id;
  name = id;
  slug = id;
  root_path = id;
  active_snapshot_id = snapshot;
  snapshot_status = "ready";
  snapshot_status_updated_at = 0;
  created_at = 0;
  updated_at = 0;
}

abbrev repository : SpaceRepository
repository = new_repository "p" "s" "g" "s/p" 0

abbrev job : String → Option String → Option String → Job
job id of_space of_repository = record {
  id = id;
  kind = "k";
  status = succeeded;
  space_id = of_space;
  space_repository_id = of_repository;
  depends_on_job_id = none;
  payload_json = "{}";
  deduplication_key = none;
  error = none;
  created_at = 0;
  started_at = none;
  finished_at = none;
}

abbrev event : String → String → JobEvent
event id of_job = record {
  id = id;
  job_id = of_job;
  event_type = "log";
  message = "";
  created_at = 0;
}

abbrev tables : Tables
tables = record {
  spaces = space "s" none ∷ space "r" (some "n") ∷ [];
  github_repositories = record { id = "g"; owner = "octo"; name = "hello" } ∷ [];
  space_repositories = repository ∷ [];
  space_snapshots =
      record { id = "n"; space_id = "r"; status = "active"; artifact_path = "n" } ∷ [];
  repo_indexes = record { id = "i"; space_repository_id = "p"; cache_path = "i" } ∷ [];
  jobs = job "a" none (some "p") ∷ job "b" (some "r") none ∷ [];
  job_dependencies = record { job_id = "b"; dependency_job_id = "a"; created_at = 0 } ∷ [];
  job_events = event "e" "a" ∷ event "f" "b" ∷ [];
  mcp_connections = record { id = "c"; space_id = "s" } ∷ [];
  mcp_tool_stats = [];
  agent_chats = record { id = "h"; space_id = "s"; account_session_id = some "z" } ∷ [];
  agent_turns = record { id = "t"; chat_id = "h"; status = "completed" } ∷ [];
  agent_account_sessions = "z" ∷ [];
}

abbrev left : Tables
left = rows_left "s" tables

test_left_jobs : left.jobs ≡ job "b" (some "r") none ∷ []
unfolding rows_left new_repository
test_left_jobs = refl

-- With the repositories before their jobs, the jobs would stay and an index refuse the statement.
test_order : delete_repositories "s" tables ≡ none
unfolding delete_repositories new_repository
test_order = refl

abbrev outside : Outside
outside = record {
  closes = λ paths. not (any (λ p. p == "n") paths);
  writes = λ (j : Tombstone). any (λ p. p == "s/p") j.clone_paths;
}

abbrev files : Files
files = record {
  to_lower_case = λ s. s;
  join = λ s t. t;
  assert_inside = λ s. some s;
  exists = λ s. false;
  is_deletable = λ s. true;
}

abbrev requests : List Request
requests =
    add "q" 1 "s" "g"
    ∷ add "q" 2 "r" "g"
    ∷ remove "q" 3
    ∷ clean "q" 4
    ∷ reconcile "r" 5
    ∷ add "x" 5 "r" "g"
    ∷ []

perform_all-IsTidy_example : IsTidy (perform_all files requests tables)
unfolding new_repository
perform_all-IsTidy_example =
    perform_all-IsTidy files requests tables (record { once = λ s g. ground arith; out = refl })
