-- ===== src/Jobs/Store.antt =====
-- The tables `jobs`, `job_dependencies` and `job_events` that jobRunner.ts reads and writes, with
-- the constraints of db/schema.ts and db/migrate.ts that can refuse a write.
pub mod Rows
use memo_repo.Prelude.{
  ◌++◌, ℕ, String, Bool, true, false, ◌&&◌, ◌||◌, Option, none, some, List, [], ◌∷◌, any, ◌==◌,
  if◌then◌else◌,
}

pub data JobStatus : Type 0 where
  pending running succeeded failed skipped cancelled : JobStatus

-- A row of `jobs` (`JobRow`, and `JobRecord` with its key). A timestamp is its milliseconds.
pub record Job : Type 0 where
  pub id : String
  pub kind : String  -- the column `type`
  pub status : JobStatus
  pub space_id : Option String
  pub space_repository_id : Option String
  pub depends_on_job_id : Option String
  pub payload_json : String
  pub deduplication_key : Option String
  pub error : Option String
  pub created_at : ℕ
  pub started_at : Option ℕ
  pub finished_at : Option ℕ

pub record Dependency : Type 0 where
  pub job_id : String
  pub dependency_job_id : String
  pub created_at : ℕ

-- A row of `job_events` (`JobEventRecord`).
pub record JobEvent : Type 0 where
  pub id : String
  pub job_id : String
  pub event_type : String
  pub message : String
  pub created_at : ℕ

-- Rows stand in the order in which they were inserted.
pub record Database : Type 0 where
  pub jobs : List Job
  pub dependencies : List Dependency
  pub job_events : List JobEvent

abbrev pub is_pending : JobStatus → Bool
is_pending pending = true
is_pending _ = false

abbrev pub is_running : JobStatus → Bool
is_running running = true
is_running _ = false

abbrev pub is_succeeded : JobStatus → Bool
is_succeeded succeeded = true
is_succeeded _ = false

-- status IN ('pending', 'running')
abbrev pub is_active : JobStatus → Bool
is_active s = is_pending s || is_running s

-- status IN ('failed', 'skipped', 'cancelled')
abbrev pub is_unsuccessful : JobStatus → Bool
is_unsuccessful failed = true
is_unsuccessful skipped = true
is_unsuccessful cancelled = true
is_unsuccessful _ = false

-- SELECT … FROM jobs WHERE id = ?
unfoldable pub find_job : String → List Job → Option Job
find_job id [] = none
find_job id (j ∷ js) = if j.id == id then some j else find_job id js

-- UPDATE jobs SET … WHERE id = ?
unfoldable pub update_jobs : String → (Job → Job) → List Job → List Job
update_jobs id change [] = []
update_jobs id change (j ∷ js) = (if j.id == id then change j else j) ∷ update_jobs id change js

unfoldable pub update_job : String → (Job → Job) → Database → Database
update_job id change db = record db { jobs = update_jobs id change db.jobs }

abbrev pub job_status_meets : (JobStatus → Bool) → Option Job → Bool
job_status_meets test none = false
job_status_meets test (some d) = test d.status

-- Whether a row of `job_dependencies` of the job, joined with `jobs`, has such a status.
unfoldable pub has_dependency : (JobStatus → Bool) → String → Database → Bool
unfolding find_job
has_dependency test id db =
    any (λ r. (r.job_id == id) && job_status_meets test (find_job r.dependency_job_id db.jobs))
      db.dependencies

-- INSERT INTO job_events
unfoldable pub insert_event : JobEvent → Database → Database
insert_event e db = record db { job_events = db.job_events ++ e ∷ [] }
