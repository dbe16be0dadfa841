-- ===== src/Jobs/Tick.antt =====
-- The scheduler of jobRunner.ts: `tick` with `nextRunnableJob`, `isBlocked`, `skipBlockedDependents`
-- and the start of `run`; the end of `run` with `fail` and `cancelRunning`.
pub mod Moves
pub mod Select
pub mod Capacity
pub mod Choice
pub mod Queue
use memo_repo.Prelude.{
  ℕ, String, zero, suc, ◌-◌, Bool, true, false, not, ◌&&◌, ◌||◌, Option, none, some, List, [], ◌∷◌,
  ltb, if◌then◌else◌, is_value, filter, find?, take, any, map_set, map_get, map_delete, set_has,
}
use memo_repo.EventBus.{truthy}
use memo_repo.Text.{includes, map_chars, to_lower}
use memo_repo.Jobs.Store.{
  Job, JobStatus, running, succeeded, failed, skipped, cancelled, Database, find_job, update_job,
  has_dependency, is_pending, is_running, is_succeeded, is_unsuccessful,
}
use memo_repo.Jobs.Runner.{Runner, now, drawn}
use memo_repo.Jobs.Message.{truncate_event_message, job_error_code, ◌+++◌}
use memo_repo.Jobs.Events.{write_event}

-- `updateRecord(this.database, "jobs", …, "id", id)`
abbrev pub update_record : String → (Job → Job) → Runner → Runner
update_record id change r = record r { db = update_job id change r.db }

-- `skipBlockedDependents`
unfoldable pub is_skippable : Database → Job → Bool
is_skippable db j = is_pending j.status && has_dependency is_unsuccessful j.id db

abbrev pub as_skipped : ℕ → Job → Job
as_skipped at j = record j {
  status = skipped;
  finished_at = some at;
  error = some "Dependency did not succeed";
}

unfoldable pub skip_job : String → Runner → Runner
skip_job id r = write_event id "status" "skipped" (update_record id (as_skipped (now r)) (drawn r))

unfoldable pub skip_each : List Job → Runner → Runner
skip_each [] r = r
skip_each (j ∷ js) r = skip_each js (skip_job j.id r)

unfoldable pub skip_blocked_dependents : Runner → Runner
skip_blocked_dependents r = skip_each (filter (is_skippable r.db) r.db.jobs) r

-- ORDER BY created_at ASC
unfoldable pub insert_by_created : Job → List Job → List Job
insert_by_created j [] = j ∷ []
insert_by_created j (k ∷ ks) =
    if ltb k.created_at j.created_at then k ∷ insert_by_created j ks else j ∷ k ∷ ks

unfoldable pub order_by_created : List Job → List Job
order_by_created [] = []
order_by_created (j ∷ js) = insert_by_created j (order_by_created js)

abbrev is_unfinished : JobStatus → Bool
is_unfinished s = not (is_succeeded s)

-- The WHERE clause of `nextRunnableJob`.
unfoldable pub is_candidate : Database → Job → Bool
is_candidate db j = is_pending j.status && not (has_dependency is_unfinished j.id db)

-- `countRunning(…) > 0` for each condition that `isBlocked` counts by
unfoldable pub runs_in_repository : String → List Job → Bool
runs_in_repository id js = any (λ j. is_running j.status && is_value j.space_repository_id id) js

abbrev is_null : Option String → Bool
is_null none = true
is_null (some _) = false

unfoldable pub runs_space_job : String → List Job → Bool
runs_space_job id js =
    any (λ j. is_running j.status && (is_value j.space_id id && is_null j.space_repository_id)) js

unfoldable pub runs_in_space : String → List Job → Bool
runs_in_space id js = any (λ j. is_running j.status && is_value j.space_id id) js

unfoldable pub blocked_by : Option String → Option String → List Job → Bool
unfolding runs_in_repository runs_space_job runs_in_space
blocked_by (some repository) (some space) js =
    runs_in_repository repository js || runs_space_job space js
blocked_by (some repository) none js = runs_in_repository repository js
blocked_by none (some space) js = runs_in_space space js
blocked_by none none js = false

-- `isBlocked`; an empty identifier counts as none.
unfoldable pub is_blocked : Job → List Job → Bool
unfolding blocked_by
is_blocked c js = blocked_by (truthy c.space_repository_id) (truthy c.space_id) js

unfoldable pub next_runnable_job : Database → Option Job
next_runnable_job db =
    find? (λ c. not (is_blocked c db.jobs))
      (take 20 (order_by_created (filter (is_candidate db) db.jobs)))

abbrev pub as_failed : String → ℕ → Job → Job
as_failed message at j = record j { status = failed; error = some message; finished_at = some at }

unfoldable pub fail : String → String → String → Runner → Runner
fail id message kind r =
    let bounded = truncate_event_message ("[" +++ (job_error_code kind +++ ("] " +++ message))) in
    write_event id "status" "failed"
      (write_event id "error" bounded (update_record id (as_failed bounded (now r)) (drawn r)))

abbrev pub as_running : ℕ → Job → Job
as_running at j = record j { status = running; started_at = some at }

-- `run` up to the call of the handler. Where none is registered the run is over at once.
unfoldable pub start_run : Job → Runner → Runner
start_run j r =
    if set_has j.kind r.handlers
    then write_event j.id "status" "running" (
        update_record j.id (as_running (now r))
          (record (drawn r) { active_controllers = map_set j.id false r.active_controllers }))
    else (let over =
          fail j.id ("No handler registered for job type " +++ j.kind) j.kind (drawn r) in
        record over { settling = suc over.settling })

-- The `while` loop of `tick`: `left` is `concurrency - activeJobs`, which each round takes one from.
unfoldable pub tick_loop : ℕ → Runner → Runner
tick_loop zero r = r
tick_loop (suc left) r = elim (next_runnable_job r.db) [
  | none ↦ r
  | some j ↦ tick_loop left (start_run j (record r { active_jobs = suc r.active_jobs }))
]

unfoldable pub tick : Runner → Runner
tick r =
    let ready = skip_blocked_dependents r in tick_loop (ready.concurrency - ready.active_jobs) ready

-- The `finally` callback in `tick`, for one run that is over.
unfoldable pub settle : Runner → Runner
settle r = tick (record r { settling = r.settling - 1; active_jobs = r.active_jobs - 1 })

unfoldable pub request_tick : Runner → Runner
request_tick r = if ltb 0 r.defer_tick_depth then record r { tick_requested = true } else tick r

abbrev pub as_cancelled : String → ℕ → Job → Job
as_cancelled message at j = record j {
  status = cancelled;
  error = some message;
  finished_at = some at;
}

unfoldable pub cancel_running : String → Runner → Runner
cancel_running id r = skip_blocked_dependents (
    write_event id "status" "cancelled"
      (update_record id (as_cancelled "[MR-JOB-CANCELLED] Cancelled by user" (now r)) (drawn r)))

-- What a handler's promise comes to. `thrown` is an `Error` with its name and message.
pub data Outcome : Type 0 where
  returned : Outcome
  thrown : String → String → Outcome
  thrown_value : String → Outcome

abbrev is_abort_text : String → Bool
is_abort_text s = includes s "abort" || includes s "cancel"

-- `isAbortError`
unfoldable pub is_abort_error : Outcome → Bool
is_abort_error (thrown name message) =
    is_abort_text (map_chars to_lower (name +++ (" " +++ message)))
is_abort_error _ = false

abbrev error_text : Outcome → String
error_text returned = ""
error_text (thrown name message) = message
error_text (thrown_value text) = text

abbrev flag_set : Option Bool → Bool
flag_set none = false
flag_set (some b) = b

abbrev pub is_running_job : Option Job → Bool
is_running_job none = false
is_running_job (some j) = is_running j.status

abbrev pub as_succeeded : ℕ → Job → Job
as_succeeded at j = record j { status = succeeded; finished_at = some at }

-- The part of `run` behind the `await`, but for `finally`.
unfoldable pub conclude : Job → Outcome → Runner → Runner
unfolding is_abort_error
conclude j returned r =
    let aborted = flag_set (map_get j.id r.active_controllers) in
    if is_running_job (find_job j.id r.db.jobs)
    then (if aborted
        then cancel_running j.id (drawn r)
        else write_event j.id "status" "succeeded"
            (update_record j.id (as_succeeded (now r)) (drawn r)))
    else drawn r
conclude j out r =
    let aborted = flag_set (map_get j.id r.active_controllers) in
    if is_running_job (find_job j.id r.db.jobs)
    then (if aborted || is_abort_error out
        then cancel_running j.id r
        else fail j.id (error_text out) j.kind r)
    else r

unfoldable pub finish_run : Job → Outcome → Runner → Runner
unfolding conclude
finish_run j out r =
    let over = conclude j out r in
    record over {
      active_controllers = map_delete j.id over.active_controllers;
      settling = suc over.settling;
    }
