-- ===== src/Jobs/Tests.antt =====
-- Concrete runners, runs of the operations on them, and the theorems at such inputs.
use memo_repo.Text.{
  dash_runs, includes, map_chars, to_upper, to_lower, trim_end_dashes, trim_start_dashes,
}
use memo_repo.EventBus.{normalize_resource, publish, put_all, resource_key}
use memo_repo.Jobs.Events.{
  write_event, notify_after_commit, flush_log_events, notify, accept_log_event, buffer_log_event,
  count_log_events, invalidated, publish_job_invalidation, store_event,
}
use mathlib.Core.Option.{some-injective}
use memo_repo.Jobs.Control.Refusal.{cancel_job-refused, retry_job-refused}
use memo_repo.Jobs.Control.{cancel_job, retry_job}
use memo_repo.Jobs.Coalesce.{active_jobs_for, holds_inputs, Coalesced, coalesce, as_requested}
use memo_repo.Jobs.Coalesce.Single.{coalesce-single, pending_count}
use memo_repo.Jobs.Tick.Capacity.{tick-fills}
use memo_repo.Jobs.Tick.Queue.{is_held, is_held_before}
use memo_repo.Jobs.Events.{flush_timer_fires, flush_all_log_events}
use memo_repo.Jobs.Events.Bounded.{
  Writing, written, timer_fired, write_all, IsBounded, write_all-IsBounded,
}
use memo_repo.Jobs.Tick.Choice.{next_runnable_job-fits, holds_nothing_back, leaves_free}
use memo_repo.Jobs.Enqueue.Refusal.{enqueue-refused}
use memo_repo.Jobs.Enqueue.{
  insert_by, replace_dependencies, Input, enqueue, enqueue_canonical, normalize_dependency_job_ids,
}
use memo_repo.Prelude.{
  ◌==◌, count_where, arith, every, ◌⊎◌, In-All, ne_of_test, set_has, map_get, map_delete, map_set,
  ℕ, String, true, false, ◌≡◌, ◌≢◌, ◌≤◌, refl, Option, none, some, List, [], ◌∷◌, In, inl, inr,
}
use memo_repo.Json.{end}
use memo_repo.Jobs.Store.{
  JobEvent, Database, is_pending, is_running, has_dependency, find_job, insert_event, update_job,
  update_jobs, Job, JobStatus, pending, running, failed,
}
use memo_repo.Jobs.Runner.{not_pending, not_retryable, bad_dependency_id, Runner, Env}
use memo_repo.Jobs.Message.{
  utf8_size, job_error_code, utf8_prefix, byte_length, truncate_event_message,
}
use memo_repo.Jobs.Exclusion.{IsNamed, conflicts}
use memo_repo.Jobs.Table.{IsOrderly}
use memo_repo.Jobs.Tick.{
  tick_loop, skip_blocked_dependents, skip_each, is_skippable, next_runnable_job, order_by_created,
  is_candidate, insert_by_created, is_blocked, start_run, blocked_by, fail, runs_in_repository,
  runs_in_space, runs_space_job, skip_job, request_tick, settle, finish_run, cancel_running, tick,
}
use memo_repo.Jobs.Reach.{idle, then, polls, Run-exclusive, Run-finished_rows_stay}

-- Identifiers and digests of a small world.
abbrev small_env : Env
small_env = record { uuid = λ n. "n"; time = λ n. n; sha256 = λ s. s; canonical = λ s. some s }

abbrev row : String → JobStatus → Option String → Option String → ℕ → Job
row id status space repository at = record {
  id = id;
  kind = "index_space_repository";
  status = status;
  space_id = space;
  space_repository_id = repository;
  depends_on_job_id = none;
  payload_json = "{}";
  deduplication_key = some id;
  error = none;
  created_at = at;
  started_at = none;
  finished_at = none;
}

abbrev runner_of : List Job → Runner
runner_of js = record {
  env = small_env;
  draws = 0;
  db = record { jobs = js; dependencies = []; job_events = [] };
  in_transaction = false;
  handlers = "index_space_repository" ∷ [];
  concurrency = 2;
  timer = true;
  active_jobs = 0;
  settling = 0;
  recovered_running_jobs = true;
  log_event_counts = [];
  saturated_log_jobs = [];
  active_controllers = [];
  pending_log_events = [];
  log_flush_timer = false;
  atomic_notifications = none;
  defer_tick_depth = 0;
  tick_requested = false;
  dashboard_events = none;
  emitted = [];
}

-- Three jobs of one space, two of them of one repository, and one that has failed.
abbrev old : Job
old = row "d" failed (some "s") (some "p") 0

abbrev waiting : Job
waiting = row "b" pending (some "s") (some "p") 2

abbrev queue : List Job
queue =
    row "a" pending (some "s") (some "p") 1
    ∷ waiting
    ∷ row "c" pending (some "s") (some "q") 3
    ∷ old
    ∷ []

-- Opens the scheduler for the runs below.
scheduler : Unit {0}
unfolding tick tick_loop skip_blocked_dependents skip_each is_skippable next_runnable_job
    order_by_created is_candidate insert_by_created is_blocked start_run blocked_by fail
    runs_in_repository runs_in_space runs_space_job skip_job request_tick settle finish_run
    cancel_running has_dependency find_job insert_event update_job update_jobs write_event
    notify_after_commit flush_log_events notify accept_log_event buffer_log_event count_log_events
    invalidated publish_job_invalidation store_event normalize_resource publish put_all resource_key
    job_error_code utf8_prefix truncate_event_message byte_length set_has map_get map_delete map_set
    dash_runs includes map_chars to_upper to_lower trim_end_dashes trim_start_dashes
scheduler = tt

statuses : List Job → List JobStatus
statuses [] = []
statuses (j ∷ js) = j.status ∷ statuses js

-- The two repositories are worked on at once; the second job of the first one waits.
tick-queue : statuses (tick (runner_of queue)).db.jobs ≡ running ∷ pending ∷ running ∷ failed ∷ []
unfolding scheduler statuses
tick-queue = refl

named_p : ◌≢◌ {A = Option String} (some "p") (some "")
named_p e = ne_of_test "p" "" refl (some-injective "p" "" e)

named_q : ◌≢◌ {A = Option String} (some "q") (some "")
named_q e = ne_of_test "q" "" refl (some-injective "q" "" e)

queue-IsOrderly : IsOrderly queue
queue-IsOrderly = record {
  distinct = (
    (ne_of_test "b" "a" refl, (ne_of_test "c" "a" refl, (ne_of_test "d" "a" refl, tt))),
    (
      (ne_of_test "c" "b" refl, (ne_of_test "d" "b" refl, tt)),
      ((ne_of_test "d" "c" refl, tt), (tt, tt)),
    ),
  );
  named = λ a m. In-All IsNamed queue a (named_p, (named_p, (named_q, (named_p, tt)))) m;
  exclusive = λ a b m k r s ne. cc (
    r,
    In-All (λ (x : Job). is_running x.status ≡ false) queue a (refl, (refl, (refl, (refl, tt)))) m,
  );
}

abbrev polled : Runner
polled = tick (runner_of queue)

abbrev started : Job → ℕ → Job
started j at = record j { status = running; started_at = some at }

Run-exclusive_example :
    conflicts
      (started (row "a" pending (some "s") (some "p") 1) 0)
      (started (row "c" pending (some "s") (some "q") 3) 2)
    ≡ false
unfolding scheduler
Run-exclusive_example =
    Run-exclusive {r = runner_of queue} {s = polled} (then idle polls) queue-IsOrderly
      (started (row "a" pending (some "s") (some "p") 1) 0)
      (started (row "c" pending (some "s") (some "q") 3) 2) (inl refl) (inr (inr (inl refl))) refl
      refl (ne_of_test "a" "c" refl)

Run-finished_rows_stay_example : In old polled.db.jobs
Run-finished_rows_stay_example =
    Run-finished_rows_stay {r = runner_of queue} {s = polled} (then idle polls) queue-IsOrderly old
      (inr (inr (inr (inl refl)))) refl

abbrev long_message : String
long_message = "indexed é"

-- A log event that is buffered, the flush, and a status.
abbrev writings : List Writing
writings = written "a" "log" long_message ∷ timer_fired ∷ written "a" "status" "running" ∷ []

test_writings :
    count_where
      (λ (e : JobEvent). e.job_id == "a")
      (write_all writings (runner_of queue)).db.job_events
    ≡ 2
unfolding scheduler write_all flush_timer_fires flush_all_log_events utf8_size
test_writings = refl

write_all-IsBounded_example : IsBounded (write_all writings (runner_of queue))
unfolding map_get
write_all-IsBounded_example =
    write_all-IsBounded writings (runner_of queue)
      (record { stored = λ e m. elim m [ ]; buffered = λ id es h e m. absurd (cc (h)) })

code_of_reindex : job_error_code "_reindex__space" ≡ "MR-JOB-REINDEX-SPACE"
unfolding scheduler
code_of_reindex = refl

tick-fills_example :
    let s = tick (runner_of queue) in
    (s.concurrency ≡ 2)
    × (s.active_jobs ≤ s.concurrency)
    × ((s.concurrency ≤ s.active_jobs)
        ⊎ ((is_held s.db.jobs waiting ≡ true)
            ⊎ (20 ≤ count_where (is_held_before s.db.jobs waiting) s.db.jobs)))
unfolding scheduler
tick-fills_example = tick-fills (runner_of queue) waiting (omega arith) (inr (inl refl)) refl

abbrev first : Job
first = row "a" pending (some "s") (some "p") 1

next_runnable_job-fits_example :
    let db = (runner_of queue).db in
    In first db.jobs
    × (is_pending first.status ≡ true)
    × (every (holds_nothing_back db first) db.dependencies ≡ true)
    × (every (leaves_free first) db.jobs ≡ true)
unfolding scheduler
next_runnable_job-fits_example = next_runnable_job-fits (runner_of queue).db first refl

-- A submission that depends on a job with no name.
abbrev nameless : Input
nameless = record {
  kind = "index_space_repository";
  payload = end;
  space_id = some "s";
  space_repository_id = some "p";
  depends_on_job_id = none;
  depends_on_job_ids = "" ∷ [];
}

enqueue-refused_example :
    ((enqueue nameless (runner_of queue)).1.db ≡ (runner_of queue).db)
    × ((enqueue nameless (runner_of queue)).1.emitted ≡ [])
unfolding scheduler enqueue enqueue_canonical normalize_dependency_job_ids
enqueue-refused_example = enqueue-refused nameless (runner_of queue) bad_dependency_id refl

-- The failed job is not to be cancelled, and the waiting one not to be retried.
cancel_job-refused_example : (cancel_job "d" (runner_of queue)).1 ≡ runner_of queue
unfolding scheduler cancel_job
cancel_job-refused_example = cancel_job-refused "d" (runner_of queue) not_pending refl

retry_job-refused_example :
    ((retry_job "a" (runner_of queue)).1.db ≡ (runner_of queue).db)
    × ((retry_job "a" (runner_of queue)).1.emitted ≡ [])
unfolding scheduler retry_job
retry_job-refused_example = retry_job-refused "a" (runner_of queue) not_retryable refl

-- A job like the first one, with other inputs: it takes the place of the pending one.
abbrev newer : Job
newer = record first { id = "e"; payload_json = "{\"inputFingerprint\":\"x\"}"; created_at = 4 }

abbrev small_db : Database
small_db = record { jobs = first ∷ []; dependencies = []; job_events = [] }

abbrev replaced : Coalesced × Database
replaced = (
  record {
    created = false;
    updated = true;
    superseded_id = none;
    job = record newer { id = "a"; created_at = 1 };
  },
  update_job "a" (as_requested newer) small_db,
)

coalesce-single_example : pending_count "index_space_repository" "s" replaced.1 ≤ 1
unfolding scheduler coalesce active_jobs_for insert_by holds_inputs replace_dependencies
coalesce-single_example = coalesce-single "s" newer [] small_db replaced refl
