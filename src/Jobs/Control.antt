-- ===== src/Jobs/Control.antt =====
-- The other operations of `JobRunner` in jobRunner.ts: `retryJob`, `cancelJob`,
-- `recoverRunningJobs`, `start`, `stop`, `runAtomically`, `register` and the reads.
pub mod Moves
pub mod Refusal
use memo_repo.Prelude.{
  ℕ, String, suc, ◌-◌, Bool, true, false, ◌&&◌, Option, none, some, List, [], ◌∷◌, ◌++◌, ◌==◌, ◌=?◌,
  if◌then◌else◌, filter, map_get, map_set, length, set_has,
}
use memo_repo.Json.{end}
use memo_repo.Jobs.Store.{
  Job, JobEvent, Database, find_job, is_running, is_pending, is_unsuccessful,
}
use memo_repo.Jobs.Runner.{
  Runner, Result, ok, err, now, drawn, bad_payload, job_not_found, not_retryable, not_pending,
  no_controller,
}
use memo_repo.Jobs.Message.{◌+++◌}
use memo_repo.Jobs.Events.{write_event, flush_log_events, flush_all_log_events, notify}
use memo_repo.Jobs.Tick.{update_record, as_failed, as_cancelled, skip_blocked_dependents, tick}
use memo_repo.Jobs.Coalesce.{enqueue_coalesced}
use memo_repo.Jobs.Enqueue.{Input, enqueue, enqueue_canonical}

unfoldable pub register : String → Runner → Runner
register kind r =
    if set_has kind r.handlers then r else record r { handlers = r.handlers ++ kind ∷ [] }

report_retry : Job → Result Job × Runner → Result Job × Runner
report_retry j (err e, r) = (err e, r)
report_retry j (ok retry, r) =
    (ok retry, write_event j.id "retry" ("Retry enqueued as " +++ retry.id) r)

-- The submission that a retry makes; the text of its payload goes beside it.
abbrev pub again : Job → Input
again j = record {
  kind = j.kind;
  payload = end;
  space_id = j.space_id;
  space_repository_id = j.space_repository_id;
  depends_on_job_id = none;
  depends_on_job_ids = [];
}

-- Behind `JSON.parse`, which throws on a text that is none.
resubmit : Job → Option String → Runner → Result Job × Runner
unfolding report_retry
resubmit j none r = (err bad_payload, r)
resubmit j (some text) r = report_retry j (enqueue_canonical (again j) text r)

retry_found : Option Job → Runner → Result Job × Runner
unfolding resubmit
retry_found none r = (err job_not_found, r)
retry_found (some j) r =
    if is_unsuccessful j.status
    then resubmit j (r.env.canonical j.payload_json) r
    else (err not_retryable, r)

unfoldable pub retry_job : String → Runner → Result Job × Runner
unfolding retry_found
retry_job id r = retry_found (find_job id r.db.jobs) r

abort_controller : Job → Option Bool → Runner → Result (Option Job) × Runner
abort_controller j none r = (err no_controller, r)
abort_controller j (some true) r = (ok (find_job j.id r.db.jobs), r)
abort_controller j (some false) r =
    let noted =
      write_event j.id "cancellation_requested"
        "Cancellation requested; stopping the active operation" r in
    let aborted : Runner = record noted {
      active_controllers = map_set j.id true noted.active_controllers;
    } in
    (ok (find_job j.id aborted.db.jobs), aborted)

cancel_pending : Job → Runner → Runner
cancel_pending j r = skip_blocked_dependents (
    write_event j.id "status" "cancelled" (
      update_record j.id (as_cancelled "[MR-JOB-CANCELLED] Cancelled before start" (now r))
        (drawn r)))

cancel_found : Option Job → Runner → Result (Option Job) × Runner
unfolding abort_controller cancel_pending
cancel_found none r = (err job_not_found, r)
cancel_found (some j) r =
    if is_running j.status
    then abort_controller j (map_get j.id r.active_controllers) r
    else if is_pending j.status
    then (let done = cancel_pending j r in (ok (find_job j.id done.db.jobs), done))
    else (err not_pending, r)

unfoldable pub cancel_job : String → Runner → Result (Option Job) × Runner
unfolding cancel_found
cancel_job id r = cancel_found (find_job id r.db.jobs) r

abbrev restarted_message : String
restarted_message = "MemoRepo restarted before this job finished"

recover_each : ℕ → List Job → Runner → Runner
recover_each at [] r = r
recover_each at (j ∷ js) r = recover_each at js (
    write_event j.id "status" "failed" (
      write_event j.id "error" restarted_message
        (update_record j.id (as_failed restarted_message at) r)))

recover_unless : Bool → Runner → ℕ × Runner
unfolding recover_each
recover_unless true r = (0, r)
recover_unless false r =
    let stale = filter (λ j. is_running j.status) r.db.jobs in
    (length stale, recover_each (now r) stale (record (drawn r) { recovered_running_jobs = true }))

unfoldable pub recover_running_jobs : Runner → ℕ × Runner
unfolding recover_unless
recover_running_jobs r = recover_unless r.recovered_running_jobs r

start_unless : Bool → Runner → Runner
start_unless true r = r
start_unless false r = tick (record (recover_running_jobs r).1 { timer = true })

unfoldable pub start : Runner → Runner
unfolding start_unless recover_running_jobs
start r = start_unless r.timer r

unfoldable pub stop : Runner → Runner
stop r = flush_all_log_events (record r { timer = false; log_flush_timer = false })

-- `getJobEvents`, but for the order of its rows
unfoldable pub get_job_events : String → Runner → List JobEvent × Runner
get_job_events id r =
    let flushed = flush_log_events id r in
    (filter (λ e. e.job_id == id) flushed.db.job_events, flushed)

notify_each : List JobEvent → Runner → Runner
notify_each [] r = r
notify_each (e ∷ es) r = notify_each es (notify e r)

abbrev or_nil : Option (List JobEvent) → List JobEvent
or_nil none = []
or_nil (some es) = es

-- The `finally` block of `runAtomically`.
leave : Option (List JobEvent) → Runner → Runner
leave previous r =
    let depth = r.defer_tick_depth - 1 in
    let left : Runner = record r { atomic_notifications = previous; defer_tick_depth = depth } in
    if depth =? 0 && r.tick_requested then tick (record left { tick_requested = false }) else left

abbrev enter_transaction : Runner → Runner
enter_transaction r = record r {
  in_transaction = true;
  atomic_notifications = some [];
  defer_tick_depth = suc r.defer_tick_depth;
}

module _ {A : Type 0} where
  close_transaction : Database → Option (List JobEvent) → Result A × Runner → Result A × Runner
  unfolding leave notify_each
  close_transaction before previous (err e, r) =
      (err e, leave previous (record r { db = before; in_transaction = false }))
  close_transaction before previous (ok a, r) = (
    ok a,
    leave previous (
        notify_each (or_nil r.atomic_notifications)
          (record r { in_transaction = false; atomic_notifications = previous })),
  )

  run_unless : Bool → (Runner → Result A × Runner) → Runner → Result A × Runner
  unfolding close_transaction
  run_unless true operation r = operation r
  run_unless false operation r =
      close_transaction r.db r.atomic_notifications (operation (enter_transaction r))

  -- A transaction that throws is rolled back: the tables are as before, all else is kept.
  unfoldable pub run_atomically : (Runner → Result A × Runner) → Runner → Result A × Runner
  unfolding run_unless
  run_atomically operation r = run_unless r.in_transaction operation r

-- A submission by `enqueue`, or by `enqueueCoalesced` with its space and its fingerprint.
pub data Submission : Type 0 where
  plain : Input → Submission
  coalesced : Input → String → String → Submission

unfoldable pub submit : Submission → Runner → Result Job × Runner
submit (plain i) r = enqueue i r
submit (coalesced i space fingerprint) r = enqueue_coalesced i space fingerprint r

-- A client's transaction that submits jobs one after the other; the first that throws ends it.
-- Its result is that of the last submission, or of the one that threw.
unfoldable pub submit_all : Submission → List Submission → Runner → Result Job × Runner
submit_all i [] r = submit i r
submit_all i (j ∷ js) r =
    let (m, r') = submit i r in
    let rest = submit_all j js r' in elim m [ err e ↦ (err e, r') | ok x ↦ rest ]
