-- ===== src/Jobs/Events.antt =====
-- `writeEvent` of jobRunner.ts and what it calls: the bound on log events, the log buffer and the
-- notifications. A row of `job_events` is taken to be inserted: its job is there, and its
-- identifier is random.
pub mod Frame
pub mod Bounded
use memo_repo.Prelude.{
  ℕ, String, suc, Bool, true, false, ◌&&◌, ◌||◌, Option, none, some, List, [], ◌∷◌, ◌++◌, ltb, ◌==◌,
  if◌then◌else◌, count_where, map_get, map_set, map_delete, keys, set_has,
}
use memo_repo.Text.{includes}
use memo_repo.EventBus
use memo_repo.EventBus.{Bus, Resource, publish, truthy}
use memo_repo.Jobs.Store.{Job, JobEvent, Database, find_job, insert_event, is_succeeded}
use memo_repo.Jobs.Runner.{Runner, create_id, now, drawn}
use memo_repo.Jobs.Message.{truncate_event_message}

abbrev pub job_log_event_max_count : ℕ
job_log_event_max_count = 500

-- JOB_LOG_TRUNCATED_EVENT_TYPE
abbrev pub log_truncated : String
log_truncated = "log_truncated"

abbrev pub is_log_of : String → JobEvent → Bool
is_log_of job_id e = e.job_id == job_id && e.event_type == "log"

-- `countLogEvents`
unfoldable pub count_log_events : String → Database → ℕ
count_log_events job_id db = count_where (is_log_of job_id) db.job_events

abbrev insert_events : List JobEvent → Database → Database
insert_events es db = record db { job_events = db.job_events ++ es }

flush_pending : String → Option (List JobEvent) → Runner → Runner
flush_pending job_id none r = r
flush_pending job_id (some []) r = r
flush_pending job_id (some (e ∷ es)) r = record r {
  pending_log_events = map_delete job_id r.pending_log_events;
  db = insert_events (e ∷ es) r.db;
}

unfoldable pub flush_log_events : String → Runner → Runner
unfolding flush_pending
flush_log_events job_id r = flush_pending job_id (map_get job_id r.pending_log_events) r

flush_each : List String → Runner → Runner
flush_each [] r = r
flush_each (k ∷ ks) r = flush_each ks (flush_log_events k r)

unfoldable pub flush_all_log_events : Runner → Runner
unfolding flush_each
flush_all_log_events r = flush_each (keys r.pending_log_events) r

-- `scheduleLogFlush`; the timer fires as `flush_timer_fires`.
abbrev schedule_log_flush : Runner → Runner
schedule_log_flush r = record r { log_flush_timer = true }

unfoldable pub flush_timer_fires : Runner → Runner
unfolding flush_all_log_events
flush_timer_fires r = flush_all_log_events (record r { log_flush_timer = false })

abbrev type_is_snapshot_related : String → Bool
type_is_snapshot_related kind =
    includes kind "snapshot"
    || includes kind "reindex"
    || includes kind "repository"
    || includes kind "checkout"

abbrev resource : EventBus.ResourceType → Option String → Option String → Resource
resource kind space_id job_id = record {
  kind = kind;
  space_id = space_id;
  job_id = job_id;
  chat_id = none;
}

abbrev when : Bool → Resource → List Resource
when true x = x ∷ []
when false x = []

abbrev space_resources : Option String → Bool → List Resource
space_resources none changed = []
space_resources (some s) changed =
    resource EventBus.space (some s) none ∷ when changed (resource EventBus.snapshots (some s) none)

-- The arguments of `publish` in `publishJobInvalidation`.
unfoldable pub invalidated : String → Option Job → List Resource
invalidated job_id none =
    resource EventBus.jobs none none ∷ resource EventBus.job none (some job_id) ∷ []
invalidated job_id (some j) =
    let done = is_succeeded j.status in
    (resource EventBus.jobs none none ∷ resource EventBus.job none (some job_id) ∷ [])
    ++ (space_resources (truthy j.space_id) (done && type_is_snapshot_related j.kind)
        ++ when (j.kind == "sync_github_repositories" && done) (resource EventBus.spaces none none))

abbrev publish_on : List Resource → Option Bus → Option Bus
publish_on rs none = none
publish_on rs (some b) = some (publish rs b)

unfoldable pub publish_job_invalidation : String → Runner → Runner
publish_job_invalidation job_id r = record r {
  dashboard_events = publish_on (invalidated job_id (find_job job_id r.db.jobs)) r.dashboard_events;
}

-- The closure that `writeEvent` hands to `notifyAfterCommit`.
unfoldable pub notify : JobEvent → Runner → Runner
unfolding publish_job_invalidation
notify e r =
    let sent = record r { emitted = r.emitted ++ e ∷ [] } in
    if e.event_type == "status" then publish_job_invalidation e.job_id sent else sent

notify_or_queue : Option (List JobEvent) → JobEvent → Runner → Runner
notify_or_queue none e r = notify e r
notify_or_queue (some queue) e r = record r { atomic_notifications = some (queue ++ e ∷ []) }

unfoldable pub notify_after_commit : JobEvent → Runner → Runner
unfolding notify_or_queue
notify_after_commit e r = notify_or_queue r.atomic_notifications e r

-- The record that `writeEvent` makes, at the present draw.
abbrev pub new_event : String → String → String → Runner → JobEvent
new_event job_id event_type message r = record {
  id = create_id "evt" r;
  job_id = job_id;
  event_type = event_type;
  message = message;
  created_at = now r;
}

abbrev pub truncated_message : String
truncated_message = "Additional job output was discarded after 500 log events."

abbrev insert_record : JobEvent → Runner → Runner
insert_record e r = record r { db = insert_event e r.db }

abbrev known_count : Option ℕ → ℕ → ℕ
known_count none n = n
known_count (some m) n = m

abbrev mark_saturated : String → Runner → Runner
mark_saturated job_id r = record r { saturated_log_jobs = r.saturated_log_jobs ++ job_id ∷ [] }

saturate : String → Runner → Runner
saturate job_id r =
    let flushed = flush_log_events job_id (mark_saturated job_id r) in
    let e = new_event job_id log_truncated truncated_message flushed in
    let stored = insert_record e (drawn flushed) in
    record stored { emitted = stored.emitted ++ e ∷ [] }

abbrev current_count : String → Runner → ℕ
current_count job_id r =
    known_count (map_get job_id r.log_event_counts) (count_log_events job_id r.db)

unfoldable pub accept_log_event : String → Runner → Bool × Runner
unfolding saturate
accept_log_event job_id r =
    let current = current_count job_id r in
    if set_has job_id r.saturated_log_jobs
    then (false, r)
    else if ltb current job_log_event_max_count
    then (true, record r { log_event_counts = map_set job_id (suc current) r.log_event_counts })
    else (false, saturate job_id r)

abbrev or_nil : Option (List JobEvent) → List JobEvent
or_nil none = []
or_nil (some es) = es

-- The branch of `writeEvent` for an accepted log event.
unfoldable pub buffer_log_event : String → String → Runner → Runner
buffer_log_event job_id message r =
    let e = new_event job_id "log" (truncate_event_message message) r in
    let pending = or_nil (map_get job_id r.pending_log_events) ++ e ∷ [] in
    schedule_log_flush (record (drawn r) {
      pending_log_events = map_set job_id pending r.pending_log_events;
      emitted = r.emitted ++ e ∷ [];
    })

-- The branch for every other event.
unfoldable pub store_event : String → String → String → Runner → Runner
store_event job_id event_type message r =
    let e = new_event job_id event_type (truncate_event_message message) r in
    notify_after_commit e (insert_record e (flush_log_events job_id (drawn r)))

finish_log : String → String → Bool × Runner → Runner
unfolding buffer_log_event
finish_log job_id message (true, r) = buffer_log_event job_id message r
finish_log job_id message (false, r) = r

unfoldable pub write_event : String → String → String → Runner → Runner
unfolding store_event finish_log
write_event job_id event_type message r =
    if event_type == "log"
    then finish_log job_id message (accept_log_event job_id r)
    else store_event job_id event_type message r
