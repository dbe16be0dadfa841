-- ===== src/Jobs/Events/Frame.antt =====
-- What writing an event leaves alone.
use memo_repo.Prelude.{
  Bool, String, ◌≡◌, Option, none, some, List, [], ◌∷◌, arith, ◌==◌, Bool-cases, inl, inr, true,
  false,
}
use memo_repo.Jobs.Store.{JobEvent, insert_event}
use memo_repo.Jobs.Runner.{Runner, drawn}
use memo_repo.Jobs.Message.{truncate_event_message}
use memo_repo.Jobs.Events.{
  flush_timer_fires, job_log_event_max_count, ltb, set_has, current_count, finish_log, Bool,
  mark_saturated, keys, flush_pending, flush_log_events, flush_each, flush_all_log_events,
  publish_job_invalidation, notify, notify_or_queue, notify_after_commit, saturate,
  accept_log_event, buffer_log_event, store_event, write_event, new_event, insert_record,
}

-- The jobs with their dependencies, and the state of the scheduler.
pub record Same (r s : Runner) : Type 0 where
  pub env : s.env ≡ r.env
  pub jobs : s.db.jobs ≡ r.db.jobs
  pub dependencies : s.db.dependencies ≡ r.db.dependencies
  pub in_transaction : s.in_transaction ≡ r.in_transaction
  pub handlers : s.handlers ≡ r.handlers
  pub concurrency : s.concurrency ≡ r.concurrency
  pub active_jobs : s.active_jobs ≡ r.active_jobs
  pub settling : s.settling ≡ r.settling
  pub recovered : s.recovered_running_jobs ≡ r.recovered_running_jobs
  pub controllers : s.active_controllers ≡ r.active_controllers
  pub defer_tick_depth : s.defer_tick_depth ≡ r.defer_tick_depth
  pub tick_requested : s.tick_requested ≡ r.tick_requested

pub Same-refl : (r : Runner) → Same r r
Same-refl r = ground arith

pub Same-trans : {r s t : Runner} → Same r s → Same s t → Same r t
Same-trans h k = ground arith

flush_pending-Same :
    (id : String) (o : Option (List JobEvent)) (r : Runner) → Same r (flush_pending id o r)
unfolding flush_pending
flush_pending-Same id none r = Same-refl r
flush_pending-Same id (some []) r = Same-refl r
flush_pending-Same id (some (e ∷ es)) r = ground arith

pub flush_log_events-Same : (id : String) (r : Runner) → Same r (flush_log_events id r)
unfolding flush_log_events
flush_log_events-Same id r = flush_pending-Same id _ r

flush_each-Same : (ks : List String) (r : Runner) → Same r (flush_each ks r)
unfolding flush_each
flush_each-Same [] r = Same-refl r
flush_each-Same (k ∷ ks) r =
    Same-trans (flush_log_events-Same k r) (flush_each-Same ks (flush_log_events k r))

pub flush_all_log_events-Same : (r : Runner) → Same r (flush_all_log_events r)
unfolding flush_all_log_events
flush_all_log_events-Same r = flush_each-Same (keys r.pending_log_events) r

pub notify-Same : (e : JobEvent) (r : Runner) → Same r (notify e r)
unfolding notify publish_job_invalidation
notify-Same e r = elim (Bool-cases (e.event_type == "status")) [
  | inl p ↦ rw p (ground arith)
  | inr p ↦ rw p (ground arith)
]

notify_or_queue-Same :
    (o : Option (List JobEvent)) (e : JobEvent) (r : Runner) → Same r (notify_or_queue o e r)
unfolding notify_or_queue
notify_or_queue-Same none e r = notify-Same e r
notify_or_queue-Same (some q) e r = ground arith

store_event-Same : (id t m : String) (r : Runner) → Same r (store_event id t m r)
unfolding store_event notify_after_commit insert_event
store_event-Same id t m r =
    let flushed = flush_log_events id (drawn r) in
    let e = new_event id t (truncate_event_message m) r in
    Same-trans (Same-trans (ground arith) (flush_log_events-Same id (drawn r)))
      (Same-trans {s = insert_record e flushed} (ground arith) (notify_or_queue-Same _ e _))

saturate-Same : (id : String) (r : Runner) → Same r (saturate id r)
unfolding saturate insert_event
saturate-Same id r =
    Same-trans {s = mark_saturated id r} (ground arith)
      (Same-trans (flush_log_events-Same id (mark_saturated id r)) (ground arith))

accept_log_event-Same : (id : String) (r : Runner) → Same r (accept_log_event id r).1
unfolding accept_log_event
accept_log_event-Same id r = elim (Bool-cases (set_has id r.saturated_log_jobs)) [
  | inl p ↦ rw p (Same-refl r)
  | inr p ↦ elim (Bool-cases (ltb (current_count id r) job_log_event_max_count)) [
    | inl q ↦ rw (p, q) (ground arith)
    | inr q ↦ rw (p, q) (saturate-Same id r)
  ]
]

buffer_log_event-Same : (id m : String) (r : Runner) → Same r (buffer_log_event id m r)
unfolding buffer_log_event
buffer_log_event-Same id m r = ground arith

finish_log-Same : (id m : String) (o : Bool × Runner) → Same o.1 (finish_log id m o)
unfolding finish_log
finish_log-Same id m (true, r) = buffer_log_event-Same id m r
finish_log-Same id m (false, r) = Same-refl r

-- Writing an event changes no job and nothing that the scheduler goes by.
pub write_event-Same : (id t m : String) (r : Runner) → Same r (write_event id t m r)
unfolding write_event
write_event-Same id t m r = elim (Bool-cases (t == "log")) [
  | inl p ↦ rw p (Same-trans (accept_log_event-Same id r) (finish_log-Same id m _))
  | inr p ↦ rw p (store_event-Same id t m r)
]

pub flush_timer_fires-Same : (r : Runner) → Same r (flush_timer_fires r)
unfolding flush_timer_fires
flush_timer_fires-Same r =
    Same-trans {s = record r { log_flush_timer = false }} (ground arith)
      (flush_all_log_events-Same (record r { log_flush_timer = false }))
