-- ===== src/Jobs/Events/Bounded.antt =====
-- The bound on the messages that `writeEvent` of jobRunner.ts stores and buffers.
use memo_repo.Prelude.{
  String, ◌≡◌, ◌≤◌, ◌==◌, refl, Option, none, some, List, [], ◌∷◌, ◌++◌, inl, inr, arith, In,
  In-append, Bool, true, false, Bool-cases, map_get, get-set, get-delete, keys, set_has, ltb,
  eq_iff,
}
use memo_repo.Jobs.Store.{JobEvent, insert_event}
use memo_repo.Jobs.Runner.{Runner, drawn}
use memo_repo.Jobs.Message.{
  byte_length, utf8_size, event_message_max_bytes, truncate_event_message,
  byte_length-truncate_event_message-le,
}
use memo_repo.Jobs.Events.{
  flush_pending, flush_log_events, flush_each, flush_all_log_events, flush_timer_fires, notify,
  notify_or_queue, notify_after_commit, publish_job_invalidation, saturate, accept_log_event,
  buffer_log_event, store_event, finish_log, write_event, new_event, insert_record,
  truncated_message, log_truncated, mark_saturated, or_nil, current_count, job_log_event_max_count,
}

abbrev pub Fits : JobEvent → Type 0
Fits e = byte_length e.message ≤ event_message_max_bytes

-- Every message that is stored, or waits in the log buffer, is within the bound.
pub record IsBounded (r : Runner) : Type 0 where
  pub stored : (e : JobEvent) → In e r.db.job_events → Fits e
  pub buffered :
      (id : String) (es : List JobEvent)
      → map_get id r.pending_log_events ≡ some es
      → (e : JobEvent) → In e es
      → Fits e

-- Where both are as they were.
record IsSame (r s : Runner) : Type 0 where
  events : s.db.job_events ≡ r.db.job_events
  buffer : s.pending_log_events ≡ r.pending_log_events

IsBounded-same : {r s : Runner} → IsSame r s → IsBounded r → IsBounded s
IsBounded-same {r} {s} q b = record {
  stored = λ e m. b.stored e (rw q.events at m);
  buffered = λ id es h. b.buffered id es (rw q.buffer at h);
}

flush_pending-IsBounded :
    (id : String) (o : Option (List JobEvent)) (r : Runner)
    → map_get id r.pending_log_events ≡ o
    → IsBounded r
    → IsBounded (flush_pending id o r)
unfolding flush_pending
flush_pending-IsBounded id none r h b = b
flush_pending-IsBounded id (some []) r h b = b
flush_pending-IsBounded id (some (e ∷ es)) r h b = record {
  stored = λ x m. elim (In-append r.db.job_events (e ∷ es) x m) [
    | inl k ↦ b.stored x k
    | inr k ↦ b.buffered id (e ∷ es) h x k
  ];
  buffered = λ other xs k.
      b.buffered other xs
        (ground (arith, eq_iff id other, get-delete id other r.pending_log_events));
}

flush_log_events-IsBounded :
    (id : String) (r : Runner) → IsBounded r → IsBounded (flush_log_events id r)
unfolding flush_log_events
flush_log_events-IsBounded id r b = flush_pending-IsBounded id _ r refl b

flush_each-IsBounded : (ks : List String) (r : Runner) → IsBounded r → IsBounded (flush_each ks r)
unfolding flush_each
flush_each-IsBounded [] r b = b
flush_each-IsBounded (k ∷ ks) r b =
    flush_each-IsBounded ks (flush_log_events k r) (flush_log_events-IsBounded k r b)

insert_record-IsBounded :
    (e : JobEvent) (r : Runner) → Fits e → IsBounded r → IsBounded (insert_record e r)
unfolding insert_event
insert_record-IsBounded e r f b = record {
  stored = λ x m. elim (In-append r.db.job_events (e ∷ []) x m) [
    | inl k ↦ b.stored x k
    | inr k ↦ elim k [ inl q ↦ rw q f | inr n ↦ elim n [ ] ]
  ];
  buffered = λ id es h. b.buffered id es h;
}

notify-IsSame : (e : JobEvent) (r : Runner) → IsSame r (notify e r)
unfolding notify publish_job_invalidation
notify-IsSame e r = elim (Bool-cases (e.event_type == "status")) [
  | inl p ↦ rw (p, notify) (record { events = refl; buffer = refl })
  | inr p ↦ rw (p, notify) (record { events = refl; buffer = refl })
]

notify_or_queue-IsSame :
    (o : Option (List JobEvent)) (e : JobEvent) (r : Runner) → IsSame r (notify_or_queue o e r)
unfolding notify_or_queue
notify_or_queue-IsSame none e r = notify-IsSame e r
notify_or_queue-IsSame (some q) e r = record { events = refl; buffer = refl }

store_event-IsBounded :
    (id t m : String) (r : Runner) → IsBounded r → IsBounded (store_event id t m r)
unfolding store_event notify_after_commit
store_event-IsBounded id t m r b =
    let e = new_event id t (truncate_event_message m) r in
    let flushed =
      flush_log_events-IsBounded id (drawn r)
        (IsBounded-same (record { events = refl; buffer = refl }) b) in
    IsBounded-same (notify_or_queue-IsSame _ e _) (
      insert_record-IsBounded e (flush_log_events id (drawn r))
        (byte_length-truncate_event_message-le m) flushed)

truncated_message-fits : byte_length truncated_message ≤ event_message_max_bytes
unfolding byte_length utf8_size
truncated_message-fits = omega arith

saturate-IsBounded : (id : String) (r : Runner) → IsBounded r → IsBounded (saturate id r)
unfolding saturate
saturate-IsBounded id r b =
    let flushed = flush_log_events id (mark_saturated id r) in
    let marked =
      IsBounded-same {s = mark_saturated id r} (record { events = refl; buffer = refl }) b in
    let k = flush_log_events-IsBounded id (mark_saturated id r) marked in
    let e = new_event id log_truncated truncated_message flushed in
    let moved = IsBounded-same {s = drawn flushed} (record { events = refl; buffer = refl }) k in
    IsBounded-same {r = insert_record e (drawn flushed)} (record { events = refl; buffer = refl })
      (insert_record-IsBounded e (drawn flushed) truncated_message-fits moved)

accept_log_event-IsBounded :
    (id : String) (r : Runner) → IsBounded r → IsBounded (accept_log_event id r).1
unfolding accept_log_event
accept_log_event-IsBounded id r b = elim (Bool-cases (set_has id r.saturated_log_jobs)) [
  | inl p ↦ rw (p, accept_log_event) b
  | inr p ↦ elim (Bool-cases (ltb (current_count id r) job_log_event_max_count)) [
    | inl q ↦
        rw (p, q, accept_log_event) (IsBounded-same (record { events = refl; buffer = refl }) b)
    | inr q ↦ rw (p, q, accept_log_event) (saturate-IsBounded id r b)
  ]
]

waiting-Fits :
    (id : String) (o : Option (List JobEvent)) (r : Runner)
    → map_get id r.pending_log_events ≡ o
    → IsBounded r
    → (e : JobEvent) → In e (or_nil o)
    → Fits e
waiting-Fits id none r h b e m = elim m [ ]
waiting-Fits id (some es) r h b e m = b.buffered id es h e m

-- The buffer of the job with the new event behind it.
appended-Fits :
    (id : String) (e : JobEvent) (r : Runner)
    → Fits e
    → IsBounded r
    → (x : JobEvent) → In x (or_nil (map_get id r.pending_log_events) ++ e ∷ [])
    → Fits x
appended-Fits id e r f b x m =
    elim (In-append (or_nil (map_get id r.pending_log_events)) (e ∷ []) x m) [
      | inl k ↦ waiting-Fits id _ r refl b x k
      | inr k ↦ elim k [ inl q ↦ rw q f | inr n ↦ elim n [ ] ]
    ]

buffer_log_event-IsBounded :
    (id m : String) (r : Runner) → IsBounded r → IsBounded (buffer_log_event id m r)
unfolding buffer_log_event
buffer_log_event-IsBounded id m r b =
    let e = new_event id "log" (truncate_event_message m) r in
    let pending = or_nil (map_get id r.pending_log_events) ++ e ∷ [] in
    record {
      stored = λ x k. b.stored x k;
      buffered = λ other es h x k. elim (Bool-cases (id == other)) [
        | inl q ↦
            let found : pending ≡ es =
              ground (arith, get-set id other pending r.pending_log_events) in
            appended-Fits id e r (byte_length-truncate_event_message-le m) b x (rw found k)
        | inr q ↦
            b.buffered other es (ground (arith, get-set id other pending r.pending_log_events)) x k
      ];
    }

finish_log-IsBounded :
    (id m : String) (o : Bool × Runner) → IsBounded o.1 → IsBounded (finish_log id m o)
unfolding finish_log
finish_log-IsBounded id m (true, r) b = buffer_log_event-IsBounded id m r b
finish_log-IsBounded id m (false, r) b = b

write_event-IsBounded :
    (id t m : String) (r : Runner) → IsBounded r → IsBounded (write_event id t m r)
unfolding write_event
write_event-IsBounded id t m r b = elim (Bool-cases (t == "log")) [
  | inl p ↦ rw (p, write_event) (finish_log-IsBounded id m _ (accept_log_event-IsBounded id r b))
  | inr p ↦ rw (p, write_event) (store_event-IsBounded id t m r b)
]

flush_timer_fires-IsBounded : (r : Runner) → IsBounded r → IsBounded (flush_timer_fires r)
unfolding flush_timer_fires flush_all_log_events
flush_timer_fires-IsBounded r b =
    flush_each-IsBounded (keys r.pending_log_events) (record r { log_flush_timer = false })
      (IsBounded-same (record { events = refl; buffer = refl }) b)

-- What is done to the events: one is written for a job, with its type and message, or the timer of the log
-- buffer fires.
pub data Writing : Type 0 where
  written : String → String → String → Writing
  timer_fired : Writing

unfoldable pub write_all : List Writing → Runner → Runner
write_all [] r = r
write_all (written id t m ∷ ws) r = write_all ws (write_event id t m r)
write_all (timer_fired ∷ ws) r = write_all ws (flush_timer_fires r)

-- Whatever events are written, of any type and length, and however the flushes of the log buffer fall between
-- them: where every message that is stored or buffered has at most 16 KiB in UTF-8 before, every one has
-- afterwards.
pub write_all-IsBounded :
    (ws : List Writing) (r : Runner) → IsBounded r → IsBounded (write_all ws r)
unfolding write_all
write_all-IsBounded [] r b = b
write_all-IsBounded (written id t m ∷ ws) r b =
    write_all-IsBounded ws (write_event id t m r) (write_event-IsBounded id t m r b)
write_all-IsBounded (timer_fired ∷ ws) r b =
    write_all-IsBounded ws (flush_timer_fires r) (flush_timer_fires-IsBounded r b)
