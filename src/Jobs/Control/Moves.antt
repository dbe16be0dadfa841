-- ===== src/Jobs/Control/Moves.antt =====
-- The other operations of jobRunner.ts change the table `jobs` by the steps of `Jobs.Table`.
pub mod Recovery
use memo_repo.Prelude.{
  ℕ, ◌-◌, String, Bool, true, false, ◌≡◌, ◌≢◌, refl, inl, inr, Option, none, some, List, [], ◌∷◌,
  In, All, Bool-cases, In-filter, filter, map_get, ◌=?◌, ◌&&◌, set_has,
}
use memo_repo.Json.{end}
use memo_repo.Jobs.Store.{
  Job, JobEvent, is_pending, is_running, is_unsuccessful, find_job, update_job,
}
use memo_repo.Jobs.Store.Rows.{HasDistinctIds, find_job-eq-some, In-update_jobs_ne}
use memo_repo.Jobs.Runner.{Runner, Result, ok, err, now, drawn}
use memo_repo.Jobs.Events.{write_event, notify}
use memo_repo.Jobs.Events.Frame.{
  flush_all_log_events-Same, notify-Same, write_event-Same, Same-trans,
}
use memo_repo.Jobs.Table.{here, Moves, Moves-trans, Moves-refl, Same-Moves}
use memo_repo.Jobs.Tick.{as_failed, update_record}
use memo_repo.Jobs.Tick.Moves.{tick-Moves}
use memo_repo.Jobs.Tick.Moves.Skipping.{
  IsLive-row, active_of_running, active_of_pending, as_cancelled-IsCalm, as_failed-IsCalm,
  write_event-Moves, update_record-Moves, skip_blocked_dependents-Moves, filter-HasDistinctIds,
  All-of_In,
}
use memo_repo.Jobs.Runner.{Result-cases}
use memo_repo.Jobs.Enqueue.{enqueue, Input, enqueue_canonical}
use memo_repo.Jobs.Coalesce.Moves.{enqueue_coalesced-Moves}
use memo_repo.Jobs.Enqueue.Moves.{enqueue-Moves, enqueue_canonical-Moves}
use memo_repo.Jobs.Control.{
  Submission, plain, coalesced, submit, submit_all, enter_transaction, recover_unless, start_unless,
  run_unless, register, report_retry, again, resubmit, retry_found, retry_job, abort_controller,
  cancel_pending, cancel_found, cancel_job, restarted_message, recover_each, recover_running_jobs,
  start, stop, notify_each, leave, close_transaction, run_atomically, or_nil,
}

report_retry-Moves : (j : Job) (o : Result Job × Runner) → Moves o.1 (report_retry j o).1
unfolding report_retry
report_retry-Moves j (err e, r) = Moves-refl r
report_retry-Moves j (ok x, r) = write_event-Moves j.id "retry" _ r

resubmit-Moves :
    (j : Job) (o : Option String) (r : Runner)
    → j.space_repository_id ≢ some ""
    → Moves r (resubmit j o r).1
unfolding resubmit
resubmit-Moves j none r n = Moves-refl r
resubmit-Moves j (some text) r n =
    Moves-trans (enqueue_canonical-Moves (again j) text r n)
      (report_retry-Moves j (enqueue_canonical (again j) text r))

retry_found-Moves :
    (o : Option Job) (r : Runner)
    → ((j : Job) → o ≡ some j → j.space_repository_id ≢ some "")
    → Moves r (retry_found o r).1
unfolding retry_found
retry_found-Moves none r n = Moves-refl r
retry_found-Moves (some j) r n = elim (Bool-cases (is_unsuccessful j.status)) [
  | inl q ↦ rw q (resubmit-Moves j (r.env.canonical j.payload_json) r (n j refl))
  | inr q ↦ rw q (Moves-refl r)
]

pub retry_job-Moves :
    (id : String) (r : Runner)
    → ((j : Job) → In j r.db.jobs → j.space_repository_id ≢ some "")
    → Moves r (retry_job id r).1
unfolding retry_job
retry_job-Moves id r n =
    retry_found-Moves (find_job id r.db.jobs) r (λ j e. n j (find_job-eq-some id r.db.jobs j e).0)

abort_controller-Moves :
    (j : Job) (o : Option Bool) (r : Runner) → Moves r (abort_controller j o r).1
unfolding abort_controller
abort_controller-Moves j none r = Moves-refl r
abort_controller-Moves j (some true) r = Moves-refl r
abort_controller-Moves j (some false) r =
    let m =
      write_event-Moves j.id "cancellation_requested"
        "Cancellation requested; stopping the active operation" r in
    record { run = m.run }

cancel_pending-Moves :
    (j : Job) (r : Runner)
    → In j r.db.jobs
    → is_pending j.status ≡ true
    → Moves r (cancel_pending j r)
unfolding cancel_pending
cancel_pending-Moves j r m w =
    Moves-trans
      (Moves-trans
        (update_record-Moves j.id _ r (as_cancelled-IsCalm _ (now r))
          (IsLive-row r.db.jobs j m (active_of_pending j w)))
        (write_event-Moves j.id "status" "cancelled" _))
      (skip_blocked_dependents-Moves _)

cancel_found-Moves :
    (o : Option Job) (r : Runner)
    → ((j : Job) → o ≡ some j → In j r.db.jobs)
    → Moves r (cancel_found o r).1
unfolding cancel_found
cancel_found-Moves none r i = Moves-refl r
cancel_found-Moves (some j) r i = elim (Bool-cases (is_running j.status)) [
  | inl q ↦ rw q (abort_controller-Moves j (map_get j.id r.active_controllers) r)
  | inr q ↦ elim (Bool-cases (is_pending j.status)) [
    | inl w ↦ rw (q, w) (cancel_pending-Moves j r (i j refl) w)
    | inr w ↦ rw (q, w) (Moves-refl r)
  ]
]

pub cancel_job-Moves : (id : String) (r : Runner) → Moves r (cancel_job id r).1
unfolding cancel_job
cancel_job-Moves id r =
    cancel_found-Moves (find_job id r.db.jobs) r (λ j e. (find_job-eq-some id r.db.jobs j e).0)

notify_each-Moves : (es : List JobEvent) (r : Runner) → Moves r (notify_each es r)
unfolding notify_each
notify_each-Moves [] r = Moves-refl r
notify_each-Moves (e ∷ es) r =
    Moves-trans (Same-Moves (notify-Same e r)) (notify_each-Moves es (notify e r))

leave-Moves : (o : Option (List JobEvent)) (r : Runner) → Moves r (leave o r)
unfolding leave
leave-Moves o r = elim (Bool-cases (r.defer_tick_depth - 1 =? 0 && r.tick_requested)) [
  | inl q ↦ rw q (record {
    run =
        (tick-Moves (record r {
          atomic_notifications = o;
          defer_tick_depth = r.defer_tick_depth - 1;
          tick_requested = false;
        })).run;
  })
  | inr q ↦ rw q (record { run = λ d. here })
]

module _ {A : Type 0} where
  close_transaction-Moves :
      (before : Runner) (o : Option (List JobEvent)) (x : Result A × Runner)
      → Moves before x.1
      → Moves before (close_transaction before.db o x).1
  unfolding close_transaction
  close_transaction-Moves before o (err e, r) m =
      let k = leave-Moves o (record r { db = before.db; in_transaction = false }) in
      record { run = k.run }
  close_transaction-Moves before o (ok a, r) m =
      let closed : Runner = record r { in_transaction = false; atomic_notifications = o } in
      let told : Runner = notify_each (or_nil r.atomic_notifications) closed in
      let n : Moves r told = record {
        run = (notify_each-Moves (or_nil r.atomic_notifications) closed).run;
      } in
      Moves-trans m (Moves-trans n (leave-Moves o told))

  run_unless-Moves :
      (b : Bool) (operation : Runner → Result A × Runner) (r : Runner)
      → ((s : Runner) → Moves s (operation s).1)
      → Moves r (run_unless b operation r).1
  unfolding run_unless
  run_unless-Moves true operation r m = m r
  run_unless-Moves false operation r m =
      let inside = enter_transaction r in
      close_transaction-Moves r r.atomic_notifications (operation inside)
        (record { run = (m inside).run })

  pub run_atomically-Moves :
      (operation : Runner → Result A × Runner) (r : Runner)
      → ((s : Runner) → Moves s (operation s).1)
      → Moves r (run_atomically operation r).1
  unfolding run_atomically
  run_atomically-Moves operation r m = run_unless-Moves r.in_transaction operation r m

pub register-Moves : (kind : String) (r : Runner) → Moves r (register kind r)
unfolding register
register-Moves kind r = elim (Bool-cases (set_has kind r.handlers)) [
  | inl q ↦ simp q (Moves-refl r)
  | inr q ↦ simp q (record { run = λ d. here })
]

abbrev pub IsNamedInput : Input → Type 0
IsNamedInput i = i.space_repository_id ≢ some ""

abbrev pub IsNamedSubmission : Submission → Type 0
IsNamedSubmission (plain i) = IsNamedInput i
IsNamedSubmission (coalesced i space fingerprint) = IsNamedInput i

submit-Moves : (x : Submission) (r : Runner) → IsNamedSubmission x → Moves r (submit x r).1
unfolding submit
submit-Moves (plain i) r n = enqueue-Moves i r n
submit-Moves (coalesced i space fingerprint) r n = enqueue_coalesced-Moves i space fingerprint r n

pub submit_all-Moves :
    (x : Submission) (xs : List Submission) (r : Runner)
    → IsNamedSubmission x
    → All IsNamedSubmission xs
    → Moves r (submit_all x xs r).1
unfolding submit_all
submit_all-Moves x [] r n ns = submit-Moves x r n
submit_all-Moves x (y ∷ ys) r n (p, ns) = elim (Result-cases (submit x r).0) [
  | inr (e, q) ↦ rw (q, submit_all) (submit-Moves x r n)
  | inl (j, q) ↦
      rw (q, submit_all)
        (Moves-trans (submit-Moves x r n) (submit_all-Moves y ys (submit x r).1 p ns))
]
