-- ===== src/Jobs/Control/Refusal.antt =====
-- What `cancelJob` and `retryJob` of jobRunner.ts leave behind when they throw.
use memo_repo.Prelude.{
  String, Bool, true, false, ◌≡◌, refl, Option, none, some, inl, inr, Bool-cases, map_get,
}
use memo_repo.Jobs.Store.{Job, find_job, is_running, is_pending, is_unsuccessful}
use memo_repo.Jobs.Runner.{Runner, Result, Failure, ok, err}
use memo_repo.Jobs.Control.{
  again, resubmit, enqueue_canonical, retry_found, cancel_pending, report_retry, cancel_found,
  abort_controller, cancel_job, retry_job,
}
use memo_repo.Jobs.Enqueue.Refusal.{enqueue_canonical-refused}

abort_controller-refused :
    (j : Job) (o : Option Bool) (r : Runner) (e : Failure)
    → (abort_controller j o r).0 ≡ err e
    → (abort_controller j o r).1 ≡ r
unfolding abort_controller
abort_controller-refused j none r e h = refl
abort_controller-refused j (some true) r e h = refl
abort_controller-refused j (some false) r e h = cc

cancel_found-refused :
    (o : Option Job) (r : Runner) (e : Failure)
    → (cancel_found o r).0 ≡ err e
    → (cancel_found o r).1 ≡ r
unfolding cancel_found
cancel_found-refused none r e h = refl
cancel_found-refused (some j) r e h = elim (Bool-cases (is_running j.status)) [
  | inl q ↦
      let k : (abort_controller j (map_get j.id r.active_controllers) r).0 ≡ err e =
        rw (q, cancel_found) at h in
      rw (q, cancel_found) (abort_controller-refused j (map_get j.id r.active_controllers) r e k)
  | inr q ↦ elim (Bool-cases (is_pending j.status)) [
    | inl p ↦
        let k : ok (find_job j.id (cancel_pending j r).db.jobs) ≡ err e =
          rw (q, p, cancel_found) at h in
        cc
    | inr p ↦ rw (q, p, cancel_found) refl
  ]
]

-- A cancellation that is refused, for an unknown job, a finished one, or a running one that has lost
-- its controller, changes nothing at all.
pub cancel_job-refused :
    (id : String) (r : Runner) (e : Failure) → (cancel_job id r).0 ≡ err e → (cancel_job id r).1 ≡ r
unfolding cancel_job
cancel_job-refused id r e h = cancel_found-refused (find_job id r.db.jobs) r e h

report_retry-refused :
    (j : Job) (o : Result Job × Runner) (e : Failure)
    → (report_retry j o).0 ≡ err e
    → (o.0 ≡ err e) × ((report_retry j o).1 ≡ o.1)
unfolding report_retry
report_retry-refused j (err f, r) e h = (h, refl)
report_retry-refused j (ok x, r) e h = cc

resubmit-refused :
    (j : Job) (o : Option String) (r : Runner) (e : Failure)
    → (resubmit j o r).0 ≡ err e
    → ((resubmit j o r).1.db ≡ r.db) × ((resubmit j o r).1.emitted ≡ r.emitted)
unfolding resubmit
resubmit-refused j none r e h = (refl, refl)
resubmit-refused j (some text) r e h =
    let m = enqueue_canonical (again j) text r in
    let (refused, same) = report_retry-refused j m e h in
    let (tables, sent) = enqueue_canonical-refused (again j) text r e refused in
    rw (resubmit, same) (tables, sent)

retry_found-refused :
    (o : Option Job) (r : Runner) (e : Failure)
    → (retry_found o r).0 ≡ err e
    → ((retry_found o r).1.db ≡ r.db) × ((retry_found o r).1.emitted ≡ r.emitted)
unfolding retry_found
retry_found-refused none r e h = (refl, refl)
retry_found-refused (some j) r e h = elim (Bool-cases (is_unsuccessful j.status)) [
  | inr q ↦ rw (q, retry_found) (refl, refl)
  | inl q ↦
      let text = r.env.canonical j.payload_json in
      let k : (resubmit j text r).0 ≡ err e = rw (q, retry_found) at h in
      rw (q, retry_found) (resubmit-refused j text r e k)
]

-- A retry that is refused, for an unknown job, one that did not end badly, one whose payload is no JSON, or
-- since its submission is refused, changes no table and sends out no event.
pub retry_job-refused :
    (id : String) (r : Runner) (e : Failure)
    → (retry_job id r).0 ≡ err e
    → ((retry_job id r).1.db ≡ r.db) × ((retry_job id r).1.emitted ≡ r.emitted)
unfolding retry_job
retry_job-refused id r e h = retry_found-refused (find_job id r.db.jobs) r e h
