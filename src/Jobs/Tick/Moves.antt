-- ===== src/Jobs/Tick/Moves.antt =====
-- The scheduler of jobRunner.ts changes the table `jobs` by the steps of `Jobs.Table`.
pub mod Skipping
use memo_repo.Jobs.Tick.Select.{IsRunnable, next_runnable_job-IsRunnable}
use memo_repo.Prelude.{
  if◌then◌else◌, ◌∙◌, sym, ap, refl, zero, suc, ◌-◌, Option-cases, [], ◌∷◌, inr, In-filter, inl,
  Bool-cases, ◌≢◌, All, ℕ, String, true, ◌≡◌, List, arith, In,
}
use memo_repo.Jobs.Store.{find_job, is_running, is_pending, Job, update_job, is_active}
use memo_repo.Jobs.Store.Rows.{find_job-eq-some, In-update_jobs_ne, HasDistinctIds, eq_of_id}
use memo_repo.Jobs.Runner.{drawn, now, Runner}
use memo_repo.Jobs.Events.{write_event}
use memo_repo.Jobs.Events.Frame.{write_event-Same}
use memo_repo.Jobs.Exclusion.{IsCalm}
use memo_repo.Jobs.Table.{
  start, Moves-refl, Moves-trans, IsLive, edit, here, next, Moves, Same-Moves,
}
use memo_repo.Jobs.Tick.{
  returned, ◌+++◌, set_has, false, Outcome, ltb, next_runnable_job, map_set, finish_run, conclude,
  is_running_job, request_tick, settle, tick, tick_loop, as_running, start_run, is_skippable, ◌∷◌,
  filter, cancel_running, fail, skip_blocked_dependents, Bool, skip_each, skip_job, update_record,
  as_skipped, as_failed, as_cancelled, as_succeeded,
}
use memo_repo.Jobs.Tick.Moves.Skipping.{
  active_of_pending, write_event-Moves, update_record-Moves, as_failed-IsCalm, active_of_running,
  IsLive-row, skip_blocked_dependents-Moves, as_cancelled-IsCalm, as_succeeded-IsCalm,
}

fail-Moves :
    (id m kind : String) (r : Runner)
    → (HasDistinctIds r.db.jobs → IsLive id r.db.jobs)
    → Moves r (fail id m kind r)
unfolding fail
fail-Moves id m kind r live =
    Moves-trans
      (Moves-trans (update_record-Moves id _ r (as_failed-IsCalm _ (now r)) live)
        (write_event-Moves id "error" _ _))
      (write_event-Moves id "status" "failed" _)

cancel_running-Moves :
    (id : String) (r : Runner)
    → (HasDistinctIds r.db.jobs → IsLive id r.db.jobs)
    → Moves r (cancel_running id r)
unfolding cancel_running
cancel_running-Moves id r live =
    Moves-trans
      (Moves-trans (update_record-Moves id _ r (as_cancelled-IsCalm _ (now r)) live)
        (write_event-Moves id "status" "cancelled" _))
      (skip_blocked_dependents-Moves _)

start_run-Moves : (j : Job) (r : Runner) → IsRunnable r.db j → Moves r (start_run j r)
unfolding start_run update_job
start_run-Moves j r c = elim (Bool-cases (set_has j.kind r.handlers)) [
  | inl q ↦ rw q (
      Moves-trans
        (record {
          run = λ d. next here (
              start j (now r) c.member
                (IsLive-row r.db.jobs j c.member (active_of_pending j c.waiting) d) c.free);
        })
        (write_event-Moves j.id "status" "running" (started j r)))
  | inr q ↦ rw q (
      let m =
        fail-Moves j.id ("No handler registered for job type " +++ j.kind) j.kind (drawn r)
          (IsLive-row r.db.jobs j c.member (active_of_pending j c.waiting)) in
      record { run = m.run })
]
  where
    started : Job → Runner → Runner
    started k s =
        update_record k.id (as_running (now s))
          (record (drawn s) { active_controllers = map_set k.id false s.active_controllers })

tick_loop-Moves : (left : ℕ) (r : Runner) → Moves r (tick_loop left r)
unfolding tick_loop
tick_loop-Moves zero r = Moves-refl r
tick_loop-Moves (suc left) r = elim (Option-cases (next_runnable_job r.db)) [
  | inl e ↦ rw (e, tick_loop) (Moves-refl r)
  | inr (j, e) ↦
      let taken : Runner = record r { active_jobs = suc r.active_jobs } in
      let m = start_run-Moves j taken (next_runnable_job-IsRunnable r.db j e) in
      rw (e, tick_loop)
        (Moves-trans (record { run = m.run }) (tick_loop-Moves left (start_run j taken)))
]

pub tick-Moves : (r : Runner) → Moves r (tick r)
unfolding tick
tick-Moves r =
    Moves-trans (skip_blocked_dependents-Moves r) (tick_loop-Moves _ (skip_blocked_dependents r))

pub settle-Moves : (r : Runner) → Moves r (settle r)
unfolding settle
settle-Moves r =
    let m = tick-Moves (record r { settling = r.settling - 1; active_jobs = r.active_jobs - 1 }) in
    record { run = m.run }

pub request_tick-Moves : (r : Runner) → Moves r (request_tick r)
unfolding request_tick
request_tick-Moves r = elim (Bool-cases (ltb 0 r.defer_tick_depth)) [
  | inl q ↦ rw q (record { run = λ d. here })
  | inr q ↦ rw q (tick-Moves r)
]

IsLive-of_running :
    (id : String) (r : Runner)
    → is_running_job (find_job id r.db.jobs) ≡ true
    → HasDistinctIds r.db.jobs
    → IsLive id r.db.jobs
IsLive-of_running id r h d = elim (Option-cases (find_job id r.db.jobs)) [
  | inl e ↦ absurd (ground (arith, e))
  | inr (j, e) ↦
      let (m, same) = find_job-eq-some id r.db.jobs j e in
      rw (← same) (IsLive-row r.db.jobs j m (active_of_running j (ap is_running_job (sym e) ∙ h)) d)
]

-- The row of `j.id` runs, and its handler's promise has come to `out`.
stop_run-Moves :
    (j : Job) (b : Bool) (m : String) (r : Runner)
    → is_running_job (find_job j.id r.db.jobs) ≡ true
    → Moves r (if b then cancel_running j.id r else fail j.id m j.kind r)
stop_run-Moves j true m r h = cancel_running-Moves j.id r (IsLive-of_running j.id r h)
stop_run-Moves j false m r h = fail-Moves j.id m j.kind r (IsLive-of_running j.id r h)

end_run-Moves :
    (j : Job) (b : Bool) (r : Runner)
    → is_running_job (find_job j.id r.db.jobs) ≡ true
    → Moves r (
        if b
        then cancel_running j.id (drawn r)
        else write_event j.id "status" "succeeded"
            (update_record j.id (as_succeeded (now r)) (drawn r)))
end_run-Moves j true r h =
    let m = cancel_running-Moves j.id (drawn r) (IsLive-of_running j.id r h) in
    record { run = m.run }
end_run-Moves j false r h =
    Moves-trans
      (update_record-Moves j.id _ r (as_succeeded-IsCalm (now r)) (IsLive-of_running j.id r h))
      (write_event-Moves j.id "status" "succeeded" _)

conclude-Moves : (j : Job) (out : Outcome) (r : Runner) → Moves r (conclude j out r)
unfolding conclude
conclude-Moves j returned r = elim (Bool-cases (is_running_job (find_job j.id r.db.jobs))) [
  | inl h ↦ rw h (end_run-Moves j _ r h)
  | inr h ↦ rw h (record { run = λ d. here })
]
conclude-Moves j out r = elim (Bool-cases (is_running_job (find_job j.id r.db.jobs))) [
  | inl h ↦ rw h (stop_run-Moves j _ _ r h)
  | inr h ↦ rw h (Moves-refl r)
]

pub finish_run-Moves : (j : Job) (out : Outcome) (r : Runner) → Moves r (finish_run j out r)
unfolding finish_run
finish_run-Moves j out r = let m = conclude-Moves j out r in record { run = m.run }
