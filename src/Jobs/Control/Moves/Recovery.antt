-- ===== src/Jobs/Control/Moves/Recovery.antt =====
-- The start of a runner, which fails the jobs that were running before, and its end.
use memo_repo.Prelude.{
  ℕ, String, Bool, true, false, ◌≡◌, ◌≢◌, List, [], ◌∷◌, In, All, In-filter, filter,
}
use memo_repo.Jobs.Store.{Job, is_running, update_job}
use memo_repo.Jobs.Store.Rows.{HasDistinctIds, In-update_jobs_ne}
use memo_repo.Jobs.Runner.{Runner, now, drawn}
use memo_repo.Jobs.Events.{write_event}
use memo_repo.Jobs.Events.Frame.{flush_all_log_events-Same, write_event-Same, Same-trans}
use memo_repo.Jobs.Table.{Moves, Moves-trans, Moves-refl, Same-Moves}
use memo_repo.Jobs.Tick.{as_failed, update_record}
use memo_repo.Jobs.Tick.Moves.{tick-Moves}
use memo_repo.Jobs.Tick.Moves.Skipping.{
  IsLive-row, active_of_running, as_failed-IsCalm, write_event-Moves, update_record-Moves,
  filter-HasDistinctIds, All-of_In,
}
use memo_repo.Jobs.Control.{
  recover_unless, start_unless, restarted_message, recover_each, recover_running_jobs, start, stop,
}

abbrev Stale : List Job → List Job → Type 0
Stale table js = All (λ j. In j table × (is_running j.status ≡ true)) js

fail_stale : ℕ → String → Runner → Runner
fail_stale at id r =
    write_event id "status" "failed" (
      write_event id "error" restarted_message
        (update_record id (as_failed restarted_message at) r))

fail_stale-Moves :
    (at : ℕ) (j : Job) (r : Runner)
    → In j r.db.jobs
    → is_running j.status ≡ true
    → Moves r (fail_stale at j.id r)
unfolding fail_stale
fail_stale-Moves at j r m w =
    Moves-trans
      (Moves-trans
        (let e =
            update_record-Moves j.id (as_failed restarted_message at) r
              (as_failed-IsCalm restarted_message at)
              (IsLive-row r.db.jobs j m (active_of_running j w)) in
          record { run = e.run })
        (write_event-Moves j.id "error" restarted_message
          (update_record j.id (as_failed restarted_message at) r)))
      (write_event-Moves j.id "status" "failed" _)

Stale-fail :
    (at : ℕ) (id : String) (r : Runner) (js : List Job)
    → All (λ j. j.id ≢ id) js
    → Stale r.db.jobs js
    → Stale (fail_stale at id r).db.jobs js
unfolding fail_stale update_job
Stale-fail at id r [] h w = tt
Stale-fail at id r (j ∷ js) (n, h) ((m, p), w) =
    let edited = update_record id (as_failed restarted_message at) r in
    let noted = write_event id "error" restarted_message edited in
    let same =
      Same-trans (write_event-Same id "error" restarted_message edited)
        (write_event-Same id "status" "failed" noted) in
    (
      (rw same.jobs (In-update_jobs_ne id (as_failed restarted_message at) r.db.jobs j m n), p),
      Stale-fail at id r js h w,
    )

recover_each-Moves :
    (at : ℕ) (js : List Job) (r : Runner)
    → HasDistinctIds js
    → Stale r.db.jobs js
    → Moves r (recover_each at js r)
unfolding recover_each fail_stale
recover_each-Moves at [] r d w = Moves-refl r
recover_each-Moves at (j ∷ js) r (n, d) ((m, p), w) =
    Moves-trans (fail_stale-Moves at j r m p)
      (recover_each-Moves at js (fail_stale at j.id r) d (Stale-fail at j.id r js n w))

recover_unless-Moves : (b : Bool) (r : Runner) → Moves r (recover_unless b r).1
unfolding recover_unless
recover_unless-Moves true r = Moves-refl r
recover_unless-Moves false r = record {
  run = λ d.
      (recover_each-Moves (now r) (filter (λ j. is_running j.status) r.db.jobs)
          (record (drawn r) { recovered_running_jobs = true })
          (filter-HasDistinctIds (λ j. is_running j.status) r.db.jobs d)
          (All-of_In _ _ (λ j m. In-filter (λ k. is_running k.status) r.db.jobs j m))).run
        d;
}

pub recover_running_jobs-Moves : (r : Runner) → Moves r (recover_running_jobs r).1
unfolding recover_running_jobs
recover_running_jobs-Moves r = recover_unless-Moves r.recovered_running_jobs r

start_unless-Moves : (b : Bool) (r : Runner) → Moves r (start_unless b r)
unfolding start_unless
start_unless-Moves true r = Moves-refl r
start_unless-Moves false r =
    let m = tick-Moves (record (recover_running_jobs r).1 { timer = true }) in
    Moves-trans (recover_running_jobs-Moves r) (record { run = m.run })

pub start-Moves : (r : Runner) → Moves r (start r)
unfolding start
start-Moves r = start_unless-Moves r.timer r

pub stop-Moves : (r : Runner) → Moves r (stop r)
unfolding stop
stop-Moves r =
    let m =
      Same-Moves
        (flush_all_log_events-Same (record r { timer = false; log_flush_timer = false })) in
    record { run = m.run }
