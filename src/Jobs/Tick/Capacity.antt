-- ===== src/Jobs/Tick/Capacity.antt =====
-- How many runs `tick` of jobRunner.ts leaves active.
use memo_repo.Prelude.{
  ℕ, String, zero, suc, ◌-◌, ◌+◌, ◌≤◌, ◌≡◌, refl, ◌⊎◌, inl, inr, ◌∙◌, none, List, [], ◌∷◌, arith,
  Bool-cases, Option-cases, In, count_where, true, set_has,
}
use memo_repo.Jobs.Tick.Queue.{is_ready, is_held, is_held_before, next_runnable_job-none}
use memo_repo.Jobs.Message.{◌+++◌}
use memo_repo.Jobs.Store.{Job}
use memo_repo.Jobs.Runner.{Runner, drawn}
use memo_repo.Jobs.Events.{write_event}
use memo_repo.Jobs.Events.Frame.{write_event-Same}
use memo_repo.Jobs.Tick.{
  start_run, fail, skip_job, skip_each, skip_blocked_dependents, next_runnable_job, tick_loop, tick,
}

-- The count of active runs and its bound are as they were.
record HasSlots (r s : Runner) : Type 0 where
  active : s.active_jobs ≡ r.active_jobs
  bound : s.concurrency ≡ r.concurrency

HasSlots-trans : {r s t : Runner} → HasSlots r s → HasSlots s t → HasSlots r t
HasSlots-trans h k = record { active = k.active ∙ h.active; bound = k.bound ∙ h.bound }

write_event-HasSlots : (id t m : String) (r : Runner) → HasSlots r (write_event id t m r)
write_event-HasSlots id t m r =
    let h = write_event-Same id t m r in record { active = h.active_jobs; bound = h.concurrency }

-- A change of a row, or of a field that does not count, and then an event.
written-HasSlots :
    (r s : Runner) (id t m : String)
    → s.active_jobs ≡ r.active_jobs
    → s.concurrency ≡ r.concurrency
    → HasSlots r (write_event id t m s)
written-HasSlots r s id t m a b =
    HasSlots-trans {s = s} (record { active = a; bound = b }) (write_event-HasSlots id t m s)

fail-HasSlots : (id m k : String) (r : Runner) → HasSlots r (fail id m k r)
unfolding fail
fail-HasSlots id m k r =
    HasSlots-trans (written-HasSlots r _ id "error" _ refl refl)
      (write_event-HasSlots id "status" "failed" _)

skip_job-HasSlots : (id : String) (r : Runner) → HasSlots r (skip_job id r)
unfolding skip_job
skip_job-HasSlots id r = written-HasSlots r _ id "status" "skipped" refl refl

skip_each-HasSlots : (js : List Job) (r : Runner) → HasSlots r (skip_each js r)
unfolding skip_each
skip_each-HasSlots [] r = record { active = refl; bound = refl }
skip_each-HasSlots (j ∷ js) r =
    HasSlots-trans (skip_job-HasSlots j.id r) (skip_each-HasSlots js (skip_job j.id r))

start_run-HasSlots : (j : Job) (r : Runner) → HasSlots r (start_run j r)
unfolding start_run
start_run-HasSlots j r = elim (Bool-cases (set_has j.kind r.handlers)) [
  | inl e ↦ rw (e, start_run) (written-HasSlots r _ j.id "status" "running" refl refl)
  | inr e ↦
      let h =
        fail-HasSlots j.id ("No handler registered for job type " +++ j.kind) j.kind (drawn r) in
      rw (e, start_run) (record { active = h.active; bound = h.bound })
]

-- A loop over as many rounds as there are free slots.
record IsFilled (r s : Runner) : Type 0 where
  bound_stays : s.concurrency ≡ r.concurrency
  within : s.active_jobs ≤ s.concurrency
  full : (s.concurrency ≤ s.active_jobs) ⊎ (next_runnable_job s.db ≡ none)

tick_loop-IsFilled :
    (left : ℕ) (r : Runner) → left + r.active_jobs ≡ r.concurrency → IsFilled r (tick_loop left r)
unfolding tick_loop
tick_loop-IsFilled zero r h = record {
  bound_stays = refl;
  within = omega (arith, h);
  full = inl (omega (arith, h));
}
tick_loop-IsFilled (suc left) r h = elim (Option-cases (next_runnable_job r.db)) [
  | inl e ↦
      rw (e, tick_loop) (record { bound_stays = refl; within = omega (arith, h); full = inr e })
  | inr (j, e) ↦
      let counted : Runner = record r { active_jobs = suc r.active_jobs } in
      let k = start_run-HasSlots j counted in
      let f = tick_loop-IsFilled left (start_run j counted) (omega (arith, h, k.active, k.bound)) in
      rw (e, tick_loop)
        (record { bound_stays = f.bound_stays ∙ k.bound; within = f.within; full = f.full })
]

-- A tick of a runner that is within its bound leaves it within, and every job of the table that waits and
-- whose dependencies have succeeded is left waiting for a reason: there is no slot free, a job that runs
-- conflicts with it, or twenty jobs that wait and are not younger are held up by jobs that run, which are
-- as many as are looked at.
pub tick-fills :
    (r : Runner) (c : Job)
    → r.active_jobs ≤ r.concurrency
    → In c (tick r).db.jobs
    → is_ready (tick r).db c ≡ true
    → let s = tick r in
      (s.concurrency ≡ r.concurrency)
      × (s.active_jobs ≤ s.concurrency)
      × ((s.concurrency ≤ s.active_jobs)
          ⊎ ((is_held s.db.jobs c ≡ true)
              ⊎ (20 ≤ count_where (is_held_before s.db.jobs c) s.db.jobs)))
unfolding tick skip_blocked_dependents
tick-fills r c h m ready =
    let rested = skip_blocked_dependents r in
    let k : HasSlots r rested = skip_each-HasSlots _ r in
    let f =
      tick_loop-IsFilled (rested.concurrency - rested.active_jobs) rested
        (omega (arith, h, k.active, k.bound)) in
    (
      f.bound_stays ∙ k.bound,
      f.within,
      elim f.full [
        | inl full ↦ inl full
        | inr e ↦ inr (next_runnable_job-none (tick r).db c e m ready)
      ],
    )
