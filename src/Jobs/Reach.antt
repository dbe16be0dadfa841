-- ===== src/Jobs/Reach.antt =====
-- Every sequence of operations on a `JobRunner` (jobRunner.ts), as its clients, its timers and the
-- promises of its handlers may order them.
use memo_repo.Prelude.{All, String, true, false, ◌≡◌, ◌≢◌, List, In}
use memo_repo.Jobs.Store.{Job, is_active, is_running}
use memo_repo.Jobs.Exclusion.{conflicts}
use memo_repo.Jobs.Runner.{Runner}
use memo_repo.Jobs.Events.{write_event, flush_timer_fires}
use memo_repo.Jobs.Events.Frame.{flush_timer_fires-Same}
use memo_repo.Jobs.Table.{
  IsOrderly, IsRecorded, IsKept, Steps-keep, Moves, Same-Moves, IsOrderly-kept, IsRecorded-kept,
}
use memo_repo.Jobs.Tick.{tick, settle, finish_run, Outcome}
use memo_repo.Jobs.Tick.Moves.{tick-Moves, settle-Moves, finish_run-Moves}
use memo_repo.Jobs.Tick.Moves.Skipping.{write_event-Moves}
use memo_repo.Jobs.Enqueue.{Input, enqueue}
use memo_repo.Jobs.Enqueue.Moves.{enqueue-Moves}
use memo_repo.Jobs.Coalesce.{enqueue_coalesced}
use memo_repo.Jobs.Coalesce.Moves.{enqueue_coalesced-Moves}
use memo_repo.Jobs.Control.{
  Submission, submit_all, register, retry_job, cancel_job, start, stop, run_atomically,
}
use memo_repo.Jobs.Control.Moves.{
  IsNamedInput, IsNamedSubmission, submit_all-Moves, register-Moves, retry_job-Moves,
  cancel_job-Moves, run_atomically-Moves,
}
use memo_repo.Jobs.Control.Moves.Recovery.{start-Moves, stop-Moves}

-- One thing that happens to the runner. `report` is a handler's call of `log`; `polls` is the
-- interval timer; `ends` is a handler's promise that settles; `settles` is the `finally` callback
-- of one run; `transacts` is `runAtomically` over submissions of both kinds, of which any may throw.
pub data Act (r : Runner) : Runner → Type 0 where
  registers : (kind : String) → Act r (register kind r)
  submits : (i : Input) → IsNamedInput i → Act r (enqueue i r).1
  coalesces :
      (i : Input) (space print : String)
      → IsNamedInput i
      → Act r (enqueue_coalesced i space print r).1
  retries : (id : String) → Act r (retry_job id r).1
  cancels : (id : String) → Act r (cancel_job id r).1
  reports : (id message : String) → Act r (write_event id "log" message r)
  flushes : Act r (flush_timer_fires r)
  polls : Act r (tick r)
  ends : (j : Job) (out : Outcome) → Act r (finish_run j out r)
  settles : Act r (settle r)
  starts : Act r (start r)
  stops : Act r (stop r)
  transacts :
      (x : Submission) (xs : List Submission)
      → IsNamedSubmission x
      → All IsNamedSubmission xs
      → Act r (run_atomically (submit_all x xs) r).1

pub data Run (r : Runner) : Runner → Type 0 where
  idle : Run r r
  then : {s t : Runner} → Run r s → Act s t → Run r t

Act-Moves : {r s : Runner} → Act r s → IsOrderly r.db.jobs → Moves r s
Act-Moves {r} (registers kind) h = register-Moves kind r
Act-Moves {r} (submits i n) h = enqueue-Moves i r n
Act-Moves {r} (coalesces i space print n) h = enqueue_coalesced-Moves i space print r n
Act-Moves {r} (retries id) h = retry_job-Moves id r h.named
Act-Moves {r} (cancels id) h = cancel_job-Moves id r
Act-Moves {r} (reports id m) h = write_event-Moves id "log" m r
Act-Moves {r} flushes h = Same-Moves (flush_timer_fires-Same r)
Act-Moves {r} polls h = tick-Moves r
Act-Moves {r} (ends j out) h = finish_run-Moves j out r
Act-Moves {r} settles h = settle-Moves r
Act-Moves {r} starts h = start-Moves r
Act-Moves {r} stops h = stop-Moves r
Act-Moves {r} (transacts i is n ns) h =
    run_atomically-Moves (submit_all i is) r (λ s. submit_all-Moves i is s n ns)

Run-keeps :
    (P : List Job → Type 0)
    → IsKept P
    → {r s : Runner} → Run r s
    → IsOrderly r.db.jobs
    → P r.db.jobs
    → IsOrderly s.db.jobs × P s.db.jobs
Run-keeps P k idle o h = (o, h)
Run-keeps P k (then run act) o h =
    let (o', h') = Run-keeps P k run o h in
    let steps = (Act-Moves act o').run o'.distinct in
    (Steps-keep IsOrderly IsOrderly-kept steps o', Steps-keep P k steps h')

-- Whatever happens to a runner over an orderly table (distinct identifiers, no repository with an
-- empty name, no two running jobs in conflict), in whatever order, no two different jobs that run
-- conflict: they are not of one repository, nor of one space with one of them a job of the whole
-- space.
pub Run-exclusive :
    {r s : Runner}
    → Run r s
    → IsOrderly r.db.jobs
    → (a b : Job) → In a s.db.jobs
    → In b s.db.jobs
    → is_running a.status ≡ true
    → is_running b.status ≡ true
    → a.id ≢ b.id
    → conflicts a b ≡ false
Run-exclusive run o = (Run-keeps IsOrderly IsOrderly-kept run o o).0.exclusive

-- Whatever happens to a runner over an orderly table, the row of a job that is succeeded, failed,
-- skipped or cancelled stays in the table as it is: no field of it changes any more.
pub Run-finished_rows_stay :
    {r s : Runner}
    → Run r s
    → IsOrderly r.db.jobs
    → (x : Job) → In x r.db.jobs
    → is_active x.status ≡ false
    → In x s.db.jobs
Run-finished_rows_stay run o x m f =
    (Run-keeps (IsRecorded x) (IsRecorded-kept x) run o (o.distinct, m, f)).1.1
