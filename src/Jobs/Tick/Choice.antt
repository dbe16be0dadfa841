-- ===== src/Jobs/Tick/Choice.antt =====
-- What a job must meet for `nextRunnableJob` of jobRunner.ts to pick it.
use memo_repo.Prelude.{
  Bool-cases, Bool, true, not, ◌&&◌, ◌||◌, ◌≡◌, refl, ◌==◌, Option, none, some, List, [], ◌∷◌, In,
  inl, inr, every, arith, any-eq-false, Option-cases,
}
use memo_repo.Jobs.Store.{
  job_status_meets, Job, Dependency, Database, find_job, has_dependency, is_pending, is_running,
  is_succeeded,
}
use memo_repo.Jobs.Exclusion.{conflicts}
use memo_repo.Jobs.Tick.{next_runnable_job, is_unfinished}
use memo_repo.Jobs.Tick.Select.{next_runnable_job-IsRunnable, free_of_conflicts}

every-intro :
    {A : Type 0} (p : A → Bool) (xs : List A) → ((x : A) → In x xs → p x ≡ true) → every p xs ≡ true
every-intro p [] h = refl
every-intro p (x ∷ xs) h = ground (arith, h x (inl refl), every-intro p xs (λ y m. h y (inr m)))

-- A dependency whose job is gone holds nothing back.
abbrev pub is_met : Option Job → Bool
is_met none = true
is_met (some x) = is_succeeded x.status

abbrev pub holds_nothing_back : Database → Job → Dependency → Bool
holds_nothing_back db j d = not (d.job_id == j.id) || is_met (find_job d.dependency_job_id db.jobs)

abbrev pub leaves_free : Job → Job → Bool
leaves_free j b = not (is_running b.status) || not (conflicts j b)

-- The job that is picked is a pending one of the table, every dependency of it that is still in the
-- table has succeeded, and it conflicts with no job that runs.
pub next_runnable_job-fits :
    (db : Database) (j : Job)
    → next_runnable_job db ≡ some j
    → In j db.jobs
      × (is_pending j.status ≡ true)
      × (every (holds_nothing_back db j) db.dependencies ≡ true)
      × (every (leaves_free j) db.jobs ≡ true)
unfolding has_dependency
next_runnable_job-fits db j h =
    let w = next_runnable_job-IsRunnable db j h in
    (
      w.member,
      w.waiting,
      every-intro (holds_nothing_back db j) db.dependencies (λ d m.
          let a =
            any-eq-false
              (λ (r : Dependency).
                (r.job_id == j.id)
                && job_status_meets is_unfinished (find_job r.dependency_job_id db.jobs))
              db.dependencies d w.ready m in
          elim (Option-cases (find_job d.dependency_job_id db.jobs)) [
            | inl e ↦ ground (arith, e)
            | inr (x, e) ↦ ground (arith, a, e)
          ]),
      every-intro (leaves_free j) db.jobs (λ b m. elim (Bool-cases (is_running b.status)) [
        | inl r ↦ ground (arith, free_of_conflicts j b db.jobs w.free m r)
        | inr r ↦ ground arith
      ]),
    )
