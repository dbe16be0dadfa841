-- ===== src/Jobs/Tick/Moves/Skipping.antt =====
-- The changes of single rows, and the loop that skips the jobs behind an unsuccessful one.
use memo_repo.Prelude.{
  refl, [], ◌∷◌, inr, In-filter, inl, Bool-cases, ◌≢◌, All, ℕ, String, true, ◌≡◌, List, arith, In,
}
use memo_repo.Jobs.Store.{is_running, is_pending, Job, update_job, is_active}
use memo_repo.Jobs.Store.Rows.{In-update_jobs_ne, HasDistinctIds, eq_of_id}
use memo_repo.Jobs.Runner.{drawn, now, Runner}
use memo_repo.Jobs.Events.{write_event}
use memo_repo.Jobs.Events.Frame.{write_event-Same}
use memo_repo.Jobs.Exclusion.{IsCalm}
use memo_repo.Jobs.Table.{Moves-refl, Moves-trans, IsLive, edit, here, next, Moves, Same-Moves}
use memo_repo.Jobs.Tick.{
  is_skippable, ◌∷◌, filter, skip_blocked_dependents, Bool, skip_each, skip_job, update_record,
  as_skipped, as_failed, as_cancelled, as_succeeded,
}

pub as_skipped-IsCalm : (at : ℕ) → IsCalm (as_skipped at)
as_skipped-IsCalm at = ground arith

pub as_failed-IsCalm : (m : String) (at : ℕ) → IsCalm (as_failed m at)
as_failed-IsCalm m at = ground arith

pub as_cancelled-IsCalm : (m : String) (at : ℕ) → IsCalm (as_cancelled m at)
as_cancelled-IsCalm m at = ground arith

pub as_succeeded-IsCalm : (at : ℕ) → IsCalm (as_succeeded at)
as_succeeded-IsCalm at = ground arith

pub update_record-Moves :
    (id : String) (f : Job → Job) (r : Runner)
    → IsCalm f
    → (HasDistinctIds r.db.jobs → IsLive id r.db.jobs)
    → Moves r (update_record id f (drawn r))
unfolding update_job
update_record-Moves id f r c live = record { run = λ d. next here (edit id f c (live d)) }

pub write_event-Moves : (id t m : String) (r : Runner) → Moves r (write_event id t m r)
write_event-Moves id t m r = Same-Moves (write_event-Same id t m r)

-- A row that is pending or running is the only one with its identifier.
pub IsLive-row :
    (js : List Job) (j : Job)
    → In j js
    → is_active j.status ≡ true
    → HasDistinctIds js
    → IsLive j.id js
IsLive-row js j m a d x i e = let s : x ≡ j = eq_of_id js x j d i m e in rw s a

pub active_of_pending : (j : Job) → is_pending j.status ≡ true → is_active j.status ≡ true
active_of_pending j h = ground arith

pub active_of_running : (j : Job) → is_running j.status ≡ true → is_active j.status ≡ true
active_of_running j h = ground arith

-- The rows that are still to be skipped.
abbrev Waiting : List Job → List Job → Type 0
Waiting table js = All (λ j. In j table × (is_pending j.status ≡ true)) js

skip_job-Moves :
    (j : Job) (r : Runner) → In j r.db.jobs → is_pending j.status ≡ true → Moves r (skip_job j.id r)
unfolding skip_job
skip_job-Moves j r m p =
    Moves-trans
      (update_record-Moves j.id (as_skipped (now r)) r (as_skipped-IsCalm (now r))
        (IsLive-row r.db.jobs j m (active_of_pending j p)))
      (write_event-Moves j.id "status" "skipped" _)

Waiting-skip :
    (id : String) (r : Runner) (js : List Job)
    → All (λ j. j.id ≢ id) js
    → Waiting r.db.jobs js
    → Waiting (skip_job id r).db.jobs js
unfolding skip_job update_job
Waiting-skip id r [] h w = tt
Waiting-skip id r (j ∷ js) (n, h) ((m, p), w) = (
  (
    rw
        (write_event-Same id "status" "skipped"
          (update_record id (as_skipped (now r)) (drawn r))).jobs
        (In-update_jobs_ne id (as_skipped (now r)) r.db.jobs j m n),
    p,
  ),
  Waiting-skip id r js h w,
)

skip_each-Moves :
    (js : List Job) (r : Runner)
    → HasDistinctIds js
    → Waiting r.db.jobs js
    → Moves r (skip_each js r)
unfolding skip_each
skip_each-Moves [] r d w = Moves-refl r
skip_each-Moves (j ∷ js) r (n, d) ((m, p), w) =
    Moves-trans (skip_job-Moves j r m p)
      (skip_each-Moves js (skip_job j.id r) d (Waiting-skip j.id r js n w))

filter-All :
    {A : Type 0} (P : A → Type 0) (p : A → Bool) (xs : List A) → All P xs → All P (filter p xs)
filter-All P p [] h = tt
filter-All P p (x ∷ xs) (q, h) = elim (Bool-cases (p x)) [
  | inl e ↦ rw e (q, filter-All P p xs h)
  | inr e ↦ rw e (filter-All P p xs h)
]

pub filter-HasDistinctIds :
    (p : Job → Bool) (js : List Job) → HasDistinctIds js → HasDistinctIds (filter p js)
filter-HasDistinctIds p [] h = tt
filter-HasDistinctIds p (j ∷ js) (n, h) = elim (Bool-cases (p j)) [
  | inl e ↦ rw e (filter-All _ p js n, filter-HasDistinctIds p js h)
  | inr e ↦ rw e (filter-HasDistinctIds p js h)
]

pub All-of_In : {A : Type 0} (P : A → Type 0) (xs : List A) → ((x : A) → In x xs → P x) → All P xs
All-of_In P [] h = tt
All-of_In P (x ∷ xs) h = (h x (inl refl), All-of_In P xs (λ y m. h y (inr m)))

pub skip_blocked_dependents-Moves : (r : Runner) → Moves r (skip_blocked_dependents r)
unfolding skip_blocked_dependents is_skippable
skip_blocked_dependents-Moves r = record {
  run = λ d.
      (skip_each-Moves (filter (is_skippable r.db) r.db.jobs) r
          (filter-HasDistinctIds (is_skippable r.db) r.db.jobs d)
          (All-of_In _ _ (λ j m.
            let (i, h) = In-filter (is_skippable r.db) r.db.jobs j m in (i, ground arith)))).run
        d;
}
