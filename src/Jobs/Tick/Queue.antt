-- ===== src/Jobs/Tick/Queue.antt =====
-- The order in which `nextRunnableJob` of jobRunner.ts looks at the jobs, and what it passes over.
mod Order
use memo_repo.Prelude.{
  ℕ, String, zero, suc, ◌≤◌, ◌≡◌, refl, sym, ◌∙◌, ◌⊎◌, inl, inr, Bool, true, false, not, ◌&&◌, ◌||◌,
  Option, none, some, List, [], ◌∷◌, arith, ltb, leb, ◌==◌, Bool-cases, In, In-filter,
  In-filter_intro, In-take, and-eq-true, any, any-eq-true, find?-eq-none, every, filter, take,
  count_where, is_value,
}
use memo_repo.Jobs.Store.{
  Job, Dependency, Database, has_dependency, find_job, job_status_meets, is_pending, is_running,
}
use memo_repo.Jobs.Exclusion.{conflicts, shared, is_absent}
use memo_repo.Jobs.Tick.{
  insert_by_created, order_by_created, is_candidate, is_blocked, blocked_by, next_runnable_job,
  runs_in_repository, runs_space_job, runs_in_space, is_null, is_unfinished,
}
use memo_repo.Jobs.Tick.Select.{In-insert_by_created, In-order_by_created}
use memo_repo.Jobs.Tick.Choice.{holds_nothing_back, is_met}
use memo_repo.Jobs.Tick.Queue.Order.{
  count-order, order-IsByAge, count-filter-le, among_first, In-order,
}

-- Some job that runs conflicts with the job.
abbrev pub is_held : List Job → Job → Bool
is_held js c = any (λ b. is_running b.status && conflicts c b) js

-- The job waits, and each of its dependencies that is still in the table has succeeded.
abbrev pub is_ready : Database → Job → Bool
is_ready db c = is_pending c.status && every (holds_nothing_back db c) db.dependencies

-- A job that waits, is held up, and is not younger than `c`.
abbrev pub is_held_before : List Job → Job → Job → Bool
is_held_before js c d = (is_pending d.status && is_held js d) && leb d.created_at c.created_at

any-intro :
    {A : Type 0} (p : A → Bool) (xs : List A) (x : A) → In x xs → p x ≡ true → any p xs ≡ true
any-intro p [] x m h = elim m [ ]
any-intro p (y ∷ ys) x (inl e) h = rw (sym e, h) refl
any-intro p (y ∷ ys) x (inr m) h = rw (any-intro p ys x m h) (ground arith)

every-elim :
    {A : Type 0} (p : A → Bool) (xs : List A) (x : A) → every p xs ≡ true → In x xs → p x ≡ true
every-elim p [] x h m = elim m [ ]
every-elim p (y ∷ ys) x h (inl e) = rw e (ground arith)
every-elim p (y ∷ ys) x h (inr m) = every-elim p ys x (ground arith) m

-- What meets one test meets the other.
any-map :
    {A : Type 0} (p q : A → Bool) (xs : List A)
    → ((x : A) → p x ≡ true → q x ≡ true)
    → any p xs ≡ true
    → any q xs ≡ true
any-map p q xs f h = let (x, m, e) = any-eq-true p xs h in any-intro q xs x m (f x e)

-- `conflicts` behind `truthy`
abbrev clashes : Option String → Option String → Job → Bool
clashes p q b =
    shared p b.space_repository_id
    || (shared q b.space_id && (is_absent p || is_absent b.space_repository_id))

blocked_case :
    (p q : Option String) (js : List Job)
    → blocked_by p q js ≡ true
    → any (λ b. is_running b.status && clashes p q b) js ≡ true
unfolding blocked_by runs_in_repository runs_space_job runs_in_space
blocked_case (some p) (some s) js h = elim (Bool-cases (runs_in_repository p js)) [
  | inl e ↦
      any-map (λ j. is_running j.status && is_value j.space_repository_id p)
        (λ b. is_running b.status && clashes (some p) (some s) b) js (λ x k. ground arith) e
  | inr e ↦
      any-map (λ j. is_running j.status && (is_value j.space_id s && is_null j.space_repository_id))
        (λ b. is_running b.status && clashes (some p) (some s) b) js (λ x k. ground arith)
        (ground arith)
]
blocked_case (some p) none js h =
    any-map (λ j. is_running j.status && is_value j.space_repository_id p)
      (λ b. is_running b.status && clashes (some p) none b) js (λ x k. ground arith) h
blocked_case none (some s) js h =
    any-map (λ j. is_running j.status && is_value j.space_id s)
      (λ b. is_running b.status && clashes none (some s) b) js (λ x k. ground arith) h
blocked_case none none js h = cc

is_blocked-held : (c : Job) (js : List Job) → is_blocked c js ≡ true → is_held js c ≡ true
unfolding is_blocked conflicts
is_blocked-held c js h = blocked_case _ _ js h

abbrev waits_for : Database → Job → Dependency → Bool
waits_for db c d =
    d.job_id == c.id && job_status_meets is_unfinished (find_job d.dependency_job_id db.jobs)

met_or_waited :
    (o : Option Job) (b : Bool)
    → (not b || is_met o) ≡ true
    → (b && job_status_meets is_unfinished o) ≡ true
    → true ≡ false
met_or_waited none b h k = ground arith
met_or_waited (some x) b h k = ground arith

is_ready-candidate : (db : Database) (c : Job) → is_ready db c ≡ true → is_candidate db c ≡ true
unfolding is_candidate has_dependency
is_ready-candidate db c h = elim (Bool-cases (any (waits_for db c) db.dependencies)) [
  | inl e ↦
      let (d, m, w) = any-eq-true (waits_for db c) db.dependencies e in
      let nothing = every-elim (holds_nothing_back db c) db.dependencies d (ground arith) m in
      absurd (
        ground (
          arith,
          met_or_waited (find_job d.dependency_job_id db.jobs) (d.job_id == c.id) nothing w,
        ))
  | inr e ↦ ground arith
]

passed-held :
    (db : Database) (x : Job)
    → next_runnable_job db ≡ none
    → In x (take 20 (order_by_created (filter (is_candidate db) db.jobs)))
    → (is_pending x.status && is_held db.jobs x) ≡ true
unfolding next_runnable_job is_candidate
passed-held db x h k =
    let candidates = filter (is_candidate db) db.jobs in
    let ordered = order_by_created candidates in
    let passed = find?-eq-none (λ c. not (is_blocked c db.jobs)) (take 20 ordered) x h k in
    let held = is_blocked-held x db.jobs (ground arith) in
    let (i, c) =
      In-filter (is_candidate db) db.jobs x
        (In-order_by_created candidates x (In-take 20 ordered x k)) in
    ground arith

-- Where no job is picked, a job that is ready is held up itself, or twenty that are not younger are.
pub next_runnable_job-none :
    (db : Database) (c : Job)
    → next_runnable_job db ≡ none
    → In c db.jobs
    → is_ready db c ≡ true
    → (is_held db.jobs c ≡ true) ⊎ (20 ≤ count_where (is_held_before db.jobs c) db.jobs)
next_runnable_job-none db c h m ready =
    let candidates = filter (is_candidate db) db.jobs in
    let ordered = order_by_created candidates in
    let waiting =
      In-order candidates c
        (In-filter_intro (is_candidate db) db.jobs c m (is_ready-candidate db c ready)) in
    elim (among_first (λ x. is_pending x.status && is_held db.jobs x) 20 ordered c
      (order-IsByAge candidates) waiting (λ x k. passed-held db x h k)) [
        | inl k ↦
            inl ((and-eq-true (is_pending c.status) (is_held db.jobs c) (passed-held db c h k)).1)
        | inr k ↦ inr (
            omega (
              arith,
              k,
              count-order (is_held_before db.jobs c) candidates,
              count-filter-le (is_held_before db.jobs c) (is_candidate db) db.jobs,
            ))
      ]
