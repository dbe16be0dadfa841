-- ===== src/Jobs/Tick/Select.antt =====
-- What `nextRunnableJob` of jobRunner.ts picks.
use memo_repo.Prelude.{
  String, true, false, not, ◌&&◌, ◌||◌, ◌≡◌, refl, ◌⊎◌, inl, inr, Option, none, some, List, [], ◌∷◌,
  arith, is_value, Bool-cases, In, In-filter, In-take, find?-eq-some, any-eq-false, filter, take,
  ltb,
}
use memo_repo.Jobs.Store.{Job, Database, has_dependency, is_running, is_pending}
use memo_repo.Jobs.Exclusion.{shared, is_absent, conflicts}
use memo_repo.Jobs.Tick.{
  is_null, insert_by_created, order_by_created, is_candidate, blocked_by, is_blocked,
  next_runnable_job, is_unfinished,
}

pub In-insert_by_created :
    (j : Job) (js : List Job) (a : Job) → In a (insert_by_created j js) → (a ≡ j) ⊎ In a js
unfolding insert_by_created
In-insert_by_created j [] a (inl e) = inl e
In-insert_by_created j [] a (inr m) = elim m [ ]
In-insert_by_created j (k ∷ ks) a m = elim (Bool-cases (ltb k.created_at j.created_at)) [
  | inl q ↦ elim (rw q at m) [
    | inl e ↦ inr (inl e)
    | inr i ↦ elim (In-insert_by_created j ks a i) [ inl e ↦ inl e | inr l ↦ inr (inr l) ]
  ]
  | inr q ↦ rw q at m
]

pub In-order_by_created : (js : List Job) (a : Job) → In a (order_by_created js) → In a js
unfolding order_by_created
In-order_by_created [] a m = elim m [ ]
In-order_by_created (j ∷ js) a m = elim (In-insert_by_created j (order_by_created js) a m) [
  | inl e ↦ inl e
  | inr i ↦ inr (In-order_by_created js a i)
]

-- A job that is picked is in the table, waits, has all its dependencies behind it and is not blocked.
pub record IsRunnable (db : Database) (j : Job) : Type 0 where
  pub member : In j db.jobs
  pub waiting : is_pending j.status ≡ true
  pub ready : has_dependency is_unfinished j.id db ≡ false
  pub free : is_blocked j db.jobs ≡ false

pub next_runnable_job-IsRunnable :
    (db : Database) (j : Job) → next_runnable_job db ≡ some j → IsRunnable db j
unfolding next_runnable_job
next_runnable_job-IsRunnable db j h =
    let candidates = order_by_created (filter (is_candidate db) db.jobs) in
    let (m, free) = find?-eq-some (λ c. not (is_blocked c db.jobs)) (take 20 candidates) j h in
    let (i, c) =
      In-filter (is_candidate db) db.jobs j (In-order_by_created _ j (In-take 20 candidates j m)) in
    record {
      member = i;
      waiting = unfold is_candidate in (ground arith);
      ready = unfold is_candidate in (ground arith);
      free = ground arith;
    }

free_case :
    (p q : Option String) (b : Job) (js : List Job)
    → blocked_by p q js ≡ false
    → In b js
    → is_running b.status ≡ true
    → (shared p b.space_repository_id
        || (shared q b.space_id && (is_absent p || is_absent b.space_repository_id)))
      ≡ false
unfolding blocked_by
free_case (some p) (some s) b js free m r =
    let one = any-eq-false (λ j. is_running j.status && is_value j.space_repository_id p) js b in
    let two =
      any-eq-false
        (λ j. is_running j.status && (is_value j.space_id s && is_null j.space_repository_id)) js
        b in
    ground (arith, one (ground arith) m, two (ground arith) m)
free_case (some p) none b js free m r =
    let one = any-eq-false (λ j. is_running j.status && is_value j.space_repository_id p) js b in
    ground (arith, one (ground arith) m)
free_case none (some s) b js free m r =
    let one = any-eq-false (λ j. is_running j.status && is_value j.space_id s) js b in
    ground (arith, one (ground arith) m)
free_case none none b js free m r = refl

-- A job that is not blocked conflicts with no running job.
pub free_of_conflicts :
    (c b : Job) (js : List Job)
    → is_blocked c js ≡ false
    → In b js
    → is_running b.status ≡ true
    → conflicts c b ≡ false
unfolding is_blocked conflicts
free_of_conflicts c b js free m r = free_case _ _ b js free m r
