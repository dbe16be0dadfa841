-- ===== src/Jobs/Enqueue/Moves.antt =====
-- `enqueue` of jobRunner.ts changes the table `jobs` by the steps of `Jobs.Table`.
use memo_repo.Prelude.{
  ◌&&◌, ℕ, String, true, false, ◌≡◌, ◌≢◌, refl, sym, ◌∙◌, inl, inr, Option, none, some, List, [],
  ◌∷◌, ◌++◌, arith, Bool-cases, any, ◌==◌, eq_iff,
}
use memo_repo.Jobs.Store.{Job, Dependency, Database, is_active, is_pending}
use memo_repo.Jobs.Runner.{>>=-eq-ok, Runner, Result, ok, err, drawn, create_id}
use memo_repo.Jobs.Exclusion.{IsNamed}
use memo_repo.Jobs.Table.{IsFresh, add, Steps, here, next, Moves, Moves-trans, Moves-refl}
use memo_repo.Jobs.Tick.Moves.{request_tick-Moves}
use memo_repo.Jobs.Tick.Moves.Skipping.{write_event-Moves}
use memo_repo.Jobs.Enqueue.{
  Input, has_key_of, insert_job, insert_dependency, insert_dependencies, insert_with_dependencies,
  new_job, finish_enqueue, enqueue_unless, enqueue_depending, enqueue_canonical, enqueue,
  find_active_duplicate, create_job_deduplication_key, normalize_dependency_job_ids,
}

IsFresh-of_any : (id : String) (js : List Job) → any (λ k. k.id == id) js ≡ false → IsFresh id js
IsFresh-of_any id [] h = tt
IsFresh-of_any id (k ∷ ks) h = elim (Bool-cases (k.id == id)) [
  | inl q ↦ absurd (ground arith)
  | inr q ↦ (λ e. cc ((eq_iff k.id id).1 e), IsFresh-of_any id ks (ground arith))
]

-- A row that is inserted has a new identifier, and stands behind the others.
pub insert_job-eq-ok :
    (j : Job) (db : Database) {to : Database}
    → insert_job j db ≡ ok to
    → (ok to ≡ ok (record db { jobs = db.jobs ++ j ∷ [] })) × IsFresh j.id db.jobs
unfolding insert_job
insert_job-eq-ok j db h = elim (Bool-cases (any (λ k. k.id == j.id) db.jobs)) [
  | inl q ↦ cc (rw q at h)
  | inr q ↦ elim (Bool-cases (is_active j.status && any (has_key_of j) db.jobs)) [
    | inl p ↦ cc (rw (q, p) at h)
    | inr p ↦ (sym (rw (q, p) at h), IsFresh-of_any j.id db.jobs q)
  ]
]

insert_dependency-jobs :
    (r : Dependency) (db : Database) (to : Database)
    → insert_dependency r db ≡ ok to
    → to.jobs ≡ db.jobs
unfolding insert_dependency
insert_dependency-jobs r db to h = ground arith

pub insert_dependencies-jobs :
    (id : String) (ds : List String) (at : ℕ) (db : Database) (to : Database)
    → insert_dependencies id ds at db ≡ ok to
    → to.jobs ≡ db.jobs
unfolding insert_dependencies
insert_dependencies-jobs id [] at db to h = ground arith
insert_dependencies-jobs id (d ∷ ds) at db to h =
    let row : Dependency = record { job_id = id; dependency_job_id = d; created_at = at } in
    let (mid, e, k) = >>=-eq-ok (insert_dependency row db) (insert_dependencies id ds at) h in
    insert_dependencies-jobs id ds at mid to k ∙ insert_dependency-jobs row db mid e

pub insert_with_dependencies-Steps :
    (j : Job) (ds : List String) (db : Database) (to : Database)
    → is_pending j.status ≡ true
    → IsNamed j
    → insert_with_dependencies j ds db ≡ ok to
    → Steps db.jobs to.jobs
unfolding insert_with_dependencies
insert_with_dependencies-Steps j ds db to p n h =
    let (mid, e, k) = >>=-eq-ok (insert_job j db) (insert_dependencies j.id ds j.created_at) h in
    let (s, fresh) = insert_job-eq-ok j db e in
    let same : mid.jobs ≡ db.jobs ++ j ∷ [] = ground arith in
    rw (insert_dependencies-jobs j.id ds j.created_at mid to k ∙ same) (next here (add j fresh p n))

finish_enqueue-Moves :
    (j : Job) (m : Result Database) (r : Runner)
    → ((to : Database) → m ≡ ok to → Steps r.db.jobs to.jobs)
    → Moves r (finish_enqueue j m r).1
unfolding finish_enqueue
finish_enqueue-Moves j (err e) r h = Moves-refl r
finish_enqueue-Moves j (ok db) r h =
    Moves-trans (record { run = λ d. h db refl })
      (Moves-trans (write_event-Moves j.id "status" "pending" (record r { db = db }))
        (request_tick-Moves _))

enqueue_unless-Moves :
    (o : Option Job) (j : Job) (ds : List String) (r : Runner)
    → is_pending j.status ≡ true
    → IsNamed j
    → Moves r (enqueue_unless o j ds r).1
unfolding enqueue_unless
enqueue_unless-Moves (some x) j ds r p n = request_tick-Moves r
enqueue_unless-Moves none j ds r p n =
    finish_enqueue-Moves j (insert_with_dependencies j ds r.db) r
      (λ to e. insert_with_dependencies-Steps j ds r.db to p n e)

enqueue_depending-Moves :
    (i : Input) (text : String) (m : Result (List String)) (r : Runner)
    → i.space_repository_id ≢ some ""
    → Moves r (enqueue_depending i text m r).1
unfolding enqueue_depending new_job
enqueue_depending-Moves i text (err e) r n = record { run = λ d. here }
enqueue_depending-Moves i text (ok ds) r n =
    let j = new_job (create_id "job" r) i ds text r in
    let found = find_active_duplicate (create_job_deduplication_key r.env j ds) r.db in
    let m = enqueue_unless-Moves found j ds (drawn r) refl n in record { run = m.run }

pub enqueue_canonical-Moves :
    (i : Input) (text : String) (r : Runner)
    → i.space_repository_id ≢ some ""
    → Moves r (enqueue_canonical i text r).1
unfolding enqueue_canonical
enqueue_canonical-Moves i text r n =
    enqueue_depending-Moves i text (normalize_dependency_job_ids i) r n

pub enqueue-Moves :
    (i : Input) (r : Runner) → i.space_repository_id ≢ some "" → Moves r (enqueue i r).1
unfolding enqueue
enqueue-Moves i r n = enqueue_canonical-Moves i _ r n
