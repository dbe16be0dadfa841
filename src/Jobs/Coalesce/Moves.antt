-- ===== src/Jobs/Coalesce/Moves.antt =====
-- `enqueueCoalesced` of jobRunner.ts changes the table `jobs` by the steps of `Jobs.Table`.
use memo_repo.Prelude.{
  ℕ, String, Bool, true, ◌≡◌, ◌≢◌, refl, ◌∙◌, inl, inr, Option, none, some, List, arith, In,
  Bool-cases, Option-cases, any, ◌==◌, find?-eq-some, In-filter, not, ◌&&◌, find?,
}
use memo_repo.Json.{str, obj}
use memo_repo.Json.Stable.{stable_json_stringify}
use memo_repo.Text.{is_blank}
use memo_repo.Jobs.Store.{Job, Database, is_active, is_pending, is_running, update_job}
use memo_repo.Jobs.Runner.{Runner, Result, ok, err, drawn, create_id, >>=-eq-ok}
use memo_repo.Jobs.Exclusion.{IsNamed, IsCalm}
use memo_repo.Jobs.Store.Rows.{HasDistinctIds}
use memo_repo.Jobs.Table.{edit, Steps, here, next, Moves, Moves-trans, Moves-refl}
use memo_repo.Jobs.Tick.{as_cancelled}
use memo_repo.Jobs.Tick.Moves.{request_tick-Moves}
use memo_repo.Jobs.Tick.Moves.Skipping.{IsLive-row, as_cancelled-IsCalm, write_event-Moves}
use memo_repo.Jobs.Enqueue.{
  Input, new_job, insert_with_dependencies, replace_dependencies, normalize_dependency_job_ids,
}
use memo_repo.Jobs.Enqueue.Order.{In-order_by}
use memo_repo.Jobs.Enqueue.Moves.{insert_with_dependencies-Steps, insert_dependencies-jobs}
use memo_repo.Jobs.Coalesce.{
  set_field, running_first, is_active_for, active_jobs_for, superseded_message, obsolete_pending,
  Coalesced, matched, as_requested, has_same_key, update_pending, coalesce_into, coalesce_unless,
  coalesce, report, report_superseded, finish_coalesced, coalesced_depending, enqueue_coalesced,
}

In-active_jobs_for :
    (kind space : String) (db : Database) (a : Job)
    → In a (active_jobs_for kind space db)
    → In a db.jobs
unfolding active_jobs_for
In-active_jobs_for kind space db a m =
    (In-filter (is_active_for kind space) db.jobs a (In-order_by running_first _ a m)).0

as_requested-IsCalm : (new : Job) → IsCalm (as_requested new)
as_requested-IsCalm new = ground arith

active_of_pending : (j : Job) → is_pending j.status ≡ true → is_active j.status ≡ true
active_of_pending j h = ground arith

-- Editing a pending row that a search has found.
edit-Steps :
    (f : Job → Job) (db : Database) (p : Job)
    → IsCalm f
    → In p db.jobs
    → is_pending p.status ≡ true
    → HasDistinctIds db.jobs
    → Steps db.jobs (update_job p.id f db).jobs
unfolding update_job
edit-Steps f db p c m w d =
    next here (edit p.id f c (IsLive-row db.jobs p m (active_of_pending p w) d))

abbrev Found : Database → Option Job → Type 0
Found db none = Unit
Found db (some p) = In p db.jobs × (is_pending p.status ≡ true)

find-Found :
    (p : Job → Bool) (js : List Job) (db : Database)
    → ((j : Job) → p j ≡ true → is_pending j.status ≡ true)
    → ((j : Job) → In j js → In j db.jobs)
    → Found db (find? p js)
find-Found p js db w i = elim (Option-cases (find? p js)) [
  | inl e ↦ rw e tt
  | inr (j, e) ↦ let (m, q) = find?-eq-some p js j e in rw e (i j m, w j q)
]

matched-Steps :
    (o : Option Job) (c : Job) (at : ℕ) (db : Database)
    → Found db o
    → HasDistinctIds db.jobs
    → Steps db.jobs (matched o c at db).1.jobs
unfolding matched
matched-Steps none c at db f d = here
matched-Steps (some o) c at db (m, w) d =
    edit-Steps (as_cancelled superseded_message at) db o (as_cancelled-IsCalm _ at) m w d

obsolete_pending-Found :
    (c : Job) (js : List Job) (db : Database)
    → ((j : Job) → In j js → In j db.jobs)
    → Found db (obsolete_pending c js)
unfolding obsolete_pending
obsolete_pending-Found c js db i = elim (Bool-cases (is_running c.status)) [
  | inl q ↦ rw q (find-Found _ js db (λ j h. ground arith) i)
  | inr q ↦ rw q tt
]

update_pending-Steps :
    (new p : Job) (db to : Database)
    → In p db.jobs
    → is_pending p.status ≡ true
    → HasDistinctIds db.jobs
    → update_pending new p db ≡ ok to
    → Steps db.jobs to.jobs
unfolding update_pending
update_pending-Steps new p db to m w d h =
    elim (Bool-cases
      (any (λ k. not (k.id == p.id) && has_same_key new.deduplication_key k) db.jobs)) [
        | inl q ↦ cc (rw q at h)
        | inr q ↦
            let e : update_job p.id (as_requested new) db ≡ to = cc (rw q at h) in
            rw (← e) (edit-Steps (as_requested new) db p (as_requested-IsCalm new) m w d)
      ]

pub replace_dependencies-jobs :
    (id : String) (ds : List String) (at : ℕ) (db to : Database)
    → replace_dependencies id ds at db ≡ ok to
    → to.jobs ≡ db.jobs
unfolding replace_dependencies
replace_dependencies-jobs id ds at db to h = insert_dependencies-jobs id ds at _ to h

coalesce_into-Steps :
    (o : Option Job) (new : Job) (ds : List String) (db : Database) (x : Coalesced × Database)
    → Found db o
    → is_pending new.status ≡ true
    → IsNamed new
    → HasDistinctIds db.jobs
    → coalesce_into o new ds db ≡ ok x
    → Steps db.jobs x.1.jobs
unfolding coalesce_into
coalesce_into-Steps (some p) new ds db x (m, w) q n d h =
    let (mid, e, k) = >>=-eq-ok (update_pending new p db) _ h in
    let (to, e', k') = >>=-eq-ok (replace_dependencies p.id ds new.created_at mid) _ k in
    let same : x.1.jobs ≡ to.jobs = ground arith in
    rw (same ∙ replace_dependencies-jobs p.id ds new.created_at mid to e')
      (update_pending-Steps new p db mid m w d e)
coalesce_into-Steps none new ds db x f q n d h =
    let (to, e, k) = >>=-eq-ok (insert_with_dependencies new ds db) _ h in
    let same : x.1.jobs ≡ to.jobs = ground arith in
    rw same (insert_with_dependencies-Steps new ds db to q n e)

coalesce_unless-Steps :
    (o : Option Job) (active : List Job) (new : Job) (ds : List String) (db : Database)
    (x : Coalesced × Database)
    → ((j : Job) → In j active → In j db.jobs)
    → is_pending new.status ≡ true
    → IsNamed new
    → HasDistinctIds db.jobs
    → coalesce_unless o active new ds db ≡ ok x
    → Steps db.jobs x.1.jobs
unfolding coalesce_unless
coalesce_unless-Steps (some c) active new ds db x i q n d h =
    let found = obsolete_pending c active in
    let same : x.1.jobs ≡ (matched found c new.created_at db).1.jobs = ground arith in
    rw same (matched-Steps found c new.created_at db (obsolete_pending-Found c active db i) d)
coalesce_unless-Steps none active new ds db x i q n d h =
    coalesce_into-Steps (find? (λ j. is_pending j.status) active) new ds db x
      (find-Found _ active db (λ j e. e) i) q n d h

coalesce-Steps :
    (space : String) (new : Job) (ds : List String) (db : Database) (x : Coalesced × Database)
    → is_pending new.status ≡ true
    → IsNamed new
    → HasDistinctIds db.jobs
    → coalesce space new ds db ≡ ok x
    → Steps db.jobs x.1.jobs
unfolding coalesce
coalesce-Steps space new ds db x q n d h =
    coalesce_unless-Steps _ (active_jobs_for new.kind space db) new ds db x
      (λ j m. In-active_jobs_for new.kind space db j m) q n d h

report-Moves : (c : Coalesced) (r : Runner) → Moves r (report c r)
unfolding report
report-Moves c r = elim (Bool-cases c.created) [
  | inl e ↦ rw e (write_event-Moves c.job.id "status" "pending" r)
  | inr e ↦ elim (Bool-cases c.updated) [
    | inl q ↦ rw (e, q) (write_event-Moves c.job.id "coalesced" _ r)
    | inr q ↦ rw (e, q) (Moves-refl r)
  ]
]

report_superseded-Moves : (o : Option String) (r : Runner) → Moves r (report_superseded o r)
unfolding report_superseded
report_superseded-Moves none r = Moves-refl r
report_superseded-Moves (some id) r = write_event-Moves id "status" "cancelled" r

finish_coalesced-Moves :
    (m : Result (Coalesced × Database)) (r : Runner)
    → (HasDistinctIds r.db.jobs → (x : Coalesced × Database) → m ≡ ok x → Steps r.db.jobs x.1.jobs)
    → Moves r (finish_coalesced m r).1
unfolding finish_coalesced
finish_coalesced-Moves (err e) r h = Moves-refl r
finish_coalesced-Moves (ok (c, db)) r h =
    let stored : Runner = record r { db = db } in
    Moves-trans (record { run = λ d. h d (c, db) refl })
      (Moves-trans (report-Moves c stored) (
        Moves-trans (report_superseded-Moves c.superseded_id (report c stored))
          (request_tick-Moves _)))

coalesced_depending-Moves :
    (i : Input) (space fingerprint : String) (m : Result (List String)) (r : Runner)
    → i.space_repository_id ≢ some ""
    → Moves r (coalesced_depending i space fingerprint m r).1
unfolding coalesced_depending new_job
coalesced_depending-Moves i space fingerprint (err e) r n = Moves-refl r
coalesced_depending-Moves i space fingerprint (ok ds) r n =
    let payload = set_field "inputFingerprint" (str fingerprint) i.payload in
    let asked : Input = record i { space_id = some space } in
    let new = new_job (create_id "job" r) asked ds (stable_json_stringify (obj payload)) r in
    let m =
      finish_coalesced-Moves (coalesce space new ds r.db) (drawn r)
        (λ d x e. coalesce-Steps space new ds r.db x refl n d e) in
    record { run = m.run }

pub enqueue_coalesced-Moves :
    (i : Input) (space fingerprint : String) (r : Runner)
    → i.space_repository_id ≢ some ""
    → Moves r (enqueue_coalesced i space fingerprint r).1
unfolding enqueue_coalesced
enqueue_coalesced-Moves i space fingerprint r n = elim (Bool-cases (is_blank fingerprint)) [
  | inl q ↦ rw q (Moves-refl r)
  | inr q ↦
      rw q (coalesced_depending-Moves i space fingerprint (normalize_dependency_job_ids i) r n)
]
