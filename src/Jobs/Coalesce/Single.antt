-- ===== src/Jobs/Coalesce/Single.antt =====
-- `enqueueCoalesced` of jobRunner.ts never adds a second pending job for a type and a space.
use memo_repo.Prelude.{
  ltb, ◌⊎◌, ℕ, String, ◌+◌, ◌≤◌, ◌≡◌, refl, ◌∙◌, ◌==◌, Bool, true, false, not, ◌&&◌, Option, none,
  some, List, [], ◌∷◌, ◌++◌, In, inl, inr, arith, Bool-cases, any, find?, count_where,
  if◌then◌else◌, In-filter_intro, find?-eq-none, is_value,
}
use memo_repo.Jobs.Store.{Job, Database, is_pending, update_jobs, update_job}
use memo_repo.Jobs.Runner.{ok, >>=-eq-ok}
use memo_repo.Jobs.Tick.{as_cancelled}
use memo_repo.Jobs.Enqueue.{
  insert_by, order_by, insert_job, insert_dependencies, insert_with_dependencies,
}
use memo_repo.Jobs.Enqueue.Moves.{insert_job-eq-ok, insert_dependencies-jobs}
use memo_repo.Jobs.Coalesce.{
  replace_dependencies, superseded_message, Coalesced, coalesce, coalesce_unless, coalesce_into,
  matched, update_pending, as_requested, obsolete_pending, active_jobs_for, is_active_for,
  running_first, has_same_key,
}
use memo_repo.Jobs.Coalesce.Moves.{replace_dependencies-jobs}

abbrev pub is_pending_for : String → String → Job → Bool
is_pending_for kind space j = (j.kind == kind && is_value j.space_id space) && is_pending j.status

-- How many pending jobs the table has for a type and a space.
abbrev pub pending_count : String → String → Database → ℕ
pending_count kind space db = count_where (is_pending_for kind space) db.jobs

count_where-append :
    (p : Job → Bool) (xs ys : List Job)
    → count_where p (xs ++ ys) ≡ count_where p xs + count_where p ys
count_where-append p [] ys = omega arith
count_where-append p (x ∷ xs) ys = omega (arith, count_where-append p xs ys)

count_where-none :
    (p : Job → Bool) (xs : List Job) → ((x : Job) → In x xs → p x ≡ false) → count_where p xs ≡ 0
count_where-none p [] h = refl
count_where-none p (x ∷ xs) h =
    let e = h x (inl refl) in
    let k = count_where-none p xs (λ y m. h y (inr m)) in rw e (omega (arith, k))

count_where-update_jobs-le :
    (p : Job → Bool) (id : String) (f : Job → Job) (xs : List Job)
    → ((j : Job) → p (f j) ≡ true → p j ≡ true)
    → count_where p (update_jobs id f xs) ≤ count_where p xs
unfolding update_jobs
count_where-update_jobs-le p id f [] h = omega arith
count_where-update_jobs-le p id f (x ∷ xs) h =
    let k = count_where-update_jobs-le p id f xs h in
    elim (Bool-cases (x.id == id)) [
      | inr e ↦ rw e (omega (arith, k))
      | inl e ↦ elim (Bool-cases (p (f x))) [
        | inl q ↦ rw (e, q, h x q) (omega (arith, k))
        | inr q ↦ rw (e, q) (omega (arith, k))
      ]
    ]

In-insert_by :
    (before : Job → Job → Bool) (j : Job) (js : List Job) (a : Job)
    → (a ≡ j) ⊎ In a js
    → In a (insert_by before j js)
unfolding insert_by
In-insert_by before j [] a (inl e) = inl e
In-insert_by before j [] a (inr m) = elim m [ ]
In-insert_by before j (k ∷ ks) a m = elim (Bool-cases (before k j)) [
  | inl q ↦ rw q (elim m [
    | inl e ↦ inr (In-insert_by before j ks a (inl e))
    | inr (inl e) ↦ inl e
    | inr (inr i) ↦ inr (In-insert_by before j ks a (inr i))
  ])
  | inr q ↦ rw q m
]

In-order_by :
    (before : Job → Job → Bool) (js : List Job) (a : Job) → In a js → In a (order_by before js)
unfolding order_by
In-order_by before [] a m = m
In-order_by before (j ∷ js) a (inl e) = In-insert_by before j (order_by before js) a (inl e)
In-order_by before (j ∷ js) a (inr m) =
    In-insert_by before j (order_by before js) a (inr (In-order_by before js a m))

-- Where no active job of the type and space is pending, the table has none that is.
none_pending :
    (kind space : String) (db : Database)
    → find? (λ j. is_pending j.status) (active_jobs_for kind space db) ≡ none
    → pending_count kind space db ≡ 0
unfolding active_jobs_for
none_pending kind space db h = count_where-none (is_pending_for kind space) db.jobs (λ x m.
    elim (Bool-cases (is_pending_for kind space x)) [
      | inr e ↦ e
      | inl e ↦
          let a : is_active_for kind space x ≡ true = ground arith in
          let i =
            In-order_by running_first _ x
              (In-filter_intro (is_active_for kind space) db.jobs x m a) in
          let n =
            find?-eq-none (λ (j : Job). is_pending j.status) (active_jobs_for kind space db) x h
              i in
          ground arith
    ])

update_pending-single :
    (new p : Job) (db to : Database) (kind space : String)
    → update_pending new p db ≡ ok to
    → pending_count kind space to ≤ pending_count kind space db
unfolding update_pending update_job
update_pending-single new p db to kind space h =
    elim (Bool-cases
      (any (λ k. not (k.id == p.id) && has_same_key new.deduplication_key k) db.jobs)) [
        | inl q ↦ cc (rw q at h)
        | inr q ↦
            let e : update_job p.id (as_requested new) db ≡ to = cc (rw q at h) in
            rw (← e) (
              count_where-update_jobs-le (is_pending_for kind space) p.id (as_requested new) db.jobs
                (λ j m. m))
      ]

insert_with_dependencies-jobs :
    (new : Job) (ds : List String) (db to : Database)
    → insert_with_dependencies new ds db ≡ ok to
    → to.jobs ≡ db.jobs ++ new ∷ []
unfolding insert_with_dependencies
insert_with_dependencies-jobs new ds db to h =
    let (mid, e, k) =
      >>=-eq-ok (insert_job new db) (insert_dependencies new.id ds new.created_at) h in
    let (s, fresh) = insert_job-eq-ok new db e in
    let there : mid.jobs ≡ db.jobs ++ new ∷ [] = ground arith in
    insert_dependencies-jobs new.id ds new.created_at mid to k ∙ there

matched-single :
    (o : Option Job) (c : Job) (at : ℕ) (db : Database) (kind space : String)
    → pending_count kind space (matched o c at db).1 ≤ pending_count kind space db
unfolding matched update_job
matched-single none c at db kind space = omega arith
matched-single (some o) c at db kind space =
    count_where-update_jobs-le (is_pending_for kind space) o.id (as_cancelled superseded_message at)
      db.jobs (λ j m. ground (arith, m))

coalesce_into-single :
    (o : Option Job) (new : Job) (ds : List String) (db : Database) (x : Coalesced × Database)
    (kind space : String)
    → (o ≡ none → pending_count kind space db ≡ 0)
    → coalesce_into o new ds db ≡ ok x
    → pending_count kind space x.1
      ≤ (if ltb (pending_count kind space db) 1 then 1 else pending_count kind space db)
unfolding coalesce_into
coalesce_into-single (some p) new ds db x kind space z h =
    let (mid, e, k) = >>=-eq-ok (update_pending new p db) _ h in
    let (to, e', k') = >>=-eq-ok (replace_dependencies p.id ds new.created_at mid) _ k in
    let same : x.1.jobs ≡ to.jobs = ground arith in
    let u = update_pending-single new p db mid kind space e in
    rw (same ∙ replace_dependencies-jobs p.id ds new.created_at mid to e') (ground (arith, u))
coalesce_into-single none new ds db x kind space z h =
    let (to, e, k) = >>=-eq-ok (insert_with_dependencies new ds db) _ h in
    let same : x.1.jobs ≡ to.jobs = ground arith in
    rw (same ∙ insert_with_dependencies-jobs new ds db to e)
      (ground (arith, z refl, count_where-append (is_pending_for kind space) db.jobs (new ∷ [])))

coalesce_unless-single :
    (o : Option Job) (active : List Job) (new : Job) (ds : List String) (db : Database)
    (x : Coalesced × Database) (kind space : String)
    → (find? (λ j. is_pending j.status) active ≡ none → pending_count kind space db ≡ 0)
    → coalesce_unless o active new ds db ≡ ok x
    → pending_count kind space x.1
      ≤ (if ltb (pending_count kind space db) 1 then 1 else pending_count kind space db)
unfolding coalesce_unless
coalesce_unless-single (some c) active new ds db x kind space z h =
    let found = obsolete_pending c active in
    let same : x.1.jobs ≡ (matched found c new.created_at db).1.jobs = ground arith in
    rw same (ground (arith, matched-single found c new.created_at db kind space))
coalesce_unless-single none active new ds db x kind space z h =
    coalesce_into-single (find? (λ j. is_pending j.status) active) new ds db x kind space z h

-- Submitting a job by coalescing never leaves more pending jobs of its type in its space than there
-- were before, or than one where there was none.
pub coalesce-single :
    (space : String) (new : Job) (ds : List String) (db : Database) (x : Coalesced × Database)
    → coalesce space new ds db ≡ ok x
    → pending_count new.kind space x.1
      ≤ (if ltb (pending_count new.kind space db) 1 then 1 else pending_count new.kind space db)
unfolding coalesce
coalesce-single space new ds db x h =
    coalesce_unless-single _ (active_jobs_for new.kind space db) new ds db x new.kind space
      (none_pending new.kind space db) h
