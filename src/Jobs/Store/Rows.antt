-- ===== src/Jobs/Store/Rows.antt =====
-- Searching and updating the table `jobs`.
use memo_repo.Prelude.{
  In-All, sym, ◌∙◌, String, ◌≡◌, ◌≢◌, refl, ap, ◌⊎◌, inl, inr, Option, none, some, List, [], ◌∷◌,
  arith, eq_iff, ◌==◌, if◌then◌else◌, Bool-cases, In, All,
}
use memo_repo.Jobs.Store.{Job, find_job, update_jobs}

-- The primary key of `jobs`.
abbrev pub HasDistinctIds : List Job → Type 0
HasDistinctIds [] = Unit
HasDistinctIds (j ∷ js) = All (λ k. k.id ≢ j.id) js × HasDistinctIds js

-- A row of an updated table is an untouched row or a changed one.
pub In-update_jobs :
    (id : String) (f : Job → Job) (js : List Job) (a : Job)
    → In a (update_jobs id f js)
    → (x : Job) × In x js × (((x.id ≡ id) × (a ≡ f x)) ⊎ ((x.id ≢ id) × (a ≡ x)))
unfolding update_jobs
In-update_jobs id f [] a m = elim m [ ]
In-update_jobs id f (j ∷ js) a (inl e) = elim (Bool-cases (j.id == id)) [
  | inl q ↦ (j, inl refl, inl ((eq_iff j.id id).0 q, rw q at e))
  | inr q ↦ (j, inl refl, inr (λ p. cc (q, (eq_iff j.id id).1 p), rw q at e))
]
In-update_jobs id f (j ∷ js) a (inr m) = let (x, i, h) = In-update_jobs id f js a m in (x, inr i, h)

pub find_job-eq-some :
    (id : String) (js : List Job) (j : Job) → find_job id js ≡ some j → In j js × (j.id ≡ id)
unfolding find_job
find_job-eq-some id [] j h = cc
find_job-eq-some id (k ∷ ks) j h = elim (Bool-cases (k.id == id)) [
  | inl q ↦ let e : j ≡ k = ground arith in (inl e, ap (λ (x : Job). x.id) e ∙ (eq_iff k.id id).0 q)
  | inr q ↦ let (m, e) = find_job-eq-some id ks j (ground arith) in (inr m, e)
]

module _ (f : Job → Job) (keeps_id : (x : Job) → (f x).id ≡ x.id) where
  All-update_jobs :
      (P : String → Type 0) (id : String) (js : List Job)
      → All (λ k. P k.id) js
      → All (λ k. P k.id) (update_jobs id f js)
  unfolding update_jobs
  All-update_jobs P id [] h = tt
  All-update_jobs P id (j ∷ js) (p, h) = elim (Bool-cases (j.id == id)) [
    | inl q ↦ rw q (rw keeps_id p, All-update_jobs P id js h)
    | inr q ↦ rw q (p, All-update_jobs P id js h)
  ]

  pub update_jobs-HasDistinctIds :
      (id : String) (js : List Job) → HasDistinctIds js → HasDistinctIds (update_jobs id f js)
  unfolding update_jobs
  update_jobs-HasDistinctIds id [] h = tt
  update_jobs-HasDistinctIds id (j ∷ js) (p, h) = elim (Bool-cases (j.id == id)) [
    | inl q ↦ rw q (
      rw (keeps_id j) (All-update_jobs (λ i. i ≢ j.id) id js p),
      update_jobs-HasDistinctIds id js h,
    )
    | inr q ↦ rw q (All-update_jobs (λ i. i ≢ j.id) id js p, update_jobs-HasDistinctIds id js h)
  ]

  abbrev changed : String → Option Job → Option Job
  changed id none = none
  changed id (some j) = some (if j.id == id then f j else j)

  -- What a search finds in an updated table.
  pub find_job-update_jobs :
      (i id : String) (js : List Job)
      → find_job i (update_jobs id f js) ≡ changed id (find_job i js)
  unfolding find_job update_jobs
  find_job-update_jobs i id [] = refl
  find_job-update_jobs i id (j ∷ js) =
      let same : ((f j).id == i) ≡ (j.id == i) = ap (λ (s : String). s == i) (keeps_id j) in
      ground (arith, same, find_job-update_jobs i id js)

-- Two rows with one identifier are one row.
pub eq_of_id :
    (js : List Job) (x y : Job) → HasDistinctIds js → In x js → In y js → x.id ≡ y.id → x ≡ y
eq_of_id [] x y h m n e = elim m [ ]
eq_of_id (j ∷ js) x y (p, h) (inl a) (inl b) e = a ∙ sym b
eq_of_id (j ∷ js) x y (p, h) (inl a) (inr n) e =
    absurd (In-All (λ (k : Job). k.id ≢ j.id) js y p n (sym e ∙ ap (λ (k : Job). k.id) a))
eq_of_id (j ∷ js) x y (p, h) (inr m) (inl b) e =
    absurd (In-All (λ (k : Job). k.id ≢ j.id) js x p m (e ∙ ap (λ (k : Job). k.id) b))
eq_of_id (j ∷ js) x y (p, h) (inr m) (inr n) e = eq_of_id js x y h m n e

pub In-update_jobs_ne :
    (id : String) (f : Job → Job) (js : List Job) (x : Job)
    → In x js
    → x.id ≢ id
    → In x (update_jobs id f js)
unfolding update_jobs
In-update_jobs_ne id f [] x m h = elim m [ ]
In-update_jobs_ne id f (j ∷ js) x (inl e) h = elim (Bool-cases (j.id == id)) [
  | inl q ↦ absurd (h (ap (λ (k : Job). k.id) e ∙ (eq_iff j.id id).0 q))
  | inr q ↦ rw q (inl e)
]
In-update_jobs_ne id f (j ∷ js) x (inr m) h = inr (In-update_jobs_ne id f js x m h)
