-- ===== src/Jobs/Table.antt =====
-- The steps by which the runner may change the table `jobs`, and what every sequence of them keeps.
-- Each operation of jobRunner.ts is shown to be such a sequence in a module below its own.
use memo_repo.Prelude.{
  ℕ, String, true, false, ◌≡◌, ◌≢◌, refl, sym, ap, ◌∙◌, inl, inr, List, [], ◌∷◌, ◌++◌, arith, In,
  All, In-append,
}
use memo_repo.Jobs.Store.{Job, is_pending, is_running, is_active, update_jobs}
use memo_repo.Jobs.Store.Rows.{
  In-update_jobs_ne, eq_of_id, HasDistinctIds, In-update_jobs, update_jobs-HasDistinctIds,
}
use memo_repo.Jobs.Exclusion.{
  IsNamed, IsCalm, IsExclusive, conflicts, conflicts_symm, conflicts-eq, update_jobs-IsExclusive,
}
use memo_repo.Jobs.Runner.{Runner}
use memo_repo.Jobs.Events.Frame.{Same}
use memo_repo.Jobs.Tick.{as_running, is_blocked}
use memo_repo.Jobs.Tick.Select.{free_of_conflicts}

-- Every row with the identifier is pending or running.
abbrev pub IsLive : String → List Job → Type 0
IsLive id js = (x : Job) → In x js → x.id ≡ id → is_active x.status ≡ true

abbrev pub IsFresh : String → List Job → Type 0
IsFresh id js = All (λ k. k.id ≢ id) js

pub data Step (js : List Job) : List Job → Type 0 where
  add :
      (j : Job) → IsFresh j.id js → is_pending j.status ≡ true → IsNamed j → Step js (js ++ j ∷ [])
  edit : (id : String) (f : Job → Job) → IsCalm f → IsLive id js → Step js (update_jobs id f js)
  start :
      (j : Job) (at : ℕ)
      → In j js
      → IsLive j.id js
      → is_blocked j js ≡ false
      → Step js (update_jobs j.id (as_running at) js)

pub data Steps (js : List Job) : List Job → Type 0 where
  here : Steps js js
  next : {ks ls : List Job} → Steps js ks → Step ks ls → Steps js ls

pub Steps-trans : {js ks ls : List Job} → Steps js ks → Steps ks ls → Steps js ls
Steps-trans p here = p
Steps-trans p (next q s) = next (Steps-trans p q) s

-- A property that each step keeps.
pub record IsKept (P : List Job → Type 0) : Type 0 where
  pub step : {js ks : List Job} → Step js ks → P js → P ks

pub Steps-keep : (P : List Job → Type 0) → IsKept P → {js ks : List Job} → Steps js ks → P js → P ks
Steps-keep P k here h = h
Steps-keep P k (next p s) h = k.step s (Steps-keep P k p h)

All-snoc :
    {A : Type 0} (P : A → Type 0) (xs : List A) (y : A) → All P xs → P y → All P (xs ++ y ∷ [])
All-snoc P [] y h p = (p, tt)
All-snoc P (x ∷ xs) y (q, h) p = (q, All-snoc P xs y h p)

append-HasDistinctIds :
    (js : List Job) (j : Job) → HasDistinctIds js → IsFresh j.id js → HasDistinctIds (js ++ j ∷ [])
append-HasDistinctIds [] j h f = (tt, tt)
append-HasDistinctIds (k ∷ ks) j (p, h) (q, f) =
    (All-snoc _ ks j p (λ e. q (sym e)), append-HasDistinctIds ks j h f)

distinct_step : {js ks : List Job} → Step js ks → HasDistinctIds js → HasDistinctIds ks
distinct_step {js} (add j fresh _ _) h = append-HasDistinctIds js j h fresh
distinct_step {js} (edit id f calm live) h = update_jobs-HasDistinctIds f calm.id id js h
distinct_step {js} (start j at m live free) h =
    update_jobs-HasDistinctIds (as_running at) (λ x. refl) j.id js h

pub distinct_kept : IsKept HasDistinctIds
distinct_kept = record { step = distinct_step }

-- Identifiers are distinct, no repository has an empty name, and no two running jobs conflict.
pub record IsOrderly (js : List Job) : Type 0 where
  pub distinct : HasDistinctIds js
  pub named : (a : Job) → In a js → IsNamed a
  pub exclusive : IsExclusive js

IsNamed-update :
    (id : String) (f : Job → Job) (js : List Job)
    → ((x : Job) → (f x).space_repository_id ≡ x.space_repository_id)
    → ((a : Job) → In a js → IsNamed a)
    → (a : Job) → In a (update_jobs id f js)
    → IsNamed a
IsNamed-update id f js same h a m =
    let (x, i, o) = In-update_jobs id f js a m in
    elim o [
      | inl (_, e) ↦ λ q. h x i (sym (same x) ∙ ap (λ (y : Job). y.space_repository_id) (sym e) ∙ q)
      | inr (_, e) ↦ λ q. h x i (ap (λ (y : Job). y.space_repository_id) (sym e) ∙ q)
    ]

IsNamed-append :
    (js : List Job) (j a : Job)
    → IsNamed j
    → ((x : Job) → In x js → IsNamed x)
    → In a (js ++ j ∷ [])
    → IsNamed a
IsNamed-append js j a n h m = elim (In-append js (j ∷ []) a m) [
  | inl i ↦ h a i
  | inr (inr z) ↦ elim z [ ]
  | inr (inl e) ↦ λ q. n (ap (λ (y : Job). y.space_repository_id) (sym e) ∙ q)
]

runs_before :
    (js : List Job) (j a : Job)
    → is_pending j.status ≡ true
    → is_running a.status ≡ true
    → In a (js ++ j ∷ [])
    → In a js
runs_before js j a p r m = elim (In-append js (j ∷ []) a m) [
  | inl i ↦ i
  | inr (inr z) ↦ elim z [ ]
  | inr (inl e) ↦ absurd (ground (arith, e))
]

-- A row behind the start of `j`: the started job, or a row as it was.
data After (j : Job) (js : List Job) (a : Job) : Type 0 where
  started :
      a.space_id ≡ j.space_id
      → a.space_repository_id ≡ j.space_repository_id
      → a.id ≡ j.id
      → After j js a
  old : In a js → After j js a

after_start :
    (j : Job) (at : ℕ) (js : List Job) (a : Job)
    → HasDistinctIds js
    → In j js
    → In a (update_jobs j.id (as_running at) js)
    → After j js a
after_start j at js a d m n =
    let (x, i, o) = In-update_jobs j.id (as_running at) js a n in
    elim o [
      | inl (q, e) ↦ let s : x ≡ j = eq_of_id js x j d i m q in started (cc) (cc) (cc)
      | inr (_, e) ↦ old (rw e i)
    ]

start-IsExclusive :
    (j : Job) (at : ℕ) (js : List Job)
    → IsOrderly js
    → In j js
    → is_blocked j js ≡ false
    → IsExclusive (update_jobs j.id (as_running at) js)
start-IsExclusive j at js h m free a b ma mb ra rb ne =
    go (after_start j at js a h.distinct m ma) (after_start j at js b h.distinct m mb)
  where
    new_old :
        (c d : Job)
        → c.space_id ≡ j.space_id
        → c.space_repository_id ≡ j.space_repository_id
        → In d js
        → is_running d.status ≡ true
        → conflicts c d ≡ false
    new_old c d p q i r = conflicts-eq c d j d p q refl refl ∙ free_of_conflicts j d js free i r

    go : After j js a → After j js b → conflicts a b ≡ false
    go (started p q e) (started p' q' e') = absurd (ne (e ∙ sym e'))
    go (started p q e) (old i) = new_old a b p q i rb
    go (old i) (started p q e) =
        conflicts_symm a b (h.named a i) (λ z. h.named j m (sym q ∙ z)) ∙ new_old b a p q i ra
    go (old i) (old k) = h.exclusive a b i k ra rb ne

IsOrderly-step : {js ks : List Job} → Step js ks → IsOrderly js → IsOrderly ks
IsOrderly-step {js} (add j fresh waits named) h = record {
  distinct = distinct_step (add j fresh waits named) h.distinct;
  named = λ a m. IsNamed-append js j a named h.named m;
  exclusive = λ a b ma mb ra rb ne.
      h.exclusive a b (runs_before js j a waits ra ma) (runs_before js j b waits rb mb) ra rb ne;
}
IsOrderly-step {js} (edit id f calm live) h = record {
  distinct = distinct_step (edit id f calm live) h.distinct;
  named = IsNamed-update id f js calm.repository h.named;
  exclusive = update_jobs-IsExclusive f calm id js h.exclusive;
}
IsOrderly-step {js} (start j at m live free) h = record {
  distinct = distinct_step (start j at m live free) h.distinct;
  named = IsNamed-update j.id (as_running at) js (λ x. refl) h.named;
  exclusive = start-IsExclusive j at js h m free;
}

pub IsOrderly-kept : IsKept IsOrderly
IsOrderly-kept = record { step = IsOrderly-step }

-- A row of a finished job is never changed and never removed.
abbrev pub IsRecorded : Job → List Job → Type 0
IsRecorded x js = HasDistinctIds js × In x js × (is_active x.status ≡ false)

In-append_left : {A : Type 0} (xs ys : List A) (x : A) → In x xs → In x (xs ++ ys)
In-append_left [] ys x m = elim m [ ]
In-append_left (z ∷ xs) ys x (inl e) = inl e
In-append_left (z ∷ xs) ys x (inr m) = inr (In-append_left xs ys x m)

IsRecorded-step : (x : Job) → {js ks : List Job} → Step js ks → IsRecorded x js → IsRecorded x ks
IsRecorded-step x {js} (add j fresh waits named) (d, m, f) =
    (distinct_step (add j fresh waits named) d, In-append_left js (j ∷ []) x m, f)
IsRecorded-step x {js} (edit id g calm live) (d, m, f) = (
  distinct_step (edit id g calm live) d,
  In-update_jobs_ne id g js x m (λ e. cc (f, live x m e)),
  f,
)
IsRecorded-step x {js} (start j at i live free) (d, m, f) = (
  distinct_step (start j at i live free) d,
  In-update_jobs_ne j.id (as_running at) js x m (λ e. cc (f, live x m e)),
  f,
)

pub IsRecorded-kept : (x : Job) → IsKept (IsRecorded x)
IsRecorded-kept x = record { step = IsRecorded-step x }

-- What an operation makes of the table, where identifiers are distinct.
pub record Moves (r s : Runner) : Type 0 where
  pub run : HasDistinctIds r.db.jobs → Steps r.db.jobs s.db.jobs

pub Moves-trans : {r s t : Runner} → Moves r s → Moves s t → Moves r t
Moves-trans m n = record {
  run = λ d. let p = m.run d in Steps-trans p (n.run (Steps-keep HasDistinctIds distinct_kept p d));
}

pub Same-Moves : {r s : Runner} → Same r s → Moves r s
Same-Moves h = record { run = λ d. rw h.jobs here }

pub Moves-refl : (r : Runner) → Moves r r
Moves-refl r = record { run = λ d. here }

pub Moves-distinct :
    {r s : Runner} → Moves r s → HasDistinctIds r.db.jobs → HasDistinctIds s.db.jobs
Moves-distinct m d = Steps-keep HasDistinctIds distinct_kept (m.run d) d
