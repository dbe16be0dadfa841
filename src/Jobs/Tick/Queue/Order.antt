-- ===== src/Jobs/Tick/Queue/Order.antt =====
-- The order by age in which `nextRunnableJob` of jobRunner.ts looks at the jobs.
use memo_repo.Prelude.{
  ℕ, zero, suc, ◌≤◌, ◌≡◌, refl, ◌∙◌, ◌⊎◌, inl, inr, Bool, true, ◌&&◌, List, [], ◌∷◌, arith, ltb,
  leb, Bool-cases, In, filter, take, count_where,
}
use memo_repo.Jobs.Store.{Job}
use memo_repo.Jobs.Tick.{insert_by_created, order_by_created}
use memo_repo.Jobs.Tick.Select.{In-insert_by_created}

In-insert : (j : Job) (js : List Job) (a : Job) → (a ≡ j) ⊎ In a js → In a (insert_by_created j js)
unfolding insert_by_created
In-insert j [] a m = m
In-insert j (k ∷ ks) a m = elim (Bool-cases (ltb k.created_at j.created_at)) [
  | inr q ↦ rw q m
  | inl q ↦ rw q (elim m [
    | inl e ↦ inr (In-insert j ks a (inl e))
    | inr (inl e) ↦ inl e
    | inr (inr i) ↦ inr (In-insert j ks a (inr i))
  ])
]

pub In-order : (js : List Job) (a : Job) → In a js → In a (order_by_created js)
unfolding order_by_created
In-order [] a m = m
In-order (j ∷ js) a (inl e) = In-insert j (order_by_created js) a (inl e)
In-order (j ∷ js) a (inr m) = In-insert j (order_by_created js) a (inr (In-order js a m))

count-insert :
    (p : Job → Bool) (j : Job) (js : List Job)
    → count_where p (insert_by_created j js) ≡ count_where p (j ∷ js)
unfolding insert_by_created
count-insert p j [] = refl
count-insert p j (k ∷ ks) = elim (Bool-cases (ltb k.created_at j.created_at)) [
  | inl q ↦ rw q (omega (arith, count-insert p j ks))
  | inr q ↦ rw q refl
]

pub count-order :
    (p : Job → Bool) (js : List Job) → count_where p (order_by_created js) ≡ count_where p js
unfolding order_by_created
count-order p [] = refl
count-order p (j ∷ js) = count-insert p j (order_by_created js) ∙ omega (arith, count-order p js)

pub count-filter-le :
    (p q : Job → Bool) (js : List Job) → count_where p (filter q js) ≤ count_where p js
count-filter-le p q [] = omega arith
count-filter-le p q (j ∷ js) = elim (Bool-cases (q j)) [
  | inl e ↦ rw e (omega (arith, count-filter-le p q js))
  | inr e ↦ rw e (omega (arith, count-filter-le p q js))
]

-- Each job is as old as every one behind it.
unfoldable pub IsByAge : List Job → Type 0
IsByAge [] = Unit
IsByAge (j ∷ js) = ((x : Job) → In x js → j.created_at ≤ x.created_at) × IsByAge js

insert-IsByAge : (j : Job) (js : List Job) → IsByAge js → IsByAge (insert_by_created j js)
unfolding IsByAge insert_by_created
insert-IsByAge j [] h = ((λ x m. elim m [ ]), tt)
insert-IsByAge j (k ∷ ks) (h, t) = elim (Bool-cases (ltb k.created_at j.created_at)) [
  | inl q ↦ rw q (
    (λ x m. elim (In-insert_by_created j ks x m) [ inl e ↦ rw e (ground arith) | inr i ↦ h x i ]),
    insert-IsByAge j ks t,
  )
  | inr q ↦
      let first : j.created_at ≤ k.created_at = ground arith in
      rw q ((λ x m. elim m [ inl e ↦ rw e first | inr i ↦ omega (arith, first, h x i) ]), (h, t))
]

pub order-IsByAge : (js : List Job) → IsByAge (order_by_created js)
unfolding IsByAge order_by_created
order-IsByAge [] = tt
order-IsByAge (j ∷ js) = insert-IsByAge j (order_by_created js) (order-IsByAge js)

-- A job of an ordered list is among the first `n`, or stands behind `n` that are as old.
pub among_first :
    (p : Job → Bool) (n : ℕ) (js : List Job) (c : Job)
    → IsByAge js
    → In c js
    → ((x : Job) → In x (take n js) → p x ≡ true)
    → In c (take n js) ⊎ (n ≤ count_where (λ x. p x && leb x.created_at c.created_at) js)
unfolding IsByAge
among_first p zero js c h m f = inr (omega arith)
among_first p (suc n) [] c h m f = elim m [ ]
among_first p (suc n) (j ∷ js) c (h, t) (inl e) f = inl (inl e)
among_first p (suc n) (j ∷ js) c (h, t) (inr m) f =
    elim (among_first p n js c t m (λ x k. f x (inr k))) [
      | inl k ↦ inl (inr k)
      | inr k ↦
          let first : (p j && leb j.created_at c.created_at) ≡ true =
            ground (arith, f j (inl refl), h c m) in
          inr (rw first (omega (arith, k)))
    ]
