-- ===== src/Jobs/Enqueue/Order.antt =====
-- Ordering rows neither adds nor drops one.
use memo_repo.Prelude.{Bool, ◌≡◌, ◌⊎◌, inl, inr, List, [], ◌∷◌, In, Bool-cases}
use memo_repo.Jobs.Store.{Job}
use memo_repo.Jobs.Enqueue.{insert_by, order_by}

In-insert_by :
    (before : Job → Job → Bool) (j : Job) (js : List Job) (a : Job)
    → In a (insert_by before j js)
    → (a ≡ j) ⊎ In a js
unfolding insert_by
In-insert_by before j [] a (inl e) = inl e
In-insert_by before j [] a (inr m) = elim m [ ]
In-insert_by before j (k ∷ ks) a m = elim (Bool-cases (before k j)) [
  | inl q ↦ elim (rw q at m) [
    | inl e ↦ inr (inl e)
    | inr i ↦ elim (In-insert_by before j ks a i) [ inl e ↦ inl e | inr l ↦ inr (inr l) ]
  ]
  | inr q ↦ rw q at m
]

pub In-order_by :
    (before : Job → Job → Bool) (js : List Job) (a : Job) → In a (order_by before js) → In a js
unfolding order_by
In-order_by before [] a m = elim m [ ]
In-order_by before (j ∷ js) a m = elim (In-insert_by before j (order_by before js) a m) [
  | inl e ↦ inl e
  | inr i ↦ inr (In-order_by before js a i)
]
