-- ===== src/Prelude/Members.antt =====
-- Membership in lists that are searched, filtered and cut.
use Prim.Native.Nat.{ℕ, zero, suc}
use mathlib.Core.Path.{◌≡◌, refl}
use mathlib.Core.Logic.{◌⊎◌, inl, inr}
use mathlib.Core.Bool.{Bool, true, false}
use mathlib.Core.Option.{none, some}
use mathlib.Core.List.{List, [], ◌∷◌, ◌++◌}
use native.Mathlib.Omega.{arith}
use memo_repo.Prelude.Tests.{if◌then◌else◌, Bool-cases}
use memo_repo.Prelude.Lists.{All, In, any, filter, find?, take}

module _ {A : Type 0} where
  pub any-eq-false : (p : A → Bool) (xs : List A) (x : A) → any p xs ≡ false → In x xs → p x ≡ false
  any-eq-false p [] x h m = elim m [ ]
  any-eq-false p (y ∷ ys) x h (inl e) = rw e (ground arith)
  any-eq-false p (y ∷ ys) x h (inr m) = any-eq-false p ys x (ground arith) m

  pub any-eq-true :
      (p : A → Bool) (xs : List A) → any p xs ≡ true → (x : A) × In x xs × (p x ≡ true)
  any-eq-true p [] h = cc
  any-eq-true p (y ∷ ys) h = elim (Bool-cases (p y)) [
    | inl e ↦ (y, inl refl, e)
    | inr e ↦ let (x, m, q) = any-eq-true p ys (ground arith) in (x, inr m, q)
  ]

  In-filter_cons :
      (p : A → Bool) (y : A) (rest : List A) (x : A)
      → In x (if p y then y ∷ rest else rest)
      → ((p y ≡ true) × (x ≡ y)) ⊎ In x rest
  In-filter_cons p y rest x m = elim (Bool-cases (p y)) [
    | inl e ↦ elim (rw e at m) [ inl q ↦ inl (e, q) | inr i ↦ inr i ]
    | inr e ↦ inr (rw e at m)
  ]

  pub In-filter : (p : A → Bool) (xs : List A) (x : A) → In x (filter p xs) → In x xs × (p x ≡ true)
  In-filter p [] x m = elim m [ ]
  In-filter p (y ∷ ys) x m = elim (In-filter_cons p y (filter p ys) x m) [
    | inl (e, q) ↦ (inl q, rw q e)
    | inr i ↦ let (k, h) = In-filter p ys x i in (inr k, h)
  ]

  pub In-filter_intro :
      (p : A → Bool) (xs : List A) (x : A) → In x xs → p x ≡ true → In x (filter p xs)
  In-filter_intro p [] x m h = elim m [ ]
  In-filter_intro p (y ∷ ys) x (inl e) h = let q : p y ≡ true = rw e at h in rw q (inl e)
  In-filter_intro p (y ∷ ys) x (inr m) h = elim (Bool-cases (p y)) [
    | inl e ↦ rw e (inr (In-filter_intro p ys x m h))
    | inr e ↦ rw e (In-filter_intro p ys x m h)
  ]

  pub find?-eq-some :
      (p : A → Bool) (xs : List A) (x : A) → find? p xs ≡ some x → In x xs × (p x ≡ true)
  find?-eq-some p [] x h = cc
  find?-eq-some p (y ∷ ys) x h = elim (Bool-cases (p y)) [
    | inl e ↦ let q : x ≡ y = ground arith in (inl q, rw q e)
    | inr e ↦ let (m, q) = find?-eq-some p ys x (ground arith) in (inr m, q)
  ]

  pub find?-eq-none :
      (p : A → Bool) (xs : List A) (x : A) → find? p xs ≡ none → In x xs → p x ≡ false
  find?-eq-none p [] x h m = elim m [ ]
  find?-eq-none p (y ∷ ys) x h (inl e) = rw e (ground arith)
  find?-eq-none p (y ∷ ys) x h (inr m) = find?-eq-none p ys x (ground arith) m

  pub In-take : (n : ℕ) (xs : List A) (x : A) → In x (take n xs) → In x xs
  In-take zero xs x m = elim m [ ]
  In-take (suc n) [] x m = elim m [ ]
  In-take (suc n) (y ∷ ys) x (inl e) = inl e
  In-take (suc n) (y ∷ ys) x (inr m) = inr (In-take n ys x m)

  pub In-append : (xs ys : List A) (x : A) → In x (xs ++ ys) → In x xs ⊎ In x ys
  In-append [] ys x m = inr m
  In-append (z ∷ xs) ys x (inl e) = inl (inl e)
  In-append (z ∷ xs) ys x (inr m) = elim (In-append xs ys x m) [
    | inl i ↦ inl (inr i)
    | inr i ↦ inr i
  ]

  pub In-All : (P : A → Type 0) (xs : List A) (x : A) → All P xs → In x xs → P x
  In-All P [] x h m = elim m [ ]
  In-All P (y ∷ ys) x (p, h) (inl e) = rw e p
  In-All P (y ∷ ys) x (p, h) (inr m) = In-All P ys x h m
