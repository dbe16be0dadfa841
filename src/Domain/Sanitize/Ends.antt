-- ===== src/Domain/Sanitize/Ends.antt =====
-- The search for managed paths in a message always ends.
use memo_repo.Prelude.{
  inr, inl, ℕ, zero, suc, ◌+◌, ◌-◌, ◌≤◌, ◌<◌, true, false, not, ◌&&◌, Option, none, some, List, [],
  ◌∷◌, ◌++◌, ltb, leb, ◌≡◌, refl, if◌then◌else◌, length, take, arith, Bool-cases, Option-cases,
  if-cases,
}
use memo_repo.Text.{is_some}
use memo_repo.Domain.Sanitize.{
  Units, drop, is_prefix, index_of, spliced, replace_loop, is_empty, replace_case_insensitive,
  managed_path, Platform, variants, replace_each, sanitize_public_message,
}

length-append : (xs ys : Units) → length (xs ++ ys) ≡ length xs + length ys
length-append [] ys = omega arith
length-append (x ∷ xs) ys = omega (arith, length-append xs ys)

length-take : (n : ℕ) (xs : Units) → length (take n xs) ≤ n
length-take zero xs = omega arith
length-take (suc n) [] = omega arith
length-take (suc n) (x ∷ xs) = omega (arith, length-take n xs)

length-drop : (n : ℕ) (xs : Units) → length (drop n xs) ≡ length xs - n
unfolding drop
length-drop zero xs = omega arith
length-drop (suc n) [] = omega arith
length-drop (suc n) (x ∷ xs) = omega (arith, length-drop n xs)

-- What is found starts at the start of the search or behind it.
index_of-le :
    (needle : Units) (from at : ℕ) (s : Units) (i : ℕ)
    → is_empty needle ≡ false
    → index_of needle from at s ≡ some i
    → from ≤ i
unfolding index_of is_prefix
index_of-le [] from at s i e h = cc
index_of-le (n ∷ ns) from at [] i e h = cc
index_of-le (n ∷ ns) from at (c ∷ s) i e h =
    elim (Bool-cases (leb from at && is_prefix (n ∷ ns) (c ∷ s))) [
      | inl t ↦ let q : some at ≡ some i = rw t at h in ground arith
      | inr t ↦ index_of-le (n ∷ ns) from (suc at) s i e (rw t at h)
    ]

-- Each round leaves less behind the place where the next search starts.
spliced-lt :
    (target replacement result : Units) (from i : ℕ)
    → is_empty target ≡ false
    → from ≤ i
    → from < length result
    → length (spliced target replacement i result) - (i + length replacement) < length result - from
spliced-lt [] replacement result from i e l k = cc
spliced-lt (t ∷ ts) replacement result from i e l k =
    let a = length-append (take i result) (replacement ++ drop (i + length (t ∷ ts)) result) in
    let b = length-append replacement (drop (i + length (t ∷ ts)) result) in
    let c = length-take i result in
    let d = length-drop (i + length (t ∷ ts)) result in omega (arith, a, b, c, d)

replace_loop-ends :
    (lower : Units → Units) (target replacement : Units) (fuel : ℕ) (result : Units) (from : ℕ)
    → is_empty target ≡ false
    → is_empty (lower target) ≡ false
    → length result - from < fuel
    → is_some (replace_loop lower target replacement fuel result from) ≡ true
unfolding replace_loop
replace_loop-ends lower target replacement zero result from e k l = absurd (omega arith)
replace_loop-ends lower target replacement (suc fuel) result from e k l =
    if-cases (λ (x : Option Units). is_some x ≡ true) (not (ltb from (length result))) (λ t. refl)
      (λ t. elim (Option-cases (index_of (lower target) from 0 (lower result))) [
        | inl none_found ↦ rw none_found refl
        | inr (i, found) ↦
            let start = index_of-le (lower target) from 0 (lower result) i k found in
            let inside : from < length result = ground arith in
            let less = spliced-lt target replacement result from i e start inside in
            rw found (
              replace_loop-ends lower target replacement fuel (spliced target replacement i result)
                (i + length replacement) e k (omega arith))
      ])

-- `toLocaleLowerCase` makes no text empty.
abbrev pub KeepsText : (Units → Units) → Type 0
KeepsText lower = (s : Units) → is_empty s ≡ false → is_empty (lower s) ≡ false

replace-ends :
    (lower : Units → Units) (value target replacement : Units)
    → KeepsText lower
    → is_some (replace_case_insensitive lower value target replacement) ≡ true
unfolding replace_case_insensitive
replace-ends lower value target replacement keeps =
    if-cases (λ (x : Option Units). is_some x ≡ true) (is_empty target) (λ e. refl)
      (λ e.
        replace_loop-ends lower target replacement (suc (length value)) value 0 e (keeps target e)
          (omega arith))

chain-some :
    {A B : Type 0} (o : Option A) (f : A → Option B)
    → is_some o ≡ true
    → ((a : A) → is_some (f a) ≡ true)
    → is_some (elim o [ none ↦ none | some a ↦ f a ]) ≡ true
chain-some none f h k = cc
chain-some (some a) f h k = k a

replace_each-ends :
    (p : Platform) (vs : List Units) (message : Units)
    → KeepsText p.lower
    → is_some (replace_each p vs message) ≡ true
unfolding replace_each
replace_each-ends p [] message keeps = refl
replace_each-ends p (v ∷ vs) message keeps =
    chain-some (replace_case_insensitive p.lower message v managed_path) _
      (replace-ends p.lower message v managed_path keeps)
      (λ next. replace_each-ends p vs next keeps)

root-ends :
    (p : Platform) (root message : Units)
    → KeepsText p.lower
    → is_some (if is_empty root then some message else replace_each p (variants p root) message)
      ≡ true
root-ends p root message keeps =
    if-cases (λ (x : Option Units). is_some x ≡ true) (is_empty root) (λ e. refl)
      (λ e. replace_each-ends p (variants p root) message keeps)

-- If `toLocaleLowerCase` makes no text empty, then the search for the managed roots in a message comes to an
-- end with a message, even though each replacement makes the text longer that is searched next, a root can
-- be a part of what it is replaced by, and lower case can change the length of a text.
pub sanitize_public_message-ends :
    (p : Platform)
    → KeepsText p.lower
    → (roots : List Units) (message : Units)
    → is_some (sanitize_public_message p roots message) ≡ true
unfolding sanitize_public_message
sanitize_public_message-ends p keeps [] message = refl
sanitize_public_message-ends p keeps (root ∷ roots) message =
    chain-some (if is_empty root then some message else replace_each p (variants p root) message) _
      (root-ends p root message keeps) (λ next. sanitize_public_message-ends p keeps roots next)
