-- ===== src/SignIn/Scopes.antt =====
-- Scopes are put in order before they are stored; the required one stays.
use memo_repo.Prelude.{
  String, Bool, true, false, List, [], ◌∷◌, ◌≡◌, refl, ◌∙◌, inl, inr, if◌then◌else◌, set_has, ◌==◌,
  arith, Bool-cases, eq_iff,
}
use memo_repo.Coverage.Paths.{Locale, unique_sorted, insert_text, sort_texts, distinct}
use memo_repo.Domain.Slug.{trim, trim_start, trim_end}
use memo_repo.SignIn.Flow.{required_scope}
use memo_repo.SignIn.Poll.{normalize_scopes, trim_all}

set_has-insert :
    (b : String → String → Bool) (k v : String) (vs : List String)
    → set_has k (insert_text b v vs) ≡ (if v == k then true else set_has k vs)
unfolding set_has insert_text
set_has-insert b k v [] = refl
set_has-insert b k v (x ∷ xs) = ground (arith, set_has-insert b k v xs)

set_has-sort :
    (b : String → String → Bool) (k : String) (vs : List String)
    → set_has k (sort_texts b vs) ≡ set_has k vs
unfolding set_has sort_texts
set_has-sort b k [] = refl
set_has-sort b k (v ∷ vs) = set_has-insert b k v (sort_texts b vs) ∙ rw (set_has-sort b k vs) refl

set_has-distinct :
    (k : String) (seen vs : List String)
    → set_has k seen ≡ false
    → set_has k (distinct seen vs) ≡ set_has k vs
unfolding set_has distinct
set_has-distinct k seen [] h = refl
set_has-distinct k seen (v ∷ vs) h = elim (Bool-cases (set_has v seen)) [
  | inl e ↦ elim (Bool-cases (v == k)) [
    | inl q ↦ let c : set_has k seen ≡ true = rw ((eq_iff v k).0 q) at e in cc
    | inr q ↦ rw (e, q) (set_has-distinct k seen vs h)
  ]
  | inr e ↦ elim (Bool-cases (v == k)) [
    | inl q ↦ rw (e, q) refl
    | inr q ↦ rw (e, q) (set_has-distinct k (v ∷ seen) vs (rw q h))
  ]
]

set_has-trim_all :
    (ss : List String)
    → set_has required_scope ss ≡ true
    → set_has required_scope (trim_all ss) ≡ true
unfolding set_has trim trim_start trim_end
set_has-trim_all [] h = h
set_has-trim_all (s ∷ ss) h = elim (Bool-cases (s == required_scope)) [
  | inl e ↦ rw ((eq_iff s required_scope).0 e) refl
  | inr e ↦
      let rest = set_has-trim_all ss (rw e at h) in
      elim (Bool-cases (trim s == "")) [ inl q ↦ rw q rest | inr q ↦ rw q (ground (arith, rest)) ]
]

-- The required scope has no white space around it, so it is kept.
pub set_has-normalize :
    (w : Locale) (scopes : List String)
    → set_has required_scope scopes ≡ true
    → set_has required_scope (normalize_scopes w scopes) ≡ true
unfolding normalize_scopes unique_sorted set_has
set_has-normalize w scopes h =
    set_has-sort w.goes_before required_scope (distinct [] (trim_all scopes))
    ∙ set_has-distinct required_scope [] (trim_all scopes) refl
    ∙ set_has-trim_all scopes h
