-- ===== src/Spaces/Creation/First.antt =====
-- A new space has the first slug that is free.
use Prim.Native.String
use memo_repo.Prelude.{
  ◌∙◌, sym, ℕ, String, zero, suc, Bool, true, false, some, [], ◌∷◌, ◌++◌, ◌≡◌, refl, ap, inr, ◌<◌,
  ◌+◌, arith, ◌==◌, any,
}
use memo_repo.Domain.Slug.{slugify}
use memo_repo.Spaces.Store.{Tables, Space}
use memo_repo.Spaces.Creation.{
  create_with_slug, Places, candidate, is_taken, first_unused, slug_rounds, create_unique_slug,
  new_space, create_space,
}

zero_plus : (i : ℕ) → i ≡ 0 + i
zero_plus i = omega arith

add_suc : (i j : ℕ) → i + suc j ≡ suc i + j
add_suc i j = omega arith

same_index :
    (t : Tables) (base : String) {i j : ℕ} {b : Bool}
    → i ≡ j
    → is_taken t (candidate base i) ≡ b
    → is_taken t (candidate base j) ≡ b
same_index t base e h = rw (sym e) h

-- The loop passes over `k` candidates that are taken and stops at the next.
first_unused-reaches :
    (t : Tables) (base : String) (rounds index k : ℕ)
    → k < rounds
    → is_taken t (candidate base (index + k)) ≡ false
    → ((j : ℕ) → j < k → is_taken t (candidate base (index + j)) ≡ true)
    → first_unused t base rounds index ≡ some (candidate base (index + k))
unfolding first_unused
first_unused-reaches t base zero index k h free taken = absurd (omega arith)
first_unused-reaches t base (suc rounds) index zero h free taken =
    let first : index + 0 ≡ index = omega arith in rw (first, same_index t base first free) refl
first_unused-reaches t base (suc rounds) index (suc k) h free taken =
    let first : index + 0 ≡ index = omega arith in
    let now = same_index t base first (taken 0 (omega arith)) in
    let later =
      first_unused-reaches t base rounds (suc index) k (omega arith)
        (same_index t base (add_suc index k) free)
        (λ j l. same_index t base (add_suc index j) (taken (suc j) (omega arith))) in
    rw (now, later, add_suc index k) refl

create_unique_slug-first :
    (lower : String → String) (clock : ℕ) (t : Tables) (name : String) (k : ℕ)
    → k < slug_rounds
    → is_taken t (candidate (slugify lower name) k) ≡ false
    → ((j : ℕ) → j < k → is_taken t (candidate (slugify lower name) j) ≡ true)
    → create_unique_slug lower clock t name ≡ candidate (slugify lower name) k
unfolding create_unique_slug
create_unique_slug-first lower clock t name k h free taken =
    let base = slugify lower name in
    let found =
      first_unused-reaches t base slug_rounds 0 k h (same_index t base (zero_plus k) free)
        (λ j l. same_index t base (zero_plus j) (taken j l)) in
    rw (create_unique_slug, found, sym (zero_plus k)) refl

inserted :
    (p : Places) (id : String) (now : ℕ) (name root_path : String) (t : Tables) (slug : String)
    → any (λ (s : Space). s.id == id) t.spaces ≡ false
    → is_taken t slug ≡ false
    → p.ensure_inside (p.join (String.◌++◌ slug (String.◌++◌ "__" (p.short_hash id))))
      ≡ some root_path
    → create_with_slug p id now name t slug
      ≡ inr (record t { spaces = t.spaces ++ (new_space id now name slug root_path ∷ []) })
unfolding create_with_slug
inserted p id now name root_path t slug fresh free inside =
    rw (create_with_slug, inside, fresh, free) refl

-- If one of the first hundred slugs is free, those of the name alone and of the name with the numbers from 2 to
-- 100, its id is new, and its directory lies inside the home directory, then a space is created: the row has the
-- first slug that is free, so that the unique slugs of the table do not refuse it, stands behind the others, and
-- nothing else changes.
pub create_space-first :
    (p : Places) (id : String) (now clock : ℕ) (name root_path : String) (t : Tables) (k : ℕ)
    → any (λ (s : Space). s.id == id) t.spaces ≡ false
    → k < slug_rounds
    → is_taken t (candidate (slugify p.to_lower_case name) k) ≡ false
    → ((j : ℕ) → j < k → is_taken t (candidate (slugify p.to_lower_case name) j) ≡ true)
    → p.ensure_inside (
        p.join (
          String.◌++◌
            (candidate (slugify p.to_lower_case name) k)
            (String.◌++◌ "__" (p.short_hash id))))
      ≡ some root_path
    → create_space p id now clock name t
      ≡ inr (record t {
        spaces =
            t.spaces
            ++ (new_space id now name (candidate (slugify p.to_lower_case name) k) root_path ∷ []);
      })
unfolding create_space
create_space-first p id now clock name root_path t k fresh h free taken inside =
    let slug = candidate (slugify p.to_lower_case name) k in
    let first = create_unique_slug-first p.to_lower_case clock t name k h free taken in
    ap (create_with_slug p id now name t) first
    ∙ inserted p id now name root_path t slug fresh free inside
