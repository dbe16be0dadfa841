-- ===== src/Spaces/Creation.antt =====
-- `createSpace` with `createUniqueSlug`, and `renameSpace`, of apps/api/src/services/spaceService.ts on the tables.
pub mod First
mod Tests
use Prim.Native.String
use memo_repo.Prelude.{
  ℕ, String, zero, suc, Bool, true, false, not, ◌||◌, Option, none, some, List, [], ◌∷◌, ◌++◌, ◌⊎◌,
  inl, inr, ◌=?◌, ◌==◌, if◌then◌else◌, any,
}
use memo_repo.Domain.Slug.{slugify, trim}
use memo_repo.Spaces.Store.{Tables, Space}
use memo_repo.Spaces.Repositories.{find_space, update_spaces}

-- What the platform and the file system give to the creation of a space.
pub record Places : Type 0 where
  pub to_lower_case : String → String
  -- `sha256(id).slice(0, 32)`
  pub short_hash : String → String
  -- `path.join` behind the directory of the spaces
  pub join : String → String
  -- `ensureInsideDir` of the home directory: the resolved path, or none where it throws.
  pub ensure_inside : String → Option String

-- The digits of the next number, the last digit first.
unfoldable pub next_digits : List ℕ → List ℕ
next_digits [] = 1 ∷ []
next_digits (d ∷ ds) = let rest = next_digits ds in if d =? 9 then 0 ∷ rest else suc d ∷ ds

unfoldable pub digits : ℕ → List ℕ
digits zero = 0 ∷ []
digits (suc n) = next_digits (digits n)

unfoldable pub rendered : List ℕ → String → String
rendered [] behind = behind
rendered (d ∷ ds) behind = rendered ds (String.◌∷◌ (String.char_at "0123456789" d) behind)

-- `${n}`
abbrev pub decimal : ℕ → String
decimal n = rendered (digits n) ""

abbrev pub candidate : String → ℕ → String
candidate base index =
    if index =? 0 then base else String.◌++◌ base (String.◌++◌ "-" (decimal (suc index)))

-- Whether a row has the slug.
abbrev pub is_taken : Tables → String → Bool
is_taken t slug = any (λ (s : Space). s.slug == slug) t.spaces

-- The loop from an index on, of so many rounds at most.
unfoldable pub first_unused : Tables → String → ℕ → ℕ → Option String
first_unused t base zero index = none
first_unused t base (suc rounds) index =
    let later = first_unused t base rounds (suc index) in
    if not (is_taken t (candidate base index)) then some (candidate base index) else later

abbrev pub slug_rounds : ℕ
slug_rounds = 100

unfoldable pub create_unique_slug : (String → String) → ℕ → Tables → String → String
create_unique_slug lower clock t name =
    let base = slugify lower name in
    elim (first_unused t base slug_rounds 0) [
      | none ↦ String.◌++◌ base (String.◌++◌ "-" (decimal clock))
      | some slug ↦ slug
    ]

pub data CreationRefused : Type 0 where
  path_escapes not_unique being_deleted space_not_found : CreationRefused

abbrev pub new_space : String → ℕ → String → String → String → Space
new_space id now name slug root_path = record {
  id = id;
  name = trim name;
  slug = slug;
  root_path = root_path;
  active_snapshot_id = none;
  snapshot_status = "none";
  snapshot_status_updated_at = now;
  created_at = now;
  updated_at = now;
}

-- INSERT INTO spaces, which the primary key and the unique slug refuse where a row has one of them
abbrev pub insert_space : Space → Tables → CreationRefused ⊎ Tables
insert_space s t =
    if any (λ (r : Space). r.id == s.id) t.spaces || is_taken t s.slug
    then inl not_unique
    else inr (record t { spaces = t.spaces ++ (s ∷ []) })

-- `createSpace` from the slug on
unfoldable pub create_with_slug :
    Places → String → ℕ → String → Tables → String → CreationRefused ⊎ Tables
create_with_slug p id now name t slug =
    elim (p.ensure_inside (p.join (String.◌++◌ slug (String.◌++◌ "__" (p.short_hash id))))) [
      | none ↦ inl path_escapes
      | some root_path ↦ insert_space (new_space id now name slug root_path) t
    ]

-- The time of the row, and the clock that the slug reads, are arguments.
unfoldable pub create_space : Places → String → ℕ → ℕ → String → Tables → CreationRefused ⊎ Tables
create_space p id now clock name t =
    create_with_slug p id now name t (create_unique_slug p.to_lower_case clock t name)

-- `renameSpace`, where `deleting` tells whether the space's deletion is under way
unfoldable pub rename_space : Bool → String → ℕ → String → Tables → CreationRefused ⊎ Tables
rename_space deleting id now name t =
    let renamed =
      update_spaces id (λ s. record s { name = trim name; updated_at = now }) t.spaces in
    if deleting then inl being_deleted else elim (find_space id t) [
      | none ↦ inl space_not_found
      | some s ↦ inr (record t { spaces = renamed })
    ]
