-- ===== src/Domain/Slug.antt =====
-- `slugify` of apps/api/src/domain/slug.ts and `repoPathName` of apps/api/src/domain/paths.ts.
-- `lower` stands for `toLowerCase`, whose Unicode tables are not part of the model.
pub mod Shape
pub mod Fixed
pub mod PathName
use Prim.Native.Char.{Char, code}
use Prim.Native.String
use memo_repo.Prelude.{
  String, Bool, true, false, ◌&&◌, ◌||◌, Option, none, some, ◌=?◌, ◌==◌, if◌then◌else◌,
}
use memo_repo.Text.{
  dash_runs, trim_start_dashes, trim_end_dashes, is_white, is_blank, is_lower, is_digit,
}

unfoldable pub trim_start : String → String
trim_start String.[] = ""
trim_start (String.◌∷◌ c s) = if is_white c then trim_start s else String.◌∷◌ c s

unfoldable pub trim_end : String → String
trim_end String.[] = ""
trim_end (String.◌∷◌ c s) =
    let rest = trim_end s in if is_white c && rest == "" then "" else String.◌∷◌ c rest

unfoldable pub trim : String → String
trim s = trim_end (trim_start s)

-- `.replace(/['"]/g, "")`
unfoldable pub drop_quotes : String → String
drop_quotes String.[] = ""
drop_quotes (String.◌∷◌ c s) =
    let rest = drop_quotes s in if code c =? b'\'' || code c =? 34 then rest else String.◌∷◌ c rest

-- `[a-z0-9]`
abbrev pub is_word : Char → Bool
is_word c = is_lower c || is_digit c

abbrev pub trim_dashes : String → String
trim_dashes s = trim_end_dashes (trim_start_dashes s)

unfoldable pub slugify : (String → String) → String → String
slugify lower input =
    let slug = trim_dashes (dash_runs is_word false (drop_quotes (lower (trim input)))) in
    if slug == "" then "space" else slug

-- `[a-z0-9_.-]`
abbrev pub is_path_char : Char → Bool
is_path_char c = is_word c || code c =? b'_' || code c =? b'.' || code c =? b'-'

unfoldable pub repo_path_name : (String → String) → String → String → Option String → String
repo_path_name lower owner name suffix =
    let joined = String.◌++◌ owner (String.◌++◌ "__" name) in
    let safe = trim_dashes (dash_runs is_path_char false (lower joined)) in
    elim suffix [
      | none ↦ safe
      | some end ↦ if end == "" then safe else String.◌++◌ safe (String.◌++◌ "__" end)
    ]
