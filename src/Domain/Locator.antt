-- ===== src/Domain/Locator.antt =====
-- `parseGitHubRepositoryLocator` of apps/api/src/domain/github.ts. What the platform's URL parser
-- answers is the argument `new_url`, and `toLowerCase` is `lower`.
pub mod Segments
pub mod Spellings
mod Tests
use Prim.Native.Char.{Char, code}
use Prim.Native.String
use memo_repo.Prelude.{
  String, Bool, true, false, not, ◌&&◌, ◌||◌, Option, none, some, List, [], ◌∷◌, ◌⊎◌, inl, inr,
  ◌=?◌, ◌==◌, if◌then◌else◌,
}
use memo_repo.Text.{is_lower, is_upper, is_digit}
use memo_repo.Coverage.Paths.{split_segments}
use memo_repo.Domain.Slug.{trim}
use memo_repo.Domain.Slug.PathName.{every_char}

-- What `new URL(text)` gives of a text that it does not refuse.
pub record Url : Type 0 where
  pub hostname : String
  pub pathname : String

pub record Locator : Type 0 where
  pub owner : String
  pub name : String

pub data LocatorError : Type 0 where
  invalid_url : LocatorError
  unsupported_host : LocatorError
  missing_part : LocatorError

-- `[A-Za-z0-9_.-]`
abbrev pub is_name_char : Char → Bool
is_name_char c =
    is_upper c || is_lower c || is_digit c || code c =? b'_' || code c =? b'.' || code c =? b'-'

abbrev pub is_name : String → Bool
is_name s = not (s == "") && every_char is_name_char s

-- `.replace(/\.git$/, "")`
unfoldable pub strip_git : String → String
strip_git String.[] = ""
strip_git (String.◌∷◌ c s) =
    let rest = strip_git s in if String.◌∷◌ c s == ".git" then "" else String.◌∷◌ c rest

-- `.replace(/^\/+/, "")`
unfoldable pub trim_start_slashes : String → String
trim_start_slashes String.[] = ""
trim_start_slashes (String.◌∷◌ c s) =
    let rest = trim_start_slashes s in if code c =? b'/' then rest else String.◌∷◌ c s

-- The two parts of a text that `/^[A-Za-z0-9_.-]+\/[A-Za-z0-9_.-]+$/` matches: the class has no
-- slash, so the text has just the one.
abbrev pub short_parts : List String → Option (String × String)
short_parts (owner ∷ name ∷ []) = if is_name owner && is_name name then some (owner, name) else none
short_parts _ = none

-- `const [owner, repo] = …`, where a missing part is undefined, and the test of both.
abbrev pub url_parts : List String → LocatorError ⊎ Locator
url_parts (owner ∷ repo ∷ _) =
    if owner == "" || repo == ""
    then inl missing_part
    else inr (record { owner = owner; name = strip_git repo })
url_parts _ = inl missing_part

abbrev pub is_github : String → Bool
is_github host = host == "github.com" || host == "www.github.com"

abbrev pub parse_url : (String → String) → Option Url → LocatorError ⊎ Locator
parse_url lower none = inl invalid_url
parse_url lower (some url) =
    if is_github (lower url.hostname)
    then url_parts (split_segments (trim_start_slashes url.pathname))
    else inl unsupported_host

unfoldable pub parse_github_repository_locator :
    (String → Option Url) → (String → String) → String → LocatorError ⊎ Locator
parse_github_repository_locator new_url lower input =
    let trimmed = trim input in
    elim (short_parts (split_segments trimmed)) [
      | some (owner, name) ↦ inr (record { owner = owner; name = strip_git name })
      | none ↦ parse_url lower (new_url trimmed)
    ]
