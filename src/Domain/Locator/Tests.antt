-- ===== src/Domain/Locator/Tests.antt =====
-- Repositories, named in a few ways.
use Prim.Native.String
use text.Mathlib.TextLemmas.{nil-append, cons-append, append_assoc}
use memo_repo.Domain.Slug.PathName.{every_char}
use memo_repo.Prelude.{String, Option, some, [], ◌∷◌, ◌≡◌, refl, inl, inr, All}
use memo_repo.Coverage.Paths.{split_segments}
use memo_repo.Domain.Slug.{trim, trim_end, trim_start}
use memo_repo.Domain.Locator.{
  Url, Locator, missing_part, parse_github_repository_locator, strip_git, trim_start_slashes,
}
use memo_repo.Domain.Locator.Spellings.{
  ReadsGithub, parse-spellings, ReadsAs, full_name, github_url,
}

abbrev octo : Locator
octo = record { owner = "octo"; name = "hello.world" }

-- What is left of a text behind a start.
behind : String → String → String
behind String.[] text = text
behind (String.◌∷◌ c s) String.[] = ""
behind (String.◌∷◌ c s) (String.◌∷◌ d text) = behind s text

behind-append : (s t : String) → behind s (String.◌++◌ s t) ≡ t
unfolding behind
behind-append String.[] t = nil-append t
behind-append (String.◌∷◌ c s) t = rw cons-append (behind-append s t)

-- A reader of the URLs of repositories, which finds the path behind the host.
abbrev read_url : String → Option Url
read_url text =
    some (record { hostname = "github.com"; pathname = behind "https://github.com" text })

read_url-reads : ReadsGithub read_url
read_url-reads o n h k p q =
    let path = full_name o n in
    rw
      (
        append_assoc "https://github.com" "/" path,
        behind-append "https://github.com" (String.◌++◌ "/" path),
      )
      refl

abbrev same : String → String
same s = s

test_short :
    parse_github_repository_locator read_url same "  octo/hello.git "
    ≡ inr (record { owner = "octo"; name = "hello" })
unfolding parse_github_repository_locator split_segments trim trim_end trim_start every_char
    strip_git trim_start_slashes behind
test_short = refl

-- The name `.git` is read as no name at all.
test_git_only :
    parse_github_repository_locator read_url same "octo/.git"
    ≡ inr (record { owner = "octo"; name = "" })
unfolding parse_github_repository_locator split_segments trim trim_end trim_start every_char
    strip_git trim_start_slashes behind
test_git_only = refl

test_missing :
    parse_github_repository_locator read_url same "https://github.com//" ≡ inl missing_part
unfolding parse_github_repository_locator split_segments trim trim_end trim_start every_char
    strip_git trim_start_slashes behind
test_missing = refl

parse-spellings_example : All (ReadsAs read_url same octo) (
    full_name "octo" "hello.world"
    ∷ full_name "octo" (String.◌++◌ "hello.world" ".git")
    ∷ github_url "octo" "hello.world"
    ∷ github_url "octo" (String.◌++◌ "hello.world" ".git")
    ∷ [])
unfolding every_char strip_git
parse-spellings_example =
    parse-spellings read_url same read_url-reads refl octo refl refl refl refl refl
