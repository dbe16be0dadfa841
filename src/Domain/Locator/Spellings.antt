-- ===== src/Domain/Locator/Spellings.antt =====
-- All the ways to write a repository's name are read as the same locator.
use Prim.Native.Char.{code}
use Prim.Native.String
use text.Mathlib.TextLemmas.{nil-append, cons-append, append_assoc}
use memo_repo.Prelude.{
  All, sym, ◌∙◌, ap, ◌<◌, String, true, false, not, Option, some, [], ◌∷◌, inr, ◌=?◌, ◌==◌, ◌≡◌,
  refl, arith, and-eq-true,
}
use memo_repo.Coverage.Paths.{split_segments, is_plain_segment}
use memo_repo.Domain.Slug.PathName.{every_char}
use memo_repo.Domain.Locator.{
  Url, Locator, is_name_char, is_name, strip_git, trim_start_slashes,
  parse_github_repository_locator,
}
use memo_repo.Domain.Locator.Segments.{
  is_solid, no_slash, trim-solid, every_char-append, every_char-weaken, name_char-solid,
  name_char-no_slash, split-slash, split-last, size, size-append, not-short, strip_git-append,
}

-- `owner/name`
abbrev pub full_name : String → String → String
full_name owner name = String.◌++◌ owner (String.◌++◌ "/" name)

abbrev pub github_url : String → String → String
github_url owner name = String.◌++◌ "https://github.com/" (full_name owner name)

IsSolid-full_name :
    (o n : String)
    → is_name o ≡ true
    → is_name n ≡ true
    → every_char is_solid (full_name o n) ≡ true
unfolding every_char
IsSolid-full_name o n h k =
    let (_, p) = and-eq-true (not (o == "")) (every_char is_name_char o) h in
    let (_, q) = and-eq-true (not (n == "")) (every_char is_name_char n) k in
    let solid = every_char-weaken is_name_char is_solid name_char-solid in
    every_char-append is_solid o (String.◌++◌ "/" n) (solid o p)
      (every_char-append is_solid "/" n refl (solid n q))

split-full_name :
    (o n : String)
    → is_name o ≡ true
    → is_name n ≡ true
    → split_segments (full_name o n) ≡ o ∷ n ∷ []
split-full_name o n h k =
    let (_, p) = and-eq-true (not (o == "")) (every_char is_name_char o) h in
    let (_, q) = and-eq-true (not (n == "")) (every_char is_name_char n) k in
    let whole = every_char-weaken is_name_char no_slash name_char-no_slash in
    split-slash o n (whole o p) ∙ ap (λ ss. o ∷ ss) (split-last n (whole n q))

github_url-parts :
    (path : String)
    → String.◌++◌ "https://github.com/" path
      ≡ String.◌++◌ "https:" (
          String.◌++◌ "/"
            (String.◌++◌ "" (String.◌++◌ "/" (String.◌++◌ "github.com" (String.◌++◌ "/" path)))))
github_url-parts path =
    let host =
      append_assoc "/" "github.com/" path
      ∙ ap (String.◌++◌ "/") (append_assoc "github.com" "/" path) in
    let start =
      append_assoc "/" "/github.com/" path ∙ ap (String.◌++◌ "/") (host ∙ sym (nil-append _)) in
    append_assoc "https:" "//github.com/" path ∙ ap (String.◌++◌ "https:") start

split-github_url :
    (o n : String)
    → is_name o ≡ true
    → is_name n ≡ true
    → split_segments (github_url o n) ≡ "https:" ∷ "" ∷ "github.com" ∷ o ∷ n ∷ []
unfolding every_char
split-github_url o n h k =
    let path = full_name o n in
    let host =
      split-slash "github.com" path refl ∙ ap (λ ss. "github.com" ∷ ss) (split-full_name o n h k) in
    let start = split-slash "" (String.◌++◌ "github.com" (String.◌++◌ "/" path)) refl in
    let scheme =
      split-slash "https:"
        (String.◌++◌ "" (String.◌++◌ "/" (String.◌++◌ "github.com" (String.◌++◌ "/" path)))) refl in
    ap split_segments (github_url-parts path)
    ∙ scheme
    ∙ ap (λ ss. "https:" ∷ ss) (start ∙ ap (λ ss. "" ∷ ss) host)

IsSolid-github_url :
    (o n : String)
    → is_name o ≡ true
    → is_name n ≡ true
    → every_char is_solid (github_url o n) ≡ true
unfolding every_char
IsSolid-github_url o n h k =
    every_char-append is_solid "https://github.com/" (full_name o n) refl
      (IsSolid-full_name o n h k)

parse-full_name :
    (new_url : String → Option Url) (lower : String → String) (o n : String)
    → is_name o ≡ true
    → is_name n ≡ true
    → parse_github_repository_locator new_url lower (full_name o n)
      ≡ inr (record { owner = o; name = strip_git n })
unfolding parse_github_repository_locator
parse-full_name new_url lower o n h k =
    rw
      (
        trim-solid (full_name o n) (IsSolid-full_name o n h k),
        parse_github_repository_locator,
        split-full_name o n h k,
        h,
        k,
      )
      refl

-- How a URL parser reads the URL of a repository on github.com.
abbrev pub ReadsGithub : (String → Option Url) → Type 0
ReadsGithub new_url =
    (o n : String)
    → is_name o ≡ true
    → is_name n ≡ true
    → is_plain_segment o ≡ true
    → is_plain_segment n ≡ true
    → new_url (github_url o n)
      ≡ some (record { hostname = "github.com"; pathname = String.◌++◌ "/" (full_name o n) })

trim_start_slashes-full_name :
    (o n : String)
    → is_name o ≡ true
    → trim_start_slashes (String.◌++◌ "/" (full_name o n)) ≡ full_name o n
unfolding trim_start_slashes every_char
trim_start_slashes-full_name String.[] n h = cc
trim_start_slashes-full_name (String.◌∷◌ c s) n h =
    let (_, p) =
      and-eq-true (not (String.◌∷◌ c s == "")) (every_char is_name_char (String.◌∷◌ c s)) h in
    let k : (code c =? b'/') ≡ false = ground arith in
    rw (cons-append, nil-append, cons-append, k) refl

name-nonempty : (s : String) → is_name s ≡ true → (s == "") ≡ false
name-nonempty s h = ground arith

parse-github_url :
    (new_url : String → Option Url) (lower : String → String) (o n : String)
    → ReadsGithub new_url
    → lower "github.com" ≡ "github.com"
    → is_name o ≡ true
    → is_name n ≡ true
    → is_plain_segment o ≡ true
    → is_plain_segment n ≡ true
    → parse_github_repository_locator new_url lower (github_url o n)
      ≡ inr (record { owner = o; name = strip_git n })
unfolding parse_github_repository_locator
parse-github_url new_url lower o n reads low h k p q =
    rw
      (
        trim-solid (github_url o n) (IsSolid-github_url o n h k),
        parse_github_repository_locator,
        split-github_url o n h k,
        trim-solid (github_url o n) (IsSolid-github_url o n h k),
        reads o n h k p q,
        low,
        trim_start_slashes-full_name o n h,
        split-full_name o n h k,
        name-nonempty o h,
        name-nonempty n k,
      )
      refl

git_name : String → String
git_name n = String.◌++◌ n ".git"

not-git_name : (n t : String) → size t < 4 → (git_name n == t) ≡ false
unfolding git_name size
not-git_name n t h = not-short (git_name n) t (omega (arith, size-append n ".git"))

IsName-git_name : (n : String) → is_name n ≡ true → is_name (git_name n) ≡ true
unfolding every_char size git_name
IsName-git_name n h =
    let (_, p) = and-eq-true (not (n == "")) (every_char is_name_char n) h in
    rw (not-git_name n "" (omega arith), every_char-append is_name_char n ".git" p refl) refl

IsPlain-git_name : (n : String) → is_plain_segment (git_name n) ≡ true
unfolding size
IsPlain-git_name n =
    rw
      (
        not-git_name n "" (omega arith),
        not-git_name n "." (omega arith),
        not-git_name n ".." (omega arith),
      )
      refl

abbrev pub ReadsAs : (String → Option Url) → (String → String) → Locator → String → Type 0
ReadsAs new_url lower l text = parse_github_repository_locator new_url lower text ≡ inr l

-- For an owner and a name of the characters that GitHub allows, the name without `.git` at its end and
-- neither of them `.` or `..`: `owner/name`, `owner/name.git`, the URL of the repository's page
-- and that of its clone are all read as that owner and that name, if the platform's URL
-- parser reads the URLs as their parts and `toLowerCase` leaves the host's name as it is.
pub parse-spellings :
    (new_url : String → Option Url) (lower : String → String)
    → ReadsGithub new_url
    → lower "github.com" ≡ "github.com"
    → (l : Locator) → is_name l.owner ≡ true
    → is_name l.name ≡ true
    → is_plain_segment l.owner ≡ true
    → is_plain_segment l.name ≡ true
    → strip_git l.name ≡ l.name
    → All (ReadsAs new_url lower l) (
        full_name l.owner l.name
        ∷ full_name l.owner (String.◌++◌ l.name ".git")
        ∷ github_url l.owner l.name
        ∷ github_url l.owner (String.◌++◌ l.name ".git")
        ∷ [])
unfolding git_name
parse-spellings new_url lower reads low l h k p q e =
    let name = git_name l.name in
    let named = IsName-git_name l.name k in
    let plain = IsPlain-git_name l.name in
    let same = strip_git-append l.name in
    (
      parse-full_name new_url lower l.owner l.name h k ∙ rw e refl,
      (
        parse-full_name new_url lower l.owner name h named ∙ rw same refl,
        (
          parse-github_url new_url lower l.owner l.name reads low h k p q ∙ rw e refl,
          (parse-github_url new_url lower l.owner name reads low h named p plain ∙ rw same refl, _),
        ),
      ),
    )
