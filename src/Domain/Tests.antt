-- ===== src/Domain/Tests.antt =====
-- The helpers on a few names.
use memo_repo.Prelude.{
  Bool-cases, Bool, inl, inr, arith, String, ◌≡◌, refl, true, false, none, some,
}
use memo_repo.Text.{dash_runs, trim_start_dashes, trim_end_dashes, to_lower, map_chars, is_upper}
use memo_repo.Coverage.Paths.{is_plain_segment}
use memo_repo.Domain.Slug.PathName.{has_underscore, every_char, repo_path_name-IsPlain}
use memo_repo.Domain.Slug.{
  is_path_char, slugify, repo_path_name, trim, trim_start, trim_end, drop_quotes, is_word,
}
use memo_repo.Domain.Slug.Shape.{is_slug, slugify-IsSlug}
use memo_repo.Domain.Slug.Fixed.{slug_head, slug_inside}

abbrev ascii_lower : String → String
ascii_lower s = map_chars to_lower s

test_slugify : slugify ascii_lower "  Bob's  \"Big\" -- Space! " ≡ "bobs-big-space"
unfolding slugify trim trim_start trim_end drop_quotes trim_end_dashes trim_start_dashes dash_runs
    map_chars to_lower
test_slugify = refl

test_empty : slugify ascii_lower " !! " ≡ "space"
unfolding slugify trim trim_start trim_end drop_quotes trim_end_dashes trim_start_dashes dash_runs
    map_chars to_lower
test_empty = refl

test_repo_path_name :
    repo_path_name ascii_lower "-Octo Cat" "Hello.World" (some "a1") ≡ "octo-cat__hello.world__a1"
unfolding repo_path_name trim_end_dashes trim_start_dashes dash_runs map_chars to_lower
test_repo_path_name = refl

slugify-IsSlug_example : is_slug false (slugify ascii_lower "My Space") ≡ true
slugify-IsSlug_example = slugify-IsSlug ascii_lower "My Space"

ascii_lower-kept : (b : Bool) (s : String) → is_slug b s ≡ true → ascii_lower s ≡ s
unfolding map_chars to_lower
ascii_lower-kept b String.[] h = refl
ascii_lower-kept b (String.◌∷◌ c s) h =
    let rest = ascii_lower-kept (is_word c) s (slug_inside b c s h) in
    elim (slug_head b c s h) [
      | inl (e, k) ↦ let u : is_upper c ≡ false = ground arith in rw (u, rest) refl
      | inr (e, d, f, k) ↦ let u : is_upper c ≡ false = ground arith in rw (u, rest) refl
    ]

ascii_lower-keeps : (s : String) → has_underscore s ≡ true → has_underscore (ascii_lower s) ≡ true
unfolding map_chars to_lower has_underscore
ascii_lower-keeps String.[] h = h
ascii_lower-keeps (String.◌∷◌ c s) h = elim (Bool-cases (is_upper c)) [
  | inl e ↦ let k : has_underscore s ≡ true = ground arith in ground (arith, ascii_lower-keeps s k)
  | inr e ↦ rw e (ground (arith, ascii_lower-keeps s))
]

repo_path_name-IsPlain_example :
    (every_char is_path_char (repo_path_name ascii_lower ".." "a/b" none) ≡ true)
    × (is_plain_segment (repo_path_name ascii_lower ".." "a/b" none) ≡ true)
repo_path_name-IsPlain_example = repo_path_name-IsPlain ascii_lower ascii_lower-keeps ".." "a/b"
