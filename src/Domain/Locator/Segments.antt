-- ===== src/Domain/Locator/Segments.antt =====
-- Texts without white space or slashes, and their segments.
use Prim.Native.Char.{Char, code}
use Prim.Native.String
use text.Mathlib.TextLemmas.{nil-append, cons-append}
use memo_repo.Prelude.{
  ap, suc, ◌<◌, ◌+◌, ℕ, String, Bool, true, false, not, [], ◌∷◌, inl, inr, ◌=?◌, ◌==◌, ◌≡◌, refl,
  arith, and-eq-true, eq_iff, Bool-cases,
}
use memo_repo.Text.{is_white}
use memo_repo.Coverage.Paths.{split_segments}
use memo_repo.Domain.Slug.{trim, trim_start, trim_end}
use memo_repo.Domain.Slug.PathName.{every_char}
use memo_repo.Domain.Locator.{is_name_char, strip_git}

abbrev pub is_solid : Char → Bool
is_solid c = not (is_white c)

abbrev pub no_slash : Char → Bool
no_slash c = not (code c =? b'/')

pub trim_start-solid : (s : String) → every_char is_solid s ≡ true → trim_start s ≡ s
unfolding every_char trim_start
trim_start-solid String.[] h = refl
trim_start-solid (String.◌∷◌ c s) h = let w : is_white c ≡ false = ground arith in rw w refl

pub trim_end-solid : (s : String) → every_char is_solid s ≡ true → trim_end s ≡ s
unfolding every_char trim_end
trim_end-solid String.[] h = refl
trim_end-solid (String.◌∷◌ c s) h =
    let w : is_white c ≡ false = ground arith in rw (w, trim_end-solid s (ground arith)) refl

pub trim-solid : (s : String) → every_char is_solid s ≡ true → trim s ≡ s
unfolding trim
trim-solid s h = rw (trim_start-solid s h, trim_end-solid s h) refl

pub every_char-append :
    (keep : Char → Bool) (s t : String)
    → every_char keep s ≡ true
    → every_char keep t ≡ true
    → every_char keep (String.◌++◌ s t) ≡ true
unfolding every_char
every_char-append keep String.[] t h k = rw nil-append k
every_char-append keep (String.◌∷◌ c s) t h k =
    rw cons-append (ground (arith, every_char-append keep s t))

pub every_char-weaken :
    (p q : Char → Bool)
    → ((c : Char) → p c ≡ true → q c ≡ true)
    → (s : String) → every_char p s ≡ true
    → every_char q s ≡ true
unfolding every_char
every_char-weaken p q f String.[] h = refl
every_char-weaken p q f (String.◌∷◌ c s) h =
    let (e, k) = and-eq-true (p c) (every_char p s) h in
    rw (f c e, every_char-weaken p q f s k) refl

pub name_char-solid : (c : Char) → is_name_char c ≡ true → is_solid c ≡ true
name_char-solid c h = ground arith

pub name_char-no_slash : (c : Char) → is_name_char c ≡ true → no_slash c ≡ true
name_char-no_slash c h = ground arith

-- A text up to a slash is the first segment.
pub split-slash :
    (s t : String)
    → every_char no_slash s ≡ true
    → split_segments (String.◌++◌ s (String.◌++◌ "/" t)) ≡ s ∷ split_segments t
unfolding every_char split_segments
split-slash String.[] t h = rw (nil-append, cons-append, nil-append) refl
split-slash (String.◌∷◌ c s) t h =
    let n : (code c =? b'/') ≡ false = ground arith in
    rw (cons-append, n, split-slash s t (ground arith)) refl

pub split-last : (s : String) → every_char no_slash s ≡ true → split_segments s ≡ s ∷ []
unfolding every_char split_segments
split-last String.[] h = refl
split-last (String.◌∷◌ c s) h =
    let n : (code c =? b'/') ≡ false = ground arith in rw (n, split-last s (ground arith)) refl

unfoldable pub size : String → ℕ
size String.[] = 0
size (String.◌∷◌ c s) = suc (size s)

pub size-append : (s t : String) → size (String.◌++◌ s t) ≡ size s + size t
unfolding size
size-append String.[] t = rw nil-append (omega arith)
size-append (String.◌∷◌ c s) t = rw cons-append (omega (arith, size-append s t))

pub not-short : (s t : String) → size t < size s → (s == t) ≡ false
not-short s t h = elim (Bool-cases (s == t)) [
  | inl e ↦ let q : size s ≡ size t = ap size ((eq_iff s t).0 e) in absurd (omega arith)
  | inr e ↦ e
]

pub strip_git-append : (s : String) → strip_git (String.◌++◌ s ".git") ≡ s
unfolding strip_git size
strip_git-append String.[] = refl
strip_git-append (String.◌∷◌ c s) =
    let n : (String.◌∷◌ c (String.◌++◌ s ".git") == ".git") ≡ false =
      not-short (String.◌∷◌ c (String.◌++◌ s ".git")) ".git"
        (omega (arith, size-append s ".git")) in
    rw (cons-append, n, strip_git-append s) refl
