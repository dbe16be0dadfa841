-- ===== src/Domain/Slug/PathName.antt =====
-- The name of a clone's directory is one plain segment of a path.
use Prim.Native.Char.{Char, code}
use Prim.Native.String
use text.Mathlib.TextLemmas.{nil-append, cons-append}
use memo_repo.Prelude.{
  and-eq-true, String, Bool, true, false, ◌&&◌, ◌||◌, none, ◌=?◌, ◌==◌, ◌≡◌, inl, inr, refl, arith,
  Bool-cases, eq_iff,
}
use memo_repo.Text.{dash_runs, is_dash, trim_start_dashes, trim_end_dashes}
use memo_repo.Coverage.Paths.{is_plain_segment}
use memo_repo.Domain.Slug.{is_path_char, trim_dashes, repo_path_name}

unfoldable pub every_char : (Char → Bool) → String → Bool
every_char keep String.[] = true
every_char keep (String.◌∷◌ c s) = keep c && every_char keep s

abbrev is_underscore : Char → Bool
is_underscore c = code c =? b'_'

unfoldable pub has_underscore : String → Bool
has_underscore String.[] = false
has_underscore (String.◌∷◌ c s) = is_underscore c || has_underscore s

every_char-dash_runs :
    (b : Bool) (s : String) → every_char is_path_char (dash_runs is_path_char b s) ≡ true
unfolding every_char dash_runs
every_char-dash_runs b String.[] = refl
every_char-dash_runs true (String.◌∷◌ c s) =
    ground (arith, every_char-dash_runs true s, every_char-dash_runs false s)
every_char-dash_runs false (String.◌∷◌ c s) =
    ground (arith, every_char-dash_runs true s, every_char-dash_runs false s)

has_underscore-dash_runs :
    (b : Bool) (s : String)
    → has_underscore s ≡ true
    → has_underscore (dash_runs is_path_char b s) ≡ true
unfolding has_underscore dash_runs
has_underscore-dash_runs b String.[] h = h
has_underscore-dash_runs true (String.◌∷◌ c s) h =
    ground (arith, has_underscore-dash_runs true s, has_underscore-dash_runs false s)
has_underscore-dash_runs false (String.◌∷◌ c s) h =
    ground (arith, has_underscore-dash_runs true s, has_underscore-dash_runs false s)

every_char-trim_start :
    (keep : Char → Bool) (s : String)
    → every_char keep s ≡ true
    → every_char keep (trim_start_dashes s) ≡ true
unfolding every_char trim_start_dashes
every_char-trim_start keep String.[] h = h
every_char-trim_start keep (String.◌∷◌ c s) h = ground (arith, every_char-trim_start keep s)

every_char-trim_end :
    (keep : Char → Bool) (s : String)
    → every_char keep s ≡ true
    → every_char keep (trim_end_dashes s) ≡ true
unfolding every_char trim_end_dashes
every_char-trim_end keep String.[] h = h
every_char-trim_end keep (String.◌∷◌ c s) h =
    elim (Bool-cases (is_dash c && trim_end_dashes s == "")) [
      | inl e ↦ rw e refl
      | inr e ↦ rw e (ground (arith, every_char-trim_end keep s))
    ]

has_underscore-trim_start :
    (s : String) → has_underscore s ≡ true → has_underscore (trim_start_dashes s) ≡ true
unfolding has_underscore trim_start_dashes
has_underscore-trim_start String.[] h = h
has_underscore-trim_start (String.◌∷◌ c s) h = ground (arith, has_underscore-trim_start s)

has_underscore-trim_end :
    (s : String) → has_underscore s ≡ true → has_underscore (trim_end_dashes s) ≡ true
unfolding has_underscore trim_end_dashes
has_underscore-trim_end String.[] h = h
has_underscore-trim_end (String.◌∷◌ c s) h =
    elim (Bool-cases (is_dash c && trim_end_dashes s == "")) [
      | inl e ↦
          let (d, q) = and-eq-true (is_dash c) (trim_end_dashes s == "") e in
          let k : has_underscore s ≡ true = ground arith in
          let z = has_underscore-trim_end s k in
          let w : has_underscore "" ≡ true = rw ((eq_iff (trim_end_dashes s) "").0 q) at z in cc
      | inr e ↦ rw e (ground (arith, has_underscore-trim_end s))
    ]

not-same : (s t : String) → has_underscore s ≡ true → has_underscore t ≡ false → (s == t) ≡ false
not-same s t h k = elim (Bool-cases (s == t)) [
  | inl e ↦ let z : has_underscore t ≡ true = rw ((eq_iff s t).0 e) at h in cc
  | inr e ↦ e
]

has_underscore-plain : (s : String) → has_underscore s ≡ true → is_plain_segment s ≡ true
unfolding has_underscore
has_underscore-plain s h =
    rw (not-same s "" h refl, not-same s "." h refl, not-same s ".." h refl) refl

has_underscore-joined :
    (owner name : String) → has_underscore (String.◌++◌ owner (String.◌++◌ "__" name)) ≡ true
unfolding has_underscore
has_underscore-joined String.[] name = rw (nil-append, cons-append) refl
has_underscore-joined (String.◌∷◌ c s) name =
    rw cons-append (ground (arith, has_underscore-joined s name))

-- Where `toLowerCase` keeps an underscore, the name of a clone without a suffix has only the
-- characters a-z, 0-9, `_`, `.` and `-`, so no separator of paths, and it is not empty and none of
-- the names `.` and `..`: joined to the directory of clones, it stays inside, and is not that directory.
pub repo_path_name-IsPlain :
    (lower : String → String)
    → ((s : String) → has_underscore s ≡ true → has_underscore (lower s) ≡ true)
    → (owner name : String)
    → (every_char is_path_char (repo_path_name lower owner name none) ≡ true)
      × (is_plain_segment (repo_path_name lower owner name none) ≡ true)
unfolding repo_path_name
repo_path_name-IsPlain lower keeps owner name =
    let joined = String.◌++◌ owner (String.◌++◌ "__" name) in
    let runs = dash_runs is_path_char false (lower joined) in
    let kept =
      has_underscore-dash_runs false (lower joined)
        (keeps joined (has_underscore-joined owner name)) in
    (
      every_char-trim_end is_path_char (trim_start_dashes runs)
          (every_char-trim_start is_path_char runs (every_char-dash_runs false (lower joined))),
      has_underscore-plain (trim_dashes runs)
          (has_underscore-trim_end (trim_start_dashes runs) (has_underscore-trim_start runs kept)),
    )
