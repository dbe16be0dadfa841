-- ===== src/Coverage/Paths.antt =====
-- The paths of snapshotIndexCoverage.ts: `normalizeCoveragePath`, `fileExtension`, and the sorting of
-- texts.
use Prim.Native.Char.{Char, code}
use Prim.Native.String.{char_at}
use memo_repo.Prelude.{
  String, Bool, false, not, ◌&&◌, ◌||◌, Option, none, some, List, [], ◌∷◌, ◌=?◌, ◌==◌,
  if◌then◌else◌, every, set_has,
}

-- What Node and its locale data give: `path.posix.extname` in lower case, and whether `localeCompare`
-- puts one text before another.
pub record Locale : Type 0 where
  pub lower_extname : String → String
  pub goes_before : String → String → Bool

unfoldable pub file_extension : Locale → String → String
file_extension w path = if w.lower_extname path == "" then "[none]" else w.lower_extname path

abbrev is_slash : Char → Bool
is_slash c = code c =? b'/'

abbrev slash : Char
slash = char_at "/" 0

-- `replaceAll("\\", "/")`
unfoldable slashes : String → String
slashes String.[] = ""
slashes (String.◌∷◌ c s) = String.◌∷◌ (if code c =? b'\\' then slash else c) (slashes s)

-- `replace(/^\.\//, "")`
unfoldable without_here : String → String
without_here String.[] = ""
without_here (String.◌∷◌ c String.[]) = String.◌∷◌ c String.[]
without_here (String.◌∷◌ c (String.◌∷◌ d s)) =
    if code c =? b'.' && is_slash d then s else String.◌∷◌ c (String.◌∷◌ d s)

-- `replace(/\/+$/, "")`
unfoldable trim_end_slashes : String → String
trim_end_slashes String.[] = ""
trim_end_slashes (String.◌∷◌ c s) =
    let rest = trim_end_slashes s in if is_slash c && rest == "" then "" else String.◌∷◌ c rest

to_first : Char → List String → List String
to_first c [] = String.◌∷◌ c String.[] ∷ []
to_first c (s ∷ ss) = String.◌∷◌ c s ∷ ss

-- `split("/")`
unfoldable pub split_segments : String → List String
unfolding to_first
split_segments String.[] = "" ∷ []
split_segments (String.◌∷◌ c s) =
    let rest = split_segments s in if is_slash c then "" ∷ rest else to_first c rest

abbrev pub is_plain_segment : String → Bool
is_plain_segment s = not (s == "") && (not (s == ".") && not (s == ".."))

unfoldable is_absolute : String → Bool
is_absolute String.[] = false
is_absolute (String.◌∷◌ c s) = is_slash c

unfoldable pub normalize_coverage_path : String → Option String
unfolding slashes without_here trim_end_slashes split_segments is_absolute
normalize_coverage_path value =
    let normalized = trim_end_slashes (without_here (slashes value)) in
    if normalized == "" || is_absolute normalized
    then none
    else if every is_plain_segment (split_segments normalized)
    then some normalized
    else none

unfoldable pub insert_text : (String → String → Bool) → String → List String → List String
insert_text goes_before v [] = v ∷ []
insert_text goes_before v (w ∷ ws) =
    if goes_before w v then w ∷ insert_text goes_before v ws else v ∷ w ∷ ws

unfoldable pub sort_texts : (String → String → Bool) → List String → List String
unfolding insert_text
sort_texts goes_before [] = []
sort_texts goes_before (v ∷ vs) = insert_text goes_before v (sort_texts goes_before vs)

-- `[...new Set(values)]`, the values seen before left out
unfoldable pub distinct : List String → List String → List String
distinct seen [] = []
distinct seen (v ∷ vs) =
    let fresh = v ∷ distinct (v ∷ seen) vs in
    let rest = distinct seen vs in if set_has v seen then rest else fresh

unfoldable pub unique_sorted : Locale → List String → List String
unfolding sort_texts distinct
unique_sorted w values = sort_texts w.goes_before (distinct [] values)
