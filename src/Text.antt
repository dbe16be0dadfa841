-- ===== src/Text.antt =====
-- The pieces of text handling that the services share: letter case over ASCII, the replacement of
-- runs of unwanted characters by a dash, and the search for a part.
use Prim.Native.Char.{Char, code}
use Prim.Native.String.{char_at}
use text.Mathlib.Text.{find?}
use memo_repo.Prelude.{
  ◌||◌, String, ◌-◌, Bool, true, false, ◌&&◌, Option, none, some, leb, ◌=?◌, ◌==◌, if◌then◌else◌,
}

abbrev pub is_lower : Char → Bool
is_lower c = leb b'a' (code c) && leb (code c) b'z'

abbrev pub is_upper : Char → Bool
is_upper c = leb b'A' (code c) && leb (code c) b'Z'

abbrev pub is_digit : Char → Bool
is_digit c = leb b'0' (code c) && leb (code c) b'9'

unfoldable pub to_upper : Char → Char
to_upper c = if is_lower c then char_at "ABCDEFGHIJKLMNOPQRSTUVWXYZ" (code c - b'a') else c

unfoldable pub to_lower : Char → Char
to_lower c = if is_upper c then char_at "abcdefghijklmnopqrstuvwxyz" (code c - b'A') else c

unfoldable pub map_chars : (Char → Char) → String → String
map_chars f String.[] = ""
map_chars f (String.◌∷◌ c s) = String.◌∷◌ (f c) (map_chars f s)

abbrev pub dash : Char
dash = char_at "-" 0

abbrev pub is_dash : Char → Bool
is_dash c = code c =? b'-'

-- `.replace(/[^…]+/g, "-")` for the class that `keep` tests; `in_run` tells that the last character
-- was one of a run that has its dash already.
unfoldable pub dash_runs : (Char → Bool) → Bool → String → String
dash_runs keep in_run String.[] = ""
dash_runs keep in_run (String.◌∷◌ c s) =
    let kept = String.◌∷◌ c (dash_runs keep false s) in
    let rest = dash_runs keep true s in
    if keep c then kept else if in_run then rest else String.◌∷◌ dash rest

-- `.replace(/^-+|-+$/g, "")`
unfoldable pub trim_start_dashes : String → String
trim_start_dashes String.[] = ""
trim_start_dashes (String.◌∷◌ c s) = if is_dash c then trim_start_dashes s else String.◌∷◌ c s

unfoldable pub trim_end_dashes : String → String
trim_end_dashes String.[] = ""
trim_end_dashes (String.◌∷◌ c s) =
    let rest = trim_end_dashes s in if is_dash c && rest == "" then "" else String.◌∷◌ c rest

abbrev pub is_some {ℓ} : {A : Type ℓ} → Option A → Bool
is_some none = false
is_some (some a) = true

-- `/part/.test(text)` for a part with no special character
unfoldable pub includes : String → String → Bool
includes text part = is_some (find? text part)

-- A character that `trim` takes away.
abbrev pub is_white : Char → Bool
is_white c =
    let n = code c in
    (leb 9 n && leb n 13)
    || n =? 32
    || n =? 0xA0
    || n =? 0x1680
    || (leb 0x2000 n && leb n 0x200A)
    || n =? 0x2028
    || n =? 0x2029
    || n =? 0x202F
    || n =? 0x205F
    || n =? 0x3000
    || n =? 0xFEFF

-- `!text.trim()`
unfoldable pub is_blank : String → Bool
is_blank String.[] = true
is_blank (String.◌∷◌ c s) = is_white c && is_blank s
