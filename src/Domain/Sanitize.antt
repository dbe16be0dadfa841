-- ===== src/Domain/Sanitize.antt =====
-- `sanitizePublicMessage` and `replaceCaseInsensitive` of apps/api/src/domain/publicSanitize.ts. A text is
-- the list of its UTF-16 units, which is what `length`, `slice` and `indexOf` count. `toLocaleLowerCase`,
-- `path.resolve` and the escapes of `JSON.stringify` are arguments.
--
-- The `while` loop runs on fuel, one more than the text is long, and gives `none` if that runs out.
pub mod Ends
mod Tests
use memo_repo.Prelude.{
  ℕ, zero, suc, ◌+◌, Bool, true, false, not, ◌&&◌, ◌||◌, Option, none, some, List, [], ◌∷◌, ◌++◌,
  ltb, leb, ◌=?◌, if◌then◌else◌, length, take,
}

abbrev pub Units : Type 0
Units = List ℕ

unfoldable pub drop : ℕ → Units → Units
drop zero xs = xs
drop (suc n) [] = []
drop (suc n) (x ∷ xs) = drop n xs

unfoldable pub is_prefix : Units → Units → Bool
is_prefix [] s = true
is_prefix (x ∷ xs) [] = false
is_prefix (x ∷ xs) (y ∷ ys) = x =? y && is_prefix xs ys

-- `indexOf(needle, from)` in what is left of a text from `at` on. A start behind the end counts as the end.
unfoldable pub index_of : Units → ℕ → ℕ → Units → Option ℕ
index_of needle from at [] = if is_prefix needle [] then some at else none
index_of needle from at (c ∷ s) =
    let rest = index_of needle from (suc at) s in
    if leb from at && is_prefix needle (c ∷ s) then some at else rest

-- `${result.slice(0, index)}${replacement}${result.slice(index + target.length)}`
abbrev pub spliced : Units → Units → ℕ → Units → Units
spliced target replacement index result =
    take index result ++ (replacement ++ drop (index + length target) result)

unfoldable pub replace_loop : (Units → Units) → Units → Units → ℕ → Units → ℕ → Option Units
replace_loop lower target replacement zero result from = none
replace_loop lower target replacement (suc fuel) result from =
    if not (ltb from (length result))
    then some result
    else elim (index_of (lower target) from 0 (lower result)) [
      | none ↦ some result
      | some index ↦
          replace_loop lower target replacement fuel (spliced target replacement index result)
            (index + length replacement)
    ]

abbrev pub is_empty : Units → Bool
is_empty [] = true
is_empty (x ∷ xs) = false

unfoldable pub replace_case_insensitive : (Units → Units) → Units → Units → Units → Option Units
replace_case_insensitive lower value target replacement =
    if is_empty target
    then some value
    else replace_loop lower target replacement (suc (length value)) value 0

-- `[MANAGED_PATH]`
abbrev pub managed_path : Units
managed_path = 91 ∷ 77 ∷ 65 ∷ 78 ∷ 65 ∷ 71 ∷ 69 ∷ 68 ∷ 95 ∷ 80 ∷ 65 ∷ 84 ∷ 72 ∷ 93 ∷ []

abbrev same_units : Units → Units → Bool
same_units [] [] = true
same_units (x ∷ xs) (y ∷ ys) = x =? y && same_units xs ys
same_units _ _ = false

abbrev has_units : Units → List Units → Bool
has_units s [] = false
has_units s (t ∷ ts) = same_units s t || has_units s ts

-- `new Set(values)` in its order
unfoldable pub distinct_units : List Units → List Units → List Units
distinct_units seen [] = []
distinct_units seen (v ∷ vs) =
    let fresh = v ∷ distinct_units (v ∷ seen) vs in
    let rest = distinct_units seen vs in if has_units v seen then rest else fresh

-- `replaceAll` of one unit by another
unfoldable pub replace_unit : ℕ → ℕ → Units → Units
replace_unit old new [] = []
replace_unit old new (c ∷ s) = (if c =? old then new else c) ∷ replace_unit old new s

pub record Platform : Type 0 where
  pub lower : Units → Units
  pub resolve : Units → Units
  -- `JSON.stringify(variant).slice(1, -1)`
  pub escaped : Units → Units

abbrev with_escaped : Platform → List Units → List Units
with_escaped p [] = []
with_escaped p (v ∷ vs) = v ∷ p.escaped v ∷ with_escaped p vs

unfoldable pub variants : Platform → Units → List Units
variants p root = distinct_units [] (
    with_escaped p (root ∷ p.resolve root ∷ replace_unit 92 47 root ∷ replace_unit 47 92 root ∷ []))

unfoldable pub replace_each : Platform → List Units → Units → Option Units
replace_each p [] message = some message
replace_each p (v ∷ vs) message = elim (replace_case_insensitive p.lower message v managed_path) [
  | none ↦ none
  | some next ↦ replace_each p vs next
]

-- `sanitizePublicMessage`, of the message that an error has or a value is printed as
unfoldable pub sanitize_public_message : Platform → List Units → Units → Option Units
sanitize_public_message p [] message = some message
sanitize_public_message p (root ∷ roots) message =
    elim (if is_empty root then some message else replace_each p (variants p root) message) [
      | none ↦ none
      | some next ↦ sanitize_public_message p roots next
    ]
