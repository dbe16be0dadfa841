-- ===== src/Domain/Slug/Fixed.antt =====
-- A slug is its own slug.
use Prim.Native.Char.{Char}
use text.Mathlib.TextEquality.{Char-path}
use memo_repo.Prelude.{
  String, Bool, true, false, not, ◌==◌, ◌≡◌, ◌⊎◌, inl, inr, refl, arith, Bool-cases, eq_iff,
}
use memo_repo.Text.{dash_runs, dash, is_dash, trim_start_dashes, trim_end_dashes, is_white}
use memo_repo.Domain.Slug.{is_word, trim, trim_start, trim_end, drop_quotes, slugify}
use memo_repo.Domain.Slug.Shape.{is_slug, slugify-IsSlug}

dash-only : (c : Char) → is_dash c ≡ true → c ≡ dash
dash-only c h = Char-path c dash (ground arith)

-- A slug starts with a word's character, or behind a word with a dash that a word follows.
pub slug_head :
    (b : Bool) (c : Char) (s : String)
    → is_slug b (String.◌∷◌ c s) ≡ true
    → ((is_word c ≡ true) × (is_slug true s ≡ true))
      ⊎ ((is_word c ≡ false) × (is_dash c ≡ true) × (b ≡ true) × (is_slug false s ≡ true))
unfolding is_slug
slug_head true c s h = ground arith
slug_head false c s h = ground arith

pub slug_inside :
    (b : Bool) (c : Char) (s : String)
    → is_slug b (String.◌∷◌ c s) ≡ true
    → is_slug (is_word c) s ≡ true
slug_inside b c s h = elim (slug_head b c s h) [ inl (e, k) ↦ rw e k | inr (e, _, _, k) ↦ rw e k ]

not-white :
    (b : Bool) (c : Char) (s : String) → is_slug b (String.◌∷◌ c s) ≡ true → is_white c ≡ false
not-white b c s h = elim (slug_head b c s h) [
  | inl (e, k) ↦ ground arith
  | inr (e, d, _, k) ↦ ground arith
]

trim_start-kept : (b : Bool) (s : String) → is_slug b s ≡ true → trim_start s ≡ s
unfolding trim_start
trim_start-kept b String.[] h = refl
trim_start-kept b (String.◌∷◌ c s) h = rw (not-white b c s h) refl

trim_end-kept : (b : Bool) (s : String) → is_slug b s ≡ true → trim_end s ≡ s
unfolding trim_end
trim_end-kept b String.[] h = refl
trim_end-kept b (String.◌∷◌ c s) h =
    rw (not-white b c s h, trim_end-kept (is_word c) s (slug_inside b c s h)) refl

drop_quotes-kept : (b : Bool) (s : String) → is_slug b s ≡ true → drop_quotes s ≡ s
unfolding drop_quotes
drop_quotes-kept b String.[] h = refl
drop_quotes-kept b (String.◌∷◌ c s) h =
    let rest = drop_quotes-kept (is_word c) s (slug_inside b c s h) in
    elim (slug_head b c s h) [ inl (e, k) ↦ ground arith | inr (e, d, _, k) ↦ ground arith ]

dash_runs-kept : (b : Bool) (s : String) → is_slug b s ≡ true → dash_runs is_word (not b) s ≡ s
unfolding dash_runs
dash_runs-kept b String.[] h = refl
dash_runs-kept b (String.◌∷◌ c s) h = elim (slug_head b c s h) [
  | inl (e, k) ↦ rw (e, dash_runs-kept true s k) refl
  | inr (e, d, f, k) ↦ rw (e, f, dash_runs-kept false s k) (rw (dash-only c d) refl)
]

trim_start_dashes-kept : (s : String) → is_slug false s ≡ true → trim_start_dashes s ≡ s
unfolding trim_start_dashes
trim_start_dashes-kept String.[] h = refl
trim_start_dashes-kept (String.◌∷◌ c s) h = elim (slug_head false c s h) [
  | inl (e, k) ↦ ground arith
  | inr (e, d, f, k) ↦ cc
]

slug-nonempty : (s : String) → is_slug false s ≡ true → (s == "") ≡ false
unfolding is_slug
slug-nonempty s h = elim (Bool-cases (s == "")) [
  | inl e ↦ let k : is_slug false "" ≡ true = rw ((eq_iff s "").0 e) at h in cc
  | inr e ↦ e
]

slug_weaken : (s : String) → is_slug false s ≡ true → is_slug true s ≡ true
unfolding is_slug
slug_weaken String.[] h = refl
slug_weaken (String.◌∷◌ c s) h = ground arith

trim_end_dashes-kept : (b : Bool) (s : String) → is_slug b s ≡ true → trim_end_dashes s ≡ s
unfolding trim_end_dashes is_slug
trim_end_dashes-kept b String.[] h = refl
trim_end_dashes-kept b (String.◌∷◌ c s) h =
    let rest = trim_end_dashes-kept (is_word c) s (slug_inside b c s h) in
    elim (slug_head b c s h) [
      | inl (e, k) ↦ let d : is_dash c ≡ false = ground arith in rw (d, rest) refl
      | inr (e, d, f, k) ↦ let nonempty = slug-nonempty s k in rw (d, rest, nonempty) refl
    ]

slugify-kept :
    (lower : String → String) (s : String)
    → lower s ≡ s
    → is_slug false s ≡ true
    → slugify lower s ≡ s
unfolding slugify trim
slugify-kept lower s l h =
    let runs : dash_runs is_word false s ≡ s = dash_runs-kept true s (slug_weaken s h) in
    rw
      (
        trim_start-kept false s h,
        trim_end-kept false s h,
        l,
        drop_quotes-kept false s h,
        runs,
        trim_start_dashes-kept s h,
        trim_end_dashes-kept false s h,
        slug-nonempty s h,
      )
      refl

-- If `toLowerCase` leaves a text of lower-case letters, digits and dashes as it is, then the slug of
-- a slug is that slug: to take it again, as of a name that was stored as one, changes nothing.
pub slugify-slugify :
    (lower : String → String)
    → ((s : String) → is_slug false s ≡ true → lower s ≡ s)
    → (input : String) → slugify lower (slugify lower input) ≡ slugify lower input
slugify-slugify lower keeps input =
    let h = slugify-IsSlug lower input in
    slugify-kept lower (slugify lower input) (keeps (slugify lower input) h) h
