-- ===== src/Domain/Slug/Shape.antt =====
-- The shape of a slug: words of lower-case letters and digits, with one dash between any two.
use Prim.Native.Char.{Char}
use memo_repo.Prelude.{
  String, Bool, true, false, not, ◌&&◌, ◌==◌, ◌≡◌, ◌⊎◌, inl, inr, refl, arith, if◌then◌else◌,
  Bool-cases, eq_iff,
}
use memo_repo.Text.{dash_runs, is_dash, trim_start_dashes, trim_end_dashes}
use memo_repo.Domain.Slug.{is_word, trim_dashes, trim, drop_quotes, slugify}

-- What is left of a slug behind a word (true), or at its start or behind a dash (false).
unfoldable pub is_slug : Bool → String → Bool
is_slug after_word String.[] = after_word
is_slug after_word (String.◌∷◌ c s) =
    let more = is_slug true s in
    let next = is_slug false s in if is_word c then more else is_dash c && (after_word && next)

-- As a slug, but dashes may stand at both ends; none at the start where one stands before it.
unfoldable is_loose : Bool → String → Bool
is_loose after_dash String.[] = true
is_loose after_dash (String.◌∷◌ c s) =
    let more = is_loose false s in
    let next = is_loose true s in if is_word c then more else is_dash c && (not after_dash && next)

dash_runs-loose : (in_run : Bool) (s : String) → is_loose in_run (dash_runs is_word in_run s) ≡ true
unfolding is_loose dash_runs
dash_runs-loose b String.[] = refl
dash_runs-loose true (String.◌∷◌ c s) =
    ground (arith, dash_runs-loose false s, dash_runs-loose true s)
dash_runs-loose false (String.◌∷◌ c s) =
    ground (arith, dash_runs-loose false s, dash_runs-loose true s)

trim_start-id : (s : String) → is_loose true s ≡ true → trim_start_dashes s ≡ s
unfolding is_loose trim_start_dashes
trim_start-id String.[] h = refl
trim_start-id (String.◌∷◌ c s) h = ground arith

loose-trim_start :
    (s : String) → is_loose false s ≡ true → is_loose true (trim_start_dashes s) ≡ true
unfolding is_loose trim_start_dashes
loose-trim_start String.[] h = refl
loose-trim_start (String.◌∷◌ c s) h = elim (Bool-cases (is_dash c)) [
  | inl e ↦ let k : is_loose true s ≡ true = ground arith in rw (e, trim_start-id s k) k
  | inr e ↦ rw e (ground arith)
]

not-dash : (c : Char) → is_word c ≡ true → is_dash c ≡ false
not-dash c h = ground arith

slug_tail : (s : String) → (s ≡ "") ⊎ (is_slug true s ≡ true) → is_slug true s ≡ true
unfolding is_slug
slug_tail s (inl e) = rw e refl
slug_tail s (inr h) = h

loose_tail :
    (c : Char) (s : String)
    → is_word c ≡ true
    → (b : Bool) → is_loose b (String.◌∷◌ c s) ≡ true
    → is_loose false s ≡ true
unfolding is_loose
loose_tail c s e b h = rw e at h

loose_dash :
    (c : Char) (s : String)
    → is_word c ≡ false
    → (b : Bool) → is_loose b (String.◌∷◌ c s) ≡ true
    → (is_dash c ≡ true) × (b ≡ false) × (is_loose true s ≡ true)
unfolding is_loose
loose_dash c s e true h = ground arith
loose_dash c s e false h = ground arith

trim_end-IsSlug :
    (after_dash : Bool) (s : String)
    → is_loose after_dash s ≡ true
    → (trim_end_dashes s ≡ "") ⊎ (is_slug (not after_dash) (trim_end_dashes s) ≡ true)
unfolding trim_end_dashes is_slug
trim_end-IsSlug b String.[] h = inl refl
trim_end-IsSlug b (String.◌∷◌ c s) h = elim (Bool-cases (is_word c)) [
  | inl e ↦
      let tail = slug_tail (trim_end_dashes s) (trim_end-IsSlug false s (loose_tail c s e b h)) in
      inr (rw (not-dash c e, e) tail)
  | inr e ↦
      let (d, f, k) = loose_dash c s e b h in
      elim (trim_end-IsSlug true s k) [
        | inl q ↦ inl (rw (d, q) refl)
        | inr i ↦ elim (Bool-cases (trim_end_dashes s == "")) [
          | inl q ↦ inl (rw (d, q) refl)
          | inr q ↦ inr (rw (d, q, f, e, d) i)
        ]
      ]
]

-- Whatever the name of a space is, its slug is a text of lower-case letters, digits and single
-- dashes that neither starts nor ends with a dash, and it is not empty.
pub slugify-IsSlug :
    (lower : String → String) (input : String) → is_slug false (slugify lower input) ≡ true
unfolding slugify is_slug
slugify-IsSlug lower input =
    let runs = dash_runs is_word false (drop_quotes (lower (trim input))) in
    let loose = loose-trim_start runs (dash_runs-loose false (drop_quotes (lower (trim input)))) in
    elim (Bool-cases (trim_dashes runs == "")) [
      | inl e ↦ rw e refl
      | inr e ↦ elim (trim_end-IsSlug true (trim_start_dashes runs) loose) [
        | inl q ↦ cc ((eq_iff (trim_dashes runs) "").1 q)
        | inr h ↦ rw e h
      ]
    ]
