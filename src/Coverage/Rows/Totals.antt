-- ===== src/Coverage/Rows/Totals.antt =====
-- The totals of snapshotIndexCoverage.ts against plain counts over the files.
use memo_repo.Prelude.{
  inr, inl, ℕ, String, ◌+◌, ◌≡◌, refl, sym, ◌∙◌, ap, Bool, not, ◌&&◌, List, [], ◌∷◌, arith, ◌==◌,
  if◌then◌else◌, map_get, map_set, values, set_has, Bool-cases,
}
use memo_repo.Coverage.Paths.{Locale, file_extension}
use memo_repo.Coverage.Rows.{
  File, Row, empty_extension, with_coverage_ratio, or_empty, count_file, count_files, insert_row,
  finish_rows, extension_coverage, add_row, collect, aggregate_extensions, add_rows, sum_coverage,
}

-- A number of a row, over all rows, and a number of a file, over all files.
unfoldable pub total : {A : Type 0} → (A → ℕ) → List A → ℕ
total f [] = 0
total f (x ∷ xs) = f x + total f xs

-- A number of rows that additions add up and the ratio does not touch.
pub record IsNumber (f : Row → ℕ) : Type 0 where
  pub empty : (e : String) → f (empty_extension e) ≡ 0
  pub added : (t r : Row) → f (add_row t r) ≡ f t + f r
  pub ratio : (r : Row) → f (with_coverage_ratio r) ≡ f r

total-map_set :
    (f : Row → ℕ) (n : IsNumber f) (k : String) (v : Row) (m : List (String × Row))
    → total f (values (map_set k v m)) + f (or_empty k (map_get k m)) ≡ total f (values m) + f v
unfolding total map_set map_get
total-map_set f n k v [] = omega (arith, n.empty k)
total-map_set f n k v ((j, w) ∷ m) = elim (Bool-cases (j == k)) [
  | inl e ↦ rw e (omega arith)
  | inr e ↦ rw e (omega (arith, total-map_set f n k v m))
]

total-insert_row :
    (f : Row → ℕ) (w : Locale) (r : Row) (rs : List Row)
    → total f (insert_row w r rs) ≡ f r + total f rs
unfolding total insert_row
total-insert_row f w r [] = refl
total-insert_row f w r (q ∷ qs) = ground (arith, total-insert_row f w r qs)

total-finish_rows :
    (f : Row → ℕ)
    → IsNumber f
    → (w : Locale) (rs : List Row) → total f (finish_rows w rs) ≡ total f rs
unfolding total finish_rows
total-finish_rows f n w [] = refl
total-finish_rows f n w (r ∷ rs) = omega (
  arith,
  total-insert_row f w (with_coverage_ratio r) (finish_rows w rs),
  n.ratio r,
  total-finish_rows f n w rs,
)

add_rows-number :
    (f : Row → ℕ) → IsNumber f → (t : Row) (rs : List Row) → f (add_rows t rs) ≡ f t + total f rs
unfolding total add_rows
add_rows-number f n t [] = omega arith
add_rows-number f n t (r ∷ rs) = omega (arith, add_rows-number f n (add_row t r) rs, n.added t r)

pub sum_coverage-number :
    (f : Row → ℕ) → IsNumber f → (rs : List Row) → f (sum_coverage rs) ≡ total f rs
unfolding sum_coverage
sum_coverage-number f n rs = omega (
  arith,
  n.ratio (add_rows (empty_extension "all") rs),
  add_rows-number f n (empty_extension "all") rs,
  n.empty "all",
)

total-count_files :
    (f : Row → ℕ) (g : File → ℕ) (n : IsNumber f) (w : Locale) (ex sk : List String)
    → ((x : File) (r : Row) → f (count_file ex sk x r) ≡ f r + g x)
    → (fs : List File) (m : List (String × Row))
    → total f (values (count_files w ex sk fs m)) ≡ total f (values m) + total g fs
unfolding total count_files
total-count_files f g n w ex sk c [] m = omega arith
total-count_files f g n w ex sk c (x ∷ fs) m =
    let e = file_extension w x.path in
    let row = or_empty e (map_get e m) in
    omega (
      arith,
      total-count_files f g n w ex sk c fs (map_set e (count_file ex sk x row) m),
      total-map_set f n e (count_file ex sk x row) m,
      c x row,
    )

total-collect :
    (f : Row → ℕ)
    → (n : IsNumber f) → (rs : List Row) (m : List (String × Row))
    → total f (values (collect rs m)) ≡ total f (values m) + total f rs
unfolding total collect
total-collect f n [] m = omega arith
total-collect f n (r ∷ rs) m =
    let row = or_empty r.extension (map_get r.extension m) in
    omega (
      arith,
      total-collect f n rs (map_set r.extension (add_row row r) m),
      total-map_set f n r.extension (add_row row r) m,
      n.added row r,
    )

-- The number of the totals over the rows by extension, whatever the order of the rows.
coverage-number :
    (f : Row → ℕ) (g : File → ℕ) (n : IsNumber f) (w : Locale) (fs : List File)
    (ex sk : List String)
    → ((x : File) (r : Row) → f (count_file ex sk x r) ≡ f r + g x)
    → f (sum_coverage (extension_coverage w fs ex sk)) ≡ total g fs
unfolding extension_coverage total
coverage-number f g n w fs ex sk c = omega (
  arith,
  sum_coverage-number f n (finish_rows w (values (count_files w ex sk fs []))),
  total-finish_rows f n w (values (count_files w ex sk fs [])),
  total-count_files f g n w ex sk c fs [],
)

aggregate-number :
    (f : Row → ℕ) (n : IsNumber f) (w : Locale) (rs : List Row)
    → f (add_rows (empty_extension "all") (aggregate_extensions w rs))
      ≡ f (add_rows (empty_extension "all") rs)
unfolding aggregate_extensions total
aggregate-number f n w rs = omega (
  arith,
  add_rows-number f n (empty_extension "all") (aggregate_extensions w rs),
  add_rows-number f n (empty_extension "all") rs,
  total-finish_rows f n w (values (collect rs [])),
  total-collect f n rs [],
)

pub source_files-IsNumber : IsNumber (λ r. r.source_files)
unfolding with_coverage_ratio
source_files-IsNumber = record { empty = λ e. refl; added = λ t r. refl; ratio = λ r. refl }

pub source_bytes-IsNumber : IsNumber (λ r. r.source_bytes)
unfolding with_coverage_ratio
source_bytes-IsNumber = record { empty = λ e. refl; added = λ t r. refl; ratio = λ r. refl }

pub excluded-IsNumber : IsNumber (λ r. r.excluded_files)
unfolding with_coverage_ratio
excluded-IsNumber = record { empty = λ e. refl; added = λ t r. refl; ratio = λ r. refl }

pub skipped-IsNumber : IsNumber (λ r. r.skipped_files)
unfolding with_coverage_ratio
skipped-IsNumber = record { empty = λ e. refl; added = λ t r. refl; ratio = λ r. refl }

pub candidate-IsNumber : IsNumber (λ r. r.candidate_files)
unfolding with_coverage_ratio
candidate-IsNumber = record { empty = λ e. refl; added = λ t r. refl; ratio = λ r. refl }

pub candidate_bytes-IsNumber : IsNumber (λ r. r.candidate_bytes)
unfolding with_coverage_ratio
candidate_bytes-IsNumber = record { empty = λ e. refl; added = λ t r. refl; ratio = λ r. refl }

abbrev pub is_candidate_file : List String → List String → File → Bool
is_candidate_file ex sk x = not (set_has x.path ex) && not (set_has x.path sk)

abbrev pub one_if : Bool → ℕ
one_if b = if b then 1 else 0

-- The totals are those of plain counts over the files, however the files fall into extensions and
-- however the locale orders those: each file is counted once, as excluded, as skipped if it is not
-- excluded, or else as a candidate.
pub coverage-totals :
    (w : Locale) (fs : List File) (ex sk : List String)
    → let t = sum_coverage (extension_coverage w fs ex sk) in
      (t.source_files ≡ total (λ x. 1) fs)
      × (t.source_bytes ≡ total (λ (x : File). x.size_bytes) fs)
      × (t.excluded_files ≡ total (λ (x : File). one_if (set_has x.path ex)) fs)
      × (t.skipped_files
          ≡ total (λ (x : File). one_if (not (set_has x.path ex) && set_has x.path sk)) fs)
      × (t.candidate_files ≡ total (λ x. one_if (is_candidate_file ex sk x)) fs)
      × (t.candidate_bytes
          ≡ total (λ (x : File). if is_candidate_file ex sk x then x.size_bytes else 0) fs)
unfolding count_file
coverage-totals w fs ex sk = (
  coverage-number _ _ source_files-IsNumber w fs ex sk (λ x r. ground arith),
  coverage-number _ _ source_bytes-IsNumber w fs ex sk (λ x r. ground arith),
  coverage-number _ _ excluded-IsNumber w fs ex sk (λ x r. ground arith),
  coverage-number _ _ skipped-IsNumber w fs ex sk (λ x r. ground arith),
  coverage-number _ _ candidate-IsNumber w fs ex sk (λ x r. ground arith),
  coverage-number _ _ candidate_bytes-IsNumber w fs ex sk (λ x r. ground arith),
)

add_rows-rest :
    (t : Row) (rs : List Row)
    → ((add_rows t rs).extension ≡ t.extension)
      × ((add_rows t rs).coverage_ratio ≡ t.coverage_ratio)
unfolding add_rows
add_rows-rest t [] = (refl, refl)
add_rows-rest t (r ∷ rs) = add_rows-rest (add_row t r) rs

same_row :
    (r q : Row)
    → r.extension ≡ q.extension
    → r.source_files ≡ q.source_files
    → r.source_bytes ≡ q.source_bytes
    → r.excluded_files ≡ q.excluded_files
    → r.skipped_files ≡ q.skipped_files
    → r.candidate_files ≡ q.candidate_files
    → r.candidate_bytes ≡ q.candidate_bytes
    → r.coverage_ratio ≡ q.coverage_ratio
    → r ≡ q
same_row r q a b c d e f g h = ground arith

-- The totals over the rows of all projects taken together by extension are those over the rows
-- themselves, each as it is.
pub aggregate-totals :
    (w : Locale) (rs : List Row) → sum_coverage (aggregate_extensions w rs) ≡ sum_coverage rs
unfolding sum_coverage
aggregate-totals w rs =
    let all = empty_extension "all" in
    let (e, r) = add_rows-rest all (aggregate_extensions w rs) in
    let (e', r') = add_rows-rest all rs in
    ap with_coverage_ratio (
      same_row (add_rows all (aggregate_extensions w rs)) (add_rows all rs) (e ∙ sym e')
        (aggregate-number _ source_files-IsNumber w rs)
        (aggregate-number _ source_bytes-IsNumber w rs) (aggregate-number _ excluded-IsNumber w rs)
        (aggregate-number _ skipped-IsNumber w rs) (aggregate-number _ candidate-IsNumber w rs)
        (aggregate-number _ candidate_bytes-IsNumber w rs) (r ∙ sym r'))
