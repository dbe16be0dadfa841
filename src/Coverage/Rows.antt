-- ===== src/Coverage/Rows.antt =====
-- The counts by extension in snapshotIndexCoverage.ts: `extensionCoverage`, `aggregateExtensions`,
-- `sumCoverage` and `countValues`.
pub mod Totals
use memo_repo.Prelude.{
  ℕ, String, suc, ◌+◌, Bool, true, false, Option, none, some, List, [], ◌∷◌, ◌=?◌, if◌then◌else◌,
  map_get, map_set, values, set_has,
}
use memo_repo.Coverage.Paths.{Locale, file_extension}

-- `SnapshotSourceIntegrityFile`
pub record File : Type 0 where
  pub path : String
  pub size_bytes : ℕ

-- `SnapshotIndexCoverageExtension`. The ratio is the fraction that the source gives to six digits.
pub record Row : Type 0 where
  pub extension : String
  pub source_files : ℕ
  pub source_bytes : ℕ
  pub excluded_files : ℕ
  pub skipped_files : ℕ
  pub candidate_files : ℕ
  pub candidate_bytes : ℕ
  pub coverage_ratio : Option (ℕ × ℕ)

abbrev pub empty_extension : String → Row
empty_extension extension = record {
  extension = extension;
  source_files = 0;
  source_bytes = 0;
  excluded_files = 0;
  skipped_files = 0;
  candidate_files = 0;
  candidate_bytes = 0;
  coverage_ratio = none;
}

unfoldable pub with_coverage_ratio : Row → Row
with_coverage_ratio row = record row {
  coverage_ratio =
      if row.source_files =? 0 then none else some (row.candidate_files, row.source_files);
}

abbrev pub or_empty : String → Option Row → Row
or_empty extension none = empty_extension extension
or_empty extension (some row) = row

-- What one file adds to the row of its extension.
unfoldable pub count_file : List String → List String → File → Row → Row
count_file excluded skipped f row =
    let counted = record row {
      source_files = row.source_files + 1;
      source_bytes = row.source_bytes + f.size_bytes;
    } in
    if set_has f.path excluded
    then record counted { excluded_files = row.excluded_files + 1 }
    else if set_has f.path skipped
    then record counted { skipped_files = row.skipped_files + 1 }
    else record counted {
      candidate_files = row.candidate_files + 1;
      candidate_bytes = row.candidate_bytes + f.size_bytes;
    }

unfoldable pub count_files :
    Locale → List String → List String → List File → List (String × Row) → List (String × Row)
unfolding count_file file_extension
count_files w excluded skipped [] rows = rows
count_files w excluded skipped (f ∷ fs) rows =
    let extension = file_extension w f.path in
    let row = or_empty extension (map_get extension rows) in
    count_files w excluded skipped fs (map_set extension (count_file excluded skipped f row) rows)

unfoldable pub insert_row : Locale → Row → List Row → List Row
insert_row w r [] = r ∷ []
insert_row w r (q ∷ qs) =
    if w.goes_before q.extension r.extension then q ∷ insert_row w r qs else r ∷ q ∷ qs

-- `.map(withCoverageRatio).sort(…)`
unfoldable pub finish_rows : Locale → List Row → List Row
unfolding insert_row with_coverage_ratio
finish_rows w [] = []
finish_rows w (r ∷ rs) = insert_row w (with_coverage_ratio r) (finish_rows w rs)

unfoldable pub extension_coverage : Locale → List File → List String → List String → List Row
unfolding count_files finish_rows
extension_coverage w files excluded skipped =
    finish_rows w (values (count_files w excluded skipped files []))

abbrev pub add_row : Row → Row → Row
add_row total row = record total {
  source_files = total.source_files + row.source_files;
  source_bytes = total.source_bytes + row.source_bytes;
  excluded_files = total.excluded_files + row.excluded_files;
  skipped_files = total.skipped_files + row.skipped_files;
  candidate_files = total.candidate_files + row.candidate_files;
  candidate_bytes = total.candidate_bytes + row.candidate_bytes;
}

unfoldable pub collect : List Row → List (String × Row) → List (String × Row)
collect [] totals = totals
collect (r ∷ rs) totals =
    collect rs
      (map_set r.extension (add_row (or_empty r.extension (map_get r.extension totals)) r) totals)

unfoldable pub aggregate_extensions : Locale → List Row → List Row
unfolding collect finish_rows
aggregate_extensions w rows = finish_rows w (values (collect rows []))

unfoldable pub add_rows : Row → List Row → Row
add_rows total [] = total
add_rows total (r ∷ rs) = add_rows (add_row total r) rs

unfoldable pub sum_coverage : List Row → Row
unfolding add_rows with_coverage_ratio
sum_coverage rows = with_coverage_ratio (add_rows (empty_extension "all") rows)

or_zero : Option ℕ → ℕ
or_zero none = 0
or_zero (some n) = n

count_each : List String → List (String × ℕ) → List (String × ℕ)
unfolding or_zero
count_each [] counts = counts
count_each (v ∷ vs) counts = count_each vs (map_set v (or_zero (map_get v counts) + 1) counts)

insert_count : Locale → String × ℕ → List (String × ℕ) → List (String × ℕ)
insert_count w e [] = e ∷ []
insert_count w e (f ∷ fs) = if w.goes_before f.0 e.0 then f ∷ insert_count w e fs else e ∷ f ∷ fs

sort_counts : Locale → List (String × ℕ) → List (String × ℕ)
unfolding insert_count
sort_counts w [] = []
sort_counts w (e ∷ es) = insert_count w e (sort_counts w es)

unfoldable pub count_values : Locale → List String → List (String × ℕ)
unfolding count_each sort_counts
count_values w vs = sort_counts w (count_each vs [])
