-- ===== src/Coverage/Tests.antt =====
-- A small repository, and the theorems on its coverage.
use memo_repo.Prelude.{
  map_get, map_set, ◌≡◌, refl, true, false, not, ◌&&◌, none, some, List, [], ◌∷◌, ◌=?◌, ◌==◌,
  if◌then◌else◌, set_has,
}
use memo_repo.Coverage.Paths.{
  unique_sorted, file_extension, split_segments, Locale, normalize_coverage_path,
}
use memo_repo.Coverage.Rows.{
  count_values, add_rows, with_coverage_ratio, insert_row, finish_rows, count_file, count_files,
  File, Row, extension_coverage, aggregate_extensions, sum_coverage,
}
use memo_repo.Coverage.Rows.Totals.{
  total, one_if, is_candidate_file, coverage-totals, aggregate-totals,
}
use memo_repo.Coverage.Inventory.{
  starts_with, skip_inventory, exclusion_inventory, normalize_quality, same_integrity_summary,
  verified_integrity, Repository, Index, Summary, complete, is_complete,
}
use memo_repo.Coverage.Project.{
  exhaustiveness_reasons_of, ProjectCoverage, project_coverage, coverage_of,
}
use memo_repo.Coverage.Project.Exhaustive.{exhaustive-conditions}
use memo_repo.Coverage.Project.Sums.{snapshot-totals}

-- Texts with an extension end in ".ts" here, and nothing is ordered before anything.
abbrev plain : Locale
plain = record {
  lower_extname = λ path. if path == "README" then "" else ".ts";
  goes_before = λ s t. false;
}

abbrev sources : List File
sources =
    record { path = "src/a.ts"; size_bytes = 5 }
    ∷ record { path = "lib/b.ts"; size_bytes = 7 }
    ∷ record { path = "README"; size_bytes = 2 }
    ∷ []

abbrev source_totals : Row
source_totals = sum_coverage (extension_coverage plain sources ("lib/b.ts" ∷ []) ("README" ∷ []))

coverage-totals_example :
    (source_totals.source_files ≡ total (λ x. 1) sources)
    × (source_totals.source_bytes ≡ total (λ (x : File). x.size_bytes) sources)
    × (source_totals.excluded_files
        ≡ total (λ (x : File). one_if (set_has x.path ("lib/b.ts" ∷ []))) sources)
    × (source_totals.skipped_files
        ≡ total
            (λ (x : File).
              one_if (not (set_has x.path ("lib/b.ts" ∷ [])) && set_has x.path ("README" ∷ [])))
            sources)
    × (source_totals.candidate_files
        ≡ total (λ x. one_if (is_candidate_file ("lib/b.ts" ∷ []) ("README" ∷ []) x)) sources)
    × (source_totals.candidate_bytes
        ≡ total
            (λ (x : File).
              if is_candidate_file ("lib/b.ts" ∷ []) ("README" ∷ []) x then x.size_bytes else 0)
            sources)
coverage-totals_example = coverage-totals plain sources ("lib/b.ts" ∷ []) ("README" ∷ [])

aggregate-totals_example :
    sum_coverage (aggregate_extensions plain (source_totals ∷ source_totals ∷ []))
    ≡ sum_coverage (source_totals ∷ source_totals ∷ [])
aggregate-totals_example = aggregate-totals plain (source_totals ∷ source_totals ∷ [])

abbrev summary : Summary
summary = record {
  schema_version = 1;
  algorithm = "sha256";
  source_directory = "source";
  tree_sha = "t";
  root_digest = "d";
  file_count = 3;
  total_bytes = 14;
}

abbrev index : Index
index = record {
  skipped_count = 1;
  skipped =
      some (record { files = record { path = "./README"; phase = "" } ∷ []; truncated = false });
  excluded = some (record { dirs = "lib/" ∷ []; count = 1; truncated = false });
  snapshot_quality = some "complete";
}

abbrev repository : Repository
repository = record {
  project_name = "p";
  full_name = "o/p";
  source_integrity = some summary;
  cbm_index = some index;
  verification = record {
    valid = true;
    reason = none;
    manifest = some (record { summary = summary; files = sources });
  };
}

abbrev covered : ProjectCoverage
covered = project_coverage plain repository complete

exhaustive-conditions_example : covered.exhaustive ≡ (
    covered.verified
    && (is_complete complete
        && (is_complete covered.quality
            && (covered.skips_unmapped =? 0
                && (not covered.skips_truncated_flag
                    && (covered.skips_reported =? covered.skips_detailed
                        && (covered.exclusions_unmapped =? 0
                            && (not covered.exclusions_truncated
                                && covered.exclusions_reported
                                  =? covered.exclusions_detailed))))))))
exhaustive-conditions_example = exhaustive-conditions plain repository complete

snapshot-totals_example :
    let s = coverage_of plain (repository ∷ repository ∷ []) complete in
    (s.totals.source_files ≡ total (λ (p : ProjectCoverage). p.totals.source_files) s.projects)
    × (s.totals.source_bytes ≡ total (λ (p : ProjectCoverage). p.totals.source_bytes) s.projects)
    × (s.totals.excluded_files
        ≡ total (λ (p : ProjectCoverage). p.totals.excluded_files) s.projects)
    × (s.totals.skipped_files ≡ total (λ (p : ProjectCoverage). p.totals.skipped_files) s.projects)
    × (s.totals.candidate_files
        ≡ total (λ (p : ProjectCoverage). p.totals.candidate_files) s.projects)
    × (s.totals.candidate_bytes
        ≡ total (λ (p : ProjectCoverage). p.totals.candidate_bytes) s.projects)
snapshot-totals_example = snapshot-totals plain (repository ∷ repository ∷ []) complete

windows_path : normalize_coverage_path ".\\src\\a\\" ≡ some "src/a"
unfolding normalize_coverage_path
windows_path = refl

outside_path : normalize_coverage_path "src/../x" ≡ none
unfolding normalize_coverage_path
outside_path = refl

repository_covered : (covered.exhaustive ≡ true) × (covered.totals.candidate_files ≡ 1)
unfolding project_coverage exhaustiveness_reasons_of verified_integrity same_integrity_summary
    normalize_quality exclusion_inventory skip_inventory normalize_coverage_path split_segments
    starts_with extension_coverage count_files count_file file_extension finish_rows insert_row
    with_coverage_ratio sum_coverage add_rows map_set map_get set_has count_values unique_sorted
repository_covered = (refl, refl)
