-- ===== src/Coverage/Project/Exhaustive.antt =====
-- When the coverage of snapshotIndexCoverage.ts is exhaustive, and what its totals add up.
use memo_repo.Prelude.{◌=?◌, String, ◌≡◌, refl, Bool, not, ◌&&◌, Option, none, some, List, arith}
use memo_repo.Coverage.Paths.{Locale}
use memo_repo.Coverage.Inventory.{
  skipped_files, reported_skips, verified_integrity, skipped_of, skips_truncated, excluded_of,
  Integrity, Index, Excluded, exclusion_inventory, skip_inventory, exclusions_of, Repository,
  Quality, is_complete,
}
use memo_repo.Coverage.Project.{
  excluded_dirs, length, file_paths, excluded_count, excluded_truncated, files_of, is_nil, File,
  reason_if, exhaustiveness_reasons_of, project_coverage,
}

exclusions-whole :
    (e : Option Excluded) (files : List File)
    → (exclusions_of e files).whole ≡ (
        (exclusions_of e files).unmapped_directories =? 0
        && (not (excluded_truncated e) && excluded_count e =? length (excluded_dirs e)))
unfolding exclusions_of
exclusions-whole none files = refl
exclusions-whole (some s) files = ground arith

skips-whole :
    (i : Option Index) (paths : List String)
    → (skip_inventory i paths).whole ≡ (
        (skip_inventory i paths).unmapped_count =? 0
        && (not (skips_truncated (skipped_of i))
            && reported_skips i =? length (skipped_files (skipped_of i))))
unfolding skip_inventory
skips-whole i paths = ground arith

reasons-none :
    (i : Integrity) (q r : Quality) (a b : Bool)
    → is_nil (exhaustiveness_reasons_of i q r a b)
      ≡ (i.verified && (is_complete q && (is_complete r && (a && b))))
unfolding exhaustiveness_reasons_of reason_if
reasons-none i q r a b = ground arith

-- A project is exhaustive if and only if its source is verified, the qualities of the snapshot and of
-- its own index are complete, and both inventories are whole.
pub exhaustive-conditions :
    (w : Locale) (r : Repository) (snapshot : Quality)
    → let p = project_coverage w r snapshot in
      p.exhaustive ≡ (
        p.verified
        && (is_complete snapshot
            && (is_complete p.quality
                && (p.skips_unmapped =? 0
                    && (not p.skips_truncated_flag
                        && (p.skips_reported =? p.skips_detailed
                            && (p.exclusions_unmapped =? 0
                                && (not p.exclusions_truncated
                                    && p.exclusions_reported =? p.exclusions_detailed))))))))
unfolding project_coverage exclusion_inventory
exhaustive-conditions w r snapshot = ground (
  arith,
  exclusions-whole (excluded_of r.cbm_index)
      (files_of (verified_integrity r.source_integrity r.verification).manifest),
  skips-whole r.cbm_index
      (file_paths (files_of (verified_integrity r.source_integrity r.verification).manifest)),
)
