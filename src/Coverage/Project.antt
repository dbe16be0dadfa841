-- ===== src/Coverage/Project.antt =====
-- The coverage of one project and of a snapshot in snapshotIndexCoverage.ts.
pub mod Exhaustive
pub mod Sums
use Prim.Native.Char.{code}
use Prim.Native.String
use memo_repo.Prelude.{
  ℕ, String, suc, ◌-◌, Bool, true, false, not, ◌&&◌, ◌||◌, Option, none, some, List, [], ◌∷◌, ◌++◌,
  ◌=?◌, ◌==◌, if◌then◌else◌, any, every, filter, find?, take, length, set_has,
}
use memo_repo.EventBus.{truthy}
use memo_repo.Coverage.Paths.{Locale, file_extension, normalize_coverage_path, unique_sorted}
use memo_repo.Coverage.Rows.{
  File, Row, extension_coverage, aggregate_extensions, sum_coverage, count_values,
}
use memo_repo.Coverage.Inventory.{
  Quality, quality_name, is_complete, normalize_quality, SkippedFile, Skipped, Excluded, Index,
  Summary, Manifest, Verification, Repository, Integrity, same_integrity_summary, unverified,
  or_unverified, check_manifest, verified_integrity, Exclusions, starts_with, is_inside, keep_some,
  normalize_all, paths_inside, exclusions_of, excluded_of, exclusion_inventory, Skips, skipped_of,
  skipped_files, skips_truncated, reported_skips, paths_of, skip_inventory, complete, partial,
  degraded, unknown,
}

-- `SnapshotIndexProjectCoverage`
pub record ProjectCoverage : Type 0 where
  pub project : String
  pub repository : String
  pub quality : Quality
  pub verified : Bool
  pub digests : Option (String × String)  -- `treeSha` and `rootDigest`
  pub integrity_reason : Option String
  pub totals : Row
  pub extensions : List Row
  pub skips_reported : ℕ
  pub skips_detailed : ℕ
  pub skips_truncated_flag : Bool
  pub skips_unmapped : ℕ
  pub skips_by_extension : List (String × ℕ)
  pub skips_by_phase : List (String × ℕ)
  pub sample_paths : List String
  pub exclusions_reported : ℕ
  pub exclusions_detailed : ℕ
  pub exclusions_truncated : Bool
  pub exclusions_unmapped : ℕ
  pub exhaustive : Bool
  pub exhaustiveness_reasons : List String

reason_if : Bool → String → List String
reason_if true reason = reason ∷ []
reason_if false reason = []

unfoldable pub exhaustiveness_reasons_of : Integrity → Quality → Quality → Bool → Bool → List String
unfolding reason_if
exhaustiveness_reasons_of integrity snapshot quality skips_whole exclusions_whole =
    reason_if (not integrity.verified) (or_unverified integrity.reason)
    ++ reason_if (not (is_complete snapshot))
        (String.◌++◌ "snapshot_quality_" (quality_name snapshot))
    ++ reason_if (not (is_complete quality)) (String.◌++◌ "project_quality_" (quality_name quality))
    ++ reason_if (not skips_whole) "skip_inventory_incomplete"
    ++ reason_if (not exclusions_whole) "exclusion_inventory_incomplete"

abbrev files_of : Option Manifest → List File
files_of none = []
files_of (some m) = m.files

file_paths : List File → List String
file_paths [] = []
file_paths (f ∷ fs) = f.path ∷ file_paths fs

extensions_of : Locale → List String → List String
extensions_of w [] = []
extensions_of w (p ∷ ps) = file_extension w p ∷ extensions_of w ps

phases_of : List SkippedFile → List String
phases_of [] = []
phases_of (f ∷ fs) = (if f.phase == "" then "unknown" else f.phase) ∷ phases_of fs

abbrev quality_of : Option Index → Option String
quality_of none = none
quality_of (some i) = i.snapshot_quality

digests_of : Option Manifest → Option (String × String)
digests_of none = none
digests_of (some m) = some (m.summary.tree_sha, m.summary.root_digest)

abbrev excluded_count : Option Excluded → ℕ
excluded_count none = 0
excluded_count (some e) = e.count

abbrev excluded_dirs : Option Excluded → List String
excluded_dirs none = []
excluded_dirs (some e) = e.dirs

abbrev excluded_truncated : Option Excluded → Bool
excluded_truncated none = false
excluded_truncated (some e) = e.truncated

abbrev pub is_nil {ℓ} : {A : Type ℓ} → List A → Bool
is_nil [] = true
is_nil (_ ∷ _) = false

unfoldable pub project_coverage : Locale → Repository → Quality → ProjectCoverage
unfolding exhaustiveness_reasons_of verified_integrity exclusion_inventory skip_inventory file_paths
    extensions_of phases_of digests_of
project_coverage w r snapshot =
    let integrity = verified_integrity r.source_integrity r.verification in
    let files = files_of integrity.manifest in
    let exclusions = exclusion_inventory r.cbm_index files in
    let skips = skip_inventory r.cbm_index (file_paths files) in
    let rows = extension_coverage w files exclusions.paths skips.paths in
    let quality = normalize_quality (quality_of r.cbm_index) in
    let reasons =
      exhaustiveness_reasons_of integrity snapshot quality skips.whole exclusions.whole in
    record {
      project = r.project_name;
      repository = r.full_name;
      quality = quality;
      verified = integrity.verified;
      digests = digests_of integrity.manifest;
      integrity_reason = if integrity.verified then none else truthy integrity.reason;
      totals = sum_coverage rows;
      extensions = rows;
      skips_reported = reported_skips r.cbm_index;
      skips_detailed = length (skipped_files (skipped_of r.cbm_index));
      skips_truncated_flag = skips_truncated (skipped_of r.cbm_index);
      skips_unmapped = skips.unmapped_count;
      skips_by_extension = count_values w (extensions_of w skips.safe_paths);
      skips_by_phase = count_values w (phases_of (skipped_files (skipped_of r.cbm_index)));
      sample_paths = take 20 skips.safe_paths;
      exclusions_reported = excluded_count (excluded_of r.cbm_index);
      exclusions_detailed = length (excluded_dirs (excluded_of r.cbm_index));
      exclusions_truncated = excluded_truncated (excluded_of r.cbm_index);
      exclusions_unmapped = exclusions.unmapped_directories;
      exhaustive = is_nil reasons;
      exhaustiveness_reasons = unique_sorted w reasons;
    }

-- `SnapshotIndexCoverageResult`
pub record SnapshotCoverage : Type 0 where
  pub quality : Quality
  pub exhaustive : Bool
  pub exhaustiveness_reasons : List String
  pub totals : Row
  pub extensions : List Row
  pub projects : List ProjectCoverage

-- `requiredCoverageRepository`; `none` stands for its error.
unfoldable pub required_coverage_repository : List Repository → String → Option Repository
required_coverage_repository rs project =
    find? (λ r. r.project_name == project || r.full_name == project) rs

cover_all : Locale → List Repository → Quality → List ProjectCoverage
unfolding project_coverage
cover_all w [] q = []
cover_all w (r ∷ rs) q = project_coverage w r q ∷ cover_all w rs q

unfoldable pub all_extensions : List ProjectCoverage → List Row
all_extensions [] = []
all_extensions (p ∷ ps) = p.extensions ++ all_extensions ps

all_reasons : List ProjectCoverage → List String
all_reasons [] = []
all_reasons (p ∷ ps) = p.exhaustiveness_reasons ++ all_reasons ps

unfoldable pub coverage_of : Locale → List Repository → Quality → SnapshotCoverage
unfolding cover_all all_extensions all_reasons
coverage_of w rs quality =
    let projects = cover_all w rs quality in
    let extensions = aggregate_extensions w (all_extensions projects) in
    record {
      quality = quality;
      exhaustive = not (is_nil projects) && every (λ p. p.exhaustive) projects;
      exhaustiveness_reasons = unique_sorted w (all_reasons projects);
      totals = sum_coverage extensions;
      extensions = extensions;
      projects = projects;
    }

only : Locale → Quality → Option Repository → Option SnapshotCoverage
unfolding coverage_of
only w quality none = none
only w quality (some r) = some (coverage_of w (r ∷ []) quality)

-- `snapshotIndexCoverage` over the repositories and the quality of a manifest; an empty project
-- counts as none.
unfoldable pub snapshot_index_coverage :
    Locale → List Repository → Option String → Option String → Option SnapshotCoverage
unfolding only coverage_of
snapshot_index_coverage w rs quality none = some (coverage_of w rs (normalize_quality quality))
snapshot_index_coverage w rs quality (some project) =
    if project == ""
    then some (coverage_of w rs (normalize_quality quality))
    else only w (normalize_quality quality) (required_coverage_repository rs project)
