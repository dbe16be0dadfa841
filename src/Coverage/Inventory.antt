-- ===== src/Coverage/Inventory.antt =====
-- What snapshotIndexCoverage.ts reads of a repository: the check of its source, and the inventories
-- of the directories that were excluded and of the files that were skipped. What the check finds on
-- the disk is the argument `Verification`.
use Prim.Native.Char.{code}
use Prim.Native.String
use memo_repo.Prelude.{
  ℕ, String, ◌-◌, Bool, true, false, not, ◌&&◌, ◌||◌, Option, none, some, List, [], ◌∷◌, ◌=?◌, ◌==◌,
  if◌then◌else◌, any, filter, length, set_has,
}
use memo_repo.Coverage.Paths.{normalize_coverage_path}
use memo_repo.Coverage.Rows.{File}

pub data Quality : Type 0 where
  complete partial degraded unknown : Quality

abbrev pub quality_name : Quality → String
quality_name complete = "complete"
quality_name partial = "partial"
quality_name degraded = "degraded"
quality_name unknown = "unknown"

abbrev pub is_complete : Quality → Bool
is_complete complete = true
is_complete _ = false

-- `normalizeQuality`
unfoldable pub normalize_quality : Option String → Quality
normalize_quality none = unknown
normalize_quality (some s) =
    if s == "complete"
    then complete
    else if s == "partial"
    then partial
    else if s == "degraded"
    then degraded
    else unknown

pub record SkippedFile : Type 0 where
  pub path : String
  pub phase : String

pub record Skipped : Type 0 where
  pub files : List SkippedFile
  pub truncated : Bool

pub record Excluded : Type 0 where
  pub dirs : List String
  pub count : ℕ
  pub truncated : Bool

-- The fields of `SnapshotManifestRepositoryCbmIndex` that are read here.
pub record Index : Type 0 where
  pub skipped_count : ℕ
  pub skipped : Option Skipped
  pub excluded : Option Excluded
  pub snapshot_quality : Option String

-- `SnapshotSourceIntegritySummary`
pub record Summary : Type 0 where
  pub schema_version : ℕ
  pub algorithm : String
  pub source_directory : String
  pub tree_sha : String
  pub root_digest : String
  pub file_count : ℕ
  pub total_bytes : ℕ

pub record Manifest : Type 0 where
  pub summary : Summary
  pub files : List File

pub record Verification : Type 0 where
  pub valid : Bool
  pub reason : Option String
  pub manifest : Option Manifest

-- The fields of `SnapshotManifestRepository` that are read here, with what its check finds.
pub record Repository : Type 0 where
  pub project_name : String
  pub full_name : String
  pub source_integrity : Option Summary
  pub cbm_index : Option Index
  pub verification : Verification

pub record Integrity : Type 0 where
  pub verified : Bool
  pub reason : Option String
  pub manifest : Option Manifest

unfoldable pub same_integrity_summary : Summary → Summary → Bool
same_integrity_summary expected actual =
    expected.schema_version =? actual.schema_version
    && (expected.algorithm == actual.algorithm
        && (expected.source_directory == actual.source_directory
            && (expected.tree_sha == actual.tree_sha
                && (expected.root_digest == actual.root_digest
                    && (expected.file_count =? actual.file_count
                        && expected.total_bytes =? actual.total_bytes)))))

abbrev pub unverified : String → Integrity
unverified reason = record { verified = false; reason = some reason; manifest = none }

abbrev pub or_unverified : Option String → String
or_unverified none = "source_integrity_unverified"
or_unverified (some reason) = reason

unfoldable pub check_manifest : Summary → Verification → Option Manifest → Integrity
unfolding same_integrity_summary
check_manifest expected v none = unverified (or_unverified v.reason)
check_manifest expected v (some m) =
    if not v.valid
    then unverified (or_unverified v.reason)
    else if not (same_integrity_summary expected m.summary)
    then unverified "snapshot_integrity_summary_mismatch"
    else record { verified = true; reason = none; manifest = some m }

unfoldable pub verified_integrity : Option Summary → Verification → Integrity
unfolding check_manifest
verified_integrity none v = unverified "source_integrity_manifest_unavailable"
verified_integrity (some expected) v = check_manifest expected v v.manifest

pub record Exclusions : Type 0 where
  pub paths : List String
  pub whole : Bool
  pub unmapped_directories : ℕ

-- `startsWith`
unfoldable pub starts_with : String → String → Bool
starts_with String.[] text = true
starts_with (String.◌∷◌ c s) String.[] = false
starts_with (String.◌∷◌ c s) (String.◌∷◌ d t) = code c =? code d && starts_with s t

abbrev pub is_inside : String → String → Bool
is_inside path directory = path == directory || starts_with (String.◌++◌ directory "/") path

abbrev pub keep_some : List (Option String) → List String
keep_some [] = []
keep_some (none ∷ os) = keep_some os
keep_some (some s ∷ os) = s ∷ keep_some os

unfoldable pub normalize_all : List String → List (Option String)
normalize_all [] = []
normalize_all (v ∷ vs) = normalize_coverage_path v ∷ normalize_all vs

unfoldable pub paths_inside : List String → List File → List String
paths_inside directories [] = []
paths_inside directories (f ∷ fs) =
    let rest = paths_inside directories fs in
    if any (is_inside f.path) directories then f.path ∷ rest else rest

unfoldable pub exclusions_of : Option Excluded → List File → Exclusions
unfolding normalize_all paths_inside
exclusions_of none files = record { paths = []; whole = true; unmapped_directories = 0 }
exclusions_of (some summary) files =
    let safe = keep_some (normalize_all summary.dirs) in
    let unmapped = length summary.dirs - length safe in
    record {
      paths = paths_inside safe files;
      whole = not summary.truncated && (summary.count =? length summary.dirs && unmapped =? 0);
      unmapped_directories = unmapped;
    }

abbrev pub excluded_of : Option Index → Option Excluded
excluded_of none = none
excluded_of (some i) = i.excluded

unfoldable pub exclusion_inventory : Option Index → List File → Exclusions
unfolding exclusions_of
exclusion_inventory index files = exclusions_of (excluded_of index) files

pub record Skips : Type 0 where
  pub paths : List String
  pub safe_paths : List String
  pub whole : Bool
  pub unmapped_count : ℕ

abbrev pub skipped_of : Option Index → Option Skipped
skipped_of none = none
skipped_of (some i) = i.skipped

abbrev pub skipped_files : Option Skipped → List SkippedFile
skipped_files none = []
skipped_files (some s) = s.files

abbrev pub skips_truncated : Option Skipped → Bool
skips_truncated none = false
skips_truncated (some s) = s.truncated

abbrev pub reported_skips : Option Index → ℕ
reported_skips none = 0
reported_skips (some i) = i.skipped_count

unfoldable pub paths_of : List SkippedFile → List String
paths_of [] = []
paths_of (f ∷ fs) = f.path ∷ paths_of fs

unfoldable pub skip_inventory : Option Index → List String → Skips
unfolding normalize_all paths_of
skip_inventory index source_paths =
    let details = skipped_files (skipped_of index) in
    let safe = keep_some (normalize_all (paths_of details)) in
    let mapped = filter (λ p. set_has p source_paths) safe in
    let unmapped = length details - length mapped in
    record {
      paths = mapped;
      safe_paths = safe;
      whole =
          not (skips_truncated (skipped_of index))
          && (reported_skips index =? length details && unmapped =? 0);
      unmapped_count = unmapped;
    }
