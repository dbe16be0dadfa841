-- ===== src/Spaces/Reconcile.antt =====
-- `reconcileSpaceFilesystem` of apps/api/src/services/spaceService.ts: the rows of a space's repositories are
-- brought in line with the clones on the disk, one after the other and outside a transaction.
use memo_repo.Prelude.{
  ℕ, String, Bool, true, false, not, ◌&&◌, ◌||◌, Option, none, some, List, [], ◌∷◌, ◌==◌,
  if◌then◌else◌, filter,
}
use memo_repo.Spaces.Store.{Tables, SpaceRepository}
use memo_repo.Spaces.Repositories.{
  Files, Refused, space_not_found, path_escapes, find_space, update_repositories, is_live,
  mark_space_stale,
}

-- The clone of a removed repository is gone.
abbrev pub gone : ℕ → SpaceRepository → SpaceRepository
gone now r = record r {
  clone_status = "cleaned";
  index_status = "not_indexed";
  snapshot_included = false;
  updated_at = now;
}

-- The clone of a repository of the space is missing, or is no clone.
abbrev pub missing : ℕ → String → SpaceRepository → SpaceRepository
missing now error r = record r {
  clone_status = "not_cloned";
  index_status = "not_indexed";
  snapshot_included = false;
  selected_commit = none;
  remote_ref = none;
  last_error = some error;
  updated_at = now;
}

abbrev pub missing_error : Bool → String
missing_error path_exists =
    if path_exists
    then "Local repository path is not a Git clone"
    else "Local repository path is missing"

-- What is written to the row, if anything is.
unfoldable pub row_update :
    Files → ℕ → String → SpaceRepository → Option (SpaceRepository → SpaceRepository)
row_update f now path r =
    if f.exists (f.join path ".git")
    then none
    else if is_live r
    then (if r.clone_status == "not_cloned"
        then none
        else some (missing now (missing_error (f.exists path))))
    else if not (f.exists path) && not (r.clone_status == "cleaned")
    then some (gone now)
    else none

abbrev pub write_row : String → Option (SpaceRepository → SpaceRepository) → Tables → Tables
write_row id none t = t
write_row id (some change) t = record t {
  space_repositories = update_repositories id change t.space_repositories;
}

-- `shouldMarkStale` behind a row
abbrev pub marks : Option (SpaceRepository → SpaceRepository) → SpaceRepository → Bool
marks none r = false
marks (some change) r = is_live r && r.snapshot_included

-- The loop over the rows as they were read: whether a path threw, whether the space is stale, and the
-- tables.
unfoldable pub reconcile_rows :
    Files → ℕ → List SpaceRepository → Bool → Tables → Bool × Bool × Tables
reconcile_rows f now [] stale t = (false, stale, t)
reconcile_rows f now (r ∷ rs) stale t = elim (f.assert_inside r.local_path) [
  | none ↦ (true, stale, t)
  | some path ↦
      reconcile_rows f now rs (stale || marks (row_update f now path r) r)
        (write_row r.id (row_update f now path r) t)
]

abbrev pub conclude_rows : String → ℕ → Bool × Bool × Tables → Option Refused × Tables
conclude_rows space now (threw, stale, t) =
    if threw
    then (some path_escapes, t)
    else (none, if stale then mark_space_stale space now t else t)

-- A path that throws leaves the rows before it written.
unfoldable pub reconcile_space_filesystem : Files → String → ℕ → Tables → Option Refused × Tables
reconcile_space_filesystem f space now t = elim (find_space space t) [
  | none ↦ (some space_not_found, t)
  | some s ↦ conclude_rows space now (
      reconcile_rows f now
        (filter (λ (r : SpaceRepository). r.space_id == space) t.space_repositories) false t)
]
