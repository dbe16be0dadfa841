-- ===== src/Spaces/Repositories.antt =====
-- The repositories of a space: `addRepositoryToSpace`, `softRemoveSpaceRepository`, `cleanupSpaceRepositoryFiles`,
-- `reconcileSpaceFilesystem` and `markSpaceStale` of apps/api/src/services/spaceService.ts on the tables. What
-- the file system and the path functions answer is the record `Files`. A refused operation has written
-- nothing.
pub mod Live
pub mod Requests
use Prim.Native.String
use memo_repo.Prelude.{
  ℕ, String, suc, Bool, true, false, not, ◌&&◌, ◌||◌, Option, none, some, List, [], ◌∷◌, ◌++◌, ◌⊎◌,
  inl, inr, leb, ◌==◌, if◌then◌else◌, any, find?, filter, is_value,
}
use memo_repo.Text.{is_some}
use memo_repo.Jobs.Store.{Job, is_active}
use memo_repo.Domain.Slug.{repo_path_name}
use memo_repo.Spaces.Store.{Tables, Space, SpaceRepository, SpaceSnapshot, GithubRepository}

pub record Files : Type 0 where
  pub to_lower_case : String → String
  pub join : String → String → String
  -- `assertInside` of the home directory: the resolved path, or none where it throws.
  pub assert_inside : String → Option String
  pub exists : String → Bool
  -- Whether the path is one that may be deleted: inside the home directory and not the directory.
  pub is_deletable : String → Bool

pub data Refused : Type 0 where
  space_not_found repository_not_found already_in_space path_escapes not_removed has_active_jobs :
      Refused

abbrev pub find_space : String → Tables → Option Space
find_space id t = find? (λ (s : Space). s.id == id) t.spaces

abbrev pub find_repository : String → Tables → Option SpaceRepository
find_repository id t = find? (λ (r : SpaceRepository). r.id == id) t.space_repositories

-- UPDATE … WHERE id = ?
unfoldable pub update_repositories :
    String → (SpaceRepository → SpaceRepository) → List SpaceRepository → List SpaceRepository
update_repositories id change [] = []
update_repositories id change (r ∷ rs) =
    (if r.id == id then change r else r) ∷ update_repositories id change rs

unfoldable pub update_spaces : String → (Space → Space) → List Space → List Space
update_spaces id change [] = []
update_spaces id change (s ∷ ss) = (if s.id == id then change s else s) ∷ update_spaces id change ss

unfoldable pub update_snapshots :
    String → (SpaceSnapshot → SpaceSnapshot) → List SpaceSnapshot → List SpaceSnapshot
update_snapshots id change [] = []
update_snapshots id change (s ∷ ss) =
    (if s.id == id then change s else s) ∷ update_snapshots id change ss

abbrev pub stale : ℕ → Space → Space
stale now s = record s {
  snapshot_status = if is_some s.active_snapshot_id then "stale" else "none";
  snapshot_status_updated_at = now;
  updated_at = now;
}

-- `markSpaceStale` of a space that is there
unfoldable pub mark_space_stale : String → ℕ → Tables → Tables
mark_space_stale id now t = record t { spaces = update_spaces id (stale now) t.spaces }

abbrev pub is_live : SpaceRepository → Bool
is_live r = not (is_some r.removed_at)

-- WHERE space_id = ? AND github_repository_id = ? AND removed_at IS NULL
abbrev pub is_live_in : String → String → SpaceRepository → Bool
is_live_in space github r = r.space_id == space && (r.github_repository_id == github && is_live r)

-- `id.slice(-6)`
unfoldable pub last_six : String → String
last_six String.[] = ""
last_six (String.◌∷◌ c s) =
    let rest = last_six s in if leb (suc (String.count s)) 6 then String.◌∷◌ c s else rest

unfoldable pub local_path_for : Files → Space → GithubRepository → String → String
local_path_for f space repository id =
    let base =
      f.join space.root_path
        (repo_path_name f.to_lower_case repository.owner repository.name none) in
    if f.exists base
    then f.join space.root_path
        (repo_path_name f.to_lower_case repository.owner repository.name (some (last_six id)))
    else base

unfoldable pub new_repository : String → String → String → String → ℕ → SpaceRepository
new_repository id space github path now = record {
  id = id;
  space_id = space;
  github_repository_id = github;
  local_path = path;
  selected_commit = none;
  remote_ref = none;
  clone_status = "not_cloned";
  index_status = "not_indexed";
  snapshot_included = false;
  last_error = none;
  removed_at = none;
  created_at = now;
  updated_at = now;
}

abbrev add_row : SpaceRepository → Tables → Tables
add_row r t = record t { space_repositories = t.space_repositories ++ r ∷ [] }

unfoldable pub add_repository_to_space :
    Files → String → ℕ → String → String → Tables → Refused ⊎ Tables
add_repository_to_space f id now space_id github_id t = elim (find_space space_id t) [
  | none ↦ inl space_not_found
  | some space ↦ elim (find? (λ (g : GithubRepository). g.id == github_id) t.github_repositories) [
    | none ↦ inl repository_not_found
    | some repository ↦
        if any (is_live_in space_id github_id) t.space_repositories
        then inl already_in_space
        else elim (f.assert_inside (local_path_for f space repository id)) [
          | none ↦ inl path_escapes
          | some path ↦ inr (
              mark_space_stale space_id now
                (add_row (new_repository id space_id github_id path now) t))
        ]
  ]
]

abbrev pub removed : ℕ → SpaceRepository → SpaceRepository
removed now r = record r { removed_at = some now; snapshot_included = false; updated_at = now }

abbrev pub revoked : ℕ → Space → Space
revoked now s = record s {
  active_snapshot_id = none;
  snapshot_status = "revoked";
  snapshot_status_updated_at = now;
  updated_at = now;
}

-- The rows behind the transaction of `softRemoveSpaceRepository`.
unfoldable pub remove_rows : SpaceRepository → Space → ℕ → Tables → Tables
remove_rows r s now t =
    let rows = update_repositories r.id (removed now) t.space_repositories in
    elim (if r.snapshot_included then s.active_snapshot_id else none) [
      | none ↦ mark_space_stale r.space_id now (record t { space_repositories = rows })
      | some snapshot ↦ record t {
        space_repositories = rows;
        space_snapshots =
            update_snapshots snapshot (λ (x : SpaceSnapshot). record x { status = "inactive" })
              t.space_snapshots;
        spaces = update_spaces r.space_id (revoked now) t.spaces;
      }
    ]

unfoldable pub soft_remove_space_repository : String → ℕ → Tables → Refused ⊎ Tables
soft_remove_space_repository id now t = elim (find_repository id t) [
  | none ↦ inl repository_not_found
  | some r ↦ elim (find_space r.space_id t) [
    | none ↦ inl space_not_found
    | some s ↦ inr (remove_rows r s now t)
  ]
]

abbrev pub cleaned : ℕ → SpaceRepository → SpaceRepository
cleaned now r = record r {
  clone_status = "cleaned";
  index_status = "not_indexed";
  snapshot_included = false;
  last_error = none;
  updated_at = now;
}

unfoldable pub cleanup_space_repository_files : Files → String → ℕ → Tables → Refused ⊎ Tables
cleanup_space_repository_files f id now t = elim (find_repository id t) [
  | none ↦ inl repository_not_found
  | some r ↦
      if is_live r
      then inl not_removed
      else if any (λ (j : Job). is_value j.space_repository_id id && is_active j.status) t.jobs
      then inl has_active_jobs
      else if not (f.is_deletable r.local_path)
      then inl path_escapes
      else inr (record t {
        space_repositories = update_repositories id (cleaned now) t.space_repositories;
      })
]
