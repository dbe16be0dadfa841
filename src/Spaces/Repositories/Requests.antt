-- ===== src/Spaces/Repositories/Requests.antt =====
-- Requests on the repositories of spaces, in any order.
use memo_repo.Prelude.{
  filter, Option, ℕ, String, Bool, false, not, ◌&&◌, ◌||◌, List, [], ◌∷◌, ◌⊎◌, inl, inr, ◌==◌,
  arith, elim-holds, if-holds,
}
use memo_repo.Spaces.Store.{Tables, SpaceRepository}
use memo_repo.Spaces.Repositories.{
  Files, Refused, find_space, is_live, add_repository_to_space, soft_remove_space_repository,
  cleanup_space_repository_files,
}
use memo_repo.Spaces.Reconcile.{
  gone, missing, missing_error, row_update, write_row, marks, reconcile_rows,
  reconcile_space_filesystem,
}
use memo_repo.Spaces.Repositories.Live.{
  IsTidy, TidyResult, add-IsTidy, remove-IsTidy, clean-IsTidy, update-IsTidy, stale-IsTidy,
}

pub data Request : Type 0 where
  add : (id : String) (now : ℕ) (space github : String) → Request
  remove : (id : String) (now : ℕ) → Request
  clean : (id : String) (now : ℕ) → Request
  reconcile : (space : String) (now : ℕ) → Request

abbrev pub behind : Refused ⊎ Tables → Tables → Tables
behind (inl e) t = t
behind (inr u) t = u

-- The tables behind a request. One that is refused leaves them as they are, but for a reconciliation,
-- which leaves what it has written before.
unfoldable pub perform : Files → Request → Tables → Tables
perform f (add id now space github) t = behind (add_repository_to_space f id now space github t) t
perform f (remove id now) t = behind (soft_remove_space_repository id now t) t
perform f (clean id now) t = behind (cleanup_space_repository_files f id now t) t
perform f (reconcile space now) t = (reconcile_space_filesystem f space now t).1

unfoldable pub perform_all : Files → List Request → Tables → Tables
perform_all f [] t = t
perform_all f (q ∷ qs) t = perform_all f qs (perform f q t)

behind-IsTidy : (x : Refused ⊎ Tables) (t : Tables) → IsTidy t → TidyResult x → IsTidy (behind x t)
behind-IsTidy (inl e) t o h = o
behind-IsTidy (inr u) t o h = h

row-IsTidy :
    (f : Files) (now : ℕ) (path : String) (r : SpaceRepository) (t : Tables)
    → IsTidy t
    → IsTidy (write_row r.id (row_update f now path r) t)
unfolding row_update
row-IsTidy f now path r t o =
    let P = λ (x : Option (SpaceRepository → SpaceRepository)). IsTidy (write_row r.id x t) in
    if-holds P (f.exists (f.join path ".git")) o (
      if-holds P (is_live r)
        (if-holds P (r.clone_status == "not_cloned") o (
          update-IsTidy r.id (missing now (missing_error (f.exists path))) t (λ space github x h. h)
            (λ x. ground arith) o))
        (if-holds P (not (f.exists path) && not (r.clone_status == "cleaned"))
          (update-IsTidy r.id (gone now) t (λ space github x h. h) (λ x. ground arith) o) o))

rows-IsTidy :
    (f : Files) (now : ℕ) (rs : List SpaceRepository) (stale : Bool) (t : Tables)
    → IsTidy t
    → IsTidy (reconcile_rows f now rs stale t).2
unfolding reconcile_rows
rows-IsTidy f now [] stale t o = o
rows-IsTidy f now (r ∷ rs) stale t o =
    elim-holds (λ (x : Bool × Bool × Tables). IsTidy x.2) (f.assert_inside r.local_path) o
      (λ path.
        rows-IsTidy f now rs (stale || marks (row_update f now path r) r)
          (write_row r.id (row_update f now path r) t) (row-IsTidy f now path r t o))

reconcile-IsTidy :
    (f : Files) (space : String) (now : ℕ) (t : Tables)
    → IsTidy t
    → IsTidy (reconcile_space_filesystem f space now t).1
unfolding reconcile_space_filesystem
reconcile-IsTidy f space now t o =
    elim-holds (λ (x : Option Refused × Tables). IsTidy x.1) (find_space space t) o
      (λ s.
        let rows = filter (λ (r : SpaceRepository). r.space_id == space) t.space_repositories in
        let written = rows-IsTidy f now rows false t o in
        let done = reconcile_rows f now rows false t in
        if-holds (λ (x : Option Refused × Tables). IsTidy x.1) done.0 written
          (if-holds IsTidy done.1 (stale-IsTidy space now done.2 written) written))

perform-IsTidy : (f : Files) (q : Request) (t : Tables) → IsTidy t → IsTidy (perform f q t)
unfolding perform
perform-IsTidy f (add id now space github) t o =
    behind-IsTidy (add_repository_to_space f id now space github t) t o
      (add-IsTidy f id now space github t o)
perform-IsTidy f (remove id now) t o =
    behind-IsTidy (soft_remove_space_repository id now t) t o (remove-IsTidy id now t o)
perform-IsTidy f (clean id now) t o =
    behind-IsTidy (cleanup_space_repository_files f id now t) t o (clean-IsTidy f id now t o)
perform-IsTidy f (reconcile space now) t o = reconcile-IsTidy f space now t o

-- Whatever requests to add, remove, clean and reconcile repositories come, and whichever of them are refused
-- or end half-way: no repository stands twice in a space without having been removed, and no row that
-- was removed counts as part of the space's snapshot.
pub perform_all-IsTidy :
    (f : Files) (qs : List Request) (t : Tables) → IsTidy t → IsTidy (perform_all f qs t)
unfolding perform_all
perform_all-IsTidy f [] t o = o
perform_all-IsTidy f (q ∷ qs) t o = perform_all-IsTidy f qs (perform f q t) (perform-IsTidy f q t o)
