-- ===== src/Spaces/Gate.antt =====
-- The lock between the readers of a space and its deletion: `acquireSpaceReader`, `beginSpaceDeletion`,
-- `waitForSpaceReaders` and `spaceDeletionState` of apps/api/src/services/spaceService.ts.
--
-- `deletionStates` maps a space to a reference into a store of state objects, since a release keeps
-- the object that it was made with, whatever the map holds by then. A waiter is the callback that
-- resolves a promise; it stands by a number.
pub mod Runs
pub mod Invariant
pub mod Entry
pub mod Moves
pub mod Releases
pub mod Exclusion
pub mod Safety
pub mod Alone
mod Tests
use memo_repo.Prelude.{
  map_get, map_set, map_delete, ℕ, String, suc, ◌+◌, ◌-◌, Bool, true, false, not, ◌&&◌, ◌||◌,
  Option, none, some, List, [], ◌∷◌, ◌++◌, ◌=?◌, ◌==◌, if◌then◌else◌,
}

-- `SpaceDeletionState`
pub record DeletionState : Type 0 where
  pub deleting : Bool
  pub active_readers : ℕ
  pub reader_drain_waiters : List ℕ

pub record Gate : Type 0 where
  pub states : ℕ → DeletionState
  -- How many state objects were made; the references are the numbers below it.
  pub made : ℕ
  pub deletion_states : List (String × ℕ)

abbrev pub open_state : DeletionState
open_state = record { deleting = false; active_readers = 0; reader_drain_waiters = [] }

abbrev pub set_state : ℕ → DeletionState → Gate → Gate
set_state r s g = record g { states = λ x. if x =? r then s else g.states x }

-- `spaceDeletionState`: the state of the space, made where it has none.
unfoldable pub space_deletion_state : String → Gate → ℕ × Gate
space_deletion_state space g = elim (map_get space g.deletion_states) [
  | some r ↦ (r, g)
  | none ↦ (
    g.made,
    record (set_state g.made open_state g) {
      made = suc g.made;
      deletion_states = map_set space g.made g.deletion_states;
    },
  )
]

abbrev pub delete_entry : String → Gate → Gate
delete_entry space g = record g { deletion_states = map_delete space g.deletion_states }

abbrev pub one_more : DeletionState → DeletionState
one_more s = record s { active_readers = s.active_readers + 1 }

abbrev pub enter : ℕ → Gate → Option ℕ × Gate
enter r g =
    if (g.states r).deleting then (none, g) else (some r, set_state r (one_more (g.states r)) g)

-- `acquireSpaceReader`: the conflict is `none`, and the reference is what the release holds.
unfoldable pub acquire_space_reader : String → Gate → Option ℕ × Gate
acquire_space_reader space g =
    enter (space_deletion_state space g).0 (space_deletion_state space g).1

abbrev pub one_less : DeletionState → DeletionState
one_less s = record s { active_readers = s.active_readers - 1 }

abbrev pub drained : DeletionState → DeletionState
drained s = record s { reader_drain_waiters = [] }

-- What the first call of the function that `acquireSpaceReader` gave does: the waiters that it resolves,
-- and the state behind it. A later call does nothing.
unfoldable pub release_reader : String → ℕ → Gate → List ℕ × Gate
release_reader space r g =
    let left = one_less (g.states r) in
    let closed = set_state r (drained left) g in
    if left.active_readers =? 0
    then (left.reader_drain_waiters, if left.deleting then closed else delete_entry space closed)
    else ([], set_state r left g)

abbrev pub start_deleting : DeletionState → DeletionState
start_deleting s = record s { deleting = true }

abbrev pub bar : ℕ → Gate → Option ℕ × Gate
bar r g =
    if (g.states r).deleting
    then (none, g)
    else (some r, set_state r (start_deleting (g.states r)) g)

-- `beginSpaceDeletion`
unfoldable pub begin_space_deletion : String → Gate → Option ℕ × Gate
begin_space_deletion space g = bar (space_deletion_state space g).0 (space_deletion_state space g).1

abbrev pub stop_deleting : DeletionState → DeletionState
stop_deleting s = record s { deleting = false }

-- What the first call of the function that `beginSpaceDeletion` gave does.
unfoldable pub release_deletion : String → ℕ → Gate → Gate
release_deletion space r g =
    let left = set_state r (stop_deleting (g.states r)) g in
    if (g.states r).active_readers =? 0 then delete_entry space left else left

-- `waitForSpaceReaders`: whether the promise is resolved at once.
unfoldable pub wait_for_space_readers : String → ℕ → Gate → Bool × Gate
wait_for_space_readers space waiter g = elim (map_get space g.deletion_states) [
  | none ↦ (true, g)
  | some r ↦ if (g.states r).active_readers =? 0 then (true, g) else (
    false,
    set_state r
        (record (g.states r) {
          reader_drain_waiters = (g.states r).reader_drain_waiters ++ waiter ∷ [];
        })
        g,
  )
]
