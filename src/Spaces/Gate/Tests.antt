-- ===== src/Spaces/Gate/Tests.antt =====
-- A space that is read, and deleted meanwhile.
use memo_repo.Prelude.{[], ◌∷◌, ◌≡◌, ◌<◌, refl, inl, map_get, map_set, In}
use memo_repo.Spaces.Gate.{
  Gate, acquire_space_reader, release_reader, begin_space_deletion, wait_for_space_readers,
  space_deletion_state,
}
use memo_repo.Spaces.Gate.Runs.{
  World, Reader, Deletion, Phase, begun, waits, alone, new_world, Run, here, followed, reads,
  stops_reading, deletes, awaits, resolve,
}
use memo_repo.Spaces.Gate.Invariant.{readers_of, deletions_of}
use memo_repo.Spaces.Gate.Alone.{Run-alone, Run-waits}

abbrev deletion : Phase → Deletion
deletion p = record { space = "s"; ref = 0; phase = p }

abbrev reader : Reader
reader = record { space = "s"; ref = 0 }

-- A reader is at work when the deletion comes.
abbrev read_gate : Gate
read_gate = (acquire_space_reader "s" new_world.gate).1

abbrev barred_gate : Gate
barred_gate = (begin_space_deletion "s" read_gate).1

abbrev waited_gate : Gate
waited_gate = (wait_for_space_readers "s" 0 barred_gate).1

abbrev waited : World
waited = record {
  gate = waited_gate;
  readers = reader ∷ [];
  deletions = deletion (waits 0) ∷ [];
  waiters = 1;
}

abbrev run_to_waited : Run new_world waited
unfolding acquire_space_reader begin_space_deletion wait_for_space_readers space_deletion_state
    map_get map_set
run_to_waited =
    followed (followed (followed here (reads "s")) (deletes "s"))
      (awaits [] [] (deletion begun) refl refl)

Run-waits_example :
    (0 < readers_of "s" waited.readers) × In 0 (waited_gate.states 0).reader_drain_waiters
Run-waits_example = Run-waits waited run_to_waited (deletion (waits 0)) 0 (inl refl) refl

-- The reader ends, and the deletion goes on.
abbrev ended : World
ended = record {
  gate = (release_reader "s" 0 waited_gate).1;
  readers = [];
  deletions = deletion alone ∷ [];
  waiters = 1;
}

abbrev run_to_ended : Run new_world ended
unfolding acquire_space_reader begin_space_deletion wait_for_space_readers space_deletion_state
    map_get map_set release_reader resolve
run_to_ended = followed run_to_waited (stops_reading [] [] reader refl)

Run-alone_example : (readers_of "s" ended.readers ≡ 0) × (deletions_of "s" ended.deletions ≡ 1)
Run-alone_example = Run-alone ended run_to_ended (deletion alone) (inl refl) refl
