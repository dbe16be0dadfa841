-- ===== src/Spaces/Gate/Alone.antt =====
-- While a deletion is alone with its space, no reader is at work in it.
use memo_repo.Prelude.{map_get, ℕ, ◌<◌, ◌≡◌, refl, sym, ◌∙◌, In}
use memo_repo.Spaces.Gate.{Gate, space_deletion_state, acquire_space_reader, begin_space_deletion}
use memo_repo.Spaces.Gate.Runs.{
  Deletion, Phase, waits, alone, World, Step, reads, stops_reading, deletes, awaits, stops_deleting,
  Run, Run-keeps, new_world,
}
use memo_repo.Spaces.Gate.Invariant.{readers_of, deletions_of, PhaseOf, IsOrderly}
use memo_repo.Spaces.Gate.Entry.{space_deletion_state-IsOrderly}
use memo_repo.Spaces.Gate.Moves.{enter-IsOrderly, bar-IsOrderly}
use memo_repo.Spaces.Gate.Exclusion.{left_reader-IsOrderly, left_deletion-IsOrderly}
use memo_repo.Spaces.Gate.Safety.{awaits-IsOrderly}

Step-IsOrderly : (u v : World) → IsOrderly u → Step u v → IsOrderly v
unfolding acquire_space_reader begin_space_deletion
Step-IsOrderly u v o (reads space) =
    let (h, k) = space_deletion_state-IsOrderly space u o in
    enter-IsOrderly space (space_deletion_state space u.gate).0
      (record u { gate = (space_deletion_state space u.gate).1 }) h k
Step-IsOrderly u v o (stops_reading before after x e) = left_reader-IsOrderly u before after x e o
Step-IsOrderly u v o (deletes space) =
    let (h, k) = space_deletion_state-IsOrderly space u o in
    bar-IsOrderly space (space_deletion_state space u.gate).0
      (record u { gate = (space_deletion_state space u.gate).1 }) h k
Step-IsOrderly u v o (awaits before after d e begins) = awaits-IsOrderly u before after d e o
Step-IsOrderly u v o (stops_deleting before after d e) =
    left_deletion-IsOrderly u before after d e o

new_world-IsOrderly : IsOrderly new_world
unfolding map_get
new_world-IsOrderly = record {
  counted = record {
    one_space = λ i j r p q. absurd cc;
    below = λ i r p. absurd cc;
    counts = λ i r p. absurd cc;
    bars = λ i r p. absurd cc;
    known = λ q w m. elim m [ ];
  };
  read = λ x m. elim m [ ];
  held = λ d m. elim m [ ];
}

Run-IsOrderly : (u : World) → Run new_world u → IsOrderly u
Run-IsOrderly u run = Run-keeps IsOrderly Step-IsOrderly new_world u new_world-IsOrderly run

PhaseOf-alone :
    (g : Gate) (n r : ℕ) (p : Phase) → p ≡ alone → PhaseOf g n r p → (g.states r).active_readers ≡ 0
PhaseOf-alone g n r p e h = rw e at h

PhaseOf-waits :
    (g : Gate) (n r w : ℕ) (p : Phase)
    → p ≡ waits w
    → PhaseOf g n r p
    → 0 < (g.states r).active_readers
PhaseOf-waits g n r w p e h = let (_, _, _, some_read) = rw e at h in some_read

-- Whatever readers and deletions come and go, in any spaces and any order: when the wait of a deletion
-- is over, no reader is at work in its space, and it is the only deletion of that space.
pub Run-alone :
    (u : World)
    → Run new_world u
    → (d : Deletion) → In d u.deletions
    → d.phase ≡ alone
    → (readers_of d.space u.readers ≡ 0) × (deletions_of d.space u.deletions ≡ 1)
Run-alone u run d m e =
    let o = Run-IsOrderly u run in
    let (h, deleting, p) = o.held d m in
    (
      sym (o.counted.counts d.space d.ref h) ∙ PhaseOf-alone u.gate u.waiters d.ref d.phase e p,
      o.counted.bars d.space d.ref h ∙ rw deleting refl,
    )

-- No wake-up is lost: while a deletion waits, a reader is at work in its space, and the waiter stands with
-- the state that the last of those readers looks at when it ends.
pub Run-waits :
    (u : World)
    → Run new_world u
    → (d : Deletion) (w : ℕ) → In d u.deletions
    → d.phase ≡ waits w
    → (0 < readers_of d.space u.readers) × In w (u.gate.states d.ref).reader_drain_waiters
Run-waits u run d w m e =
    let o = Run-IsOrderly u run in
    let (h, deleting, p) = o.held d m in
    let (l, only, there, some_read) : PhaseOf u.gate u.waiters d.ref (waits w) = rw e at p in
    (rw (sym (o.counted.counts d.space d.ref h)) some_read, there)
