-- ===== src/Spaces/Gate/Runs.antt =====
-- The runs of the lock: readers and deletions of any spaces come and go in any order.
use memo_repo.Prelude.{
  ℕ, String, suc, Bool, Option, none, some, List, [], ◌∷◌, ◌++◌, ◌≡◌, ◌=?◌, if◌then◌else◌, any,
}
use memo_repo.Spaces.Gate.{
  Gate, open_state, acquire_space_reader, release_reader, begin_space_deletion, release_deletion,
  wait_for_space_readers,
}

-- A reader at work, by what its release holds.
pub record Reader : Type 0 where
  pub space : String
  pub ref : ℕ

pub data Phase : Type 0 where
  begun : Phase
  waits : ℕ → Phase
  -- The wait for the readers is over: the files and rows of the space may go.
  alone : Phase

pub record Deletion : Type 0 where
  pub space : String
  pub ref : ℕ
  pub phase : Phase

pub record World : Type 0 where
  pub gate : Gate
  pub readers : List Reader
  pub deletions : List Deletion
  pub waiters : ℕ

abbrev pub new_world : World
new_world = record {
  gate = record { states = λ r. open_state; made = 0; deletion_states = [] };
  readers = [];
  deletions = [];
  waiters = 0;
}

abbrev pub with_reader : String → Option ℕ → List Reader → List Reader
with_reader space none rs = rs
with_reader space (some r) rs = record { space = space; ref = r } ∷ rs

abbrev pub with_deletion : String → Option ℕ → List Deletion → List Deletion
with_deletion space none ds = ds
with_deletion space (some r) ds = record { space = space; ref = r; phase = begun } ∷ ds

abbrev pub resolved : List ℕ → Phase → Phase
resolved ws (waits w) = if any (λ v. v =? w) ws then alone else waits w
resolved ws begun = begun
resolved ws alone = alone

-- The promises of these waiters are resolved.
unfoldable pub resolve : List ℕ → List Deletion → List Deletion
resolve ws [] = []
resolve ws (d ∷ ds) = record d { phase = resolved ws d.phase } ∷ resolve ws ds

abbrev pub phase_after : Bool → ℕ → Phase
phase_after at_once w = if at_once then alone else waits w

pub data Step (u : World) : World → Type 0 where
  reads :
      (space : String)
      → Step u (record u {
        gate = (acquire_space_reader space u.gate).1;
        readers = with_reader space (acquire_space_reader space u.gate).0 u.readers;
      })
  stops_reading :
      (before after : List Reader) (x : Reader)
      → u.readers ≡ before ++ x ∷ after
      → Step u (record u {
        gate = (release_reader x.space x.ref u.gate).1;
        readers = before ++ after;
        deletions = resolve (release_reader x.space x.ref u.gate).0 u.deletions;
      })
  deletes :
      (space : String)
      → Step u (record u {
        gate = (begin_space_deletion space u.gate).1;
        deletions = with_deletion space (begin_space_deletion space u.gate).0 u.deletions;
      })
  awaits :
      (before after : List Deletion) (d : Deletion)
      → u.deletions ≡ before ++ d ∷ after
      → d.phase ≡ begun
      → Step u (record u {
        gate = (wait_for_space_readers d.space u.waiters u.gate).1;
        deletions =
            before
            ++ record d {
              phase = phase_after (wait_for_space_readers d.space u.waiters u.gate).0 u.waiters;
            }
              ∷ after;
        waiters = suc u.waiters;
      })
  stops_deleting :
      (before after : List Deletion) (d : Deletion)
      → u.deletions ≡ before ++ d ∷ after
      → Step u
          (record u { gate = release_deletion d.space d.ref u.gate; deletions = before ++ after })

pub data Run (u : World) : World → Type 0 where
  here : Run u u
  followed : {v x : World} → Run u v → Step v x → Run u x

pub Run-keeps :
    (P : World → Type 0)
    → ((u v : World) → P u → Step u v → P v)
    → (u v : World) → P u
    → Run u v
    → P v
Run-keeps P keep u v h here = h
Run-keeps P keep u v h (followed {v = x} run step) = keep x v (Run-keeps P keep u x h run) step
