-- ===== src/Spaces/Gate/Moves.antt =====
-- Each operation of the lock keeps it in order.
use memo_repo.Prelude.{
  if-cases, map_get, ℕ, String, ◌<◌, ◌≤◌, true, false, Option, some, ◌∷◌, ◌≡◌, ◌≢◌, ◌⊎◌, inl, inr,
  refl, sym, ◌∙◌, ◌=?◌, ◌==◌, arith, In, Bool-cases, eq_iff, eq_refl,
}
use memo_repo.Spaces.Gate.{Gate, DeletionState, set_state, one_more, start_deleting, enter, bar}
use memo_repo.Spaces.Gate.Runs.{
  Deletion, Phase, begun, waits, alone, World, with_reader, with_deletion,
}
use memo_repo.Spaces.Gate.Invariant.{deletions_of, PhaseOf, IsHeld, IsOrderly, set_state-IsCounted}

pub other_space : (space i : String) → i ≢ space → (space == i) ≡ false
other_space space i h = elim (Bool-cases (space == i)) [
  | inl e ↦ absurd (h (sym ((eq_iff space i).0 e)))
  | inr e ↦ e
]

-- A deletion is held on while a state changes, if at that state it may be.
pub set_state-IsHeld :
    (g : Gate) (n m r : ℕ) (s : DeletionState) (d : Deletion)
    → n ≤ m
    → ((w : ℕ) → In w s.reader_drain_waiters → In w (g.states r).reader_drain_waiters ⊎ (n ≤ w))
    → (d.ref ≡ r
        → (s.deleting ≡ true)
          × (d.phase ≡ alone → s.active_readers ≡ 0)
          × ((w : ℕ)
              → d.phase ≡ waits w
              → In w (g.states r).reader_drain_waiters
              → 0 < (g.states r).active_readers
              → In w s.reader_drain_waiters × (0 < s.active_readers)))
    → IsHeld g n d
    → IsHeld (set_state r s g) m d
set_state-IsHeld g n m r s d le sub at (h, k, p) = elim (Bool-cases (d.ref =? r)) [
  | inl t ↦ let (x, y, _) = at (ground arith) in (h, rw t x, phase d.phase refl p)
  | inr t ↦ (h, rw t k, phase d.phase refl p)
]
  where
    waiting :
        (w : ℕ)
        → d.phase ≡ waits w
        → In w (g.states d.ref).reader_drain_waiters
        → 0 < (g.states d.ref).active_readers
        → In w ((set_state r s g).states d.ref).reader_drain_waiters
          × (0 < ((set_state r s g).states d.ref).active_readers)
    waiting w e a b = elim (Bool-cases (d.ref =? r)) [
      | inl t ↦
          let same : d.ref ≡ r = ground arith in
          let (_, _, z) = at same in rw t (z w e (rw same at a) (rw same at b))
      | inr t ↦ rw t (a, b)
    ]

    phase : (f : Phase) → d.phase ≡ f → PhaseOf g n d.ref f → PhaseOf (set_state r s g) m d.ref f
    phase begun e q = q
    phase (waits w) e (l, only, old_at, old_read) =
        let (now_at, now_read) = waiting w e old_at old_read in
        (
          omega arith,
          λ x z. elim (Bool-cases (x =? r)) [
            | inl t ↦ elim (sub w (rw t at z)) [
              | inl old ↦ let same : x ≡ r = ground arith in same ∙ sym (sym (only r old))
              | inr new ↦ absurd (omega arith)
            ]
            | inr t ↦ only x (rw t at z)
          ],
          now_at,
          now_read,
        )
    phase alone e q = elim (Bool-cases (d.ref =? r)) [
      | inl t ↦ let (x, y, _) = at (ground arith) in rw t (y e)
      | inr t ↦ rw t q
    ]

pub enter-IsOrderly :
    (space : String) (r : ℕ) (u : World)
    → map_get space u.gate.deletion_states ≡ some r
    → IsOrderly u
    → IsOrderly (record u {
      gate = (enter r u.gate).1;
      readers = with_reader space (enter r u.gate).0 u.readers;
    })
enter-IsOrderly space r u h o =
    if-cases
      (λ (x : Option ℕ × Gate).
        IsOrderly (record u { gate = x.1; readers = with_reader space x.0 u.readers }))
      (u.gate.states r).deleting (λ e. o)
      (λ e. record {
        counted =
            set_state-IsCounted u.gate u.waiters u.waiters u.readers
              (record { space = space; ref = r } ∷ u.readers) u.deletions u.deletions space r
              (one_more (u.gate.states r)) o.counted h (omega arith)
              (let c = o.counted.counts space r h in rw (eq_refl space) (omega arith))
              (λ i away. rw (other_space space i away) (omega arith)) (o.counted.bars space r h)
              (λ i away. refl) (λ w m. o.counted.known r w m);
        read = λ x m. elim m [ inl q ↦ rw q h | inr old ↦ o.read x old ];
        held = λ d m.
            set_state-IsHeld u.gate u.waiters u.waiters r (one_more (u.gate.states r)) d
              (omega arith) (λ w z. inl z)
              (λ q.
                let (_, k, _) = o.held d m in
                absurd (let z : (u.gate.states r).deleting ≡ true = rw q at k in cc))
              (o.held d m);
      })

pub bar-IsOrderly :
    (space : String) (r : ℕ) (u : World)
    → map_get space u.gate.deletion_states ≡ some r
    → IsOrderly u
    → IsOrderly (record u {
      gate = (bar r u.gate).1;
      deletions = with_deletion space (bar r u.gate).0 u.deletions;
    })
bar-IsOrderly space r u h o =
    if-cases
      (λ (x : Option ℕ × Gate).
        IsOrderly (record u { gate = x.1; deletions = with_deletion space x.0 u.deletions }))
      (u.gate.states r).deleting (λ e. o)
      (λ e. record {
        counted =
            set_state-IsCounted u.gate u.waiters u.waiters u.readers u.readers u.deletions
              (record { space = space; ref = r; phase = begun } ∷ u.deletions) space r
              (start_deleting (u.gate.states r)) o.counted h (omega arith)
              (o.counted.counts space r h) (λ i away. refl)
              (let c = o.counted.bars space r h in
                rw (eq_refl space)
                  (let z : deletions_of space u.deletions ≡ 0 = c ∙ rw e refl in rw z refl))
              (λ i away. rw (other_space space i away) (omega arith))
              (λ w m. o.counted.known r w m);
        read = o.read;
        held = λ d m. elim m [
          | inl q ↦ let t : (r =? r) ≡ true = ground arith in rw q (h, rw t refl, tt)
          | inr old ↦
              set_state-IsHeld u.gate u.waiters u.waiters r (start_deleting (u.gate.states r)) d
                (omega arith) (λ w z. inl z)
                (λ q.
                  let (_, k, _) = o.held d old in
                  absurd (let z : (u.gate.states r).deleting ≡ true = rw q at k in cc))
                (o.held d old)
        ];
      })
