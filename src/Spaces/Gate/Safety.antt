-- ===== src/Spaces/Gate/Safety.antt =====
-- A deletion that waits for the readers of its space leaves the lock in order.
use memo_repo.Prelude.{
  In-append, if-cases, ℕ, String, suc, Bool, true, false, List, [], ◌∷◌, ◌++◌, ◌≡◌, ◌⊎◌, inl, inr,
  refl, sym, ◌∙◌, ap, ◌=?◌, arith, In, Bool-cases,
}
use memo_repo.Spaces.Gate.{Gate, DeletionState, set_state, wait_for_space_readers}
use memo_repo.Spaces.Gate.Runs.{Deletion, Phase, begun, waits, alone, World, phase_after}
use memo_repo.Spaces.Gate.Invariant.{
  deletions_of, PhaseOf, IsOrderly, In-middle, set_state-IsCounted,
}
use memo_repo.Spaces.Gate.Moves.{set_state-IsHeld}

PhaseOf-later : (g : Gate) (n r : ℕ) (p : Phase) → PhaseOf g n r p → PhaseOf g (suc n) r p
PhaseOf-later g n r begun h = h
PhaseOf-later g n r (waits w) (l, only, there, some_read) = (omega arith, only, there, some_read)
PhaseOf-later g n r alone h = h

abbrev with_phase : List Deletion → List Deletion → Deletion → Phase → List Deletion
with_phase before after d p = before ++ record d { phase = p } ∷ after

with_phase-cases :
    (before after : List Deletion) (d : Deletion) (p : Phase) (c : Deletion)
    → In c (with_phase before after d p)
    → (c ≡ record d { phase = p }) ⊎ In c (before ++ d ∷ after)
with_phase-cases [] after d p c (inl e) = inl e
with_phase-cases [] after d p c (inr m) = inr (inr m)
with_phase-cases (b ∷ before) after d p c (inl e) = inr (inl e)
with_phase-cases (b ∷ before) after d p c (inr m) = elim (with_phase-cases before after d p c m) [
  | inl e ↦ inl e
  | inr k ↦ inr (inr k)
]

deletions_of-with_phase :
    (before after : List Deletion) (d : Deletion) (p : Phase) (i : String)
    → deletions_of i (with_phase before after d p) ≡ deletions_of i (before ++ d ∷ after)
deletions_of-with_phase [] after d p i = refl
deletions_of-with_phase (b ∷ before) after d p i =
    rw (deletions_of-with_phase before after d p i) refl

-- A deletion whose space has no reader goes on at once.
alone-IsOrderly :
    (u : World) (before after : List Deletion) (d : Deletion)
    → u.deletions ≡ before ++ d ∷ after
    → (u.gate.states d.ref).active_readers ≡ 0
    → IsOrderly u
    → IsOrderly (record u { deletions = with_phase before after d alone; waiters = suc u.waiters })
alone-IsOrderly u before after d e zero o = record {
  counted = record {
    one_space = o.counted.one_space;
    below = o.counted.below;
    counts = o.counted.counts;
    bars = λ i r p.
        deletions_of-with_phase before after d alone i
        ∙ ap (deletions_of i) (sym e)
        ∙ o.counted.bars i r p;
    known = λ q w m. let l = o.counted.known q w m in omega arith;
  };
  read = o.read;
  held = λ c m. elim (with_phase-cases before after d alone c m) [
    | inl q ↦ let (h, k, _) = o.held d (rw e (In-middle before after d)) in rw q (h, k, zero)
    | inr k ↦
        let (h, deleting, p) = o.held c (rw e k) in
        (h, deleting, PhaseOf-later u.gate u.waiters c.ref c.phase p)
  ];
}

abbrev with_waiter : ℕ → DeletionState → DeletionState
with_waiter n s = record s { reader_drain_waiters = s.reader_drain_waiters ++ n ∷ [] }

In-last : (ws : List ℕ) (n w : ℕ) → In w (ws ++ n ∷ []) → In w ws ⊎ (w ≡ n)
In-last ws n w m = elim (In-append ws (n ∷ []) w m) [
  | inl k ↦ inl k
  | inr k ↦ elim k [ inl e ↦ inr e | inr none_left ↦ elim none_left [ ] ]
]

In-kept : (ws : List ℕ) (n w : ℕ) → In w ws → In w (ws ++ n ∷ [])
In-kept [] n w m = elim m [ ]
In-kept (v ∷ ws) n w (inl e) = inl e
In-kept (v ∷ ws) n w (inr m) = inr (In-kept ws n w m)

In-end : (ws : List ℕ) (n : ℕ) → In n (ws ++ n ∷ [])
In-end [] n = inl refl
In-end (v ∷ ws) n = inr (In-end ws n)

-- A deletion whose space has a reader waits.
waiting-IsOrderly :
    (u : World) (before after : List Deletion) (d : Deletion)
    → u.deletions ≡ before ++ d ∷ after
    → ((u.gate.states d.ref).active_readers =? 0) ≡ false
    → IsOrderly u
    → IsOrderly (record u {
      gate = set_state d.ref (with_waiter u.waiters (u.gate.states d.ref)) u.gate;
      deletions = with_phase before after d (waits u.waiters);
      waiters = suc u.waiters;
    })
waiting-IsOrderly u before after d e some_read o =
    let s = u.gate.states d.ref in
    let (h, k, _) = o.held d (rw e (In-middle before after d)) in
    let same = λ (i : String).
      deletions_of-with_phase before after d (waits u.waiters) i ∙ ap (deletions_of i) (sym e) in
    record {
      counted =
          set_state-IsCounted u.gate u.waiters (suc u.waiters) u.readers u.readers u.deletions
            (with_phase before after d (waits u.waiters)) d.space d.ref (with_waiter u.waiters s)
            o.counted h (omega arith) (o.counted.counts d.space d.ref h) (λ i a. refl)
            (same d.space ∙ o.counted.bars d.space d.ref h) (λ i a. same i)
            (λ w m. elim (In-last s.reader_drain_waiters u.waiters w m) [
              | inl old ↦ let l = o.counted.known d.ref w old in omega arith
              | inr new ↦ omega arith
            ]);
      read = o.read;
      held = λ c m. elim (with_phase-cases before after d (waits u.waiters) c m) [
        | inl q ↦
            let t : (d.ref =? d.ref) ≡ true = ground arith in
            rw q (
              h,
              rw t k,
              (
                omega arith,
                λ x z. elim (Bool-cases (x =? d.ref)) [
                  | inl f ↦ ground arith
                  | inr f ↦ absurd (let l = o.counted.known x u.waiters (rw f at z) in omega arith)
                ],
                rw t (In-end s.reader_drain_waiters u.waiters),
                rw t (ground arith),
              ),
            )
        | inr old ↦
            set_state-IsHeld u.gate u.waiters (suc u.waiters) d.ref (with_waiter u.waiters s) c
              (omega arith)
              (λ w z. elim (In-last s.reader_drain_waiters u.waiters w z) [
                | inl kept ↦ inl kept
                | inr new ↦ inr (omega arith)
              ])
              (λ q.
                let (_, deleting, phase) = o.held c (rw e old) in
                (
                  rw q at deleting,
                  λ f.
                      let zero : (u.gate.states c.ref).active_readers ≡ 0 = rw f at phase in
                      rw q at zero,
                  λ w f a b. (In-kept s.reader_drain_waiters u.waiters w a, b),
                ))
              (o.held c (rw e old))
      ];
    }

pub awaits-IsOrderly :
    (u : World) (before after : List Deletion) (d : Deletion)
    → u.deletions ≡ before ++ d ∷ after
    → IsOrderly u
    → IsOrderly (record u {
      gate = (wait_for_space_readers d.space u.waiters u.gate).1;
      deletions =
          with_phase before after d
            (phase_after (wait_for_space_readers d.space u.waiters u.gate).0 u.waiters);
      waiters = suc u.waiters;
    })
unfolding wait_for_space_readers
awaits-IsOrderly u before after d e o =
    let (h, _, _) = o.held d (rw e (In-middle before after d)) in
    rw (h, wait_for_space_readers)
      (if-cases
        (λ (y : Bool × Gate). IsOrderly (record u {
          gate = y.1;
          deletions = with_phase before after d (phase_after y.0 u.waiters);
          waiters = suc u.waiters;
        }))
        ((u.gate.states d.ref).active_readers =? 0)
        (λ z. alone-IsOrderly u before after d e (ground arith) o)
        (λ z. waiting-IsOrderly u before after d e z o))
