-- ===== src/Spaces/Gate/Entry.antt =====
-- A space gets its state where it has none.
use memo_repo.Prelude.{
  map_get, map_set, ℕ, String, suc, ◌<◌, true, false, none, some, List, ◌≡◌, ◌≢◌, ◌⊎◌, inl, inr,
  refl, sym, ◌∙◌, ◌=?◌, ◌==◌, arith, In, count_where, get-set, Bool-cases, Option-cases, eq_iff,
  eq_refl,
}
use memo_repo.Spaces.Gate.{Gate, open_state, set_state, space_deletion_state}
use memo_repo.Spaces.Gate.Runs.{Reader, Deletion, Phase, begun, waits, alone, World}
use memo_repo.Spaces.Gate.Invariant.{
  readers_of, deletions_of, IsCounted, PhaseOf, IsOrderly, count-zero,
}

abbrev new_gate : String → Gate → Gate
new_gate space g = record (set_state g.made open_state g) {
  made = suc g.made;
  deletion_states = map_set space g.made g.deletion_states;
}

new_entry-cases :
    (space : String) (g : Gate) (i : String) (q : ℕ)
    → map_get i (map_set space g.made g.deletion_states) ≡ some q
    → ((space ≡ i) × (q ≡ g.made)) ⊎ (map_get i g.deletion_states ≡ some q)
new_entry-cases space g i q p = elim (Bool-cases (space == i)) [
  | inl e ↦ inl ((eq_iff space i).0 e, ground (arith, get-set space i g.made g.deletion_states))
  | inr e ↦ inr (ground (arith, get-set space i g.made g.deletion_states))
]

new_gate-IsCounted :
    (space : String) (g : Gate) (n : ℕ) (rs : List Reader) (ds : List Deletion)
    → readers_of space rs ≡ 0
    → deletions_of space ds ≡ 0
    → IsCounted g n rs ds
    → IsCounted (new_gate space g) n rs ds
new_gate-IsCounted space g n rs ds a b c = record {
  one_space = λ i j r p q. elim (new_entry-cases space g i r p) [
    | inl (e, x) ↦ elim (new_entry-cases space g j r q) [
      | inl (f, y) ↦ sym e ∙ f
      | inr old ↦ absurd (let l = c.below j r old in omega arith)
    ]
    | inr old ↦ elim (new_entry-cases space g j r q) [
      | inl (f, y) ↦ absurd (let l = c.below i r old in omega arith)
      | inr older ↦ c.one_space i j r old older
    ]
  ];
  below = λ i r p. elim (new_entry-cases space g i r p) [
    | inl (e, x) ↦ omega arith
    | inr old ↦ let l = c.below i r old in omega arith
  ];
  counts = λ i r p. elim (new_entry-cases space g i r p) [
    | inl (e, x) ↦ let t : (r =? g.made) ≡ true = ground arith in rw (t, sym e) (sym a)
    | inr old ↦
        let l = c.below i r old in
        let t : (r =? g.made) ≡ false = ground arith in rw t (c.counts i r old)
  ];
  bars = λ i r p. elim (new_entry-cases space g i r p) [
    | inl (e, x) ↦ let t : (r =? g.made) ≡ true = ground arith in rw (t, sym e) b
    | inr old ↦
        let l = c.below i r old in
        let t : (r =? g.made) ≡ false = ground arith in rw t (c.bars i r old)
  ];
  known = λ q w p. elim (Bool-cases (q =? g.made)) [
    | inl t ↦ elim (rw t at p) [ ]
    | inr t ↦ c.known q w (rw t at p)
  ];
}

-- A key that is there is another one.
kept :
    (space : String) (g : Gate)
    → map_get space g.deletion_states ≡ none
    → (i : String) (q : ℕ) → map_get i g.deletion_states ≡ some q
    → map_get i (map_set space g.made g.deletion_states) ≡ some q
kept space g e i q p = elim (Bool-cases (space == i)) [
  | inl t ↦ absurd (
      let same = (eq_iff space i).0 t in
      let z : map_get space g.deletion_states ≡ some q = rw same p in cc)
  | inr t ↦ get-set space i g.made g.deletion_states ∙ rw t p
]

not-same : (space i : String) → i ≢ space → (i == space) ≡ false
not-same space i h = elim (Bool-cases (i == space)) [
  | inl e ↦ absurd (h ((eq_iff i space).0 e))
  | inr e ↦ e
]

unheld :
    (space : String) (g : Gate) (A : Type 0) (key : A → String) (ref : A → ℕ) (xs : List A)
    → map_get space g.deletion_states ≡ none
    → ((x : A) → In x xs → map_get (key x) g.deletion_states ≡ some (ref x))
    → count_where (λ x. key x == space) xs ≡ 0
unheld space g A key ref xs e h =
    count-zero (λ x. key x == space) xs
      (λ x m.
        not-same space (key x)
          (λ q. let z : map_get space g.deletion_states ≡ some (ref x) = rw (sym q) (h x m) in cc))

PhaseOf-new :
    (space : String) (g : Gate) (n r : ℕ) (p : Phase)
    → r < g.made
    → PhaseOf g n r p
    → PhaseOf (new_gate space g) n r p
PhaseOf-new space g n r begun l h = h
PhaseOf-new space g n r (waits w) l (k, only, at, some_read) =
    let e : (r =? g.made) ≡ false = ground arith in
    (
      k,
      λ q m. elim (Bool-cases (q =? g.made)) [
        | inl t ↦ elim (rw t at m) [ ]
        | inr t ↦ only q (rw t at m)
      ],
      rw e at,
      rw e some_read,
    )
PhaseOf-new space g n r alone l h = let t : (r =? g.made) ≡ false = ground arith in rw t h

new_gate-IsOrderly :
    (space : String) (u : World)
    → map_get space u.gate.deletion_states ≡ none
    → IsOrderly u
    → IsOrderly (record u { gate = new_gate space u.gate })
new_gate-IsOrderly space u e o = record {
  counted =
      new_gate-IsCounted space u.gate u.waiters u.readers u.deletions
        (unheld space u.gate Reader (λ x. x.space) (λ x. x.ref) u.readers e o.read)
        (unheld space u.gate Deletion (λ d. d.space) (λ d. d.ref) u.deletions e
          (λ d m. (o.held d m).0))
        o.counted;
  read = λ x m. kept space u.gate e x.space x.ref (o.read x m);
  held = λ d m.
      let (p, q, r) = o.held d m in
      let l = o.counted.below d.space d.ref p in
      let t : (d.ref =? u.gate.made) ≡ false = ground arith in
      (
        kept space u.gate e d.space d.ref p,
        rw t q,
        PhaseOf-new space u.gate u.waiters d.ref d.phase l r,
      );
}

-- The state of the space that a reader or a deletion asks for is the space's own, and all stays in order.
pub space_deletion_state-IsOrderly :
    (space : String) (u : World)
    → IsOrderly u
    → (map_get space (space_deletion_state space u.gate).1.deletion_states
        ≡ some (space_deletion_state space u.gate).0)
      × IsOrderly (record u { gate = (space_deletion_state space u.gate).1 })
unfolding space_deletion_state
space_deletion_state-IsOrderly space u o =
    elim (Option-cases (map_get space u.gate.deletion_states)) [
      | inl e ↦
          rw (e, space_deletion_state)
            (
              get-set space space u.gate.made u.gate.deletion_states ∙ rw (eq_refl space) refl,
              new_gate-IsOrderly space u e o,
            )
      | inr (r, e) ↦ rw (e, space_deletion_state) (e, o)
    ]
