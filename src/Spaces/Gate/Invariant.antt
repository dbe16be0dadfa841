-- ===== src/Spaces/Gate/Invariant.antt =====
-- What the lock keeps: the counts of its states are those of the readers and deletions at work.
use memo_repo.Prelude.{
  map_get, map_delete, ℕ, String, ◌+◌, ◌<◌, ◌≤◌, Bool, true, false, some, List, [], ◌∷◌, ◌++◌, ◌≡◌,
  ◌≢◌, ◌⊎◌, inl, inr, refl, sym, ◌∙◌, ap, ◌=?◌, ◌==◌, if◌then◌else◌, arith, In, count_where,
  get-delete, Bool-cases,
}
use memo_repo.Spaces.Gate.{Gate, DeletionState, set_state, delete_entry}
use memo_repo.Spaces.Gate.Runs.{Reader, Deletion, Phase, begun, waits, alone, World}

abbrev pub readers_of : String → List Reader → ℕ
readers_of space rs = count_where (λ (x : Reader). x.space == space) rs

abbrev pub deletions_of : String → List Deletion → ℕ
deletions_of space ds = count_where (λ (d : Deletion). d.space == space) ds

abbrev pub one_if : Bool → ℕ
one_if b = if b then 1 else 0

pub record IsCounted (g : Gate) (n : ℕ) (rs : List Reader) (ds : List Deletion) : Type 0 where
  pub one_space :
      (i j : String) (r : ℕ)
      → map_get i g.deletion_states ≡ some r
      → map_get j g.deletion_states ≡ some r
      → i ≡ j
  pub below : (i : String) (r : ℕ) → map_get i g.deletion_states ≡ some r → r < g.made
  pub counts :
      (i : String) (r : ℕ)
      → map_get i g.deletion_states ≡ some r
      → (g.states r).active_readers ≡ readers_of i rs
  pub bars :
      (i : String) (r : ℕ)
      → map_get i g.deletion_states ≡ some r
      → deletions_of i ds ≡ one_if (g.states r).deleting
  pub known : (q w : ℕ) → In w (g.states q).reader_drain_waiters → w < n

-- A deletion's wait is over only while its space has no reader; until then there is one, and the waiter
-- waits at the deletion's state and at no other.
abbrev pub PhaseOf : Gate → ℕ → ℕ → Phase → Type 0
PhaseOf g n r begun = Unit
PhaseOf g n r (waits w) =
    (w < n)
    × ((q : ℕ) → In w (g.states q).reader_drain_waiters → q ≡ r)
    × In w (g.states r).reader_drain_waiters
    × (0 < (g.states r).active_readers)
PhaseOf g n r alone = (g.states r).active_readers ≡ 0

abbrev pub IsHeld : Gate → ℕ → Deletion → Type 0
IsHeld g n d =
    (map_get d.space g.deletion_states ≡ some d.ref)
    × ((g.states d.ref).deleting ≡ true)
    × PhaseOf g n d.ref d.phase

-- The state of another space is another one.
pub entry-cases :
    (g : Gate) (n : ℕ) (rs : List Reader) (ds : List Deletion)
    → IsCounted g n rs ds
    → (space : String) (r : ℕ) → map_get space g.deletion_states ≡ some r
    → (i : String) (q : ℕ) → map_get i g.deletion_states ≡ some q
    → (((q =? r) ≡ true) × (i ≡ space)) ⊎ (((q =? r) ≡ false) × (i ≢ space))
entry-cases g n rs ds c space r h i q p = elim (Bool-cases (q =? r)) [
  | inl t ↦ let same : q ≡ r = ground arith in inl (t, c.one_space i space r (p ∙ ap some same) h)
  | inr t ↦ inr (t, λ x. let same : q ≡ r = cc (x, p, h) in ground arith)
]

-- A state changes, and with it the readers and deletions of its space.
pub set_state-IsCounted :
    (g : Gate) (n m : ℕ) (rs qs : List Reader) (ds es : List Deletion) (space : String) (r : ℕ)
    (s : DeletionState)
    → IsCounted g n rs ds
    → map_get space g.deletion_states ≡ some r
    → n ≤ m
    → s.active_readers ≡ readers_of space qs
    → ((i : String) → i ≢ space → readers_of i qs ≡ readers_of i rs)
    → deletions_of space es ≡ one_if s.deleting
    → ((i : String) → i ≢ space → deletions_of i es ≡ deletions_of i ds)
    → ((w : ℕ) → In w s.reader_drain_waiters → w < m)
    → IsCounted (set_state r s g) m qs es
set_state-IsCounted g n m rs qs ds es space r s c h le a b d e k = record {
  one_space = c.one_space;
  below = c.below;
  counts = λ i q p. elim (entry-cases g n rs ds c space r h i q p) [
    | inl (t, here) ↦ rw (t, here) a
    | inr (t, away) ↦ rw t (c.counts i q p ∙ sym (b i away))
  ];
  bars = λ i q p. elim (entry-cases g n rs ds c space r h i q p) [
    | inl (t, here) ↦ rw (t, here) d
    | inr (t, away) ↦ rw t (e i away ∙ c.bars i q p)
  ];
  known = λ q w p. elim (Bool-cases (q =? r)) [
    | inl t ↦ k w (rw t at p)
    | inr t ↦ let old = c.known q w (rw t at p) in omega arith
  ];
}

-- An entry that goes leaves the others.
pub delete_entry-IsCounted :
    (space : String) (g : Gate) (n : ℕ) (rs : List Reader) (ds : List Deletion)
    → IsCounted g n rs ds
    → IsCounted (delete_entry space g) n rs ds
delete_entry-IsCounted space g n rs ds c = record {
  one_space = λ i j r p q. c.one_space i j r (left i r p) (left j r q);
  below = λ i r p. c.below i r (left i r p);
  counts = λ i r p. c.counts i r (left i r p);
  bars = λ i r p. c.bars i r (left i r p);
  known = c.known;
}
  where
    left :
        (i : String) (r : ℕ)
        → map_get i (map_delete space g.deletion_states) ≡ some r
        → map_get i g.deletion_states ≡ some r
    left i r p = ground (arith, get-delete space i g.deletion_states)

pub count-zero :
    {A : Type 0} (p : A → Bool) (xs : List A)
    → ((x : A) → In x xs → p x ≡ false)
    → count_where p xs ≡ 0
count-zero p [] h = refl
count-zero p (x ∷ xs) h = rw (h x (inl refl), count-zero p xs (λ y m. h y (inr m))) refl

pub none-counted :
    {A : Type 0} (p : A → Bool) (xs : List A) (x : A) → count_where p xs ≡ 0 → In x xs → p x ≡ false
none-counted p [] x h m = elim m [ ]
none-counted p (y ∷ ys) x h (inl e) = rw e (ground arith)
none-counted p (y ∷ ys) x h (inr m) = none-counted p ys x (ground arith) m

pub count-splice :
    {A : Type 0} (p : A → Bool) (xs ys : List A) (x : A)
    → count_where p (xs ++ x ∷ ys) ≡ (if p x then 1 else 0) + count_where p (xs ++ ys)
count-splice p [] ys x = refl
count-splice p (z ∷ xs) ys x = rw (count-splice p xs ys x) (ground arith)

pub In-splice : {A : Type 0} (xs ys : List A) (x y : A) → In y (xs ++ ys) → In y (xs ++ x ∷ ys)
In-splice [] ys x y m = inr m
In-splice (z ∷ xs) ys x y (inl e) = inl e
In-splice (z ∷ xs) ys x y (inr m) = inr (In-splice xs ys x y m)

pub In-middle : {A : Type 0} (xs ys : List A) (x : A) → In x (xs ++ x ∷ ys)
In-middle [] ys x = inl refl
In-middle (z ∷ xs) ys x = inr (In-middle xs ys x)

-- What holds of the lock, its readers and its deletions together.
pub record IsOrderly (u : World) : Type 0 where
  pub counted : IsCounted u.gate u.waiters u.readers u.deletions
  pub read : (x : Reader) → In x u.readers → map_get x.space u.gate.deletion_states ≡ some x.ref
  pub held : (d : Deletion) → In d u.deletions → IsHeld u.gate u.waiters d
