-- ===== src/Spaces/Gate/Releases.antt =====
-- What a reader or a deletion that ends leaves behind is in order.
use memo_repo.Prelude.{
  ◌-◌, any, any-eq-true, any-eq-true, any, map_get, map_delete, ℕ, String, true, false, List, [],
  ◌∷◌, ◌≡◌, inl, inr, refl, sym, ◌∙◌, ◌=?◌, ◌==◌, arith, In, get-delete, Bool-cases, eq_iff,
}
use memo_repo.Spaces.Gate.{Gate, set_state, delete_entry, one_less, drained}
use memo_repo.Spaces.Gate.Runs.{
  Reader, Deletion, Phase, begun, waits, alone, World, resolved, resolve,
}
use memo_repo.Spaces.Gate.Invariant.{
  deletions_of, PhaseOf, IsHeld, IsOrderly, delete_entry-IsCounted,
}
use memo_repo.Spaces.Gate.Moves.{other_space}

-- The entry of a space that nobody holds may go.
pub delete_entry-IsOrderly :
    (space : String) (u : World)
    → ((x : Reader) → In x u.readers → (x.space == space) ≡ false)
    → ((d : Deletion) → In d u.deletions → (d.space == space) ≡ false)
    → IsOrderly u
    → IsOrderly (record u { gate = delete_entry space u.gate })
delete_entry-IsOrderly space u a b o = record {
  counted = delete_entry-IsCounted space u.gate u.waiters u.readers u.deletions o.counted;
  read = λ x m. stays x.space (a x m) ∙ o.read x m;
  held = λ d m. let (p, q, r) = o.held d m in (stays d.space (b d m) ∙ p, q, r);
}
  where
    stays :
        (i : String)
        → (i == space) ≡ false
        → map_get i (map_delete space u.gate.deletion_states) ≡ map_get i u.gate.deletion_states
    stays i h =
        get-delete space i u.gate.deletion_states
        ∙ rw (other_space space i (λ q. let z = (eq_iff i space).1 q in cc)) refl

pub deletions_of-resolve :
    (ws : List ℕ) (ds : List Deletion) (i : String)
    → deletions_of i (resolve ws ds) ≡ deletions_of i ds
unfolding resolve
deletions_of-resolve ws [] i = refl
deletions_of-resolve ws (d ∷ ds) i = rw (deletions_of-resolve ws ds i) refl

pub resolve-nil : (ds : List Deletion) → resolve [] ds ≡ ds
unfolding resolve
resolve-nil [] = refl
resolve-nil (d ∷ ds) = rw (resolve-nil ds, phase d.phase) refl
  where
    phase : (p : Phase) → resolved [] p ≡ p
    phase begun = refl
    phase (waits w) = refl
    phase alone = refl

pub In-resolve :
    (ws : List ℕ) (ds : List Deletion) (d : Deletion)
    → In d (resolve ws ds)
    → (e : Deletion) × In e ds × (d ≡ record e { phase = resolved ws e.phase })
unfolding resolve
In-resolve ws [] d m = elim m [ ]
In-resolve ws (e ∷ es) d (inl q) = (e, inl refl, q)
In-resolve ws (e ∷ es) d (inr m) = let (f, k, q) = In-resolve ws es d m in (f, inr k, q)

In-any : (ws : List ℕ) (w : ℕ) → any (λ v. v =? w) ws ≡ true → In w ws
In-any ws w h =
    let (v, m, e) = any-eq-true (λ v. v =? w) ws h in
    let same : v ≡ w = ground arith in rw (sym same) m

any-In : (ws : List ℕ) (w : ℕ) → In w ws → any (λ v. v =? w) ws ≡ true
any-In [] w m = elim m [ ]
any-In (v ∷ ws) w (inl e) = let t : (v =? w) ≡ true = ground arith in rw t refl
any-In (v ∷ ws) w (inr m) = rw (any-In ws w m) (ground arith)

-- The last reader resolves the waiters of its state.
pub resolved-IsHeld :
    (g : Gate) (n r : ℕ) (d : Deletion)
    → (g.states r).active_readers - 1 ≡ 0
    → IsHeld g n d
    → IsHeld
        (set_state r (drained (one_less (g.states r))) g)
        n
        (record d { phase = resolved (g.states r).reader_drain_waiters d.phase })
resolved-IsHeld g n r d z (h, k, p) = (h, deleting, phase d.phase p)
  where
    deleting : ((set_state r (drained (one_less (g.states r))) g).states d.ref).deleting ≡ true
    deleting = elim (Bool-cases (d.ref =? r)) [
      | inl t ↦ let same : d.ref ≡ r = ground arith in rw t (rw same at k)
      | inr t ↦ rw t k
    ]

    phase :
        (f : Phase)
        → PhaseOf g n d.ref f
        → PhaseOf
            (set_state r (drained (one_less (g.states r))) g)
            n
            d.ref
            (resolved (g.states r).reader_drain_waiters f)
    phase begun q = q
    phase (waits w) (l, only, there, some_read) =
        elim (Bool-cases (any (λ v. v =? w) (g.states r).reader_drain_waiters)) [
          | inl t ↦
              let same : r ≡ d.ref = only r (In-any (g.states r).reader_drain_waiters w t) in
              let e : (d.ref =? r) ≡ true = ground arith in rw (t, e) z
          | inr t ↦
              let apart : (d.ref =? r) ≡ false = elim (Bool-cases (d.ref =? r)) [
                | inl e ↦
                    let same : d.ref ≡ r = ground arith in
                    absurd (
                      let yes = any-In (g.states r).reader_drain_waiters w (rw same at there) in cc)
                | inr e ↦ e
              ] in
              rw t (
                l,
                λ q m. elim (Bool-cases (q =? r)) [
                  | inl e ↦ elim (rw e at m) [ ]
                  | inr e ↦ only q (rw e at m)
                ],
                rw apart there,
                rw apart some_read,
              )
        ]
    phase alone q = elim (Bool-cases (d.ref =? r)) [ inl t ↦ rw t z | inr t ↦ rw t q ]
