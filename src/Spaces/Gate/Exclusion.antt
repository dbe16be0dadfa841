-- ===== src/Spaces/Gate/Exclusion.antt =====
-- A reader or a deletion that ends leaves the lock in order.
use memo_repo.Prelude.{
  ◌-◌, if-cases, map_get, ℕ, String, ◌+◌, ◌<◌, some, List, ◌∷◌, ◌++◌, ◌≡◌, ◌≢◌, inl, refl, sym, ◌∙◌,
  ap, ◌=?◌, ◌==◌, if◌then◌else◌, arith, In, eq_iff, eq_refl,
}
use memo_repo.Spaces.Gate.{
  Gate, set_state, one_less, drained, stop_deleting, release_reader, release_deletion,
}
use memo_repo.Spaces.Gate.Runs.{Reader, Deletion, World, resolve}
use memo_repo.Spaces.Gate.Invariant.{
  readers_of, deletions_of, one_if, IsOrderly, none-counted, count-splice, In-splice, In-middle,
  set_state-IsCounted,
}
use memo_repo.Spaces.Gate.Moves.{other_space, set_state-IsHeld}
use memo_repo.Spaces.Gate.Releases.{
  delete_entry-IsOrderly, deletions_of-resolve, resolve-nil, In-resolve, resolved-IsHeld,
}

pub readers-splice :
    (u : World) (before after : List Reader) (x : Reader)
    → u.readers ≡ before ++ x ∷ after
    → (i : String)
    → readers_of i u.readers ≡ (if x.space == i then 1 else 0) + readers_of i (before ++ after)
readers-splice u before after x e i =
    rw e (count-splice (λ (y : Reader). y.space == i) before after x)

pub deletions-splice :
    (u : World) (before after : List Deletion) (d : Deletion)
    → u.deletions ≡ before ++ d ∷ after
    → (i : String)
    → deletions_of i u.deletions
      ≡ (if d.space == i then 1 else 0) + deletions_of i (before ++ after)
deletions-splice u before after d e i =
    rw e (count-splice (λ (y : Deletion). y.space == i) before after d)

pub left_reader-IsOrderly :
    (u : World) (before after : List Reader) (x : Reader)
    → u.readers ≡ before ++ x ∷ after
    → IsOrderly u
    → IsOrderly (record u {
      gate = (release_reader x.space x.ref u.gate).1;
      readers = before ++ after;
      deletions = resolve (release_reader x.space x.ref u.gate).0 u.deletions;
    })
unfolding release_reader
left_reader-IsOrderly u before after x e o =
    let P = λ (y : List ℕ × Gate).
      IsOrderly
        (record u { gate = y.1; readers = before ++ after; deletions = resolve y.0 u.deletions }) in
    let s = u.gate.states x.ref in
    let h : map_get x.space u.gate.deletion_states ≡ some x.ref =
      o.read x (rw e (In-middle before after x)) in
    let here : s.active_readers ≡ 1 + readers_of x.space (before ++ after) =
      o.counted.counts x.space x.ref h
      ∙ readers-splice u before after x e x.space
      ∙ rw (eq_refl x.space) refl in
    let away = λ (i : String) (a : i ≢ x.space).
      sym (readers-splice u before after x e i ∙ rw (other_space x.space i a) (omega arith)) in
    let read =
      λ (y : Reader) (m : In y (before ++ after)). o.read y (rw e (In-splice before after x y m)) in
    if-cases P ((one_less s).active_readers =? 0)
      (λ z.
        let zero : s.active_readers - 1 ≡ 0 = ground arith in
        let base : IsOrderly (record u {
          gate = set_state x.ref (drained (one_less s)) u.gate;
          readers = before ++ after;
          deletions = resolve s.reader_drain_waiters u.deletions;
        }) =
          record {
            counted =
                set_state-IsCounted u.gate u.waiters u.waiters u.readers (before ++ after)
                  u.deletions (resolve s.reader_drain_waiters u.deletions) x.space x.ref
                  (drained (one_less s)) o.counted h (omega arith) (omega arith) away
                  (deletions_of-resolve s.reader_drain_waiters u.deletions x.space
                    ∙ o.counted.bars x.space x.ref h)
                  (λ i a. deletions_of-resolve s.reader_drain_waiters u.deletions i)
                  (λ w m. elim m [ ]);
            read = read;
            held = λ d m.
                let (d0, k, q) = In-resolve s.reader_drain_waiters u.deletions d m in
                rw q (resolved-IsHeld u.gate u.waiters x.ref d0 zero (o.held d0 k));
          } in
        if-cases
          (λ (y : Gate). IsOrderly (record u {
            gate = y;
            readers = before ++ after;
            deletions = resolve s.reader_drain_waiters u.deletions;
          }))
          s.deleting (λ t. base)
          (λ t.
            let none_reads : readers_of x.space (before ++ after) ≡ 0 = omega (arith, here, zero) in
            let bar : one_if s.deleting ≡ 0 = rw t refl in
            let none_deletes =
              deletions_of-resolve s.reader_drain_waiters u.deletions x.space
              ∙ o.counted.bars x.space x.ref h
              ∙ bar in
            delete_entry-IsOrderly x.space
              (record u {
                gate = set_state x.ref (drained (one_less s)) u.gate;
                readers = before ++ after;
                deletions = resolve s.reader_drain_waiters u.deletions;
              })
              (λ y m.
                none-counted (λ (y : Reader). y.space == x.space) (before ++ after) y none_reads m)
              (λ d m.
                none-counted (λ (d : Deletion). d.space == x.space)
                  (resolve s.reader_drain_waiters u.deletions) d none_deletes m)
              base))
      (λ z. rw (resolve-nil u.deletions) (record {
        counted =
            set_state-IsCounted u.gate u.waiters u.waiters u.readers (before ++ after) u.deletions
              u.deletions x.space x.ref (one_less s) o.counted h (omega arith) (omega (arith, here))
              away (o.counted.bars x.space x.ref h) (λ i a. refl)
              (λ w m. o.counted.known x.ref w m);
        read = read;
        held = λ d m.
            let (map, deleting, phase) = o.held d m in
            set_state-IsHeld u.gate u.waiters u.waiters x.ref (one_less s) d (omega arith)
              (λ w z. inl z)
              (λ q. (
                rw q at deleting,
                λ f.
                    let none_read : (u.gate.states d.ref).active_readers ≡ 0 = rw f at phase in
                    let there : s.active_readers ≡ 0 = rw q at none_read in omega arith,
                λ w f a b. (a, let left : 0 < s.active_readers - 1 = ground arith in left),
              ))
              (o.held d m);
      }))

pub left_deletion-IsOrderly :
    (u : World) (before after : List Deletion) (d : Deletion)
    → u.deletions ≡ before ++ d ∷ after
    → IsOrderly u
    → IsOrderly
        (record u { gate = release_deletion d.space d.ref u.gate; deletions = before ++ after })
unfolding release_deletion
left_deletion-IsOrderly u before after d e o =
    let P = λ (y : Gate). IsOrderly (record u { gate = y; deletions = before ++ after }) in
    let s = u.gate.states d.ref in
    let (h, deleting, phase) = o.held d (rw e (In-middle before after d)) in
    let none_left : deletions_of d.space (before ++ after) ≡ 0 =
      let one : one_if s.deleting ≡ 1 = rw deleting refl in
      let total =
        sym (deletions-splice u before after d e d.space) ∙ o.counted.bars d.space d.ref h ∙ one in
      let split : 1 + deletions_of d.space (before ++ after) ≡ 1 = rw (eq_refl d.space) at total in
      omega arith in
    let base : P (set_state d.ref (stop_deleting s) u.gate) = record {
      counted =
          set_state-IsCounted u.gate u.waiters u.waiters u.readers u.readers u.deletions
            (before ++ after) d.space d.ref (stop_deleting s) o.counted h (omega arith)
            (o.counted.counts d.space d.ref h) (λ i a. refl) none_left
            (λ i a.
              sym (
                deletions-splice u before after d e i ∙ rw (other_space d.space i a) (omega arith)))
            (λ w m. o.counted.known d.ref w m);
      read = o.read;
      held = λ c m.
          let old = o.held c (rw e (In-splice before after d c m)) in
          set_state-IsHeld u.gate u.waiters u.waiters d.ref (stop_deleting s) c (omega arith)
            (λ w z. inl z)
            (λ q.
              let same : c.space ≡ d.space =
                o.counted.one_space c.space d.space d.ref (old.0 ∙ ap some q) h in
              let no =
                none-counted (λ (y : Deletion). y.space == d.space) (before ++ after) c none_left
                  m in
              let yes = (eq_iff c.space d.space).1 same in absurd cc)
            old;
    } in
    if-cases P (s.active_readers =? 0)
      (λ z.
        let none_reads : readers_of d.space u.readers ≡ 0 =
          sym (o.counted.counts d.space d.ref h)
          ∙ (let zero : s.active_readers ≡ 0 = ground arith in zero) in
        delete_entry-IsOrderly d.space
          (record u {
            gate = set_state d.ref (stop_deleting s) u.gate;
            deletions = before ++ after;
          })
          (λ y m. none-counted (λ (y : Reader). y.space == d.space) u.readers y none_reads m)
          (λ c m.
            none-counted (λ (y : Deletion). y.space == d.space) (before ++ after) c none_left m)
          base)
      (λ z. base)
