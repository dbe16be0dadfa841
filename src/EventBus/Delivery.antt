-- ===== src/EventBus/Delivery.antt =====
-- What `flush` of dashboardEventBus.ts hands out.
use mathlib.Core.List.{append_assoc, append-nil}
use memo_repo.Prelude.{
  inr, inl, ap, ℕ, suc, ◌≡◌, refl, sym, ◌∙◌, Bool, false, not, ◌&&◌, List, [], ◌∷◌, ◌++◌, ◌=?◌,
  arith, Bool-cases, values,
}
use memo_repo.EventBus.{
  is_empty, next_event_id, Bus, InvalidationEvent, contains, delete, deliver, call, flush,
}

-- One call of each listener, in their order.
unfoldable pub calls : InvalidationEvent → List ℕ → List (ℕ × InvalidationEvent)
calls e [] = []
calls e (l ∷ ls) = (l, e) ∷ calls e ls

call-delivered :
    (throws : ℕ → Bool) (e : InvalidationEvent) (l : ℕ) (b : Bus)
    → (call throws e l b).delivered ≡ b.delivered ++ (l, e) ∷ []
unfolding call
call-delivered throws e l b = ground arith

deliver-delivered :
    (throws : ℕ → Bool) (e : InvalidationEvent) (ls : List ℕ) (b : Bus)
    → (deliver throws e ls b).delivered ≡ b.delivered ++ calls e ls
unfolding deliver calls
deliver-delivered throws e [] b = sym (append-nil b.delivered)
deliver-delivered throws e (l ∷ ls) b =
    deliver-delivered throws e ls (call throws e l b)
    ∙ ap (λ (d : List (ℕ × InvalidationEvent)). d ++ calls e ls) (call-delivered throws e l b)
    ∙ append_assoc b.delivered ((l, e) ∷ []) (calls e ls)

contains-delete :
    (l x : ℕ) (ls : List ℕ) → contains x (delete l ls) ≡ (contains x ls && not (x =? l))
contains-delete l x [] = refl
contains-delete l x (y ∷ ls) = ground (arith, contains-delete l x ls)

call-listeners :
    (throws : ℕ → Bool) (e : InvalidationEvent) (l : ℕ) (b : Bus) (x : ℕ)
    → contains x (call throws e l b).listeners
      ≡ (contains x b.listeners && not (throws l && (x =? l)))
unfolding call
call-listeners throws e l b x = ground (arith, contains-delete l x b.listeners)

deliver-listeners :
    (throws : ℕ → Bool) (e : InvalidationEvent) (ls : List ℕ) (b : Bus) (x : ℕ)
    → contains x (deliver throws e ls b).listeners
      ≡ (contains x b.listeners && not (throws x && contains x ls))
unfolding deliver
deliver-listeners throws e [] b x = ground arith
deliver-listeners throws e (l ∷ ls) b x = elim (Bool-cases (l =? x)) [
  | inl same ↦
      let q : l ≡ x = ground arith in
      ground (
        arith,
        deliver-listeners throws e ls (call throws e l b) x,
        call-listeners throws e l b x,
        ap throws q,
      )
  | inr differ ↦
      ground
        (arith, deliver-listeners throws e ls (call throws e l b) x, call-listeners throws e l b x)
]

pub deliver-rest :
    (throws : ℕ → Bool) (e : InvalidationEvent) (ls : List ℕ) (b : Bus)
    → ((deliver throws e ls b).pending ≡ b.pending)
      × ((deliver throws e ls b).flush_timer ≡ b.flush_timer)
unfolding deliver call
deliver-rest throws e [] b = (refl, refl)
deliver-rest throws e (l ∷ ls) b =
    let (p, t) = deliver-rest throws e ls (call throws e l b) in
    (p ∙ ground arith, t ∙ ground arith)

-- The event that a flush at the time `now` makes of what waits.
abbrev pub flushed_event : ℕ → Bus → InvalidationEvent
flushed_event now b = record {
  event_id = (b.instance_id, suc b.sequence);
  occurred_at = now;
  resources = values b.pending;
}

-- A flush of a bus on which something waits calls each listener once, in their order, with one event
-- that holds all of it, leaves nothing waiting and no timer, and drops just the listeners that throw.
pub flush-delivers :
    (throws : ℕ → Bool) (now : ℕ) (b : Bus)
    → is_empty b.pending ≡ false
    → let c = flush throws now b in
      (c.delivered ≡ b.delivered ++ calls (flushed_event now b) b.listeners)
      × (c.pending ≡ [])
      × (c.flush_timer ≡ false)
      × ((l : ℕ) → contains l c.listeners ≡ (contains l b.listeners && not (throws l)))
unfolding flush next_event_id
flush-delivers throws now b h =
    let e = flushed_event now b in
    let numbered : Bus = record b {
      flush_timer = false;
      pending = [];
      sequence = suc b.sequence;
    } in
    let (p, t) = deliver-rest throws e b.listeners numbered in
    rw h (
      deliver-delivered throws e b.listeners numbered,
      p,
      t,
      λ l. ground (arith, deliver-listeners throws e b.listeners numbered l),
    )
