-- ===== src/EventBus/Timer.antt =====
-- The timer of `DashboardEventBus` (dashboardEventBus.ts) and what waits for it.
use memo_repo.Prelude.{
  any, ℕ, String, ◌≡◌, refl, ◌∙◌, Bool, false, not, ◌||◌, List, [], ◌∷◌, ◌==◌, arith, Bool-cases,
  inl, inr, map_get, map_set, get-set,
}
use memo_repo.Text.{is_some}
use memo_repo.EventBus.{
  next_event_id, Bus, Resource, is_empty, publish, subscribe, unsubscribe, close, flush, put_all,
  normalize_resource, resource_key,
}
use memo_repo.EventBus.Delivery.{flush-delivers}

-- What may happen to a bus; the calls of `next_event_id` come from the routes.
pub data BusAct (b : Bus) : Bus → Type 0 where
  publishes : (rs : List Resource) → BusAct b (publish rs b)
  subscribes : (l : ℕ) → BusAct b (subscribe l b)
  unsubscribes : (l : ℕ) → BusAct b (unsubscribe l b)
  numbers : BusAct b (next_event_id b).1
  fires : (throws : ℕ → Bool) (now : ℕ) → BusAct b (flush throws now b)
  closes : BusAct b (close b)

pub data BusRun (b : Bus) : Bus → Type 0 where
  quiet : BusRun b b
  next : {c d : Bus} → BusRun b c → BusAct c d → BusRun b d

abbrev pub new_bus : String → Bus
new_bus id = record {
  instance_id = id;
  sequence = 0;
  listeners = [];
  pending = [];
  flush_timer = false;
  delivered = [];
}

IsArmed : Bus → Type 0
IsArmed b = b.flush_timer ≡ not (is_empty b.pending)

map_set-nonempty :
    (k : String) (v : Resource) (m : List (String × Resource)) → is_empty (map_set k v m) ≡ false
unfolding map_set
map_set-nonempty k v [] = refl
map_set-nonempty k v ((j, w) ∷ m) = ground arith

put_all-nonempty :
    (rs : List Resource) (m : List (String × Resource))
    → is_empty m ≡ false
    → is_empty (put_all rs m) ≡ false
unfolding put_all map_set
put_all-nonempty [] m h = h
put_all-nonempty (r ∷ rs) m h =
    put_all-nonempty rs (map_set (resource_key (normalize_resource r)) (normalize_resource r) m)
      (map_set-nonempty (resource_key (normalize_resource r)) (normalize_resource r) m)

flush-IsArmed : (throws : ℕ → Bool) (now : ℕ) (b : Bus) → IsArmed (flush throws now b)
unfolding IsArmed flush next_event_id
flush-IsArmed throws now b = elim (Bool-cases (is_empty b.pending)) [
  | inl e ↦ ground arith
  | inr e ↦ let (o, p, t, k) = flush-delivers throws now b e in t ∙ rw p refl
]

publish-IsArmed : (rs : List Resource) (b : Bus) → IsArmed b → IsArmed (publish rs b)
unfolding IsArmed publish
publish-IsArmed rs b h = elim (Bool-cases (is_empty b.pending)) [
  | inl e ↦ ground arith
  | inr e ↦ ground (arith, put_all-nonempty rs b.pending e)
]

BusAct-IsArmed : {b c : Bus} → BusAct b c → IsArmed b → IsArmed c
unfolding IsArmed subscribe unsubscribe next_event_id close
BusAct-IsArmed {b} (publishes rs) h = publish-IsArmed rs b h
BusAct-IsArmed {b} (subscribes l) h = ground arith
BusAct-IsArmed {b} (unsubscribes l) h = h
BusAct-IsArmed {b} numbers h = h
BusAct-IsArmed {b} (fires throws now) h = flush-IsArmed throws now b
BusAct-IsArmed {b} closes h = refl

-- Whatever happens to a bus since it was made, its timer is armed if and only if something waits:
-- nothing that was published waits for a timer that nobody set.
pub BusRun-armed :
    {id : String} {b : Bus} → BusRun (new_bus id) b → b.flush_timer ≡ not (is_empty b.pending)
unfolding IsArmed
BusRun-armed quiet = refl
BusRun-armed (next run act) = BusAct-IsArmed act (BusRun-armed run)

abbrev pub is_key_of : String → Resource → Bool
is_key_of k r = resource_key (normalize_resource r) == k

get-put_all :
    (k : String) (rs : List Resource) (m : List (String × Resource))
    → is_some (map_get k (put_all rs m)) ≡ (any (is_key_of k) rs || is_some (map_get k m))
unfolding put_all
get-put_all k [] m = refl
get-put_all k (r ∷ rs) m =
    let n = normalize_resource r in
    ground (arith, get-put_all k rs (map_set (resource_key n) n m), get-set (resource_key n) k n m)

-- After a publication, just the keys wait that waited before and those of its resources: nothing is
-- lost before the next flush, and nothing else is told.
pub publish-pending :
    (rs : List Resource) (b : Bus) (k : String)
    → is_some (map_get k (publish rs b).pending)
      ≡ (any (is_key_of k) rs || is_some (map_get k b.pending))
unfolding publish
publish-pending rs b k =
    let e : (publish rs b).pending ≡ put_all rs b.pending = ground arith in
    rw e (get-put_all k rs b.pending)
