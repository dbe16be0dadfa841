-- ===== src/EventBus/Tests.antt =====
-- A small bus, and the theorems on it.
use memo_repo.Prelude.{
  any, ◌||◌, ℕ, Bool, false, not, ◌≡◌, ◌&&◌, ◌++◌, ◌=?◌, refl, none, some, [], ◌∷◌, map_get,
  map_set,
}
use memo_repo.Text.{is_some}
use memo_repo.EventBus.{
  Bus, Resource, jobs, is_empty, publish, subscribe, flush, contains, put_all, normalize_resource,
  resource_key,
}
use memo_repo.EventBus.Delivery.{flush-delivers, calls, flushed_event}
use memo_repo.EventBus.Timer.{
  quiet, next, subscribes, publishes, new_bus, BusRun-armed, publish-pending, is_key_of,
}

bus_steps : Unit {0}
unfolding publish subscribe put_all normalize_resource resource_key map_get map_set flush
bus_steps = tt

abbrev all_jobs : Resource
all_jobs = record { kind = jobs; space_id = some ""; job_id = none; chat_id = none }

abbrev watched : Bus
watched = subscribe 7 (new_bus "b")

abbrev busy : Bus
busy = publish (all_jobs ∷ all_jobs ∷ []) watched

BusRun-armed_example : busy.flush_timer ≡ not (is_empty busy.pending)
BusRun-armed_example =
    BusRun-armed {id = "b"} {b = busy}
      (next {c = watched} (next quiet (subscribes 7)) (publishes (all_jobs ∷ all_jobs ∷ [])))

publish-pending_example :
    is_some (map_get "k" (publish (all_jobs ∷ []) watched).pending)
    ≡ (any (is_key_of "k") (all_jobs ∷ []) || is_some (map_get "k" watched.pending))
publish-pending_example = publish-pending (all_jobs ∷ []) watched "k"

flush-delivers_example :
    let throws : ℕ → Bool = λ l. l =? 7 in
    let c = flush throws 3 busy in
    (c.delivered ≡ busy.delivered ++ calls (flushed_event 3 busy) busy.listeners)
    × (c.pending ≡ [])
    × (c.flush_timer ≡ false)
    × ((l : ℕ) → contains l c.listeners ≡ (contains l busy.listeners && not (throws l)))
unfolding bus_steps
flush-delivers_example = flush-delivers (λ l. l =? 7) 3 busy refl
