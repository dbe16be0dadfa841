-- ===== src/Jobs/Runner.antt =====
-- The state of `JobRunner` (jobRunner.ts), its clock and identifiers, and what it sends out.
use Prim.Native.String
use memo_repo.Prelude.{◌≡◌, refl, ◌⊎◌, inl, inr, ℕ, String, suc, Bool, Option, List}
use memo_repo.EventBus.{Bus}
use memo_repo.Jobs.Store.{Database, JobEvent}

-- What the runner takes from Node: `randomUUID` without its dashes and the time, at each draw, the
-- digest of a text, and the canonical text of the JSON that a text holds, `stableJsonStringify(JSON.parse(text))`,
-- or none where `JSON.parse` throws.
pub record Env : Type 0 where
  pub uuid : ℕ → String
  pub time : ℕ → ℕ
  pub sha256 : String → String
  pub canonical : String → Option String

pub data Failure : Type 0 where
  job_not_found not_retryable not_pending no_controller bad_payload : Failure
  bad_dependency_id empty_fingerprint : Failure
  unique_violation foreign_key_violation check_violation : Failure

pub data Result {ℓ} (A : Type ℓ) : Type ℓ where
  ok : A → Result A
  err : Failure → Result A

-- The maps are association lists in insertion order. `active_controllers` holds for each job
-- whether its signal is aborted. `settling` counts the runs that have ended and whose `finally`
-- callback in `tick` still waits. `emitted` holds what `events.emit` sent, oldest first.
pub record Runner : Type 0 where
  pub env : Env
  pub draws : ℕ
  pub db : Database
  pub in_transaction : Bool
  pub handlers : List String
  pub concurrency : ℕ
  pub timer : Bool
  pub active_jobs : ℕ
  pub settling : ℕ
  pub recovered_running_jobs : Bool
  pub log_event_counts : List (String × ℕ)
  pub saturated_log_jobs : List String
  pub active_controllers : List (String × Bool)
  pub pending_log_events : List (String × List JobEvent)
  pub log_flush_timer : Bool
  pub atomic_notifications : Option (List JobEvent)
  pub defer_tick_depth : ℕ
  pub tick_requested : Bool
  pub dashboard_events : Option Bus
  pub emitted : List JobEvent

-- `createId(prefix)` and `nowIso()` at the present draw; `drawn` moves on.
abbrev pub create_id : String → Runner → String
create_id prefix r = String.◌++◌ prefix (String.◌++◌ "_" (r.env.uuid r.draws))

abbrev pub now : Runner → ℕ
now r = r.env.time r.draws

abbrev pub drawn : Runner → Runner
drawn r = record r { draws = suc r.draws }

infixl 5 ◌>>=◌
abbrev pub ◌>>=◌ {ℓ κ} : {A : Type ℓ} {B : Type κ} → Result A → (A → Result B) → Result B
err e >>= next = err e
ok result >>= next = next result

pub Result-cases {ℓ} :
    {A : Type ℓ} (given : Result A)
    → ((result : A) × (given ≡ ok result)) ⊎ ((e : Failure) × (given ≡ err e))
Result-cases (ok result) = inl (result, refl)
Result-cases (err e) = inr (e, refl)

-- What a chain that succeeds went through.
pub >>=-eq-ok :
    {A B : Type 0} (first : Result A) (next : A → Result B) {last : B}
    (went : (first >>= next) ≡ ok last)
    → (middle : A) × (first ≡ ok middle) × (next middle ≡ ok last)
>>=-eq-ok (err e) next went = cc
>>=-eq-ok (ok middle) next went = (middle, refl, went)
