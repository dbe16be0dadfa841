-- ===== src/Agent/Runtime/Reach.antt =====
-- What may happen to an `AgentRuntime` (agentRuntime.ts): its methods, the answers of its adapter and
-- the ends of its runs, in any order that its waits allow.
use memo_repo.Prelude.{ℕ, String, Bool, ◌≡◌, ◌⊎◌, none, some, List, All, map_get}
use memo_repo.Agent.Runtime.{
  close, interrupt_all, interrupt, release, start_run, interrupting_again, logout_settles,
  logout_again, signing_out, logout_at_adapter, interrupting, logout, reconcile, cancel_login,
  login_status, login_failed, login_started, Attempt, start_login, Runtime,
}

-- Whether the runs of these names are over.
abbrev pub AreOver : List String → Runtime → Type 0
AreOver ids r = All (λ id. map_get id r.runs ≡ none) ids

-- A wait of `logout` for runs ends when all of them are over.
pub data Act (r : Runtime) : Runtime → Type 0 where
  starts_login : Act r (start_login r).1
  login_starts : (task : ℕ) (a : Attempt) → Act r (login_started task a r)
  login_fails : (task : ℕ) → Act r (login_failed task r)
  asks_login : (login : String) (a : Attempt) → Act r (login_status login a r)
  cancels_login : (login : String) → Act r (cancel_login login r)
  reconciles : (login : String) (answer : Attempt ⊎ Bool) → Act r (reconcile login answer r)
  logs_out : Act r (logout r).1
  runs_end :
      (ids : List String)
      → r.logout_task ≡ some (interrupting ids)
      → AreOver ids r
      → Act r (logout_at_adapter r)
  logged_out : r.logout_task ≡ some signing_out → Act r (logout_again r)
  logout_fails : r.logout_task ≡ some signing_out → Act r (logout_settles r)
  logout_ends :
      (ids : List String)
      → r.logout_task ≡ some (interrupting_again ids)
      → AreOver ids r
      → Act r (logout_settles r)
  starts_run : (run session : String) → Act r (start_run run session r).1
  releases : (number : ℕ) (run session : String) → Act r (release number run session r)
  interrupts : (run : String) → Act r (interrupt run r)
  interrupts_all : Act r (interrupt_all r)
  closes : Act r (close r)

pub data Run (r : Runtime) : Runtime → Type 0 where
  idle : Run r r
  followed : {s t : Runtime} → Run r s → Act s t → Run r t
