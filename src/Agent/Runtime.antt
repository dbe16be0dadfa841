-- ===== src/Agent/Runtime.antt =====
-- The registry of runs and the state of the authentication: `AgentRuntime` of agentRuntime.ts.
pub mod Frame
pub mod Reach
pub mod Epochs
pub mod Logout
pub mod Sessions
use memo_repo.Prelude.{
  inr, inl, ◌⊎◌, ℕ, String, suc, Bool, true, false, not, ◌&&◌, ◌||◌, Option, none, some, List, [],
  ◌∷◌, ltb, ◌=?◌, ◌==◌, if◌then◌else◌, any, map_set, map_get, map_delete, keys, length,
}
use memo_repo.Text.{is_some}

pub data Refusal : Type 0 where
  runtime_closed authentication_changes runs_active run_active session_active : Refusal

-- A run with the answer whether its signal is aborted.
pub record ActiveRun : Type 0 where
  pub session_id : String
  pub aborted : Bool

-- Where a logout is: it waits for the runs that it has aborted, for the adapter, or again for runs.
pub data LogoutTask : Type 0 where
  interrupting : List String → LogoutTask
  signing_out : LogoutTask
  interrupting_again : List String → LogoutTask

-- Promises are known by numbers: `login_start_task` is the task of the last login, `released` the
-- runs, by their numbers of start, whose `release` was called.
pub record Runtime : Type 0 where
  pub runs : List (String × ActiveRun)
  pub sessions : List (String × String)
  pub closed : Bool
  pub authentication_changing : Bool
  pub authentication_epoch : ℕ
  pub active_login_id : Option String
  pub login_start_task : Option ℕ
  pub logout_task : Option LogoutTask
  pub issued : ℕ
  pub released : List ℕ

-- A runtime that was just made.
abbrev pub new_runtime : Runtime
new_runtime = record {
  runs = [];
  sessions = [];
  closed = false;
  authentication_changing = false;
  authentication_epoch = 0;
  active_login_id = none;
  login_start_task = none;
  logout_task = none;
  issued = 0;
  released = [];
}

abbrev pub is_empty {ℓ} : {A : Type ℓ} → List A → Bool
is_empty [] = true
is_empty (_ ∷ _) = false

unfoldable pub begin_authentication_change : Runtime → Runtime
begin_authentication_change r = record r {
  authentication_changing = true;
  authentication_epoch = suc r.authentication_epoch;
}

unfoldable pub end_authentication_change : Runtime → Runtime
end_authentication_change r = record r {
  authentication_changing = false;
  authentication_epoch = suc r.authentication_epoch;
}

-- Whether both are given and differ; an empty identifier counts as none.
abbrev pub is_other_login : Option String → Option String → Bool
is_other_login none _ = false
is_other_login (some login) none = false
is_other_login (some login) (some active) =
    not (login == "") && (not (active == "") && not (active == login))

unfoldable pub finish_login_change : Option String → Runtime → Runtime
unfolding end_authentication_change
finish_login_change login r =
    if is_other_login login r.active_login_id
    then r
    else if not r.authentication_changing || is_some r.logout_task
    then r
    else end_authentication_change (record r { active_login_id = none })

-- What `startLogin` refuses, or the number of the task that it starts.
unfoldable pub start_login : Runtime → (Refusal ⊎ ℕ) × Runtime
unfolding begin_authentication_change
start_login r =
    if r.closed
    then (inl runtime_closed, r)
    else if r.authentication_changing
    then (inl authentication_changes, r)
    else if not (is_empty r.runs)
    then (inl runs_active, r)
    else let task = r.issued in
      (
        inr task,
        record (begin_authentication_change r) { login_start_task = some task; issued = suc task },
      )

-- What the adapter answers about a login.
pub record Attempt : Type 0 where
  pub login_id : String
  pub pending : Bool

abbrev is_task : ℕ → Option ℕ → Bool
is_task task none = false
is_task task (some t) = t =? task

-- `finally` of `startLogin`
unfoldable pub drop_login_task : ℕ → Runtime → Runtime
drop_login_task task r =
    if is_task task r.login_start_task then record r { login_start_task = none } else r

-- The login's promise settles: with an attempt, or with an error.
unfoldable pub login_started : ℕ → Attempt → Runtime → Runtime
unfolding finish_login_change drop_login_task
login_started task a r = drop_login_task task (
    if a.pending
    then record r { active_login_id = some a.login_id }
    else finish_login_change (some a.login_id) r)

unfoldable pub login_failed : ℕ → Runtime → Runtime
unfolding finish_login_change drop_login_task
login_failed task r = drop_login_task task (finish_login_change none r)

-- `loginStatus` behind the adapter's answer.
unfoldable pub login_status : String → Attempt → Runtime → Runtime
unfolding finish_login_change
login_status login a r = if a.pending then r else finish_login_change (some login) r

unfoldable pub cancel_login : String → Runtime → Runtime
unfolding finish_login_change
cancel_login login r = finish_login_change (some login) r

-- `reconcileActiveLogin`: the login it asks about, and what it does with the answer, which is an
-- attempt or an error with the answer whether it says 404.
unfoldable pub login_to_reconcile : Runtime → Option String
login_to_reconcile r = if is_some r.logout_task then none else elim r.active_login_id [
  | none ↦ none
  | some login ↦ if login == "" then none else some login
]

unfoldable pub reconcile : String → Attempt ⊎ Bool → Runtime → Runtime
unfolding login_status finish_login_change
reconcile login (inl a) r = login_status login a r
reconcile login (inr not_found) r = if not_found then finish_login_change (some login) r else r

-- Aborts every run.
unfoldable pub abort_all : List (String × ActiveRun) → List (String × ActiveRun)
abort_all [] = []
abort_all ((id, a) ∷ rs) = (id, record a { aborted = true }) ∷ abort_all rs

-- `logout` up to its first wait; nothing happens while one is under way.
unfoldable pub logout : Runtime → Option Refusal × Runtime
unfolding begin_authentication_change abort_all
logout r =
    if is_some r.logout_task then (none, r) else if r.closed then (some runtime_closed, r) else (
      none,
      record (begin_authentication_change r) {
        runs = abort_all r.runs;
        logout_task = some (interrupting (keys r.runs));
      },
    )

-- The runs are over: the adapter is asked to log out.
unfoldable pub logout_at_adapter : Runtime → Runtime
logout_at_adapter r = record r { logout_task = some signing_out }

-- The adapter has logged out.
unfoldable pub logout_again : Runtime → Runtime
unfolding abort_all
logout_again r = record r {
  runs = abort_all r.runs;
  logout_task = some (interrupting_again (keys r.runs));
}

-- `finally` of `logout`
unfoldable pub logout_settles : Runtime → Runtime
unfolding end_authentication_change
logout_settles r =
    end_authentication_change (record r { logout_task = none; active_login_id = none })

-- `startRun`; the number is that of the closure `release`.
unfoldable pub start_run : String → String → Runtime → (Refusal ⊎ ℕ) × Runtime
start_run run session r =
    if r.closed
    then (inl runtime_closed, r)
    else if r.authentication_changing
    then (inl authentication_changes, r)
    else if is_some (map_get run r.runs)
    then (inl run_active, r)
    else if is_some (map_get session r.sessions)
    then (inl session_active, r)
    else (
      inr r.issued,
      record r {
        runs = map_set run (record { session_id = session; aborted = false }) r.runs;
        sessions = map_set session run r.sessions;
        issued = suc r.issued;
      },
    )

abbrev pub is_run : String → Option String → Bool
is_run run none = false
is_run run (some other) = other == run

unfoldable pub without_session : String → String → List (String × String) → List (String × String)
without_session session run m = if is_run run (map_get session m) then map_delete session m else m

-- `release`
unfoldable pub release : ℕ → String → String → Runtime → Runtime
unfolding without_session
release number run session r = if any (λ n. n =? number) r.released then r else record r {
  runs = map_delete run r.runs;
  sessions = without_session session run r.sessions;
  released = number ∷ r.released;
}

-- `interrupt` up to its wait.
unfoldable pub interrupt : String → Runtime → Runtime
interrupt run r = elim (map_get run r.runs) [
  | none ↦ r
  | some a ↦ record r { runs = map_set run (record a { aborted = true }) r.runs }
]

unfoldable pub interrupt_all : Runtime → Runtime
unfolding abort_all
interrupt_all r = record r { runs = abort_all r.runs }

-- `close` up to its first wait; `interrupt_all` follows once no logout is under way.
unfoldable pub close : Runtime → Runtime
close r = if r.closed then r else record r { closed = true }

-- `AgentProviderStatus`
pub record ProviderStatus : Type 0 where
  pub configured : Bool
  pub available : Bool
  pub connected : Bool
  pub provider_id : String
  pub provider_name : String
  pub model_id : String
  pub model_name : String
  pub auth_source : Option String
  pub account_key : Option String
  pub runtime_version : String
  pub message : Option String

unfoldable pub authentication_changing_status : ProviderStatus → ProviderStatus
authentication_changing_status s = record s {
  connected = false;
  auth_source = none;
  account_key = none;
  message = some "Agent authentication is changing";
}

-- `status` behind the adapter's answer; `epoch` was read before the adapter was asked.
unfoldable pub status : ℕ → ProviderStatus → Runtime → ProviderStatus
unfolding authentication_changing_status
status epoch answer r =
    if not (epoch =? r.authentication_epoch) || r.authentication_changing
    then authentication_changing_status answer
    else answer
