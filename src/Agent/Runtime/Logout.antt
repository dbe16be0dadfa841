-- ===== src/Agent/Runtime/Logout.antt =====
-- When `logout` of `AgentRuntime` (agentRuntime.ts) asks the adapter, no run is active.
mod Calm
use memo_repo.Prelude.{
  In-All, if◌then◌else◌, get-set, get-delete, ◌||◌, not, eq_iff, sym, ℕ, ◌∙◌, ◌∷◌, ◌==◌, String,
  Bool, true, false, ◌≡◌, refl, ◌⊎◌, inl, inr, Option, none, some, List, [], arith, map_get,
  Bool-cases, Option-cases, keys, In,
}
use memo_repo.Agent.Runtime.Frame.{start_run-cases, start_login-cases, logout-cases}
use memo_repo.Agent.Runtime.Reach.{
  Act, Run, idle, followed, starts_login, login_starts, login_fails, asks_login, cancels_login,
  reconciles, logs_out, runs_end, logged_out, logout_fails, logout_ends, starts_run, releases,
  interrupts, interrupts_all, closes,
}
use memo_repo.Agent.Runtime.{
  new_runtime, close, cancel_login, interrupt_all, logout_settles, logout_again, logout_at_adapter,
  logout, start_login, interrupt, release, reconcile, login_status, login_failed, drop_login_task,
  is_some, Attempt, not, start_run, login_started, is_other_login, LogoutTask, interrupting,
  signing_out, interrupting_again, end_authentication_change, finish_login_change, abort_all,
  Runtime, ActiveRun,
}
use memo_repo.Agent.Runtime.Logout.Calm.{
  Change, kept, opened, same_runs, Runs, login_started-Change, login_status-Change, release-Change,
  abort_all-IsWithin, IsCalmRuntime, IsCalmRuntime-Change, login_failed-Change, interrupt-Change,
  no_logout, In-keys, finish_login_change-Change, IsCalm, reconcile-Change, IsIdle-within,
}

start_run-IsCalmRuntime :
    (run session : String) (r : Runtime)
    → IsCalmRuntime r
    → IsCalmRuntime (start_run run session r).1
unfolding IsCalmRuntime
start_run-IsCalmRuntime run session r h = elim (start_run-cases run session r) [
  | inl e ↦ rw e h
  | inr w ↦
      let q : IsCalm r.logout_task false r.runs = rw w.still_before at h in
      IsCalmRuntime-Change {r = r} {s = (start_run run session r).1}
        (opened (w.task_same ∙ no_logout r.logout_task r.runs q) (w.flag_same ∙ w.still_before)) h
]

calm_without_runs : (s : Runtime) → s.runs ≡ [] → s.logout_task ≡ none → IsCalmRuntime s
unfolding IsCalmRuntime IsCalm map_get
calm_without_runs s e t = rw (e, t) (λ c run. refl)

aborted-In-keys :
    (rs : Runs) (run : String) (a : ActiveRun)
    → map_get run (abort_all rs) ≡ some a
    → In run (keys rs)
aborted-In-keys rs run a m = elim (Option-cases (map_get run rs)) [
  | inl e ↦ cc (abort_all-IsWithin rs run e, m)
  | inr (b, e) ↦ In-keys run rs b e
]

start_login-IsCalmRuntime : (r : Runtime) → IsCalmRuntime r → IsCalmRuntime (start_login r).1
unfolding IsCalmRuntime
start_login-IsCalmRuntime r h = elim (start_login-cases r) [
  | inl e ↦ rw e h
  | inr w ↦
      let q : IsCalm r.logout_task false r.runs = rw w.was_still at h in
      let t : (start_login r).1.logout_task ≡ none =
        w.task_same ∙ no_logout r.logout_task r.runs q in
      calm_without_runs (start_login r).1 (w.runs_same ∙ w.no_runs) t
]

logout-IsCalmRuntime : (r : Runtime) → IsCalmRuntime r → IsCalmRuntime (logout r).1
unfolding IsCalmRuntime IsCalm
logout-IsCalmRuntime r h = elim (logout-cases r) [
  | inl e ↦ rw e h
  | inr w ↦ rw (w.task_set, w.flag_set, w.runs_aborted) (refl, aborted-In-keys r.runs)
]

Act-IsCalmRuntime : {r s : Runtime} → Act r s → IsCalmRuntime r → IsCalmRuntime s
unfolding logout_at_adapter logout_again logout_settles interrupt_all cancel_login
    end_authentication_change close IsCalmRuntime IsCalm
Act-IsCalmRuntime {r} starts_login h = start_login-IsCalmRuntime r h
Act-IsCalmRuntime {r} (login_starts task a) h =
    IsCalmRuntime-Change (login_started-Change task a r) h
Act-IsCalmRuntime {r} (login_fails task) h = IsCalmRuntime-Change (login_failed-Change task r) h
Act-IsCalmRuntime {r} (asks_login login a) h =
    IsCalmRuntime-Change (login_status-Change login a r) h
Act-IsCalmRuntime {r} (cancels_login login) h =
    IsCalmRuntime-Change (finish_login_change-Change (some login) r) h
Act-IsCalmRuntime {r} (reconciles login answer) h =
    IsCalmRuntime-Change (reconcile-Change login answer r) h
Act-IsCalmRuntime {r} logs_out h = logout-IsCalmRuntime r h
Act-IsCalmRuntime {r} (runs_end ids q over) h =
    let (c, k) : IsCalm (some (interrupting ids)) r.authentication_changing r.runs = rw q at h in
    (
      c,
      λ run. elim (Option-cases (map_get run r.runs)) [
        | inl e ↦ e
        | inr (a, e) ↦ In-All (λ id. map_get id r.runs ≡ none) ids run over (k run a e)
      ],
    )
Act-IsCalmRuntime {r} (logged_out q) h =
    let (c, i) : IsCalm (some signing_out) r.authentication_changing r.runs = rw q at h in
    (c, IsIdle-within (abort_all r.runs) r.runs (abort_all-IsWithin r.runs) i)
Act-IsCalmRuntime {r} (logout_fails q) h = λ e. cc
Act-IsCalmRuntime {r} (logout_ends ids q over) h = λ e. cc
Act-IsCalmRuntime {r} (starts_run run session) h = start_run-IsCalmRuntime run session r h
Act-IsCalmRuntime {r} (releases number run session) h =
    IsCalmRuntime-Change (release-Change number run session r) h
Act-IsCalmRuntime {r} (interrupts run) h = IsCalmRuntime-Change (interrupt-Change run r) h
Act-IsCalmRuntime {r} interrupts_all h =
    IsCalmRuntime-Change {r = r} {s = interrupt_all r} (kept refl refl (abort_all-IsWithin r.runs))
      h
Act-IsCalmRuntime {r} closes h =
    IsCalmRuntime-Change {r = r} {s = close r}
      (same_runs (ground arith) (ground arith) (ground arith)) h

Run-IsCalmRuntime : {s : Runtime} → Run new_runtime s → IsCalmRuntime s
Run-IsCalmRuntime idle = calm_without_runs new_runtime refl refl
Run-IsCalmRuntime (followed run act) = Act-IsCalmRuntime act (Run-IsCalmRuntime run)

-- While the adapter logs out, no run is active, whatever happened to the runtime since it was made
-- and whatever happens meanwhile.
pub signing_out-no_runs :
    {s : Runtime}
    → Run new_runtime s
    → s.logout_task ≡ some signing_out
    → (run : String) → map_get run s.runs ≡ none
unfolding IsCalm IsCalmRuntime
signing_out-no_runs {s} steps q =
    let h = Run-IsCalmRuntime steps in
    let (c, i) : IsCalm (some signing_out) s.authentication_changing s.runs = rw q at h in i
