-- ===== src/Agent/Runtime/Epochs.antt =====
-- What a status of `AgentRuntime` (agentRuntime.ts) tells when the authentication changes meanwhile.
use memo_repo.Prelude.{
  ◌=?◌, ℕ, String, Bool, true, ◌≡◌, refl, ◌⊎◌, inl, inr, some, arith, Bool-cases,
}
use memo_repo.Agent.Runtime.Reach.{
  Act, Run, idle, followed, starts_login, login_starts, login_fails, asks_login, cancels_login,
  reconciles, logs_out, runs_end, logged_out, logout_fails, logout_ends, starts_run, releases,
  interrupts, interrupts_all, closes,
}
use memo_repo.Agent.Runtime.{
  authentication_changing_status, ProviderStatus, cancel_login, interrupt_all, Attempt,
  logout_settles, end_authentication_change, logout_again, finish_login_change, drop_login_task,
  begin_authentication_change, status, logout_at_adapter, close, interrupt, release, start_run,
  logout, reconcile, login_status, login_failed, login_started, start_login, Runtime,
}
use memo_repo.Agent.Runtime.Frame.{IsLater-trans, finish_login_change-IsLater, IsLater}

IsLater-refl : {r : Runtime} → IsLater r r
IsLater-refl = record { later = omega arith; still = λ e. refl }

start_login-IsLater : (r : Runtime) → IsLater r (start_login r).1
unfolding start_login begin_authentication_change
start_login-IsLater r = record { later = ground arith; still = λ e. ground arith }

login_started-IsLater : (task : ℕ) (a : Attempt) (r : Runtime) → IsLater r (login_started task a r)
unfolding login_started drop_login_task finish_login_change end_authentication_change
login_started-IsLater task a r = record { later = ground arith; still = λ e. ground arith }

login_failed-IsLater : (task : ℕ) (r : Runtime) → IsLater r (login_failed task r)
unfolding login_failed drop_login_task finish_login_change end_authentication_change
login_failed-IsLater task r = record { later = ground arith; still = λ e. ground arith }

login_status-IsLater :
    (login : String) (a : Attempt) (r : Runtime) → IsLater r (login_status login a r)
unfolding login_status finish_login_change end_authentication_change
login_status-IsLater login a r = record { later = ground arith; still = λ e. ground arith }

reconcile-IsLater :
    (login : String) (answer : Attempt ⊎ Bool) (r : Runtime) → IsLater r (reconcile login answer r)
unfolding reconcile finish_login_change end_authentication_change
reconcile-IsLater login (inl a) r = login_status-IsLater login a r
reconcile-IsLater login (inr b) r = record { later = ground arith; still = λ e. ground arith }

logout-IsLater : (r : Runtime) → IsLater r (logout r).1
unfolding logout begin_authentication_change
logout-IsLater r = record { later = ground arith; still = λ e. ground arith }

start_run-IsLater : (run session : String) (r : Runtime) → IsLater r (start_run run session r).1
unfolding start_run
start_run-IsLater run session r = record { later = ground arith; still = λ e. ground arith }

release-IsLater :
    (number : ℕ) (run session : String) (r : Runtime) → IsLater r (release number run session r)
unfolding release
release-IsLater number run session r = record { later = ground arith; still = λ e. ground arith }

interrupt-IsLater : (run : String) (r : Runtime) → IsLater r (interrupt run r)
unfolding interrupt
interrupt-IsLater run r = record { later = ground arith; still = λ e. ground arith }

close-IsLater : (r : Runtime) → IsLater r (close r)
unfolding close
close-IsLater r = record { later = ground arith; still = λ e. ground arith }

Act-IsLater : {r s : Runtime} → Act r s → IsLater r s
unfolding logout_at_adapter logout_again logout_settles interrupt_all cancel_login
    end_authentication_change
Act-IsLater {r} starts_login = start_login-IsLater r
Act-IsLater {r} (login_starts task a) = login_started-IsLater task a r
Act-IsLater {r} (login_fails task) = login_failed-IsLater task r
Act-IsLater {r} (asks_login login a) = login_status-IsLater login a r
Act-IsLater {r} (cancels_login login) = finish_login_change-IsLater (some login) r
Act-IsLater {r} (reconciles login answer) = reconcile-IsLater login answer r
Act-IsLater {r} logs_out = logout-IsLater r
Act-IsLater (runs_end ids q over) = record { later = omega arith; still = λ e. refl }
Act-IsLater (logged_out q) = record { later = omega arith; still = λ e. refl }
Act-IsLater (logout_fails q) = record { later = omega arith; still = λ e. ground arith }
Act-IsLater (logout_ends ids q over) = record { later = omega arith; still = λ e. ground arith }
Act-IsLater {r} (starts_run run session) = start_run-IsLater run session r
Act-IsLater {r} (releases number run session) = release-IsLater number run session r
Act-IsLater {r} (interrupts run) = interrupt-IsLater run r
Act-IsLater interrupts_all = record { later = omega arith; still = λ e. refl }
Act-IsLater {r} closes = close-IsLater r

Run-IsLater : {r s : Runtime} → Run r s → IsLater r s
Run-IsLater idle = IsLater-refl
Run-IsLater (followed run act) = IsLater-trans (Run-IsLater run) (Act-IsLater act)

-- A status that was asked for before the authentication changed, or while it did, and is answered
-- later tells that it is changing, and nothing of what the adapter says of the account.
pub status-across_change :
    {r m s : Runtime}
    → Run r m
    → Run m s
    → m.authentication_changing ≡ true
    → (answer : ProviderStatus)
    → status r.authentication_epoch answer s ≡ authentication_changing_status answer
unfolding status
status-across_change {r} {m} {s} before after changing answer =
    let p = Run-IsLater before in
    let q = Run-IsLater after in
    elim (Bool-cases (r.authentication_epoch =? s.authentication_epoch)) [
      | inl e ↦
          let same : m.authentication_epoch ≡ s.authentication_epoch =
            ground (arith, p.later, q.later) in
          let still : m.authentication_changing ≡ s.authentication_changing = q.still same in
          ground arith
      | inr e ↦ ground arith
    ]
