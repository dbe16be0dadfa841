-- ===== src/Agent/Runtime/Frame.antt =====
-- What the operations of `AgentRuntime` (agentRuntime.ts) leave alone, and how they move the epoch.
use memo_repo.Prelude.{
  any, ◌=?◌, ◌∷◌, keys, map_set, Option-cases, ◌∙◌, ℕ, String, ◌≤◌, Bool, true, false, ◌≡◌, refl,
  ◌⊎◌, inl, inr, Option, none, some, List, [], arith, map_get, map_set, Bool-cases, Option-cases,
}
use memo_repo.Agent.Runtime.{
  reconcile, login_status, without_session, release, map_delete, abort_all, logout, interrupting,
  is_empty, start_run, Attempt, drop_login_task, begin_authentication_change, login_failed,
  login_started, start_login, end_authentication_change, Runtime, ActiveRun, finish_login_change,
}

-- The registry is as it was.
pub record IsSame (r s : Runtime) : Type 0 where
  pub runs_same : s.runs ≡ r.runs
  pub sessions_same : s.sessions ≡ r.sessions

pub finish_login_change-IsSame :
    (login : Option String) (r : Runtime) → IsSame r (finish_login_change login r)
unfolding finish_login_change end_authentication_change
finish_login_change-IsSame login r = record {
  runs_same = ground arith;
  sessions_same = ground arith;
}

pub start_login-IsSame : (r : Runtime) → IsSame r (start_login r).1
unfolding start_login begin_authentication_change
start_login-IsSame r = record { runs_same = ground arith; sessions_same = ground arith }

pub login_started-IsSame :
    (task : ℕ) (a : Attempt) (r : Runtime) → IsSame r (login_started task a r)
unfolding login_started drop_login_task finish_login_change end_authentication_change
login_started-IsSame task a r = record { runs_same = ground arith; sessions_same = ground arith }

pub login_failed-IsSame : (task : ℕ) (r : Runtime) → IsSame r (login_failed task r)
unfolding login_failed drop_login_task finish_login_change end_authentication_change
login_failed-IsSame task r = record { runs_same = ground arith; sessions_same = ground arith }

pub login_status-IsSame :
    (login : String) (a : Attempt) (r : Runtime) → IsSame r (login_status login a r)
unfolding login_status finish_login_change end_authentication_change
login_status-IsSame login a r = record { runs_same = ground arith; sessions_same = ground arith }

pub reconcile-IsSame :
    (login : String) (answer : Attempt ⊎ Bool) (r : Runtime) → IsSame r (reconcile login answer r)
unfolding reconcile
reconcile-IsSame login (inl a) r = login_status-IsSame login a r
reconcile-IsSame login (inr true) r = finish_login_change-IsSame (some login) r
reconcile-IsSame login (inr false) r = record { runs_same = refl; sessions_same = refl }

-- The epoch has not gone back, and a flag that has changed has moved it.
pub record IsLater (r s : Runtime) : Type 0 where
  pub later : r.authentication_epoch ≤ s.authentication_epoch
  pub still :
      r.authentication_epoch ≡ s.authentication_epoch
      → r.authentication_changing ≡ s.authentication_changing

pub IsLater-trans : {r s t : Runtime} → IsLater r s → IsLater s t → IsLater r t
IsLater-trans {r} {s} {t} p q = record {
  later = omega (arith, p.later, q.later);
  still = λ e.
      p.still (omega (arith, p.later, q.later, e)) ∙ q.still (omega (arith, p.later, q.later, e));
}

pub finish_login_change-IsLater :
    (login : Option String) (r : Runtime) → IsLater r (finish_login_change login r)
unfolding finish_login_change end_authentication_change
finish_login_change-IsLater login r = record { later = ground arith; still = λ e. ground arith }

-- A run that `startRun` accepts.
pub record IsStarted (run session : String) (r s : Runtime) : Type 0 where
  pub still_before : r.authentication_changing ≡ false
  pub run_is_free : map_get run r.runs ≡ none
  pub session_is_free : map_get session r.sessions ≡ none
  pub runs_set : s.runs ≡ map_set run (record { session_id = session; aborted = false }) r.runs
  pub sessions_set : s.sessions ≡ map_set session run r.sessions
  pub task_same : s.logout_task ≡ r.logout_task
  pub flag_same : s.authentication_changing ≡ r.authentication_changing

pub start_run-cases :
    (run session : String) (r : Runtime)
    → ((start_run run session r).1 ≡ r) ⊎ IsStarted run session r (start_run run session r).1
unfolding start_run
start_run-cases run session r = elim (Bool-cases r.closed) [
  | inl e ↦ inl (ground arith)
  | inr open_ ↦ elim (Bool-cases r.authentication_changing) [
    | inl e ↦ inl (ground arith)
    | inr still ↦ elim (Option-cases (map_get run r.runs)) [
      | inr (a, e) ↦ inl (ground arith)
      | inl free ↦ elim (Option-cases (map_get session r.sessions)) [
        | inr (a, e) ↦ inl (ground arith)
        | inl unused ↦ inr (record {
          still_before = still;
          run_is_free = free;
          session_is_free = unused;
          runs_set = ground arith;
          sessions_set = ground arith;
          task_same = ground arith;
          flag_same = ground arith;
        })
      ]
    ]
  ]
]

-- A login that `startLogin` accepts.
pub record IsLoginStarted (r s : Runtime) : Type 0 where
  pub was_still : r.authentication_changing ≡ false
  pub no_runs : r.runs ≡ []
  pub runs_same : s.runs ≡ r.runs
  pub task_same : s.logout_task ≡ r.logout_task

nil_of_is_empty : (rs : List (String × ActiveRun)) → is_empty rs ≡ true → rs ≡ []
nil_of_is_empty [] h = refl
nil_of_is_empty (x ∷ rs) h = cc

pub start_login-cases : (r : Runtime) → ((start_login r).1 ≡ r) ⊎ IsLoginStarted r (start_login r).1
unfolding start_login begin_authentication_change
start_login-cases r = elim (Bool-cases r.closed) [
  | inl e ↦ inl (ground arith)
  | inr e ↦ elim (Bool-cases r.authentication_changing) [
    | inl c ↦ inl (ground arith)
    | inr c ↦ elim (Bool-cases (is_empty r.runs)) [
      | inr f ↦ inl (ground arith)
      | inl f ↦ inr (record {
        was_still = c;
        no_runs = nil_of_is_empty r.runs f;
        runs_same = ground arith;
        task_same = ground arith;
      })
    ]
  ]
]

-- A logout that begins.
pub record IsLogoutBegun (r s : Runtime) : Type 0 where
  pub no_task : r.logout_task ≡ none
  pub task_set : s.logout_task ≡ some (interrupting (keys r.runs))
  pub flag_set : s.authentication_changing ≡ true
  pub runs_aborted : s.runs ≡ abort_all r.runs
  pub sessions_same : s.sessions ≡ r.sessions

pub logout-cases : (r : Runtime) → ((logout r).1 ≡ r) ⊎ IsLogoutBegun r (logout r).1
unfolding logout begin_authentication_change
logout-cases r = elim (Option-cases r.logout_task) [
  | inr (t, e) ↦ inl (ground arith)
  | inl e ↦ elim (Bool-cases r.closed) [
    | inl c ↦ inl (ground arith)
    | inr c ↦ inr (record {
      no_task = e;
      task_set = ground arith;
      flag_set = ground arith;
      runs_aborted = ground arith;
      sessions_same = ground arith;
    })
  ]
]

-- A call of `release` that is not the first is over at once.
pub record IsReleased (run session : String) (r s : Runtime) : Type 0 where
  pub runs_less : s.runs ≡ map_delete run r.runs
  pub sessions_less : s.sessions ≡ without_session session run r.sessions

pub release-cases :
    (number : ℕ) (run session : String) (r : Runtime)
    → (release number run session r ≡ r) ⊎ IsReleased run session r (release number run session r)
unfolding release
release-cases number run session r = elim (Bool-cases (any (λ n. n =? number) r.released)) [
  | inl e ↦ inl (ground arith)
  | inr e ↦ inr (record { runs_less = ground arith; sessions_less = ground arith })
]
