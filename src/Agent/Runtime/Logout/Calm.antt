-- ===== src/Agent/Runtime/Logout/Calm.antt =====
-- What a logout waits for, and the operations that keep the task and the flag of a logout and start no run.
use memo_repo.Prelude.{
  if◌then◌else◌, get-set, get-delete, ◌||◌, not, eq_iff, sym, ℕ, ◌∙◌, ◌∷◌, ◌==◌, String, Bool, true,
  false, ◌≡◌, refl, ◌⊎◌, inl, inr, Option, none, some, List, [], arith, map_get, Bool-cases,
  Option-cases, keys, In,
}
use memo_repo.Agent.Runtime.{
  interrupt, release, reconcile, login_status, login_failed, drop_login_task, is_some, Attempt, not,
  login_started, is_other_login, LogoutTask, interrupting, signing_out, interrupting_again,
  end_authentication_change, finish_login_change, abort_all, Runtime, ActiveRun,
}

abbrev pub Runs : Type 0
Runs = List (String × ActiveRun)

abbrev pub IsIdle : Runs → Type 0
IsIdle rs = (run : String) → map_get run rs ≡ none

-- While a logout waits for runs, the active ones are among them; from then on, and while only a
-- login changes the authentication, there are none.
unfoldable pub IsCalm : Option LogoutTask → Bool → Runs → Type 0
IsCalm none changing rs = changing ≡ true → IsIdle rs
IsCalm (some (interrupting ids)) changing rs =
    (changing ≡ true) × ((run : String) (a : ActiveRun) → map_get run rs ≡ some a → In run ids)
IsCalm (some signing_out) changing rs = (changing ≡ true) × IsIdle rs
IsCalm (some (interrupting_again ids)) changing rs = (changing ≡ true) × IsIdle rs

abbrev IsWithin : Runs → Runs → Type 0
IsWithin qs rs = (run : String) → map_get run rs ≡ none → map_get run qs ≡ none

pub IsIdle-within : (qs rs : Runs) → IsWithin qs rs → IsIdle rs → IsIdle qs
IsIdle-within qs rs w i = λ run. w run (i run)

IsCalm-within :
    (task : Option LogoutTask) (changing : Bool) (qs rs : Runs)
    → IsWithin qs rs
    → IsCalm task changing rs
    → IsCalm task changing qs
unfolding IsCalm
IsCalm-within none changing qs rs w h = λ c. IsIdle-within qs rs w (h c)
IsCalm-within (some (interrupting ids)) changing qs rs w (c, k) = (
  c,
  λ run a m. elim (Option-cases (map_get run rs)) [
    | inl e ↦ cc (w run e, m)
    | inr (b, e) ↦ k run b e
  ],
)
IsCalm-within (some signing_out) changing qs rs w (c, i) = (c, IsIdle-within qs rs w i)
IsCalm-within (some (interrupting_again ids)) changing qs rs w (c, i) = (c, IsIdle-within qs rs w i)

-- A runtime at a standstill has no logout under way.
pub no_logout : (task : Option LogoutTask) (rs : Runs) → IsCalm task false rs → task ≡ none
unfolding IsCalm
no_logout none rs h = refl
no_logout (some (interrupting ids)) rs (c, k) = cc
no_logout (some signing_out) rs (c, k) = cc
no_logout (some (interrupting_again ids)) rs (c, k) = cc

unfoldable pub IsCalmRuntime : Runtime → Type 0
IsCalmRuntime r = IsCalm r.logout_task r.authentication_changing r.runs

pub abort_all-IsWithin : (rs : Runs) → IsWithin (abort_all rs) rs
unfolding abort_all map_get
abort_all-IsWithin [] run h = h
abort_all-IsWithin ((id, a) ∷ rs) run h = elim (Bool-cases (id == run)) [
  | inl e ↦ cc (rw e at h)
  | inr e ↦ let q : map_get run rs ≡ none = rw e at h in rw e (abort_all-IsWithin rs run q)
]

pub In-keys :
    (run : String) (rs : Runs) (a : ActiveRun) → map_get run rs ≡ some a → In run (keys rs)
unfolding map_get
In-keys run [] a h = cc
In-keys run ((id, b) ∷ rs) a h = elim (Bool-cases (id == run)) [
  | inl e ↦ inl (sym ((eq_iff id run).0 e))
  | inr e ↦ let q : map_get run rs ≡ some a = rw e at h in inr (In-keys run rs a q)
]

-- Most operations keep the task and the flag and start no run, or open the runtime again.
pub data Change (r s : Runtime) : Type 0 where
  kept :
      s.logout_task ≡ r.logout_task
      → s.authentication_changing ≡ r.authentication_changing
      → IsWithin s.runs r.runs
      → Change r s
  opened : s.logout_task ≡ none → s.authentication_changing ≡ false → Change r s

pub IsCalmRuntime-Change : {r s : Runtime} → Change r s → IsCalmRuntime r → IsCalmRuntime s
unfolding IsCalmRuntime IsCalm
IsCalmRuntime-Change {r} {s} (kept t c w) h =
    rw (t, c) (IsCalm-within r.logout_task r.authentication_changing s.runs r.runs w h)
IsCalmRuntime-Change {r} {s} (opened t c) h = rw (t, c) (λ e. cc)

pub same_runs :
    {r s : Runtime}
    → s.logout_task ≡ r.logout_task
    → s.authentication_changing ≡ r.authentication_changing
    → s.runs ≡ r.runs
    → Change r s
same_runs t c e = kept t c (λ run h. rw e h)

pub finish_login_change-Change :
    (login : Option String) (r : Runtime) → Change r (finish_login_change login r)
unfolding finish_login_change end_authentication_change
finish_login_change-Change login r = elim (Bool-cases (is_other_login login r.active_login_id)) [
  | inl other ↦ same_runs (ground arith) (ground arith) (ground arith)
  | inr known ↦ elim (Bool-cases (not r.authentication_changing || is_some r.logout_task)) [
    | inl e ↦ same_runs (ground arith) (ground arith) (ground arith)
    | inr e ↦
        opened
          (elim (Option-cases r.logout_task) [ inl q ↦ ground arith | inr (t, q) ↦ ground arith ])
          (ground arith)
  ]
]

Change-trans : {r s t : Runtime} → Change r s → Change s t → Change r t
Change-trans (kept t c w) (kept t' c' w') = kept (t' ∙ t) (c' ∙ c) (λ run h. w' run (w run h))
Change-trans (opened t c) (kept t' c' w') = opened (t' ∙ t) (c' ∙ c)
Change-trans _ (opened t c) = opened t c

drop_login_task-Change : (task : ℕ) (r : Runtime) → Change r (drop_login_task task r)
unfolding drop_login_task
drop_login_task-Change task r = same_runs (ground arith) (ground arith) (ground arith)

attempt-Change :
    (a : Attempt) (r : Runtime)
    → Change r (
        if a.pending
        then record r { active_login_id = some a.login_id }
        else finish_login_change (some a.login_id) r)
attempt-Change a r = elim (Bool-cases a.pending) [
  | inl e ↦
      simp e (same_runs {r = r} {s = record r { active_login_id = some a.login_id }} refl refl refl)
  | inr e ↦ simp e (finish_login_change-Change (some a.login_id) r)
]

pub login_started-Change :
    (task : ℕ) (a : Attempt) (r : Runtime) → Change r (login_started task a r)
unfolding login_started
login_started-Change task a r = Change-trans (attempt-Change a r) (drop_login_task-Change task _)

pub login_failed-Change : (task : ℕ) (r : Runtime) → Change r (login_failed task r)
unfolding login_failed
login_failed-Change task r =
    Change-trans (finish_login_change-Change none r) (drop_login_task-Change task _)

pub login_status-Change :
    (login : String) (a : Attempt) (r : Runtime) → Change r (login_status login a r)
unfolding login_status
login_status-Change login a r = elim (Bool-cases a.pending) [
  | inl e ↦ simp e (same_runs {s = r} refl refl refl)
  | inr e ↦ simp e (finish_login_change-Change (some login) r)
]

pub reconcile-Change :
    (login : String) (answer : Attempt ⊎ Bool) (r : Runtime) → Change r (reconcile login answer r)
unfolding reconcile
reconcile-Change login (inl a) r = login_status-Change login a r
reconcile-Change login (inr true) r = finish_login_change-Change (some login) r
reconcile-Change login (inr false) r = same_runs refl refl refl

pub release-Change :
    (number : ℕ) (run session : String) (r : Runtime) → Change r (release number run session r)
unfolding release
release-Change number run session r =
    kept (ground arith) (ground arith) (λ other h. ground (arith, get-delete run other r.runs))

pub interrupt-Change : (run : String) (r : Runtime) → Change r (interrupt run r)
unfolding interrupt
interrupt-Change run r = elim (Option-cases (map_get run r.runs)) [
  | inl e ↦ rw (e, interrupt) (same_runs {s = r} refl refl refl)
  | inr (a, e) ↦
      rw (e, interrupt)
        (kept refl refl (λ other h.
          ground (arith, eq_iff run other, get-set run other (record a { aborted = true }) r.runs)))
]
