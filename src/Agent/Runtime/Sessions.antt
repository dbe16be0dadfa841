-- ===== src/Agent/Runtime/Sessions.antt =====
-- No two active runs of an `AgentRuntime` (agentRuntime.ts) share a session.
use memo_repo.Prelude.{
  map_set, map_delete, eq_iff, eq_refl, Option-cases, ◌∙◌, Option-cases, ◌∷◌, ◌==◌, sym, ap, ℕ,
  String, true, false, ◌≡◌, refl, ◌⊎◌, inl, inr, some, List, [], arith, map_get, Bool-cases,
  get-set, get-delete,
}
use mathlib.Core.Option.{some-injective}
use memo_repo.Agent.Runtime.Frame.{
  reconcile-IsSame, login_status-IsSame, IsSame, start_login-IsSame, login_started-IsSame,
  login_failed-IsSame, finish_login_change-IsSame, start_run-cases, logout-cases, release-cases,
}
use memo_repo.Agent.Runtime.Reach.{
  Act, Run, idle, followed, starts_login, login_starts, login_fails, asks_login, cancels_login,
  reconciles, logs_out, runs_end, logged_out, logout_fails, logout_ends, starts_run, releases,
  interrupts, interrupts_all, closes,
}
use memo_repo.Agent.Runtime.{
  reconcile, login_status, close, end_authentication_change, cancel_login, interrupt_all,
  logout_settles, logout_again, new_runtime, logout_at_adapter, without_session, interrupt, release,
  start_run, abort_all, Runtime, ActiveRun,
}

-- Each active run is the one that its session names.
pub record IsOwned (r : Runtime) : Type 0 where
  pub owned :
      (run : String) (a : ActiveRun)
      → map_get run r.runs ≡ some a
      → map_get a.session_id r.sessions ≡ some run

get-abort_all-eq-some :
    (run : String) (rs : List (String × ActiveRun)) (a : ActiveRun)
    → map_get run (abort_all rs) ≡ some a
    → (b : ActiveRun) × (map_get run rs ≡ some b) × (a.session_id ≡ b.session_id)
unfolding abort_all map_get
get-abort_all-eq-some run [] a h = cc
get-abort_all-eq-some run ((id, b) ∷ rs) a h = elim (Bool-cases (id == run)) [
  | inl e ↦
      let q : some (record b { aborted = true }) ≡ some a = rw e at h in
      (
        b,
        rw e refl,
        sym (
            ap (λ (x : ActiveRun). x.session_id)
              (some-injective (record b { aborted = true }) a q)),
      )
  | inr e ↦
      let q : map_get run (abort_all rs) ≡ some a = rw e at h in
      let (c, m, k) = get-abort_all-eq-some run rs a q in (c, rw e m, k)
]

IsOwned-same : {r s : Runtime} → IsSame r s → IsOwned r → IsOwned s
IsOwned-same same h = record {
  owned = λ run a m. rw same.sessions_same (h.owned run a (rw same.runs_same at m));
}

IsOwned-aborted :
    {r s : Runtime} → s.runs ≡ abort_all r.runs → s.sessions ≡ r.sessions → IsOwned r → IsOwned s
IsOwned-aborted {r} e f h = record {
  owned = λ run a m.
      let (b, k, same) = get-abort_all-eq-some run r.runs a (rw e at m) in
      rw (f, same) (h.owned run b k);
}

abbrev new_run : String → ActiveRun
new_run session = record { session_id = session; aborted = false }

-- Where the run of a session stands after it was set.
get-set_run :
    (run other : String) (v a : ActiveRun) (rs : List (String × ActiveRun))
    → map_get other (map_set run v rs) ≡ some a
    → ((run ≡ other) × (v ≡ a)) ⊎ (map_get other rs ≡ some a)
get-set_run run other v a rs m = elim (Bool-cases (run == other)) [
  | inl e ↦
      inl ((eq_iff run other).0 e, some-injective v a (ground (arith, get-set run other v rs)))
  | inr e ↦ inr (ground (arith, get-set run other v rs))
]

start_run-IsOwned :
    (run session : String) (r : Runtime) → IsOwned r → IsOwned (start_run run session r).1
start_run-IsOwned run session r h = elim (start_run-cases run session r) [
  | inl e ↦ rw e h
  | inr w ↦ record {
    owned = λ other a m.
        rw w.sessions_set
          (elim (get-set_run run other (new_run session) a r.runs (rw w.runs_set at m)) [
            | inl (e, q) ↦
                rw (sym q, sym e)
                  (get-set session session run r.sessions ∙ rw (eq_refl session) refl)
            | inr k ↦
                let o = h.owned other a k in
                ground (
                  arith,
                  get-set session a.session_id run r.sessions,
                  eq_iff session a.session_id,
                  w.session_is_free,
                )
          ]);
  }
]

get-without_session :
    (session run k v : String) (m : List (String × String))
    → map_get k m ≡ some v
    → (run == v) ≡ false
    → map_get k (without_session session run m) ≡ some v
unfolding without_session
get-without_session session run k v m h apart = elim (Option-cases (map_get session m)) [
  | inl e ↦ rw (e, without_session) h
  | inr (x, e) ↦ elim (Bool-cases (x == run)) [
    | inr q ↦ rw (e, without_session, q) h
    | inl q ↦
        rw (e, without_session, q)
          (elim (Bool-cases (session == k)) [
            | inl same ↦ cc (e, h, (eq_iff session k).0 same, (eq_iff x run).0 q, apart)
            | inr differ ↦ get-delete session k m ∙ rw differ h
          ])
  ]
]

release-IsOwned :
    (number : ℕ) (run session : String) (r : Runtime)
    → IsOwned r
    → IsOwned (release number run session r)
unfolding without_session
release-IsOwned number run session r h = elim (release-cases number run session r) [
  | inl e ↦ rw e h
  | inr w ↦ record {
    owned = λ other a m.
        let k : map_get other (map_delete run r.runs) ≡ some a = rw w.runs_less at m in
        let apart : (run == other) ≡ false = ground (arith, get-delete run other r.runs) in
        let stays : map_get other r.runs ≡ some a = ground (arith, get-delete run other r.runs) in
        let o = h.owned other a stays in
        rw w.sessions_less (get-without_session session run a.session_id other r.sessions o apart);
  }
]

interrupt-IsOwned : (run : String) (r : Runtime) → IsOwned r → IsOwned (interrupt run r)
unfolding interrupt
interrupt-IsOwned run r h = elim (Option-cases (map_get run r.runs)) [
  | inl e ↦ rw (e, interrupt) h
  | inr (b, e) ↦
      rw (e, interrupt)
        (record {
          owned = λ other a m.
              elim (get-set_run run other (record b { aborted = true }) a r.runs m) [
                | inl (q, v) ↦ rw (sym v, sym q) (h.owned run b e)
                | inr k ↦ h.owned other a k
              ];
        })
]

Act-IsOwned : {r s : Runtime} → Act r s → IsOwned r → IsOwned s
unfolding logout_at_adapter logout_again logout_settles interrupt_all cancel_login
    end_authentication_change close login_status reconcile
Act-IsOwned {r} starts_login h = IsOwned-same (start_login-IsSame r) h
Act-IsOwned {r} (login_starts task a) h = IsOwned-same (login_started-IsSame task a r) h
Act-IsOwned {r} (login_fails task) h = IsOwned-same (login_failed-IsSame task r) h
Act-IsOwned {r} (asks_login login a) h = IsOwned-same (login_status-IsSame login a r) h
Act-IsOwned {r} (cancels_login login) h = IsOwned-same (finish_login_change-IsSame (some login) r) h
Act-IsOwned {r} (reconciles login answer) h = IsOwned-same (reconcile-IsSame login answer r) h
Act-IsOwned {r} logs_out h = elim (logout-cases r) [
  | inl e ↦ rw e h
  | inr w ↦ IsOwned-aborted w.runs_aborted w.sessions_same h
]
Act-IsOwned {r} (runs_end ids q over) h = record { owned = h.owned }
Act-IsOwned {r} (logged_out q) h = IsOwned-aborted {r = r} {s = logout_again r} refl refl h
Act-IsOwned {r} (logout_fails q) h = record { owned = h.owned }
Act-IsOwned {r} (logout_ends ids q over) h = record { owned = h.owned }
Act-IsOwned {r} (starts_run run session) h = start_run-IsOwned run session r h
Act-IsOwned {r} (releases number run session) h = release-IsOwned number run session r h
Act-IsOwned {r} (interrupts run) h = interrupt-IsOwned run r h
Act-IsOwned {r} interrupts_all h = IsOwned-aborted {r = r} {s = interrupt_all r} refl refl h
Act-IsOwned {r} closes h =
    IsOwned-same {r = r} {s = close r}
      (record { runs_same = ground arith; sessions_same = ground arith }) h

Run-IsOwned : {r s : Runtime} → Run r s → IsOwned r → IsOwned s
Run-IsOwned idle h = h
Run-IsOwned (followed run act) h = Act-IsOwned act (Run-IsOwned run h)

-- Whatever happens to a runtime since it was made, two active runs of one session are one run.
pub Run-one_per_session :
    {s : Runtime}
    → Run new_runtime s
    → (run other : String) (a b : ActiveRun) → map_get run s.runs ≡ some a
    → map_get other s.runs ≡ some b
    → a.session_id ≡ b.session_id
    → run ≡ other
unfolding map_get
Run-one_per_session steps run other a b m n e =
    let h = Run-IsOwned steps (record { owned = λ run a m. cc }) in
    some-injective run other (sym (h.owned run a m) ∙ rw e (h.owned other b n))
