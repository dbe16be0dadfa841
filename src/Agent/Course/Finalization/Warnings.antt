-- ===== src/Agent/Course/Finalization/Warnings.antt =====
-- What the callbacks make of a course, and that one at its bounds has been asked to finish.
use memo_repo.Prelude.{ℕ, String, suc, ◌≤◌, ◌≡◌, true, false, Option, leb, arith}
use memo_repo.Text.{is_some}
use memo_repo.Agent.Limits.{research_tool_calls}
use memo_repo.Agent.Course.{
  AbortReason, interrupt_run, abort, deadline_passes, observe_provider_activity, ask_finalization,
  tool_turn, request_finalization, delta, provider_turn, tool_answers, request_tool, Course,
  ToolResult, tool_value, tool_error, Observation,
}

-- What the callbacks make of a course, in any order; the number counts the calls of tools.
pub data Progress (c : Course) : ℕ → Course → Type 0 where
  begun : Progress c 0 c
  called :
      {n : ℕ} {d : Course}
      → Progress c n d
      → (signature : String) → (request_tool signature d).0 ≡ true
      → Progress c (suc n) (request_tool signature d).1
  refused :
      {n : ℕ} {d : Course}
      → Progress c n d
      → (signature : String) → (request_tool signature d).0 ≡ false
      → Progress c n (request_tool signature d).1
  answered :
      {n : ℕ} {d : Course} → Progress c n d → (t : ToolResult) → Progress c n (tool_answers t d)
  turned :
      {n : ℕ} {d : Course}
      → Progress c n d
      → (now : ℕ) (o : Observation) → Progress c n (provider_turn now o d)
  wrote : {n : ℕ} {d : Course} → Progress c n d → (now : ℕ) → Progress c n (delta now d)
  asked : {n : ℕ} {d : Course} → Progress c n d → (now : ℕ) → Progress c n (ask_finalization now d)
  timed_out : {n : ℕ} {d : Course} → Progress c n d → Progress c n (deadline_passes d)
  stopped : {n : ℕ} {d : Course} → Progress c n d → Progress c n (interrupt_run d)

-- A course that has reached one of its bounds has been asked to finish.
pub record IsWarned (d : Course) : Type 0 where
  pub some_errors : 1 ≤ d.limits.max_consecutive_tool_errors
  pub some_rounds : 1 ≤ d.limits.max_no_progress_rounds
  pub spent :
      leb (research_tool_calls d.limits) d.tool_calls ≡ true → is_some d.finalization_reason ≡ true
  pub erring :
      leb d.limits.max_consecutive_tool_errors d.consecutive_tool_errors ≡ true
      → is_some d.finalization_reason ≡ true
  pub stuck :
      leb d.limits.max_no_progress_rounds d.no_progress_rounds ≡ true
      → is_some d.finalization_reason ≡ true

request_tool-IsWarned :
    (signature : String) (d : Course) → IsWarned d → IsWarned (request_tool signature d).1
unfolding request_tool request_finalization research_tool_calls
request_tool-IsWarned signature d h = record {
  some_errors = let k = h.some_errors in ground arith;
  some_rounds = let k = h.some_rounds in ground arith;
  spent = λ e. ground arith;
  erring = λ e. let k = h.erring in ground arith;
  stuck = λ e. let k = h.stuck in let p = h.some_rounds in ground arith;
}

tool_answers-IsWarned : (t : ToolResult) (d : Course) → IsWarned d → IsWarned (tool_answers t d)
unfolding tool_answers request_finalization
tool_answers-IsWarned (tool_value text) d h = record {
  some_errors = h.some_errors;
  some_rounds = h.some_rounds;
  spent = h.spent;
  erring = λ e. let k = h.some_errors in ground arith;
  stuck = h.stuck;
}
tool_answers-IsWarned tool_error d h = record {
  some_errors = let k = h.some_errors in ground arith;
  some_rounds = let k = h.some_rounds in ground arith;
  spent = λ e. let k = h.spent in ground arith;
  erring = λ e. ground arith;
  stuck = λ e. let k = h.stuck in let p = h.some_rounds in ground arith;
}

provider_turn-IsWarned :
    (now : ℕ) (o : Observation) (d : Course) → IsWarned d → IsWarned (provider_turn now o d)
unfolding provider_turn tool_turn request_finalization observe_provider_activity abort
provider_turn-IsWarned now o d h = record {
  some_errors = let k = h.some_errors in ground arith;
  some_rounds = let k = h.some_rounds in ground arith;
  spent = λ e. let k = h.spent in ground arith;
  erring = λ e. let k = h.erring in ground arith;
  stuck = λ e. let k = h.stuck in let p = h.some_rounds in ground arith;
}

ask_finalization-IsWarned : (now : ℕ) (d : Course) → IsWarned d → IsWarned (ask_finalization now d)
unfolding ask_finalization request_finalization
ask_finalization-IsWarned now d h = record {
  some_errors = let k = h.some_errors in ground arith;
  some_rounds = let k = h.some_rounds in ground arith;
  spent = λ e. let k = h.spent in ground arith;
  erring = λ e. let k = h.erring in ground arith;
  stuck = λ e. let k = h.stuck in ground arith;
}

-- The time of the first event and the signal do not matter.
IsWarned-elsewhere :
    (d : Course) (first : Option ℕ) (why : Option AbortReason)
    → IsWarned d
    → IsWarned (record d { time_to_first_provider_event = first; aborted = why })
IsWarned-elsewhere d first why h = record {
  some_errors = h.some_errors;
  some_rounds = h.some_rounds;
  spent = h.spent;
  erring = h.erring;
  stuck = h.stuck;
}

pub Progress-IsWarned : {c d : Course} {n : ℕ} → Progress c n d → IsWarned c → IsWarned d
unfolding delta observe_provider_activity deadline_passes interrupt_run abort
Progress-IsWarned begun h = h
Progress-IsWarned (called {d = d} p s q) h = request_tool-IsWarned s d (Progress-IsWarned p h)
Progress-IsWarned (refused {d = d} p s q) h = request_tool-IsWarned s d (Progress-IsWarned p h)
Progress-IsWarned (answered {d = d} p t) h = tool_answers-IsWarned t d (Progress-IsWarned p h)
Progress-IsWarned (turned {d = d} p now o) h =
    provider_turn-IsWarned now o d (Progress-IsWarned p h)
Progress-IsWarned (wrote {d = d} p now) h = IsWarned-elsewhere d _ d.aborted (Progress-IsWarned p h)
Progress-IsWarned (asked {d = d} p now) h = ask_finalization-IsWarned now d (Progress-IsWarned p h)
Progress-IsWarned (timed_out {d = d} p) h =
    IsWarned-elsewhere d d.time_to_first_provider_event _ (Progress-IsWarned p h)
Progress-IsWarned (stopped {d = d} p) h =
    IsWarned-elsewhere d d.time_to_first_provider_event _ (Progress-IsWarned p h)
