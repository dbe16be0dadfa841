-- ===== src/Agent/Course/Finalization.antt =====
-- The budget of a run: how often `execute` (agentRuntime.ts) lets a tool be called, and when it asks
-- the provider to finish.
pub mod Warnings
use memo_repo.Prelude.{
  ◌∙◌, ap, ap, ℕ, String, suc, ◌≤◌, ◌≡◌, refl, true, false, ◌||◌, Option, leb, arith,
}
use memo_repo.Text.{is_some}
use memo_repo.Agent.Limits.{Limits, research_tool_calls}
use memo_repo.Agent.Course.{
  new_course, AbortReason, interrupt_run, abort, deadline_passes, observe_provider_activity,
  ask_finalization, tool_turn, request_finalization, delta, provider_turn, tool_answers,
  request_tool, Course, ToolResult, tool_value, tool_error, Observation,
}
use memo_repo.Agent.Course.Finalization.Warnings.{
  Progress, begun, called, refused, answered, turned, wrote, asked, timed_out, stopped, IsWarned,
  Progress-IsWarned,
}

-- The calls that were let through.
record IsCounted (l : Limits) (n : ℕ) (d : Course) : Type 0 where
  same_limits : d.limits ≡ l
  counted : n ≤ d.tool_calls
  bounded : n ≤ l.max_tool_calls

request_tool-IsCounted :
    (l : Limits) (n : ℕ) (signature : String) (d : Course)
    → IsCounted l n d
    → (request_tool signature d).0 ≡ true
    → IsCounted l (suc n) (request_tool signature d).1
unfolding request_tool request_finalization
request_tool-IsCounted l n signature d h q =
    let e = h.same_limits in
    let k = h.counted in
    let m : d.limits.max_tool_calls ≡ l.max_tool_calls = ap (λ (x : Limits). x.max_tool_calls) e in
    record { same_limits = ground arith; counted = ground arith; bounded = ground arith }

-- Where the limits and the count of tool calls are as they were.
IsCounted-same :
    {l : Limits} {n : ℕ} {d e : Course}
    → e.limits ≡ d.limits
    → d.tool_calls ≤ e.tool_calls
    → IsCounted l n d
    → IsCounted l n e
IsCounted-same p q h = record {
  same_limits = p ∙ h.same_limits;
  counted = omega (arith, q, h.counted);
  bounded = h.bounded;
}

request_tool-grows :
    (signature : String) (d : Course)
    → ((request_tool signature d).1.limits ≡ d.limits)
      × (d.tool_calls ≤ (request_tool signature d).1.tool_calls)
unfolding request_tool request_finalization
request_tool-grows signature d = (ground arith, ground arith)

tool_answers-keeps :
    (t : ToolResult) (d : Course)
    → ((tool_answers t d).limits ≡ d.limits) × (d.tool_calls ≤ (tool_answers t d).tool_calls)
unfolding tool_answers request_finalization
tool_answers-keeps (tool_value text) d = (ground arith, ground arith)
tool_answers-keeps tool_error d = (ground arith, ground arith)

provider_turn-keeps :
    (now : ℕ) (o : Observation) (d : Course)
    → ((provider_turn now o d).limits ≡ d.limits)
      × (d.tool_calls ≤ (provider_turn now o d).tool_calls)
unfolding provider_turn tool_turn request_finalization observe_provider_activity abort
provider_turn-keeps now o d = (ground arith, ground arith)

ask_finalization-keeps :
    (now : ℕ) (d : Course)
    → ((ask_finalization now d).limits ≡ d.limits)
      × (d.tool_calls ≤ (ask_finalization now d).tool_calls)
unfolding ask_finalization request_finalization
ask_finalization-keeps now d = (ground arith, ground arith)

Progress-IsCounted :
    {l : Limits} {start n : ℕ} {d : Course} → Progress (new_course l start) n d → IsCounted l n d
unfolding delta observe_provider_activity deadline_passes interrupt_run abort
Progress-IsCounted begun = record {
  same_limits = refl;
  counted = omega arith;
  bounded = omega arith;
}
Progress-IsCounted {l} (called {n} {d} p s q) =
    request_tool-IsCounted l n s d (Progress-IsCounted p) q
Progress-IsCounted (refused {d = d} p s q) =
    let (e, k) = request_tool-grows s d in IsCounted-same e k (Progress-IsCounted p)
Progress-IsCounted (answered {d = d} p t) =
    let (e, k) = tool_answers-keeps t d in IsCounted-same e k (Progress-IsCounted p)
Progress-IsCounted (turned {d = d} p now o) =
    let (e, k) = provider_turn-keeps now o d in IsCounted-same e k (Progress-IsCounted p)
Progress-IsCounted (wrote {n = n} {d = d} p now) =
    IsCounted-same {d = d} {e = delta now d} refl (omega arith) (Progress-IsCounted p)
Progress-IsCounted (asked {d = d} p now) =
    let (e, k) = ask_finalization-keeps now d in IsCounted-same e k (Progress-IsCounted p)
Progress-IsCounted (timed_out {d = d} p) =
    IsCounted-same {d = d} {e = deadline_passes d} refl (omega arith) (Progress-IsCounted p)
Progress-IsCounted (stopped {d = d} p) =
    IsCounted-same {d = d} {e = interrupt_run d} refl (omega arith) (Progress-IsCounted p)

-- However the provider orders its turns and its requests, a run calls no more tools than its limit.
pub tool_calls-le :
    {l : Limits} {start n : ℕ} {d : Course}
    → Progress (new_course l start) n d
    → n ≤ l.max_tool_calls
tool_calls-le p = (Progress-IsCounted p).bounded

-- A run whose limits for errors and for idle rounds are positive, and that has spent its share of
-- tool calls for research, or has met as many errors in a row or as many rounds without progress as
-- it may, has been asked to finish.
pub finalization-due :
    {l : Limits} {start n : ℕ} {d : Course}
    → Progress (new_course l start) n d
    → 1 ≤ l.max_consecutive_tool_errors
    → 1 ≤ l.max_no_progress_rounds
    → (leb (research_tool_calls d.limits) d.tool_calls
        || (leb d.limits.max_consecutive_tool_errors d.consecutive_tool_errors
            || leb d.limits.max_no_progress_rounds d.no_progress_rounds))
      ≡ true
    → is_some d.finalization_reason ≡ true
unfolding research_tool_calls
finalization-due {l} p errors rounds due =
    let h = Progress-IsWarned p (record {
      some_errors = errors;
      some_rounds = rounds;
      spent = λ e. ground arith;
      erring = λ e. ground arith;
      stuck = λ e. ground arith;
    }) in
    ground (arith, h.spent, h.erring, h.stuck)
