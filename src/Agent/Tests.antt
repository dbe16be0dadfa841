-- ===== src/Agent/Tests.antt =====
-- Concrete runs and courses of an `AgentRuntime`, and the theorems at such inputs.
use memo_repo.Text.{includes, to_lower, map_chars, is_some}
use memo_repo.Prelude.{
  if◌then◌else◌, ◌&&◌, not, map_delete, map_set, String, true, false, ◌≡◌, ◌≤◌, ◌+◌, refl, none,
  some, [], ◌∷◌, arith, map_get,
}
use memo_repo.Agent.Limits.{
  Options, Limits, absent, whole, unfit, configured, run_limits, research_run_ms,
  research_tool_calls, research_provider_rounds, positive_integer, bounded_positive_integer,
  bounded_reserve, run_limits-shares,
}
use memo_repo.Agent.Runtime.{
  ProviderStatus, authentication_changing_status, status, start_login, without_session,
  begin_authentication_change, abort_all, logout_at_adapter, logout, release, start_run, Runtime,
  new_runtime,
}
use memo_repo.Agent.Runtime.Reach.{
  Run, idle, followed, starts_login, logs_out, runs_end, starts_run, releases,
}
use memo_repo.Agent.Runtime.Epochs.{status-across_change}
use memo_repo.Agent.Runtime.Logout.{signing_out-no_runs}
use memo_repo.Agent.Runtime.Sessions.{Run-one_per_session}
use memo_repo.Agent.Course.{
  cancelled, budget, provider_failure, signature_count, tool_answers, request_finalization,
  request_tool, Course, new_course,
}
use memo_repo.Agent.Course.Finalization.Warnings.{Progress, begun, called}
use memo_repo.Agent.Course.Finalization.{tool_calls-le, finalization-due}
use memo_repo.Agent.Course.Terminal.{
  best_effort, is_limit, or_natural, is_completed, is_abort_error, is_failed, complete, Terminal,
  failure_diagnostic, run_metrics, is_interrupted, succeeds, completion_reason, run_status,
  terminal, terminal-by_status, throws_error,
}

abbrev no_options : Options
no_options = record {
  max_run_ms = absent;
  max_tool_calls = absent;
  max_provider_rounds = absent;
  finalization_reserve_ms = absent;
  finalization_reserve_tool_calls = absent;
  finalization_reserve_provider_rounds = absent;
  max_no_progress_rounds = absent;
  max_repeated_tool_calls = absent;
  max_consecutive_tool_errors = absent;
}

-- A request for two calls, of which it would keep back seven.
abbrev tight : Options
tight = record no_options {
  max_tool_calls = whole 2;
  finalization_reserve_tool_calls = whole 7;
  max_provider_rounds = unfit;
}

abbrev few : Limits
few = run_limits tight (configured no_options)

machine : Unit {0}
unfolding start_run release logout logout_at_adapter abort_all begin_authentication_change
    without_session start_login map_get map_set map_delete status authentication_changing_status
    request_tool request_finalization tool_answers signature_count terminal run_status
    completion_reason succeeds is_interrupted run_metrics failure_diagnostic
machine = tt

numbers : Unit {0}
unfolding run_limits configured research_run_ms research_tool_calls research_provider_rounds
    positive_integer bounded_positive_integer bounded_reserve
numbers = tt

few-calls :
    (few.max_tool_calls ≡ 2)
    × (few.finalization_reserve_tool_calls ≡ 1)
    × (few.max_provider_rounds ≡ 50)
unfolding numbers
few-calls = (refl, refl, refl)

run_limits-shares_example :
    let c = configured no_options in
    let l = run_limits tight c in
    ((l.max_run_ms ≤ c.max_run_ms)
      × (1 ≤ research_run_ms l)
      × (research_run_ms l + l.finalization_reserve_ms ≡ l.max_run_ms))
    × ((l.max_tool_calls ≤ c.max_tool_calls)
        × (1 ≤ research_tool_calls l)
        × (research_tool_calls l + l.finalization_reserve_tool_calls ≡ l.max_tool_calls))
    × ((l.max_provider_rounds ≤ c.max_provider_rounds)
        × (1 ≤ research_provider_rounds l)
        × (research_provider_rounds l + l.finalization_reserve_provider_rounds
            ≡ l.max_provider_rounds))
    × ((1 ≤ l.max_no_progress_rounds) × (l.max_no_progress_rounds ≤ c.max_no_progress_rounds))
    × ((1 ≤ l.max_repeated_tool_calls) × (l.max_repeated_tool_calls ≤ c.max_repeated_tool_calls))
    × ((1 ≤ l.max_consecutive_tool_errors)
        × (l.max_consecutive_tool_errors ≤ c.max_consecutive_tool_errors))
run_limits-shares_example = run_limits-shares no_options tight

-- A run is started, a logout begins, the run ends, and the adapter is asked.
abbrev at_work : Runtime
at_work = (start_run "r" "s" new_runtime).1

abbrev leaving : Runtime
leaving = (logout at_work).1

abbrev left : Runtime
left = release 0 "r" "s" leaving

working : Run new_runtime at_work
working = followed idle (starts_run "r" "s")

signing_out-no_runs_example : map_get "r" (logout_at_adapter left).runs ≡ none
unfolding machine
signing_out-no_runs_example =
    signing_out-no_runs {s = logout_at_adapter left}
      (followed
        (followed {s = leaving} (followed {s = at_work} working logs_out) (releases 0 "r" "s"))
        (runs_end ("r" ∷ []) refl (refl, tt)))
      refl "r"

Run-one_per_session_example : ◌≡◌ {A = String} "r" "r"
unfolding machine
Run-one_per_session_example =
    Run-one_per_session {s = at_work} working "r" "r" (record { session_id = "s"; aborted = false })
      (record { session_id = "s"; aborted = false }) refl refl refl

abbrev signed_in : ProviderStatus
signed_in = record {
  configured = true;
  available = true;
  connected = true;
  provider_id = "p";
  provider_name = "Provider";
  model_id = "m";
  model_name = "Model";
  auth_source = some "file";
  account_key = some "k";
  runtime_version = "1";
  message = none;
}

abbrev signing_in : Runtime
signing_in = (start_login new_runtime).1

status-across_change_example :
    status 0 signed_in signing_in ≡ authentication_changing_status signed_in
unfolding machine
status-across_change_example =
    status-across_change {r = new_runtime} {m = signing_in} {s = signing_in}
      (followed idle starts_login) idle refl signed_in

-- One call of a tool, of two that are allowed and one that is for research.
abbrev one_call : Course
one_call = (request_tool "search:{}" (new_course few 5)).1

one_call-Progress : Progress (new_course few 5) 1 one_call
unfolding machine numbers
one_call-Progress = called begun "search:{}" refl

tool_calls-le_example : 1 ≤ few.max_tool_calls
tool_calls-le_example = tool_calls-le {l = few} {start = 5} {n = 1} {d = one_call} one_call-Progress

finalization-due_example : is_some one_call.finalization_reason ≡ true
unfolding machine numbers
finalization-due_example =
    finalization-due {l = few} {start = 5} {n = 1} {d = one_call} one_call-Progress (omega arith)
      (omega arith) refl

abbrev refused_run : Terminal
refused_run = terminal "r" 9 (throws_error "Error" "boom") one_call

terminal-by_status_example :
    (refused_run.error ≡ (if is_failed refused_run.status then some "Agent run failed" else none))
    × (refused_run.failure_diagnostic ≡ (
        if is_failed refused_run.status
        then some (failure_diagnostic (throws_error "Error" "boom"))
        else none))
    × (refused_run.completion_reason ≡ (
        if is_failed refused_run.status
        then provider_failure
        else if is_completed refused_run.status
        then or_natural one_call.finalization_reason
        else if is_limit one_call.aborted
        then budget
        else cancelled))
    × (refused_run.answer_quality ≡ (
        if is_completed refused_run.status && not (is_some one_call.finalization_reason)
        then complete
        else best_effort))
    × (refused_run.resumable ≡ not (is_completed refused_run.status))
terminal-by_status_example = terminal-by_status "r" 9 (throws_error "Error" "boom") one_call

refused_run-failed : is_failed refused_run.status ≡ true
unfolding machine numbers is_abort_error map_chars to_lower includes
refused_run-failed = refl
