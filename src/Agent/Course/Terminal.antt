-- ===== src/Agent/Course/Terminal.antt =====
-- The end of a run: the terminal event of `execute` with `runMetrics` and `failureDiagnostic`
-- (agentRuntime.ts).
use memo_repo.Prelude.{
  ℕ, String, ◌+◌, ◌-◌, ◌≡◌, Bool, true, false, not, ◌&&◌, ◌||◌, Option, none, some, List, [], ◌∷◌,
  if◌then◌else◌, length, count_where, arith,
}
use memo_repo.Text.{is_some, includes, map_chars, to_lower}
use memo_repo.Json.{◌+++◌}
use memo_repo.Agent.Course.{
  Course, StopReason, length_stop, Usage, Observation, CompletionReason, natural, budget, cancelled,
  provider_failure, AbortReason, time_limit, round_limit,
}

-- `AgentRunFailureDiagnostic`, its words as texts
pub record Diagnostic : Type 0 where
  pub category : String
  pub stage : String
  pub provider_code : Option String
  pub http_status : Option ℕ
  pub provider_request_id : Option String
  pub provider_response_id : Option String
  pub transport : Option String
  pub retryable : Bool
  pub retry_after_ms : Option ℕ
  pub summary : String

-- What the adapter's run comes to: it returns, or throws an error of the provider with its
-- diagnostic, another `Error` with its name and message, or any other value but `null`.
pub data Ending : Type 0 where
  returns : Ending
  throws_provider : String → String → Diagnostic → Ending
  throws_error : String → String → Ending
  throws_value : Ending

pub data RunStatus : Type 0 where
  completed interrupted_run failed : RunStatus

pub data AnswerQuality : Type 0 where
  complete best_effort : AnswerQuality

pub record Metrics : Type 0 where
  pub stop_reason : Option StopReason
  pub provider_round_count : ℕ
  pub length_stop_count : ℕ
  pub tool_call_count : ℕ
  pub attempt_duration_ms : ℕ
  pub time_to_first_provider_event_ms : Option ℕ
  pub usage : Usage

-- The event `run.completed`.
pub record Terminal : Type 0 where
  pub run_id : String
  pub status : RunStatus
  pub error : Option String
  pub failure_diagnostic : Option Diagnostic
  pub metrics : Metrics
  pub completion_reason : CompletionReason
  pub answer_quality : AnswerQuality
  pub resumable : Bool

abbrev pub empty_token_usage : Usage
empty_token_usage = record {
  input = 0;
  output = 0;
  reasoning = 0;
  cache_read = 0;
  cache_write = 0;
  total = 0;
}

abbrev pub add_usage : Usage → Usage → Usage
add_usage t u = record {
  input = t.input + u.input;
  output = t.output + u.output;
  reasoning = t.reasoning + u.reasoning;
  cache_read = t.cache_read + u.cache_read;
  cache_write = t.cache_write + u.cache_write;
  total = t.total + u.total;
}

-- `reduce`
unfoldable pub sum_usage : Usage → List Observation → Usage
sum_usage t [] = t
sum_usage t (o ∷ os) = sum_usage (add_usage t o.usage) os

-- `observations.at(-1)?.stopReason`
last_stop : Option StopReason → List Observation → Option StopReason
last_stop s [] = s
last_stop s (o ∷ os) = last_stop (some o.stop_reason) os

abbrev is_length_stop : StopReason → Bool
is_length_stop length_stop = true
is_length_stop _ = false

unfoldable pub run_metrics : List Observation → ℕ → ℕ → Option ℕ → Metrics
unfolding last_stop sum_usage
run_metrics observations tool_call_count duration first = record {
  stop_reason = last_stop none observations;
  provider_round_count = length observations;
  length_stop_count = count_where (λ o. is_length_stop o.stop_reason) observations;
  tool_call_count = tool_call_count;
  attempt_duration_ms = duration;
  time_to_first_provider_event_ms = first;
  usage = sum_usage empty_token_usage observations;
}

abbrev mentions_abort : String → String → Bool
mentions_abort name message =
    let text = map_chars to_lower (name +++ (" " +++ message)) in
    includes text "abort" || includes text "interrupt"

-- `isAbortError`
unfoldable pub is_abort_error : Ending → Bool
is_abort_error returns = false
is_abort_error (throws_provider name message d) = mentions_abort name message
is_abort_error (throws_error name message) = mentions_abort name message
is_abort_error throws_value = false

abbrev pub unknown_diagnostic : Diagnostic
unknown_diagnostic = record {
  category = "unknown";
  stage = "unknown";
  provider_code = none;
  http_status = none;
  provider_request_id = none;
  provider_response_id = none;
  transport = none;
  retryable = true;
  retry_after_ms = none;
  summary = "The provider run failed for an unknown reason.";
}

unfoldable pub failure_diagnostic : Ending → Diagnostic
failure_diagnostic (throws_provider name message d) = d
failure_diagnostic _ = unknown_diagnostic

abbrev pub is_return : Ending → Bool
is_return returns = true
is_return _ = false

-- `failure === null`: nothing was thrown, and the signal is not aborted.
unfoldable pub succeeds : Ending → Course → Bool
succeeds out c = is_return out && not (is_some c.aborted)

abbrev pub is_limit : Option AbortReason → Bool
is_limit (some time_limit) = true
is_limit (some round_limit) = true
is_limit _ = false

unfoldable pub is_interrupted : Ending → Course → Bool
unfolding succeeds is_abort_error
is_interrupted out c = not (succeeds out c) && (is_some c.aborted || is_abort_error out)

unfoldable pub run_status : Ending → Course → RunStatus
unfolding succeeds is_interrupted
run_status out c =
    if succeeds out c then completed else if is_interrupted out c then interrupted_run else failed

abbrev pub or_natural : Option CompletionReason → CompletionReason
or_natural none = natural
or_natural (some reason) = reason

unfoldable pub completion_reason : Ending → Course → CompletionReason
unfolding succeeds is_interrupted
completion_reason out c =
    if succeeds out c
    then or_natural c.finalization_reason
    else if is_limit c.aborted
    then budget
    else if is_interrupted out c
    then cancelled
    else provider_failure

abbrev pub is_completed : RunStatus → Bool
is_completed completed = true
is_completed _ = false

abbrev is_interrupted_run : RunStatus → Bool
is_interrupted_run interrupted_run = true
is_interrupted_run _ = false

-- The terminal event at the time `now`.
unfoldable pub terminal : String → ℕ → Ending → Course → Terminal
unfolding run_metrics completion_reason run_status succeeds is_interrupted failure_diagnostic
terminal run now out c =
    let hidden = succeeds out c || is_interrupted out c in
    record {
      run_id = run;
      status = run_status out c;
      error = if hidden then none else some "Agent run failed";
      failure_diagnostic = if hidden then none else some (failure_diagnostic out);
      metrics =
          run_metrics c.provider_observations c.tool_calls (now - c.started_at)
            c.time_to_first_provider_event;
      completion_reason = completion_reason out c;
      answer_quality =
          if not (succeeds out c) || (is_some c.finalization_reason || is_limit c.aborted)
          then best_effort
          else complete;
      resumable = not (is_completed (run_status out c));
    }

-- The event for a consumer that failed to take the first one.
unfoldable pub retried_terminal : Terminal → Terminal
retried_terminal t = record {
  run_id = t.run_id;
  status = if is_interrupted_run t.status then interrupted_run else failed;
  error = if is_interrupted_run t.status then none else some "Agent event handling failed";
  failure_diagnostic = if is_interrupted_run t.status then t.failure_diagnostic else none;
  metrics = t.metrics;
  completion_reason = t.completion_reason;
  answer_quality = t.answer_quality;
  resumable = t.resumable;
}

-- The terminal events that are emitted, when the consumer of the first one throws or not.
unfoldable pub emitted : Bool → Terminal → List Terminal
unfolding retried_terminal
emitted throws t = if throws then t ∷ retried_terminal t ∷ [] else t ∷ []

abbrev pub is_failed : RunStatus → Bool
is_failed failed = true
is_failed _ = false

-- The fields of the terminal event follow from its status, whatever the run came to. Just a failed
-- run tells an error, a fixed public one with the diagnostic, and a failure of the provider as the
-- reason; a completed run tells why it was asked to finish or that it came to its natural end, and an
-- interrupted one whether a limit ended it. The answer is complete if the run completed and was asked
-- for nothing, and the run is resumable unless it completed.
pub terminal-by_status :
    (run : String) (now : ℕ) (out : Ending) (c : Course)
    → let t = terminal run now out c in
      (t.error ≡ (if is_failed t.status then some "Agent run failed" else none))
      × (t.failure_diagnostic
          ≡ (if is_failed t.status then some (failure_diagnostic out) else none))
      × (t.completion_reason ≡ (
          if is_failed t.status
          then provider_failure
          else if is_completed t.status
          then or_natural c.finalization_reason
          else if is_limit c.aborted
          then budget
          else cancelled))
      × (t.answer_quality ≡ (
          if is_completed t.status && not (is_some c.finalization_reason)
          then complete
          else best_effort))
      × (t.resumable ≡ not (is_completed t.status))
unfolding terminal completion_reason run_status succeeds is_interrupted
terminal-by_status run now out c =
    (ground arith, ground arith, ground arith, ground arith, ground arith)
