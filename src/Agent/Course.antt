-- ===== src/Agent/Course.antt =====
-- The course of one run: `execute` of `AgentRuntime` with `runMetrics` and `stableJson`
-- (agentRuntime.ts). The callbacks that the adapter calls are functions on the local variables.
pub mod Finalization
pub mod Terminal
use Prim.Native.Nat.{◌/◌}
use Prim.Native.String
use memo_repo.Prelude.{
  ℕ, String, suc, ◌+◌, ◌-◌, Bool, true, false, not, ◌&&◌, ◌||◌, Option, none, some, List, [], ◌∷◌,
  ◌++◌, ltb, leb, ◌=?◌, if◌then◌else◌, length, count_where, map_set, map_get, set_has,
}
use memo_repo.Text.{is_some, includes, map_chars, to_lower}
use memo_repo.Json.{Json, str, arr, obj, Items, nil, cons, Fields, end, field, stringify, ◌+++◌}
use memo_repo.Agent.Limits.{Limits, research_run_ms, research_tool_calls, research_provider_rounds}

-- `sort` by `localeCompare`, of which `goes_before` tells whether it orders one key before another.
unfoldable pub insert_field :
    (String → String → Bool) → String → String → List (String × String) → List (String × String)
insert_field goes_before k v [] = (k, v) ∷ []
insert_field goes_before k v ((j, w) ∷ fs) =
    if goes_before j k then (j, w) ∷ insert_field goes_before k v fs else (k, v) ∷ (j, w) ∷ fs

join_fields : List (String × String) → String
join_fields [] = ""
join_fields ((k, v) ∷ []) = stringify (str k) +++ (":" +++ v)
join_fields ((k, v) ∷ f ∷ fs) =
    stringify (str k) +++ (":" +++ (v +++ ("," +++ join_fields (f ∷ fs))))

-- `stableJson`
unfoldable mutual
  unfolding insert_field join_fields stringify

  pub stable_json : (String → String → Bool) → Json → String
  stable_json goes_before (arr xs) = "[" +++ (stable_items goes_before xs +++ "]")
  stable_json goes_before (obj fs) = "{" +++ (join_fields (stable_fields goes_before fs) +++ "}")
  stable_json goes_before v = stringify v

  pub stable_items : (String → String → Bool) → Items → String
  stable_items goes_before nil = ""
  stable_items goes_before (cons x nil) = stable_json goes_before x
  stable_items goes_before (cons x (cons y ys)) =
      stable_json goes_before x +++ ("," +++ stable_items goes_before (cons y ys))

  pub stable_fields : (String → String → Bool) → Fields → List (String × String)
  stable_fields goes_before end = []
  stable_fields goes_before (field k v fs) =
      insert_field goes_before k (stable_json goes_before v) (stable_fields goes_before fs)

-- The key by which `requestTool` counts the calls of a tool.
unfoldable pub tool_signature : (String → String → Bool) → String → Json → String
unfolding stable_json
tool_signature goes_before name arguments = name +++ (":" +++ stable_json goes_before arguments)

pub data StopReason : Type 0 where
  stop length_stop tool_use error_stop aborted_stop : StopReason

pub record Usage : Type 0 where
  pub input : ℕ
  pub output : ℕ
  pub reasoning : ℕ
  pub cache_read : ℕ
  pub cache_write : ℕ
  pub total : ℕ

pub record Observation : Type 0 where
  pub stop_reason : StopReason
  pub usage : Usage

pub data CompletionReason : Type 0 where
  natural budget no_progress cancelled provider_failure : CompletionReason

-- Why the signal is aborted; the first two are an `AgentRunLimitError`.
pub data AbortReason : Type 0 where
  time_limit round_limit interrupted : AbortReason

-- The local variables of `execute`.
pub record Course : Type 0 where
  pub limits : Limits
  pub started_at : ℕ
  pub tool_calls : ℕ
  pub finalization_reason : Option CompletionReason
  pub consecutive_tool_errors : ℕ
  pub no_progress_rounds : ℕ
  pub observed_successful_result_count : ℕ
  pub successful_result_fingerprints : List String
  pub tool_call_counts : List (String × ℕ)
  pub provider_observations : List Observation
  pub time_to_first_provider_event : Option ℕ
  pub aborted : Option AbortReason

-- The variables as `execute` sets them, at the time `now`.
abbrev pub new_course : Limits → ℕ → Course
new_course l now = record {
  limits = l;
  started_at = now;
  tool_calls = 0;
  finalization_reason = none;
  consecutive_tool_errors = 0;
  no_progress_rounds = 0;
  observed_successful_result_count = 0;
  successful_result_fingerprints = [];
  tool_call_counts = [];
  provider_observations = [];
  time_to_first_provider_event = none;
  aborted = none;
}

abbrev or_else {ℓ} : {A : Type ℓ} → Option A → A → Option A
or_else none a = some a
or_else (some b) a = some b

-- `requestFinalization`: the first reason stays.
unfoldable pub request_finalization : CompletionReason → Course → Course
request_finalization reason c = record c {
  finalization_reason = or_else c.finalization_reason reason;
}

abbrev pub finalize_if : Bool → CompletionReason → Course → Course
finalize_if true reason c = request_finalization reason c
finalize_if false reason c = c

-- `abort.abort`: the first reason stays.
unfoldable pub abort : AbortReason → Course → Course
abort reason c = record c { aborted = or_else c.aborted reason }

-- `observeProviderActivity`
unfoldable pub observe_provider_activity : ℕ → Course → Course
observe_provider_activity now c = record c {
  time_to_first_provider_event = or_else c.time_to_first_provider_event (now - c.started_at);
}

or_zero : Option ℕ → ℕ
or_zero none = 0
or_zero (some n) = n

unfoldable pub signature_count : String → Course → ℕ
unfolding or_zero
signature_count signature c = or_zero (map_get signature c.tool_call_counts) + 1

-- `requestTool` up to the call of the input's tool; `signature` is the request's `tool_signature`. The answer tells whether the tool is called at all.
unfoldable pub request_tool : String → Course → Bool × Course
unfolding request_finalization
request_tool signature c =
    let calls = suc c.tool_calls in
    let count = signature_count signature c in
    let counted = record c {
      tool_calls = calls;
      tool_call_counts = map_set signature count c.tool_call_counts;
    } in
    let repeated = finalize_if (leb c.limits.max_repeated_tool_calls count) no_progress counted in
    let spent = finalize_if (leb (research_tool_calls c.limits) calls) budget repeated in
    if ltb c.limits.max_tool_calls calls
    then (false, request_finalization budget spent)
    else (true, spent)

-- What a tool gives: a value, by its stable text, or an error.
pub data ToolResult : Type 0 where
  tool_value : String → ToolResult
  tool_error : ToolResult

-- `requestTool` behind the tool's answer.
unfoldable pub tool_answers : ToolResult → Course → Course
unfolding request_finalization
tool_answers (tool_value text) c = record c {
  consecutive_tool_errors = 0;
  successful_result_fingerprints =
      if set_has text c.successful_result_fingerprints
      then c.successful_result_fingerprints
      else c.successful_result_fingerprints ++ text ∷ [];
}
tool_answers tool_error c =
    let errors = suc c.consecutive_tool_errors in
    finalize_if (leb c.limits.max_consecutive_tool_errors errors) no_progress
      (record c { consecutive_tool_errors = errors })

abbrev pub is_tool_use : StopReason → Bool
is_tool_use tool_use = true
is_tool_use _ = false

-- `onProviderTurn` behind its early return.
tool_turn : Course → Course
unfolding request_finalization abort
tool_turn c =
    let rounds = length c.provider_observations in
    let successes = length c.successful_result_fingerprints in
    let stuck = successes =? c.observed_successful_result_count && ltb 1 rounds in
    let counted =
      if stuck
      then record c { no_progress_rounds = suc c.no_progress_rounds }
      else record c { no_progress_rounds = 0; observed_successful_result_count = successes } in
    let idle =
      finalize_if (leb c.limits.max_no_progress_rounds counted.no_progress_rounds) no_progress
        counted in
    let spent = finalize_if (leb (research_provider_rounds c.limits) rounds) budget idle in
    if leb c.limits.max_provider_rounds rounds then abort round_limit spent else spent

unfoldable pub provider_turn : ℕ → Observation → Course → Course
unfolding tool_turn observe_provider_activity
provider_turn now o c =
    let seen = observe_provider_activity now c in
    let observed = record seen { provider_observations = seen.provider_observations ++ o ∷ [] } in
    if is_tool_use o.stop_reason then tool_turn observed else observed

-- `onEvent` for an `assistant.delta`.
unfoldable pub delta : ℕ → Course → Course
unfolding observe_provider_activity
delta now c = observe_provider_activity now c

-- `finalizationReason`, with its answer in the field of the course.
unfoldable pub ask_finalization : ℕ → Course → Course
unfolding request_finalization
ask_finalization now c = finalize_if (leb (research_run_ms c.limits) (now - c.started_at)) budget c

-- The deadline's timer fires.
unfoldable pub deadline_passes : Course → Course
unfolding abort
deadline_passes c = abort time_limit c

-- `interrupt` and `interruptAll`
unfoldable pub interrupt_run : Course → Course
unfolding abort
interrupt_run c = abort interrupted c
