-- ===== src/Agent/Limits.antt =====
-- The limits of a run: the constructor of `AgentRuntime` and the head of `execute` (agentRuntime.ts).
use memo_repo.Prelude.{ℕ, ◌+◌, ◌-◌, ◌≤◌, ◌≡◌, arith, ltb, leb, if◌then◌else◌}

-- A number that an option gives: none, a whole number that is not negative, or any other number.
pub data Setting : Type 0 where
  absent : Setting
  whole : ℕ → Setting
  unfit : Setting

-- `AgentRuntimeOptions`, and the limits of an `AgentRunInput`
pub record Options : Type 0 where
  pub max_run_ms : Setting
  pub max_tool_calls : Setting
  pub max_provider_rounds : Setting
  pub finalization_reserve_ms : Setting
  pub finalization_reserve_tool_calls : Setting
  pub finalization_reserve_provider_rounds : Setting
  pub max_no_progress_rounds : Setting
  pub max_repeated_tool_calls : Setting
  pub max_consecutive_tool_errors : Setting

pub record Limits : Type 0 where
  pub max_run_ms : ℕ
  pub max_tool_calls : ℕ
  pub max_provider_rounds : ℕ
  pub finalization_reserve_ms : ℕ
  pub finalization_reserve_tool_calls : ℕ
  pub finalization_reserve_provider_rounds : ℕ
  pub max_no_progress_rounds : ℕ
  pub max_repeated_tool_calls : ℕ
  pub max_consecutive_tool_errors : ℕ

abbrev pub min : ℕ → ℕ → ℕ
min a b = if ltb a b then a else b

abbrev pub max : ℕ → ℕ → ℕ
max a b = if ltb a b then b else a

unfoldable pub positive_integer : Setting → ℕ → ℕ
positive_integer (whole n) fallback = if ltb 0 n then n else fallback
positive_integer _ fallback = fallback

unfoldable pub bounded_positive_integer : Setting → ℕ → ℕ
bounded_positive_integer value maximum = min (positive_integer value maximum) maximum

unfoldable pub bounded_reserve : Setting → ℕ → ℕ → ℕ
bounded_reserve value fallback maximum =
    if leb maximum 1 then 0 else min (positive_integer value fallback) (maximum - 1)

-- The constructor.
unfoldable pub configured : Options → Limits
configured o = record {
  max_run_ms = positive_integer o.max_run_ms 1800000;
  max_tool_calls = positive_integer o.max_tool_calls 200;
  max_provider_rounds = positive_integer o.max_provider_rounds 50;
  finalization_reserve_ms = positive_integer o.finalization_reserve_ms 180000;
  finalization_reserve_tool_calls = positive_integer o.finalization_reserve_tool_calls 20;
  finalization_reserve_provider_rounds = positive_integer o.finalization_reserve_provider_rounds 5;
  max_no_progress_rounds = positive_integer o.max_no_progress_rounds 4;
  max_repeated_tool_calls = positive_integer o.max_repeated_tool_calls 3;
  max_consecutive_tool_errors = positive_integer o.max_consecutive_tool_errors 3;
}

-- The limits of one run, of which `execute` keeps the reserve back.
unfoldable pub run_limits : Options → Limits → Limits
run_limits o c =
    let run_ms = bounded_positive_integer o.max_run_ms c.max_run_ms in
    let tool_calls = bounded_positive_integer o.max_tool_calls c.max_tool_calls in
    let rounds = bounded_positive_integer o.max_provider_rounds c.max_provider_rounds in
    record {
      max_run_ms = run_ms;
      max_tool_calls = tool_calls;
      max_provider_rounds = rounds;
      finalization_reserve_ms =
          bounded_reserve o.finalization_reserve_ms c.finalization_reserve_ms run_ms;
      finalization_reserve_tool_calls =
          bounded_reserve o.finalization_reserve_tool_calls c.finalization_reserve_tool_calls
            tool_calls;
      finalization_reserve_provider_rounds =
          bounded_reserve o.finalization_reserve_provider_rounds
            c.finalization_reserve_provider_rounds rounds;
      max_no_progress_rounds =
          bounded_positive_integer o.max_no_progress_rounds c.max_no_progress_rounds;
      max_repeated_tool_calls =
          bounded_positive_integer o.max_repeated_tool_calls c.max_repeated_tool_calls;
      max_consecutive_tool_errors =
          bounded_positive_integer o.max_consecutive_tool_errors c.max_consecutive_tool_errors;
    }

unfoldable pub research_run_ms : Limits → ℕ
research_run_ms l = max 1 (l.max_run_ms - l.finalization_reserve_ms)

unfoldable pub research_tool_calls : Limits → ℕ
research_tool_calls l = max 1 (l.max_tool_calls - l.finalization_reserve_tool_calls)

unfoldable pub research_provider_rounds : Limits → ℕ
research_provider_rounds l = max 1 (l.max_provider_rounds - l.finalization_reserve_provider_rounds)

positive_integer-positive :
    (v : Setting) (fallback : ℕ) → 1 ≤ fallback → 1 ≤ positive_integer v fallback
unfolding positive_integer
positive_integer-positive absent fallback h = h
positive_integer-positive (whole n) fallback h = ground arith
positive_integer-positive unfit fallback h = h

share :
    (v w : Setting) (fallback bound : ℕ)
    → 1 ≤ bound
    → let limit = bounded_positive_integer v bound in
      let kept = bounded_reserve w fallback limit in
      (limit ≤ bound) × (1 ≤ limit - kept) × (max 1 (limit - kept) + kept ≡ limit)
unfolding bounded_positive_integer bounded_reserve
share v w fallback bound h =
    let p = positive_integer-positive v bound h in (ground arith, ground arith, ground arith)

bounded :
    (v : Setting) (bound : ℕ)
    → 1 ≤ bound
    → (1 ≤ bounded_positive_integer v bound) × (bounded_positive_integer v bound ≤ bound)
unfolding bounded_positive_integer
bounded v bound h = let p = positive_integer-positive v bound h in (ground arith, ground arith)

-- What a run is left with, whatever numbers the configuration and the request give: each of its six
-- limits is at most the configured one and not zero, and of the time, the tool calls and the rounds
-- the share for research is positive and makes up the limit together with the reserve for the answer.
pub run_limits-shares :
    (o p : Options)
    → let c = configured o in
      let l = run_limits p c in
      ((l.max_run_ms ≤ c.max_run_ms)
        × (1 ≤ research_run_ms l)
        × (research_run_ms l + l.finalization_reserve_ms ≡ l.max_run_ms))
      × ((l.max_tool_calls ≤ c.max_tool_calls)
          × (1 ≤ research_tool_calls l)
          × (research_tool_calls l + l.finalization_reserve_tool_calls ≡ l.max_tool_calls))
      × ((l.max_provider_rounds ≤ c.max_provider_rounds)
          × (1 ≤ research_provider_rounds l)
          × (research_provider_rounds l + l.finalization_reserve_provider_rounds
              ≡ l.max_provider_rounds))
      × ((1 ≤ l.max_no_progress_rounds) × (l.max_no_progress_rounds ≤ c.max_no_progress_rounds))
      × ((1 ≤ l.max_repeated_tool_calls) × (l.max_repeated_tool_calls ≤ c.max_repeated_tool_calls))
      × ((1 ≤ l.max_consecutive_tool_errors)
          × (l.max_consecutive_tool_errors ≤ c.max_consecutive_tool_errors))
unfolding run_limits configured research_run_ms research_tool_calls research_provider_rounds
run_limits-shares o p =
    let c = configured o in
    let run_ms = positive_integer-positive o.max_run_ms 1800000 (omega arith) in
    let calls = positive_integer-positive o.max_tool_calls 200 (omega arith) in
    let rounds = positive_integer-positive o.max_provider_rounds 50 (omega arith) in
    let idle = positive_integer-positive o.max_no_progress_rounds 4 (omega arith) in
    let repeated = positive_integer-positive o.max_repeated_tool_calls 3 (omega arith) in
    let errors = positive_integer-positive o.max_consecutive_tool_errors 3 (omega arith) in
    let (a, b, e) =
      share p.max_run_ms p.finalization_reserve_ms c.finalization_reserve_ms c.max_run_ms run_ms in
    let (a', b', e') =
      share p.max_tool_calls p.finalization_reserve_tool_calls c.finalization_reserve_tool_calls
        c.max_tool_calls calls in
    let (a'', b'', e'') =
      share p.max_provider_rounds p.finalization_reserve_provider_rounds
        c.finalization_reserve_provider_rounds c.max_provider_rounds rounds in
    (
      (a, ground arith, e),
      (a', ground arith, e'),
      (a'', ground arith, e''),
      bounded p.max_no_progress_rounds c.max_no_progress_rounds idle,
      bounded p.max_repeated_tool_calls c.max_repeated_tool_calls repeated,
      bounded p.max_consecutive_tool_errors c.max_consecutive_tool_errors errors,
    )
