-- ===== src/ToolStats/Tests.antt =====
-- The figures of a few calls, in two spaces.
use memo_repo.ToolStats.{fraction, bounded, stat_of}
use memo_repo.ToolStats.Totals.{Call, record_all, calls_of, summary, stat_of-record_all}
use memo_repo.Prelude.{ℕ, String, ℕ, String, ◌≡◌, refl, true, false, some, List, [], ◌∷◌}

abbrev call : String → String → ℕ → String → Call
call space tool bytes time = record {
  metric = record {
    space_id = space;
    tool_name = tool;
    duration_ms = fraction 5 1;
    response_bytes = some (fraction bytes 0);
    error = false;
    cache_hit = true;
    truncated = false;
  };
  at = time;
}

abbrev calls : List Call
calls = call "s" "search" 30 "t1" ∷ call "r" "search" 90 "t2" ∷ call "s" "search" 20 "t3" ∷ []

-- Two and a half milliseconds are three.
test_bounded : bounded (fraction 5 1) ≡ 3
unfolding bounded
test_bounded = refl

stat_of-record_all_example :
    stat_of "s" "search" (record_all calls []) ≡ summary "s" "search" (calls_of "s" "search" calls)
stat_of-record_all_example = stat_of-record_all calls "s" "search"
