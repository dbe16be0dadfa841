-- ===== src/ToolStats.antt =====
-- The figures that the gateway keeps for each tool of a space: `recordMcpToolMetric` of
-- apps/api/src/services/mcpToolStats.ts on the table `mcp_tool_stats` of
-- apps/api/src/db/migrate.ts, whose primary key is the pair of space and tool.
--
-- A row's figures are unbounded here. SQLite holds them exactly below 2 ^ 63, which the greatest
-- figure of one call, 2 ^ 53 - 1, leaves room for in 1024 calls.
pub mod Totals
mod Tests
use Prim.Native.Nat.{◌/◌}
use memo_repo.Prelude.{
  ℕ, String, suc, ◌+◌, ◌*◌, Bool, true, false, ◌&&◌, Option, none, some, List, [], ◌∷◌, leb, ◌==◌,
  if◌then◌else◌, find?,
}

-- A number of JavaScript: not finite, below zero, or the fraction n / (1 + d).
pub data Measure : Type 0 where
  not_finite : Measure
  below_zero : Measure
  fraction : (n d : ℕ) → Measure

pub record McpToolMetric : Type 0 where
  pub space_id : String
  pub tool_name : String
  pub duration_ms : Measure
  pub response_bytes : Option Measure
  pub error : Bool
  pub cache_hit : Bool
  pub truncated : Bool

pub record McpToolStat : Type 0 where
  pub space_id : String
  pub tool_name : String
  pub call_count : ℕ
  pub total_response_bytes : ℕ
  pub max_response_bytes : ℕ
  pub total_duration_ms : ℕ
  pub max_duration_ms : ℕ
  pub error_count : ℕ
  pub cache_hit_count : ℕ
  pub truncated_count : ℕ
  pub last_called_at : String

-- `Number.MAX_SAFE_INTEGER`
abbrev pub max_safe_integer : ℕ
max_safe_integer = 9007199254740991

-- `Math.round`: a half is rounded up.
abbrev pub round : ℕ → ℕ → ℕ
round n d = (2 * n + suc d) / (2 * suc d)

unfoldable pub bounded : Measure → ℕ
bounded not_finite = 0
bounded below_zero = 0
bounded (fraction n d) = if leb max_safe_integer (round n d) then max_safe_integer else round n d

abbrev pub bytes_of : McpToolMetric → ℕ
bytes_of metric = elim metric.response_bytes [ none ↦ 0 | some bytes ↦ bounded bytes ]

abbrev pub one_if : Bool → ℕ
one_if b = if b then 1 else 0

abbrev pub greater : ℕ → ℕ → ℕ
greater a b = if leb a b then b else a

-- The row that is inserted where there is none with its key, and is `excluded` where there is one.
unfoldable pub inserted : McpToolMetric → String → McpToolStat
inserted metric now = record {
  space_id = metric.space_id;
  tool_name = metric.tool_name;
  call_count = 1;
  total_response_bytes = bytes_of metric;
  max_response_bytes = bytes_of metric;
  total_duration_ms = bounded metric.duration_ms;
  max_duration_ms = bounded metric.duration_ms;
  error_count = one_if metric.error;
  cache_hit_count = one_if metric.cache_hit;
  truncated_count = one_if metric.truncated;
  last_called_at = now;
}

-- `ON CONFLICT(space_id, tool_name) DO UPDATE SET`
unfoldable pub updated : McpToolStat → McpToolStat → McpToolStat
updated row excluded = record {
  space_id = row.space_id;
  tool_name = row.tool_name;
  call_count = row.call_count + 1;
  total_response_bytes = row.total_response_bytes + excluded.total_response_bytes;
  max_response_bytes = greater row.max_response_bytes excluded.max_response_bytes;
  total_duration_ms = row.total_duration_ms + excluded.total_duration_ms;
  max_duration_ms = greater row.max_duration_ms excluded.max_duration_ms;
  error_count = row.error_count + excluded.error_count;
  cache_hit_count = row.cache_hit_count + excluded.cache_hit_count;
  truncated_count = row.truncated_count + excluded.truncated_count;
  last_called_at = excluded.last_called_at;
}

abbrev pub has_key : String → String → McpToolStat → Bool
has_key space tool row = row.space_id == space && row.tool_name == tool

unfoldable pub upsert : McpToolStat → List McpToolStat → List McpToolStat
upsert excluded [] = excluded ∷ []
upsert excluded (row ∷ rows) =
    let rest = upsert excluded rows in
    if has_key excluded.space_id excluded.tool_name row
    then updated row excluded ∷ rows
    else row ∷ rest

unfoldable pub record_mcp_tool_metric : McpToolMetric → String → List McpToolStat → List McpToolStat
record_mcp_tool_metric metric now rows = upsert (inserted metric now) rows

-- The row of a tool of a space.
abbrev pub stat_of : String → String → List McpToolStat → Option McpToolStat
stat_of space tool rows = find? (has_key space tool) rows
