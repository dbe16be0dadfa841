-- ===== src/ToolStats/Totals.antt =====
-- The table of tool figures holds what a reader of the whole list of calls would compute.
use memo_repo.Prelude.{
  suc, and-eq-true, ◌∙◌, sym, ℕ, String, ◌+◌, ◌≡◌, refl, true, ◌&&◌, Option, none, some, List, [],
  ◌∷◌, arith, ◌==◌, if◌then◌else◌, eq_iff, length, filter, Bool-cases, inl, inr,
}
use memo_repo.ToolStats.{
  McpToolMetric, McpToolStat, bytes_of, bounded, one_if, greater, inserted, updated, has_key,
  upsert, record_mcp_tool_metric, stat_of,
}

-- A call with the time at which it is recorded.
pub record Call : Type 0 where
  pub metric : McpToolMetric
  pub at : String

unfoldable pub record_all : List Call → List McpToolStat → List McpToolStat
record_all [] rows = rows
record_all (c ∷ cs) rows = record_all cs (record_mcp_tool_metric c.metric c.at rows)

abbrev pub calls_of : String → String → List Call → List Call
calls_of space tool cs = filter (λ c. c.metric.space_id == space && c.metric.tool_name == tool) cs

unfoldable pub sum_by : (McpToolMetric → ℕ) → List Call → ℕ
sum_by f [] = 0
sum_by f (c ∷ cs) = f c.metric + sum_by f cs

unfoldable pub greatest : (McpToolMetric → ℕ) → List Call → ℕ
greatest f [] = 0
greatest f (c ∷ cs) = greater (f c.metric) (greatest f cs)

unfoldable pub last_time : String → List Call → String
last_time time [] = time
last_time time (c ∷ cs) = last_time c.at cs

-- What the calls of one tool of one space amount to, each figure by itself.
unfoldable pub summary : String → String → List Call → Option McpToolStat
summary space tool [] = none
summary space tool (c ∷ cs) = some (record {
  space_id = space;
  tool_name = tool;
  call_count = length (c ∷ cs);
  total_response_bytes = sum_by bytes_of (c ∷ cs);
  max_response_bytes = greatest bytes_of (c ∷ cs);
  total_duration_ms = sum_by (λ m. bounded m.duration_ms) (c ∷ cs);
  max_duration_ms = greatest (λ m. bounded m.duration_ms) (c ∷ cs);
  error_count = sum_by (λ m. one_if m.error) (c ∷ cs);
  cache_hit_count = sum_by (λ m. one_if m.cache_hit) (c ∷ cs);
  truncated_count = sum_by (λ m. one_if m.truncated) (c ∷ cs);
  last_called_at = last_time c.at cs;
})

-- A row and the calls that come after it.
unfoldable after : Option McpToolStat → String → String → List Call → Option McpToolStat
after none space tool cs = summary space tool cs
after (some r) space tool cs = some (record {
  space_id = r.space_id;
  tool_name = r.tool_name;
  call_count = r.call_count + length cs;
  total_response_bytes = r.total_response_bytes + sum_by bytes_of cs;
  max_response_bytes = greater r.max_response_bytes (greatest bytes_of cs);
  total_duration_ms = r.total_duration_ms + sum_by (λ m. bounded m.duration_ms) cs;
  max_duration_ms = greater r.max_duration_ms (greatest (λ m. bounded m.duration_ms) cs);
  error_count = r.error_count + sum_by (λ m. one_if m.error) cs;
  cache_hit_count = r.cache_hit_count + sum_by (λ m. one_if m.cache_hit) cs;
  truncated_count = r.truncated_count + sum_by (λ m. one_if m.truncated) cs;
  last_called_at = last_time r.last_called_at cs;
})

abbrev plus : Option McpToolStat → McpToolStat → Option McpToolStat
plus none excluded = some excluded
plus (some r) excluded = some (updated r excluded)

stat_of-upsert :
    (excluded : McpToolStat) (space tool : String) (rows : List McpToolStat)
    → stat_of space tool (upsert excluded rows) ≡ (
        if has_key space tool excluded
        then plus (stat_of space tool rows) excluded
        else stat_of space tool rows)
unfolding upsert updated
stat_of-upsert e space tool [] = ground arith
stat_of-upsert e space tool (row ∷ rows) = ground (
  arith,
  eq_iff row.space_id e.space_id,
  eq_iff row.tool_name e.tool_name,
  eq_iff row.space_id space,
  eq_iff row.tool_name tool,
  eq_iff e.space_id space,
  eq_iff e.tool_name tool,
  stat_of-upsert e space tool rows,
)

plus_zero : (n : ℕ) → n + 0 ≡ n
plus_zero n = omega arith

greater_zero : (n : ℕ) → greater n 0 ≡ n
greater_zero n = ground arith

one_plus : (n : ℕ) → 1 + n ≡ suc n
one_plus n = omega arith

plus_assoc : (a b c : ℕ) → (a + b) + c ≡ a + (b + c)
plus_assoc a b c = omega arith

greater_assoc : (a b c : ℕ) → greater (greater a b) c ≡ greater a (greater b c)
greater_assoc a b c = ground arith

after-nil : (o : Option McpToolStat) (space tool : String) → after o space tool [] ≡ o
unfolding after summary sum_by greatest last_time
after-nil none space tool = refl
after-nil (some r) space tool = simp (plus_zero, greater_zero)

after-cons :
    (o : Option McpToolStat) (space tool : String) (c : Call) (cs : List Call)
    → (c.metric.space_id == space && c.metric.tool_name == tool) ≡ true
    → after (plus o (inserted c.metric c.at)) space tool cs ≡ after o space tool (c ∷ cs)
unfolding after summary sum_by greatest last_time inserted updated
after-cons none space tool c cs h =
    let (k, l) = and-eq-true (c.metric.space_id == space) (c.metric.tool_name == tool) h in
    let i = (eq_iff c.metric.space_id space).0 k in
    let j = (eq_iff c.metric.tool_name tool).0 l in
    let n : 1 + length cs ≡ suc (length cs) = omega arith in
    rw (sym i, sym j, one_plus (length cs)) refl
after-cons (some r) space tool c cs h = simp (plus_assoc, greater_assoc, one_plus)

stat_of-record :
    (c : Call) (space tool : String) (rows : List McpToolStat)
    → stat_of space tool (record_mcp_tool_metric c.metric c.at rows) ≡ (
        if c.metric.space_id == space && c.metric.tool_name == tool
        then plus (stat_of space tool rows) (inserted c.metric c.at)
        else stat_of space tool rows)
unfolding record_mcp_tool_metric inserted
stat_of-record c space tool rows = stat_of-upsert (inserted c.metric c.at) space tool rows

after-record :
    (cs : List Call) (rows : List McpToolStat) (space tool : String)
    → stat_of space tool (record_all cs rows)
      ≡ after (stat_of space tool rows) space tool (calls_of space tool cs)
unfolding record_all
after-record [] rows space tool = sym (after-nil (stat_of space tool rows) space tool)
after-record (c ∷ cs) rows space tool =
    let next = record_mcp_tool_metric c.metric c.at rows in
    let found = stat_of-record c space tool rows in
    let later = after-record cs next space tool in
    elim (Bool-cases (c.metric.space_id == space && c.metric.tool_name == tool)) [
      | inl e ↦
          let q = found ∙ rw e refl in
          rw e (
            later
            ∙ rw q (after-cons (stat_of space tool rows) space tool c (calls_of space tool cs) e))
      | inr e ↦ let q = found ∙ rw e refl in rw e (later ∙ rw q refl)
    ]

-- However the calls of different tools and spaces follow each other, the row of a tool of a space
-- is what a reader of the whole list of calls would compute from that tool's calls in that space
-- alone: how many there were, the sums and the greatest of their sizes and durations, how many
-- failed, met the cache or were cut, and the time of the last. There is no row if there was no call.
pub stat_of-record_all :
    (cs : List Call) (space tool : String)
    → stat_of space tool (record_all cs []) ≡ summary space tool (calls_of space tool cs)
unfolding after
stat_of-record_all cs space tool = after-record cs [] space tool
