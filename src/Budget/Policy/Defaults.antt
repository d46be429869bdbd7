-- ===== src/Budget/Policy/Defaults.antt =====
-- The table of default policies: `_DEFAULTS` and `default_budget_policy` of
-- src/ndt_agents/orchestration/budget.py. The file count is an integer that may be negative.
use Prim.Native.Nat.{◌/◌, ◌%◌}
use Prim.Native.String.{◌++◌, slice}
use ndt_agents.Base.{
  ℕ, zero, suc, ◌+◌, ◌*◌, Bool, not, ◌&&◌, ltb, leb, min, String, ℤ, is_negative, pos_part,
  if◌then◌else◌,
}
use ndt_agents.Result.{Result, ok, err, ◌>>=◌, or_raise}
use ndt_agents.Budget.Policy.{
  Limit, make_limit, TaskClass, g0, p1, p2, p3, k1, BudgetPolicy, PolicyError, file_count_invalid,
  limit_invalid,
}

-- One row of `_DEFAULTS`: each pair is the default and the hard limit.
pub record Row : Type 0 where
  pub graph_steps : ℕ × ℕ
  pub llm_calls : ℕ × ℕ
  pub tool_calls : ℕ × ℕ
  pub total_tokens : ℕ × ℕ
  pub wall_time_ms : ℕ × ℕ
  pub professional_concurrency : ℕ × ℕ

unfoldable pub defaults : TaskClass → Row
defaults g0 = record {
  graph_steps = (8, 12);
  llm_calls = (3, 4);
  tool_calls = (2, 4);
  total_tokens = (4_000, 8_000);
  wall_time_ms = (30_000, 60_000);
  professional_concurrency = (0, 0);
}
defaults p1 = record {
  graph_steps = (16, 24);
  llm_calls = (6, 10);
  tool_calls = (6, 10);
  total_tokens = (10_000, 20_000);
  wall_time_ms = (120_000, 300_000);
  professional_concurrency = (1, 1);
}
defaults p2 = record {
  graph_steps = (32, 48);
  llm_calls = (18, 32);
  tool_calls = (16, 24);
  total_tokens = (35_000, 60_000);
  wall_time_ms = (900_000, 1_800_000);
  professional_concurrency = (1, 2);
}
defaults p3 = record {
  graph_steps = (48, 64);
  llm_calls = (24, 40);
  tool_calls = (30, 48);
  total_tokens = (60_000, 120_000);
  wall_time_ms = (3_600_000, 7_200_000);
  professional_concurrency = (3, 4);
}
defaults k1 = record {
  graph_steps = (48, 64);
  llm_calls = (7, 12);
  tool_calls = (5, 8);
  total_tokens = (20_000, 40_000);
  wall_time_ms = (7_200_000, 14_400_000);
  professional_concurrency = (2, 4);
}

-- The tool calls of a Knowledge task grow with its files, up to 400.
abbrev knowledge_tool_calls : ℕ → ℕ × ℕ
knowledge_tool_calls files =
    let hard = min (8 * files) 400 in
    if ltb hard (5 * files) then (hard, hard) else (5 * files, hard)

unfoldable pub row_for : TaskClass → ℕ → Row
unfolding defaults
row_for k1 files = record (defaults k1) { tool_calls = knowledge_tool_calls files }
row_for c files = defaults c

-- `str` of a number, with the number itself as fuel.
decimal_from : ℕ → ℕ → String
decimal_from zero n = slice "0123456789" n (n + 1)
decimal_from (suc fuel) n =
    let rest = decimal_from fuel (n / 10) in
    let last = slice "0123456789" (n % 10) (n % 10 + 1) in if ltb n 10 then last else rest ++ last

unfoldable pub decimal : ℕ → String
unfolding decimal_from
decimal n = decimal_from n n

unfoldable pub default_policy_id : TaskClass → ℕ → String
default_policy_id g0 files = "budget-g0-v1"
default_policy_id p1 files = "budget-p1-v1"
default_policy_id p2 files = "budget-p2-v1"
default_policy_id p3 files = "budget-p3-v1"
default_policy_id k1 files = "budget-k1-v1" ++ "-files-" ++ decimal files

-- The inner function `limit`.
abbrev limit_from : ℕ × ℕ → Result PolicyError Limit
limit_from (default, hard) = or_raise (make_limit default default hard) limit_invalid

policy_from : TaskClass → ℕ → Row → Result PolicyError BudgetPolicy
policy_from c files row = do
  graph_steps ← limit_from row.graph_steps
  llm_calls ← limit_from row.llm_calls
  tool_calls ← limit_from row.tool_calls
  total_tokens ← limit_from row.total_tokens
  wall_time_ms ← limit_from row.wall_time_ms
  professional_concurrency ← limit_from row.professional_concurrency
  review_rounds ← or_raise (make_limit 1 1 2) limit_invalid
  correction_rounds ← or_raise (make_limit 1 1 2) limit_invalid
  ok (record {
    policy_id = default_policy_id c files;
    task_class = c;
    graph_steps = graph_steps;
    llm_calls = llm_calls;
    tool_calls = tool_calls;
    total_tokens = total_tokens;
    wall_time_ms = wall_time_ms;
    professional_concurrency = professional_concurrency;
    review_rounds = review_rounds;
    correction_rounds = correction_rounds;
  })

-- `1 <= file_count <= 10_000`.
abbrev pub is_file_count : ℤ → Bool
is_file_count n = not (is_negative n) && leb 1 (pos_part n) && leb (pos_part n) 10_000

unfoldable pub default_budget_policy : TaskClass → ℤ → Result PolicyError BudgetPolicy
unfolding policy_from row_for make_limit
default_budget_policy c file_count =
    if is_file_count file_count
    then policy_from c (pos_part file_count) (row_for c (pos_part file_count))
    else err file_count_invalid
