-- ===== src/Budget/Stage.antt =====
-- The counts of `BudgetGuard` and its degradation stage, in src/ndt_agents/orchestration/budget.py.
-- The shares of the limits are fractions: the source's floats order them alike for limits below 10^14.
use ndt_agents.Base.{ℕ, ◌+◌, ◌*◌, Bool, List, [], ◌∷◌, ltb, leb, ◌==◌, if◌then◌else◌}
use ndt_agents.Budget.Policy.{
  Dimension, graph_steps, llm_calls, tool_calls, total_tokens, wall_time_ms,
  professional_concurrency, review_rounds, correction_rounds, BudgetPolicy, limit_of,
}
use ndt_agents.Budget.Data.{
  DegradationStage, normal, reduce_low_value, stop_expansion, finalize_only, stopped, Counts,
  Ledger,
}

unfoldable pub count : Counts → Dimension → ℕ
count c graph_steps = c.graph_steps
count c llm_calls = c.llm_calls
count c tool_calls = c.tool_calls
count c total_tokens = c.total_tokens
count c wall_time_ms = c.wall_time_ms
count c professional_concurrency = c.professional_concurrency
count c review_rounds = c.review_rounds
count c correction_rounds = c.correction_rounds

-- `_counts[dimension] = n`.
unfoldable pub set_count : Counts → Dimension → ℕ → Counts
set_count c graph_steps n = record c { graph_steps = n }
set_count c llm_calls n = record c { llm_calls = n }
set_count c tool_calls n = record c { tool_calls = n }
set_count c total_tokens n = record c { total_tokens = n }
set_count c wall_time_ms n = record c { wall_time_ms = n }
set_count c professional_concurrency n = record c { professional_concurrency = n }
set_count c review_rounds n = record c { review_rounds = n }
set_count c correction_rounds n = record c { correction_rounds = n }

-- `_increment`, on the ledger.
unfoldable pub increment : Dimension → ℕ → Ledger → Ledger
unfolding count set_count
increment d n l = record l { counts = set_count l.counts d (count l.counts d + n) }

-- The quantities whose share of the active limit makes the stage, in the order of the loop.
unfoldable pub usage : Ledger → ℕ → Dimension → ℕ
unfolding count
usage l elapsed wall_time_ms = elapsed
usage l elapsed total_tokens = l.counts.total_tokens + l.reserved_tokens
usage l elapsed graph_steps = l.counts.graph_steps + l.reserved_graph_steps
usage l elapsed d = count l.counts d

abbrev pub staged : List Dimension
staged =
    graph_steps ∷ llm_calls ∷ tool_calls ∷ total_tokens ∷ wall_time_ms ∷ review_rounds
    ∷ correction_rounds ∷ []

-- A ratio is a pair of numbers, `value / limit`; a limit of 0 is left out.
unfoldable pub ratios : BudgetPolicy → Ledger → ℕ → List Dimension → List (ℕ × ℕ)
ratios p l elapsed [] = []
ratios p l elapsed (d ∷ ds) =
    let limit = (limit_of p d).active in
    let rest = ratios p l elapsed ds in
    if limit == 0 then rest else (usage l elapsed d, limit) ∷ rest

-- `max(ratios, default=0.0)`, ratios being compared by cross-multiplication.
unfoldable pub max_ratio : List (ℕ × ℕ) → ℕ × ℕ
max_ratio [] = (0, 1)
max_ratio ((v, n) ∷ rest) =
    let (w, m) = max_ratio rest in if ltb (v * m) (w * n) then (w, m) else (v, n)

-- `ratio >= percent / 100`.
abbrev pub at_least : ℕ → ℕ × ℕ → Bool
at_least percent (v, n) = leb (percent * n) (100 * v)

unfoldable pub stage_of_ratio : ℕ × ℕ → DegradationStage
stage_of_ratio r =
    if at_least 100 r
    then stopped
    else if at_least 95 r
    then finalize_only
    else if at_least 85 r
    then stop_expansion
    else if at_least 70 r
    then reduce_low_value
    else normal

unfoldable pub degradation_stage : BudgetPolicy → Ledger → ℕ → DegradationStage
degradation_stage p l elapsed = stage_of_ratio (max_ratio (ratios p l elapsed staged))
