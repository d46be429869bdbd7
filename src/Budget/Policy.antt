-- ===== src/Budget/Policy.antt =====
-- Budget policies: `Limit` and `BudgetPolicy` of src/ndt_agents/contracts/v1.py.
pub mod Defaults
pub mod Elevation
pub mod Laws
use ndt_agents.Base.{ℕ, Bool, ◌==◌, ◌≤◌, ◌&&◌, Option, none, some, leb, String, if◌then◌else◌}

pub data Dimension : Type 0 where
  graph_steps llm_calls tool_calls total_tokens wall_time_ms : Dimension
  professional_concurrency review_rounds correction_rounds : Dimension

abbrev index : Dimension → ℕ
index Dimension.graph_steps = 0
index Dimension.llm_calls = 1
index Dimension.tool_calls = 2
index Dimension.total_tokens = 3
index Dimension.wall_time_ms = 4
index Dimension.professional_concurrency = 5
index Dimension.review_rounds = 6
index Dimension.correction_rounds = 7

-- Whether two dimensions are the same, which the laws of an elevation ask.
abbrev pub same_dimension : Dimension → Dimension → Bool
same_dimension d e = index d == index e

pub record Limit : Type 0 where
  pub default : ℕ
  pub active : ℕ
  pub hard : ℕ

-- `Limit.validate_order`; `none` is the `ValueError`.
unfoldable pub make_limit : ℕ → ℕ → ℕ → Option Limit
make_limit default active hard =
    if leb default active && leb active hard
    then some (record { default = default; active = active; hard = hard })
    else none

pub data TaskClass : Type 0 where
  g0 p1 p2 p3 k1 : TaskClass

pub record BudgetPolicy : Type 0 where
  pub policy_id : String
  pub task_class : TaskClass
  pub graph_steps : Limit
  pub llm_calls : Limit
  pub tool_calls : Limit
  pub total_tokens : Limit
  pub wall_time_ms : Limit
  pub professional_concurrency : Limit
  pub review_rounds : Limit
  pub correction_rounds : Limit

-- `getattr(policy, dimension.value)`.
unfoldable pub limit_of : BudgetPolicy → Dimension → Limit
limit_of p Dimension.graph_steps = p.graph_steps
limit_of p Dimension.llm_calls = p.llm_calls
limit_of p Dimension.tool_calls = p.tool_calls
limit_of p Dimension.total_tokens = p.total_tokens
limit_of p Dimension.wall_time_ms = p.wall_time_ms
limit_of p Dimension.professional_concurrency = p.professional_concurrency
limit_of p Dimension.review_rounds = p.review_rounds
limit_of p Dimension.correction_rounds = p.correction_rounds

-- The copy of a policy with one limit replaced.
unfoldable pub set_limit : BudgetPolicy → Dimension → Limit → BudgetPolicy
set_limit p Dimension.graph_steps l = record p { graph_steps = l }
set_limit p Dimension.llm_calls l = record p { llm_calls = l }
set_limit p Dimension.tool_calls l = record p { tool_calls = l }
set_limit p Dimension.total_tokens l = record p { total_tokens = l }
set_limit p Dimension.wall_time_ms l = record p { wall_time_ms = l }
set_limit p Dimension.professional_concurrency l = record p { professional_concurrency = l }
set_limit p Dimension.review_rounds l = record p { review_rounds = l }
set_limit p Dimension.correction_rounds l = record p { correction_rounds = l }

-- The `BudgetContractError`s of policies, and the `ValueError` of `Limit`.
pub data PolicyError : Type 0 where
  file_count_invalid policy_id_invalid elevation_denied limit_invalid : PolicyError

-- What the validator of `Limit` checks.
pub record IsOrdered (l : Limit) : Type 0 where
  pub below_active : l.default ≤ l.active
  pub below_hard : l.active ≤ l.hard

-- Every limit of the policy is one that the validator lets through.
abbrev pub IsValidPolicy : BudgetPolicy → Type 0
IsValidPolicy p = (d : Dimension) → IsOrdered (limit_of p d)
