-- ===== src/Budget/Data.antt =====
-- The data of src/ndt_agents/orchestration/budget.py: events, counters, telemetry, exceptions, and
-- the object `BudgetGuard`. An event's type and an error's code are texts there; here they are the
-- constructors of `EventType` and `Code`.
use ndt_agents.Base.{ℕ, Option, List, String}
use ndt_agents.Exec.{Exec}
use ndt_agents.Budget.Policy.{Dimension, BudgetPolicy}

pub data ActionClass : Type 0 where
  low_value query_expansion standard validation finalization : ActionClass

pub data DegradationStage : Type 0 where
  normal reduce_low_value stop_expansion finalize_only stopped : DegradationStage

pub data BudgetDecision : Type 0 where
  allowed recorded denied : BudgetDecision

-- The event types that `_consume` is given.
pub data Consumption : Type 0 where
  graph_step cache_lookup review_round correction_round : Consumption

-- `consumed c` is the text of `c`, and `consumption_denied c` that text with `_denied` behind it.
pub data EventType : Type 0 where
  consumed consumption_denied : Consumption → EventType
  graph_step_reservation_consumed : EventType
  graph_steps_reservation_denied graph_steps_reserved : EventType
  graph_reservation_abandoned graph_reservation_released : EventType
  cache_hit cache_miss : EventType
  terminal_transition terminal_budget_stop_transition : EventType
  llm_call_denied llm_token_reservation_denied llm_call_reserved llm_tokens_reserved : EventType
  llm_token_reservation_exceeded llm_call_completed llm_call_failed : EventType
  identical_tool_call_denied tool_call_denied tool_call_started : EventType
  tool_call_completed tool_call_failed : EventType
  degradation_action_denied wall_time_denied : EventType
  professional_concurrency_denied professional_slot_acquired professional_slot_released : EventType

pub data Code : Type 0 where
  hard_limit_exceeded active_limit_exceeded hard_time_exceeded active_time_exceeded : Code
  degradation : DegradationStage → Code
  token_reservation_exceeded identical_tool_call : Code

-- The codes of `BudgetContractError`.
pub data ContractCode : Type 0 where
  graph_reservation_invalid token_reservation_invalid reservation_unknown : ContractCode
  actual_tokens_invalid tool_identity_invalid observation_hash_invalid : ContractCode
  tool_arguments_invalid : ContractCode
  restore_concurrency_active restore_llm_reservation_active : ContractCode

pub record BudgetEvent : Type 0 where
  pub sequence : ℕ
  pub event_type : EventType
  pub dimension : Option Dimension
  pub amount : ℕ
  pub before : ℕ
  pub after : ℕ
  pub active_limit : Option ℕ
  pub hard_limit : Option ℕ
  pub decision : BudgetDecision
  pub error_code : Option Code
  pub elapsed_ms : ℕ
  pub action_signature : Option String
  pub observation_sha256 : Option String

pub record BudgetCounters : Type 0 where
  pub graph_steps : ℕ
  pub reserved_graph_steps : ℕ
  pub terminal_transitions : ℕ
  pub terminal_budget_stops : ℕ
  pub physical_llm_calls : ℕ
  pub physical_tool_calls : ℕ
  pub actual_total_tokens : ℕ
  pub reserved_total_tokens : ℕ
  pub logical_actions : ℕ
  pub retries : ℕ
  pub llm_failures : ℕ
  pub tool_failures : ℕ
  pub cache_lookups : ℕ
  pub cache_hits : ℕ
  pub review_rounds : ℕ
  pub correction_rounds : ℕ
  pub current_professional_concurrency : ℕ
  pub peak_professional_concurrency : ℕ

pub record BudgetTelemetry : Type 0 where
  pub policy : BudgetPolicy
  pub counters : BudgetCounters
  pub elapsed_ms : ℕ
  pub degradation_stage : DegradationStage
  pub events : List BudgetEvent

-- `exceeded` is `BudgetExceeded`, which carries the telemetry of the moment; `contract` is
-- `BudgetContractError`.
pub data BudgetError : Type 0 where
  exceeded : Code → BudgetTelemetry → BudgetError
  contract : ContractCode → BudgetError

-- `_counts`, one number for each dimension.
pub record Counts : Type 0 where
  pub graph_steps : ℕ
  pub llm_calls : ℕ
  pub tool_calls : ℕ
  pub total_tokens : ℕ
  pub wall_time_ms : ℕ
  pub professional_concurrency : ℕ
  pub review_rounds : ℕ
  pub correction_rounds : ℕ

-- The numbers and the reservations that the guard keeps. A reservation's UUID is a number.
pub record Ledger : Type 0 where
  pub counts : Counts
  pub reserved_graph_steps : ℕ
  pub reserved_tokens : ℕ
  pub logical_actions : ℕ
  pub terminal_transitions : ℕ
  pub terminal_budget_stops : ℕ
  pub retries : ℕ
  pub llm_failures : ℕ
  pub tool_failures : ℕ
  pub cache_lookups : ℕ
  pub cache_hits : ℕ
  pub peak_concurrency : ℕ
  pub llm_reservations : List (ℕ × ℕ)
  pub tool_reservations : List ℕ
  pub action_history : List (String × String)

-- The clock as the sequence of what its calls return, in milliseconds, with the number of calls made.
pub record Clock : Type 0 where
  pub at : ℕ → ℕ
  pub reads : ℕ

-- `_started` is `started - carried`: what `from_telemetry` subtracts is kept apart, since it may be
-- more than the clock shows.
pub record BudgetGuard : Type 0 where
  pub policy : BudgetPolicy
  pub clock : Clock
  pub started : ℕ
  pub carried : ℕ
  pub ledger : Ledger
  pub events : List BudgetEvent

abbrev pub Guarded : Type 0 → Type 0
Guarded A = Exec BudgetGuard BudgetError A
