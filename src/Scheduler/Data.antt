-- ===== src/Scheduler/Data.antt =====
-- The types of src/ndt_agents/orchestration/scheduler.py, and what it reads of the contexts and
-- outcomes of src/ndt_agents/orchestration/child_models.py. UUIDs are their texts. `content` of a
-- context stands for the fields that only its manifest's digest depends on.
use ndt_agents.Base.{
  ℕ, Bool, true, false, ◌&&◌, ◌||◌, not, Option, is_some, List, [], ◌∷◌, String, str_eq, ◌==◌, leb,
  length,
}
use ndt_agents.Budget.Policy.{Limit, TaskClass, g0, p1, p2, p3, k1, BudgetPolicy}
use ndt_agents.Cache.Models.{TenantScope}
use ndt_agents.Cache.Backend.{same_key}

pub data ScheduleMode : Type 0 where
  sync async : ScheduleMode

pub data ScheduleStatus : Type 0 where
  queued running schedule_completed schedule_partial schedule_failed schedule_cancelled :
      ScheduleStatus

pub data AssignmentStatus : Type 0 where
  completed failed blocked cancelled : AssignmentStatus

pub data ChildAgentKind : Type 0 where
  general professional : ChildAgentKind

pub data ChildSideEffectClass : Type 0 where
  read_only mutating : ChildSideEffectClass

pub data AgentStatus : Type 0 where
  success partial_success needs_user human_required agent_failed agent_blocked : AgentStatus

pub record AgentResult : Type 0 where
  pub status : AgentStatus
  pub failure_code : Option String

pub record ChildTaskContext : Type 0 where
  pub parent_task_id : String
  pub run_id : String
  pub assignment_id : String
  pub kind : ChildAgentKind
  pub scope : TenantScope
  pub dependency_assignment_ids : List String
  pub side_effect_class : ChildSideEffectClass
  pub budget : BudgetPolicy
  pub content : String
  pub context_manifest_sha256 : String

pub record ChildRunOutcome : Type 0 where
  pub is_failed : Bool
  pub result : Option AgentResult
  pub execution_calls : ℕ
  pub error_code : Option String
  pub next_action : Option String

pub record ScheduledAssignment : Type 0 where
  pub assignment_id : String
  pub run_id : String
  pub wave : ℕ
  pub status : AssignmentStatus
  pub execution_calls : ℕ
  pub outcome : Option ChildRunOutcome
  pub error_code : Option String
  pub next_action : Option String

pub record ScheduleHandle : Type 0 where
  pub schedule_id : String
  pub parent_task_id : String
  pub scope : TenantScope
  pub assignment_ids : List String

pub record ScheduleResult : Type 0 where
  pub schedule_id : String
  pub parent_task_id : String
  pub scope : TenantScope
  pub mode : ScheduleMode
  pub status : ScheduleStatus
  pub assignments : List ScheduledAssignment
  pub waves_completed : ℕ
  pub max_concurrency_observed : ℕ

-- `_QueuedSchedule`; of the executors, the assignments that have one.
pub record QueuedSchedule : Type 0 where
  pub handle : ScheduleHandle
  pub contexts : List ChildTaskContext
  pub executors : List String
  pub cancelled_assignment_ids : List String

-- The codes of `SchedulerError`; then a failed validator or `assert`, and the end of the fuel.
pub data SchedulerError : Type 0 where
  schedule_size_invalid schedule_scope_mismatch schedule_assignment_duplicate
        schedule_context_integrity_failed schedule_executor_mismatch schedule_dependency_invalid
        schedule_general_invalid schedule_budget_mismatch schedule_concurrency_denied
        schedule_hard_limit_denied schedule_dependency_cycle schedule_budget_guard_mismatch
        schedule_not_found schedule_not_queued schedule_assignment_unknown schedule_binding_denied
        assignment_invalid result_invalid assertion_failed out_of_fuel :
      SchedulerError

abbrev pub is_completed : AssignmentStatus → Bool
is_completed completed = true
is_completed _ = false

abbrev pub is_cancelled : AssignmentStatus → Bool
is_cancelled cancelled = true
is_cancelled _ = false

-- `ScheduledAssignment.validate_terminal_shape`, past its check of an executed assignment.
abbrev has_terminal_shape : AssignmentStatus → Bool → Bool → Bool → Bool
has_terminal_shape completed outcome error next = outcome && not (error || next)
has_terminal_shape _ outcome error next = error && next

-- The validator of `ScheduledAssignment`; the lengths of its texts are not checked here.
unfoldable pub is_valid_assignment : ScheduledAssignment → Bool
is_valid_assignment a =
    (is_some a.outcome || not (a.execution_calls == 1))
    && has_terminal_shape a.status (is_some a.outcome) (is_some a.error_code)
        (is_some a.next_action)

abbrev pub all_status : (AssignmentStatus → Bool) → List ScheduledAssignment → Bool
all_status p [] = true
all_status p (a ∷ as') = p a.status && all_status p as'

abbrev pub any_status : (AssignmentStatus → Bool) → List ScheduledAssignment → Bool
any_status p [] = false
any_status p (a ∷ as') = p a.status || any_status p as'

-- The set of the statuses is the set of one status.
abbrev pub only_status : (AssignmentStatus → Bool) → List ScheduledAssignment → Bool
only_status p as' = any_status p as' && all_status p as'

-- `ScheduleResult.validate_terminal_shape`.
unfoldable pub result_shape : ScheduleStatus → List ScheduledAssignment → Bool
result_shape queued as' = false
result_shape running as' = false
result_shape schedule_completed as' = only_status is_completed as'
result_shape schedule_cancelled as' = only_status is_cancelled as'
result_shape schedule_partial as' = any_status is_completed as'
result_shape schedule_failed as' = not (any_status is_completed as')

-- The bounds of `ScheduleResult`, and its validator.
unfoldable pub is_valid_result : ScheduleResult → Bool
unfolding result_shape
is_valid_result r =
    leb 1 (length r.assignments)
    && (leb (length r.assignments) 4
        && (leb r.waves_completed 4
            && (leb r.max_concurrency_observed 4 && result_shape r.status r.assignments)))

-- Equality of scopes.
unfoldable pub same_scope : TenantScope → TenantScope → Bool
same_scope a b =
    str_eq a.tenant_id b.tenant_id
    && (str_eq a.project_id b.project_id
        && (str_eq a.user_id b.user_id
            && (same_key a.role_codes b.role_codes
                && str_eq a.permission_version b.permission_version)))

abbrev same_limit : Limit → Limit → Bool
same_limit a b = (a.default == b.default) && ((a.active == b.active) && (a.hard == b.hard))

abbrev class_index : TaskClass → ℕ
class_index g0 = 0
class_index p1 = 1
class_index p2 = 2
class_index p3 = 3
class_index k1 = 4

-- Equality of policies, and of their JSON texts.
unfoldable pub same_policy : BudgetPolicy → BudgetPolicy → Bool
same_policy a b =
    str_eq a.policy_id b.policy_id
    && ((class_index a.task_class == class_index b.task_class)
        && (same_limit a.graph_steps b.graph_steps
            && (same_limit a.llm_calls b.llm_calls
                && (same_limit a.tool_calls b.tool_calls
                    && (same_limit a.total_tokens b.total_tokens
                        && (same_limit a.wall_time_ms b.wall_time_ms
                            && (same_limit a.professional_concurrency b.professional_concurrency
                                && (same_limit a.review_rounds b.review_rounds
                                    && same_limit a.correction_rounds b.correction_rounds))))))))
