-- ===== src/Scheduler/Tests.antt =====
-- The scheduler on two children, the second of which depends on the first, and the theorems
-- applied to them.
use ndt_agents.Base.{
  ℕ, if◌then◌else◌, ◌≡◌, refl, true, Option, none, some, List, [], ◌∷◌, String, arith,
}
use ndt_agents.Result.{Result, ok, err}
use ndt_agents.Budget.Policy.{Limit, k1, BudgetPolicy}
use ndt_agents.Cache.Models.{TenantScope}
use ndt_agents.Cache.Backend.{same_key}
use ndt_agents.Scheduler.Data.{
  ChildTaskContext, professional, read_only, async, AssignmentStatus, schedule_cancelled,
  schedule_completed, schedule_failed, schedule_partial, ScheduledAssignment, ScheduleResult,
  SchedulerError, result_shape, same_scope, same_policy, is_valid_assignment, is_valid_result,
  QueuedSchedule, all_status, is_cancelled,
}
use ndt_agents.Scheduler.Waves.{ids, Waves, waves_from, topological_waves}
use ndt_agents.Scheduler.Order.{InOrder}
use ndt_agents.Scheduler.Complete.{
  HoldAll, Terminates, topological_waves-InOrder, topological_waves-Terminates,
}
use ndt_agents.Scheduler.Validation.{validate, kind_rule, require_binding}
use ndt_agents.Scheduler.Execution.{
  make_result, failed_dependencies, verdict, prepare_wave, launch_each, run_waves, collect,
  schedule_status, execute,
}
use ndt_agents.Scheduler.Outcome.{Launched, exceeded, unexecuted, make_assignment, launched}
use ndt_agents.Scheduler.Queue.{advance, cancel, settled_result, cancelled_result}
use ndt_agents.Scheduler.Intake.{TaskScheduler}
use ndt_agents.Scheduler.Terminal.{Operation, cancels, enqueues, run, terminal_is_final}
use ndt_agents.Scheduler.Cancelled.{cancel_lem}
use ndt_agents.Scheduler.Status.{result_shape-schedule_status}
use ndt_agents.Scheduler.Prerequisites.{AllRunnable, prepare_wave-AllRunnable}

abbrev limit : ℕ → ℕ → Limit
limit active hard = record { default = active; active = active; hard = hard }

abbrev policy : BudgetPolicy
policy = record {
  policy_id = "p";
  task_class = k1;
  graph_steps = limit 10 20;
  llm_calls = limit 3 6;
  tool_calls = limit 5 9;
  total_tokens = limit 1000 2000;
  wall_time_ms = limit 1000 2000;
  professional_concurrency = limit 2 4;
  review_rounds = limit 1 2;
  correction_rounds = limit 1 2;
}

abbrev scope : TenantScope
scope = record {
  tenant_id = "t";
  project_id = "p";
  user_id = "u";
  role_codes = "r" ∷ [];
  permission_version = "1";
}

abbrev child : String → List String → ChildTaskContext
child id dependencies = record {
  parent_task_id = "task";
  run_id = "run";
  assignment_id = id;
  kind = professional;
  scope = scope;
  dependency_assignment_ids = dependencies;
  side_effect_class = read_only;
  budget = policy;
  content = "c";
  context_manifest_sha256 = "m";
}

abbrev children : List ChildTaskContext
children = child "b" ("a" ∷ []) ∷ child "a" [] ∷ []

abbrev two_waves : Waves
two_waves = (child "a" [] ∷ []) ∷ (child "b" ("a" ∷ []) ∷ []) ∷ []

abbrev manifest : ChildTaskContext → String
manifest c = "m"

waves_of_children : topological_waves children ≡ ok two_waves
unfolding topological_waves waves_from
waves_of_children = refl

-- Two children that depend on one another are a cycle.
cycle :
    topological_waves (child "a" ("b" ∷ []) ∷ child "b" ("a" ∷ []) ∷ [])
    ≡ err SchedulerError.schedule_dependency_cycle
unfolding topological_waves waves_from
cycle = refl

children_are_valid : validate manifest 4 children ("a" ∷ "b" ∷ []) ≡ ok children
unfolding validate kind_rule topological_waves waves_from same_scope same_policy same_key
children_are_valid = refl

abbrev launch : ChildTaskContext → Launched
launch c = exceeded "BUDGET" "Stop."

-- The first child is blocked by the budget, and the second by the first.
abbrev status_after : Result SchedulerError ScheduleResult → Option (List ScheduledAssignment)
status_after (ok r) = some r.assignments
status_after (err e) = none

blocked_result :
    status_after (execute launch 1 "s" async [] (child "b" ("a" ∷ [])) (child "a" [] ∷ []))
    ≡ some (
        unexecuted
          (child "b" ("a" ∷ []))
          2
          AssignmentStatus.blocked
          "SCHEDULE_PREREQUISITE_FAILED"
          "Repair or rerun prerequisites: a"
        ∷ unexecuted (child "a" []) 1 AssignmentStatus.blocked "BUDGET" "Stop."
        ∷ [])
unfolding execute topological_waves waves_from run_waves launch_each launched make_assignment
    is_valid_assignment prepare_wave verdict failed_dependencies collect schedule_status make_result
    is_valid_result result_shape
blocked_result = refl

topological_waves-InOrder_example : InOrder [] two_waves × HoldAll (ids children) two_waves
topological_waves-InOrder_example = topological_waves-InOrder children two_waves waves_of_children

topological_waves-Terminates_example : Terminates (topological_waves children)
topological_waves-Terminates_example = topological_waves-Terminates children

abbrev result : ScheduleResult
result = record {
  schedule_id = "s";
  parent_task_id = "task";
  scope = scope;
  mode = async;
  status = schedule_cancelled;
  assignments =
      unexecuted (child "a" []) 1 AssignmentStatus.cancelled "SCHEDULE_CANCELLED" "n" ∷ [];
  waves_completed = 0;
  max_concurrency_observed = 0;
}

abbrev scheduler : TaskScheduler
scheduler = record {
  hard_professional_concurrency = 4;
  guard_policy = none;
  queue = [];
  terminal = ("s", result) ∷ [];
}

abbrev calls : List Operation
calls = enqueues "u" children ("a" ∷ "b" ∷ []) ∷ cancels "u" scope "task" ∷ []

terminal_is_final_example :
    (advance launch 1 "s" scope "task" (run manifest calls scheduler)
      ≡ (settled_result scope "task" result, run manifest calls scheduler))
    × (cancel "s" scope "task" (run manifest calls scheduler)
        ≡ (settled_result scope "task" result, run manifest calls scheduler))
terminal_is_final_example =
    terminal_is_final manifest "s" result calls scheduler launch 1 scope "task" refl

result_shape-schedule_status_example :
    (schedule_status result.assignments ≡ (
      if result_shape schedule_completed result.assignments
      then schedule_completed
      else if result_shape schedule_failed result.assignments
      then schedule_failed
      else schedule_partial))
    × (result_shape (schedule_status result.assignments) result.assignments ≡ true)
result_shape-schedule_status_example = result_shape-schedule_status result.assignments

prepare_wave-AllRunnable_example :
    AllRunnable ("x" ∷ []) [] (prepare_wave ("x" ∷ []) 1 (child "a" [] ∷ child "x" [] ∷ []) []).1
prepare_wave-AllRunnable_example =
    prepare_wave-AllRunnable ("x" ∷ []) 1 (child "a" [] ∷ child "x" [] ∷ []) []

abbrev waiting : QueuedSchedule
waiting = record {
  handle = record {
    schedule_id = "w";
    parent_task_id = "task";
    scope = scope;
    assignment_ids = "b" ∷ "a" ∷ [];
  };
  contexts = children;
  executors = "a" ∷ "b" ∷ [];
  cancelled_assignment_ids = [];
}

abbrev with_waiting : TaskScheduler
with_waiting = record scheduler { queue = ("w", waiting) ∷ [] }

waiting_is_bound : require_binding scope "task" scope "task" ≡ ok tt
unfolding require_binding same_scope same_key
waiting_is_bound = refl

cancel_lem_example :
    (cancel "w" scope "task" with_waiting ≡ (
      ok (cancelled_result "w" waiting),
      record scheduler {
        queue = [];
        terminal = ("s", result) ∷ ("w", cancelled_result "w" waiting) ∷ [];
      },
    ))
    × (all_status is_cancelled (cancelled_result "w" waiting).assignments ≡ true)
cancel_lem_example =
    cancel_lem "w" scope "task" with_waiting waiting refl refl waiting_is_bound (omega arith)
      (omega arith)
