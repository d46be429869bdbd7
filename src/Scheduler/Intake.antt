-- ===== src/Scheduler/Intake.antt =====
-- The state of `TaskScheduler` in src/ndt_agents/orchestration/scheduler.py, and its methods
-- `enqueue` and `run_sync`. The UUID that `uuid4` returns is an argument.
use ndt_agents.Base.{
  ℕ, Bool, false, not, if◌then◌else◌, Option, none, some, List, [], ◌∷◌, String, str_eq,
}
use ndt_agents.Result.{Result, ok, err, ◌>>=◌}
use ndt_agents.Dict.{insert}
use ndt_agents.Budget.Policy.{BudgetPolicy}
use ndt_agents.Scheduler.Data.{
  ChildTaskContext, sync, ScheduleHandle, ScheduleResult, QueuedSchedule, same_policy,
  SchedulerError, schedule_size_invalid, schedule_budget_guard_mismatch,
}
use ndt_agents.Scheduler.Waves.{ids}
use ndt_agents.Scheduler.Validation.{validate}
use ndt_agents.Scheduler.Execution.{execute}
use ndt_agents.Scheduler.Outcome.{Launched}

pub record TaskScheduler : Type 0 where
  pub hard_professional_concurrency : ℕ
  pub guard_policy : Option BudgetPolicy
  pub queue : List (String × QueuedSchedule)
  pub terminal : List (String × ScheduleResult)

-- `self._budget_guard is not None and self._budget_guard.policy != first.budget`.
abbrev pub guard_mismatch : Option BudgetPolicy → BudgetPolicy → Bool
guard_mismatch none budget = false
guard_mismatch (some p) budget = not (same_policy p budget)

abbrev pub handle_of : String → ChildTaskContext → List ChildTaskContext → ScheduleHandle
handle_of schedule_id first rest = record {
  schedule_id = schedule_id;
  parent_task_id = first.parent_task_id;
  scope = first.scope;
  assignment_ids = ids (first ∷ rest);
}

-- What `enqueue` does with the contexts that it validated.
abbrev pub enqueue_prepared :
    String
    → List String
    → Result SchedulerError (List ChildTaskContext)
    → TaskScheduler
    → Result SchedulerError ScheduleHandle × TaskScheduler
enqueue_prepared schedule_id executors (err e) s = (err e, s)
enqueue_prepared schedule_id executors (ok []) s = (err schedule_size_invalid, s)
enqueue_prepared schedule_id executors (ok (first ∷ rest)) s =
    if guard_mismatch s.guard_policy first.budget
    then (err schedule_budget_guard_mismatch, s)
    else (
      ok (handle_of schedule_id first rest),
      record s {
        queue =
            insert str_eq schedule_id
              (record {
                handle = handle_of schedule_id first rest;
                contexts = first ∷ rest;
                executors = executors;
                cancelled_assignment_ids = [];
              })
              s.queue;
      },
    )

unfoldable pub enqueue :
    (ChildTaskContext → String)
    → String
    → List ChildTaskContext
    → List String
    → TaskScheduler
    → Result SchedulerError ScheduleHandle × TaskScheduler
unfolding validate
enqueue manifest schedule_id contexts executors s =
    enqueue_prepared schedule_id executors
      (validate manifest s.hard_professional_concurrency contexts executors) s

-- `run_sync`.
abbrev run_prepared :
    (ChildTaskContext → Launched)
    → ℕ
    → String
    → List ChildTaskContext
    → Result SchedulerError ScheduleResult
run_prepared launch observed schedule_id [] = err schedule_size_invalid
run_prepared launch observed schedule_id (first ∷ rest) =
    execute launch observed schedule_id sync [] first rest

unfoldable pub run_sync :
    (ChildTaskContext → String)
    → (ChildTaskContext → Launched)
    → ℕ
    → String
    → List ChildTaskContext
    → List String
    → TaskScheduler
    → Result SchedulerError ScheduleResult × TaskScheduler
unfolding validate execute
run_sync manifest launch observed schedule_id contexts executors s = (
  validate manifest s.hard_professional_concurrency contexts executors >>= λ prepared.
      run_prepared launch observed schedule_id prepared,
  s,
)
