-- ===== src/Scheduler/Outcome.antt =====
-- `TaskScheduler._from_outcome` and the children that did not run, in
-- src/ndt_agents/orchestration/scheduler.py.
use ndt_agents.Base.{ℕ, if◌then◌else◌, Option, none, some, List, String, str_eq}
use ndt_agents.Result.{Result, ok, err}
use ndt_agents.Scheduler.Data.{
  ChildTaskContext, ChildRunOutcome, AgentResult, AgentStatus, success, partial_success, needs_user,
  human_required, agent_failed, agent_blocked, AssignmentStatus, completed, failed, blocked,
  ScheduledAssignment, is_valid_assignment, is_completed, SchedulerError, assignment_invalid,
  assertion_failed,
}

-- A child that ran, or that the budget kept from running: the code and the next action.
pub data Launched : Type 0 where
  ran : ChildRunOutcome → Launched
  exceeded : String → String → Launched

abbrev pub Assignments : Type 0
Assignments = List (String × ScheduledAssignment)

-- `ScheduledAssignment(...)`, whose validator may raise.
unfoldable pub make_assignment : ScheduledAssignment → Result SchedulerError ScheduledAssignment
make_assignment a = if is_valid_assignment a then ok a else err assignment_invalid

-- An assignment that was not executed.
abbrev pub unexecuted :
    ChildTaskContext → ℕ → AssignmentStatus → String → String → ScheduledAssignment
unexecuted c wave status code next = record {
  assignment_id = c.assignment_id;
  run_id = c.run_id;
  wave = wave;
  status = status;
  execution_calls = 0;
  outcome = none;
  error_code = some code;
  next_action = some next;
}

-- `CHILD_` and the value of the status.
abbrev pub child_code : AgentStatus → String
child_code success = "CHILD_SUCCESS"
child_code partial_success = "CHILD_PARTIAL_SUCCESS"
child_code needs_user = "CHILD_NEEDS_USER"
child_code human_required = "CHILD_HUMAN_REQUIRED"
child_code agent_failed = "CHILD_FAILED"
child_code agent_blocked = "CHILD_BLOCKED"

-- `a or b`, where an empty text counts as none.
abbrev pub or_default : Option String → String → String
or_default none b = b
or_default (some a) b = if str_eq a "" then b else a

abbrev pub status_of : AgentStatus → AssignmentStatus
status_of success = completed
status_of partial_success = completed
status_of agent_failed = failed
status_of _ = blocked

abbrev pub of_result : ChildTaskContext → ChildRunOutcome → ℕ → AgentResult → ScheduledAssignment
of_result c o wave r = record {
  assignment_id = c.assignment_id;
  run_id = c.run_id;
  wave = wave;
  status = status_of r.status;
  execution_calls = 1;
  outcome = some o;
  error_code =
      if is_completed (status_of r.status)
      then none
      else some (or_default r.failure_code (child_code r.status));
  next_action =
      if is_completed (status_of r.status)
      then none
      else some "Inspect the typed child result before rescheduling dependent work.";
}

abbrev pub of_failure : ChildTaskContext → ChildRunOutcome → ℕ → ScheduledAssignment
of_failure c o wave = record {
  assignment_id = c.assignment_id;
  run_id = c.run_id;
  wave = wave;
  status = failed;
  execution_calls = o.execution_calls;
  outcome = some o;
  error_code = o.error_code;
  next_action = o.next_action;
}

abbrev pub of_success :
    ChildTaskContext
    → ChildRunOutcome
    → ℕ
    → Option AgentResult
    → Result SchedulerError ScheduledAssignment
of_success c o wave none = err assertion_failed
of_success c o wave (some r) = make_assignment (of_result c o wave r)

-- `_from_outcome`.
unfoldable pub from_outcome :
    ChildTaskContext → ChildRunOutcome → ℕ → Result SchedulerError ScheduledAssignment
unfolding make_assignment
from_outcome c o wave =
    if o.is_failed then make_assignment (of_failure c o wave) else of_success c o wave o.result

-- `launch`, which turns an exceeded budget into a blocked assignment.
unfoldable pub launched :
    ChildTaskContext → ℕ → Launched → Result SchedulerError ScheduledAssignment
unfolding from_outcome make_assignment
launched c wave (ran o) = from_outcome c o wave
launched c wave (exceeded code next) = make_assignment (unexecuted c wave blocked code next)
