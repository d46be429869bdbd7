-- ===== src/Scheduler/Queue.antt =====
-- The public methods of `TaskScheduler` in src/ndt_agents/orchestration/scheduler.py, on its two
-- dictionaries. The UUID that `uuid4` returns is an argument; so are `manifest`, `launch` and the
-- observed concurrency.
use ndt_agents.Base.{has, ℕ, if◌then◌else◌, Option, none, some, List, [], ◌∷◌, ◌++◌, String, str_eq}
use ndt_agents.Result.{Result, ok, err}
use ndt_agents.Dict.{lookup, insert, remove}
use ndt_agents.Cache.Models.{TenantScope}
use ndt_agents.Scheduler.Data.{
  ChildTaskContext, async, schedule_cancelled, cancelled, ScheduledAssignment, ScheduleHandle,
  ScheduleResult, QueuedSchedule, SchedulerError, schedule_size_invalid, schedule_not_found,
  schedule_not_queued, schedule_assignment_unknown,
}
use ndt_agents.Scheduler.Validation.{require_binding}
use ndt_agents.Scheduler.Execution.{make_result, execute}
use ndt_agents.Scheduler.Outcome.{Launched, unexecuted}
use ndt_agents.Scheduler.Intake.{TaskScheduler}

-- A value behind a check, with the state left alone.
abbrev pub checked : {A : Type 0} → Result SchedulerError Unit → A → Result SchedulerError A
checked (ok u) a = ok a
checked (err e) a = err e

-- The schedule is terminal: its result, for those that are bound to it.
abbrev pub settled_result :
    TenantScope → String → ScheduleResult → Result SchedulerError ScheduleResult
settled_result scope task r = checked (require_binding r.scope r.parent_task_id scope task) r

-- The end of a schedule that was taken from the queue: a result is kept, an error is not.
abbrev pub finish :
    String
    → Result SchedulerError ScheduleResult
    → TaskScheduler
    → Result SchedulerError ScheduleResult × TaskScheduler
finish schedule_id (ok r) s = (ok r, record s { terminal = insert str_eq schedule_id r s.terminal })
finish schedule_id (err e) s = (err e, s)

abbrev pub take : String → TaskScheduler → TaskScheduler
take schedule_id s = record s { queue = remove str_eq schedule_id s.queue }

abbrev pub execute_queued :
    (ChildTaskContext → Launched)
    → ℕ
    → String
    → QueuedSchedule
    → List ChildTaskContext
    → Result SchedulerError ScheduleResult
execute_queued launch observed schedule_id q [] = err schedule_size_invalid
execute_queued launch observed schedule_id q (first ∷ rest) =
    execute launch observed schedule_id async q.cancelled_assignment_ids first rest

-- The assignments of a cancelled schedule.
unfoldable pub cancelled_assignments : List ChildTaskContext → List ScheduledAssignment
cancelled_assignments [] = []
cancelled_assignments (c ∷ cs) =
    unexecuted c 1 cancelled "SCHEDULE_CANCELLED"
      "Submit a new scoped schedule if the work is still required."
    ∷ cancelled_assignments cs

abbrev pub cancelled_result : String → QueuedSchedule → ScheduleResult
cancelled_result schedule_id q = record {
  schedule_id = schedule_id;
  parent_task_id = q.handle.parent_task_id;
  scope = q.handle.scope;
  mode = async;
  status = schedule_cancelled;
  assignments = cancelled_assignments q.contexts;
  waves_completed = 0;
  max_concurrency_observed = 0;
}

-- A call whose binding to the schedule was checked takes the schedule, and finishes with `outcome`.
abbrev pub take_bound :
    String
    → Result SchedulerError ScheduleResult
    → Result SchedulerError Unit
    → TaskScheduler
    → Result SchedulerError ScheduleResult × TaskScheduler
take_bound schedule_id outcome (err e) s = (err e, s)
take_bound schedule_id outcome (ok u) s = finish schedule_id outcome (take schedule_id s)

-- A call on a queued schedule: found, bound to the caller, taken, and finished with `outcome`.
abbrev pub take_queued :
    String
    → TenantScope
    → String
    → (QueuedSchedule → Result SchedulerError ScheduleResult)
    → Option QueuedSchedule
    → TaskScheduler
    → Result SchedulerError ScheduleResult × TaskScheduler
take_queued schedule_id scope task outcome none s = (err schedule_not_found, s)
take_queued schedule_id scope task outcome (some q) s =
    take_bound schedule_id (outcome q)
      (require_binding q.handle.scope q.handle.parent_task_id scope task) s

abbrev pub on_schedule :
    String
    → TenantScope
    → String
    → (QueuedSchedule → Result SchedulerError ScheduleResult)
    → Option ScheduleResult
    → TaskScheduler
    → Result SchedulerError ScheduleResult × TaskScheduler
on_schedule schedule_id scope task outcome (some r) s = (settled_result scope task r, s)
on_schedule schedule_id scope task outcome none s =
    take_queued schedule_id scope task outcome (lookup str_eq schedule_id s.queue) s

unfoldable pub advance :
    (ChildTaskContext → Launched)
    → ℕ
    → String
    → TenantScope
    → String
    → TaskScheduler
    → Result SchedulerError ScheduleResult × TaskScheduler
unfolding execute
advance launch observed schedule_id scope task s =
    on_schedule schedule_id scope task
      (λ q. execute_queued launch observed schedule_id q q.contexts)
      (lookup str_eq schedule_id s.terminal) s

unfoldable pub cancel :
    String
    → TenantScope
    → String
    → TaskScheduler
    → Result SchedulerError ScheduleResult × TaskScheduler
unfolding cancelled_assignments make_result
cancel schedule_id scope task s =
    on_schedule schedule_id scope task (λ q. make_result (cancelled_result schedule_id q))
      (lookup str_eq schedule_id s.terminal) s

-- `queued.cancelled_assignment_ids | frozenset({assignment_id})`.
abbrev pub mark : String → QueuedSchedule → QueuedSchedule
mark assignment_id q =
    if has assignment_id q.cancelled_assignment_ids
    then q
    else record q { cancelled_assignment_ids = q.cancelled_assignment_ids ++ assignment_id ∷ [] }

abbrev pub mark_bound :
    String
    → String
    → QueuedSchedule
    → Result SchedulerError Unit
    → TaskScheduler
    → Result SchedulerError ScheduleHandle × TaskScheduler
mark_bound schedule_id assignment_id q (err e) s = (err e, s)
mark_bound schedule_id assignment_id q (ok u) s =
    if has assignment_id q.handle.assignment_ids
    then (
      ok q.handle,
      record s { queue = insert str_eq schedule_id (mark assignment_id q) s.queue },
    )
    else (err schedule_assignment_unknown, s)

abbrev pub cancel_found :
    String
    → String
    → TenantScope
    → String
    → Option QueuedSchedule
    → TaskScheduler
    → Result SchedulerError ScheduleHandle × TaskScheduler
cancel_found schedule_id assignment_id scope task none s = (err schedule_not_queued, s)
cancel_found schedule_id assignment_id scope task (some q) s =
    mark_bound schedule_id assignment_id q
      (require_binding q.handle.scope q.handle.parent_task_id scope task) s

unfoldable pub cancel_assignment :
    String
    → String
    → TenantScope
    → String
    → TaskScheduler
    → Result SchedulerError ScheduleHandle × TaskScheduler
unfolding require_binding
cancel_assignment schedule_id assignment_id scope task s =
    cancel_found schedule_id assignment_id scope task (lookup str_eq schedule_id s.queue) s
