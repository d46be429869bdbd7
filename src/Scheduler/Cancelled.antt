-- ===== src/Scheduler/Cancelled.antt =====
-- Cancelling a queued schedule: `TaskScheduler.cancel` of
-- src/ndt_agents/orchestration/scheduler.py.
use ndt_agents.Base.{◌≤◌, true, none, some, List, [], ◌∷◌, String, str_eq, length, ◌≡◌, refl, arith}
use ndt_agents.Result.{ok}
use ndt_agents.Dict.{lookup, insert, remove}
use ndt_agents.Cache.Models.{TenantScope}
use ndt_agents.Scheduler.Data.{
  ChildTaskContext, is_cancelled, all_status, any_status, result_shape, is_valid_result,
  QueuedSchedule,
}
use ndt_agents.Scheduler.Validation.{require_binding}
use ndt_agents.Scheduler.Execution.{make_result}
use ndt_agents.Scheduler.Intake.{TaskScheduler}
use ndt_agents.Scheduler.Queue.{cancel, cancelled_assignments, cancelled_result}

all_cancelled :
    (cs : List ChildTaskContext) → all_status is_cancelled (cancelled_assignments cs) ≡ true
unfolding cancelled_assignments
all_cancelled [] = refl
all_cancelled (c ∷ cs) = all_cancelled cs

any_cancelled :
    (cs : List ChildTaskContext)
    → 1 ≤ length cs
    → any_status is_cancelled (cancelled_assignments cs) ≡ true
unfolding cancelled_assignments
any_cancelled [] h = absurd (omega (arith, h))
any_cancelled (c ∷ cs) h = refl

length-cancelled_assignments :
    (cs : List ChildTaskContext) → length (cancelled_assignments cs) ≡ length cs
unfolding cancelled_assignments
length-cancelled_assignments [] = refl
length-cancelled_assignments (c ∷ cs) = omega (arith, length-cancelled_assignments cs)

cancelled_result_valid :
    (id : String) (q : QueuedSchedule)
    → 1 ≤ length q.contexts
    → length q.contexts ≤ 4
    → make_result (cancelled_result id q) ≡ ok (cancelled_result id q)
unfolding make_result is_valid_result result_shape
cancelled_result_valid id q low high =
    let same = length-cancelled_assignments q.contexts in
    let all = all_cancelled q.contexts in
    let some_one = any_cancelled q.contexts low in ground arith

-- Cancelling a queued schedule of one to four contexts, by a caller that is bound to it, succeeds:
-- the result, in which every assignment is cancelled, is returned and kept as terminal, and the
-- schedule leaves the queue.
pub cancel_lem :
    (id : String) (scope : TenantScope) (task : String) (s : TaskScheduler) (q : QueuedSchedule)
    → lookup str_eq id s.terminal ≡ none
    → lookup str_eq id s.queue ≡ some q
    → require_binding q.handle.scope q.handle.parent_task_id scope task ≡ ok tt
    → 1 ≤ length q.contexts
    → length q.contexts ≤ 4
    → (cancel id scope task s ≡ (
      ok (cancelled_result id q),
      record s {
        queue = remove str_eq id s.queue;
        terminal = insert str_eq id (cancelled_result id q) s.terminal;
      },
    ))
      × (all_status is_cancelled (cancelled_result id q).assignments ≡ true)
unfolding cancel
cancel_lem id scope task s q absent waits bound low high =
    (simp (absent, waits, bound, cancelled_result_valid id q low high), all_cancelled q.contexts)
