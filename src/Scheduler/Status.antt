-- ===== src/Scheduler/Status.antt =====
-- The status of a schedule's result in src/ndt_agents/orchestration/scheduler.py.
use ndt_agents.Base.{true, if◌then◌else◌, List, ◌≡◌, refl, inl, inr, Bool-cases}
use ndt_agents.Scheduler.Data.{
  ScheduledAssignment, schedule_completed, schedule_failed, schedule_partial, is_completed,
  only_status, any_status, result_shape,
}
use ndt_agents.Scheduler.Execution.{schedule_status}

-- The status that the scheduler computes is the first of completed, failed and partial that the
-- validator of `ScheduleResult` accepts for the assignments, for any assignments, none included; so
-- the validator accepts the status.
pub result_shape-schedule_status :
    (assignments : List ScheduledAssignment)
    → (schedule_status assignments ≡ (
        if result_shape schedule_completed assignments
        then schedule_completed
        else if result_shape schedule_failed assignments
        then schedule_failed
        else schedule_partial))
      × (result_shape (schedule_status assignments) assignments ≡ true)
unfolding schedule_status result_shape
result_shape-schedule_status assignments =
    elim (Bool-cases (only_status is_completed assignments)) [
      | inl only ↦ rw (only, only) (refl, refl)
      | inr mixed ↦ elim (Bool-cases (any_status is_completed assignments)) [
        | inl any ↦ rw (mixed, any, any) (refl, refl)
        | inr not_any ↦ rw (mixed, not_any, not_any) (refl, refl)
      ]
    ]
