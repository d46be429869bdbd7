-- ===== src/Scheduler/Execution.antt =====
-- `TaskScheduler._execute` of src/ndt_agents/orchestration/scheduler.py. What
-- the professional slot and `ChildSubgraph.run` make of a context is the argument `launch`, and the
-- concurrency that was observed is an argument too. The batches of read-only children, which bound
-- that concurrency, run one after another here: their results do not depend on one another.
use Prim.Native.String.{◌++◌ as str_append}
use ndt_agents.Base.{
  has, ℕ, suc, Bool, true, false, not, ◌&&◌, ◌||◌, if◌then◌else◌, Option, none, some, List, [], ◌∷◌,
  String, str_eq, length,
}
use ndt_agents.Result.{Result, ok, err, ◌>>=◌}
use ndt_agents.Dict.{lookup, insert}
use ndt_agents.Scheduler.Data.{
  ChildTaskContext, ChildSideEffectClass, read_only, mutating, ScheduleMode, ScheduleStatus,
  schedule_completed, schedule_partial, schedule_failed, blocked, cancelled, ScheduledAssignment,
  ScheduleResult, is_valid_result, is_completed, only_status, any_status, SchedulerError,
  result_invalid,
}
use ndt_agents.Scheduler.Waves.{topological_waves, Waves}
use ndt_agents.Scheduler.Outcome.{Assignments, unexecuted, launched, Launched}

abbrev pub is_done : Option ScheduledAssignment → Bool
is_done none = false
is_done (some a) = is_completed a.status

-- The dependencies that are not completed. Each is in an earlier wave, and so has its assignment.
unfoldable pub failed_dependencies : List String → Assignments → List String
failed_dependencies [] done = []
failed_dependencies (d ∷ ds) done =
    let rest = failed_dependencies ds done in
    if is_done (lookup str_eq d done) then rest else d ∷ rest

-- `", ".join(xs)`.
abbrev pub joined : List String → String
joined [] = ""
joined (x ∷ []) = x
joined (x ∷ y ∷ ys) = str_append x (str_append ", " (joined (y ∷ ys)))

abbrev pub blocked_by : ChildTaskContext → ℕ → List String → Option ScheduledAssignment
blocked_by c wave [] = none
blocked_by c wave (d ∷ ds) = some (
    unexecuted c wave blocked "SCHEDULE_PREREQUISITE_FAILED"
      (str_append "Repair or rerun prerequisites: " (joined (d ∷ ds))))

-- The assignment of a context that is not to run: it was cancelled, or a prerequisite failed.
unfoldable pub verdict :
    List String → ℕ → ChildTaskContext → Assignments → Option ScheduledAssignment
unfolding failed_dependencies
verdict cancelled_ids wave c done =
    if has c.assignment_id cancelled_ids
    then some (
        unexecuted c wave cancelled "SCHEDULE_ASSIGNMENT_CANCELLED"
          "Submit a new schedule if this assignment is still required.")
    else blocked_by c wave (failed_dependencies c.dependency_assignment_ids done)

abbrev pub settled : ChildTaskContext → Option ScheduledAssignment → Assignments → Assignments
settled c none done = done
settled c (some a) done = insert str_eq c.assignment_id a done

abbrev pub still :
    ChildTaskContext → Option ScheduledAssignment → List ChildTaskContext → List ChildTaskContext
still c none cs = c ∷ cs
still c (some a) cs = cs

-- The first loop over a wave: what is settled without running, and the rest, which is to run.
unfoldable pub prepare_wave :
    List String → ℕ → List ChildTaskContext → Assignments → Assignments × List ChildTaskContext
prepare_wave cancelled_ids wave [] done = (done, [])
prepare_wave cancelled_ids wave (c ∷ cs) done =
    let v = verdict cancelled_ids wave c done in
    let (after, runnable) = prepare_wave cancelled_ids wave cs (settled c v done) in
    (after, still c v runnable)

abbrev is_read_only : ChildSideEffectClass → Bool
is_read_only read_only = true
is_read_only mutating = false

-- The runnable contexts whose side effects are read only (or not).
abbrev pub of_class : Bool → List ChildTaskContext → List ChildTaskContext
of_class wanted [] = []
of_class wanted (c ∷ cs) =
    let rest = of_class wanted cs in
    let b = is_read_only c.side_effect_class in
    if (b && wanted) || (not b && not wanted) then c ∷ rest else rest

module _ (launch : ChildTaskContext → Launched) where
  -- The contexts launched in turn, and their assignments put into `completed`.
  unfoldable pub launch_each :
      ℕ → List ChildTaskContext → Assignments → Result SchedulerError Assignments
  launch_each wave [] done = ok done
  launch_each wave (c ∷ cs) done =
      launched c wave (launch c) >>= λ a. launch_each wave cs (insert str_eq a.assignment_id a done)

  -- The loop over the waves.
  unfoldable pub run_waves :
      List String → ℕ → Waves → Assignments → Result SchedulerError Assignments
  run_waves cancelled_ids wave [] done = ok done
  run_waves cancelled_ids wave (w ∷ ws) done =
      let (prepared, runnable) = prepare_wave cancelled_ids wave w done in
      launch_each wave (of_class true runnable) prepared >>= λ read.
      launch_each wave (of_class false runnable) read >>= λ written.
      run_waves cancelled_ids (suc wave) ws written

-- `tuple(completed[item.assignment_id] for item in contexts)`.
unfoldable pub collect : List ChildTaskContext → Assignments → List ScheduledAssignment
collect [] done = []
collect (c ∷ cs) done =
    let rest = collect cs done in
    elim (lookup str_eq c.assignment_id done) [ none ↦ rest | some a ↦ a ∷ rest ]

-- The status of the schedule, from those of its assignments.
unfoldable pub schedule_status : List ScheduledAssignment → ScheduleStatus
schedule_status assignments =
    if only_status is_completed assignments
    then schedule_completed
    else if any_status is_completed assignments
    then schedule_partial
    else schedule_failed

-- `ScheduleResult(...)`, whose validator may raise.
unfoldable pub make_result : ScheduleResult → Result SchedulerError ScheduleResult
make_result r = if is_valid_result r then ok r else err result_invalid

-- `_execute`, of the first context and the others.
unfoldable pub execute :
    (ChildTaskContext → Launched)
    → ℕ
    → String
    → ScheduleMode
    → List String
    → ChildTaskContext
    → List ChildTaskContext
    → Result SchedulerError ScheduleResult
unfolding topological_waves run_waves make_result
execute launch observed schedule_id mode cancelled_ids first rest =
    topological_waves (first ∷ rest) >>= λ waves.
    run_waves launch cancelled_ids 1 waves [] >>= λ done.
    let assignments = collect (first ∷ rest) done in
    make_result (record {
      schedule_id = schedule_id;
      parent_task_id = first.parent_task_id;
      scope = first.scope;
      mode = mode;
      status = schedule_status assignments;
      assignments = assignments;
      waves_completed = length waves;
      max_concurrency_observed = observed;
    })
