-- ===== src/Scheduler/Terminal.antt =====
-- A terminal result of `TaskScheduler` in src/ndt_agents/orchestration/scheduler.py is final.
use ndt_agents.Base.{
  has, ℕ, false, Option, none, some, List, [], ◌∷◌, String, str_eq, eq_iff, ◌≡◌, refl, ◌∙◌, inl,
  inr, Bool-cases,
}
use ndt_agents.Result.{Result, ok, err}
use ndt_agents.Dict.{Decides, lookup, lookup-insert-other}
use ndt_agents.Cache.Models.{TenantScope}
use ndt_agents.Scheduler.Data.{ChildTaskContext, ScheduleResult, QueuedSchedule, SchedulerError}
use ndt_agents.Scheduler.Validation.{require_binding}
use ndt_agents.Scheduler.Outcome.{Launched}
use ndt_agents.Scheduler.Queue.{
  advance, cancel, cancel_assignment, cancel_found, on_schedule, take_queued, finish, take,
  take_bound, mark_bound, settled_result,
}
use ndt_agents.Scheduler.Intake.{TaskScheduler, enqueue, enqueue_prepared, guard_mismatch}

pub text-Decides : Decides str_eq
text-Decides = record { sound = λ a b. (eq_iff a b).0; complete = λ a. (eq_iff a a).1 refl }

-- The calls that change a scheduler.
pub data Operation : Type 0 where
  enqueues : String → List ChildTaskContext → List String → Operation
  advances : (ChildTaskContext → Launched) → ℕ → String → TenantScope → String → Operation
  cancels : String → TenantScope → String → Operation
  cancels_assignment : String → String → TenantScope → String → Operation

module _ (manifest : ChildTaskContext → String) where
  unfoldable pub step : Operation → TaskScheduler → TaskScheduler
  step (enqueues schedule_id contexts executors) s =
      (enqueue manifest schedule_id contexts executors s).1
  step (advances launch observed schedule_id scope task) s =
      (advance launch observed schedule_id scope task s).1
  step (cancels schedule_id scope task) s = (cancel schedule_id scope task s).1
  step (cancels_assignment schedule_id assignment_id scope task) s =
      (cancel_assignment schedule_id assignment_id scope task s).1

  unfoldable pub run : List Operation → TaskScheduler → TaskScheduler
  run [] s = s
  run (o ∷ os) s = run os (step o s)

-- The result that is kept under the ID.
abbrev pub Keeps : String → ScheduleResult → TaskScheduler → Type 0
Keeps id r s = lookup str_eq id s.terminal ≡ some r

module _ (id : String) (r : ScheduleResult) where
  differs :
      (k : String) (s : TaskScheduler)
      → lookup str_eq k s.terminal ≡ none
      → Keeps id r s
      → str_eq k id ≡ false
  differs k s unknown kept = elim (Bool-cases (str_eq k id)) [
    | inl e ↦
        let clash : lookup str_eq id s.terminal ≡ none = rw (← (eq_iff k id).0 e) unknown in cc
    | inr n ↦ n
  ]

  finish-Keeps :
      (k : String) (out : Result SchedulerError ScheduleResult) (s : TaskScheduler)
      → str_eq k id ≡ false
      → Keeps id r s
      → Keeps id r (finish k out s).1
  finish-Keeps k (ok x) s n kept = lookup-insert-other text-Decides k id x s.terminal n ∙ kept
  finish-Keeps k (err e) s n kept = kept

  take_bound-Keeps :
      (k : String) (out : Result SchedulerError ScheduleResult) (b : Result SchedulerError Unit)
      (s : TaskScheduler)
      → str_eq k id ≡ false
      → Keeps id r s
      → Keeps id r (take_bound k out b s).1
  take_bound-Keeps k out (err e) s n kept = kept
  take_bound-Keeps k out (ok u) s n kept = finish-Keeps k out (take k s) n kept

  take_queued-Keeps :
      (k : String) (scope : TenantScope) (task : String)
      (outcome : QueuedSchedule → Result SchedulerError ScheduleResult) (q : Option QueuedSchedule)
      (s : TaskScheduler)
      → str_eq k id ≡ false
      → Keeps id r s
      → Keeps id r (take_queued k scope task outcome q s).1
  take_queued-Keeps k scope task outcome none s n kept = kept
  take_queued-Keeps k scope task outcome (some q) s n kept =
      take_bound-Keeps k (outcome q)
        (require_binding q.handle.scope q.handle.parent_task_id scope task) s n kept

  on_schedule-Keeps :
      (k : String) (scope : TenantScope) (task : String)
      (outcome : QueuedSchedule → Result SchedulerError ScheduleResult)
      (found : Option ScheduleResult) (s : TaskScheduler)
      → lookup str_eq k s.terminal ≡ found
      → Keeps id r s
      → Keeps id r (on_schedule k scope task outcome found s).1
  on_schedule-Keeps k scope task outcome (some x) s e kept = kept
  on_schedule-Keeps k scope task outcome none s e kept =
      take_queued-Keeps k scope task outcome (lookup str_eq k s.queue) s (differs k s e kept) kept

  mark_bound-Keeps :
      (k a : String) (q : QueuedSchedule) (b : Result SchedulerError Unit) (s : TaskScheduler)
      → Keeps id r s
      → Keeps id r (mark_bound k a q b s).1
  mark_bound-Keeps k a q (err e) s kept = kept
  mark_bound-Keeps k a q (ok u) s kept = elim (Bool-cases (has a q.handle.assignment_ids)) [
    | inl h ↦ rw h kept
    | inr h ↦ rw h kept
  ]

  cancel_found-Keeps :
      (k a : String) (scope : TenantScope) (task : String) (q : Option QueuedSchedule)
      (s : TaskScheduler)
      → Keeps id r s
      → Keeps id r (cancel_found k a scope task q s).1
  cancel_found-Keeps k a scope task none s kept = kept
  cancel_found-Keeps k a scope task (some q) s kept =
      mark_bound-Keeps k a q (require_binding q.handle.scope q.handle.parent_task_id scope task) s
        kept

  enqueue_prepared-Keeps :
      (k : String) (executors : List String) (out : Result SchedulerError (List ChildTaskContext))
      (s : TaskScheduler)
      → Keeps id r s
      → Keeps id r (enqueue_prepared k executors out s).1
  enqueue_prepared-Keeps k executors (err e) s kept = kept
  enqueue_prepared-Keeps k executors (ok []) s kept = kept
  enqueue_prepared-Keeps k executors (ok (first ∷ rest)) s kept =
      elim (Bool-cases (guard_mismatch s.guard_policy first.budget)) [
        | inl h ↦ rw h kept
        | inr h ↦ rw h kept
      ]

  module _ (manifest : ChildTaskContext → String) where
    step-Keeps : (o : Operation) (s : TaskScheduler) → Keeps id r s → Keeps id r (step manifest o s)
    unfolding step enqueue advance cancel cancel_assignment
    step-Keeps (enqueues k contexts executors) s kept = enqueue_prepared-Keeps k executors _ s kept
    step-Keeps (advances launch observed k scope task) s kept =
        on_schedule-Keeps k scope task _ (lookup str_eq k s.terminal) s refl kept
    step-Keeps (cancels k scope task) s kept =
        on_schedule-Keeps k scope task _ (lookup str_eq k s.terminal) s refl kept
    step-Keeps (cancels_assignment k a scope task) s kept =
        cancel_found-Keeps k a scope task (lookup str_eq k s.queue) s kept

    run-Keeps :
        (os : List Operation) (s : TaskScheduler) → Keeps id r s → Keeps id r (run manifest os s)
    unfolding run
    run-Keeps [] s kept = kept
    run-Keeps (o ∷ os) s kept = run-Keeps os (step manifest o s) (step-Keeps o s kept)

-- Once a schedule has a terminal result, every later advance and every later cancel of it, after
-- whatever calls in between, answers with that result (or denies the binding) and changes nothing.
pub terminal_is_final :
    (manifest : ChildTaskContext → String) (id : String) (r : ScheduleResult) (os : List Operation)
    (s : TaskScheduler) (launch : ChildTaskContext → Launched) (observed : ℕ) (scope : TenantScope)
    (task : String)
    → lookup str_eq id s.terminal ≡ some r
    → (advance launch observed id scope task (run manifest os s)
        ≡ (settled_result scope task r, run manifest os s))
      × (cancel id scope task (run manifest os s)
          ≡ (settled_result scope task r, run manifest os s))
unfolding advance cancel
terminal_is_final manifest id r os s launch observed scope task h =
    let kept = run-Keeps id r manifest os s h in (rw kept refl, rw kept refl)
