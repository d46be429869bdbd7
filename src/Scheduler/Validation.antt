-- ===== src/Scheduler/Validation.antt =====
-- `TaskScheduler._validate` and `_require_binding` of src/ndt_agents/orchestration/scheduler.py.
-- `child_context_manifest_sha256` is the argument `manifest`.
use ndt_agents.Base.{
  has, is_subset, ℕ, Bool, true, false, not, ◌&&◌, ◌||◌, if◌then◌else◌, List, [], ◌∷◌, String,
  str_eq, length, ltb, ◌==◌,
}
use ndt_agents.Result.{Result, ok, err, ◌>>=◌}
use ndt_agents.Cache.Models.{TenantScope}
use ndt_agents.Scheduler.Data.{
  ChildTaskContext, ChildAgentKind, general, professional, same_scope, same_policy, SchedulerError,
  schedule_size_invalid, schedule_scope_mismatch, schedule_assignment_duplicate,
  schedule_context_integrity_failed, schedule_executor_mismatch, schedule_dependency_invalid,
  schedule_general_invalid, schedule_budget_mismatch, schedule_concurrency_denied,
  schedule_hard_limit_denied, schedule_binding_denied,
}
use ndt_agents.Scheduler.Waves.{ids, topological_waves}

-- `all(p(item) for item in prepared)`.
abbrev pub every : (ChildTaskContext → Bool) → List ChildTaskContext → Bool
every p [] = true
every p (c ∷ cs) = p c && every p cs

-- `len(set(xs)) == len(xs)`.
abbrev pub are_distinct : List String → Bool
are_distinct [] = true
are_distinct (x ∷ xs) = not (has x xs) && are_distinct xs

abbrev is_general : ChildAgentKind → Bool
is_general general = true
is_general professional = false

abbrev shares_task : ChildTaskContext → ChildTaskContext → Bool
shares_task first c = str_eq c.parent_task_id first.parent_task_id && same_scope c.scope first.scope

abbrev has_valid_dependencies : List String → ChildTaskContext → Bool
has_valid_dependencies known c =
    not (has c.assignment_id c.dependency_assignment_ids)
    && is_subset c.dependency_assignment_ids known

abbrev is_empty : List String → Bool
is_empty [] = true
is_empty (x ∷ xs) = false

-- The rules for a schedule that has a general child.
abbrev general_rule : ChildTaskContext → List ChildTaskContext → Result SchedulerError Unit
general_rule first rest =
    if (length rest == 0) && is_empty first.dependency_assignment_ids
    then ok tt
    else err schedule_general_invalid

-- The rules for a schedule of professional children.
abbrev professional_rule : ℕ → ChildTaskContext → List ChildTaskContext → Result SchedulerError Unit
professional_rule hard_concurrency first rest =
    let limit = first.budget.professional_concurrency in
    if not (every (λ c. same_policy c.budget first.budget) rest)
    then err schedule_budget_mismatch
    else if ltb limit.active 1 || ltb hard_concurrency limit.active
    then err schedule_concurrency_denied
    else if ltb hard_concurrency limit.hard
    then err schedule_hard_limit_denied
    else ok tt

-- The rules of the children's kinds.
unfoldable pub kind_rule : ℕ → ChildTaskContext → List ChildTaskContext → Result SchedulerError Unit
kind_rule hard_concurrency first rest =
    if not (every (λ c. not (is_general c.kind)) (first ∷ rest))
    then general_rule first rest
    else professional_rule hard_concurrency first rest

unfoldable pub validate :
    (ChildTaskContext → String)
    → ℕ
    → List ChildTaskContext
    → List String
    → Result SchedulerError (List ChildTaskContext)
unfolding topological_waves
validate manifest hard_concurrency [] executors = err schedule_size_invalid
validate manifest hard_concurrency (first ∷ rest) executors =
    let prepared = first ∷ rest in
    let known = ids prepared in
    if ltb 4 (length prepared)
    then err schedule_size_invalid
    else if not (every (shares_task first) prepared)
    then err schedule_scope_mismatch
    else if not (are_distinct known)
    then err schedule_assignment_duplicate
    else if not (every (λ c. str_eq c.context_manifest_sha256 (manifest c)) prepared)
    then err schedule_context_integrity_failed
    else if not (is_subset executors known && is_subset known executors)
    then err schedule_executor_mismatch
    else if not (every (has_valid_dependencies known) prepared)
    then err schedule_dependency_invalid
    else kind_rule hard_concurrency first rest >>= λ _.
        topological_waves prepared >>= λ waves. ok prepared

-- `_require_binding`.
unfoldable pub require_binding :
    TenantScope → String → TenantScope → String → Result SchedulerError Unit
require_binding stored_scope stored_task requested_scope requested_task =
    if same_scope stored_scope requested_scope && str_eq stored_task requested_task
    then ok tt
    else err schedule_binding_denied
