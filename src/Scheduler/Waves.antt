-- ===== src/Scheduler/Waves.antt =====
-- `TaskScheduler._topological_waves` of src/ndt_agents/orchestration/scheduler.py. The keys of
-- `remaining` and the set `resolved` are lists of IDs; each turn of the loop takes one unit of fuel.
-- The IDs are distinct where the code calls it, so that `remaining.pop` finds each.
use ndt_agents.Base.{
  has, is_subset, ℕ, zero, suc, ◌&&◌, if◌then◌else◌, List, [], ◌∷◌, ◌++◌, String, length,
}
use ndt_agents.Result.{Result, ok, err, ◌>>=◌}
use ndt_agents.Scheduler.Data.{
  ChildTaskContext, SchedulerError, schedule_dependency_cycle, out_of_fuel,
}

abbrev pub ids : List ChildTaskContext → List String
ids [] = []
ids (c ∷ cs) = c.assignment_id ∷ ids cs

-- The contexts that are left and whose dependencies are resolved.
abbrev pub ready : List String → List String → List ChildTaskContext → List ChildTaskContext
ready remaining resolved [] = []
ready remaining resolved (c ∷ cs) =
    let rest = ready remaining resolved cs in
    if has c.assignment_id remaining && is_subset c.dependency_assignment_ids resolved
    then c ∷ rest
    else rest

-- `remaining` without the IDs of a wave.
abbrev pub without : List String → List String → List String
without gone [] = []
without gone (x ∷ xs) = let rest = without gone xs in if has x gone then rest else x ∷ rest

abbrev pub Waves : Type 0
Waves = List (List ChildTaskContext)

-- A wave in front of the later ones; an empty one is a cycle.
abbrev pub add_wave :
    List ChildTaskContext → Result SchedulerError Waves → Result SchedulerError Waves
add_wave [] later = err schedule_dependency_cycle
add_wave (c ∷ cs) later = later >>= λ waves. ok ((c ∷ cs) ∷ waves)

-- `while remaining`.
unfoldable pub waves_from :
    ℕ → List ChildTaskContext → List String → List String → Result SchedulerError Waves
waves_from fuel contexts [] resolved = ok []
waves_from zero contexts (r ∷ rs) resolved = err out_of_fuel
waves_from (suc fuel) contexts (r ∷ rs) resolved =
    let wave = ready (r ∷ rs) resolved contexts in
    let later = waves_from fuel contexts (without (ids wave) (r ∷ rs)) (resolved ++ ids wave) in
    add_wave wave later

unfoldable pub topological_waves : List ChildTaskContext → Result SchedulerError Waves
topological_waves contexts = waves_from (length contexts) contexts (ids contexts) []
