-- ===== src/Scheduler/Complete.antt =====
-- The loop of `TaskScheduler._topological_waves` in src/ndt_agents/orchestration/scheduler.py ends,
-- and its waves are complete and in order.
use ndt_agents.Base.{
  has, ℕ, zero, suc, ◌≤◌, ◌<◌, true, List, [], ◌∷◌, ◌++◌, String, eq_iff, length, ◌≡◌, refl, ◌⊎◌,
  inl, inr, Bool-cases, arith,
}
use mathlib.Core.Path.{subst}
use ndt_agents.Result.{Result, ok, err, ok-injective}
use ndt_agents.Scheduler.Data.{ChildTaskContext, SchedulerError, schedule_dependency_cycle}
use ndt_agents.Scheduler.Waves.{ids, ready, without, Waves, add_wave, waves_from, topological_waves}
use ndt_agents.Scheduler.Order.{
  InOrder, all_ids, ready-AllReady, has_append, has-without, length-without_less, ready_remaining,
}

add_wave-ok :
    (wave : List ChildTaskContext) (later : Result SchedulerError Waves) {ws : Waves}
    → add_wave wave later ≡ ok ws
    → (rest : Waves) × (later ≡ ok rest) × (wave ∷ rest ≡ ws)
add_wave-ok [] later h = cc
add_wave-ok (c ∷ cs) (ok rest) h = (rest, refl, ok-injective h)
add_wave-ok (c ∷ cs) (err e) h = cc

-- The waves hold every one of these IDs.
abbrev pub HoldAll : List String → Waves → Type 0
HoldAll xs ws = (x : String) → has x xs ≡ true → has x (all_ids ws) ≡ true

holds_later :
    (wave : List ChildTaskContext) (ws : Waves) (remaining : List String)
    → HoldAll (without (ids wave) remaining) ws
    → HoldAll remaining (wave ∷ ws)
holds_later wave ws remaining all x h =
    let all_left = has-without x (ids wave) remaining h in
    rw (has_append x (ids wave) (all_ids ws)) (elim (Bool-cases (has x (ids wave))) [
      | inl now ↦ rw now refl
      | inr absent ↦
          let kept : has x (without (ids wave) remaining) ≡ true = rw absent at all_left in
          rw absent (all x kept)
    ])

waves_from_lem :
    (fuel : ℕ) (contexts : List ChildTaskContext) (remaining resolved : List String) {ws : Waves}
    → waves_from fuel contexts remaining resolved ≡ ok ws
    → InOrder resolved ws × HoldAll remaining ws
unfolding waves_from
waves_from_lem fuel contexts [] resolved {ws} h =
    subst (λ v. InOrder resolved v × HoldAll [] v) (ok-injective h) (tt, λ x no. no)
waves_from_lem zero contexts (r ∷ rs) resolved h = cc
waves_from_lem (suc fuel) contexts (r ∷ rs) resolved {ws} h =
    let wave = ready (r ∷ rs) resolved contexts in
    let (rest, later, joined) = add_wave-ok wave _ h in
    let (ordered, all) =
      waves_from_lem fuel contexts (without (ids wave) (r ∷ rs)) (resolved ++ ids wave) later in
    subst (λ v. InOrder resolved v × HoldAll (r ∷ rs) v) joined
      ((ready-AllReady (r ∷ rs) resolved contexts, ordered), holds_later wave rest (r ∷ rs) all)

-- The waves of a set of contexts hold the assignment of every context, and a context depends only
-- on assignments of the waves before its own.
pub topological_waves-InOrder :
    (contexts : List ChildTaskContext) (ws : Waves)
    → topological_waves contexts ≡ ok ws
    → InOrder [] ws × HoldAll (ids contexts) ws
unfolding topological_waves
topological_waves-InOrder contexts ws h =
    waves_from_lem (length contexts) contexts (ids contexts) [] h

-- A result is waves, or the report of a cycle.
abbrev pub Terminates : Result SchedulerError Waves → Type 0
Terminates m = ((ws : Waves) × (m ≡ ok ws)) ⊎ (m ≡ err schedule_dependency_cycle)

add_wave-Terminates :
    (wave : List ChildTaskContext) (later : Result SchedulerError Waves)
    → Terminates later
    → Terminates (add_wave wave later)
add_wave-Terminates [] later h = inr refl
add_wave-Terminates (c ∷ cs) later (inl (rest, e)) = inl ((c ∷ cs) ∷ rest, rw e refl)
add_wave-Terminates (c ∷ cs) later (inr e) = inr (rw e refl)

shorter :
    (contexts : List ChildTaskContext) (remaining resolved : List String)
    (wave : List ChildTaskContext)
    → ready remaining resolved contexts ≡ wave
    → (wave ≡ []) ⊎ (length (without (ids wave) remaining) < length remaining)
shorter contexts remaining resolved [] e = inl refl
shorter contexts remaining resolved (c ∷ cs) e =
    let first : has c.assignment_id (ids (c ∷ cs)) ≡ true =
      rw ((eq_iff c.assignment_id c.assignment_id).1 refl) refl in
    inr (
      length-without_less c.assignment_id (ids (c ∷ cs)) remaining
        (ready_remaining remaining resolved contexts e) first)

waves_from-Terminates :
    (fuel : ℕ) (contexts : List ChildTaskContext) (remaining resolved : List String)
    → length remaining ≤ fuel
    → Terminates (waves_from fuel contexts remaining resolved)
unfolding waves_from
waves_from-Terminates fuel contexts [] resolved le = inl ([], refl)
waves_from-Terminates zero contexts (r ∷ rs) resolved le = absurd (omega arith)
waves_from-Terminates (suc fuel) contexts (r ∷ rs) resolved le =
    let wave = ready (r ∷ rs) resolved contexts in
    elim (shorter contexts (r ∷ rs) resolved wave refl) [
      | inl none_left ↦ rw none_left (inr refl)
      | inr less ↦ add_wave-Terminates wave _ (
          waves_from-Terminates fuel contexts (without (ids wave) (r ∷ rs)) (resolved ++ ids wave)
            (omega arith))
    ]

length-ids : (cs : List ChildTaskContext) → length (ids cs) ≤ length cs
length-ids [] = omega arith
length-ids (c ∷ cs) = omega (arith, length-ids cs)

-- As many turns of the loop as there are contexts are enough: it returns waves or reports a cycle.
pub topological_waves-Terminates :
    (contexts : List ChildTaskContext) → Terminates (topological_waves contexts)
unfolding topological_waves
topological_waves-Terminates contexts =
    waves_from-Terminates (length contexts) contexts (ids contexts) [] (length-ids contexts)
