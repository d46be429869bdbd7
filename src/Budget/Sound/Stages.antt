-- ===== src/Budget/Sound/Stages.antt =====
-- What a permitted action says of the use of each limit.
use native.Mathlib.Nat.{le_of_mul-le-mul_left, mul-le-mul_left}
use ndt_agents.Base.{
  ℕ, ◌+◌, ◌*◌, ◌≤◌, ◌<◌, ◌≡◌, sym, ap, ◌∙◌, if◌then◌else◌, inl, inr, Bool, true, false, List, [],
  ◌∷◌, ltb, arith, Bool-cases,
}
use mathlib.Core.Bool.{true≢false}
use ndt_agents.Budget.Policy.{Dimension, graph_steps, BudgetPolicy, limit_of}
use ndt_agents.Budget.Data.{
  standard, stopped, finalize_only, stop_expansion, reduce_low_value, normal, Ledger,
}
use ndt_agents.Budget.Stage.{
  usage, staged, ratios, max_ratio, at_least, stage_of_ratio, degradation_stage,
}
use ndt_agents.Budget.Checks.{stage_denies}

-- A share that is reached is passed on to a greater ratio.
at_least_mono :
    (percent v n w m : ℕ) → 0 < n → percent * n ≤ 100 * v → v * m ≤ w * n → percent * m ≤ 100 * w
at_least_mono percent v n w m pos reached le =
    le_of_mul-le-mul_left {k = n} (grind (arith, mul-le-mul_left m reached, mul-le-mul_left 100 le))
      pos

abbrev AllPos : List (ℕ × ℕ) → Type 0
AllPos [] = Unit
AllPos ((v, n) ∷ rest) = (0 < n) × AllPos rest

-- Some ratio of the list reaches the percentage.
abbrev pub any_reached : ℕ → List (ℕ × ℕ) → Bool
any_reached percent [] = false
any_reached percent (r ∷ rest) = if at_least percent r then true else any_reached percent rest

max_ratio_pos : (rs : List (ℕ × ℕ)) → AllPos rs → 0 < (max_ratio rs).1
unfolding max_ratio
max_ratio_pos [] h = omega arith
max_ratio_pos (r ∷ rest) h = ground (arith, max_ratio_pos rest h.1)

at_least-le : (percent : ℕ) (r : ℕ × ℕ) → at_least percent r ≡ true → percent * r.1 ≤ 100 * r.0
at_least-le percent (v, n) h = ground arith

le-at_least : (percent : ℕ) (r : ℕ × ℕ) → percent * r.1 ≤ 100 * r.0 → at_least percent r ≡ true
le-at_least percent (v, n) h = ground arith

-- The greater of two ratios reaches a percentage if the other does.
at_least-greater :
    (percent : ℕ) (r q : ℕ × ℕ)
    → 0 < r.1
    → r.0 * q.1 ≤ q.0 * r.1
    → (if at_least percent r then true else at_least percent q) ≡ at_least percent q
at_least-greater percent (v, n) (w, m) pos le = elim (Bool-cases (at_least percent (v, n))) [
  | inl reached ↦ rw (
    reached,
    le-at_least percent (w, m)
        (at_least_mono percent v n w m pos (at_least-le percent (v, n) reached) le),
  )
  | inr other ↦ rw other
]

or_comm : (b c : Bool) → (if b then true else c) ≡ (if c then true else b)
or_comm b c = ground arith

at_least-pick :
    (percent : ℕ) (r q : ℕ × ℕ)
    → 0 < r.1
    → 0 < q.1
    → at_least percent (if ltb (r.0 * q.1) (q.0 * r.1) then q else r)
      ≡ (if at_least percent r then true else at_least percent q)
at_least-pick percent r q pr pq = elim (Bool-cases (ltb (r.0 * q.1) (q.0 * r.1))) [
  | inl less ↦ rw less (sym (at_least-greater percent r q pr (ground arith)))
  | inr more ↦ rw more (
      sym (
        or_comm (at_least percent r) (at_least percent q)
        ∙ at_least-greater percent q r pq (ground arith)))
]

-- The greatest ratio reaches a percentage exactly when some ratio does.
pub at_least-max_ratio :
    (percent : ℕ) (rs : List (ℕ × ℕ))
    → 0 < percent
    → AllPos rs
    → at_least percent (max_ratio rs) ≡ any_reached percent rs
unfolding max_ratio
at_least-max_ratio percent [] pos h = ground arith
at_least-max_ratio percent (r ∷ rest) pos h =
    at_least-pick percent r (max_ratio rest) h.0 (max_ratio_pos rest h.1)
    ∙ ap (λ b. if at_least percent r then true else b) (at_least-max_ratio percent rest pos h.1)

ratios_pos :
    (p : BudgetPolicy) (l : Ledger) (elapsed : ℕ) (ds : List Dimension)
    → AllPos (ratios p l elapsed ds)
unfolding ratios
ratios_pos p l elapsed [] = tt
ratios_pos p l elapsed (d ∷ ds) = ground (arith, ratios_pos p l elapsed ds)

-- Some quantity of the stage has used up this percentage of its active limit, a limit of 0 left out.
abbrev pub used_up : ℕ → BudgetPolicy → Ledger → ℕ → Bool
used_up percent p l elapsed = any_reached percent (ratios p l elapsed staged)

-- The stage by the greatest percentage that some quantity has used up.
pub degradation_stage_lem :
    (p : BudgetPolicy) (l : Ledger) (elapsed : ℕ)
    → degradation_stage p l elapsed ≡ (
        if used_up 100 p l elapsed
        then stopped
        else if used_up 95 p l elapsed
        then finalize_only
        else if used_up 85 p l elapsed
        then stop_expansion
        else if used_up 70 p l elapsed
        then reduce_low_value
        else normal)
unfolding degradation_stage stage_of_ratio
degradation_stage_lem p l elapsed =
    let reached = λ (percent : ℕ) (pos : 0 < percent).
      at_least-max_ratio percent (ratios p l elapsed staged) pos (ratios_pos p l elapsed staged) in
    rw (
      reached 100 (omega arith),
      reached 95 (omega arith),
      reached 85 (omega arith),
      reached 70 (omega arith),
    )

permitted_below_95 :
    (p : BudgetPolicy) (l : Ledger) (elapsed : ℕ)
    → stage_denies (degradation_stage p l elapsed) standard ≡ false
    → used_up 95 p l elapsed ≡ false
unfolding stage_denies
permitted_below_95 p l elapsed h = elim (Bool-cases (used_up 95 p l elapsed)) [
  | inr below ↦ below
  | inl above ↦ elim (Bool-cases (used_up 100 p l elapsed)) [
    | inl all ↦ absurd (true≢false ((rw (degradation_stage_lem p l elapsed, all) at h)))
    | inr some ↦ absurd (true≢false ((rw (degradation_stage_lem p l elapsed, some, above) at h)))
  ]
]

graph_share :
    (p : BudgetPolicy) (l : Ledger) (elapsed : ℕ) (rest : List Dimension)
    → any_reached 95 (ratios p l elapsed (graph_steps ∷ rest)) ≡ false
    → 0 < p.graph_steps.active
    → 100 * (l.counts.graph_steps + l.reserved_graph_steps) < 95 * p.graph_steps.active
unfolding ratios limit_of usage
graph_share p l elapsed rest h pos = ground arith

-- While a standard action is permitted, a step more fits beside the steps taken and reserved.
pub standard_leaves_room :
    (p : BudgetPolicy) (l : Ledger) (elapsed : ℕ)
    → stage_denies (degradation_stage p l elapsed) standard ≡ false
    → 0 < p.graph_steps.active
    → l.counts.graph_steps + l.reserved_graph_steps + 1 ≤ p.graph_steps.active
standard_leaves_room p l elapsed h pos =
    omega (arith, graph_share p l elapsed _ (permitted_below_95 p l elapsed h) pos)
