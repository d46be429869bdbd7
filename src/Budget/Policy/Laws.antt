-- ===== src/Budget/Policy/Laws.antt =====
-- Default policies are valid and complete; an elevation moves active limits alone, within bounds.
use ndt_agents.Base.{
  ℕ, Bool-cases, if◌then◌else◌, leb, ◌&&◌, negsuc, ◌≡◌, refl, true, inl, inr, List, [], ◌∷◌, String,
  ℤ, pos, arith,
}
use mathlib.Core.Path.{subst}
use ndt_agents.Result.{Result, ok, err, >>=-eq-ok, ok-injective, unless-eq-ok}
use ndt_agents.Budget.Policy.{
  Dimension, graph_steps, llm_calls, Limit, TaskClass, g0, k1, BudgetPolicy, limit_of,
  same_dimension, set_limit, IsOrdered, IsValidPolicy, PolicyError, policy_id_invalid,
}
use ndt_agents.Budget.Policy.Defaults.{default_budget_policy, is_file_count}
use ndt_agents.Budget.Policy.Elevation.{
  BudgetElevationAuthority, BudgetElevationRecord, elevated_limit, elevate_all, is_bad_id,
  elevate_budget_policy,
}

-- A default policy at one dimension: its limit is ordered, and active at the default.
abbrev pub DefaultsTo : TaskClass → Dimension → Result PolicyError BudgetPolicy → Type 0
DefaultsTo c d (ok p) =
    (p.task_class ≡ c) × IsOrdered (limit_of p d) × ((limit_of p d).active ≡ (limit_of p d).default)
DefaultsTo c d (err e) = ⊥

knowledge_total :
    (n : ℕ) (d : Dimension)
    → leb 1 n && leb n 10_000 ≡ true
    → DefaultsTo k1 d (default_budget_policy k1 (pos n))
unfolding default_budget_policy limit_of
knowledge_total n graph_steps h = ground arith
knowledge_total n d h = ground arith

-- For every task class and every file count from 1 to 10000 there is a default policy, of that task
-- class, in which each limit is ordered and active at its default.
pub default_budget_policy-DefaultsTo :
    (c : TaskClass) (n : ℤ) (d : Dimension)
    → is_file_count n ≡ true
    → DefaultsTo c d (default_budget_policy c n)
unfolding default_budget_policy limit_of
default_budget_policy-DefaultsTo k1 (pos n) d h = knowledge_total n d h
default_budget_policy-DefaultsTo k1 (negsuc n) d h = cc
default_budget_policy-DefaultsTo g0 n graph_steps h = rw h (ground arith)
default_budget_policy-DefaultsTo c n d h = rw h (ground arith)

limit_of-set_limit :
    (p : BudgetPolicy) (d e : Dimension) (l : Limit)
    → limit_of (set_limit p d l) e ≡ (if same_dimension d e then l else limit_of p e)
unfolding limit_of set_limit
limit_of-set_limit p graph_steps graph_steps l = refl
limit_of-set_limit p llm_calls graph_steps l = refl
limit_of-set_limit p d e l = ground arith

-- The request for a dimension: the last item that names it, or else what is active before.
unfoldable pub requested : Dimension → List (Dimension × ℤ) → ℤ → ℤ
requested d [] before = before
requested d ((e, active) ∷ rest) before =
    requested d rest (if same_dimension e d then active else before)

-- An elevation of one limit: ordered, with the default and the hard limit kept, and active at `n`.
pub record Elevates (l : Limit) (n : ℤ) (m : Limit) : Type 0 where
  pub ordered : IsOrdered m
  pub same_default : m.default ≡ l.default
  pub same_hard : m.hard ≡ l.hard
  pub active_at : pos m.active ≡ n

elevated_limit-Elevates :
    (l m : Limit) (active : ℤ) → elevated_limit l active ≡ ok m → Elevates l active m
unfolding elevated_limit
elevated_limit-Elevates l m active h = ground arith

same_dimension-eq : (d e : Dimension) → same_dimension d e ≡ true → d ≡ e
same_dimension-eq graph_steps graph_steps h = refl
same_dimension-eq d e h = ground arith

set_limit-Elevates :
    (policy copy : BudgetPolicy) (d e : Dimension) (new : Limit) (active before : ℤ)
    → Elevates (limit_of policy e) active new
    → Elevates (limit_of policy d) before (limit_of copy d)
    → Elevates
        (limit_of policy d)
        (if same_dimension e d then active else before)
        (limit_of (set_limit copy e new) d)
set_limit-Elevates policy copy d e new active before k h =
    rw (limit_of-set_limit copy e d new) (elim (Bool-cases (same_dimension e d)) [
      | inl same ↦ rw (same, ← same_dimension-eq e d same) k
      | inr other ↦ rw other h
    ])

elevate_all-Elevates :
    (policy : BudgetPolicy) (limits : List (Dimension × ℤ)) (copy : BudgetPolicy)
    {result : BudgetPolicy} (d : Dimension) (before : ℤ)
    → Elevates (limit_of policy d) before (limit_of copy d)
    → elevate_all policy limits copy ≡ ok result
    → Elevates (limit_of policy d) (requested d limits before) (limit_of result d)
unfolding elevate_all requested
elevate_all-Elevates policy [] copy {result} d before k h =
    subst (λ r. Elevates (limit_of policy d) before (limit_of r d)) (ok-injective h) k
elevate_all-Elevates policy ((e, active) ∷ rest) copy d before k h =
    let (new, got, more) = >>=-eq-ok (elevated_limit (limit_of policy e) active) _ h in
    elevate_all-Elevates policy rest (set_limit copy e new) d _
      (set_limit-Elevates policy copy d e new active before
        (elevated_limit-Elevates (limit_of policy e) new active got) k)
      more

limit_of-rename :
    (p : BudgetPolicy) (id : String) (d : Dimension)
    → limit_of (record p { policy_id = id }) d ≡ limit_of p d
unfolding limit_of
limit_of-rename p id graph_steps = refl
limit_of-rename p id d = refl

-- An elevation that is granted keeps every limit ordered, keeps the defaults and the hard limits,
-- and makes each limit active at the last request for its dimension, or as it was before.
pub elevate-Elevates :
    (policy : BudgetPolicy) (id : String) (limits : List (Dimension × ℤ))
    (authority : BudgetElevationAuthority) {r : BudgetElevationRecord}
    → IsValidPolicy policy
    → elevate_budget_policy policy id limits authority ≡ ok r
    → (d : Dimension)
    → Elevates
        (limit_of policy d)
        (requested d limits (pos (limit_of policy d).active))
        (limit_of r.elevated_policy d)
unfolding elevate_budget_policy
elevate-Elevates policy id limits authority valid h d =
    let (good, done) = unless-eq-ok (is_bad_id id policy) policy_id_invalid _ h in
    let (elevated, all, made) = >>=-eq-ok (elevate_all policy limits policy) _ done in
    subst
      (λ (t : BudgetElevationRecord).
        Elevates (limit_of policy d) (requested d limits (pos (limit_of policy d).active))
          (limit_of t.elevated_policy d))
      (ok-injective made)
      (rw (limit_of-rename elevated id d) (
        elevate_all-Elevates policy limits policy d _
          (record { ordered = valid d; same_default = refl; same_hard = refl; active_at = refl })
          all))
