-- ===== src/Budget/Policy/Elevation.antt =====
-- `elevate_budget_policy` of src/ndt_agents/orchestration/budget.py. The mapping of active limits is
-- the list of its items.
use Prim.Native.String.{count}
use ndt_agents.Base.{
  Bool, ◌||◌, List, [], ◌∷◌, ltb, String, str_eq, ℤ, is_negative, pos_part, if◌then◌else◌,
}
use ndt_agents.Result.{Result, ok, err, ◌>>=◌, or_raise}
use ndt_agents.Budget.Policy.{
  Dimension, Limit, make_limit, BudgetPolicy, limit_of, set_limit, PolicyError, policy_id_invalid,
  elevation_denied, limit_invalid,
}

pub data AuthorityKind : Type 0 where
  deterministic_risk_policy human_approval : AuthorityKind

pub record BudgetElevationAuthority : Type 0 where
  pub kind : AuthorityKind
  pub reference_id : String

pub record BudgetElevationRecord : Type 0 where
  pub source_policy_id : String
  pub elevated_policy : BudgetPolicy
  pub authority : BudgetElevationAuthority
  pub active_limits : List (Dimension × ℤ)

-- `active < current.default or active > current.hard`.
abbrev pub is_out_of_range : ℤ → Limit → Bool
is_out_of_range active current =
    is_negative active
    || (ltb (pos_part active) current.default || ltb current.hard (pos_part active))

-- The body of the loop: the new limit of one dimension.
unfoldable pub elevated_limit : Limit → ℤ → Result PolicyError Limit
unfolding make_limit
elevated_limit current active =
    if is_out_of_range active current
    then err elevation_denied
    else or_raise (make_limit current.default (pos_part active) current.hard) limit_invalid

-- The loop and the copy: each limit is checked against `policy`, and put into the copy.
unfoldable pub elevate_all :
    BudgetPolicy → List (Dimension × ℤ) → BudgetPolicy → Result PolicyError BudgetPolicy
elevate_all policy [] copy = ok copy
elevate_all policy ((d, active) ∷ rest) copy = do
  new ← elevated_limit (limit_of policy d) active
  elevate_all policy rest (set_limit copy d new)

-- `not new_policy_id or len(new_policy_id) > 128 or new_policy_id == policy.policy_id`.
abbrev pub is_bad_id : String → BudgetPolicy → Bool
is_bad_id new policy = str_eq new "" || (ltb 128 (count new) || str_eq new policy.policy_id)

unfoldable pub elevate_budget_policy :
    BudgetPolicy
    → String
    → List (Dimension × ℤ)
    → BudgetElevationAuthority
    → Result PolicyError BudgetElevationRecord
unfolding elevate_all
elevate_budget_policy policy new_policy_id active_limits authority =
    if is_bad_id new_policy_id policy then err policy_id_invalid else do
      elevated ← elevate_all policy active_limits policy
      ok (record {
        source_policy_id = policy.policy_id;
        elevated_policy = record elevated { policy_id = new_policy_id };
        authority = authority;
        active_limits = active_limits;
      })
