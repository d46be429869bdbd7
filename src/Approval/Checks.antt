-- ===== src/Approval/Checks.antt =====
-- The audit, the denials and the checks of `ApprovalService` in src/ndt_agents/approval/service.py.
use ndt_agents.Base.{
  ℕ, Bool, true, false, ◌&&◌, not, if◌then◌else◌, List, [], ◌∷◌, ◌++◌, String, str_eq, has,
  least_of, ltb, leb,
}
use ndt_agents.Exec.{ok, pure, raise, modify, ◌>>=◌, ◌>>◌}
use ndt_agents.Budget.Restore.{tick}
use ndt_agents.Cache.Backend.{same_key}
use ndt_agents.Approval.Data.{
  ApprovalState, pending, ApprovalPolicy, ApprovalActor, actor_id, roles, ApprovalCandidate,
  ApprovalDelegation, ApprovalDecision, ApprovalStatus, ApprovalError, approval_candidate_stale,
  approval_terminal, approval_expired, approval_scope_mismatch, approval_role_denied, AuditOutcome,
  audit_denied, AuditDecision, denied, Approving,
}
use ndt_agents.Approval.Journal.{project_key}

-- `self._clock()`.
unfoldable pub read_time : Approving ℕ
read_time s = (ok (s.clock.at s.clock.reads), record s { clock = tick s.clock })

-- `_audit`.
unfoldable pub audit : ApprovalCandidate → AuditDecision → AuditOutcome → String → Approving Unit
unfolding read_time
audit candidate decision outcome input_sha256 = do
  now ← read_time
  modify (λ s. record s {
    audit =
        s.audit
        ++ record {
          scope = candidate.scope;
          target_id = candidate.approval_id;
          task_id = candidate.task_id;
          policy_version = candidate.policy_version;
          decision = decision;
          outcome = outcome;
          input_sha256 = input_sha256;
          request_id = candidate.request_id;
          occurred_at = now;
        }
          ∷ [];
  })

-- `_deny`.
unfoldable pub deny : {A : Type 0} → ApprovalCandidate → ApprovalError → Approving A
unfolding audit
deny candidate code = do
  audit candidate (denied code) audit_denied candidate.candidate_sha256
  raise code

-- `if b: self._deny(...)`
unfoldable pub deny_if : Bool → ApprovalCandidate → ApprovalError → Approving Unit
deny_if b candidate code = if b then deny candidate code else pure tt

abbrev pub is_pending : ApprovalState → Bool
is_pending pending = true
is_pending s = false

abbrev pub expiry_check : Bool → ApprovalCandidate → Approving Unit
expiry_check true candidate = do
  now ← read_time
  deny_if (leb candidate.expires_at now) candidate approval_expired
expiry_check false candidate = pure tt

-- `_require_pending_current`.
unfoldable pub require_pending_current : ApprovalStatus → String → Bool → Approving Unit
unfolding deny_if
require_pending_current status expected_hash check_expiry = do
  deny_if (not (str_eq expected_hash status.candidate.candidate_sha256)) status.candidate
      approval_candidate_stale
  deny_if (not (is_pending status.state)) status.candidate approval_terminal
  expiry_check check_expiry status.candidate

-- The actor belongs to the project and the permission version of the candidate.
abbrev pub is_bound : ApprovalCandidate → ApprovalActor → Bool
is_bound candidate actor =
    same_key (project_key actor.scope) (project_key candidate.scope)
    && str_eq actor.scope.permission_version candidate.scope.permission_version

-- `_require_actor_scope`.
unfoldable pub require_actor_scope : ApprovalCandidate → ApprovalActor → Approving Unit
unfolding deny_if
require_actor_scope candidate actor =
    deny_if (not (is_bound candidate actor)) candidate approval_scope_mismatch

-- `{item.actor_role for item in decisions}`.
abbrev pub used_roles : List ApprovalDecision → List String
used_roles [] = []
used_roles (d ∷ ds) = d.actor_role ∷ used_roles ds

-- `(roles & required) - used`.
abbrev pub direct_roles : List String → List String → List String → List String
direct_roles [] required used = []
direct_roles (r ∷ rs) required used =
    let rest = direct_roles rs required used in
    if has r required && not (has r used) then r ∷ rest else rest

-- The roles of the delegations to an actor for the candidate that are active and not used. The
-- clock is read for each delegation to that actor for that candidate.
unfoldable pub delegated_roles :
    ApprovalCandidate → String → List String → List ApprovalDelegation → Approving (List String)
delegated_roles candidate actor used [] = pure []
delegated_roles candidate actor used (d ∷ ds) =
    let rest = delegated_roles candidate actor used ds in
    if str_eq d.delegate_id actor && str_eq d.candidate_sha256 candidate.candidate_sha256
    then (do
      now ← read_time
      more ← rest
      pure (
          if ltb now d.expires_at.instant && not (has d.delegated_role used)
          then d.delegated_role ∷ more
          else more))
    else rest

-- `sorted(xs)[0] if xs else "UNAUTHORIZED"`.
abbrev pub least_or_unauthorized : List String → String
least_or_unauthorized [] = "UNAUTHORIZED"
least_or_unauthorized (x ∷ xs) = least_of x xs

abbrev pub choose_from :
    List String → ApprovalCandidate → ApprovalStatus → ApprovalActor → Approving String
choose_from (r ∷ rs) candidate status actor = pure (least_of r rs)
choose_from [] candidate status actor = do
  delegated ←
      delegated_roles candidate (actor_id actor) (used_roles status.decisions) status.delegations
  pure (least_or_unauthorized delegated)

-- `_choose_role`.
unfoldable pub choose_role :
    ApprovalPolicy → ApprovalCandidate → ApprovalStatus → ApprovalActor → Approving String
unfolding delegated_roles
choose_role policy candidate status actor =
    choose_from
      (direct_roles (roles actor) (policy.rules candidate.kind).required_roles
        (used_roles status.decisions))
      candidate status actor

-- The delegation is of this role, to this actor, for this candidate.
abbrev pub grants_role : ApprovalCandidate → String → String → ApprovalDelegation → Bool
grants_role candidate actor role d =
    str_eq d.delegate_id actor
    && (str_eq d.delegated_role role && str_eq d.candidate_sha256 candidate.candidate_sha256)

-- Some delegation of this role, to this actor, for this candidate has not expired.
unfoldable pub has_delegation :
    ApprovalCandidate → String → String → List ApprovalDelegation → Approving Bool
has_delegation candidate actor role [] = pure false
has_delegation candidate actor role (d ∷ ds) =
    let rest = has_delegation candidate actor role ds in
    if grants_role candidate actor role d
    then (do now ← read_time; if ltb now d.expires_at.instant then pure true else rest)
    else rest

-- `_authorize_role`.
unfoldable pub authorize_role :
    ApprovalPolicy → ApprovalCandidate → ApprovalStatus → ApprovalActor → String → Approving Unit
unfolding deny_if has_delegation
authorize_role policy candidate status actor role = do
  deny_if (not (has role (policy.rules candidate.kind).required_roles)) candidate
      approval_role_denied
  if has role (roles actor) then pure tt else do
    valid ← has_delegation candidate (actor_id actor) role status.delegations
    deny_if (not valid) candidate approval_role_denied
