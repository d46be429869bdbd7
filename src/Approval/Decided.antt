-- ===== src/Approval/Decided.antt =====
-- What `decide`, `expire` and `cancel` of `ApprovalService` in
-- src/ndt_agents/approval/service.py write, and on which conditions.
use ndt_agents.Base.{true, false, Option, none, some, String, str_eq, has, ◌≡◌, ◌⊎◌, inl, inr}
use ndt_agents.Exec.{ok}
use ndt_agents.Exec.Triple.{Triple, Triple-bind, Triple-pure, Triple-map, Triple-if, Triple-given}
use ndt_agents.Dict.{lookup}
use ndt_agents.Cache.Models.{TenantScope}
use ndt_agents.Approval.Data.{
  ApprovalOutcome, ApprovalPolicy, ApprovalActor, actor_id, roles, ApprovalDecision, ApprovalStatus,
  Content, Repository, Approvals, Approving,
}
use ndt_agents.Approval.State.{as_decision, status_of}
use ndt_agents.Approval.Checks.{is_pending, is_bound}
use ndt_agents.Approval.Requests.{role_or, stored_role_or, acted}
use ndt_agents.Approval.Service.{decision, decide_new, decide_known, decide}
use ndt_agents.Approval.View.{
  At, IsDelegated, deny_if-At, Triple-allowed, require_pending_current-At, require_actor_scope-At,
  choose_role-At, authorize_role-At,
}
use ndt_agents.Approval.Writes.{
  Wrote, Found, Found-none, status-At, stored-At, appending_of, Signed, write_decision-At,
  replay-At,
}

module _ (digest : Content → String) (policy : ApprovalPolicy) (r : Repository) where
  -- What a new decision has passed.
  pub record IsAdmitted (known : ApprovalStatus) (expected : String) (actor : ApprovalActor)
      (role : String) : Type 0 where
    pub current : str_eq expected known.candidate.candidate_sha256 ≡ true
    pub open_still : is_pending known.state ≡ true
    pub bound : is_bound known.candidate actor ≡ true
    pub independent : str_eq (actor_id actor) known.candidate.scope.user_id ≡ false
    pub first : acted (actor_id actor) known.decisions ≡ false
    pub eligible : has role (policy.rules known.candidate.kind).required_roles ≡ true
    pub authorized :
        (has role (roles actor) ≡ true)
        ⊎ IsDelegated known.candidate (actor_id actor) role known.delegations

  decide_new-At :
      (known : ApprovalStatus) (approval_id decision_id expected : String) (actor : ApprovalActor)
      (outcome : ApprovalOutcome) (reason role : String)
      → lookup str_eq decision_id r.by_id ≡ none
      → Triple
          (At r)
          (decide_new digest policy known approval_id decision_id expected actor outcome reason
            role)
          (λ d s.
            IsAdmitted known expected actor role
            × (Signed digest policy r
                  (decision digest policy decision_id approval_id known.candidate.candidate_sha256
                    (actor_id actor)
                    outcome
                    reason
                    role)
                  d
                × Wrote digest policy r (appending_of digest policy r known.candidate.scope d) s))
          (λ _. At r)
  unfolding decide_new
  decide_new-At known approval_id decision_id expected actor outcome reason role new =
      Triple-allowed (require_pending_current-At known expected true) λ now.
        Triple-allowed (require_actor_scope-At known.candidate actor) λ bound.
          Triple-allowed (deny_if-At _ _ _) λ independent.
            Triple-allowed (deny_if-At _ _ _) λ first.
              Triple-allowed (authorize_role-At policy known.candidate known actor role)
                λ authorized.
                  Triple-map
                    (write_decision-At digest policy r known.candidate.scope known.candidate _
                      (decision digest policy decision_id approval_id
                        known.candidate.candidate_sha256 (actor_id actor) outcome reason role)
                      new)
                    (λ s h. h)
                    (λ d s h. (
                      record {
                        current = now.0;
                        open_still = now.1;
                        bound = bound;
                        independent = independent;
                        first = first;
                        eligible = authorized.0;
                        authorized = authorized.1;
                      },
                      h,
                    ))
                    (λ _ s h. h)

  -- A decision that `decide` returns: one that is stored already, or a new one that was admitted.
  abbrev pub Decides :
      String
      → TenantScope
      → String
      → String
      → ApprovalActor
      → ApprovalOutcome
      → String
      → ApprovalDecision
      → Approvals
      → Type 0
  Decides decision_id scope approval_id expected actor outcome reason d s =
      (At r s × Found digest policy r as_decision scope decision_id (some d))
      ⊎ ((known : ApprovalStatus) × (role : String) × (status_of policy digest scope approval_id r
            ≡ ok known)
          × IsAdmitted known expected actor role
          × Signed digest policy r
              (decision digest policy decision_id approval_id known.candidate.candidate_sha256
                (actor_id actor) outcome reason role)
              d
          × Wrote digest policy r (appending_of digest policy r known.candidate.scope d) s)

  decide_known-At :
      (known : ApprovalStatus) (scope : TenantScope) (approval_id decision_id expected : String)
      (actor : ApprovalActor) (outcome : ApprovalOutcome) (reason role : String)
      (old : Option ApprovalDecision)
      → status_of policy digest scope approval_id r ≡ ok known
      → Found digest policy r as_decision scope decision_id old
      → Triple
          (At r)
          (decide_known digest policy known approval_id decision_id expected actor outcome reason
            role old)
          (Decides decision_id scope approval_id expected actor outcome reason)
          (λ _. At r)
  decide_known-At known scope approval_id decision_id expected actor outcome reason role (some d) e
        found =
      Triple-map (replay-At digest policy r known.candidate _ _ d) (λ s h. h)
        (λ _ s h. inl (h.0, rw h.1 found)) (λ _ s h. h)
  decide_known-At known scope approval_id decision_id expected actor outcome reason role none e
        found =
      Triple-map
        (decide_new-At known approval_id decision_id expected actor outcome reason role
          (Found-none digest policy r as_decision scope decision_id found))
        (λ s h. h) (λ d s h. inr (known, role, e, h.0, h.1.0, h.1.1)) (λ _ s h. h)

  role_or-At :
      (given : Option String) (m : Approving String)
      → Triple (At r) m (λ _. At r) (λ _. At r)
      → Triple (At r) (role_or given m) (λ _. At r) (λ _. At r)
  role_or-At none m t = t
  role_or-At (some x) m t = Triple-if (str_eq x "") _ _ (λ _. t) (λ _. Triple-pure x (λ s h. h))

  stored_role_or-At :
      (old : Option ApprovalDecision) (m : Approving String)
      → Triple (At r) m (λ _. At r) (λ _. At r)
      → Triple (At r) (stored_role_or old m) (λ _. At r) (λ _. At r)
  stored_role_or-At none m t = t
  stored_role_or-At (some d) m t = Triple-pure _ (λ s h. h)

  pub decide-At :
      (decision_id : String) (scope : TenantScope) (approval_id expected : String)
      (actor : ApprovalActor) (outcome : ApprovalOutcome) (reason : String) (given : Option String)
      → Triple
          (At r)
          (decide digest policy decision_id scope approval_id expected actor outcome reason given)
          (Decides decision_id scope approval_id expected actor outcome reason)
          (λ _. At r)
  unfolding decide
  decide-At decision_id scope approval_id expected actor outcome reason given =
      Triple-bind (status-At digest policy r scope approval_id) λ known. Triple-given λ e.
        Triple-allowed (deny_if-At _ _ _) λ human.
          Triple-bind (stored-At digest policy r as_decision scope decision_id) λ old.
            Triple-given λ found.
              Triple-bind
                (role_or-At given _
                  (stored_role_or-At old _ (choose_role-At policy known.candidate known actor)))
                λ role.
                  decide_known-At known scope approval_id decision_id expected actor outcome reason
                    role old e found
