-- ===== src/Approval/Closed.antt =====
-- What `expire` and `cancel` of `ApprovalService` in src/ndt_agents/approval/service.py write, and on
-- which conditions.
use ndt_agents.Base.{true, false, Option, none, some, String, ◌≡◌, ◌⊎◌, inl, inr}
use ndt_agents.Exec.{ok}
use ndt_agents.Exec.Triple.{Triple, Triple-bind, Triple-map, Triple-given}
use ndt_agents.Cache.Models.{TenantScope}
use ndt_agents.Approval.Data.{
  ApprovalOutcome, expires, cancels, ApprovalPolicy, ApprovalActor, actor_id, ApprovalDecision,
  ApprovalStatus, Content, Repository, Approvals,
}
use ndt_agents.Approval.State.{as_decision, status_of}
use ndt_agents.Approval.Checks.{is_pending}
use ndt_agents.Approval.Requests.{system_actor_id}
use ndt_agents.Approval.Service.{decision, end_known, end_by, expire, cancel}
use ndt_agents.Approval.View.{
  At, read_time-At, deny_if-At, Triple-allowed, require_pending_current-At, require_actor_scope-At,
}
use ndt_agents.Approval.Writes.{
  Wrote, Found, Found-none, status-At, stored-At, appending_of, Signed, write_decision-At,
  replay-At,
}

module _ (digest : Content → String) (policy : ApprovalPolicy) (r : Repository) where
  -- A system decision, or a cancellation, that ends a pending approval.
  abbrev pub Closes :
      ApprovalStatus
      → String
      → String
      → ApprovalOutcome
      → String
      → String
      → ApprovalDecision
      → Approvals
      → Type 0
  Closes known decision_id actor outcome reason role d s =
      (At r s × Found digest policy r as_decision known.candidate.scope decision_id (some d))
      ⊎ ((is_pending known.state ≡ true)
          × Signed digest policy r
              (decision digest policy decision_id known.candidate.approval_id
                known.candidate.candidate_sha256 actor outcome reason role)
              d
          × Wrote digest policy r (appending_of digest policy r known.candidate.scope d) s)

  end_known-At :
      (known : ApprovalStatus) (decision_id expected actor : String) (outcome : ApprovalOutcome)
      (reason role : String) (old : Option ApprovalDecision)
      → Found digest policy r as_decision known.candidate.scope decision_id old
      → Triple
          (At r)
          (end_known digest policy known decision_id expected actor outcome reason role old)
          (Closes known decision_id actor outcome reason role)
          (λ _. At r)
  end_known-At known decision_id expected actor outcome reason role (some d) found =
      Triple-map (replay-At digest policy r known.candidate _ _ d) (λ s h. h)
        (λ _ s h. inl (h.0, rw h.1 found)) (λ _ s h. h)
  end_known-At known decision_id expected actor outcome reason role none found =
      Triple-allowed (require_pending_current-At known expected false) λ now.
        Triple-map
          (write_decision-At digest policy r known.candidate.scope known.candidate _ _
            (Found-none digest policy r as_decision known.candidate.scope decision_id found))
          (λ s h. h) (λ d s h. inr (now.1, h.0, h.1)) (λ _ s h. h)

  end_by-At :
      (known : ApprovalStatus) (decision_id expected actor : String) (outcome : ApprovalOutcome)
      (reason role : String)
      → Triple
          (At r)
          (end_by digest policy known decision_id expected actor outcome reason role)
          (Closes known decision_id actor outcome reason role)
          (λ _. At r)
  unfolding end_by
  end_by-At known decision_id expected actor outcome reason role =
      Triple-bind (stored-At digest policy r as_decision known.candidate.scope decision_id) λ old.
        Triple-given
          λ found. end_known-At known decision_id expected actor outcome reason role old found

  -- A decision of `expire` or `cancel`, of the approval that was asked for.
  abbrev pub ClosesAt :
      String → TenantScope → String → ApprovalOutcome → ApprovalDecision → Approvals → Type 0
  ClosesAt decision_id scope approval_id outcome d s =
      (known : ApprovalStatus) × (actor : String) × (reason : String) × (role : String) × (status_of
          policy digest scope approval_id r
        ≡ ok known)
      × Closes known decision_id actor outcome reason role d s

  pub expire-At :
      (decision_id : String) (scope : TenantScope) (approval_id expected reason : String)
      → Triple
          (At r)
          (expire digest policy decision_id scope approval_id expected reason)
          (ClosesAt decision_id scope approval_id expires)
          (λ _. At r)
  unfolding expire
  expire-At decision_id scope approval_id expected reason =
      Triple-bind (status-At digest policy r scope approval_id) λ known. Triple-given λ e.
        Triple-bind read_time-At λ now. Triple-allowed (deny_if-At _ _ _) λ over.
          Triple-map (end_by-At known decision_id expected system_actor_id expires reason "SYSTEM")
            (λ s h. h) (λ d s h. (known, system_actor_id, reason, "SYSTEM", e, h)) (λ _ s h. h)

  pub cancel-At :
      (decision_id : String) (scope : TenantScope) (approval_id expected : String)
      (actor : ApprovalActor) (reason : String)
      → Triple
          (At r)
          (cancel digest policy decision_id scope approval_id expected actor reason)
          (ClosesAt decision_id scope approval_id cancels)
          (λ _. At r)
  unfolding cancel
  cancel-At decision_id scope approval_id expected actor reason =
      Triple-bind (status-At digest policy r scope approval_id) λ known. Triple-given λ e.
        Triple-allowed (require_actor_scope-At known.candidate actor) λ bound.
          Triple-allowed (deny_if-At _ _ _) λ may.
            Triple-map (end_by-At known decision_id expected (actor_id actor) cancels reason _)
              (λ s h. h) (λ d s h. (known, actor_id actor, reason, _, e, h)) (λ _ s h. h)
