-- ===== src/Approval/Service.antt =====
-- The methods of `ApprovalService` in src/ndt_agents/approval/service.py that change something. What
-- is raised before a write leaves the repository as it was. `AuditService.record` gets a fresh UUID
-- each time and returns.
use ndt_agents.Base.{
  true, false, ◌&&◌, not, if◌then◌else◌, Option, none, some, String, str_eq, has, ltb,
}
use ndt_agents.Exec.{Result, ok, err, pure, gets, lift, ◌>>=◌, ◌>>◌}
use ndt_agents.Cache.Models.{TenantScope}
use ndt_agents.Approval.Data.{
  ApprovalOutcome, expires, cancels, decision_event, ApprovalPolicy, ApprovalActor, actor_id, roles,
  ApprovalCandidate, ApprovalDecision, ApprovalStatus, Payload, of_decision, ApprovalEvent, Content,
  ApprovalError, approval_idempotency_conflict, approval_outcome_invalid,
  approval_self_approval_denied, approval_duplicate_actor, approval_not_expired,
  approval_cancel_denied, audit_success, decided, Repository, Approvals, Approving,
}
use ndt_agents.Approval.Journal.{Appending, append, get_event}
use ndt_agents.Approval.State.{as_decision, status_of}
use ndt_agents.Approval.Checks.{
  read_time, audit, deny, deny_if, require_pending_current, require_actor_scope, choose_role,
  authorize_role,
}
use ndt_agents.Approval.Requests.{
  system_actor_id, is_human, decision_request, stored_decision_request, checked_decision, stored_as,
  role_or, stored_role_or, acted,
}

module _ (digest : Content → String) (policy : ApprovalPolicy) where
  -- `self.status(scope, approval_id)`.
  unfoldable pub status : TenantScope → String → Approving ApprovalStatus
  unfolding status_of
  status scope approval_id = do
    r ← gets (λ s. s.repository)
    lift (status_of policy digest scope approval_id r)

  -- `self._repository.get(scope, event_id)`, read as one of the contracts.
  unfoldable pub stored :
      {A : Type 0}
      → (Payload → Result ApprovalError A)
      → TenantScope
      → String
      → Approving (Option A)
  stored read scope event_id = do
    r ← gets (λ s. s.repository)
    existing ← lift (get_event scope event_id r)
    lift (stored_as read existing)

  abbrev pub after_append :
      Approvals
      → Result ApprovalError (ApprovalEvent × Repository)
      → Result ApprovalError Unit × Approvals
  after_append s (ok (e, r)) = (ok tt, record s { repository = r })
  after_append s (err e) = (err e, s)

  -- `self._repository.append(...)`.
  unfoldable pub store : Appending → Approving Unit
  store a s = after_append s (append digest a s.repository)

  -- The decision or delegation that is stored under the ID is the one that is requested.
  abbrev pub replay : {A : Type 0} → ApprovalCandidate → Content → Content → A → Approving A
  replay candidate request known a =
      if str_eq (digest request) (digest known)
      then pure a
      else deny candidate approval_idempotency_conflict

  -- The part of `decide` and of `_terminal_system_decision` that writes.
  unfoldable pub write_decision :
      TenantScope → ApprovalCandidate → Content → ApprovalDecision → Approving ApprovalDecision
  unfolding store
  write_decision scope candidate request unsigned = do
    now ← read_time
    d ← lift (checked_decision (record unsigned { decided_at = now }))
    audit candidate (decided d.outcome) audit_success (digest request)
    store (record {
      event_id = d.decision_id;
      approval_id = d.approval_id;
      scope = scope;
      event_type = decision_event;
      payload = of_decision d;
      created_at = now;
    })
    pure d

  abbrev pub decision :
      String → String → String → String → ApprovalOutcome → String → String → ApprovalDecision
  decision decision_id approval_id target actor outcome reason role = record {
    decision_id = decision_id;
    approval_id = approval_id;
    target_sha256 = target;
    actor_id = actor;
    outcome = outcome;
    reason = reason;
    decided_at = 0;
    actor_role = role;
  }

  -- `decide`, once the role is chosen and the ID is new.
  unfoldable pub decide_new :
      ApprovalStatus
      → String
      → String
      → String
      → ApprovalActor
      → ApprovalOutcome
      → String
      → String
      → Approving ApprovalDecision
  unfolding write_decision
  decide_new known approval_id decision_id expected actor outcome reason role = do
    require_pending_current known expected true
    require_actor_scope known.candidate actor
    deny_if (str_eq (actor_id actor) known.candidate.scope.user_id) known.candidate
        approval_self_approval_denied
    deny_if (acted (actor_id actor) known.decisions) known.candidate approval_duplicate_actor
    authorize_role policy known.candidate known actor role
    write_decision known.candidate.scope known.candidate
        (decision_request approval_id expected (actor_id actor) role outcome reason)
        (decision decision_id approval_id known.candidate.candidate_sha256 (actor_id actor) outcome
          reason role)

  abbrev pub decide_known :
      ApprovalStatus
      → String
      → String
      → String
      → ApprovalActor
      → ApprovalOutcome
      → String
      → String
      → Option ApprovalDecision
      → Approving ApprovalDecision
  decide_known known approval_id decision_id expected actor outcome reason role (some d) =
      replay known.candidate
        (decision_request approval_id expected (actor_id actor) role outcome reason)
        (stored_decision_request d) d
  decide_known known approval_id decision_id expected actor outcome reason role none =
      decide_new known approval_id decision_id expected actor outcome reason role

  unfoldable pub decide :
      String
      → TenantScope
      → String
      → String
      → ApprovalActor
      → ApprovalOutcome
      → String
      → Option String
      → Approving ApprovalDecision
  unfolding decide_new
  decide decision_id scope approval_id expected actor outcome reason actor_role = do
    known ← status scope approval_id
    deny_if (not (is_human outcome)) known.candidate approval_outcome_invalid
    old ← stored as_decision scope decision_id
    role ← role_or actor_role (stored_role_or old (choose_role policy known.candidate known actor))
    decide_known known approval_id decision_id expected actor outcome reason role old

  -- `_terminal_system_decision`, once the ID is looked for.
  abbrev pub end_known :
      ApprovalStatus
      → String
      → String
      → String
      → ApprovalOutcome
      → String
      → String
      → Option ApprovalDecision
      → Approving ApprovalDecision
  end_known known decision_id expected actor outcome reason role (some d) =
      replay known.candidate
        (decision_request known.candidate.approval_id expected actor role outcome reason)
        (stored_decision_request d) d
  end_known known decision_id expected actor outcome reason role none = do
    require_pending_current known expected false
    write_decision known.candidate.scope known.candidate
        (decision_request known.candidate.approval_id expected actor role outcome reason)
        (decision decision_id known.candidate.approval_id known.candidate.candidate_sha256 actor
          outcome reason role)

  -- `_terminal_system_decision`.
  unfoldable pub end_by :
      ApprovalStatus
      → String
      → String
      → String
      → ApprovalOutcome
      → String
      → String
      → Approving ApprovalDecision
  unfolding write_decision stored
  end_by known decision_id expected actor outcome reason role = do
    old ← stored as_decision known.candidate.scope decision_id
    end_known known decision_id expected actor outcome reason role old

  unfoldable pub expire :
      String → TenantScope → String → String → String → Approving ApprovalDecision
  unfolding end_by
  expire decision_id scope approval_id expected reason = do
    known ← status scope approval_id
    now ← read_time
    deny_if (ltb now known.candidate.expires_at) known.candidate approval_not_expired
    end_by known decision_id expected system_actor_id expires reason "SYSTEM"

  unfoldable pub cancel :
      String → TenantScope → String → String → ApprovalActor → String → Approving ApprovalDecision
  unfolding end_by
  cancel decision_id scope approval_id expected actor reason = do
    known ← status scope approval_id
    require_actor_scope known.candidate actor
    let is_requester = str_eq (actor_id actor) known.candidate.scope.user_id
    deny_if (not is_requester && not (has "PROJECT_ADMINISTRATOR" (roles actor))) known.candidate
        approval_cancel_denied
    end_by known decision_id expected (actor_id actor) cancels reason
        (if is_requester then "REQUESTER" else "PROJECT_ADMINISTRATOR")
