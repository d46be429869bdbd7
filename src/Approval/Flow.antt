-- ===== src/Approval/Flow.antt =====
-- `create`, `delegate` and `resume` of `ApprovalService` in src/ndt_agents/approval/service.py.
use ndt_agents.Base.{
  ℕ, ◌+◌, ◌*◌, Bool, true, ◌||◌, not, if◌then◌else◌, Option, none, some, List, [], ◌∷◌, String,
  str_eq, has, ltb, leb, is_some,
}
use ndt_agents.Exec.{pure, gets, lift, ◌>>=◌, ◌>>◌}
use ndt_agents.Cache.Models.{TenantScope}
use ndt_agents.Approval.Data.{
  Moment, ApprovalKind, candidate_event, delegation_event, resume_event, ApprovalPolicy,
  ApprovalActor, actor_id, roles, ApprovalCandidate, ApprovalDelegation, ApprovalDecision,
  ApprovalGrant, ApprovalStatus, of_candidate, of_delegation, of_grant, ApprovalEvent, Content,
  decision_content, preview_content, approval_idempotency_conflict, approval_delegation_denied,
  approval_delegation_invalid, approval_replayed, approval_not_approved, approval_candidate_stale,
  audit_success, created, delegated, resumed, Approving,
}
use ndt_agents.Approval.Journal.{list_events}
use ndt_agents.Approval.State.{as_candidate, as_delegation, as_grant}
use ndt_agents.Approval.Checks.{
  read_time, audit, deny, deny_if, require_pending_current, require_actor_scope,
}
use ndt_agents.Approval.Requests.{
  delegation_request, stored_delegation_request, resume_request, same_candidate_request,
  checked_candidate, checked_delegation, dump, is_approved, text_or,
}
use ndt_agents.Approval.Service.{status, stored, store, replay}

-- The fields that the caller of `create` gives, and two texts of the preview, none where making it
-- raises: `preview` is its canonical JSON, in which `canonical_sha256` writes what JSON does not have by
-- `default=str`, and `dumped` is the canonical JSON of what `model_dump(mode="json")` makes of it.
pub record Request : Type 0 where
  pub approval_id : String
  pub scope : TenantScope
  pub task_id : String
  pub request_id : String
  pub kind : ApprovalKind
  pub action : String
  pub target_type : String
  pub target_id : String
  pub target_version : String
  pub candidate_sha256 : String
  pub preview : Option String
  pub dumped : Option String

-- Its time has no offset, has passed, or is after the candidate's end.
abbrev pub is_bad_expiry : Moment → ℕ → ℕ → Bool
is_bad_expiry t now end = not (is_some t.offset) || (leb t.instant now || ltb end t.instant)

module _ (digest : Content → String) (policy : ApprovalPolicy) where
  -- `create`, once the chain of the ID is read.
  abbrev pub create_over :
      Option String → ApprovalCandidate → List ApprovalEvent → Approving ApprovalStatus
  create_over dumped c (e ∷ events) = do
    first ← lift (as_candidate digest e.payload)
    again ← lift (dump dumped c)
    if same_candidate_request first again
        then status digest policy c.scope c.approval_id
        else deny c approval_idempotency_conflict
  create_over dumped c [] = do
    audit c created audit_success c.candidate_sha256
    kept ← lift (dump dumped c)
    store digest policy (record {
      event_id = c.approval_id;
      approval_id = c.approval_id;
      scope = c.scope;
      event_type = candidate_event;
      payload = of_candidate kept;
      created_at = c.created_at;
    })
    status digest policy c.scope c.approval_id

  abbrev pub candidate_at : Request → String → ℕ → ApprovalCandidate
  candidate_at q preview now = record {
    approval_id = q.approval_id;
    scope = q.scope;
    task_id = q.task_id;
    request_id = q.request_id;
    kind = q.kind;
    action = q.action;
    target_type = q.target_type;
    target_id = q.target_id;
    target_version = q.target_version;
    candidate_sha256 = q.candidate_sha256;
    preview = preview;
    preview_sha256 = digest (preview_content preview);
    policy_version = policy.policy_version;
    created_at = now;
    expires_at = now + (policy.rules q.kind).validity_seconds * 1_000_000;
  }

  -- `create`. The preview is none where its JSON cannot be made.
  unfoldable pub create : Request → Approving ApprovalStatus
  create q = do
    now ← read_time
    preview ← lift (text_or q.preview)
    c ← lift (checked_candidate digest (candidate_at q preview now))
    r ← gets (λ s. s.repository)
    existing ← lift (list_events digest q.scope q.approval_id r)
    create_over q.dumped c existing

  -- `delegate`, once the ID is looked for.
  abbrev pub delegate_known :
      ApprovalStatus
      → String
      → String
      → String
      → ApprovalActor
      → String
      → String
      → Moment
      → Option ApprovalDelegation
      → Approving ApprovalDelegation
  delegate_known known approval_id delegation_id expected grantor delegate_id role expires_at
        (some d) =
      replay digest policy known.candidate
        (delegation_request approval_id expected (actor_id grantor) delegate_id role expires_at)
        (stored_delegation_request d) d
  delegate_known known approval_id delegation_id expected grantor delegate_id role expires_at none =
      do
        require_pending_current known expected true
        require_actor_scope known.candidate grantor
        let rule = policy.rules known.candidate.kind
        deny_if (not rule.delegation_allowed || not (has role rule.required_roles)) known.candidate
            approval_delegation_denied
        deny_if
            (not (has role (roles grantor))
              || str_eq (actor_id grantor) known.candidate.scope.user_id)
            known.candidate approval_delegation_denied
        now ← read_time
        deny_if (is_bad_expiry expires_at now known.candidate.expires_at) known.candidate
            approval_delegation_invalid
        d ← lift (
            checked_delegation (record {
              delegation_id = delegation_id;
              approval_id = approval_id;
              candidate_sha256 = expected;
              grantor_id = actor_id grantor;
              delegate_id = delegate_id;
              delegated_role = role;
              created_at = now;
              expires_at = expires_at;
            }))
        audit known.candidate delegated audit_success (
            digest (
              delegation_request approval_id expected (actor_id grantor) delegate_id role
                expires_at))
        store digest policy (record {
          event_id = delegation_id;
          approval_id = approval_id;
          scope = known.candidate.scope;
          event_type = delegation_event;
          payload = of_delegation d;
          created_at = now;
        })
        pure d

  unfoldable pub delegate :
      String
      → TenantScope
      → String
      → String
      → ApprovalActor
      → String
      → String
      → Moment
      → Approving ApprovalDelegation
  delegate delegation_id scope approval_id expected grantor delegate_id role expires_at = do
    known ← status digest policy scope approval_id
    old ← stored digest policy as_delegation scope delegation_id
    delegate_known known approval_id delegation_id expected grantor delegate_id role expires_at old

  abbrev pub decision_sha256s : List ApprovalDecision → List String
  decision_sha256s [] = []
  decision_sha256s (d ∷ ds) = digest (decision_content d) ∷ decision_sha256s ds

  -- `resume`, once the ID is looked for.
  abbrev pub resume_known :
      ApprovalStatus → String → String → String → Option ApprovalGrant → Approving ApprovalGrant
  resume_known known approval_id resume_id expected (some g) =
      replay digest policy known.candidate (resume_request approval_id expected)
        (resume_request g.approval_id g.candidate_sha256) g
  resume_known known approval_id resume_id expected none = do
    deny_if (is_some known.grant) known.candidate approval_replayed
    deny_if (not (is_approved known.state)) known.candidate approval_not_approved
    deny_if (not (str_eq expected known.candidate.candidate_sha256)) known.candidate
        approval_candidate_stale
    now ← read_time
    let g : ApprovalGrant = record {
      resume_id = resume_id;
      approval_id = approval_id;
      scope = known.candidate.scope;
      task_id = known.candidate.task_id;
      candidate_sha256 = known.candidate.candidate_sha256;
      policy_version = known.candidate.policy_version;
      decision_sha256s = decision_sha256s known.decisions;
      resumed_at = now;
    }
    audit known.candidate resumed audit_success (digest (resume_request approval_id expected))
    store digest policy (record {
      event_id = resume_id;
      approval_id = approval_id;
      scope = known.candidate.scope;
      event_type = resume_event;
      payload = of_grant g;
      created_at = now;
    })
    pure g

  unfoldable pub resume : String → TenantScope → String → String → Approving ApprovalGrant
  resume resume_id scope approval_id expected = do
    known ← status digest policy scope approval_id
    old ← stored digest policy as_grant scope resume_id
    resume_known known approval_id resume_id expected old
