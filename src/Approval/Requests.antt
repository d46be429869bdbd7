-- ===== src/Approval/Requests.antt =====
-- What the methods of `ApprovalService` in src/ndt_agents/approval/service.py make their requests of,
-- compare and validate.
use ndt_agents.Base.{
  ℕ, Bool, true, false, ◌&&◌, ◌||◌, if◌then◌else◌, Option, none, some, List, [], ◌∷◌, String,
  str_eq, ◌==◌, length_within,
}
use ndt_agents.Exec.{Result, ok, err, pure}
use ndt_agents.Result.{map_ok}
use ndt_agents.Scheduler.Data.{same_scope}
use ndt_agents.Approval.Data.{
  Moment, ApprovalKind, knowledge, plan, report, critical_finding, instrument, destructive,
  release_kind, ApprovalState, approved, ApprovalOutcome, approves, rejects, requests_changes,
  expires, cancels, ApprovalCandidate, ApprovalDelegation, ApprovalDecision, Payload, ApprovalEvent,
  Content, request_content, timed_request_content, ApprovalError, approval_payload_invalid,
  validation_error, serialization_error, Approving, is_valid_candidate, is_valid_decision,
}

-- `SYSTEM_ACTOR_ID`.
abbrev pub system_actor_id : String
system_actor_id = "00000000-0000-0000-0000-000000000000"

abbrev pub outcome_value : ApprovalOutcome → String
outcome_value approves = "APPROVED"
outcome_value rejects = "REJECTED"
outcome_value requests_changes = "CHANGES_REQUESTED"
outcome_value expires = "EXPIRED"
outcome_value cancels = "CANCELLED"

abbrev pub is_human : ApprovalOutcome → Bool
is_human expires = false
is_human cancels = false
is_human o = true

-- `request` of a decision, and `_decision_request` of one that is stored.
abbrev pub decision_request : String → String → String → String → ApprovalOutcome → String → Content
decision_request approval_id candidate_sha256 actor role outcome reason = request_content (
    ("approval_id", approval_id)
    ∷ ("candidate_sha256", candidate_sha256)
    ∷ ("actor_id", actor)
    ∷ ("actor_role", role)
    ∷ ("outcome", outcome_value outcome)
    ∷ ("reason", reason)
    ∷ [])

abbrev pub stored_decision_request : ApprovalDecision → Content
stored_decision_request d =
    decision_request d.approval_id d.target_sha256 d.actor_id d.actor_role d.outcome d.reason

-- `request` of a delegation, and `_delegation_request` of one that is stored.
abbrev pub delegation_request : String → String → String → String → String → Moment → Content
delegation_request approval_id candidate_sha256 grantor delegate role expires_at =
    timed_request_content
      (("approval_id", approval_id)
        ∷ ("candidate_sha256", candidate_sha256)
        ∷ ("grantor_id", grantor)
        ∷ ("delegate_id", delegate)
        ∷ ("delegated_role", role)
        ∷ [])
      expires_at

abbrev pub stored_delegation_request : ApprovalDelegation → Content
stored_delegation_request d =
    delegation_request d.approval_id d.candidate_sha256 d.grantor_id d.delegate_id d.delegated_role
      d.expires_at

abbrev pub resume_request : String → String → Content
resume_request approval_id candidate_sha256 =
    request_content (("approval_id", approval_id) ∷ ("candidate_sha256", candidate_sha256) ∷ [])

abbrev kind_index : ApprovalKind → ℕ
kind_index knowledge = 0
kind_index plan = 1
kind_index report = 2
kind_index critical_finding = 3
kind_index instrument = 4
kind_index destructive = 5
kind_index release_kind = 6

-- Equality of `_candidate_request`, which leaves out the times and the preview's digest. Previews are
-- compared as their canonical texts.
unfoldable pub same_candidate_request : ApprovalCandidate → ApprovalCandidate → Bool
unfolding same_scope
same_candidate_request a b =
    str_eq a.approval_id b.approval_id
    && (same_scope a.scope b.scope
        && (str_eq a.task_id b.task_id
            && (str_eq a.request_id b.request_id
                && ((kind_index a.kind == kind_index b.kind)
                    && (str_eq a.action b.action
                        && (str_eq a.target_type b.target_type
                            && (str_eq a.target_id b.target_id
                                && (str_eq a.target_version b.target_version
                                    && (str_eq a.candidate_sha256 b.candidate_sha256
                                        && (str_eq a.preview b.preview
                                            && str_eq a.policy_version b.policy_version))))))))))

-- The constructors, whose validators may raise.
abbrev pub checked_candidate :
    (Content → String) → ApprovalCandidate → Result ApprovalError ApprovalCandidate
checked_candidate digest c = if is_valid_candidate digest c then ok c else err validation_error

abbrev pub checked_decision : ApprovalDecision → Result ApprovalError ApprovalDecision
checked_decision d = if is_valid_decision d then ok d else err validation_error

abbrev pub checked_delegation : ApprovalDelegation → Result ApprovalError ApprovalDelegation
checked_delegation d = if length_within 1 128 d.delegated_role then ok d else err validation_error

-- `X.model_validate(existing.payload) if existing is not None else None`.
abbrev pub stored_as :
    {A : Type 0}
    → (Payload → Result ApprovalError A)
    → Option ApprovalEvent
    → Result ApprovalError (Option A)
stored_as read none = ok none
stored_as read (some e) = map_ok some (read e.payload)

-- `actor_role or default`.
abbrev pub role_or : Option String → Approving String → Approving String
role_or none default = default
role_or (some r) default = if str_eq r "" then default else pure r

abbrev pub stored_role_or : Option ApprovalDecision → Approving String → Approving String
stored_role_or none default = default
stored_role_or (some d) default = pure d.actor_role

abbrev pub acted : String → List ApprovalDecision → Bool
acted actor [] = false
acted actor (d ∷ ds) = str_eq d.actor_id actor || acted actor ds

abbrev pub is_approved : ApprovalState → Bool
is_approved approved = true
is_approved s = false

-- `candidate.model_dump(mode="json")`, whose preview has the text `dumped`, or which raises.
abbrev pub dump : Option String → ApprovalCandidate → Result ApprovalError ApprovalCandidate
dump none c = err serialization_error
dump (some t) c = ok (record c { preview = t })

abbrev pub text_or : Option String → Result ApprovalError String
text_or none = err approval_payload_invalid
text_or (some t) = ok t
