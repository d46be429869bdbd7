-- ===== src/Approval/Data.antt =====
-- The contracts of src/ndt_agents/approval/service.py, and `ApprovalRecord` and `ApprovalOutcome` of
-- src/ndt_agents/contracts/v1.py. UUIDs are their texts and times are microseconds, in UTC except for
-- a `Moment`. `ApprovalRecord` is part of its decision here, without the
-- fields that are copies of the candidate's.
use ndt_agents.Base.{
  ℕ, ℤ, Bool, str_eq, true, false, ◌&&◌, Option, List, [], ◌∷◌, String, ltb, length_within, is_name,
  is_identifier,
}
use ndt_agents.Exec.{Exec}
use ndt_agents.Budget.Data.{Clock}
use ndt_agents.Budget.Tools.{is_sha256}
use ndt_agents.Cache.Models.{TenantScope}

-- The end of a delegation: a time with the offset of its text, in seconds, if it has one.
pub record Moment : Type 0 where
  pub instant : ℕ
  pub offset : Option ℤ

pub data ApprovalKind : Type 0 where
  knowledge plan report critical_finding instrument destructive release_kind : ApprovalKind

pub data ApprovalState : Type 0 where
  pending approved rejected changes_requested expired cancelled : ApprovalState

pub data ApprovalOutcome : Type 0 where
  approves rejects requests_changes expires cancels : ApprovalOutcome

pub data ApprovalEventType : Type 0 where
  candidate_event delegation_event decision_event resume_event : ApprovalEventType

pub record ApprovalRule : Type 0 where
  pub required_roles : List String
  pub require_all_roles : Bool
  pub delegation_allowed : Bool
  pub validity_seconds : ℕ

-- `rules` has an entry for every kind, as the validator `complete` demands.
pub record ApprovalPolicy : Type 0 where
  pub policy_version : String
  pub rules : ApprovalKind → ApprovalRule

abbrev rule : List String → Bool → Bool → ℕ → ApprovalRule
rule roles all delegation seconds = record {
  required_roles = roles;
  require_all_roles = all;
  delegation_allowed = delegation;
  validity_seconds = seconds;
}

abbrev default_rules : ApprovalKind → ApprovalRule
default_rules knowledge = rule ("QUALIFIED_APPROVER" ∷ "KNOWLEDGE_OWNER" ∷ []) false true 86_400
default_rules plan = rule ("QUALIFIED_APPROVER" ∷ []) false true 86_400
default_rules report = rule ("QUALIFIED_APPROVER" ∷ []) false false 86_400
default_rules critical_finding = rule ("QUALIFIED_APPROVER" ∷ []) false false 21_600
default_rules instrument = rule ("DEVICE_AUTHORIZED_APPROVER" ∷ []) false false 3_600
default_rules destructive = rule ("TENANT_ADMINISTRATOR" ∷ []) false false 3_600
default_rules release_kind = rule ("SECURITY_OWNER" ∷ "QUALITY_OWNER" ∷ []) true false 86_400

unfoldable pub default_approval_policy : ApprovalPolicy
default_approval_policy = record { policy_version = "approval-policy-1"; rules = default_rules }

-- `ApprovalActor`; its ID and its roles are those of the scope.
pub record ApprovalActor : Type 0 where
  pub scope : TenantScope

abbrev pub actor_id : ApprovalActor → String
actor_id a = a.scope.user_id

abbrev pub roles : ApprovalActor → List String
roles a = a.scope.role_codes

-- The preview is its canonical JSON text.
pub record ApprovalCandidate : Type 0 where
  pub approval_id : String
  pub scope : TenantScope
  pub task_id : String
  pub request_id : String
  pub kind : ApprovalKind
  pub action : String
  pub target_type : String
  pub target_id : String
  pub target_version : String
  pub candidate_sha256 : String
  pub preview : String
  pub preview_sha256 : String
  pub policy_version : String
  pub created_at : ℕ
  pub expires_at : ℕ

pub record ApprovalDelegation : Type 0 where
  pub delegation_id : String
  pub approval_id : String
  pub candidate_sha256 : String
  pub grantor_id : String
  pub delegate_id : String
  pub delegated_role : String
  pub created_at : ℕ
  pub expires_at : Moment

-- With the fields of its `ApprovalRecord` that are not the candidate's.
pub record ApprovalDecision : Type 0 where
  pub decision_id : String
  pub approval_id : String
  pub target_sha256 : String
  pub actor_id : String
  pub outcome : ApprovalOutcome
  pub reason : String
  pub decided_at : ℕ
  pub actor_role : String

-- `decision_sha256s` is not empty: `ApprovalRule` demands a role, so an approved state has decisions.
pub record ApprovalGrant : Type 0 where
  pub resume_id : String
  pub approval_id : String
  pub scope : TenantScope
  pub task_id : String
  pub candidate_sha256 : String
  pub policy_version : String
  pub decision_sha256s : List String
  pub resumed_at : ℕ

pub record ApprovalStatus : Type 0 where
  pub candidate : ApprovalCandidate
  pub state : ApprovalState
  pub decisions : List ApprovalDecision
  pub delegations : List ApprovalDelegation
  pub grant : Option ApprovalGrant

-- The payload of an event: what `model_dump` made of one of the contracts.
pub data Payload : Type 0 where
  of_candidate : ApprovalCandidate → Payload
  of_delegation : ApprovalDelegation → Payload
  of_decision : ApprovalDecision → Payload
  of_grant : ApprovalGrant → Payload

pub record ApprovalEvent : Type 0 where
  pub event_id : String
  pub approval_id : String
  pub scope : TenantScope
  pub sequence : ℕ
  pub event_type : ApprovalEventType
  pub payload : Payload
  pub payload_sha256 : String
  pub previous_sha256 : String
  pub event_sha256 : String
  pub created_at : ℕ

-- What `canonical_sha256` is applied to. The digest itself, SHA-256 of the canonical JSON, is the
-- argument `digest` of the definitions that use it. An event is digested without `event_sha256`.
pub data Content : Type 0 where
  payload_content : Payload → Content
  event_content : ApprovalEvent → Content
  decision_content : ApprovalDecision → Content
  request_content : List (String × String) → Content
  timed_request_content : List (String × String) → Moment → Content
  preview_content : String → Content

-- The codes of `ApprovalError`; then a validator that fails, and a `model_dump` that does.
pub data ApprovalError : Type 0 where
  approval_payload_invalid approval_idempotency_conflict approval_scope_mismatch
        approval_chain_invalid approval_not_found approval_policy_incompatible
        approval_delegation_denied approval_delegation_invalid approval_outcome_invalid
        approval_self_approval_denied approval_duplicate_actor approval_not_expired
        approval_cancel_denied approval_replayed approval_not_approved approval_candidate_stale
        approval_role_denied approval_terminal approval_expired validation_error
        serialization_error :
      ApprovalError

pub data AuditOutcome : Type 0 where
  audit_success audit_denied : AuditOutcome

-- What `_audit` records, next to a fresh UUID. `decision` is a code's text where it is a denial.
pub data AuditDecision : Type 0 where
  created delegated resumed : AuditDecision
  decided : ApprovalOutcome → AuditDecision
  denied : ApprovalError → AuditDecision

pub record AuditRecord : Type 0 where
  pub scope : TenantScope
  pub target_id : String
  pub task_id : String
  pub policy_version : String
  pub decision : AuditDecision
  pub outcome : AuditOutcome
  pub input_sha256 : String
  pub request_id : String
  pub occurred_at : ℕ

pub record Repository : Type 0 where
  pub events : List (List String × List ApprovalEvent)
  pub by_id : List (String × ApprovalEvent)

-- What an `ApprovalService` works on: its repository, the audit records that it made, oldest first,
-- and its clock, which is read in microseconds.
pub record Approvals : Type 0 where
  pub repository : Repository
  pub audit : List AuditRecord
  pub clock : Clock

abbrev pub Approving : Type 0 → Type 0
Approving A = Exec Approvals ApprovalError A

-- The bounds of the fields of `ApprovalCandidate`, and what `valid_candidate` says of its times, which
-- are in UTC.
unfoldable pub has_valid_fields : ApprovalCandidate → Bool
has_valid_fields c =
    is_identifier c.request_id
    && (is_name c.action
        && (is_name c.target_type
            && (length_within 1 128 c.target_version
                && (is_sha256 c.candidate_sha256
                    && (length_within 1 128 c.policy_version && ltb c.created_at c.expires_at)))))

-- What `valid_candidate` says of the preview.
abbrev pub has_preview_digest : (Content → String) → ApprovalCandidate → Bool
has_preview_digest digest c = str_eq c.preview_sha256 (digest (preview_content c.preview))

-- The validator of `ApprovalCandidate`, of a new candidate and of one that was stored.
unfoldable pub is_valid_candidate : (Content → String) → ApprovalCandidate → Bool
unfolding has_valid_fields
is_valid_candidate digest c = has_valid_fields c && has_preview_digest digest c

-- The bounds of the fields of an `ApprovalDecision` that do not come from a valid candidate.
unfoldable pub is_valid_decision : ApprovalDecision → Bool
is_valid_decision d = length_within 1 4000 d.reason && length_within 1 128 d.actor_role
