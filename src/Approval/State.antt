-- ===== src/Approval/State.antt =====
-- `ApprovalService.status` and `_state` of src/ndt_agents/approval/service.py: what the events of an
-- approval say.
use ndt_agents.Base.{
  Bool, true, false, ◌||◌, not, if◌then◌else◌, Option, none, some, List, [], ◌∷◌, String, str_eq,
  has, is_subset,
}
use ndt_agents.Result.{Result, ok, err, ◌>>=◌}
use ndt_agents.Cache.Models.{TenantScope}
use ndt_agents.Approval.Data.{
  ApprovalState, pending, approved, rejected, changes_requested, expired, cancelled,
  ApprovalOutcome, approves, rejects, requests_changes, expires, cancels, ApprovalEventType,
  candidate_event, delegation_event, decision_event, resume_event, ApprovalRule, ApprovalPolicy,
  ApprovalCandidate, ApprovalDelegation, ApprovalDecision, ApprovalGrant, ApprovalStatus, Payload,
  of_candidate, of_delegation, of_decision, of_grant, ApprovalEvent, Content, ApprovalError,
  approval_not_found, approval_policy_incompatible, validation_error, Repository,
  is_valid_candidate,
}
use ndt_agents.Approval.Journal.{same_event_type, list_events}

-- `model_validate` of a payload, which fails on the payload of another contract. A candidate is
-- validated again, since the digest of its preview is that of the preview that was given, and the
-- preview that is stored may differ. The other contracts have been validated with the very values that
-- their payloads hold.
abbrev pub as_candidate : (Content → String) → Payload → Result ApprovalError ApprovalCandidate
as_candidate digest (of_candidate c) =
    if is_valid_candidate digest c then ok c else err validation_error
as_candidate digest p = err validation_error

abbrev pub as_delegation : Payload → Result ApprovalError ApprovalDelegation
as_delegation (of_delegation d) = ok d
as_delegation p = err validation_error

abbrev pub as_decision : Payload → Result ApprovalError ApprovalDecision
as_decision (of_decision d) = ok d
as_decision p = err validation_error

abbrev pub as_grant : Payload → Result ApprovalError ApprovalGrant
as_grant (of_grant g) = ok g
as_grant p = err validation_error

-- The payloads of the events of one type.
unfoldable pub payloads_of :
    {A : Type 0}
    → ApprovalEventType
    → (Payload → Result ApprovalError A)
    → List ApprovalEvent
    → Result ApprovalError (List A)
payloads_of t read [] = ok []
payloads_of t read (e ∷ events) =
    let rest = payloads_of t read events in
    if same_event_type e.event_type t
    then (read e.payload >>= λ a. rest >>= λ as'. ok (a ∷ as'))
    else rest

-- The state that an outcome ends in, unless it approves.
abbrev pub terminal_state : ApprovalOutcome → Option ApprovalState
terminal_state approves = none
terminal_state rejects = some rejected
terminal_state requests_changes = some changes_requested
terminal_state expires = some expired
terminal_state cancels = some cancelled

abbrev pub or_later : Option ApprovalState → Option ApprovalState → Option ApprovalState
or_later (some t) later = some t
or_later none later = later

-- The first loop of `_state`.
unfoldable pub first_terminal : List ApprovalDecision → Option ApprovalState
first_terminal [] = none
first_terminal (d ∷ ds) = or_later (terminal_state d.outcome) (first_terminal ds)

abbrev pub is_approval : ApprovalOutcome → Bool
is_approval approves = true
is_approval o = false

unfoldable pub approved_roles : List ApprovalDecision → List String
approved_roles [] = []
approved_roles (d ∷ ds) =
    let rest = approved_roles ds in if is_approval d.outcome then d.actor_role ∷ rest else rest

-- `bool(xs & ys)`.
abbrev pub meets : List String → List String → Bool
meets [] ys = false
meets (x ∷ xs) ys = has x ys || meets xs ys

unfoldable pub is_complete : ApprovalRule → List String → Bool
is_complete rule roles =
    if rule.require_all_roles
    then is_subset rule.required_roles roles
    else meets rule.required_roles roles

abbrev pub or_approval : Option ApprovalState → Bool → ApprovalState
or_approval (some t) complete = t
or_approval none complete = if complete then approved else pending

-- `_state`.
unfoldable pub state_of : ApprovalRule → List ApprovalDecision → ApprovalState
unfolding first_terminal is_complete approved_roles
state_of rule decisions =
    or_approval (first_terminal decisions) (is_complete rule (approved_roles decisions))

-- `grants[-1] if grants else None`.
unfoldable pub last_grant : List ApprovalGrant → Option ApprovalGrant
last_grant [] = none
last_grant (g ∷ []) = some g
last_grant (g ∷ h ∷ gs) = last_grant (h ∷ gs)

-- The candidate that the first event holds.
unfoldable pub candidate_of :
    (Content → String) → List ApprovalEvent → Result ApprovalError ApprovalCandidate
candidate_of digest [] = err approval_not_found
candidate_of digest (e ∷ events) =
    if same_event_type e.event_type candidate_event
    then as_candidate digest e.payload
    else err approval_not_found

module _ (policy : ApprovalPolicy) where
  -- `status`, of the events.
  unfoldable pub status_from :
      (Content → String) → List ApprovalEvent → Result ApprovalError ApprovalStatus
  unfolding candidate_of payloads_of state_of last_grant
  status_from digest events = candidate_of digest events >>= λ candidate.
      if not (str_eq candidate.policy_version policy.policy_version)
      then err approval_policy_incompatible
      else payloads_of decision_event as_decision events >>= λ decisions.
          payloads_of delegation_event as_delegation events >>= λ delegations.
          payloads_of resume_event as_grant events >>= λ grants. ok (record {
            candidate = candidate;
            state = state_of (policy.rules candidate.kind) decisions;
            decisions = decisions;
            delegations = delegations;
            grant = last_grant grants;
          })

  -- `status`.
  unfoldable pub status_of :
      (Content → String) → TenantScope → String → Repository → Result ApprovalError ApprovalStatus
  unfolding status_from list_events
  status_of digest scope approval_id r =
      list_events digest scope approval_id r >>= status_from digest
