-- ===== src/Approval/Tests.antt =====
-- Approvals of src/ndt_agents/approval/service.py at concrete calls, and the theorems applied to them.
use ndt_agents.Base.{◌⊎◌, ◌≡◌, refl, none, some, List, [], ◌∷◌, String}
use ndt_agents.Exec.Triple.{Ends}
use ndt_agents.Exec.{ok, err, pure, raise, gets, lift, modify, ◌>>=◌}
use ndt_agents.Budget.Tools.{is_sha256, all_hex}
use ndt_agents.Base.{every_char, is_name, is_identifier, text_less}
use ndt_agents.Cache.Models.{TenantScope}
use ndt_agents.Cache.Backend.{same_key}
use ndt_agents.Approval.Data.{
  release_kind, approved, approves, ApprovalPolicy, default_approval_policy, ApprovalActor,
  ApprovalCandidate, ApprovalDecision, resume_event, ApprovalGrant, ApprovalStatus,
  approval_not_found, validation_error, Content, payload_content, event_content, decision_content,
  request_content, timed_request_content, preview_content, Approvals, is_valid_candidate,
  has_valid_fields, is_valid_decision,
}
use ndt_agents.Approval.Journal.{
  Appending, chain_key, new_repository, zero_sha256, chain_of, last_sha256, event_digest,
  next_event, is_same_event, append, is_linked, verify_from, verify, list_events, get_event,
}
use ndt_agents.Approval.State.{
  as_grant, payloads_of, first_terminal, approved_roles, is_complete, state_of, last_grant,
  candidate_of, status_from, status_of,
}
use ndt_agents.Approval.Checks.{
  read_time, audit, deny, deny_if, require_pending_current, require_actor_scope, delegated_roles,
  choose_role, has_delegation, authorize_role,
}
use ndt_agents.Approval.Service.{status, stored, store, write_decision, decide_new, decide}
use ndt_agents.Approval.Flow.{Request, create, resume}
use ndt_agents.Approval.Calls.{Call, create_call, decide_call, resume_call, after, run, after-Move}
use ndt_agents.Approval.Log.{Shows, Simulates, spec_append, events_of}
use ndt_agents.Approval.Chain.{log_of, repository_of, append_refines_log, list_events-run}
use ndt_agents.Approval.Decided.{Decides}
use ndt_agents.Approval.Opening.{candidate_appending}
use ndt_agents.Approval.Flowing.{Creates, Fails}
use ndt_agents.Approval.Granted.{Resumes}
use ndt_agents.Approval.Moves.{Move}
use ndt_agents.Approval.Sound.{IsFair, Released}
use ndt_agents.Approval.Unreadable.{IsUnreadable}
use ndt_agents.Approval.Eyes.{Approves, TwoApprove}
use ndt_agents.Approval.Promises.{
  create_lem, decide_lem, resume_lem, status-run, approved-IsFair, approved-TwoApprove,
  resumed-Released, decided-run,
}

abbrev digest : Content → String
digest (payload_content p) = "payload"
digest (event_content e) = "event"
digest (decision_content d) = d.decision_id
digest (request_content fields) = "request"
digest (timed_request_content fields t) = "timed"
digest (preview_content t) = t

abbrev scope : String → List String → TenantScope
scope user role_codes = record {
  tenant_id = "t";
  project_id = "p";
  user_id = user;
  role_codes = role_codes;
  permission_version = "1";
}

abbrev request : Request
request = record {
  approval_id = "a";
  scope = scope "asker" [];
  task_id = "task";
  request_id = "r";
  kind = release_kind;
  action = "release";
  target_type = "build";
  target_id = "b";
  target_version = "1";
  candidate_sha256 = zero_sha256;
  preview = some "{}";
  dumped = some "{}";
}

abbrev actor : String → String → ApprovalActor
actor user role = record { scope = scope user (role ∷ []) }

abbrev service : Approvals
service = record {
  repository = new_repository;
  audit = [];
  clock = record { at = λ n. 1000; reads = 0 };
}

abbrev calls : List Call
calls =
    create_call request
    ∷ decide_call "d1" (scope "asker" []) "a" zero_sha256 (actor "s" "SECURITY_OWNER") approves
        "fine" none
    ∷ decide_call "d2" (scope "asker" []) "a" zero_sha256 (actor "q" "QUALITY_OWNER") approves
        "fine" none
    ∷ resume_call "g" (scope "asker" []) "a" zero_sha256
    ∷ []

abbrev policy : ApprovalPolicy
policy = default_approval_policy

abbrev decision_by : String → String → String → ApprovalDecision
decision_by id user role = record {
  decision_id = id;
  approval_id = "a";
  target_sha256 = zero_sha256;
  actor_id = user;
  outcome = approves;
  reason = "fine";
  decided_at = 1000;
  actor_role = role;
}

abbrev grant : ApprovalGrant
grant = record {
  resume_id = "g";
  approval_id = "a";
  scope = scope "asker" [];
  task_id = "task";
  candidate_sha256 = zero_sha256;
  policy_version = "approval-policy-1";
  decision_sha256s = "d1" ∷ "d2" ∷ [];
  resumed_at = 1000;
}

abbrev candidate : ApprovalCandidate
candidate = record {
  approval_id = "a";
  scope = scope "asker" [];
  task_id = "task";
  request_id = "r";
  kind = release_kind;
  action = "release";
  target_type = "build";
  target_id = "b";
  target_version = "1";
  candidate_sha256 = zero_sha256;
  preview = "{}";
  preview_sha256 = "{}";
  policy_version = "approval-policy-1";
  created_at = 1000;
  expires_at = 86_400_001_000;
}

abbrev known : ApprovalStatus
known = record {
  candidate = candidate;
  state = approved;
  decisions = decision_by "d1" "s" "SECURITY_OWNER" ∷ decision_by "d2" "q" "QUALITY_OWNER" ∷ [];
  delegations = [];
  grant = some grant;
}

abbrev reached : Approvals
reached = run digest policy calls service

known_after_calls : status_of policy digest (scope "asker" []) "a" reached.repository ≡ ok known
unfolding run status_of create resume ◌>>=◌ status gets lift decide read_time is_valid_candidate
    has_valid_fields is_identifier is_name is_sha256 default_approval_policy audit modify append
    same_key next_event authorize_role choose_role delegated_roles deny deny_if has_delegation
    require_actor_scope require_pending_current is_valid_decision chain_of event_digest get_event
    is_linked is_same_event last_sha256 list_events verify verify_from decide_new store stored
    write_decision approved_roles candidate_of first_terminal is_complete last_grant payloads_of
    state_of status_from every_char text_less all_hex pure raise
known_after_calls = refl

create_lem_example :
    Ends
      (Creates digest policy service.repository request)
      (Fails digest policy service.repository request)
      (create digest policy request service)
create_lem_example = create_lem digest policy request service

-- A preview that is dumped as another text is written, and cannot be read.
abbrev other_preview : Approvals
other_preview = (create digest policy (record request { dumped = some "[]" }) service).1

other_preview_fails :
    status_of policy digest (scope "asker" []) "a" other_preview.repository ≡ err validation_error
unfolding run status_of create resume ◌>>=◌ status gets lift decide read_time is_valid_candidate
    has_valid_fields is_identifier is_name is_sha256 default_approval_policy audit modify append
    same_key next_event authorize_role choose_role delegated_roles deny deny_if has_delegation
    require_actor_scope require_pending_current is_valid_decision chain_of event_digest get_event
    is_linked is_same_event last_sha256 list_events verify verify_from decide_new store stored
    write_decision approved_roles candidate_of first_terminal is_complete last_grant payloads_of
    state_of status_from every_char text_less all_hex pure raise
other_preview_fails = refl

-- The second decision, after the first.
abbrev half : Approvals
half =
    run digest policy
      (create_call request
        ∷ decide_call "d1" (scope "asker" []) "a" zero_sha256 (actor "s" "SECURITY_OWNER") approves
            "fine" none
        ∷ [])
      service

decide_lem_example :
    Ends
      (Decides digest policy half.repository "d2"
        (scope "asker" [])
        "a"
        zero_sha256
        (actor "q" "QUALITY_OWNER")
        approves
        "fine")
      (λ _ t. t.repository ≡ half.repository)
      (decide digest policy "d2"
        (scope "asker" [])
        "a"
        zero_sha256
        (actor "q" "QUALITY_OWNER")
        approves
        "fine"
        none
        half)
decide_lem_example =
    decide_lem digest policy "d2" (scope "asker" []) "a" zero_sha256 (actor "q" "QUALITY_OWNER")
      approves "fine" none half

resume_lem_example :
    Ends
      (Resumes digest policy reached.repository "g" (scope "asker" []) "a" zero_sha256)
      (λ _ t. t.repository ≡ reached.repository)
      (resume digest policy "g" (scope "asker" []) "a" zero_sha256 reached)
resume_lem_example = resume_lem digest policy "g" (scope "asker" []) "a" zero_sha256 reached

after-Move_example :
    Move digest policy service.repository
      (after digest policy (create_call request) service).repository
after-Move_example = after-Move digest policy (create_call request) service

status-run_example :
    let answer = (status digest policy (scope "asker" []) "a" reached).0 in
    let chain = chain_of (chain_key (scope "asker" []) "a") reached.repository in
    (((chain ≡ []) × (answer ≡ err approval_not_found))
      ⊎ (IsUnreadable digest policy chain × (answer ≡ err validation_error)))
    ⊎ ((k : ApprovalStatus) × (answer ≡ ok k))
status-run_example = status-run digest policy calls service (scope "asker" []) "a" refl

approved-IsFair_example :
    (r : String) × (d : ApprovalDecision) × (Approves known.decisions r d
      × IsFair digest policy known.candidate d)
unfolding default_approval_policy
approved-IsFair_example =
    approved-IsFair digest policy calls service (scope "asker" []) "a" known "QUALITY_OWNER" refl
      known_after_calls refl refl

approved-TwoApprove_example :
    TwoApprove
      (IsFair digest policy known.candidate)
      known.decisions
      "SECURITY_OWNER"
      "QUALITY_OWNER"
unfolding default_approval_policy
approved-TwoApprove_example =
    approved-TwoApprove digest policy calls service (scope "asker" []) "a" known "SECURITY_OWNER"
      "QUALITY_OWNER" refl known_after_calls refl refl refl refl refl

grants_after_calls :
    payloads_of resume_event as_grant
      (chain_of (chain_key (scope "asker" []) "a") reached.repository)
    ≡ ok (grant ∷ [])
unfolding run status_of create resume ◌>>=◌ status gets lift decide read_time is_valid_candidate
    has_valid_fields is_identifier is_name is_sha256 default_approval_policy audit modify append
    same_key next_event authorize_role choose_role delegated_roles deny deny_if has_delegation
    require_actor_scope require_pending_current is_valid_decision chain_of event_digest get_event
    is_linked is_same_event last_sha256 list_events verify verify_from decide_new store stored
    write_decision approved_roles candidate_of first_terminal is_complete last_grant payloads_of
    state_of status_from every_char text_less all_hex pure raise
grants_after_calls = refl

resumed-Released_example : Released digest policy known.candidate known.decisions (grant ∷ [])
resumed-Released_example =
    resumed-Released digest policy calls service (scope "asker" []) "a" known (grant ∷ []) refl
      known_after_calls grants_after_calls

decided-run_example :
    (later : ApprovalStatus) × (status_of policy digest
        (scope "asker" [])
        "a"
        (run digest policy calls reached).repository
      ≡ ok later)
    × (later.state ≡ known.state)
    × (later.candidate ≡ known.candidate)
    × (later.decisions ≡ known.decisions)
decided-run_example =
    decided-run digest policy calls service (scope "asker" []) "a" known calls refl
      known_after_calls refl

abbrev opening : Appending
opening = candidate_appending digest policy candidate

append_refines_log_example :
    Shows digest
      (log_of digest (opening ∷ []) [])
      (repository_of digest (opening ∷ []) new_repository)
    × Simulates digest opening
        (spec_append digest opening (log_of digest (opening ∷ []) []))
        (append digest opening (repository_of digest (opening ∷ []) new_repository))
append_refines_log_example = append_refines_log digest (opening ∷ []) opening

list_events-run_example :
    list_events digest
      (scope "asker" [])
      "a"
      (repository_of digest (opening ∷ opening ∷ []) new_repository)
    ≡ ok (
        events_of digest
          (chain_key (scope "asker" []) "a")
          (log_of digest (opening ∷ opening ∷ []) []))
list_events-run_example = list_events-run digest (opening ∷ opening ∷ []) (scope "asker" []) "a"
