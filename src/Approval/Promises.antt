-- ===== src/Approval/Promises.antt =====
-- What `ApprovalService` of src/ndt_agents/approval/service.py promises: what a call does from any
-- state, and what holds after any calls on a service whose repository was new.
use ndt_agents.Base.{
  true, false, Option, List, [], String, str_eq, has, ◌≡◌, refl, sym, ap, ◌∙◌, ◌⊎◌, inl, inr,
}
use mathlib.Core.Path.{subst}
use ndt_agents.Exec.{ok, err, gets, lift, ◌>>=◌}
use ndt_agents.Exec.Triple.{Ends}
use ndt_agents.Result.{ok-injective}
use ndt_agents.Cache.Models.{TenantScope}
use ndt_agents.Approval.Data.{
  approved, resume_event, ApprovalOutcome, ApprovalPolicy, ApprovalActor, ApprovalDecision,
  ApprovalGrant, ApprovalStatus, approval_not_found, validation_error, Content, Approvals,
}
use ndt_agents.Approval.Journal.{new_repository, chain_key, chain_of}
use ndt_agents.Approval.State.{as_grant, payloads_of, approved_roles, state_of, status_of}
use ndt_agents.Approval.Checks.{is_pending}
use ndt_agents.Approval.Service.{status, decide}
use ndt_agents.Approval.Flow.{Request, create, resume}
use ndt_agents.Approval.Decided.{Decides, decide-At}
use ndt_agents.Approval.Flowing.{Creates, Fails, create-At}
use ndt_agents.Approval.Granted.{Resumes, resume-At}
use ndt_agents.Approval.Calls.{Call, run}
use ndt_agents.Approval.Sound.{IsFair, Released, known_of}
use ndt_agents.Approval.Unreadable.{IsUnreadable}
use ndt_agents.Approval.Runs.{status_of-Sound, known-Sound, runs-AllSound}
use ndt_agents.Approval.Fair.{All, AllDistinct, approvers}
use ndt_agents.Approval.Settled.{settled_later}
use ndt_agents.Approval.Eyes.{
  Approves, approved_roles-Approves, TwoApprove, approved_roles-TwoApprove,
}
use ndt_agents.Approval.Complete.{approved_complete, is_complete-has, is_complete-all}

module _ (digest : Content → String) (policy : ApprovalPolicy) where
  -- From any state, `create` that returns has left the status that it returns: either nothing was
  -- written, or the chain of the ID was empty and has the candidate of the request now, with the
  -- preview as it is dumped, which is valid, without decisions and grants. If it raises, either nothing
  -- was written, or the chain of the ID was empty, the error is that of a validator, and the candidate
  -- was written although its dumped preview does not have its digest: then `status` raises that error
  -- for the ID.
  pub create_lem :
      (q : Request) (s : Approvals)
      → Ends
          (Creates digest policy s.repository q)
          (Fails digest policy s.repository q)
          (create digest policy q s)
  create_lem q s = (create-At digest policy s.repository q).at s refl

  -- From any state, `decide` that returns a decision either has found it under its ID, and written
  -- nothing, or has written it as the only event: the hash was current, the approval pending, the
  -- actor of the project, not the requester and new to the approval, and the role required, and held
  -- or delegated. If it raises, nothing was written.
  pub decide_lem :
      (decision_id : String) (scope : TenantScope) (approval_id expected : String)
      (actor : ApprovalActor) (outcome : ApprovalOutcome) (reason : String) (role : Option String)
      (s : Approvals)
      → Ends
          (Decides digest policy s.repository decision_id scope approval_id expected actor outcome
            reason)
          (λ _ t. t.repository ≡ s.repository)
          (decide digest policy decision_id scope approval_id expected actor outcome reason role s)
  decide_lem decision_id scope approval_id expected actor outcome reason role s =
      (decide-At digest policy s.repository decision_id scope approval_id expected actor outcome
          reason role).at
        s refl

  -- From any state, `resume` that returns a grant either has found it under its ID, and written
  -- nothing, or has written it as the only event, of an approval that was approved, had no grant and
  -- has the hash that was expected; it names the decisions. If it raises, nothing was written.
  pub resume_lem :
      (resume_id : String) (scope : TenantScope) (approval_id expected : String) (s : Approvals)
      → Ends
          (Resumes digest policy s.repository resume_id scope approval_id expected)
          (λ _ t. t.repository ≡ s.repository)
          (resume digest policy resume_id scope approval_id expected s)
  resume_lem resume_id scope approval_id expected s =
      (resume-At digest policy s.repository resume_id scope approval_id expected).at s refl

  -- After any calls on a service whose repository was new, `status` raises that there is no such
  -- approval where its chain has no events, raises the error of a validator where the chain is one
  -- candidate whose stored preview does not have its digest, and else returns: no chain is broken, no
  -- other payload invalid, no policy incompatible.
  pub status-run :
      (calls : List Call) (s : Approvals) (scope : TenantScope) (approval_id : String)
      → s.repository ≡ new_repository
      → let answer = (status digest policy scope approval_id (run digest policy calls s)).0 in
        let chain = chain_of (chain_key scope approval_id) (run digest policy calls s).repository in
        (((chain ≡ []) × (answer ≡ err approval_not_found))
          ⊎ (IsUnreadable digest policy chain × (answer ≡ err validation_error)))
        ⊎ ((known : ApprovalStatus) × (answer ≡ ok known))
  unfolding status gets lift ◌>>=◌
  status-run calls s scope approval_id new =
      elim (status_of-Sound digest policy (run digest policy calls s).repository
        (runs-AllSound digest policy calls s new) scope approval_id) [
          | inl missing ↦ inl missing
          | inr (v, shown) ↦ inr (known_of digest policy v, shown)
        ]

  module _ (calls : List Call) (s : Approvals) (scope : TenantScope) (approval_id : String)
      (known : ApprovalStatus) where
    known_facts :
        s.repository ≡ new_repository
        → status_of policy digest scope approval_id (run digest policy calls s).repository
          ≡ ok known
        → All (IsFair digest policy known.candidate) known.decisions
          × AllDistinct (approvers known.decisions)
          × (known.state ≡ state_of (policy.rules known.candidate.kind) known.decisions)
    known_facts new shown =
        let (v, same) =
          known-Sound digest policy (run digest policy calls s).repository
            (runs-AllSound digest policy calls s new) scope approval_id known shown in
        subst
          (λ (x : ApprovalStatus).
            All (IsFair digest policy x.candidate) x.decisions
            × AllDistinct (approvers x.decisions)
            × (x.state ≡ state_of (policy.rules x.candidate.kind) x.decisions))
          same (v.fair, v.distinct, refl)

    -- After any calls on a service whose repository was new, an approval that is approved, under a
    -- rule that requires some role, has a decision that approves its candidate's content, by an actor
    -- other than the requester, in a role that the rule requires.
    pub approved-IsFair :
        (role : String)
        → s.repository ≡ new_repository
        → status_of policy digest scope approval_id (run digest policy calls s).repository
          ≡ ok known
        → known.state ≡ approved
        → has role (policy.rules known.candidate.kind).required_roles ≡ true
        → (r : String) × (d : ApprovalDecision) × (Approves known.decisions r d
            × IsFair digest policy known.candidate d)
    approved-IsFair role new shown end required =
        let facts = known_facts new shown in
        let rule = policy.rules known.candidate.kind in
        let complete = approved_complete rule known.decisions (sym facts.2 ∙ end) in
        let (r, in_use) =
          is_complete-has rule (approved_roles known.decisions) role required complete in
        let (d, found) =
          approved_roles-Approves (IsFair digest policy known.candidate) r known.decisions facts.0
            in_use in
        (r, d, found)

    -- After any calls on a service whose repository was new, an approval that is approved, under a
    -- rule that requires two roles together, has two decisions that approve in those roles, by two
    -- actors, neither of them the requester.
    pub approved-TwoApprove :
        (r1 r2 : String)
        → s.repository ≡ new_repository
        → status_of policy digest scope approval_id (run digest policy calls s).repository
          ≡ ok known
        → known.state ≡ approved
        → (policy.rules known.candidate.kind).require_all_roles ≡ true
        → has r1 (policy.rules known.candidate.kind).required_roles ≡ true
        → has r2 (policy.rules known.candidate.kind).required_roles ≡ true
        → str_eq r1 r2 ≡ false
        → TwoApprove (IsFair digest policy known.candidate) known.decisions r1 r2
    approved-TwoApprove r1 r2 new shown end all h1 h2 apart =
        let facts = known_facts new shown in
        let rule = policy.rules known.candidate.kind in
        let complete = approved_complete rule known.decisions (sym facts.2 ∙ end) in
        let in_use = λ (r : String) (h : has r rule.required_roles ≡ true).
          is_complete-all rule (approved_roles known.decisions) r all h complete in
        approved_roles-TwoApprove (IsFair digest policy known.candidate) r1 r2 known.decisions apart
          facts.0 facts.1 (in_use r1 h1) (in_use r2 h2)

    -- After any calls on a service whose repository was new, an approval has at most one grant. If it
    -- has one it is approved, and the grant has the hash of its candidate and those of its decisions.
    pub resumed-Released :
        (grants : List ApprovalGrant)
        → s.repository ≡ new_repository
        → status_of policy digest scope approval_id (run digest policy calls s).repository
          ≡ ok known
        → payloads_of resume_event as_grant
            (chain_of (chain_key scope approval_id) (run digest policy calls s).repository)
          ≡ ok grants
        → Released digest policy known.candidate known.decisions grants
    resumed-Released grants new shown listed =
        let (v, same) =
          known-Sound digest policy (run digest policy calls s).repository
            (runs-AllSound digest policy calls s new) scope approval_id known shown in
        subst (λ (x : ApprovalStatus). Released digest policy x.candidate x.decisions grants) same
          (subst (Released digest policy v.candidate v.decisions)
            (ok-injective (sym v.resumed ∙ listed)) v.released)

    -- After any calls on a service whose repository was new, an approval that is no longer pending
    -- keeps its state, its candidate and its decisions whatever calls follow.
    pub decided-run :
        (more : List Call)
        → s.repository ≡ new_repository
        → status_of policy digest scope approval_id (run digest policy calls s).repository
          ≡ ok known
        → is_pending known.state ≡ false
        → (later : ApprovalStatus) × (status_of policy digest scope approval_id
              (run digest policy more (run digest policy calls s)).repository
            ≡ ok later)
          × (later.state ≡ known.state)
          × (later.candidate ≡ known.candidate)
          × (later.decisions ≡ known.decisions)
    decided-run more new shown settled =
        let now = run digest policy calls s in
        let sound = runs-AllSound digest policy calls s new in
        let (v, same) =
          known-Sound digest policy now.repository sound scope approval_id known shown in
        let (later, shown', e, f, g) =
          settled_later digest policy more now scope approval_id v sound
            (ap (λ (x : ApprovalStatus). is_pending x.state) same ∙ settled) in
        (
          later,
          shown',
          e ∙ ap (λ (x : ApprovalStatus). x.state) same,
          f ∙ ap (λ (x : ApprovalStatus). x.candidate) same,
          g ∙ ap (λ (x : ApprovalStatus). x.decisions) same,
        )
