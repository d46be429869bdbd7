-- ===== src/Approval/Moves.antt =====
-- The state machine that `ApprovalService` of src/ndt_agents/approval/service.py is: the
-- events that its methods may add to the repository, and on which conditions.
use ndt_agents.Base.{
  Bool, true, false, Option, [], String, str_eq, has, is_some, ◌≡◌, refl, sym, ap, ◌∙◌, ◌⊎◌, inl,
  inr,
}
use mathlib.Core.Path.{subst}
use ndt_agents.Exec.{ok}
use ndt_agents.Exec.Triple.{Triple, Triple-map}
use ndt_agents.Cache.Models.{TenantScope}
use ndt_agents.Approval.Data.{
  Moment, ApprovalOutcome, expires, cancels, ApprovalPolicy, ApprovalActor, actor_id,
  ApprovalCandidate, ApprovalDelegation, ApprovalDecision, ApprovalGrant, ApprovalStatus, Content,
  Repository, is_valid_candidate, has_preview_digest, ApprovalError, Approvals,
}
use ndt_agents.Approval.Journal.{chain_key, chain_of}
use ndt_agents.Approval.State.{is_approval, status_of}
use ndt_agents.Approval.Checks.{is_pending}
use ndt_agents.Approval.Requests.{acted, is_approved}
use ndt_agents.Approval.Service.{decision, decide, expire, cancel}
use ndt_agents.Approval.Flow.{Request, create, delegate, decision_sha256s, resume}
use ndt_agents.Approval.View.{At}
use ndt_agents.Approval.Writes.{added, appending_of, Signed}
use ndt_agents.Approval.Decided.{decide-At, Decides}
use ndt_agents.Approval.Closed.{Closes, expire-At, cancel-At}
use ndt_agents.Approval.Opening.{candidate_appending}
use ndt_agents.Approval.Flowing.{Creates, Fails, create-At}
use ndt_agents.Approval.Granted.{grant_appending, Resumes, resume-At}
use ndt_agents.Approval.Entrusted.{delegation_appending, Delegates, delegate-At}

module _ (digest : Content → String) (policy : ApprovalPolicy) where
  -- What a decision that is added to an approval satisfies: the approval is pending, the decision is
  -- of its candidate, and one that approves is by an actor who did not ask for it and has not acted
  -- yet, in a role that the policy requires.
  pub record IsDecision (known : ApprovalStatus) (approval_id : String) (d : ApprovalDecision)
      : Type 0 where
    pub of_approval : (d.approval_id ≡ approval_id) ⊎ (d.approval_id ≡ known.candidate.approval_id)
    pub of_content : d.target_sha256 ≡ known.candidate.candidate_sha256
    pub while_pending : is_pending known.state ≡ true
    pub independent :
        is_approval d.outcome ≡ true → str_eq d.actor_id known.candidate.scope.user_id ≡ false
    pub first : is_approval d.outcome ≡ true → acted d.actor_id known.decisions ≡ false
    pub eligible :
        is_approval d.outcome ≡ true
        → has d.actor_role (policy.rules known.candidate.kind).required_roles ≡ true

  -- What a grant that is added to an approval satisfies.
  pub record IsGrant (known : ApprovalStatus) (approval_id : String) (g : ApprovalGrant)
      : Type 0 where
    pub of_approval : g.approval_id ≡ approval_id
    pub of_content : g.candidate_sha256 ≡ known.candidate.candidate_sha256
    pub of_decisions : g.decision_sha256s ≡ decision_sha256s digest policy known.decisions
    pub complete : is_approved known.state ≡ true
    pub unused : is_some known.grant ≡ false

  -- One move: nothing, or one new event of an approval.
  pub data Move (r : Repository) : Repository → Type 0 where
    stays : Move r r
    opens :
        (c : ApprovalCandidate)
        → chain_of (chain_key c.scope c.approval_id) r ≡ []
        → c.policy_version ≡ policy.policy_version
        → (is_valid_candidate digest c ≡ true) ⊎ (has_preview_digest digest c ≡ false)
        → Move r (added digest policy r (candidate_appending digest policy c))
    entrusts :
        (scope : TenantScope) (known : ApprovalStatus) (d : ApprovalDelegation)
        → status_of policy digest scope d.approval_id r ≡ ok known
        → is_pending known.state ≡ true
        → Move r
            (added digest policy r (delegation_appending digest policy r known.candidate.scope d))
    rules :
        (scope : TenantScope) (approval_id : String) (known : ApprovalStatus) (d : ApprovalDecision)
        → status_of policy digest scope approval_id r ≡ ok known
        → IsDecision known approval_id d
        → Move r (added digest policy r (appending_of digest policy r known.candidate.scope d))
    releases :
        (scope : TenantScope) (approval_id : String) (known : ApprovalStatus) (g : ApprovalGrant)
        → status_of policy digest scope approval_id r ≡ ok known
        → IsGrant known approval_id g
        → Move r (added digest policy r (grant_appending digest policy r known.candidate.scope g))

  module _ (r : Repository) where
    stays-At : (s : Approvals) → At r s → Move r s.repository
    stays-At s h = subst (Move r) (sym h) stays

    pub create-Move :
        (q : Request)
        → Triple
            (At r)
            (create digest policy q)
            (λ _ s. Move r s.repository)
            (λ _ s. Move r s.repository)
    create-Move q = Triple-map (create-At digest policy r q) (λ s h. h) creates fails
      where
        creates :
            (known : ApprovalStatus) (s : Approvals)
            → Creates digest policy r q known s
            → Move r s.repository
        creates known s (shown, inl h) = stays-At s h
        creates known s (shown, inr (now, preview, dumped, new, valid, e, w)) =
            subst (Move r) (sym w.1) (opens _ new.empty refl (inl valid))

        fails :
            (x : ApprovalError) (s : Approvals) → Fails digest policy r q x s → Move r s.repository
        fails x s (inl h) = stays-At s h
        fails x s (inr (raised, shown, now, preview, dumped, new, bad, w)) =
            subst (Move r) (sym w) (opens _ new.empty refl (inr bad))

    pub delegate-Move :
        (delegation_id : String) (scope : TenantScope) (approval_id expected : String)
        (grantor : ApprovalActor) (delegate_id role : String) (expires_at : Moment)
        → Triple
            (At r)
            (delegate digest policy delegation_id scope approval_id expected grantor delegate_id
              role expires_at)
            (λ _ s. Move r s.repository)
            (λ _ s. Move r s.repository)
    delegate-Move delegation_id scope approval_id expected grantor delegate_id role expires_at =
        Triple-map
          (delegate-At digest policy r delegation_id scope approval_id expected grantor delegate_id
            role expires_at)
          (λ s h. h) entrusted (λ _ s h. stays-At s h)
      where
        entrusted :
            (d : ApprovalDelegation) (s : Approvals)
            → Delegates digest policy r delegation_id scope approval_id expected grantor delegate_id
                role expires_at d s
            → Move r s.repository
        entrusted d s (inl h) = stays-At s h.0
        entrusted d s (inr (known, now, e, passed, made, w)) =
            let same : d.approval_id ≡ approval_id =
              ap (λ (x : ApprovalDelegation). x.approval_id) made in
            subst (Move r) (sym w.1) (
              entrusts scope known d
                (subst (λ id. status_of policy digest scope id r ≡ ok known) (sym same) e)
                passed.open_still)

    -- A signed decision, in place of the one that it was made from.
    Signed-IsDecision :
        (known : ApprovalStatus) (approval_id : String) (unsigned d : ApprovalDecision)
        → Signed digest policy r unsigned d
        → IsDecision known approval_id unsigned
        → IsDecision known approval_id d
    Signed-IsDecision known approval_id unsigned d (now, e) h =
        subst (IsDecision known approval_id) (sym e) (record {
          of_approval = h.of_approval;
          of_content = h.of_content;
          while_pending = h.while_pending;
          independent = h.independent;
          first = h.first;
          eligible = h.eligible;
        })

    pub decide-Move :
        (decision_id : String) (scope : TenantScope) (approval_id expected : String)
        (actor : ApprovalActor) (outcome : ApprovalOutcome) (reason : String)
        (given : Option String)
        → Triple
            (At r)
            (decide digest policy decision_id scope approval_id expected actor outcome reason given)
            (λ _ s. Move r s.repository)
            (λ _ s. Move r s.repository)
    decide-Move decision_id scope approval_id expected actor outcome reason given =
        Triple-map
          (decide-At digest policy r decision_id scope approval_id expected actor outcome reason
            given)
          (λ s h. h) ruled (λ _ s h. stays-At s h)
      where
        ruled :
            (d : ApprovalDecision) (s : Approvals)
            → Decides digest policy r decision_id scope approval_id expected actor outcome reason d
                s
            → Move r s.repository
        ruled d s (inl h) = stays-At s h.0
        ruled d s (inr (known, role, e, passed, signed, w)) = subst (Move r) (sym w.1) (
            rules scope approval_id known d e (
              Signed-IsDecision known approval_id
                (decision digest policy decision_id approval_id known.candidate.candidate_sha256
                  (actor_id actor) outcome reason role)
                d signed
                (record {
                  of_approval = inl refl;
                  of_content = refl;
                  while_pending = passed.open_still;
                  independent = λ _. passed.independent;
                  first = λ _. passed.first;
                  eligible = λ _. passed.eligible;
                })))

    never : {P : Type 0} (b : Bool) → b ≡ false → b ≡ true → P
    never b e h = let bad : false ≡ true = sym e ∙ h in cc

    close-Move :
        (scope : TenantScope) (approval_id : String) (known : ApprovalStatus)
        (decision_id actor : String) (outcome : ApprovalOutcome) (reason role : String)
        (d : ApprovalDecision) (s : Approvals)
        → status_of policy digest scope approval_id r ≡ ok known
        → is_approval outcome ≡ false
        → Closes digest policy r known decision_id actor outcome reason role d s
        → Move r s.repository
    close-Move scope approval_id known decision_id actor outcome reason role d s e ends (inl h) =
        stays-At s h.0
    close-Move scope approval_id known decision_id actor outcome reason role d s e ends
          (inr (still, signed, w)) =
        subst (Move r) (sym w.1) (
          rules scope approval_id known d e (
            Signed-IsDecision known approval_id
              (decision digest policy decision_id known.candidate.approval_id
                known.candidate.candidate_sha256 actor outcome reason role)
              d signed
              (record {
                of_approval = inr refl;
                of_content = refl;
                while_pending = still;
                independent = never _ ends;
                first = never _ ends;
                eligible = never _ ends;
              })))

    pub expire-Move :
        (decision_id : String) (scope : TenantScope) (approval_id expected reason : String)
        → Triple
            (At r)
            (expire digest policy decision_id scope approval_id expected reason)
            (λ _ s. Move r s.repository)
            (λ _ s. Move r s.repository)
    expire-Move decision_id scope approval_id expected reason =
        Triple-map (expire-At digest policy r decision_id scope approval_id expected reason)
          (λ s h. h)
          (λ d s h.
            close-Move scope approval_id h.0 decision_id h.1 expires h.2 h.3 d s h.4 refl h.5)
          (λ _ s h. stays-At s h)

    pub cancel-Move :
        (decision_id : String) (scope : TenantScope) (approval_id expected : String)
        (actor : ApprovalActor) (reason : String)
        → Triple
            (At r)
            (cancel digest policy decision_id scope approval_id expected actor reason)
            (λ _ s. Move r s.repository)
            (λ _ s. Move r s.repository)
    cancel-Move decision_id scope approval_id expected actor reason =
        Triple-map (cancel-At digest policy r decision_id scope approval_id expected actor reason)
          (λ s h. h)
          (λ d s h.
            close-Move scope approval_id h.0 decision_id h.1 cancels h.2 h.3 d s h.4 refl h.5)
          (λ _ s h. stays-At s h)

    pub resume-Move :
        (resume_id : String) (scope : TenantScope) (approval_id expected : String)
        → Triple
            (At r)
            (resume digest policy resume_id scope approval_id expected)
            (λ _ s. Move r s.repository)
            (λ _ s. Move r s.repository)
    resume-Move resume_id scope approval_id expected =
        Triple-map (resume-At digest policy r resume_id scope approval_id expected) (λ s h. h)
          resumes (λ _ s h. stays-At s h)
      where
        resumes :
            (g : ApprovalGrant) (s : Approvals)
            → Resumes digest policy r resume_id scope approval_id expected g s
            → Move r s.repository
        resumes g s (inl h) = stays-At s h.0
        resumes g s (inr (known, now, e, passed, made, w)) = subst (Move r) (sym w.1) (
            releases scope approval_id known g e (
              subst (IsGrant known approval_id) (sym made) (record {
                of_approval = refl;
                of_content = refl;
                of_decisions = refl;
                complete = passed.complete;
                unused = passed.unused;
              })))
