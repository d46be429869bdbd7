-- ===== src/Approval/Granted.antt =====
-- What `delegate` and `resume` of `ApprovalService` in src/ndt_agents/approval/service.py write, and
-- on which conditions.
use ndt_agents.Base.{
  ℕ, true, false, Option, none, some, String, str_eq, is_some, ◌≡◌, refl, ◌⊎◌, inl, inr,
}
use ndt_agents.Exec.{ok}
use ndt_agents.Exec.Triple.{Triple, Triple-bind, Triple-pure, Triple-map, Triple-given}
use ndt_agents.Cache.Models.{TenantScope}
use ndt_agents.Approval.Data.{
  resume_event, ApprovalPolicy, ApprovalGrant, ApprovalStatus, of_grant, Content, Repository,
  Approvals,
}
use ndt_agents.Approval.Journal.{Appending}
use ndt_agents.Approval.State.{as_grant, status_of}
use ndt_agents.Approval.Requests.{is_approved}
use ndt_agents.Approval.Flow.{decision_sha256s, resume_known, resume}
use ndt_agents.Approval.View.{At, read_time-At, audit-At, deny_if-At, Triple-allowed, not-false}
use ndt_agents.Approval.Writes.{
  Wrote, Found, Found-none, status-At, stored-At, store_new-At, replay-At,
}

module _ (digest : Content → String) (policy : ApprovalPolicy) (r : Repository) where
  -- The event of a grant.
  abbrev pub grant_appending : TenantScope → ApprovalGrant → Appending
  grant_appending scope g = record {
    event_id = g.resume_id;
    approval_id = g.approval_id;
    scope = scope;
    event_type = resume_event;
    payload = of_grant g;
    created_at = g.resumed_at;
  }

  -- What a new grant has passed.
  pub record IsResumable (known : ApprovalStatus) (expected : String) : Type 0 where
    pub unused : is_some known.grant ≡ false
    pub complete : is_approved known.state ≡ true
    pub current : str_eq expected known.candidate.candidate_sha256 ≡ true

  abbrev new_grant : String → String → ApprovalStatus → ℕ → ApprovalGrant
  new_grant resume_id approval_id known now = record {
    resume_id = resume_id;
    approval_id = approval_id;
    scope = known.candidate.scope;
    task_id = known.candidate.task_id;
    candidate_sha256 = known.candidate.candidate_sha256;
    policy_version = known.candidate.policy_version;
    decision_sha256s = decision_sha256s digest policy known.decisions;
    resumed_at = now;
  }

  -- A grant that `resume` returns: one that is stored already, or a new one.
  abbrev pub Resumes : String → TenantScope → String → String → ApprovalGrant → Approvals → Type 0
  Resumes resume_id scope approval_id expected g s =
      (At r s × Found digest policy r as_grant scope resume_id (some g))
      ⊎ ((known : ApprovalStatus) × (now : ℕ) × (status_of policy digest scope approval_id r
            ≡ ok known)
          × IsResumable known expected
          × (g ≡ new_grant resume_id approval_id known now)
          × Wrote digest policy r (grant_appending known.candidate.scope g) s)

  resume_known-At :
      (known : ApprovalStatus) (resume_id : String) (scope : TenantScope)
      (approval_id expected : String) (old : Option ApprovalGrant)
      → status_of policy digest scope approval_id r ≡ ok known
      → Found digest policy r as_grant scope resume_id old
      → Triple
          (At r)
          (resume_known digest policy known approval_id resume_id expected old)
          (Resumes resume_id scope approval_id expected)
          (λ _. At r)
  resume_known-At known resume_id scope approval_id expected (some g) e found =
      Triple-map (replay-At digest policy r known.candidate _ _ g) (λ s h. h)
        (λ _ s h. inl (h.0, rw h.1 found)) (λ _ s h. h)
  resume_known-At known resume_id scope approval_id expected none e found =
      Triple-allowed (deny_if-At _ _ _) λ unused. Triple-allowed (deny_if-At _ _ _) λ complete.
        Triple-allowed (deny_if-At _ _ _) λ current. Triple-bind read_time-At λ now.
          Triple-bind (audit-At known.candidate _ _ _) λ _.
            let fresh = Found-none digest policy r as_grant scope resume_id found in
            Triple-bind
              (store_new-At digest policy r
                (grant_appending known.candidate.scope (new_grant resume_id approval_id known now))
                fresh)
              λ _. Triple-pure _ λ s h. inr (
                known,
                now,
                e,
                record {
                  unused = unused;
                  complete = not-false _ complete;
                  current = not-false _ current;
                },
                refl,
                h,
              )

  pub resume-At :
      (resume_id : String) (scope : TenantScope) (approval_id expected : String)
      → Triple
          (At r)
          (resume digest policy resume_id scope approval_id expected)
          (Resumes resume_id scope approval_id expected)
          (λ _. At r)
  unfolding resume
  resume-At resume_id scope approval_id expected =
      Triple-bind (status-At digest policy r scope approval_id) λ known. Triple-given λ e.
        Triple-bind (stored-At digest policy r as_grant scope resume_id) λ old.
          Triple-given
            λ found. resume_known-At known resume_id scope approval_id expected old e found
