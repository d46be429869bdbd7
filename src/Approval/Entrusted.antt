-- ===== src/Approval/Entrusted.antt =====
-- What `delegate` of `ApprovalService` in src/ndt_agents/approval/service.py writes, and on which
-- conditions.
use ndt_agents.Base.{
  ℕ, Bool, true, false, ◌||◌, not, Option, none, some, String, str_eq, has, length_within, ◌≡◌,
  refl, sym, ap, ◌⊎◌, inl, inr, Bool-cases,
}
use mathlib.Core.Path.{subst}
use ndt_agents.Exec.{Result, ok, err}
use ndt_agents.Exec.Triple.{Triple, Triple-bind, Triple-pure, Triple-lift, Triple-map, Triple-given}
use ndt_agents.Cache.Models.{TenantScope}
use ndt_agents.Approval.Data.{
  Moment, delegation_event, ApprovalPolicy, ApprovalActor, actor_id, roles, ApprovalDelegation,
  ApprovalStatus, of_delegation, ApprovalError, validation_error, Content, Repository, Approvals,
}
use ndt_agents.Approval.Journal.{Appending}
use ndt_agents.Approval.State.{as_delegation, status_of}
use ndt_agents.Approval.Checks.{is_pending, is_bound}
use ndt_agents.Approval.Requests.{checked_delegation}
use ndt_agents.Approval.Flow.{is_bad_expiry, delegate_known, delegate}
use ndt_agents.Approval.View.{
  At, read_time-At, audit-At, deny_if-At, Triple-allowed, require_pending_current-At,
  require_actor_scope-At,
}
use ndt_agents.Approval.Writes.{
  Wrote, Found, Found-none, status-At, stored-At, store_new-At, replay-At,
}

module _ (digest : Content → String) (policy : ApprovalPolicy) (r : Repository) where
  -- The event of a delegation.
  abbrev pub delegation_appending : TenantScope → ApprovalDelegation → Appending
  delegation_appending scope d = record {
    event_id = d.delegation_id;
    approval_id = d.approval_id;
    scope = scope;
    event_type = delegation_event;
    payload = of_delegation d;
    created_at = d.created_at;
  }

  -- What a new delegation has passed.
  pub record IsDelegable (known : ApprovalStatus) (expected : String) (grantor : ApprovalActor)
      (role : String) (expires_at : Moment) (now : ℕ) : Type 0 where
    pub current : str_eq expected known.candidate.candidate_sha256 ≡ true
    pub open_still : is_pending known.state ≡ true
    pub bound : is_bound known.candidate grantor ≡ true
    pub allowed : (policy.rules known.candidate.kind).delegation_allowed ≡ true
    pub required : has role (policy.rules known.candidate.kind).required_roles ≡ true
    pub held : has role (roles grantor) ≡ true
    pub independent : str_eq (actor_id grantor) known.candidate.scope.user_id ≡ false
    pub timely : is_bad_expiry expires_at now known.candidate.expires_at ≡ false

  abbrev new_delegation :
      String → String → String → ApprovalActor → String → String → Moment → ℕ → ApprovalDelegation
  new_delegation delegation_id approval_id expected grantor delegate_id role expires_at now =
      record {
        delegation_id = delegation_id;
        approval_id = approval_id;
        candidate_sha256 = expected;
        grantor_id = actor_id grantor;
        delegate_id = delegate_id;
        delegated_role = role;
        created_at = now;
        expires_at = expires_at;
      }

  -- A delegation that `delegate` returns: one that is stored already, or a new one.
  abbrev pub Delegates :
      String
      → TenantScope
      → String
      → String
      → ApprovalActor
      → String
      → String
      → Moment
      → ApprovalDelegation
      → Approvals
      → Type 0
  Delegates delegation_id scope approval_id expected grantor delegate_id role expires_at d s =
      (At r s × Found digest policy r as_delegation scope delegation_id (some d))
      ⊎ ((known : ApprovalStatus) × (now : ℕ) × (status_of policy digest scope approval_id r
            ≡ ok known)
          × IsDelegable known expected grantor role expires_at now
          × (d
              ≡ new_delegation delegation_id approval_id expected grantor delegate_id role
                  expires_at now)
          × Wrote digest policy r (delegation_appending known.candidate.scope d) s)

  both_allowed : (a b : Bool) → not a || not b ≡ false → (a ≡ true) × (b ≡ true)
  both_allowed true true h = (refl, refl)
  both_allowed true false h = cc
  both_allowed false b h = cc

  held_alone : (a b : Bool) → not a || b ≡ false → (a ≡ true) × (b ≡ false)
  held_alone true b h = (refl, h)
  held_alone false b h = cc

  checked_delegation-eq : (d e : ApprovalDelegation) → checked_delegation d ≡ ok e → e ≡ d
  checked_delegation-eq d e h = elim (Bool-cases (length_within 1 128 d.delegated_role)) [
    | inl good ↦
        let h' : ◌≡◌ {A = Result ApprovalError ApprovalDelegation} (ok d) (ok e) = rw good at h in
        cc
    | inr bad ↦
        let h' : ◌≡◌ {A = Result ApprovalError ApprovalDelegation} (err validation_error) (ok e) =
          rw bad at h in
        cc
  ]

  delegate_known-At :
      (known : ApprovalStatus) (delegation_id : String) (scope : TenantScope)
      (approval_id expected : String) (grantor : ApprovalActor) (delegate_id role : String)
      (expires_at : Moment) (old : Option ApprovalDelegation)
      → status_of policy digest scope approval_id r ≡ ok known
      → Found digest policy r as_delegation scope delegation_id old
      → Triple
          (At r)
          (delegate_known digest policy known approval_id delegation_id expected grantor delegate_id
            role expires_at old)
          (Delegates delegation_id scope approval_id expected grantor delegate_id role expires_at)
          (λ _. At r)
  delegate_known-At known delegation_id scope approval_id expected grantor delegate_id role
        expires_at (some d) e found =
      Triple-map (replay-At digest policy r known.candidate _ _ d) (λ s h. h)
        (λ _ s h. inl (h.0, rw h.1 found)) (λ _ s h. h)
  delegate_known-At known delegation_id scope approval_id expected grantor delegate_id role
        expires_at none e found =
      Triple-allowed (require_pending_current-At known expected true) λ current.
        Triple-allowed (require_actor_scope-At known.candidate grantor) λ bound.
          Triple-allowed (deny_if-At _ _ _) λ allowed. Triple-allowed (deny_if-At _ _ _) λ held.
            Triple-bind read_time-At λ now. Triple-allowed (deny_if-At _ _ _) λ timely.
              Triple-bind
                {M = λ d s.
                  At r s
                  × (d
                      ≡ new_delegation delegation_id approval_id expected grantor delegate_id role
                          expires_at now)}
                (Triple-lift _ (λ d e s h. (h, checked_delegation-eq _ d e)) (λ x e s h. h))
                λ d. Triple-given λ made. Triple-bind (audit-At known.candidate _ _ _) λ _.
                  let fresh = Found-none digest policy r as_delegation scope delegation_id found in
                  Triple-bind (store_new-At digest policy r _ fresh) λ _. Triple-pure d λ s h. inr (
                    known,
                    now,
                    e,
                    record {
                      current = current.0;
                      open_still = current.1;
                      bound = bound;
                      allowed = (both_allowed _ _ allowed).0;
                      required = (both_allowed _ _ allowed).1;
                      held = (held_alone _ _ held).0;
                      independent = (held_alone _ _ held).1;
                      timely = timely;
                    },
                    made,
                    subst (λ a. Wrote digest policy r a s)
                        (sym (
                          ap
                            (λ (x : ApprovalDelegation).
                              record (delegation_appending known.candidate.scope d) {
                                event_id = x.delegation_id;
                                approval_id = x.approval_id;
                                created_at = x.created_at;
                              })
                            made))
                        h,
                  )

  pub delegate-At :
      (delegation_id : String) (scope : TenantScope) (approval_id expected : String)
      (grantor : ApprovalActor) (delegate_id role : String) (expires_at : Moment)
      → Triple
          (At r)
          (delegate digest policy delegation_id scope approval_id expected grantor delegate_id role
            expires_at)
          (Delegates delegation_id scope approval_id expected grantor delegate_id role expires_at)
          (λ _. At r)
  unfolding delegate
  delegate-At delegation_id scope approval_id expected grantor delegate_id role expires_at =
      Triple-bind (status-At digest policy r scope approval_id) λ known. Triple-given λ e.
        Triple-bind (stored-At digest policy r as_delegation scope delegation_id) λ old.
          Triple-given λ found.
            delegate_known-At known delegation_id scope approval_id expected grantor delegate_id
              role expires_at old e found
