-- ===== src/Approval/View.antt =====
-- What the steps of `ApprovalService` in src/ndt_agents/approval/service.py do to its repository:
-- the clock, the audit and the denials leave it alone, and a check that passes has shown its fact.
use ndt_agents.Base.{
  ℕ, ◌<◌, Bool, true, false, ◌&&◌, not, List, [], ◌∷◌, String, str_eq, has, ltb, ◌≡◌, refl, sym,
  ◌⊎◌, inl, inr, arith,
}
use mathlib.Core.Path.{subst}
use ndt_agents.Exec.{gets, ◌>>=◌, ◌>>◌}
use ndt_agents.Exec.Triple.{
  Triple, Ends, Triple-bind, Triple-pure, Triple-raise, Triple-modify, Triple-map, Triple-if,
  Triple-given,
}
use ndt_agents.Approval.Data.{
  ApprovalPolicy, ApprovalActor, actor_id, roles, ApprovalCandidate, ApprovalDelegation,
  ApprovalStatus, ApprovalError, AuditOutcome, AuditDecision, Repository, Approvals, Approving,
}
use ndt_agents.Approval.Checks.{
  read_time, audit, deny, deny_if, is_pending, expiry_check, require_pending_current, is_bound,
  require_actor_scope, used_roles, delegated_roles, choose_from, choose_role, grants_role,
  has_delegation, authorize_role,
}

abbrev pub At : Repository → Approvals → Type 0
At r s = s.repository ≡ r

-- Some delegation of the role to the actor was active at a time that the clock showed.
abbrev pub IsDelegated : ApprovalCandidate → String → String → List ApprovalDelegation → Type 0
IsDelegated candidate actor role [] = ⊥
IsDelegated candidate actor role (d ∷ ds) =
    ((grants_role candidate actor role d ≡ true) × (now : ℕ) × (now < d.expires_at.instant))
    ⊎ IsDelegated candidate actor role ds

module _ {r : Repository} where
  -- Reading the repository.
  pub Triple-repository :
      {B : Type 0} {Q : B → Approvals → Type 0} {R : ApprovalError → Approvals → Type 0}
      (k : Repository → Approving B)
      → Triple (At r) (k r) Q R
      → Triple (At r) (gets (λ s. s.repository) >>= k) Q R
  unfolding gets ◌>>=◌
  Triple-repository {Q} {R} k t = record {
    at = λ s h. subst (λ x. Ends Q R (k x s)) (sym h) (t.at s h);
  }

module _ {r : Repository} {R : ApprovalError → Approvals → Type 0} where
  pub read_time-At : Triple (At r) read_time (λ _. At r) R
  unfolding read_time
  read_time-At = record { at = λ s h. h }

  pub audit-At :
      (c : ApprovalCandidate) (d : AuditDecision) (o : AuditOutcome) (sha : String)
      → Triple (At r) (audit c d o sha) (λ _. At r) R
  unfolding audit
  audit-At c d o sha = Triple-bind read_time-At λ now. Triple-modify _ (λ s h. h)

pub not-false : (b : Bool) → not b ≡ false → b ≡ true
not-false true h = refl
not-false false h = cc

module _ {r : Repository} where
  pub deny-At :
      {A : Type 0} {Q : A → Approvals → Type 0} (c : ApprovalCandidate) (e : ApprovalError)
      → Triple (At r) (deny c e) Q (λ _. At r)
  unfolding deny
  deny-At c e = Triple-bind (audit-At c _ _ _) λ _. Triple-raise e (λ s h. h)

  -- A denial that is passed.
  pub deny_if-At :
      (b : Bool) (c : ApprovalCandidate) (e : ApprovalError)
      → Triple (At r) (deny_if b c e) (λ _ s. At r s × (b ≡ false)) (λ _. At r)
  unfolding deny_if
  deny_if-At true c e = deny-At c e
  deny_if-At false c e = Triple-pure tt (λ s h. (h, refl))

  -- A denial in front of a call: its fact is at hand for what follows.
  pub Triple-allowed :
      {B F : Type 0} {Q : B → Approvals → Type 0} {m : Approving (Unit {0})} {k : Approving B}
      → Triple (At r) m (λ _ s. At r s × F) (λ _. At r)
      → (F → Triple (At r) k Q (λ _. At r))
      → Triple (At r) (m >> k) Q (λ _. At r)
  Triple-allowed t k = Triple-bind t λ _. Triple-given k

  expiry_check-At :
      (b : Bool) (c : ApprovalCandidate) → Triple (At r) (expiry_check b c) (λ _. At r) (λ _. At r)
  expiry_check-At true c =
      Triple-bind read_time-At
        λ now. Triple-map (deny_if-At _ c _) (λ s h. h) (λ _ s h. h.0) (λ _ s h. h)
  expiry_check-At false c = Triple-pure tt (λ s h. h)

  pub require_pending_current-At :
      (known : ApprovalStatus) (expected : String) (b : Bool)
      → Triple
          (At r)
          (require_pending_current known expected b)
          (λ _ s.
            At r s
            × ((str_eq expected known.candidate.candidate_sha256 ≡ true)
                × (is_pending known.state ≡ true)))
          (λ _. At r)
  unfolding require_pending_current
  require_pending_current-At known expected b = Triple-allowed (deny_if-At _ _ _) λ current.
      Triple-allowed (deny_if-At _ _ _) λ open'.
        Triple-map (expiry_check-At b known.candidate) (λ s h. h)
          (λ _ s h. (h, (not-false _ current, not-false _ open'))) (λ _ s h. h)

  pub require_actor_scope-At :
      (c : ApprovalCandidate) (actor : ApprovalActor)
      → Triple
          (At r)
          (require_actor_scope c actor)
          (λ _ s. At r s × (is_bound c actor ≡ true))
          (λ _. At r)
  unfolding require_actor_scope
  require_actor_scope-At c actor =
      Triple-map (deny_if-At _ c _) (λ s h. h) (λ _ s h. (h.0, not-false _ h.1)) (λ _ s h. h)

  delegated_roles-At :
      (c : ApprovalCandidate) (actor : String) (used : List String) (ds : List ApprovalDelegation)
      → Triple (At r) (delegated_roles c actor used ds) (λ _. At r) (λ _. At r)
  unfolding delegated_roles
  delegated_roles-At c actor used [] = Triple-pure [] (λ s h. h)
  delegated_roles-At c actor used (d ∷ ds) =
      Triple-if (str_eq d.delegate_id actor && str_eq d.candidate_sha256 c.candidate_sha256) _ _
        (λ _.
          Triple-bind read_time-At λ now.
            Triple-bind (delegated_roles-At c actor used ds) λ more. Triple-pure _ (λ s h. h))
        (λ _. delegated_roles-At c actor used ds)

  choose_from-At :
      (xs : List String) (c : ApprovalCandidate) (known : ApprovalStatus) (actor : ApprovalActor)
      → Triple (At r) (choose_from xs c known actor) (λ _. At r) (λ _. At r)
  choose_from-At (x ∷ xs) c known actor = Triple-pure _ (λ s h. h)
  choose_from-At [] c known actor =
      Triple-bind
        (delegated_roles-At c (actor_id actor) (used_roles known.decisions) known.delegations)
        λ roles. Triple-pure _ (λ s h. h)

  pub choose_role-At :
      (policy : ApprovalPolicy) (c : ApprovalCandidate) (known : ApprovalStatus)
      (actor : ApprovalActor)
      → Triple (At r) (choose_role policy c known actor) (λ _. At r) (λ _. At r)
  unfolding choose_role
  choose_role-At policy c known actor = choose_from-At _ c known actor

  has_delegation-At :
      (c : ApprovalCandidate) (actor role : String) (ds : List ApprovalDelegation)
      → Triple
          (At r)
          (has_delegation c actor role ds)
          (λ b s. At r s × (b ≡ true → IsDelegated c actor role ds))
          (λ _. At r)
  unfolding has_delegation
  has_delegation-At c actor role [] = Triple-pure false (λ s h. (h, λ e. cc))
  has_delegation-At c actor role (d ∷ ds) =
      let later =
        Triple-map (has_delegation-At c actor role ds) (λ s h. h) (λ b s h. (h.0, λ e. inr (h.1 e)))
          (λ _ s h. h) in
      Triple-if (grants_role c actor role d) _ _
        (λ grants. Triple-bind read_time-At λ now.
          Triple-if (ltb now d.expires_at.instant) _ _
            (λ active. Triple-pure true (λ s h. (h, λ e. inl (grants, now, ground arith))))
            (λ _. later))
        (λ _. later)

  pub authorize_role-At :
      (policy : ApprovalPolicy) (c : ApprovalCandidate) (known : ApprovalStatus)
      (actor : ApprovalActor) (role : String)
      → Triple
          (At r)
          (authorize_role policy c known actor role)
          (λ _ s.
            At r s
            × ((has role (policy.rules c.kind).required_roles ≡ true)
                × ((has role (roles actor) ≡ true)
                    ⊎ IsDelegated c (actor_id actor) role known.delegations)))
          (λ _. At r)
  unfolding authorize_role
  authorize_role-At policy c known actor role = Triple-allowed (deny_if-At _ c _) λ required.
      Triple-if (has role (roles actor)) _ _
        (λ direct. Triple-pure tt (λ s h. (h, (not-false _ required, inl direct))))
        (λ _. Triple-bind (has_delegation-At c (actor_id actor) role known.delegations) λ valid.
          Triple-given λ delegated.
            Triple-map (deny_if-At _ c _) (λ s h. h)
              (λ _ s h. (h.0, (not-false _ required, inr (delegated (not-false valid h.1)))))
              (λ _ s h. h))
