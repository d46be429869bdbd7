-- ===== src/Approval/Runs.antt =====
-- Runs of `ApprovalService` in src/ndt_agents/approval/service.py keep every chain sound.
use ndt_agents.Base.{
  true, false, List, [], ◌∷◌, ◌++◌, String, ◌≡◌, refl, sym, ap, ◌∙◌, ◌⊎◌, inl, inr, Bool-cases,
}
use mathlib.Core.Path.{subst}
use ndt_agents.Result.{Result, ok, err, ok-injective}
use ndt_agents.Dict.{lookup-insert, lookup-insert-other}
use ndt_agents.Cache.Models.{TenantScope}
use ndt_agents.Cache.Backend.{same_key}
use ndt_agents.Cache.Lookups.{same_key-Decides}
use ndt_agents.Approval.Data.{
  ApprovalPolicy, ApprovalCandidate, ApprovalStatus, approval_not_found, validation_error, Content,
  Repository, is_valid_candidate, has_preview_digest, ApprovalEvent, Approvals,
}
use ndt_agents.Approval.Journal.{
  new_repository, chain_key, chain_of, or_empty, Appending, next_event, verify_from, verify,
  list_events,
}
use ndt_agents.Approval.State.{candidate_of, status_from, status_of}
use ndt_agents.Approval.Log.{key_of}
use ndt_agents.Approval.Writes.{added, appending_of}
use ndt_agents.Approval.Opening.{candidate_appending}
use ndt_agents.Approval.Granted.{grant_appending}
use ndt_agents.Approval.Entrusted.{delegation_appending}
use ndt_agents.Approval.Moves.{IsDecision, IsGrant, Move, stays, opens, entrusts, rules, releases}
use ndt_agents.Approval.Calls.{Call, after, run, after-Move}
use ndt_agents.Approval.Sound.{
  IsSound, known_of, status_from-known_of, candidate-IsSound, delegation-IsSound, decision-IsSound,
  grant-IsSound,
}
use ndt_agents.Approval.Unreadable.{IsUnreadable, status_from-IsUnreadable, candidate-IsUnreadable}

-- A result that is an error or the value of some evidence.
one_value :
    {E A V : Type 0} {x : Result E A} (a : A) (f : V → A)
    → ((e : E) × (x ≡ err e)) ⊎ ((v : V) × (x ≡ ok (f v)))
    → x ≡ ok a
    → (v : V) × (f v ≡ a)
one_value {E} {A} a f (inl (e, missing)) h =
    let bad : ◌≡◌ {A = Result E A} (ok a) (err e) = sym h ∙ missing in cc
one_value a f (inr (v, shown)) h = (v, ok-injective (sym shown ∙ h))

module _ (digest : Content → String) (policy : ApprovalPolicy) where
  -- A chain that has events: its candidate cannot be read, or it is sound.
  abbrev pub Kept : List String → List ApprovalEvent → Type 0
  Kept k chain = IsUnreadable digest policy chain ⊎ IsSound digest policy k chain

  -- Each chain is empty or kept.
  abbrev pub AllSound : Repository → Type 0
  AllSound r = (k : List String) → (chain_of k r ≡ []) ⊎ Kept k (chain_of k r)

  module _ (r : Repository) (sound : AllSound r) where
    not_found :
        (scope : TenantScope) (approval_id : String)
        → chain_of (chain_key scope approval_id) r ≡ []
        → status_of policy digest scope approval_id r ≡ err approval_not_found
    unfolding status_of list_events status_from candidate_of verify verify_from
    not_found scope approval_id empty = rw empty refl

    pub status_of-known_of :
        (scope : TenantScope) (approval_id : String)
        (v : IsSound digest policy
          (chain_key scope approval_id)
          (chain_of (chain_key scope approval_id) r))
        → status_of policy digest scope approval_id r ≡ ok (known_of digest policy v)
    unfolding status_of list_events
    status_of-known_of scope approval_id v = rw v.linked (status_from-known_of digest policy v)

    unreadable :
        (scope : TenantScope) (approval_id : String)
        → IsUnreadable digest policy (chain_of (chain_key scope approval_id) r)
        → status_of policy digest scope approval_id r ≡ err validation_error
    unfolding status_of list_events
    unreadable scope approval_id v =
        rw v.linked
          (status_from-IsUnreadable digest policy (chain_of (chain_key scope approval_id) r) v)

    -- What `status` says of a sound repository is what the chain shows.
    pub status_of-Sound :
        (scope : TenantScope) (approval_id : String)
        → (((chain_of (chain_key scope approval_id) r ≡ [])
              × (status_of policy digest scope approval_id r ≡ err approval_not_found))
            ⊎ (IsUnreadable digest policy (chain_of (chain_key scope approval_id) r)
                × (status_of policy digest scope approval_id r ≡ err validation_error)))
          ⊎ ((v : IsSound digest policy
                (chain_key scope approval_id)
                (chain_of (chain_key scope approval_id) r))
              × (status_of policy digest scope approval_id r ≡ ok (known_of digest policy v)))
    unfolding status_of list_events
    status_of-Sound scope approval_id = elim (sound (chain_key scope approval_id)) [
      | inl empty ↦ inl (inl (empty, not_found scope approval_id empty))
      | inr (inl v) ↦ inl (inr (v, unreadable scope approval_id v))
      | inr (inr v) ↦ inr (v, status_of-known_of scope approval_id v)
    ]

    pub known-Sound :
        (scope : TenantScope) (approval_id : String) (known : ApprovalStatus)
        → status_of policy digest scope approval_id r ≡ ok known
        → (v : IsSound digest policy
            (chain_key scope approval_id)
            (chain_of (chain_key scope approval_id) r))
          × (known_of digest policy v ≡ known)
    known-Sound scope approval_id known e = elim (status_of-Sound scope approval_id) [
      | inl (inl (empty, missing)) ↦
          one_value known (λ v. known_of digest policy v) (inl (_, missing)) e
      | inl (inr (v, bad)) ↦ one_value known (λ v. known_of digest policy v) (inl (_, bad)) e
      | inr shown ↦ one_value known (λ v. known_of digest policy v) (inr shown) e
    ]

    pub chain_of-added :
        (a : Appending)
        → chain_of (key_of a) (added digest policy r a)
          ≡ chain_of (key_of a) r ++ next_event digest a (chain_of (key_of a) r) ∷ []
    unfolding chain_of
    chain_of-added a = ap or_empty (lookup-insert same_key-Decides (key_of a) _ r.events)

    pub chain_of-added-other :
        (a : Appending) (k : List String)
        → same_key (key_of a) k ≡ false
        → chain_of k (added digest policy r a) ≡ chain_of k r
    unfolding chain_of
    chain_of-added-other a k h =
        ap or_empty (lookup-insert-other same_key-Decides (key_of a) k _ r.events h)

    -- One event more, on a chain that stays sound.
    added-AllSound :
        (a : Appending) (k : List String)
        → key_of a ≡ k
        → Kept k (chain_of k r ++ next_event digest a (chain_of k r) ∷ [])
        → AllSound (added digest policy r a)
    added-AllSound a k here v l = elim (Bool-cases (same_key (key_of a) l)) [
      | inl h ↦
          let v' : Kept (key_of a) (chain_of (key_of a) (added digest policy r a)) =
            subst (Kept (key_of a)) (sym (chain_of-added a)) (
              subst (λ j. Kept j (chain_of j r ++ next_event digest a (chain_of j r) ∷ []))
                (sym here) v) in
          inr (
            subst (λ j. Kept j (chain_of j (added digest policy r a)))
              (same_key-Decides.sound (key_of a) l h) v')
      | inr h ↦
          subst (λ chain. (chain ≡ []) ⊎ Kept l chain) (sym (chain_of-added-other a l h)) (sound l)
    ]

    same_chain :
        (c : ApprovalCandidate) (scope : TenantScope) (approval_id id : String)
        → chain_key c.scope c.approval_id ≡ chain_key scope approval_id
        → (id ≡ approval_id) ⊎ (id ≡ c.approval_id)
        → chain_key c.scope id ≡ chain_key scope approval_id
    same_chain c scope approval_id id home (inl e) =
        let tenant : c.scope.tenant_id ≡ scope.tenant_id = cc in
        let project : c.scope.project_id ≡ scope.project_id = cc in rw (tenant, project, e) refl
    same_chain c scope approval_id id home (inr e) = rw e home

    -- The chain that is read is the chain that is written.
    pub known-chain_key :
        (scope : TenantScope) (approval_id : String) (known : ApprovalStatus) (id : String)
        → status_of policy digest scope approval_id r ≡ ok known
        → (id ≡ approval_id) ⊎ (id ≡ known.candidate.approval_id)
        → chain_key known.candidate.scope id ≡ chain_key scope approval_id
    known-chain_key scope approval_id known id e named =
        let (v, same) = known-Sound scope approval_id known e in
        let home =
          ap (λ (x : ApprovalStatus). chain_key x.candidate.scope x.candidate.approval_id)
            (sym same)
          ∙ v.home in
        same_chain known.candidate scope approval_id id home named

    starts :
        (c : ApprovalCandidate)
        → c.policy_version ≡ policy.policy_version
        → (is_valid_candidate digest c ≡ true) ⊎ (has_preview_digest digest c ≡ false)
        → let a = candidate_appending digest policy c in
          Kept (chain_key c.scope c.approval_id) (next_event digest a [] ∷ [])
    starts c version (inl valid) = inr (
        candidate-IsSound digest policy c (candidate_appending digest policy c) refl refl version
          valid)
    starts c version (inr bad) =
        inl (
          candidate-IsUnreadable digest policy c (candidate_appending digest policy c) refl refl
            bad)

    -- A move keeps every chain sound.
    pub Move-AllSound : {r' : Repository} → Move digest policy r r' → AllSound r'
    Move-AllSound stays = sound
    Move-AllSound (opens c empty version shape) =
        let a = candidate_appending digest policy c in
        added-AllSound a (chain_key c.scope c.approval_id) refl (rw empty (starts c version shape))
    Move-AllSound (entrusts scope known d e still) =
        let (v, same) = known-Sound scope d.approval_id known e in
        let a = delegation_appending digest policy r known.candidate.scope d in
        added-AllSound a (chain_key scope d.approval_id)
          (known-chain_key scope d.approval_id known d.approval_id e (inl refl))
          (inr (delegation-IsSound digest policy v a d refl refl))
    Move-AllSound (rules scope approval_id known d e h) =
        let (v, same) = known-Sound scope approval_id known e in
        let a = appending_of digest policy r known.candidate.scope d in
        added-AllSound a (chain_key scope approval_id)
          (known-chain_key scope approval_id known d.approval_id e h.of_approval)
          (inr (
            decision-IsSound digest policy v a d approval_id refl refl
              (subst (λ x. IsDecision digest policy x approval_id d) (sym same) h)))
    Move-AllSound (releases scope approval_id known g e h) =
        let (v, same) = known-Sound scope approval_id known e in
        let a = grant_appending digest policy r known.candidate.scope g in
        added-AllSound a (chain_key scope approval_id)
          (known-chain_key scope approval_id known g.approval_id e (inl h.of_approval))
          (inr (
            grant-IsSound digest policy v a g approval_id refl refl
              (subst (λ x. IsGrant digest policy x approval_id g) (sym same) h)))

  pub run-AllSound :
      (calls : List Call) (s : Approvals)
      → AllSound s.repository
      → AllSound (run digest policy calls s).repository
  unfolding run
  run-AllSound [] s h = h
  run-AllSound (c ∷ calls) s h =
      run-AllSound calls (after digest policy c s)
        (Move-AllSound s.repository h (after-Move digest policy c s))

  new-AllSound : AllSound new_repository
  unfolding chain_of
  new-AllSound k = inl refl

  -- So every chain is sound after any calls on a service whose repository is new.
  pub runs-AllSound :
      (calls : List Call) (s : Approvals)
      → s.repository ≡ new_repository
      → AllSound (run digest policy calls s).repository
  runs-AllSound calls s new = run-AllSound calls s (subst AllSound (sym new) new-AllSound)
