-- ===== src/Approval/Sound.antt =====
-- Sound chains of src/ndt_agents/approval/service.py: what `status` reads from them is fair, and they
-- stay sound when a fitting event is added.
use ndt_agents.Base.{
  suc, true, false, List, [], ◌∷◌, ◌++◌, String, str_eq, eq_iff, has, is_some, length, ◌≡◌, refl,
  arith,
}
use ndt_agents.Result.{ok}
use ndt_agents.Approval.Data.{
  approved, candidate_event, delegation_event, decision_event, resume_event, ApprovalPolicy,
  ApprovalCandidate, ApprovalDelegation, ApprovalDecision, ApprovalGrant, ApprovalStatus,
  of_candidate, of_delegation, of_decision, of_grant, ApprovalEvent, Content, is_valid_candidate,
}
use ndt_agents.Approval.Journal.{chain_key, zero_sha256, Appending, next_event, verify_from, verify}
use ndt_agents.Approval.State.{
  as_delegation, as_decision, as_grant, payloads_of, is_approval, state_of, last_grant,
  candidate_of, status_from,
}
use ndt_agents.Approval.Checks.{is_pending}
use ndt_agents.Approval.Flow.{decision_sha256s}
use ndt_agents.Approval.Chain.{is_linked-next, verify_from-append}
use ndt_agents.Approval.Moves.{IsDecision, IsGrant}
use ndt_agents.Approval.Fair.{All, All-append, AllDistinct, approvers, approvers-AllDistinct}
use ndt_agents.Approval.Reading.{
  payloads_of-other, payloads_of-same, candidate_of-append, approved_state,
}

module _ (digest : Content → String) (policy : ApprovalPolicy) where
  -- A decision that is fair for a candidate.
  pub record IsFair (c : ApprovalCandidate) (d : ApprovalDecision) : Type 0 where
    pub of_content : d.target_sha256 ≡ c.candidate_sha256
    pub independent : is_approval d.outcome ≡ true → str_eq d.actor_id c.scope.user_id ≡ false
    pub eligible :
        is_approval d.outcome ≡ true → has d.actor_role (policy.rules c.kind).required_roles ≡ true

  -- No grants, or one of the content that was approved, which names the decisions.
  abbrev pub Released : ApprovalCandidate → List ApprovalDecision → List ApprovalGrant → Type 0
  Released c ds [] = Unit
  Released c ds (g ∷ []) =
      (state_of (policy.rules c.kind) ds ≡ approved)
      × (g.candidate_sha256 ≡ c.candidate_sha256)
      × (g.decision_sha256s ≡ decision_sha256s digest policy ds)
  Released c ds (g ∷ h ∷ gs) = ⊥

  pub record IsSound (k : List String) (chain : List ApprovalEvent) : Type 0 where
    pub candidate : ApprovalCandidate
    pub decisions : List ApprovalDecision
    pub delegations : List ApprovalDelegation
    pub grants : List ApprovalGrant
    pub first : candidate_of digest chain ≡ ok candidate
    pub decided : payloads_of decision_event as_decision chain ≡ ok decisions
    pub delegated : payloads_of delegation_event as_delegation chain ≡ ok delegations
    pub resumed : payloads_of resume_event as_grant chain ≡ ok grants
    pub versioned : candidate.policy_version ≡ policy.policy_version
    pub linked : verify digest chain ≡ ok tt
    pub home : chain_key candidate.scope candidate.approval_id ≡ k
    pub fair : All (IsFair candidate) decisions
    pub distinct : AllDistinct (approvers decisions)
    pub released : Released candidate decisions grants

  -- The status that a sound chain has.
  abbrev pub known_of :
      {k : List String} {chain : List ApprovalEvent} → IsSound k chain → ApprovalStatus
  known_of v = record {
    candidate = v.candidate;
    state = state_of (policy.rules v.candidate.kind) v.decisions;
    decisions = v.decisions;
    delegations = v.delegations;
    grant = last_grant v.grants;
  }

  pub status_from-known_of :
      {k : List String} {chain : List ApprovalEvent} (v : IsSound k chain)
      → status_from policy digest chain ≡ ok (known_of v)
  unfolding status_from
  status_from-known_of v =
      let same = (eq_iff v.candidate.policy_version policy.policy_version).1 v.versioned in
      rw (v.first, same, v.decided, v.delegated, v.resumed) refl

  pub linked-next :
      (a : Appending) (chain : List ApprovalEvent)
      → verify digest chain ≡ ok tt
      → verify digest (chain ++ next_event digest a chain ∷ []) ≡ ok tt
  unfolding verify
  linked-next a chain h =
      verify_from-append digest 1 (suc (length chain)) zero_sha256 chain (next_event digest a chain)
        (omega arith) h (is_linked-next digest a chain)

  unreleased :
      (c : ApprovalCandidate) (ds : List ApprovalDecision) (gs : List ApprovalGrant)
      → Released c ds gs
      → is_pending (state_of (policy.rules c.kind) ds) ≡ true
      → gs ≡ []
  unreleased c ds [] h still = refl
  unreleased c ds (g ∷ []) h still =
      let state : is_pending approved ≡ true = rw h.0 at still in
      let bad : false ≡ true = state in cc
  unreleased c ds (g ∷ h ∷ gs) r still = absurd r

  none-Released :
      (c : ApprovalCandidate) (ds : List ApprovalDecision) (gs : List ApprovalGrant)
      → Released c ds gs
      → is_some (last_grant gs) ≡ false
      → gs ≡ []
  unfolding last_grant
  none-Released c ds [] h unused = refl
  none-Released c ds (g ∷ []) h unused = cc
  none-Released c ds (g ∷ h ∷ gs) r unused = absurd r

  -- A chain starts sound, with a candidate.
  pub candidate-IsSound :
      (c : ApprovalCandidate) (a : Appending)
      → a.event_type ≡ candidate_event
      → a.payload ≡ of_candidate c
      → c.policy_version ≡ policy.policy_version
      → is_valid_candidate digest c ≡ true
      → IsSound (chain_key c.scope c.approval_id) (next_event digest a [] ∷ [])
  unfolding next_event candidate_of payloads_of verify verify_from
  candidate-IsSound c a kind payload version valid = record {
    candidate = c;
    decisions = [];
    delegations = [];
    grants = [];
    first = rw (kind, payload, valid) refl;
    decided = rw kind refl;
    delegated = rw kind refl;
    resumed = rw kind refl;
    versioned = version;
    linked = linked-next a [] refl;
    home = refl;
    fair = tt;
    distinct = tt;
    released = tt;
  }

  module _ {k : List String} {chain : List ApprovalEvent} (v : IsSound k chain)
      (a : Appending) where
    abbrev pub grown : List ApprovalEvent
    grown = chain ++ next_event digest a chain ∷ []

    -- A sound chain stays sound with a delegation.
    pub delegation-IsSound :
        (d : ApprovalDelegation)
        → a.event_type ≡ delegation_event
        → a.payload ≡ of_delegation d
        → IsSound k grown
    unfolding next_event
    delegation-IsSound d kind payload =
        let e = next_event digest a chain in
        record {
          candidate = v.candidate;
          decisions = v.decisions;
          delegations = v.delegations ++ d ∷ [];
          grants = v.grants;
          first = candidate_of-append digest chain e v.candidate v.first;
          decided =
              payloads_of-other decision_event as_decision chain e v.decisions v.decided
                (rw kind refl);
          delegated =
              payloads_of-same delegation_event as_delegation chain e v.delegations d v.delegated
                (rw kind refl) (rw payload refl);
          resumed =
              payloads_of-other resume_event as_grant chain e v.grants v.resumed (rw kind refl);
          versioned = v.versioned;
          linked = linked-next a chain v.linked;
          home = v.home;
          fair = v.fair;
          distinct = v.distinct;
          released = v.released;
        }

    -- It stays sound with a decision that fits.
    pub decision-IsSound :
        (d : ApprovalDecision) (approval_id : String)
        → a.event_type ≡ decision_event
        → a.payload ≡ of_decision d
        → IsDecision digest policy (known_of v) approval_id d
        → IsSound k grown
    unfolding next_event
    decision-IsSound d approval_id kind payload h =
        let e = next_event digest a chain in
        record {
          candidate = v.candidate;
          decisions = v.decisions ++ d ∷ [];
          delegations = v.delegations;
          grants = v.grants;
          first = candidate_of-append digest chain e v.candidate v.first;
          decided =
              payloads_of-same decision_event as_decision chain e v.decisions d v.decided
                (rw kind refl) (rw payload refl);
          delegated =
              payloads_of-other delegation_event as_delegation chain e v.delegations v.delegated
                (rw kind refl);
          resumed =
              payloads_of-other resume_event as_grant chain e v.grants v.resumed (rw kind refl);
          versioned = v.versioned;
          linked = linked-next a chain v.linked;
          home = v.home;
          fair = All-append (IsFair v.candidate) v.decisions d v.fair (record {
            of_content = h.of_content;
            independent = h.independent;
            eligible = h.eligible;
          });
          distinct = approvers-AllDistinct v.decisions d v.distinct h.first;
          released = rw (unreleased v.candidate v.decisions v.grants v.released h.while_pending) tt;
        }

    -- It stays sound with a grant that fits.
    pub grant-IsSound :
        (g : ApprovalGrant) (approval_id : String)
        → a.event_type ≡ resume_event
        → a.payload ≡ of_grant g
        → IsGrant digest policy (known_of v) approval_id g
        → IsSound k grown
    unfolding next_event
    grant-IsSound g approval_id kind payload h =
        let e = next_event digest a chain in
        record {
          candidate = v.candidate;
          decisions = v.decisions;
          delegations = v.delegations;
          grants = v.grants ++ g ∷ [];
          first = candidate_of-append digest chain e v.candidate v.first;
          decided =
              payloads_of-other decision_event as_decision chain e v.decisions v.decided
                (rw kind refl);
          delegated =
              payloads_of-other delegation_event as_delegation chain e v.delegations v.delegated
                (rw kind refl);
          resumed =
              payloads_of-same resume_event as_grant chain e v.grants g v.resumed (rw kind refl)
                (rw payload refl);
          versioned = v.versioned;
          linked = linked-next a chain v.linked;
          home = v.home;
          fair = v.fair;
          distinct = v.distinct;
          released =
              rw (none-Released v.candidate v.decisions v.grants v.released h.unused)
                (approved_state _ h.complete, h.of_content, h.of_decisions);
        }
