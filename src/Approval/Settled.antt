-- ===== src/Approval/Settled.antt =====
-- Approvals of src/ndt_agents/approval/service.py that are no longer pending: no call changes their
-- candidate or their decisions.
use ndt_agents.Base.{
  true, false, List, [], ◌∷◌, ◌++◌, String, ◌≡◌, refl, sym, ap, ◌∙◌, inl, inr, Bool-cases,
}
use mathlib.Core.Path.{subst}
use ndt_agents.Result.{Result, ok, err, ok-injective}
use ndt_agents.Cache.Models.{TenantScope}
use ndt_agents.Cache.Backend.{same_key}
use ndt_agents.Cache.Lookups.{same_key-Decides}
use ndt_agents.Approval.Data.{
  decision_event, ApprovalPolicy, ApprovalCandidate, ApprovalDecision, ApprovalStatus,
  ApprovalEvent, ApprovalError, approval_not_found, validation_error, Content, Repository,
  Approvals,
}
use ndt_agents.Approval.Journal.{chain_key, chain_of, Appending, next_event, same_event_type}
use ndt_agents.Approval.State.{as_decision, payloads_of, state_of, candidate_of, status_of}
use ndt_agents.Approval.Checks.{is_pending}
use ndt_agents.Approval.Log.{key_of}
use ndt_agents.Approval.Writes.{added, appending_of}
use ndt_agents.Approval.Opening.{candidate_appending}
use ndt_agents.Approval.Granted.{grant_appending}
use ndt_agents.Approval.Entrusted.{delegation_appending}
use ndt_agents.Approval.Moves.{Move, stays, opens, entrusts, rules, releases}
use ndt_agents.Approval.Calls.{Call, after, run, after-Move}
use ndt_agents.Approval.Sound.{IsSound, known_of}
use ndt_agents.Approval.Unreadable.{IsUnreadable, candidate_of-IsUnreadable}
use ndt_agents.Approval.Reading.{payloads_of-other, candidate_of-append}
use ndt_agents.Approval.Runs.{
  AllSound, run-AllSound, status_of-known_of, known-Sound, chain_of-added, chain_of-added-other,
  known-chain_key, Move-AllSound,
}

-- The chain says this of its approval.
abbrev pub Says :
    (Content → String) → ApprovalCandidate → List ApprovalDecision → List ApprovalEvent → Type 0
Says digest c ds chain =
    (candidate_of digest chain ≡ ok c) × (payloads_of decision_event as_decision chain ≡ ok ds)

-- A chain says one thing only.
pub Says-unique :
    (digest : Content → String) {c e : ApprovalCandidate} {ds es : List ApprovalDecision}
    (chain : List ApprovalEvent)
    → Says digest c ds chain
    → Says digest e es chain
    → (c ≡ e) × (ds ≡ es)
Says-unique digest chain h g = (ok-injective (sym h.0 ∙ g.0), ok-injective (sym h.1 ∙ g.1))

module _ (digest : Content → String) (policy : ApprovalPolicy) where
  Says-next :
      {c : ApprovalCandidate} {ds : List ApprovalDecision} (a : Appending)
      (chain : List ApprovalEvent)
      → same_event_type a.event_type decision_event ≡ false
      → Says digest c ds chain
      → Says digest c ds (chain ++ next_event digest a chain ∷ [])
  unfolding next_event
  Says-next {c} {ds} a chain other h = (
    candidate_of-append digest chain (next_event digest a chain) c h.0,
    payloads_of-other decision_event as_decision chain (next_event digest a chain) ds h.1 other,
  )

  module _ (r : Repository) (sound : AllSound digest policy r) {c : ApprovalCandidate}
      {ds : List ApprovalDecision} (k : List String) where
    Says-added :
        (a : Appending)
        → (key_of a ≡ k → same_event_type a.event_type decision_event ≡ false)
        → Says digest c ds (chain_of k r)
        → Says digest c ds (chain_of k (added digest policy r a))
    Says-added a other h = elim (Bool-cases (same_key (key_of a) k)) [
      | inl e ↦
          let here = same_key-Decides.sound (key_of a) k e in
          let h' : Says digest c ds (chain_of (key_of a) r) = rw here h in
          let g : Says digest c ds (chain_of (key_of a) (added digest policy r a)) =
            subst (Says digest c ds) (sym (chain_of-added digest policy r sound a))
              (Says-next a (chain_of (key_of a) r) (other here) h') in
          subst (λ j. Says digest c ds (chain_of j (added digest policy r a))) here g
      | inr e ↦ subst (Says digest c ds) (sym (chain_of-added-other digest policy r sound a k e)) h
    ]

    -- What is not pending stays as it is.
    Move-Says :
        {r' : Repository}
        → Move digest policy r r'
        → is_pending (state_of (policy.rules c.kind) ds) ≡ false
        → Says digest c ds (chain_of k r)
        → Says digest c ds (chain_of k r')
    Move-Says stays settled h = h
    Move-Says (opens x empty version shape) settled h =
        Says-added (candidate_appending digest policy x) (λ _. refl) h
    Move-Says (entrusts scope known d e still) settled h =
        Says-added (delegation_appending digest policy r known.candidate.scope d) (λ _. refl) h
    Move-Says (rules scope approval_id known d e g) settled h =
        Says-added (appending_of digest policy r known.candidate.scope d)
          (λ here.
            let (v, same) = known-Sound digest policy r sound scope approval_id known e in
            let there =
              sym (
                known-chain_key digest policy r sound scope approval_id known d.approval_id e
                  g.of_approval)
              ∙ here in
            let one = Says-unique digest (chain_of k r) h (
              subst (λ j. Says digest v.candidate v.decisions (chain_of j r)) there
                (v.first, v.decided)) in
            let open' : is_pending (state_of (policy.rules v.candidate.kind) v.decisions) ≡ true =
              ap (λ (x : ApprovalStatus). is_pending x.state) same ∙ g.while_pending in
            let closed : is_pending (state_of (policy.rules v.candidate.kind) v.decisions) ≡ false =
              subst
                (λ (x : ApprovalCandidate).
                  is_pending (state_of (policy.rules x.kind) v.decisions) ≡ false)
                one.0
                (subst (λ x. is_pending (state_of (policy.rules c.kind) x) ≡ false) one.1
                  settled) in
            sym open' ∙ closed)
          h
    Move-Says (releases scope approval_id known g e passed) settled h =
        Says-added (grant_appending digest policy r known.candidate.scope g) (λ _. refl) h

  pub run-Says :
      (calls : List Call) (s : Approvals) {c : ApprovalCandidate} {ds : List ApprovalDecision}
      (k : List String)
      → AllSound digest policy s.repository
      → is_pending (state_of (policy.rules c.kind) ds) ≡ false
      → Says digest c ds (chain_of k s.repository)
      → Says digest c ds (chain_of k (run digest policy calls s).repository)
  unfolding run
  run-Says [] s k sound settled h = h
  run-Says (call ∷ calls) s k sound settled h =
      let move = after-Move digest policy call s in
      run-Says calls (after digest policy call s) k
        (Move-AllSound digest policy s.repository sound move) settled
        (Move-Says s.repository sound k move settled h)

  nothing_said :
      {c : ApprovalCandidate} {ds : List ApprovalDecision} (chain : List ApprovalEvent)
      → chain ≡ []
      → Says digest c ds chain
      → ⊥
  unfolding candidate_of
  nothing_said {c} chain empty h =
      let bad : ◌≡◌ {A = Result ApprovalError ApprovalCandidate} (err approval_not_found) (ok c) =
        rw empty at h.0 in
      cc

  nothing_readable :
      {c : ApprovalCandidate} {ds : List ApprovalDecision} (chain : List ApprovalEvent)
      → IsUnreadable digest policy chain
      → Says digest c ds chain
      → ⊥
  nothing_readable {c} chain v h =
      let bad : ◌≡◌ {A = Result ApprovalError ApprovalCandidate} (err validation_error) (ok c) =
        sym (candidate_of-IsUnreadable digest policy chain v) ∙ h.0 in
      cc

  -- After calls, an approval that was no longer pending has the same candidate and decisions.
  pub settled_later :
      (calls : List Call) (s : Approvals) (scope : TenantScope) (approval_id : String)
      (v : IsSound digest policy
        (chain_key scope approval_id)
        (chain_of (chain_key scope approval_id) s.repository))
      → AllSound digest policy s.repository
      → is_pending (state_of (policy.rules v.candidate.kind) v.decisions) ≡ false
      → (later : ApprovalStatus) × (status_of policy digest scope approval_id
            (run digest policy calls s).repository
          ≡ ok later)
        × (later.state ≡ state_of (policy.rules v.candidate.kind) v.decisions)
        × (later.candidate ≡ v.candidate)
        × (later.decisions ≡ v.decisions)
  settled_later calls s scope approval_id v sound settled =
      let k = chain_key scope approval_id in
      let r = (run digest policy calls s).repository in
      let says = run-Says calls s k sound settled (v.first, v.decided) in
      let sound' = run-AllSound digest policy calls s sound in
      elim (sound' k) [
        | inl empty ↦ absurd (nothing_said (chain_of k r) empty says)
        | inr (inl v') ↦ absurd (nothing_readable (chain_of k r) v' says)
        | inr (inr w) ↦
            let (e, f) = Says-unique digest (chain_of k r) (w.first, w.decided) says in
            (
              known_of digest policy w,
              status_of-known_of digest policy r sound' scope approval_id w,
              rw (e, f) refl,
              e,
              f,
            )
      ]
