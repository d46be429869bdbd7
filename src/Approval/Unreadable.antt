-- ===== src/Approval/Unreadable.antt =====
-- Chains of src/ndt_agents/approval/service.py whose candidate cannot be read again.
use ndt_agents.Base.{false, List, [], ◌∷◌, String, ◌≡◌, refl}
use ndt_agents.Result.{ok, err}
use ndt_agents.Approval.Data.{
  candidate_event, ApprovalPolicy, ApprovalCandidate, of_candidate, ApprovalEvent, Content,
  validation_error, is_valid_candidate, has_valid_fields, has_preview_digest,
}
use ndt_agents.Approval.Journal.{Appending, next_event, verify_from, verify}
use ndt_agents.Approval.State.{candidate_of, status_from}
use ndt_agents.Approval.Opening.{and_false}
use ndt_agents.Approval.Sound.{linked-next}

module _ (digest : Content → String) (policy : ApprovalPolicy) where
  -- One candidate whose preview does not have its digest.
  pub record IsUnreadable (chain : List ApprovalEvent) : Type 0 where
    pub candidate : ApprovalCandidate
    pub event : ApprovalEvent
    pub only : chain ≡ event ∷ []
    pub kind : event.event_type ≡ candidate_event
    pub holds : event.payload ≡ of_candidate candidate
    pub mismatch : has_preview_digest digest candidate ≡ false
    pub linked : verify digest chain ≡ ok tt

  pub mismatch-invalid :
      (c : ApprovalCandidate)
      → has_preview_digest digest c ≡ false
      → is_valid_candidate digest c ≡ false
  unfolding is_valid_candidate
  mismatch-invalid c h = and_false (has_valid_fields c) _ h

  pub candidate_of-IsUnreadable :
      (chain : List ApprovalEvent)
      → IsUnreadable chain
      → candidate_of digest chain ≡ err validation_error
  unfolding candidate_of
  candidate_of-IsUnreadable chain v =
      rw (v.only, v.kind, v.holds, mismatch-invalid v.candidate v.mismatch) refl

  pub status_from-IsUnreadable :
      (chain : List ApprovalEvent)
      → IsUnreadable chain
      → status_from policy digest chain ≡ err validation_error
  unfolding status_from
  status_from-IsUnreadable chain v = rw (candidate_of-IsUnreadable chain v) refl

  pub candidate-IsUnreadable :
      (c : ApprovalCandidate) (a : Appending)
      → a.event_type ≡ candidate_event
      → a.payload ≡ of_candidate c
      → has_preview_digest digest c ≡ false
      → IsUnreadable (next_event digest a [] ∷ [])
  unfolding next_event verify verify_from
  candidate-IsUnreadable c a kind payload bad = record {
    candidate = c;
    event = next_event digest a [];
    only = refl;
    kind = kind;
    holds = payload;
    mismatch = bad;
    linked = linked-next digest policy a [] refl;
  }
