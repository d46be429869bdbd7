-- ===== src/Approval/Calls.antt =====
-- The calls of `ApprovalService` in src/ndt_agents/approval/service.py that may change something, and
-- runs of them.
use ndt_agents.Base.{Option, List, [], ◌∷◌, String, refl}
use ndt_agents.Exec.{Result, ok, err}
use ndt_agents.Exec.Triple.{Ends}
use ndt_agents.Cache.Models.{TenantScope}
use ndt_agents.Approval.Data.{
  Moment, ApprovalOutcome, ApprovalPolicy, ApprovalActor, ApprovalError, Content, Repository,
  Approvals,
}
use ndt_agents.Approval.Service.{decide, expire, cancel}
use ndt_agents.Approval.Flow.{Request, create, delegate, resume}
use ndt_agents.Approval.Moves.{
  Move, create-Move, delegate-Move, decide-Move, expire-Move, cancel-Move, resume-Move,
}

-- The calls that may change something.
pub data Call : Type 0 where
  create_call : Request → Call
  delegate_call :
      String → TenantScope → String → String → ApprovalActor → String → String → Moment → Call
  decide_call :
      String
      → TenantScope
      → String
      → String
      → ApprovalActor
      → ApprovalOutcome
      → String
      → Option String
      → Call
  expire_call : String → TenantScope → String → String → String → Call
  cancel_call : String → TenantScope → String → String → ApprovalActor → String → Call
  resume_call : String → TenantScope → String → String → Call

module _ (digest : Content → String) (policy : ApprovalPolicy) where
  -- What a call leaves, whether it returns or raises.
  abbrev pub after : Call → Approvals → Approvals
  after (create_call q) s = (create digest policy q s).1
  after (delegate_call id scope approval_id expected grantor delegate_id role expires_at) s =
      (delegate digest policy id scope approval_id expected grantor delegate_id role expires_at s).1
  after (decide_call id scope approval_id expected actor outcome reason role) s =
      (decide digest policy id scope approval_id expected actor outcome reason role s).1
  after (expire_call id scope approval_id expected reason) s =
      (expire digest policy id scope approval_id expected reason s).1
  after (cancel_call id scope approval_id expected actor reason) s =
      (cancel digest policy id scope approval_id expected actor reason s).1
  after (resume_call id scope approval_id expected) s =
      (resume digest policy id scope approval_id expected s).1

  -- What calls leave that are made in order.
  unfoldable pub run : List Call → Approvals → Approvals
  run [] s = s
  run (c ∷ calls) s = run calls (after c s)

  moved :
      {A : Type 0} (r : Repository) (x : Result ApprovalError A × Approvals)
      → Ends (λ _ s. Move digest policy r s.repository) (λ _ s. Move digest policy r s.repository) x
      → Move digest policy r x.1.repository
  moved r (ok a, s) h = h
  moved r (err e, s) h = h

  -- Every call, whether it returns or raises, leaves the repository where one move takes it.
  pub after-Move :
      (c : Call) (s : Approvals) → Move digest policy s.repository (after c s).repository
  after-Move (create_call q) s =
      moved s.repository _ ((create-Move digest policy s.repository q).at s refl)
  after-Move (delegate_call id scope approval_id expected grantor delegate_id role expires_at) s =
      moved s.repository _ (
        (delegate-Move digest policy s.repository id scope approval_id expected grantor delegate_id
            role expires_at).at
          s refl)
  after-Move (decide_call id scope approval_id expected actor outcome reason role) s =
      moved s.repository _ (
        (decide-Move digest policy s.repository id scope approval_id expected actor outcome reason
            role).at
          s refl)
  after-Move (expire_call id scope approval_id expected reason) s =
      moved s.repository _
        ((expire-Move digest policy s.repository id scope approval_id expected reason).at s refl)
  after-Move (cancel_call id scope approval_id expected actor reason) s = moved s.repository _ (
      (cancel-Move digest policy s.repository id scope approval_id expected actor reason).at s refl)
  after-Move (resume_call id scope approval_id expected) s =
      moved s.repository _
        ((resume-Move digest policy s.repository id scope approval_id expected).at s refl)
