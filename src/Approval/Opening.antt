-- ===== src/Approval/Opening.antt =====
-- The candidates that `create` of `ApprovalService` in src/ndt_agents/approval/service.py makes and
-- stores, and what `status` reads from one.
use ndt_agents.Base.{
  ℕ, Bool, true, false, ◌&&◌, Option, none, some, [], ◌∷◌, String, eq_iff, ◌≡◌, refl, sym, ◌⊎◌, inl,
  inr, Bool-cases,
}
use ndt_agents.Result.{ok-injective}
use ndt_agents.Exec.{ok}
use ndt_agents.Approval.Data.{
  candidate_event, ApprovalPolicy, ApprovalCandidate, is_valid_candidate, has_valid_fields,
  has_preview_digest, ApprovalStatus, of_candidate, ApprovalEvent, Content,
}
use ndt_agents.Approval.Journal.{Appending, verify_from, verify, zero_sha256, is_linked}
use ndt_agents.Approval.State.{candidate_of, state_of, last_grant, payloads_of, status_from}
use ndt_agents.Approval.Requests.{dump}
use ndt_agents.Approval.Flow.{Request, candidate_at}

front : (a b : Bool) → (a && b) ≡ true → a ≡ true
front true b h = refl
front false b h = cc

pub both : {a b : Bool} → a ≡ true → b ≡ true → (a && b) ≡ true
both {a} {b} h g = rw (h, g) refl

pub and_false : (a b : Bool) → b ≡ false → (a && b) ≡ false
and_false true b h = h
and_false false b h = refl

module _ (digest : Content → String) (policy : ApprovalPolicy) where
  -- The event of a candidate.
  abbrev pub candidate_appending : ApprovalCandidate → Appending
  candidate_appending c = record {
    event_id = c.approval_id;
    approval_id = c.approval_id;
    scope = c.scope;
    event_type = candidate_event;
    payload = of_candidate c;
    created_at = c.created_at;
  }

  abbrev pub new_status : ApprovalCandidate → ApprovalStatus
  new_status c = record {
    candidate = c;
    state = state_of (policy.rules c.kind) [];
    decisions = [];
    delegations = [];
    grant = none;
  }

  pub status_from-candidate :
      (c : ApprovalCandidate) (e : ApprovalEvent)
      → e.event_type ≡ candidate_event
      → e.payload ≡ of_candidate c
      → c.policy_version ≡ policy.policy_version
      → is_valid_candidate digest c ≡ true
      → status_from policy digest (e ∷ []) ≡ ok (new_status c)
  unfolding status_from candidate_of payloads_of last_grant
  status_from-candidate c e kind payload version valid =
      let same = (eq_iff c.policy_version policy.policy_version).1 version in
      rw (kind, payload, valid, same) refl

  pub one_linked :
      (e : ApprovalEvent) → is_linked digest 1 zero_sha256 e ≡ true → verify digest (e ∷ []) ≡ ok tt
  unfolding verify verify_from
  one_linked e h = rw h refl

  -- The candidate that is stored for a request: that of the request, with the dumped preview.
  abbrev pub stored_at : Request → String → String → ℕ → ApprovalCandidate
  stored_at q preview dumped now = record (candidate_at digest policy q preview now) {
    preview = dumped;
  }

  pub same_fields :
      (c : ApprovalCandidate) (dumped : String)
      → is_valid_candidate digest c ≡ true
      → (is_valid_candidate digest (record c { preview = dumped }) ≡ true)
        ⊎ (has_preview_digest digest (record c { preview = dumped }) ≡ false)
  unfolding is_valid_candidate has_valid_fields
  same_fields c dumped valid =
      let d : ApprovalCandidate = record c { preview = dumped } in
      elim (Bool-cases (has_preview_digest digest d)) [
        | inl e ↦ inl (both (front (has_valid_fields c) _ valid) e)
        | inr e ↦ inr e
      ]

  pub dump-eq :
      (dumped : Option String) (c d : ApprovalCandidate)
      → dump dumped c ≡ ok d
      → (t : String) × (dumped ≡ some t) × (d ≡ record c { preview = t })
  dump-eq none c d h = cc
  dump-eq (some t) c d h = (t, refl, sym (ok-injective h))
