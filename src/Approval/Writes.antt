-- ===== src/Approval/Writes.antt =====
-- How the methods of `ApprovalService` in src/ndt_agents/approval/service.py read and write the
-- repository.
use ndt_agents.Base.{
  ℕ, Option, none, some, [], ◌∷◌, ◌++◌, String, str_eq, ◌≡◌, refl, sym, ap, ◌∙◌, ◌⊎◌, inl, inr,
  Bool-cases, arith,
}
use mathlib.Core.Path.{subst}
use ndt_agents.Result.{map_ok, >>=-eq-ok}
use ndt_agents.Result.{◌>>=◌}
use ndt_agents.Exec.{Result, ok, err}
use ndt_agents.Exec.Triple.{
  Triple, Ends, Triple-bind, Triple-pure, Triple-lift, Triple-if, Triple-given,
}
use ndt_agents.Dict.{lookup, insert}
use ndt_agents.Cache.Models.{TenantScope}
use ndt_agents.Cache.Backend.{same_key}
use ndt_agents.Approval.Data.{
  decision_event, ApprovalPolicy, ApprovalCandidate, ApprovalDecision, is_valid_decision, Payload,
  of_decision, ApprovalEvent, ApprovalError, validation_error, approval_idempotency_conflict,
  Content, Repository, Approvals,
}
use ndt_agents.Approval.Journal.{
  chain_key, chain_of, Appending, next_event, is_same_event, append_over, append, in_project,
  get_event,
}
use ndt_agents.Approval.State.{status_of}
use ndt_agents.Approval.Requests.{checked_decision, stored_as}
use ndt_agents.Approval.Service.{status, stored, after_append, store, replay, write_decision}
use ndt_agents.Approval.View.{At, Triple-repository, read_time-At, audit-At, deny-At}

none_stored :
    {A : Type 0} (read : Payload → Result ApprovalError A) (found : Option ApprovalEvent)
    → stored_as read found ≡ ok none
    → found ≡ none
none_stored read none h = refl
none_stored {A} read (some e) h = absurd (not_none (read e.payload) h)
  where
    not_none : (x : Result ApprovalError A) → map_ok {B = Option A} some x ≡ ok none → ⊥
    not_none (ok a) h = cc
    not_none (err e) h = cc

none-in_project :
    (scope : TenantScope) (found : Option ApprovalEvent)
    → in_project scope found ≡ ok none
    → found ≡ none
none-in_project scope none h = refl
none-in_project scope (some e) h = ground arith

module _ (digest : Content → String) (policy : ApprovalPolicy) (r : Repository) where
  -- The repository with one more event.
  abbrev pub added : Appending → Repository
  added a =
      let key = chain_key a.scope a.approval_id in
      let event = next_event digest a (chain_of key r) in
      record {
        events = insert same_key key (chain_of key r ++ event ∷ []) r.events;
        by_id = insert str_eq a.event_id event r.by_id;
      }

  -- The event was written, under a new ID.
  abbrev pub Wrote : Appending → Approvals → Type 0
  Wrote a s = (lookup str_eq a.event_id r.by_id ≡ none) × At (added a) s

  -- It was there before, or was written.
  abbrev pub Holds : Appending → Approvals → Type 0
  Holds a s = At r s ⊎ Wrote a s

  pub status-At :
      (scope : TenantScope) (approval_id : String)
      → Triple
          (At r)
          (status digest policy scope approval_id)
          (λ known s. At r s × (status_of policy digest scope approval_id r ≡ ok known))
          (λ _. At r)
  unfolding status
  status-At scope approval_id =
      Triple-repository _ (Triple-lift _ (λ known e s h. (h, e)) (λ x e s h. h))

  -- What is stored under an ID, read as one of the contracts.
  abbrev pub Found :
      {A : Type 0} → (Payload → Result ApprovalError A) → TenantScope → String → Option A → Type 0
  Found read scope id old = (get_event scope id r >>= stored_as read) ≡ ok old

  pub Found-none :
      {A : Type 0} (read : Payload → Result ApprovalError A) (scope : TenantScope) (id : String)
      → Found read scope id none
      → lookup str_eq id r.by_id ≡ none
  unfolding get_event
  Found-none read scope id h =
      let (found, known, e) =
        >>=-eq-ok (in_project scope (lookup str_eq id r.by_id)) (stored_as read) h in
      none-in_project scope _ (known ∙ ap ok (none_stored read found e))

  pub stored-At :
      {A : Type 0} (read : Payload → Result ApprovalError A) (scope : TenantScope) (id : String)
      → Triple
          (At r)
          (stored digest policy read scope id)
          (λ old s. At r s × Found read scope id old)
          (λ _. At r)
  unfolding stored
  stored-At read scope id = Triple-repository _ (
      Triple-bind {M = λ found s. At r s × (get_event scope id r ≡ ok found)}
        (Triple-lift _ (λ found e s h. (h, e)) (λ x e s h. h))
        λ found. Triple-given λ known. Triple-lift _ (λ old e s h. (h, rw known e)) (λ x e s h. h))

  appended-Ends :
      (a : Appending) (s : Approvals) (found : Option ApprovalEvent)
      → lookup str_eq a.event_id r.by_id ≡ found
      → s.repository ≡ r
      → Ends
          (λ _. Holds a)
          (λ _. At r)
          (after_append digest policy s (append_over digest found a r))
  appended-Ends a s none new h = inr (new, refl)
  appended-Ends a s (some e) known h = elim (Bool-cases (is_same_event digest e a)) [
    | inl same ↦ rw same (inl refl)
    | inr other ↦ rw other h
  ]

  pub store-At : (a : Appending) → Triple (At r) (store digest policy a) (λ _. Holds a) (λ _. At r)
  unfolding store append
  store-At a = record {
    at = λ s h.
        subst
          (λ x. Ends (λ _. Holds a) (λ _. At r) (after_append digest policy s (append digest a x)))
          (sym h) (appended-Ends a s _ refl h);
  }

  pub store_new-At :
      (a : Appending)
      → lookup str_eq a.event_id r.by_id ≡ none
      → Triple (At r) (store digest policy a) (λ _. Wrote a) (λ _. At r)
  unfolding store append
  store_new-At a new = record {
    at = λ s h.
        subst
          (λ x. Ends (λ _. Wrote a) (λ _. At r) (after_append digest policy s (append digest a x)))
          (sym h) (rw new (new, refl));
  }

  -- The event of a decision.
  abbrev pub appending_of : TenantScope → ApprovalDecision → Appending
  appending_of scope d = record {
    event_id = d.decision_id;
    approval_id = d.approval_id;
    scope = scope;
    event_type = decision_event;
    payload = of_decision d;
    created_at = d.decided_at;
  }

  -- A decision, and the time that was put into it.
  abbrev pub Signed : ApprovalDecision → ApprovalDecision → Type 0
  Signed unsigned d = (now : ℕ) × (d ≡ record unsigned { decided_at = now })

  checked_decision-eq : (d e : ApprovalDecision) → checked_decision d ≡ ok e → e ≡ d
  checked_decision-eq d e h = elim (Bool-cases (is_valid_decision d)) [
    | inl good ↦
        let h' : ◌≡◌ {A = Result ApprovalError ApprovalDecision} (ok d) (ok e) = rw good at h in cc
    | inr bad ↦
        let h' : ◌≡◌ {A = Result ApprovalError ApprovalDecision} (err validation_error) (ok e) =
          rw bad at h in
        cc
  ]

  pub write_decision-At :
      (scope : TenantScope) (c : ApprovalCandidate) (request : Content)
      (unsigned : ApprovalDecision)
      → lookup str_eq unsigned.decision_id r.by_id ≡ none
      → Triple
          (At r)
          (write_decision digest policy scope c request unsigned)
          (λ d s. Signed unsigned d × Wrote (appending_of scope d) s)
          (λ _. At r)
  unfolding write_decision
  write_decision-At scope c request unsigned new = Triple-bind read_time-At λ now.
      Triple-bind {M = λ d s. At r s × (d ≡ record unsigned { decided_at = now })}
        (Triple-lift _ (λ d e s h. (h, checked_decision-eq _ d e)) (λ x e s h. h))
        λ d. Triple-given λ signed. Triple-bind (audit-At c _ _ _) λ _.
          Triple-bind (store_new-At _ (rw signed new)) λ _. Triple-pure d λ s h. (
            (now, signed),
            subst (λ t. Wrote (record (appending_of scope d) { created_at = t }) s)
                (sym (ap (λ (x : ApprovalDecision). x.decided_at) signed)) h,
          )

  pub replay-At :
      {A : Type 0} (c : ApprovalCandidate) (request known : Content) (a : A)
      → Triple (At r) (replay digest policy c request known a) (λ b s. At r s × (b ≡ a)) (λ _. At r)
  replay-At c request known a =
      Triple-if (str_eq (digest request) (digest known)) _ _ (λ _. Triple-pure a (λ s h. (h, refl)))
        (λ _. deny-At c approval_idempotency_conflict)
