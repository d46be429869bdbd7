-- ===== src/Approval/Flowing.antt =====
-- What `create` of `ApprovalService` in src/ndt_agents/approval/service.py writes.
use ndt_agents.Base.{
  ℕ, true, false, Option, none, some, List, [], ◌∷◌, String, str_eq, ◌≡◌, refl, sym, ap, ◌∙◌, ◌⊎◌,
  inl, inr, Bool-cases,
}
use ndt_agents.Result.{>>=-eq-ok, ok-injective}
use ndt_agents.Exec.{Result, ok, err}
use ndt_agents.Exec.Triple.{
  Triple, Triple-bind, Triple-lift, Triple-map, Triple-if, Triple-given, Triple-or,
}
use ndt_agents.Dict.{lookup, lookup-insert}
use ndt_agents.Cache.Models.{TenantScope}
use ndt_agents.Cache.Lookups.{same_key-Decides}
use ndt_agents.Approval.Data.{
  ApprovalPolicy, ApprovalCandidate, is_valid_candidate, has_valid_fields, has_preview_digest,
  Approving, ApprovalStatus, ApprovalEvent, ApprovalError, validation_error,
  approval_idempotency_conflict, Content, Repository, Approvals,
}
use ndt_agents.Approval.Journal.{
  chain_key, chain_of, or_empty, next_event, verify, list_events, last_sha256,
}
use ndt_agents.Approval.State.{candidate_of, status_from, status_of}
use ndt_agents.Approval.Requests.{checked_candidate, text_or, same_candidate_request}
use ndt_agents.Approval.Service.{status}
use ndt_agents.Approval.Flow.{Request, candidate_at, create_over, create}
use ndt_agents.Approval.Chain.{is_linked-next}
use ndt_agents.Approval.View.{At, Triple-repository, read_time-At, audit-At, deny-At}
use ndt_agents.Approval.Writes.{Wrote, added, status-At, store-At}
use ndt_agents.Approval.Opening.{
  and_false, candidate_appending, new_status, status_from-candidate, one_linked, stored_at,
  same_fields, dump-eq,
}

module _ (digest : Content → String) (policy : ApprovalPolicy) where
  module _ (r : Repository) where
    -- The chain of a new candidate's ID is empty before, and its previews are those of the request.
    pub record IsNew (q : Request) (preview dumped : String) : Type 0 where
      pub previewed : q.preview ≡ some preview
      pub dumps : q.dumped ≡ some dumped
      pub empty : chain_of (chain_key q.scope q.approval_id) r ≡ []

    -- What `create` that returns leaves: nothing, where the approval was there, or a valid candidate
    -- of the request.
    abbrev pub Creates : Request → ApprovalStatus → Approvals → Type 0
    Creates q known s =
        (status_of policy digest q.scope q.approval_id s.repository ≡ ok known)
        × (At r s
            ⊎ ((now : ℕ) × (preview : String) × (dumped : String) × IsNew q preview dumped
                × (is_valid_candidate digest (stored_at digest policy q preview dumped now) ≡ true)
                × (known ≡ new_status digest policy (stored_at digest policy q preview dumped now))
                × Wrote digest policy r
                    (candidate_appending digest policy
                      (stored_at digest policy q preview dumped now))
                    s))

    -- What `create` that raises leaves: nothing, or a candidate of the request whose stored preview
    -- does not have its digest, so that no status can be read.
    abbrev pub Fails : Request → ApprovalError → Approvals → Type 0
    Fails q x s =
        At r s
        ⊎ ((x ≡ validation_error)
            × (status_of policy digest q.scope q.approval_id s.repository ≡ err validation_error)
            × (now : ℕ) × (preview : String) × (dumped : String) × IsNew q preview dumped
            × (has_preview_digest digest (stored_at digest policy q preview dumped now) ≡ false)
            × At
                (added digest policy r (
                  candidate_appending digest policy (stored_at digest policy q preview dumped now)))
                s)

    chain_of-added :
        (c : ApprovalCandidate)
        → chain_of (chain_key c.scope c.approval_id) r ≡ []
        → let a = candidate_appending digest policy c in
          (chain_of (chain_key c.scope c.approval_id) (added digest policy r a)
            ≡ next_event digest a [] ∷ [])
          × (verify digest (next_event digest a [] ∷ []) ≡ ok tt)
    unfolding chain_of last_sha256
    chain_of-added c empty =
        let a = candidate_appending digest policy c in
        let key = chain_key c.scope c.approval_id in
        (
          ap or_empty (lookup-insert same_key-Decides key _ r.events) ∙ rw empty refl,
          one_linked digest policy (next_event digest a []) (is_linked-next digest a []),
        )

    status_of-added :
        (c : ApprovalCandidate)
        → chain_of (chain_key c.scope c.approval_id) r ≡ []
        → c.policy_version ≡ policy.policy_version
        → is_valid_candidate digest c ≡ true
        → status_of policy digest c.scope c.approval_id
            (added digest policy r (candidate_appending digest policy c))
          ≡ ok (new_status digest policy c)
    unfolding status_of list_events next_event
    status_of-added c empty version valid =
        let (shown, good) = chain_of-added c empty in
        rw (shown, good)
          (status_from-candidate digest policy c
            (next_event digest (candidate_appending digest policy c) []) refl refl version valid)

    status_of-mismatch :
        (c : ApprovalCandidate)
        → chain_of (chain_key c.scope c.approval_id) r ≡ []
        → has_preview_digest digest c ≡ false
        → status_of policy digest c.scope c.approval_id
            (added digest policy r (candidate_appending digest policy c))
          ≡ err validation_error
    unfolding status_of list_events next_event status_from candidate_of is_valid_candidate
    status_of-mismatch c empty bad =
        let (shown, good) = chain_of-added c empty in
        let invalid : is_valid_candidate digest c ≡ false = and_false (has_valid_fields c) _ bad in
        rw (shown, good, invalid) refl

    checked_candidate-eq :
        (c d : ApprovalCandidate)
        → checked_candidate digest c ≡ ok d
        → (d ≡ c) × (is_valid_candidate digest c ≡ true)
    checked_candidate-eq c d h = elim (Bool-cases (is_valid_candidate digest c)) [
      | inl good ↦
          let h' : ◌≡◌ {A = Result ApprovalError ApprovalCandidate} (ok c) (ok d) = rw good at h in
          (sym (ok-injective h'), good)
      | inr bad ↦
          let h' : ◌≡◌ {A = Result ApprovalError ApprovalCandidate} (err validation_error) (ok d) =
            rw bad at h in
          cc
    ]

    text_or-eq : (o : Option String) (t : String) → text_or o ≡ ok t → o ≡ some t
    text_or-eq none t h = cc
    text_or-eq (some x) t h = cc

    list_events-chain :
        (scope : TenantScope) (approval_id : String) (events : List ApprovalEvent)
        → list_events digest scope approval_id r ≡ ok events
        → chain_of (chain_key scope approval_id) r ≡ events
    unfolding list_events
    list_events-chain scope approval_id events h =
        ok-injective (>>=-eq-ok (verify digest (chain_of (chain_key scope approval_id) r)) _ h).2

    -- A method that writes nothing where it raises.
    unwritten :
        {A : Type 0} {m : Approving A} {Q : A → Approvals → Type 0} (q : Request)
        → Triple (At r) m Q (λ _. At r)
        → Triple (At r) m Q (Fails q)
    unwritten q t = Triple-map t (λ s h. h) (λ a s h. h) (λ _ s h. inl h)

    status_known-At :
        (q : Request)
        → Triple (At r) (status digest policy q.scope q.approval_id) (Creates q) (Fails q)
    status_known-At q =
        Triple-map (status-At digest policy r q.scope q.approval_id) (λ s h. h)
          (λ known s h. (rw h.0 h.1, inl h.0)) (λ _ s h. inl h)

    status_new-At :
        (q : Request) (preview dumped : String) (now : ℕ)
        → IsNew q preview dumped
        → is_valid_candidate digest (candidate_at digest policy q preview now) ≡ true
        → lookup str_eq q.approval_id r.by_id ≡ none
        → Triple
            (At (
              added digest policy r
                (candidate_appending digest policy (stored_at digest policy q preview dumped now))))
            (status digest policy q.scope q.approval_id)
            (Creates q)
            (Fails q)
    unfolding status
    status_new-At q preview dumped now new valid fresh =
        let c = stored_at digest policy q preview dumped now in
        elim (same_fields digest policy (candidate_at digest policy q preview now) dumped valid) [
          | inl good ↦
              let shown = status_of-added c new.empty refl good in
              Triple-repository _ (
                Triple-lift _
                  (λ known e s h. (
                    rw h e,
                    inr (
                      now,
                      preview,
                      dumped,
                      new,
                      good,
                      sym (ok-injective (sym shown ∙ e)),
                      (fresh, h),
                    ),
                  ))
                  (λ x e s h.
                    let bad : ◌≡◌ {A = Result ApprovalError ApprovalStatus}
                        (ok (new_status digest policy c)) (err x) =
                      sym shown ∙ e in
                    cc))
          | inr bad ↦
              let shown = status_of-mismatch c new.empty bad in
              Triple-repository _ (
                Triple-lift _
                  (λ known e s h.
                    let never : ◌≡◌ {A = Result ApprovalError ApprovalStatus} (err validation_error)
                        (ok known) =
                      sym shown ∙ e in
                    cc)
                  (λ x e s h.
                    let same : ◌≡◌ {A = Result ApprovalError ApprovalStatus} (err validation_error)
                        (err x) =
                      sym shown ∙ e in
                    let raised : x ≡ validation_error = cc in
                    inr (raised, rw h shown, now, preview, dumped, new, bad, h)))
        ]

    create_over-At :
        (q : Request) (preview : String) (now : ℕ) (events : List ApprovalEvent)
        → q.preview ≡ some preview
        → chain_of (chain_key q.scope q.approval_id) r ≡ events
        → is_valid_candidate digest (candidate_at digest policy q preview now) ≡ true
        → Triple
            (At r)
            (create_over digest policy q.dumped (candidate_at digest policy q preview now) events)
            (Creates q)
            (Fails q)
    create_over-At q preview now (e ∷ events) text known valid =
        Triple-bind (Triple-lift _ (λ first h s at'. at') (λ x h s at'. inl at')) λ first.
          Triple-bind (Triple-lift _ (λ again h s at'. at') (λ x h s at'. inl at')) λ again.
            Triple-if (same_candidate_request first again) _ _ (λ _. status_known-At q)
              (λ _. unwritten q (deny-At _ approval_idempotency_conflict))
    create_over-At q preview now [] text empty valid =
        let c = candidate_at digest policy q preview now in
        Triple-bind (audit-At c _ _ _) λ _.
          Triple-bind
            {M = λ kept s.
              At r s × ((t : String) × (q.dumped ≡ some t) × (kept ≡ record c { preview = t }))}
            (Triple-lift _ (λ kept e s h. (h, dump-eq digest policy q.dumped c kept e))
              (λ x e s h. inl h))
            λ kept. Triple-given λ found. rw found.2 (
              Triple-bind
                (unwritten q (
                  store-At digest policy r
                    (candidate_appending digest policy (record c { preview = found.0 }))))
                λ _. Triple-or (status_known-At q) (
                  Triple-map
                    (Triple-given λ (fresh : lookup str_eq q.approval_id r.by_id ≡ none).
                      status_new-At q preview found.0 now
                        (record { previewed = text; dumps = found.1; empty = empty }) valid fresh)
                    (λ s h. (h.1, h.0)) (λ known s h. h) (λ _ s h. h)))

    pub create-At : (q : Request) → Triple (At r) (create digest policy q) (Creates q) (Fails q)
    unfolding create
    create-At q = Triple-bind read_time-At λ now.
        Triple-bind {M = λ p s. At r s × (q.preview ≡ some p)}
          (Triple-lift _ (λ p e s h. (h, text_or-eq q.preview p e)) (λ x e s h. inl h))
          λ preview. Triple-given λ text.
            Triple-bind
              {M = λ c s.
                At r s
                × ((c ≡ candidate_at digest policy q preview now)
                    × (is_valid_candidate digest (candidate_at digest policy q preview now)
                        ≡ true))}
              (Triple-lift _ (λ c e s h. (h, checked_candidate-eq _ c e)) (λ x e s h. inl h))
              λ c. Triple-given λ checked. Triple-repository _ (
                Triple-bind
                  {M = λ events s. At r s × (chain_of (chain_key q.scope q.approval_id) r ≡ events)}
                  (Triple-lift _
                    (λ events e s h. (h, list_events-chain q.scope q.approval_id events e))
                    (λ x e s h. inl h))
                  λ events. Triple-given λ known.
                    rw checked.0 (create_over-At q preview now events text known checked.1))
