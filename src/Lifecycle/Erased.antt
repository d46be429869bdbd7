-- ===== src/Lifecycle/Erased.antt =====
-- What a `cryptographic_erase` of src/ndt_agents/lifecycle/service.py that returns has passed.
use ndt_agents.Base.{
  ℕ, Bool, true, false, not, Option, none, some, List, [], ◌∷◌, ◌++◌, String, str_eq, has, ltb, ◌≡◌,
  refl, sym,
}
use mathlib.Core.Path.{subst}
use ndt_agents.Result.{ok, >>=-eq-ok, unless-eq-ok}
use ndt_agents.Exec.{raise_if}
use ndt_agents.Exec.Triple.{
  Triple, Ends, Ends-lift, Triple-bind, Triple-pure, Triple-raise, Triple-modify, Triple-map,
  Triple-given, Triple-raise_if,
}
use ndt_agents.Dict.{lookup, insert}
use ndt_agents.Approval.View.{not-false}
use ndt_agents.Approval.Fair.{or_false}
use ndt_agents.Cache.Models.{TenantScope}
use ndt_agents.Lifecycle.Data.{
  LifecyclePolicy, KeyRef, MemoryAccess, GovernedObject, ApprovalRecord, Payload, Name,
  LifecycleError, target_invalid, legal_hold_active, Lifecycle, LifecycleEvent, erases,
  crypto_erased, input_payload, outcome_payload, event_name,
}
use ndt_agents.Lifecycle.Guards.{
  authorize, is_active, is_valid_approval, validate_approval, load_found, load_each, is_target_set,
  load, load_active, is_held, any_held, deny_holds, record_event,
}
use ndt_agents.Lifecycle.Objects.{has_object_key}
use ndt_agents.Lifecycle.Erasure.{revoke, erased, erase_loaded, cryptographic_erase}
use ndt_agents.Lifecycle.Good.{load_found-eq}

module _ (digest : Payload → String) (identify : Name → String) (policy : LifecyclePolicy) where
  -- The event records the erasure of the object, by the approval.
  pub record IsErasure (owner : TenantScope) (approval : ApprovalRecord) (now : ℕ)
      (g : GovernedObject) (e : LifecycleEvent) : Type 0 where
    pub scope : e.scope ≡ owner
    pub action : e.action ≡ erases
    pub object_ids : e.object_ids ≡ g.object_id ∷ []
    pub approval_id : e.approval_id ≡ some approval.approval_id
    pub occurred_at : e.occurred_at ≡ now

  -- What an erasure that returns has passed, and the whole state that it leaves.
  abbrev pub Erases :
      (KeyRef → Bool)
      → MemoryAccess
      → String
      → ApprovalRecord
      → ℕ
      → Lifecycle
      → GovernedObject
      → Lifecycle
      → Type 0
  Erases revokes access object_id approval now s gone t =
      (g : GovernedObject) × (key : KeyRef) × (has "lifecycle:erase" access.permissions ≡ true)
      × (lookup str_eq object_id s.objects ≡ some g)
      × (is_active g.state ≡ true)
      × (is_held g.object_id s.holds ≡ false)
      × (ltb now g.retention_until ≡ false)
      × (is_valid_approval approval access.scope "data.erase" g.object_type g.object_id
            g.object_version g.content_sha256 now
          ≡ true)
      × (g.encryption_key_ref ≡ some key)
      × (has_object_key g (some key) ≡ true)
      × (revokes key ≡ true)
      × (gone ≡ record g { content = none; state = crypto_erased; crypto_erased_at = some now })
      × (e : LifecycleEvent) × IsErasure access.scope approval now g e
      × (t ≡ record {
        objects = insert str_eq g.object_id gone s.objects;
        holds = s.holds;
        events = s.events ++ e ∷ [];
        completed_previews = s.completed_previews;
        revoked = s.revoked ++ key ∷ [];
      })

  module _ (s : Lifecycle) where
    abbrev Unchanged : Lifecycle → Type 0
    Unchanged t = t ≡ s

    pub check-Unchanged :
        (b : Bool) (e : LifecycleError)
        → Triple Unchanged (raise_if b e) (λ _ t. Unchanged t × (b ≡ false)) (λ _. Unchanged)
    check-Unchanged b e = Triple-raise_if b e (λ _ t h. h) (λ passed t h. (h, passed))

    pub load_active-Unchanged :
        (access : MemoryAccess) (ids : List String)
        → Triple Unchanged
            (load_active access ids)
            (λ gs t. Unchanged t × (load access s.objects ids ≡ ok gs))
            (λ _. Unchanged)
    unfolding load_active
    load_active-Unchanged access ids = record {
      at = λ t h. Ends-lift _ _ (load access t.objects ids) t (λ gs e. (h, rw (← h) e)) (λ _ e. h);
    }

    pub deny_holds-Unchanged :
        (gs : List GovernedObject)
        → Triple Unchanged
            (deny_holds gs)
            (λ _ t. Unchanged t × (any_held gs s.holds ≡ false))
            (λ _. Unchanged)
    unfolding deny_holds
    deny_holds-Unchanged gs = record {
      at = λ t h.
          subst
            (λ u.
              Ends (λ _ v. Unchanged v × (any_held gs s.holds ≡ false)) (λ _. Unchanged)
                (deny_holds gs u))
            (sym h) ((check-Unchanged (any_held gs s.holds) legal_hold_active).at s refl);
    }

    abbrev revoking : Option KeyRef → Lifecycle
    revoking none = s
    revoking (some key) = record s { revoked = s.revoked ++ key ∷ [] }

    abbrev placing : ℕ → GovernedObject → Lifecycle → Lifecycle
    placing now g t = record t {
      objects = insert str_eq g.object_id (erased digest identify policy now g) t.objects;
    }

    -- A key's revocation that returns, of a key that there is.
    abbrev Revoked : (KeyRef → Bool) → Option KeyRef → Lifecycle → Type 0
    Revoked revokes found t =
        (t ≡ revoking found) × ((key : KeyRef) × (found ≡ some key) × (revokes key ≡ true))

    revoke-Revoked :
        (revokes : KeyRef → Bool) (g : GovernedObject) (found : Option KeyRef)
        → has_object_key g found ≡ true
        → Triple Unchanged
            (revoke digest identify policy revokes found)
            (λ _. Revoked revokes found)
            (λ _. Unchanged)
    revoke-Revoked revokes g none h = cc
    revoke-Revoked revokes g (some key) h = Triple-bind (check-Unchanged (not (revokes key)) _) λ _.
        Triple-given λ returned.
          Triple-modify _ (λ t e. (rw e refl, (key, refl, not-false (revokes key) returned)))

    -- The event of an erasure, and the state with it.
    abbrev erasure_event : MemoryAccess → ApprovalRecord → ℕ → GovernedObject → LifecycleEvent
    erasure_event access approval now g =
        let input = digest (input_payload ((g.object_id, g.content_sha256) ∷ [])) in
        record {
          event_id = identify (event_name erases input (some approval.approval_id) now);
          scope = access.scope;
          action = erases;
          object_ids = g.object_id ∷ [];
          input_sha256 = input;
          outcome_sha256 = digest (outcome_payload ((g.object_id, crypto_erased) ∷ []));
          approval_id = some approval.approval_id;
          occurred_at = now;
        }

    abbrev recording : MemoryAccess → ApprovalRecord → ℕ → GovernedObject → Lifecycle → Lifecycle
    recording access approval now g t = record t {
      events = t.events ++ erasure_event access approval now g ∷ [];
    }

    validate-Unchanged :
        (a : ApprovalRecord) (access : MemoryAccess)
        (action target_type target_id version sha : String) (now : ℕ)
        → Triple Unchanged
            (validate_approval a access.scope action target_type target_id version sha now)
            (λ _ t.
              Unchanged t
              × (is_valid_approval a access.scope action target_type target_id version sha now
                  ≡ true))
            (λ _. Unchanged)
    unfolding validate_approval
    validate-Unchanged a access action target_type target_id version sha now =
        Triple-map (check-Unchanged _ _) (λ t h. h) (λ _ t h. (h.0, not-false _ h.1)) (λ _ t h. h)

    loaded_one :
        (access : MemoryAccess) (id : String) (g : GovernedObject) (gs : List GovernedObject)
        → load access s.objects (id ∷ []) ≡ ok (g ∷ gs)
        → (lookup str_eq id s.objects ≡ some g) × (is_active g.state ≡ true)
    unfolding load_each
    loaded_one access id g gs h =
        let each =
          (unless-eq-ok (not (is_target_set (id ∷ []))) target_invalid
            (load_each access s.objects (id ∷ [])) h).1 in
        let (x, first, made) = >>=-eq-ok (load_found access (lookup str_eq id s.objects)) _ each in
        let same : x ≡ g = cc in
        load_found-eq digest access (lookup str_eq id s.objects) g (rw (← same) first)

    free_one :
        (g : GovernedObject)
        → any_held (g ∷ []) s.holds ≡ false
        → is_held g.object_id s.holds ≡ false
    unfolding any_held
    free_one g free = (or_false (is_held g.object_id s.holds) false free).0

    erase_loaded-Erases :
        (revokes : KeyRef → Bool) (access : MemoryAccess) (id : String) (approval : ApprovalRecord)
        (now : ℕ) (gs : List GovernedObject)
        → has "lifecycle:erase" access.permissions ≡ true
        → load access s.objects (id ∷ []) ≡ ok gs
        → Triple Unchanged
            (erase_loaded digest identify policy revokes access approval now gs)
            (Erases revokes access id approval now s)
            (λ _. Unchanged)
    unfolding record_event
    erase_loaded-Erases revokes access id approval now [] permitted loaded =
        Triple-raise _ (λ t h. h)
    erase_loaded-Erases revokes access id approval now (g ∷ gs) permitted loaded =
        let found = loaded_one access id g gs loaded in
        Triple-bind (deny_holds-Unchanged (g ∷ [])) λ _. Triple-given λ free.
          Triple-bind (check-Unchanged _ _) λ _. Triple-given λ over.
            Triple-bind (validate-Unchanged approval access _ _ _ _ _ now) λ _.
              Triple-given λ valid. Triple-bind (check-Unchanged _ _) λ _. Triple-given λ keyed.
                let has_key = not-false _ keyed in
                Triple-bind (revoke-Revoked revokes g g.encryption_key_ref has_key) λ _.
                  Triple-given λ key.
                    let left = revoking g.encryption_key_ref in
                    Triple-bind {M = λ _ t. t ≡ placing now g left}
                      (Triple-modify _ (λ t h. rw h refl))
                      λ _.
                        Triple-bind
                          {M = λ _ t. t ≡ recording access approval now g (placing now g left)}
                          (Triple-modify _ (λ t h. rw h refl))
                          λ _. Triple-pure _ (λ t h. (
                            g,
                            key.0,
                            permitted,
                            found.0,
                            found.1,
                            free_one g free,
                            over,
                            valid,
                            key.1,
                            subst (λ k. has_object_key g k ≡ true) key.1 has_key,
                            key.2,
                            refl,
                            erasure_event access approval now g,
                            record {
                              action = refl;
                              object_ids = refl;
                              scope = refl;
                              approval_id = refl;
                              occurred_at = refl;
                            },
                            subst
                                (λ k.
                                  t ≡ recording access approval now g (placing now g (revoking k)))
                                key.1 h,
                          ))

  -- From any state, `cryptographic_erase` that returns was permitted, has found the object active, not
  -- held, past its retention and approved, with a key of its own that was revoked. It has put the
  -- object without its content and as erased at that time in its place, noted the key as revoked and
  -- recorded the erasure, and has left all else as it was. If it raises, nothing was written.
  pub cryptographic_erase_lem :
      (revokes : KeyRef → Bool) (access : MemoryAccess) (object_id : String)
      (approval : ApprovalRecord) (now : ℕ) (s : Lifecycle)
      → Ends
          (Erases revokes access object_id approval now s)
          (λ _ t. t ≡ s)
          (cryptographic_erase digest identify policy revokes access object_id approval now s)
  unfolding cryptographic_erase authorize record_event
  cryptographic_erase_lem revokes access object_id approval now s =
      (Triple-bind (check-Unchanged s _ _) λ _. Triple-given λ permitted.
          Triple-bind (load_active-Unchanged s access (object_id ∷ [])) λ gs. Triple-given λ loaded.
            erase_loaded-Erases s revokes access object_id approval now gs (not-false _ permitted)
              loaded).at
        s refl
