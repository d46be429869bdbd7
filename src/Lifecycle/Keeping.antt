-- ===== src/Lifecycle/Keeping.antt =====
-- What the methods of `DataLifecycleService` in src/ndt_agents/lifecycle/service.py keep of the objects
-- and the holds: whatever each kind of write keeps.
use ndt_agents.Base.{
  ℕ, Bool, false, not, Option, none, some, List, [], ◌∷◌, String, str_eq, ◌≡◌, refl, sym,
}
use mathlib.Core.Path.{subst}
use ndt_agents.Exec.{raise_if}
use ndt_agents.Exec.Triple.{
  Triple, Ends-lift, Triple-bind, Triple-pure, Triple-raise, Triple-gets, Triple-lift,
  Triple-modify, Triple-map, Triple-raise_if,
}
use ndt_agents.Dict.{lookup, insert}
use ndt_agents.Cache.Models.{TenantScope}
use ndt_agents.Lifecycle.Data.{
  LifecycleAction, LifecyclePolicy, KeyRef, MemoryAccess, GovernedObject, LegalHold,
  DeletionPreview, ApprovalRecord, Payload, Name, LifecycleError, Lifecycle, Governing,
}
use ndt_agents.Lifecycle.Guards.{
  authorize, validate_approval, load, load_active, any_held, deny_holds, record_event,
}
use ndt_agents.Lifecycle.Objects.{tombstones, put_each}
use ndt_agents.Lifecycle.Service.{export, preview_delete, delete_over, delete}
use ndt_agents.Lifecycle.Erasure.{erased, erase_loaded, revoke, cryptographic_erase}
use ndt_agents.Lifecycle.Good.{Objects, IsGood, AllGood, IsLoaded, load-AllLoaded}
use ndt_agents.Approval.Fair.{All}

abbrev pub Holds : Type 0
Holds = List (String × LegalHold)

module _ (digest : Payload → String) (identify : Name → String) (policy : LifecyclePolicy) where
  -- A property of the objects and the holds that each kind of write keeps, but the release of a hold.
  pub record Keeps (F : Objects → Holds → Type 0) : Type 0 where
    pub good : (objects : Objects) (holds : Holds) → F objects holds → AllGood digest objects
    pub on_register :
        (objects : Objects) (holds : Holds) (g : GovernedObject)
        → lookup str_eq g.object_id objects ≡ none
        → IsGood digest g.object_id g
        → F objects holds
        → F (insert str_eq g.object_id g objects) holds
    pub on_delete :
        (objects : Objects) (holds : Holds) (now : ℕ) (gs : List GovernedObject)
        → All (IsLoaded digest objects) gs
        → any_held gs holds ≡ false
        → F objects holds
        → F (put_each (tombstones now gs) objects) holds
    pub on_erase :
        (objects : Objects) (holds : Holds) (now : ℕ) (g : GovernedObject)
        → IsLoaded digest objects g
        → any_held (g ∷ []) holds ≡ false
        → F objects holds
        → F (insert str_eq g.object_id (erased digest identify policy now g) objects) holds
    pub on_hold :
        (objects : Objects) (holds : Holds) (id : String) (h : LegalHold)
        → lookup str_eq id holds ≡ none
        → F objects holds
        → F objects (insert str_eq id h holds)

  module _ {F : Objects → Holds → Type 0} (keeps : Keeps F) where
    abbrev pub Kept : Lifecycle → Type 0
    Kept s = F s.objects s.holds

    -- The method keeps the property, whether it returns or raises.
    abbrev pub Keeping : {A : Type 0} → Governing A → Type 0
    Keeping m = Triple Kept m (λ _. Kept) (λ _. Kept)

    raise_if-Kept :
        (b : Bool) (e : LifecycleError)
        → Triple Kept (raise_if b e) (λ _ s. Kept s × (b ≡ false)) (λ _. Kept)
    raise_if-Kept b e = Triple-raise_if b e (λ _ s h. h) (λ no' s h. (h, no'))

    pub authorize-Kept :
        (access : MemoryAccess) (permission : String) → Keeping (authorize access permission)
    unfolding authorize
    authorize-Kept access permission =
        Triple-map (raise_if-Kept _ _) (λ s h. h) (λ _ s h. h.0) (λ _ s h. h)

    validate-Kept :
        (a : ApprovalRecord) (scope : TenantScope)
        (action target_type target_id version sha : String) (now : ℕ)
        → Keeping (validate_approval a scope action target_type target_id version sha now)
    unfolding validate_approval
    validate-Kept a scope action target_type target_id version sha now =
        Triple-map (raise_if-Kept _ _) (λ s h. h) (λ _ s h. h.0) (λ _ s h. h)

    pub record_event-Kept :
        (scope : TenantScope) (action : LifecycleAction) (objects : List GovernedObject)
        (approval : Option String) (now : ℕ)
        → Keeping (record_event digest identify scope action objects approval now)
    unfolding record_event
    record_event-Kept scope action objects approval now = Triple-modify _ (λ s h. h)

    -- What is loaded is in the objects of the state.
    pub load_active-Kept :
        (access : MemoryAccess) (ids : List String)
        → Triple Kept
            (load_active access ids)
            (λ gs s. Kept s × All (IsLoaded digest s.objects) gs)
            (λ _. Kept)
    unfolding load_active
    load_active-Kept access ids = record {
      at = λ s h.
          Ends-lift _ _ (load access s.objects ids) s
            (λ gs e.
              (h, load-AllLoaded digest access s.objects ids gs (keeps.good s.objects s.holds h) e))
            (λ _ e. h);
    }

    -- A check, from a state of which more is known.
    pub check-Kept :
        {P : Lifecycle → Type 0} (b : Bool) (e : LifecycleError)
        → ((s : Lifecycle) → P s → Kept s)
        → Triple P (raise_if b e) (λ _. P) (λ _. Kept)
    check-Kept b e p = Triple-raise_if b e (λ _. p) (λ _ s h. h)

    pub approval-Kept :
        {P : Lifecycle → Type 0} (a : ApprovalRecord) (scope : TenantScope)
        (action target_type target_id version sha : String) (now : ℕ)
        → ((s : Lifecycle) → P s → Kept s)
        → Triple P
            (validate_approval a scope action target_type target_id version sha now)
            (λ _. P)
            (λ _. Kept)
    unfolding validate_approval
    approval-Kept a scope action target_type target_id version sha now p = check-Kept _ _ p

    -- What was loaded, and is not held.
    abbrev Passed : List GovernedObject → Lifecycle → Type 0
    Passed gs s = Kept s × All (IsLoaded digest s.objects) gs × (any_held gs s.holds ≡ false)

    deny_holds-Kept :
        (gs : List GovernedObject)
        → Triple
            (λ s. Kept s × All (IsLoaded digest s.objects) gs)
            (deny_holds gs)
            (λ _. Passed gs)
            (λ _. Kept)
    unfolding deny_holds
    deny_holds-Kept gs = record {
      at = λ s h.
          (Triple-raise_if {P = λ t. t ≡ s} {Q = λ _. Passed gs} {R = λ _. Kept}
              (any_held gs s.holds) _ (λ _ t e. subst Kept (sym e) h.0)
              (λ free t e. subst (Passed gs) (sym e) (h.0, h.1, free))).at
            s refl;
    }

    pub export-Kept :
        (access : MemoryAccess) (ids : List String) (now : ℕ)
        → Keeping (export digest identify policy access ids now)
    unfolding export
    export-Kept access ids now = Triple-bind (authorize-Kept access _) λ _.
        Triple-bind
          (Triple-map (load_active-Kept access ids) (λ s h. h) (λ _ s h. h.0) (λ _ s h. h))
          λ gs. Triple-bind (record_event-Kept _ _ gs none now) λ _. Triple-pure _ (λ s h. h)

    pub preview_delete-Kept :
        (access : MemoryAccess) (ids : List String) (now : ℕ) (force : Bool)
        → Keeping (preview_delete digest identify policy access ids now force)
    unfolding preview_delete
    preview_delete-Kept access ids now force = Triple-bind (authorize-Kept access _) λ _.
        Triple-bind (load_active-Kept access ids) λ gs. Triple-bind (deny_holds-Kept gs) λ _.
          Triple-bind (check-Kept _ _ (λ s h. h.0))
            λ _. Triple-bind (check-Kept _ _ (λ s h. h.0)) λ _. Triple-pure _ (λ s h. h.0)

    delete_over-Kept :
        (access : MemoryAccess) (preview : DeletionPreview) (approval : ApprovalRecord) (now : ℕ)
        (done : Option (List String))
        → Keeping (delete_over digest identify policy access preview approval now done)
    delete_over-Kept access preview approval now (some ids) =
        Triple-bind (Triple-gets _ (λ s h. h))
          λ objects. Triple-lift _ (λ gs e s h. h) (λ x e s h. h)
    delete_over-Kept access preview approval now none =
        Triple-bind (load_active-Kept access preview.object_ids) λ gs.
          Triple-bind (deny_holds-Kept gs) λ _. Triple-bind (check-Kept _ _ (λ s h. h.0)) λ _.
            Triple-bind {M = λ _. Kept}
              (Triple-modify _ (λ s h. keeps.on_delete s.objects s.holds now gs h.1 h.2 h.0))
              λ _.
                Triple-bind {M = λ _. Kept} (Triple-modify _ (λ s h. h))
                  λ _. Triple-bind (record_event-Kept _ _ _ _ now) λ _. Triple-pure _ (λ s h. h)

    pub delete-Kept :
        (access : MemoryAccess) (preview : DeletionPreview) (approval : ApprovalRecord) (now : ℕ)
        → Keeping (delete digest identify policy access preview approval now)
    unfolding delete
    delete-Kept access preview approval now = Triple-bind (authorize-Kept access _) λ _.
        Triple-bind (check-Kept _ _ (λ s h. h)) λ _.
          Triple-bind (approval-Kept approval _ _ _ _ _ _ now (λ s h. h)) λ _.
            Triple-bind {M = λ _. Kept} (Triple-gets _ (λ s h. h))
              λ done. delete_over-Kept access preview approval now done

    erase_loaded-Kept :
        (revokes : KeyRef → Bool) (access : MemoryAccess) (approval : ApprovalRecord) (now : ℕ)
        (gs : List GovernedObject)
        → Triple
            (λ s. Kept s × All (IsLoaded digest s.objects) gs)
            (erase_loaded digest identify policy revokes access approval now gs)
            (λ _. Kept)
            (λ _. Kept)
    erase_loaded-Kept revokes access approval now [] = Triple-raise _ (λ s h. h.0)
    erase_loaded-Kept revokes access approval now (g ∷ gs) =
        Triple-bind
          (Triple-map (deny_holds-Kept (g ∷ [])) (λ s h. (h.0, (h.1.0, tt))) (λ _ s h. h)
            (λ _ s h. h))
          λ _. Triple-bind (check-Kept _ _ (λ s h. h.0)) λ _.
            Triple-bind (approval-Kept approval _ _ _ _ _ _ now (λ s h. h.0)) λ _.
              Triple-bind (check-Kept _ _ (λ s h. h.0)) λ _.
                Triple-bind (revoke-Passed g.encryption_key_ref) λ _.
                  Triple-bind {M = λ _. Kept}
                    (Triple-modify _ (λ s h. keeps.on_erase s.objects s.holds now g h.1.0 h.2 h.0))
                    λ _. Triple-bind (record_event-Kept _ _ _ _ now) λ _. Triple-pure _ (λ s h. h)
      where
        revoke-Passed :
            (key : Option KeyRef)
            → Triple
                (Passed (g ∷ []))
                (revoke digest identify policy revokes key)
                (λ _. Passed (g ∷ []))
                (λ _. Kept)
        revoke-Passed none = Triple-pure tt (λ s h. h)
        revoke-Passed (some key) =
            Triple-bind (check-Kept (not (revokes key)) _ (λ s h. h.0))
              λ _. Triple-modify _ (λ s h. h)

    pub cryptographic_erase-Kept :
        (revokes : KeyRef → Bool) (access : MemoryAccess) (object_id : String)
        (approval : ApprovalRecord) (now : ℕ)
        → Keeping (cryptographic_erase digest identify policy revokes access object_id approval now)
    unfolding cryptographic_erase
    cryptographic_erase-Kept revokes access object_id approval now =
        Triple-bind (authorize-Kept access _) λ _.
          Triple-bind (load_active-Kept access (object_id ∷ []))
            λ gs. erase_loaded-Kept revokes access approval now gs
