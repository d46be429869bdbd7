-- ===== src/Lifecycle/Guarded.antt =====
-- What `register`, `apply_hold` and `release_hold` of src/ndt_agents/lifecycle/service.py keep of the
-- objects and the holds.
use ndt_agents.Base.{
  ℕ, Bool, false, not, Option, none, some, is_some, List, [], ◌∷◌, String, str_eq, ◌≡◌, refl, sym,
}
use ndt_agents.Exec.{raise_if}
use ndt_agents.Exec.Triple.{
  Triple, Triple-bind, Triple-pure, Triple-raise, Triple-gets, Triple-lift, Triple-modify,
  Triple-map, Triple-if, Triple-raise_if,
}
use ndt_agents.Dict.{lookup}
use ndt_agents.Cache.Models.{Datetime}
use ndt_agents.Lifecycle.Data.{
  DataClassification, LifecyclePolicy, KeyRef, MemoryAccess, GovernedObject, LegalHold,
  ApprovalRecord, Payload, Name, hold_name, LifecycleError, Lifecycle,
}
use ndt_agents.Lifecycle.Guards.{is_holding}
use ndt_agents.Lifecycle.Objects.{days_for}
use ndt_agents.Lifecycle.Service.{new_object, register, apply_over, apply_loaded, apply_hold}
use ndt_agents.Lifecycle.Erasure.{release_found, release_hold}
use ndt_agents.Lifecycle.Good.{Objects, IsGood}
use ndt_agents.Lifecycle.Keeping.{
  Holds, Keeps, Kept, Keeping, authorize-Kept, check-Kept, approval-Kept, load_active-Kept,
  record_event-Kept,
}

module _ (digest : Payload → String) (identify : Name → String) (policy : LifecyclePolicy)
    {F : Objects → Holds → Type 0} (keeps : Keeps digest identify policy F) where
  check-Given :
      {P : Lifecycle → Type 0} (b : Bool) (e : LifecycleError)
      → ((s : Lifecycle) → P s → (Kept digest identify policy keeps) s)
      → Triple P
          (raise_if b e)
          (λ _ s. P s × (b ≡ false))
          (λ _. (Kept digest identify policy keeps))
  check-Given b e p = Triple-raise_if b e (λ _. p) (λ no' s h. (h, no'))

  none_there : {A : Type 0} (o : Option A) → is_some o ≡ false → o ≡ none
  none_there none h = refl
  none_there (some a) h = cc

  new_object-IsGood :
      (access : MemoryAccess) (object_id object_type version : String) (c : DataClassification)
      (content : String) (created days : ℕ) (key : Option KeyRef)
      → IsGood digest object_id (
          new_object digest identify policy access object_id object_type version c content created
            days key)
  new_object-IsGood access object_id object_type version c content created days key = record {
    keyed = refl;
    shaped = refl;
    hashed = λ t e. let same : content ≡ t = cc in rw same refl;
  }

  pub register-Kept :
      (access : MemoryAccess) (object_id object_type version : String) (c : DataClassification)
      (content : String) (created : Datetime) (days : Option ℕ) (key : Option KeyRef)
      → Keeping digest identify policy keeps (
          register digest identify policy access object_id object_type version c content created
            days key)
  unfolding register
  register-Kept access object_id object_type version c content created days key =
      let g =
        new_object digest identify policy access object_id object_type version c content
          created.instant (days_for policy object_type days) key in
      Triple-bind (authorize-Kept digest identify policy keeps access _) λ _.
        Triple-bind {M = λ objects s. (Kept digest identify policy keeps) s × (objects ≡ s.objects)}
          (Triple-gets _ (λ s h. (h, refl)))
          λ objects. Triple-bind (check-Given _ _ (λ s h. h.0)) λ _.
            Triple-bind (check-Kept digest identify policy keeps _ _ (λ s h. h.0.0)) λ _.
              Triple-bind (check-Kept digest identify policy keeps _ _ (λ s h. h.0.0)) λ _.
                Triple-bind {M = λ _. (Kept digest identify policy keeps)}
                  (Triple-modify _ (λ s h.
                    keeps.on_register s.objects s.holds g (rw (← h.0.1) (none_there _ h.1))
                      (new_object-IsGood access object_id object_type version c content
                        created.instant (days_for policy object_type days) key)
                      h.0.0))
                  λ _.
                    Triple-bind
                      (record_event-Kept digest identify policy keeps access.scope _ (g ∷ []) none
                        created.instant)
                      λ _. Triple-pure _ (λ s h. h)

  apply_over-Kept :
      (access : MemoryAccess) (g : GovernedObject) (object_id hold_id reason : String)
      (approval : ApprovalRecord) (now : ℕ) (existing : Option LegalHold)
      → Triple
          (λ s. (Kept digest identify policy keeps) s × (existing ≡ lookup str_eq hold_id s.holds))
          (apply_over digest identify policy access g object_id hold_id reason approval now
            existing)
          (λ _. (Kept digest identify policy keeps))
          (λ _. (Kept digest identify policy keeps))
  apply_over-Kept access g object_id hold_id reason approval now (some h) =
      Triple-pure h (λ s k. k.0)
  apply_over-Kept access g object_id hold_id reason approval now none =
      Triple-bind (check-Kept digest identify policy keeps _ _ (λ s h. h.0)) λ _.
        Triple-bind {M = λ _. (Kept digest identify policy keeps)}
          (Triple-modify _ (λ s h. keeps.on_hold s.objects s.holds hold_id _ (sym h.1) h.0))
          λ _.
            Triple-bind (record_event-Kept digest identify policy keeps _ _ (g ∷ []) _ now)
              λ _. Triple-pure _ (λ s h. h)

  apply_loaded-Kept :
      (access : MemoryAccess) (object_id reason : String) (approval : ApprovalRecord) (now : ℕ)
      (gs : List GovernedObject)
      → Keeping digest identify policy keeps
          (apply_loaded digest identify policy access object_id reason approval now gs)
  apply_loaded-Kept access object_id reason approval now [] = Triple-raise _ (λ s h. h)
  apply_loaded-Kept access object_id reason approval now (g ∷ gs) =
      let hold_id = identify (hold_name g.object_id approval.approval_id) in
      Triple-bind (approval-Kept digest identify policy keeps approval _ _ _ _ _ _ now (λ s h. h))
        λ _.
          Triple-bind
            {M = λ existing s.
              (Kept digest identify policy keeps) s × (existing ≡ lookup str_eq hold_id s.holds)}
            (Triple-gets _ (λ s h. (h, refl)))
            λ existing. apply_over-Kept access g object_id hold_id reason approval now existing

  pub apply_hold-Kept :
      (access : MemoryAccess) (object_id reason : String) (approval : ApprovalRecord) (now : ℕ)
      → Keeping digest identify policy keeps
          (apply_hold digest identify policy access object_id reason approval now)
  unfolding apply_hold
  apply_hold-Kept access object_id reason approval now =
      Triple-bind (authorize-Kept digest identify policy keeps access _) λ _.
        Triple-bind
          (Triple-map (load_active-Kept digest identify policy keeps access (object_id ∷ []))
            (λ s h. h) (λ _ s h. h.0) (λ _ s h. h))
          λ gs. apply_loaded-Kept access object_id reason approval now gs

  release_found-Kept :
      ((objects : Objects) (holds holds' : Holds) → F objects holds → F objects holds')
      → (access : MemoryAccess) (hold_id : String) (approval : ApprovalRecord) (now : ℕ)
        (found : Option LegalHold)
      → Keeping digest identify policy keeps
          (release_found digest identify policy access hold_id approval now found)
  release_found-Kept any access hold_id approval now none = Triple-raise _ (λ s h. h)
  release_found-Kept any access hold_id approval now (some h) =
      Triple-bind (check-Kept digest identify policy keeps _ _ (λ s k. k)) λ _.
        Triple-if (not (is_holding h.state)) _ _ (λ _. Triple-pure h (λ s k. k))
          (λ _.
            Triple-bind
              (approval-Kept digest identify policy keeps approval _ _ _ _ _ _ now (λ s k. k))
              λ _.
                Triple-bind {M = λ _. (Kept digest identify policy keeps)}
                  (Triple-modify _ (λ s k. any s.objects s.holds _ k))
                  λ _.
                    Triple-bind {M = λ _. (Kept digest identify policy keeps)}
                      (Triple-gets _ (λ s k. k))
                      λ o.
                        Triple-bind {M = λ _. (Kept digest identify policy keeps)}
                          (Triple-lift _ (λ g e s k. k) (λ x e s k. k))
                          λ g.
                            Triple-bind (record_event-Kept digest identify policy keeps _ _ _ _ now)
                              λ _. Triple-pure _ (λ s k. k))

  -- The release of a hold keeps what does not depend on the holds.
  pub release_hold-Kept :
      ((objects : Objects) (holds holds' : Holds) → F objects holds → F objects holds')
      → (access : MemoryAccess) (hold_id : String) (approval : ApprovalRecord) (now : ℕ)
      → Keeping digest identify policy keeps
          (release_hold digest identify policy access hold_id approval now)
  unfolding release_hold
  release_hold-Kept any access hold_id approval now =
      Triple-bind (authorize-Kept digest identify policy keeps access _) λ _.
        Triple-bind {M = λ _. (Kept digest identify policy keeps)} (Triple-gets _ (λ s h. h))
          λ found. release_found-Kept any access hold_id approval now found
