-- ===== src/Lifecycle/Deletion.antt =====
-- What `preview_delete` and then `delete` of `DataLifecycleService` in
-- src/ndt_agents/lifecycle/service.py do together.
use ndt_agents.Base.{
  ℕ, Bool, true, false, not, if◌then◌else◌, none, some, List, [], ◌∷◌, String, str_eq, eq_iff, has,
  ◌≡◌, refl, sym, ap, ◌∙◌, inl, inr, Bool-cases,
}
use mathlib.Core.Path.{subst}
use ndt_agents.Result.{Result, ok, err, ok-injective, >>=-eq-ok, unless-eq-ok}
use ndt_agents.Exec.{pure, gets, modify, raise_if, ◌>>=◌}
use ndt_agents.Exec.Triple.{Triple, Ends, Triple-bind, Triple-pure, Triple-given}
use ndt_agents.Dict.{lookup, lookup-insert}
use ndt_agents.Cache.Models.{TenantScope}
use ndt_agents.Cache.Backend.{same_key}
use ndt_agents.Cache.Lookups.{same_key-Decides}
use ndt_agents.Scheduler.Data.{same_scope}
use ndt_agents.Scheduler.Terminal.{text-Decides}
use ndt_agents.Approval.Fair.{All}
use ndt_agents.Approval.View.{not-false}
use ndt_agents.Lifecycle.Data.{
  deleted, LifecyclePolicy, MemoryAccess, GovernedObject, DeletionPreview, ApprovalRecord, Payload,
  Name, Lifecycle, target_invalid,
}
use ndt_agents.Lifecycle.Guards.{
  is_active, is_target_set, authorize, is_valid_approval, validate_approval, load_found, load_each,
  load, load_active, any_held, deny_holds, object_ids, object_hashes, record_event,
}
use ndt_agents.Lifecycle.Objects.{tombstone, tombstones, put_each}
use ndt_agents.Lifecycle.Service.{preview_delete, delete}
use ndt_agents.Lifecycle.Good.{
  Objects, AllGood, IsLoaded, load_found-eq, load-AllLoaded, put_each-other,
}
use ndt_agents.Lifecycle.Erased.{check-Unchanged, load_active-Unchanged, deny_holds-Unchanged}

same_scope_refl : (a : TenantScope) → same_scope a a ≡ true
unfolding same_scope
same_scope_refl a = rw (
  text-Decides.complete a.tenant_id,
  text-Decides.complete a.project_id,
  text-Decides.complete a.user_id,
  same_key-Decides.complete a.role_codes,
  text-Decides.complete a.permission_version,
)

ended :
    {S E A : Type 0} (Q : A → S → Type 0) (R : E → S → Type 0) (a : A) (x : Result E A × S)
    → Ends Q R x
    → x.0 ≡ ok a
    → Q a x.1
ended Q R a (ok b, s) h e = subst (λ c. Q c s) (ok-injective e) h
ended Q R a (err x, s) h e = cc

-- Objects outside a list of IDs are none of its objects.
outside :
    (id : String) (gs : List GovernedObject)
    → has id (object_ids gs) ≡ false
    → All (λ (g : GovernedObject). str_eq g.object_id id ≡ false) gs
outside id [] h = tt
outside id (g ∷ gs) h = elim (Bool-cases (str_eq g.object_id id)) [
  | inl e ↦
      let same = (eq_iff g.object_id id).0 e in
      let bad : true ≡ false = rw (same, text-Decides.complete id) at h in cc
  | inr apart ↦ elim (Bool-cases (str_eq id g.object_id)) [
    | inl e ↦ let bad : true ≡ false = rw e at h in cc
    | inr n ↦ let h' : has id (object_ids gs) ≡ false = rw n at h in (apart, outside id gs h')
  ]
]

module _ (digest : Payload → String) (identify : Name → String) (policy : LifecyclePolicy) where
  -- An active object was under the ID at the start, and its tombstone is at the end.
  abbrev pub Buried : ℕ → String → Objects → Objects → Type 0
  Buried now id start end =
      (g : GovernedObject) × (lookup str_eq id start ≡ some g)
      × (is_active g.state ≡ true)
      × (lookup str_eq id end
          ≡ some (record g { content = none; state = deleted; deleted_at = some now }))

  put_each-Buried :
      (now : ℕ) (id : String) (start : Objects) (gs : List GovernedObject) (objects : Objects)
      → All (IsLoaded digest start) gs
      → has id (object_ids gs) ≡ true
      → Buried now id start (put_each (tombstones now gs) objects)
  put_each-Buried now id start [] objects h here = cc
  put_each-Buried now id start (g ∷ gs) objects h here =
      elim (Bool-cases (has id (object_ids gs))) [
        | inl later ↦ put_each-Buried now id start gs _ h.1 later
        | inr last ↦ elim (Bool-cases (str_eq id g.object_id)) [
          | inl e ↦
              let same = (eq_iff id g.object_id).0 e in
              subst (λ i. Buried now i start (put_each (tombstones now (g ∷ gs)) objects))
                (sym same)
                (
                  g,
                  h.0.stored,
                  h.0.live,
                  put_each-other digest now g.object_id gs _ (
                        outside g.object_id gs
                          (subst (λ i. has i (object_ids gs) ≡ false) same last))
                      ∙ lookup-insert text-Decides g.object_id (tombstone now g) objects,
                )
          | inr n ↦ let bad : false ≡ true = rw (n, last) at here in cc
        ]
      ]

  load_each-object_ids :
      (access : MemoryAccess) (objects : Objects) (ids : List String) (gs : List GovernedObject)
      → AllGood digest objects
      → load_each access objects ids ≡ ok gs
      → object_ids gs ≡ ids
  unfolding load_each
  load_each-object_ids access objects [] gs good h = rw (← ok-injective h) refl
  load_each-object_ids access objects (id ∷ ids) gs good h =
      let (g, first, h') = >>=-eq-ok (load_found access (lookup str_eq id objects)) _ h in
      let (rest, others, made) = >>=-eq-ok (load_each access objects ids) _ h' in
      let (found, live) = load_found-eq digest access (lookup str_eq id objects) g first in
      let keyed = (good id g found).keyed in
      let back = load_each-object_ids access objects ids rest good others in
      rw (← ok-injective made, keyed, back) refl

  -- What a preview that is returned has passed.
  abbrev Previewed : MemoryAccess → List String → Bool → Lifecycle → DeletionPreview → Type 0
  Previewed access ids force s p =
      (has "lifecycle:delete" access.permissions ≡ true)
      × (gs : List GovernedObject) × (load access s.objects ids ≡ ok gs)
      × (any_held gs s.holds ≡ false)
      × (p.scope ≡ access.scope)
      × (p.object_ids ≡ object_ids gs)
      × (p.object_hashes ≡ object_hashes gs)
      × (p.force_before_retention ≡ force)

  preview_delete-Previewed :
      (access : MemoryAccess) (ids : List String) (now : ℕ) (force : Bool) (s : Lifecycle)
      → Triple
          (λ t. t ≡ s)
          (preview_delete digest identify policy access ids now force)
          (λ p t. Previewed access ids force s p)
          (λ _ t. t ≡ s)
  unfolding preview_delete authorize
  preview_delete-Previewed access ids now force s =
      Triple-bind (check-Unchanged digest identify policy s _ _) λ _. Triple-given λ permitted.
        Triple-bind (load_active-Unchanged digest identify policy s access ids) λ gs.
          Triple-given λ loaded. Triple-bind (deny_holds-Unchanged digest identify policy s gs) λ _.
            Triple-given λ free. Triple-bind (check-Unchanged digest identify policy s _ _) λ _.
              Triple-given λ over. Triple-bind (check-Unchanged digest identify policy s _ _) λ _.
                Triple-given λ few.
                  Triple-pure _
                    (λ t h. (not-false _ permitted, gs, loaded, free, refl, refl, refl, refl))

  delete_returns :
      (access : MemoryAccess) (preview : DeletionPreview) (approval : ApprovalRecord) (now : ℕ)
      (gs : List GovernedObject) (s : Lifecycle)
      → has "lifecycle:delete" access.permissions ≡ true
      → same_scope access.scope preview.scope ≡ true
      → is_valid_approval approval access.scope
          (if preview.force_before_retention then "data.delete.force" else "data.delete")
          "lifecycle.preview"
          preview.preview_id
          policy.policy_version
          preview.preview_sha256
          now
        ≡ true
      → lookup str_eq preview.preview_sha256 s.completed_previews ≡ none
      → load access s.objects preview.object_ids ≡ ok gs
      → any_held gs s.holds ≡ false
      → same_key (object_hashes gs) preview.object_hashes ≡ true
      → let end = delete digest identify policy access preview approval now s in
        (end.0 ≡ ok (tombstones now gs))
        × (end.1.objects ≡ put_each (tombstones now gs) s.objects)
        × (end.1.holds ≡ s.holds)
  unfolding delete authorize validate_approval load_active deny_holds record_event gets modify
      raise_if ◌>>=◌ pure
  delete_returns access preview approval now gs s permitted scoped valid new loaded free current =
      rw (permitted, scoped, valid, new, loaded, free, current) (refl, refl, refl)

  -- In a state of good objects (see `IsGood`), what `preview_delete` returns is what `delete` needs:
  -- with an approval of the preview that is valid by then, and the preview not completed before,
  -- `delete` in that state, by the same caller, returns. Each of the IDs then has, in place of an
  -- active object, the same object without its content and as deleted at that time; what is under
  -- every other ID is as before, and so are the holds.
  pub preview_delete-delete :
      (access : MemoryAccess) (ids : List String) (before now : ℕ) (force : Bool)
      (p : DeletionPreview) (approval : ApprovalRecord) (s : Lifecycle)
      → AllGood digest s.objects
      → (preview_delete digest identify policy access ids before force s).0 ≡ ok p
      → is_valid_approval approval access.scope
          (if force then "data.delete.force" else "data.delete")
          "lifecycle.preview"
          p.preview_id
          policy.policy_version
          p.preview_sha256
          now
        ≡ true
      → lookup str_eq p.preview_sha256 s.completed_previews ≡ none
      → let end = delete digest identify policy access p approval now s in
        ((gs : List GovernedObject) × (end.0 ≡ ok gs))
        × ((id : String) → has id ids ≡ true → Buried now id s.objects end.1.objects)
        × ((id : String)
            → has id ids ≡ false
            → lookup str_eq id end.1.objects ≡ lookup str_eq id s.objects)
        × (end.1.holds ≡ s.holds)
  preview_delete-delete access ids before now force p approval s good previewed valid new =
      let (permitted, gs, loaded, free, scope, listed, hashes, forced) =
        ended _ _ p _ ((preview_delete-Previewed access ids before force s).at s refl) previewed in
      let each = (unless-eq-ok (not (is_target_set ids)) target_invalid _ loaded).1 in
      let named = load_each-object_ids access s.objects ids gs good each in
      let (returned, objects, holds) =
        delete_returns access p approval now gs s permitted
          (rw scope (same_scope_refl access.scope)) (rw forced valid) new
          (rw (listed, named) loaded) free (rw hashes (same_key-Decides.complete _)) in
      let sound = load-AllLoaded digest access s.objects ids gs good loaded in
      (
        (_, returned),
        λ id here.
            subst (Buried now id s.objects) (sym objects)
              (put_each-Buried now id s.objects gs s.objects sound (rw named here)),
        λ id away.
            ap (lookup str_eq id) objects
            ∙ put_each-other digest now id gs s.objects (outside id gs (rw named away)),
        holds,
      )
