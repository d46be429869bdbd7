-- ===== src/Lifecycle/Good.antt =====
-- Well-formed governed objects of src/ndt_agents/lifecycle/service.py, and what loading and writing
-- them does.
use ndt_agents.Base.{
  ℕ, true, false, not, Option, none, some, is_some, ltb, List, [], ◌∷◌, String, str_eq, eq_iff, ◌≡◌,
  refl, sym, ap, ◌∙◌, ◌⊎◌, inl, inr, Bool-cases,
}
use mathlib.Core.Path.{subst}
use ndt_agents.Result.{ok, >>=-eq-ok, ok-injective, unless-eq-ok}
use ndt_agents.Dict.{lookup, insert, lookup-insert, lookup-insert-other}
use ndt_agents.Scheduler.Data.{same_scope}
use ndt_agents.Scheduler.Terminal.{text-Decides}
use ndt_agents.Approval.Fair.{All, or_false}
use ndt_agents.Approval.View.{not-false}
use ndt_agents.Lifecycle.Data.{
  MemoryAccess, GovernedObject, LegalHold, Payload, content_payload, scope_denied,
  classification_denied, object_not_active, target_invalid,
}
use ndt_agents.Lifecycle.Guards.{
  level, is_active, load_found, load_each, is_target_set, load, is_held, any_held,
}
use ndt_agents.Lifecycle.Objects.{tombstone, tombstones, put_each}

abbrev pub Objects : Type 0
Objects = List (String × GovernedObject)

module _ (digest : Payload → String) where
  -- An object under its own ID, with content exactly while it is active, and of its digest.
  pub record IsGood (k : String) (g : GovernedObject) : Type 0 where
    pub keyed : g.object_id ≡ k
    pub shaped : is_some g.content ≡ is_active g.state
    pub hashed : (t : String) → g.content ≡ some t → digest (content_payload t) ≡ g.content_sha256

  abbrev pub AllGood : Objects → Type 0
  AllGood objects =
      (k : String) (g : GovernedObject) → lookup str_eq k objects ≡ some g → IsGood k g

  pub insert-AllGood :
      (objects : Objects) (g : GovernedObject)
      → AllGood objects
      → IsGood g.object_id g
      → AllGood (insert str_eq g.object_id g objects)
  insert-AllGood objects g good new k x found = elim (Bool-cases (str_eq g.object_id k)) [
    | inl e ↦
        let here = (eq_iff g.object_id k).0 e in
        let shown : some g ≡ some x =
          sym (lookup-insert text-Decides g.object_id g objects)
          ∙ subst (λ j. lookup str_eq j (insert str_eq g.object_id g objects) ≡ some x) (sym here)
              found in
        let same : g ≡ x = cc in subst (λ j. IsGood j x) here (subst (IsGood g.object_id) same new)
    | inr e ↦ good k x (sym (lookup-insert-other text-Decides g.object_id k g objects e) ∙ found)
  ]

  tombstone-IsGood :
      (now : ℕ) (k : String) (g : GovernedObject) → IsGood k g → IsGood k (tombstone now g)
  tombstone-IsGood now k g h = record { keyed = h.keyed; shaped = refl; hashed = λ t e. cc }

  -- What was loaded: an active object that stands under its ID.
  pub record IsLoaded (objects : Objects) (g : GovernedObject) : Type 0 where
    pub stored : lookup str_eq g.object_id objects ≡ some g
    pub live : is_active g.state ≡ true

  pub load_found-eq :
      (access : MemoryAccess) (found : Option GovernedObject) (g : GovernedObject)
      → load_found access found ≡ ok g
      → (found ≡ some g) × (is_active g.state ≡ true)
  load_found-eq access none g h = cc
  load_found-eq access (some x) g h =
      let a = unless-eq-ok (not (same_scope access.scope x.scope)) scope_denied _ h in
      let b =
        unless-eq-ok (ltb (level access.clearance) (level x.classification)) classification_denied _
          a.1 in
      let c = unless-eq-ok (not (is_active x.state)) object_not_active (ok x) b.1 in
      let same = ok-injective c.1 in
      (
        ap some same,
        subst (λ (y : GovernedObject). is_active y.state ≡ true) same
            (not-false (is_active x.state) c.0),
      )

  pub load_each-AllLoaded :
      (access : MemoryAccess) (objects : Objects) (ids : List String) (gs : List GovernedObject)
      → AllGood objects
      → load_each access objects ids ≡ ok gs
      → All (IsLoaded objects) gs
  unfolding load_each
  load_each-AllLoaded access objects [] gs good h = rw (← ok-injective h) tt
  load_each-AllLoaded access objects (id ∷ ids) gs good h =
      let (g, first, h') = >>=-eq-ok (load_found access (lookup str_eq id objects)) _ h in
      let (rest, others, made) = >>=-eq-ok (load_each access objects ids) _ h' in
      let (found, live) = load_found-eq access (lookup str_eq id objects) g first in
      let stored =
        subst (λ j. lookup str_eq j objects ≡ some g) (sym (good id g found).keyed) found in
      rw (← ok-injective made) (
        record { stored = stored; live = live },
        load_each-AllLoaded access objects ids rest good others,
      )

  pub load-AllLoaded :
      (access : MemoryAccess) (objects : Objects) (ids : List String) (gs : List GovernedObject)
      → AllGood objects
      → load access objects ids ≡ ok gs
      → All (IsLoaded objects) gs
  load-AllLoaded access objects ids gs good h =
      load_each-AllLoaded access objects ids gs good
        (unless-eq-ok (not (is_target_set ids)) target_invalid _ h).1

  pub put_each-AllGood :
      (now : ℕ) (gs : List GovernedObject) (start objects : Objects)
      → AllGood start
      → AllGood objects
      → All (IsLoaded start) gs
      → AllGood (put_each (tombstones now gs) objects)
  put_each-AllGood now [] start objects old good h = good
  put_each-AllGood now (g ∷ gs) start objects old good h =
      put_each-AllGood now gs start _ old
        (insert-AllGood objects (tombstone now g) good
          (tombstone-IsGood now g.object_id g (old g.object_id g h.0.stored)))
        h.1

  -- An object that is not among those that are written stays.
  pub put_each-other :
      (now : ℕ) (id : String) (gs : List GovernedObject) (objects : Objects)
      → All (λ (g : GovernedObject). str_eq g.object_id id ≡ false) gs
      → lookup str_eq id (put_each (tombstones now gs) objects) ≡ lookup str_eq id objects
  put_each-other now id [] objects h = refl
  put_each-other now id (g ∷ gs) objects h =
      put_each-other now id gs _ h.1
      ∙ lookup-insert-other text-Decides g.object_id id (tombstone now g) objects h.0

  apart_from :
      (objects : Objects) (holds : List (String × LegalHold)) (id : String) (g x : GovernedObject)
      → lookup str_eq id objects ≡ some g
      → (is_active g.state ≡ false) ⊎ (is_held id holds ≡ true)
      → IsLoaded objects x
      → is_held x.object_id holds ≡ false
      → x.object_id ≡ id
      → ⊥
  apart_from objects holds id g x here (inl dead) h free e =
      let same : some x ≡ some g = sym h.stored ∙ rw e here in
      let live : is_active g.state ≡ true =
        let same' : x ≡ g = cc in
        subst (λ (y : GovernedObject). is_active y.state ≡ true) same' h.live in
      let bad : false ≡ true = sym dead ∙ live in cc
  apart_from objects holds id g x here (inr held) h free e =
      let free' : is_held id holds ≡ false = rw (← e) free in
      let bad : false ≡ true = sym free' ∙ held in cc

  -- What is not active, or is held, is not among the objects that pass.
  pub passed-other :
      (objects : Objects) (holds : List (String × LegalHold)) (id : String) (g : GovernedObject)
      → lookup str_eq id objects ≡ some g
      → (is_active g.state ≡ false) ⊎ (is_held id holds ≡ true)
      → (gs : List GovernedObject) → All (IsLoaded objects) gs
      → any_held gs holds ≡ false
      → All (λ (x : GovernedObject). str_eq x.object_id id ≡ false) gs
  unfolding any_held
  passed-other objects holds id g here blocked [] h free = tt
  passed-other objects holds id g here blocked (x ∷ gs) h free =
      let free' = or_false (is_held x.object_id holds) (any_held gs holds) free in
      (
        elim (Bool-cases (str_eq x.object_id id)) [
          | inl e ↦ absurd (
              apart_from objects holds id g x here blocked h.0 free'.0
                ((eq_iff x.object_id id).0 e))
          | inr e ↦ e
        ],
        passed-other objects holds id g here blocked gs h.1 free'.1,
      )
