-- ===== src/Lifecycle/Runs.antt =====
-- Runs of `DataLifecycleService` in src/ndt_agents/lifecycle/service.py: what is deleted, or held,
-- stays as it is.
use ndt_agents.Base.{
  ℕ, Bool, true, false, ◌&&◌, ◌||◌, Option, none, some, List, [], ◌∷◌, String, str_eq, eq_iff, ◌≡◌,
  refl, sym, ◌∙◌, ◌⊎◌, inl, inr, Bool-cases,
}
use ndt_agents.Exec.{Result, ok, err}
use ndt_agents.Exec.Triple.{Ends}
use ndt_agents.Dict.{lookup, insert, lookup-insert-other}
use ndt_agents.Cache.Models.{Datetime}
use ndt_agents.Scheduler.Terminal.{text-Decides}
use ndt_agents.Lifecycle.Data.{
  DataClassification, LifecyclePolicy, KeyRef, MemoryAccess, GovernedObject, LegalHold,
  DeletionPreview, ApprovalRecord, Payload, Name, LifecycleError, Lifecycle,
}
use ndt_agents.Lifecycle.Guards.{is_active, is_holding, is_held}
use ndt_agents.Lifecycle.Service.{register, export, preview_delete, delete, apply_hold}
use ndt_agents.Lifecycle.Erasure.{release_hold, erased, cryptographic_erase}
use ndt_agents.Lifecycle.Good.{
  Objects, AllGood, insert-AllGood, IsLoaded, put_each-AllGood, put_each-other, passed-other,
}
use ndt_agents.Lifecycle.Guarded.{register-Kept, apply_hold-Kept, release_hold-Kept}
use ndt_agents.Lifecycle.Keeping.{
  Holds, Keeps, export-Kept, preview_delete-Kept, delete-Kept, cryptographic_erase-Kept,
}
use ndt_agents.Approval.Fair.{or_false}

-- The calls of a service.
pub data LifecycleCall : Type 0 where
  register_call :
      MemoryAccess
      → String
      → String
      → String
      → DataClassification
      → String
      → Datetime
      → Option ℕ
      → Option KeyRef
      → LifecycleCall
  export_call : MemoryAccess → List String → ℕ → LifecycleCall
  preview_call : MemoryAccess → List String → ℕ → Bool → LifecycleCall
  delete_call : MemoryAccess → DeletionPreview → ApprovalRecord → ℕ → LifecycleCall
  hold_call : MemoryAccess → String → String → ApprovalRecord → ℕ → LifecycleCall
  release_call : MemoryAccess → String → ApprovalRecord → ℕ → LifecycleCall
  erase_call : (KeyRef → Bool) → MemoryAccess → String → ApprovalRecord → ℕ → LifecycleCall

abbrev pub is_release : LifecycleCall → Bool
is_release (release_call access id approval now) = true
is_release c = false

-- No call of the list releases a hold.
abbrev pub has_release : List LifecycleCall → Bool
has_release [] = false
has_release (c ∷ calls) = is_release c || has_release calls

pub is_held-insert :
    (id k : String) (h : LegalHold) (holds : Holds)
    → lookup str_eq k holds ≡ none
    → is_held id holds ≡ true
    → is_held id (insert str_eq k h holds) ≡ true
unfolding is_held
is_held-insert id k h [] new held = cc
is_held-insert id k h ((l, w) ∷ holds) new held = elim (Bool-cases (str_eq l k)) [
  | inl e ↦ let bad : some w ≡ none = rw e at new in cc
  | inr e ↦
      let new' : lookup str_eq k holds ≡ none = rw e at new in
      elim (Bool-cases (is_holding w.state && str_eq w.object_id id)) [
        | inl here ↦ rw (e, here) refl
        | inr other ↦
            let held' : is_held id holds ≡ true = rw other at held in
            rw (e, other) (is_held-insert id k h holds new' held')
      ]
]

module _ (digest : Payload → String) (identify : Name → String) (policy : LifecyclePolicy) where
  -- What a call leaves, whether it returns or raises.
  abbrev pub after : LifecycleCall → Lifecycle → Lifecycle
  after (register_call access id type' version c content created days key) s =
      (register digest identify policy access id type' version c content created days key s).1
  after (export_call access ids now) s = (export digest identify policy access ids now s).1
  after (preview_call access ids now force) s =
      (preview_delete digest identify policy access ids now force s).1
  after (delete_call access preview approval now) s =
      (delete digest identify policy access preview approval now s).1
  after (hold_call access id reason approval now) s =
      (apply_hold digest identify policy access id reason approval now s).1
  after (release_call access id approval now) s =
      (release_hold digest identify policy access id approval now s).1
  after (erase_call revokes access id approval now) s =
      (cryptographic_erase digest identify policy revokes access id approval now s).1

  -- What calls leave that are made in order.
  unfoldable pub run : List LifecycleCall → Lifecycle → Lifecycle
  run [] s = s
  run (c ∷ calls) s = run calls (after c s)

  module _ {F : Objects → Holds → Type 0} (keeps : Keeps digest identify policy F) where
    ended :
        {A : Type 0} (x : Result LifecycleError A × Lifecycle)
        → Ends (λ _ s. F s.objects s.holds) (λ _ s. F s.objects s.holds) x
        → F x.1.objects x.1.holds
    ended (ok a, s) h = h
    ended (err e, s) h = h

    -- It does not depend on the holds.
    abbrev pub Regardless : Type 0
    Regardless = (objects : Objects) (holds holds' : Holds) → F objects holds → F objects holds'

    -- A call keeps what each write keeps; the release of a hold only what does not depend on the holds.
    after-Keeps :
        (c : LifecycleCall) (s : Lifecycle)
        → (is_release c ≡ false) ⊎ Regardless
        → F s.objects s.holds
        → F (after c s).objects (after c s).holds
    after-Keeps (register_call access id type' version c content created days key) s free h =
        ended _ (
          (register-Kept digest identify policy keeps access id type' version c content created days
              key).at
            s h)
    after-Keeps (export_call access ids now) s free h =
        ended _ ((export-Kept digest identify policy keeps access ids now).at s h)
    after-Keeps (preview_call access ids now force) s free h =
        ended _ ((preview_delete-Kept digest identify policy keeps access ids now force).at s h)
    after-Keeps (delete_call access preview approval now) s free h =
        ended _ ((delete-Kept digest identify policy keeps access preview approval now).at s h)
    after-Keeps (hold_call access id reason approval now) s free h =
        ended _
          ((apply_hold-Kept digest identify policy keeps access id reason approval now).at s h)
    after-Keeps (release_call access id approval now) s (inl no') h = cc
    after-Keeps (release_call access id approval now) s (inr any) h =
        ended _ ((release_hold-Kept digest identify policy keeps any access id approval now).at s h)
    after-Keeps (erase_call revokes access id approval now) s free h = ended _ (
        (cryptographic_erase-Kept digest identify policy keeps revokes access id approval now).at s
          h)

    pub run-Keeps :
        (calls : List LifecycleCall) (s : Lifecycle)
        → (has_release calls ≡ false) ⊎ Regardless
        → F s.objects s.holds
        → F (run calls s).objects (run calls s).holds
    unfolding run
    run-Keeps [] s free h = h
    run-Keeps (c ∷ calls) s (inr any) h =
        run-Keeps calls (after c s) (inr any) (after-Keeps c s (inr any) h)
    run-Keeps (c ∷ calls) s (inl none') h =
        let apart = or_false (is_release c) (has_release calls) none' in
        run-Keeps calls (after c s) (inl apart.1) (after-Keeps c s (inl apart.0) h)

  good-Keeps : Keeps digest identify policy (λ objects holds. AllGood digest objects)
  good-Keeps = record {
    good = λ objects holds h. h;
    on_register = λ objects holds g new good h. insert-AllGood digest objects g h good;
    on_delete = λ objects holds now gs loaded free h.
        put_each-AllGood digest now gs objects objects h h loaded;
    on_erase = λ objects holds now g loaded free h. erase-AllGood objects now g loaded h;
    on_hold = λ objects holds id k new h. h;
  }
    where
      erase-AllGood :
          (objects : Objects) (now : ℕ) (g : GovernedObject)
          → IsLoaded digest objects g
          → AllGood digest objects
          → AllGood digest (insert str_eq g.object_id (erased digest identify policy now g) objects)
      erase-AllGood objects now g loaded h =
          insert-AllGood digest objects (erased digest identify policy now g) h
            (record { keyed = refl; shaped = refl; hashed = λ t e. cc })

  -- After any calls on an empty repository, each object stands under its own ID, has content exactly
  -- while it is active, and has the digest of its content.
  pub run-AllGood :
      (calls : List LifecycleCall) (s : Lifecycle)
      → s.objects ≡ []
      → AllGood digest (run calls s).objects
  run-AllGood calls s empty =
      run-Keeps good-Keeps calls s (inr (λ objects holds holds' h. h)) (rw empty (λ k g h. cc))

  -- What is watched: an object, with a reason not to write it.
  module _ (id : String) (g : GovernedObject) (B : Holds → Type 0) where
    abbrev pub Watched : Objects → Holds → Type 0
    Watched objects holds = AllGood digest objects × (lookup str_eq id objects ≡ some g) × B holds

    pub Watched-Keeps :
        ((holds : Holds) → B holds → (is_active g.state ≡ false) ⊎ (is_held id holds ≡ true))
        → ((holds : Holds) (k : String) (h : LegalHold)
            → lookup str_eq k holds ≡ none
            → B holds
            → B (insert str_eq k h holds))
        → Keeps digest identify policy Watched
    Watched-Keeps blocked more = record {
      good = λ objects holds h. h.0;
      on_register = λ objects holds x new good h. (
        insert-AllGood digest objects x h.0 good,
        other_kept objects x h.1 (new_apart objects x new h.1),
        h.2,
      );
      on_delete = λ objects holds now gs loaded free h. (
        put_each-AllGood digest now gs objects objects h.0 h.0 loaded,
        put_each-other digest now id gs objects
              (passed-other digest objects holds id g h.1 (blocked holds h.2) gs loaded free)
            ∙ h.1,
        h.2,
      );
      on_erase = λ objects holds now x loaded free h. (
        good-Keeps.on_erase objects holds now x loaded free h.0,
        lookup-insert-other text-Decides x.object_id id _ objects
              (passed-other digest objects holds id g h.1 (blocked holds h.2) (x ∷ []) (loaded, tt)
                free).0
            ∙ h.1,
        h.2,
      );
      on_hold = λ objects holds k h new f. (f.0, f.1, more holds k h new f.2);
    }
      where
        new_apart :
            (objects : Objects) (x : GovernedObject)
            → lookup str_eq x.object_id objects ≡ none
            → lookup str_eq id objects ≡ some g
            → str_eq x.object_id id ≡ false
        new_apart objects x new here = elim (Bool-cases (str_eq x.object_id id)) [
          | inl e ↦
              let there : lookup str_eq x.object_id objects ≡ some g =
                rw ((eq_iff x.object_id id).0 e) here in
              let bad : none ≡ some g = sym new ∙ there in cc
          | inr e ↦ e
        ]

        other_kept :
            (objects : Objects) (x : GovernedObject)
            → lookup str_eq id objects ≡ some g
            → str_eq x.object_id id ≡ false
            → lookup str_eq id (insert str_eq x.object_id x objects) ≡ some g
        other_kept objects x here apart =
            lookup-insert-other text-Decides x.object_id id x objects apart ∙ here
