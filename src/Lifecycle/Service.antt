-- ===== src/Lifecycle/Service.antt =====
-- The methods of `DataLifecycleService` in src/ndt_agents/lifecycle/service.py. `KeyRevoker.revoke` is
-- the argument `revokes`: whether it returns for a key. `now` is a time with an offset.
use ndt_agents.Base.{
  ℕ, ◌+◌, ◌*◌, Bool, ◌&&◌, not, if◌then◌else◌, Option, none, some, is_some, List, [], ◌∷◌, String,
  str_eq, leb, length, length_within,
}
use ndt_agents.Exec.{pure, raise, gets, lift, modify, raise_if, ◌>>=◌, ◌>>◌}
use ndt_agents.Dict.{lookup, insert}
use ndt_agents.Cache.Models.{Datetime}
use ndt_agents.Scheduler.Data.{same_scope}
use ndt_agents.Cache.Backend.{same_key}
use ndt_agents.Lifecycle.Data.{
  DataClassification, active, holding, registers, exports, deletes, applies_hold, LifecyclePolicy,
  KeyRef, MemoryAccess, GovernedObject, LegalHold, DeletionPreview, ExportBundle, ApprovalRecord,
  Payload, content_payload, export_payload, preview_payload, Name, delete_name, hold_name,
  object_conflict, retention_invalid, retention_active, scope_denied, preview_stale,
  validation_error, key_error, Governing,
}
use ndt_agents.Lifecycle.Guards.{
  authorize, validate_approval, load_active, deny_holds, object_ids, object_hashes, record_event,
}
use ndt_agents.Lifecycle.Objects.{
  days_for, is_valid_new, is_kept, export_records, tombstones, put_each, objects_at,
}

module _ (digest : Payload → String) (identify : Name → String) (policy : LifecyclePolicy) where
  abbrev pub new_object :
      MemoryAccess
      → String
      → String
      → String
      → DataClassification
      → String
      → ℕ
      → ℕ
      → Option KeyRef
      → GovernedObject
  new_object access object_id object_type object_version classification content created_at days
        key =
      record {
        object_id = object_id;
        scope = access.scope;
        object_type = object_type;
        object_version = object_version;
        classification = classification;
        content = some content;
        content_sha256 = digest (content_payload content);
        retention_until = created_at + days * 86_400_000_000;
        encryption_key_ref = key;
        state = active;
        deleted_at = none;
        crypto_erased_at = none;
        created_at = created_at;
      }

  unfoldable pub register :
      MemoryAccess
      → String
      → String
      → String
      → DataClassification
      → String
      → Datetime
      → Option ℕ
      → Option KeyRef
      → Governing GovernedObject
  unfolding authorize record_event
  register access object_id object_type object_version classification content created_at
        retention_days key =
      do
        authorize access "lifecycle:register"
        objects ← gets (λ s. s.objects)
        raise_if (is_some (lookup str_eq object_id objects)) object_conflict
        let days = days_for policy object_type retention_days
        raise_if (not (leb 1 days && leb days 3650)) retention_invalid
        let g =
            new_object access object_id object_type object_version classification content
              created_at.instant days key
        raise_if (not (is_valid_new g created_at.has_offset)) validation_error
        modify (λ s. record s { objects = insert str_eq object_id g s.objects })
        record_event digest identify access.scope registers (g ∷ []) none created_at.instant
        pure g

  unfoldable pub export : MemoryAccess → List String → ℕ → Governing ExportBundle
  unfolding authorize load_active record_event
  export access ids now = do
    authorize access "lifecycle:export"
    objects ← load_active access ids
    let records = export_records objects
    record_event digest identify access.scope exports objects none now
    pure (record {
      scope = access.scope;
      records = records;
      manifest_sha256 = digest (export_payload records);
      exported_at = now;
    })

  unfoldable pub preview_delete : MemoryAccess → List String → ℕ → Bool → Governing DeletionPreview
  unfolding authorize load_active deny_holds
  preview_delete access ids now force = do
    authorize access "lifecycle:delete"
    objects ← load_active access ids
    deny_holds objects
    raise_if (not force && is_kept now objects) retention_active
    raise_if (not (leb (length objects) 100)) validation_error
    let sha = digest (
        preview_payload access.scope (object_ids objects) (object_hashes objects) force now
          policy.policy_version)
    pure (record {
      preview_id = identify (delete_name sha);
      preview_sha256 = sha;
      scope = access.scope;
      object_ids = object_ids objects;
      object_hashes = object_hashes objects;
      force_before_retention = force;
      created_at = now;
    })

  -- `delete`, once the completed previews are looked up.
  abbrev pub delete_over :
      MemoryAccess
      → DeletionPreview
      → ApprovalRecord
      → ℕ
      → Option (List String)
      → Governing (List GovernedObject)
  delete_over access preview approval now (some ids) = do
    objects ← gets (λ s. s.objects)
    lift (objects_at ids objects)
  delete_over access preview approval now none = do
    objects ← load_active access preview.object_ids
    deny_holds objects
    raise_if (not (same_key (object_hashes objects) preview.object_hashes)) preview_stale
    let dead = tombstones now objects
    modify (λ s. record s { objects = put_each dead s.objects })
    modify (λ s. record s {
      completed_previews =
          insert str_eq preview.preview_sha256 preview.object_ids s.completed_previews;
    })
    record_event digest identify access.scope deletes dead (some approval.approval_id) now
    pure dead

  unfoldable pub delete :
      MemoryAccess → DeletionPreview → ApprovalRecord → ℕ → Governing (List GovernedObject)
  unfolding authorize validate_approval load_active deny_holds record_event
  delete access preview approval now = do
    authorize access "lifecycle:delete"
    raise_if (not (same_scope access.scope preview.scope)) scope_denied
    validate_approval approval access.scope
        (if preview.force_before_retention then "data.delete.force" else "data.delete")
        "lifecycle.preview" preview.preview_id policy.policy_version preview.preview_sha256 now
    completed ← gets (λ s. lookup str_eq preview.preview_sha256 s.completed_previews)
    delete_over access preview approval now completed

  -- `apply_hold`, of the object that was loaded, once the hold's ID is looked up.
  abbrev pub apply_over :
      MemoryAccess
      → GovernedObject
      → String
      → String
      → String
      → ApprovalRecord
      → ℕ
      → Option LegalHold
      → Governing LegalHold
  apply_over access g object_id hold_id reason approval now (some h) = pure h
  apply_over access g object_id hold_id reason approval now none = do
    raise_if (not (length_within 1 2000 reason)) validation_error
    let h : LegalHold = record {
      hold_id = hold_id;
      scope = access.scope;
      object_id = object_id;
      reason = reason;
      state = holding;
      approval_id = approval.approval_id;
      applied_at = now;
      released_at = none;
    }
    modify (λ s. record s { holds = insert str_eq hold_id h s.holds })
    record_event digest identify access.scope applies_hold (g ∷ []) (some approval.approval_id) now
    pure h

  -- `apply_hold`, of the objects that were loaded.
  abbrev pub apply_loaded :
      MemoryAccess
      → String
      → String
      → ApprovalRecord
      → ℕ
      → List GovernedObject
      → Governing LegalHold
  apply_loaded access object_id reason approval now [] = raise key_error
  apply_loaded access object_id reason approval now (g ∷ gs) = do
    validate_approval approval access.scope "data.hold.apply" g.object_type g.object_id
        g.object_version g.content_sha256 now
    let hold_id = identify (hold_name g.object_id approval.approval_id)
    existing ← gets (λ s. lookup str_eq hold_id s.holds)
    apply_over access g object_id hold_id reason approval now existing

  unfoldable pub apply_hold :
      MemoryAccess → String → String → ApprovalRecord → ℕ → Governing LegalHold
  unfolding authorize validate_approval load_active record_event
  apply_hold access object_id reason approval now = do
    authorize access "lifecycle:hold"
    objects ← load_active access (object_id ∷ [])
    apply_loaded access object_id reason approval now objects
