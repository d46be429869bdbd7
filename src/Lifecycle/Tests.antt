-- ===== src/Lifecycle/Tests.antt =====
-- Governed objects of src/ndt_agents/lifecycle/service.py at concrete calls, and the theorems applied
-- to them.
use ndt_agents.Base.{◌≡◌, refl, true, none, some, List, [], ◌∷◌, String, str_eq, has, false}
use ndt_agents.Exec.{ok, pure, raise, gets, lift, modify, raise_if, ◌>>=◌}
use ndt_agents.Dict.{lookup}
use ndt_agents.Cache.Models.{TenantScope}
use ndt_agents.Cache.Backend.{same_key}
use ndt_agents.Scheduler.Data.{same_scope}
use ndt_agents.Approval.Data.{approves}
use ndt_agents.Lifecycle.Data.{
  KeyRef, internal, active, deleted, LifecyclePolicy, MemoryAccess, GovernedObject, DeletionPreview,
  ApprovalRecord, Payload, content_payload, export_payload, preview_payload, hold_payload,
  input_payload, outcome_payload, Name, delete_name, hold_name, event_name, Lifecycle,
}
use ndt_agents.Lifecycle.Guards.{
  authorize, is_valid_approval, validate_approval, load_each, load_active, is_held, any_held,
  deny_holds, record_event,
}
use ndt_agents.Lifecycle.Objects.{without_dashes}
use ndt_agents.Lifecycle.Service.{register, preview_delete, delete, apply_hold}
use ndt_agents.Lifecycle.Erasure.{cryptographic_erase}
use ndt_agents.Lifecycle.Good.{AllGood}
use ndt_agents.Lifecycle.Deletion.{Buried, preview_delete-delete}
use ndt_agents.Lifecycle.Erased.{Erases, cryptographic_erase_lem}
use ndt_agents.Exec.Triple.{Ends}
use ndt_agents.Lifecycle.Runs.{
  LifecycleCall, register_call, delete_call, hold_call, run, run-AllGood,
}
use ndt_agents.Lifecycle.Promises.{tombstones_are_final, held_objects_are_kept}

abbrev digest : Payload → String
digest (content_payload t) = t
digest (export_payload records) = "export"
digest (preview_payload scope ids hashes force now version) = "preview"
digest (hold_payload h) = "hold"
digest (input_payload pairs) = "input"
digest (outcome_payload pairs) = "outcome"

abbrev identify : Name → String
identify (delete_name sha) = sha
identify (hold_name object approval) = object
identify (event_name action input approval now) = input

abbrev policy : LifecyclePolicy
policy = record { policy_version = "1"; default_retention_days = 365; audit_retention_days = 2555 }

abbrev scope : TenantScope
scope = record {
  tenant_id = "t";
  project_id = "p";
  user_id = "u";
  role_codes = [];
  permission_version = "1";
}

abbrev access : MemoryAccess
access = record {
  scope = scope;
  permissions = "lifecycle:register" ∷ "lifecycle:hold" ∷ "lifecycle:delete" ∷ [];
  clearance = internal;
}

abbrev empty : Lifecycle
empty = record { objects = []; holds = []; events = []; completed_previews = []; revoked = [] }

abbrev preview_of : String → DeletionPreview
preview_of id = record {
  preview_id = "preview";
  preview_sha256 = id;
  scope = scope;
  object_ids = id ∷ [];
  object_hashes = "{}" ∷ [];
  force_before_retention = true;
  created_at = 10;
}

abbrev approval : String → String → String → String → String → ApprovalRecord
approval action target_type target_id version sha = record {
  approval_id = "a";
  scope = scope;
  action = action;
  target_type = target_type;
  target_id = target_id;
  target_version = version;
  target_sha256 = sha;
  outcome = approves;
  decided_at = 5;
  expires_at = none;
}

abbrev delete_of : String → LifecycleCall
delete_of id =
    delete_call access (preview_of id)
      (approval "data.delete.force" "lifecycle.preview" "preview" "1" id) 20

abbrev register_of : String → LifecycleCall
register_of id =
    register_call access id "report" "1" internal "{}" (record { instant = 1; has_offset = true })
      (some 1) none

abbrev calls : List LifecycleCall
calls =
    register_of "one"
    ∷ register_of "two"
    ∷ delete_of "one"
    ∷ hold_call access "two" "claim" (approval "data.hold.apply" "report" "two" "1" "{}") 30
    ∷ []

abbrev reached : Lifecycle
reached = run digest identify policy calls empty

abbrev object : String → GovernedObject
object id = record {
  object_id = id;
  scope = scope;
  object_type = "report";
  object_version = "1";
  classification = internal;
  content = some "{}";
  content_sha256 = "{}";
  retention_until = 86_400_000_001;
  encryption_key_ref = none;
  state = active;
  deleted_at = none;
  crypto_erased_at = none;
  created_at = 1;
}

abbrev tombstone_one : GovernedObject
tombstone_one = record (object "one") { content = none; state = deleted; deleted_at = some 20 }

-- The first object is deleted, and the second is held.
objects_after_calls :
    (lookup str_eq "one" reached.objects ≡ some tombstone_one)
    × (lookup str_eq "two" reached.objects ≡ some (object "two"))
unfolding run register delete apply_hold authorize is_valid_approval validate_approval load_each
    load_active is_held any_held deny_holds record_event same_scope same_key pure raise gets lift
    modify raise_if ◌>>=◌ without_dashes
objects_after_calls = (refl, refl)

held_after_calls : is_held "two" reached.holds ≡ true
unfolding run register delete apply_hold authorize is_valid_approval validate_approval load_each
    load_active is_held any_held deny_holds record_event same_scope same_key pure raise gets lift
    modify raise_if ◌>>=◌ without_dashes
held_after_calls = refl

run-AllGood_example : AllGood digest reached.objects
run-AllGood_example = run-AllGood digest identify policy calls empty refl

tombstones_are_final_example :
    lookup str_eq "one" (run digest identify policy (register_of "one" ∷ []) reached).objects
    ≡ some tombstone_one
tombstones_are_final_example =
    tombstones_are_final digest identify policy calls (register_of "one" ∷ []) empty "one"
      tombstone_one refl objects_after_calls.0 refl

held_objects_are_kept_example :
    let end = run digest identify policy (delete_of "two" ∷ []) reached in
    (lookup str_eq "two" end.objects ≡ some (object "two")) × (is_held "two" end.holds ≡ true)
held_objects_are_kept_example =
    held_objects_are_kept digest identify policy calls (delete_of "two" ∷ []) empty "two"
      (object "two") refl objects_after_calls.1 held_after_calls refl

abbrev registered : Lifecycle
registered = run digest identify policy (register_of "one" ∷ register_of "two" ∷ []) empty

abbrev approved_one : ApprovalRecord
approved_one = approval "data.delete.force" "lifecycle.preview" "preview" "1" "preview"

abbrev previewed_one : DeletionPreview
previewed_one = record {
  preview_id = "preview";
  preview_sha256 = "preview";
  scope = scope;
  object_ids = "one" ∷ [];
  object_hashes = "{}" ∷ [];
  force_before_retention = true;
  created_at = 10;
}

one_previewed :
    (preview_delete digest identify policy access ("one" ∷ []) 10 true registered).0
    ≡ ok previewed_one
unfolding run register delete apply_hold authorize is_valid_approval validate_approval load_each
    load_active is_held any_held deny_holds record_event same_scope same_key pure raise gets lift
    modify raise_if ◌>>=◌ without_dashes preview_delete
one_previewed = refl

preview_delete-delete_example :
    let end = delete digest identify policy access previewed_one approved_one 20 registered in
    ((gs : List GovernedObject) × (end.0 ≡ ok gs))
    × ((id : String)
        → has id ("one" ∷ []) ≡ true
        → Buried digest identify policy 20 id registered.objects end.1.objects)
    × ((id : String)
        → has id ("one" ∷ []) ≡ false
        → lookup str_eq id end.1.objects ≡ lookup str_eq id registered.objects)
    × (end.1.holds ≡ registered.holds)
unfolding run register delete apply_hold authorize is_valid_approval validate_approval load_each
    load_active is_held any_held deny_holds record_event same_scope same_key pure raise gets lift
    modify raise_if ◌>>=◌ without_dashes preview_delete
preview_delete-delete_example =
    preview_delete-delete digest identify policy access ("one" ∷ []) 10 20 true previewed_one
      approved_one registered
      (run-AllGood digest identify policy (register_of "one" ∷ register_of "two" ∷ []) empty refl)
      one_previewed refl refl

abbrev key : KeyRef
key = record {
  key_id = "k";
  tenant_id = "t";
  project_id = "p";
  purpose = "object-one";
  version = "1";
}

abbrev eraser : MemoryAccess
eraser = record {
  scope = scope;
  permissions = "lifecycle:register" ∷ "lifecycle:erase" ∷ [];
  clearance = internal;
}

abbrev erasure : ApprovalRecord
erasure = approval "data.erase" "report" "one" "1" "{}"

abbrev keyed : Lifecycle
keyed =
    run digest identify policy
      (register_call eraser "one" "report" "1" internal "{}"
          (record { instant = 1; has_offset = true }) (some 1) (some key)
        ∷ [])
      empty

cryptographic_erase_lem_example :
    Ends
      (Erases digest identify policy (λ k. true) eraser "one" erasure 86_400_000_002 keyed)
      (λ _ t. t ≡ keyed)
      (cryptographic_erase digest identify policy
        (λ k. true)
        eraser
        "one"
        erasure
        86_400_000_002
        keyed)
cryptographic_erase_lem_example =
    cryptographic_erase_lem digest identify policy (λ k. true) eraser "one" erasure 86_400_000_002
      keyed

-- The erasure of an object with its own key returns.
erase_run :
    (cryptographic_erase digest identify policy
      (λ k. true)
      eraser
      "one"
      erasure
      86_400_000_002
      keyed).1.revoked
    ≡ key ∷ []
unfolding run register delete apply_hold authorize is_valid_approval validate_approval load_each
    load_active is_held any_held deny_holds record_event same_scope same_key pure raise gets lift
    modify raise_if ◌>>=◌ without_dashes cryptographic_erase
erase_run = refl
