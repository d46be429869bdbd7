-- ===== src/Lifecycle/Data.antt =====
-- The contracts of src/ndt_agents/lifecycle/service.py, with what they use of `ApprovalRecord` and
-- `DataClassification` in src/ndt_agents/contracts/v1.py, of `MemoryAccess` in
-- src/ndt_agents/memory/models.py and of `KeyRef` in src/ndt_agents/security/models.py. Times are
-- microseconds, in UTC unless a `Datetime` says that it has no offset, and UUIDs are their texts. The
-- content of an object is the text of its canonical JSON.
use ndt_agents.Base.{ℕ, Bool, Option, List, String}
use ndt_agents.Exec.{Exec}
use ndt_agents.Cache.Models.{TenantScope}
use ndt_agents.Approval.Data.{ApprovalOutcome}

pub data DataClassification : Type 0 where
  public internal confidential restricted : DataClassification

pub data LifecycleState : Type 0 where
  active deleted crypto_erased : LifecycleState

pub data LegalHoldState : Type 0 where
  holding released : LegalHoldState

pub data LifecycleAction : Type 0 where
  registers exports deletes applies_hold releases_hold erases : LifecycleAction

pub record LifecyclePolicy : Type 0 where
  pub policy_version : String
  pub default_retention_days : ℕ
  pub audit_retention_days : ℕ

pub record KeyRef : Type 0 where
  pub key_id : String
  pub tenant_id : String
  pub project_id : String
  pub purpose : String
  pub version : String

pub record MemoryAccess : Type 0 where
  pub scope : TenantScope
  pub permissions : List String
  pub clearance : DataClassification

pub record GovernedObject : Type 0 where
  pub object_id : String
  pub scope : TenantScope
  pub object_type : String
  pub object_version : String
  pub classification : DataClassification
  pub content : Option String
  pub content_sha256 : String
  pub retention_until : ℕ
  pub encryption_key_ref : Option KeyRef
  pub state : LifecycleState
  pub deleted_at : Option ℕ
  pub crypto_erased_at : Option ℕ
  pub created_at : ℕ

pub record LegalHold : Type 0 where
  pub hold_id : String
  pub scope : TenantScope
  pub object_id : String
  pub reason : String
  pub state : LegalHoldState
  pub approval_id : String
  pub applied_at : ℕ
  pub released_at : Option ℕ

pub record DeletionPreview : Type 0 where
  pub preview_id : String
  pub preview_sha256 : String
  pub scope : TenantScope
  pub object_ids : List String
  pub object_hashes : List String
  pub force_before_retention : Bool
  pub created_at : ℕ

pub record ExportRecord : Type 0 where
  pub object_id : String
  pub object_type : String
  pub object_version : String
  pub classification : DataClassification
  pub content : String
  pub content_sha256 : String

pub record ExportBundle : Type 0 where
  pub scope : TenantScope
  pub records : List ExportRecord
  pub manifest_sha256 : String
  pub exported_at : ℕ

pub record LifecycleEvent : Type 0 where
  pub event_id : String
  pub scope : TenantScope
  pub action : LifecycleAction
  pub object_ids : List String
  pub input_sha256 : String
  pub outcome_sha256 : String
  pub approval_id : Option String
  pub occurred_at : ℕ

pub record ApprovalRecord : Type 0 where
  pub approval_id : String
  pub scope : TenantScope
  pub action : String
  pub target_type : String
  pub target_id : String
  pub target_version : String
  pub target_sha256 : String
  pub outcome : ApprovalOutcome
  pub decided_at : ℕ
  pub expires_at : Option ℕ

-- What SHA-256 is taken of, after `canonical_json_bytes`. The digest itself is the argument `digest`
-- of the definitions that use it.
pub data Payload : Type 0 where
  content_payload : String → Payload
  export_payload : List ExportRecord → Payload
  preview_payload : TenantScope → List String → List String → Bool → ℕ → String → Payload
  hold_payload : LegalHold → Payload
  input_payload : List (String × String) → Payload
  outcome_payload : List (String × LifecycleState) → Payload

-- The names that `uuid5` makes IDs of, by the argument `identify`.
pub data Name : Type 0 where
  delete_name : String → Name
  hold_name : String → String → Name
  event_name : LifecycleAction → String → Option String → ℕ → Name

-- The codes of `LifecycleError`; then a validator that fails, and a key that a dictionary lacks.
pub data LifecycleError : Type 0 where
  object_conflict retention_invalid retention_active scope_denied preview_stale object_key_required
        key_revocation_failed target_invalid classification_denied object_not_active
        legal_hold_active approval_invalid permission_denied validation_error key_error :
      LifecycleError

-- `InMemoryLifecycleRepository`, with the keys that its service has revoked, oldest first.
pub record Lifecycle : Type 0 where
  pub objects : List (String × GovernedObject)
  pub holds : List (String × LegalHold)
  pub events : List LifecycleEvent
  pub completed_previews : List (String × List String)
  pub revoked : List KeyRef

abbrev pub Governing : Type 0 → Type 0
Governing A = Exec Lifecycle LifecycleError A
