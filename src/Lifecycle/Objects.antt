-- ===== src/Lifecycle/Objects.antt =====
-- What the methods of `DataLifecycleService` in src/ndt_agents/lifecycle/service.py make of governed
-- objects.
use Prim.Native.Char.{code}
use ndt_agents.Base.{
  ℕ, Bool, true, false, ◌&&◌, ◌||◌, if◌then◌else◌, Option, none, some, List, [], ◌∷◌, String,
  str_eq, ltb, ◌==◌, length_within,
}
use ndt_agents.Result.{Result, ok, err, ◌>>=◌}
use ndt_agents.Dict.{lookup, insert}
use ndt_agents.Cache.Models.{TenantScope}
use ndt_agents.Lifecycle.Data.{
  deleted, LifecyclePolicy, KeyRef, GovernedObject, ExportRecord, LifecycleError, key_error,
}

-- The days that an object is kept for.
abbrev pub days_for : LifecyclePolicy → String → Option ℕ → ℕ
days_for policy object_type (some days) = days
days_for policy object_type none =
    if str_eq object_type "audit"
    then policy.audit_retention_days
    else policy.default_retention_days

-- `uuid.hex`.
unfoldable pub without_dashes : String → String
without_dashes String.[] = ""
without_dashes (String.◌∷◌ c s) =
    let rest = without_dashes s in if code c == b'-' then rest else String.◌∷◌ c rest

abbrev before : String → String → String
before String.[] t = t
before (String.◌∷◌ c s) t = String.◌∷◌ c (before s t)

abbrev pub has_object_key : GovernedObject → Option KeyRef → Bool
has_object_key g none = false
has_object_key g (some key) = str_eq key.purpose (before "object-" (without_dashes g.object_id))

abbrev is_own_key : TenantScope → Option KeyRef → Bool
is_own_key scope none = true
is_own_key scope (some key) =
    str_eq key.tenant_id scope.tenant_id && str_eq key.project_id scope.project_id

-- The bounds of a `GovernedObject` and `validate_object`, for a new object with its own digest.
abbrev pub is_valid_new : GovernedObject → Bool → Bool
is_valid_new g has_offset =
    length_within 1 128 g.object_type
    && (length_within 1 128 g.object_version
        && (has_offset
            && (ltb g.created_at g.retention_until && is_own_key g.scope g.encryption_key_ref)))

abbrev pub is_kept : ℕ → List GovernedObject → Bool
is_kept now [] = false
is_kept now (g ∷ gs) = ltb now g.retention_until || is_kept now gs

-- `item.content or {}`.
abbrev pub content_or_empty : Option String → String
content_or_empty none = "{}"
content_or_empty (some t) = t

abbrev pub export_records : List GovernedObject → List ExportRecord
export_records [] = []
export_records (g ∷ gs) =
    record {
      object_id = g.object_id;
      object_type = g.object_type;
      object_version = g.object_version;
      classification = g.classification;
      content = content_or_empty g.content;
      content_sha256 = g.content_sha256;
    }
    ∷ export_records gs

abbrev pub tombstone : ℕ → GovernedObject → GovernedObject
tombstone now g = record g { content = none; state = deleted; deleted_at = some now }

abbrev pub tombstones : ℕ → List GovernedObject → List GovernedObject
tombstones now [] = []
tombstones now (g ∷ gs) = tombstone now g ∷ tombstones now gs

abbrev pub put_each :
    List GovernedObject → List (String × GovernedObject) → List (String × GovernedObject)
put_each [] objects = objects
put_each (g ∷ gs) objects = put_each gs (insert str_eq g.object_id g objects)

-- `self._repository.objects[object_id]`.
abbrev pub or_key_error : {A : Type 0} → Option A → Result LifecycleError A
or_key_error none = err key_error
or_key_error (some a) = ok a

abbrev pub objects_at :
    List String → List (String × GovernedObject) → Result LifecycleError (List GovernedObject)
objects_at [] objects = ok []
objects_at (id ∷ ids) objects =
    or_key_error (lookup str_eq id objects) >>= λ g. objects_at ids objects >>= λ gs. ok (g ∷ gs)
