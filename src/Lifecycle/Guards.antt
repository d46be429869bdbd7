-- ===== src/Lifecycle/Guards.antt =====
-- The checks of `DataLifecycleService` in src/ndt_agents/lifecycle/service.py, and its events.
use ndt_agents.Base.{
  ℕ, Bool, true, false, ◌&&◌, ◌||◌, not, if◌then◌else◌, Option, none, some, List, [], ◌∷◌, ◌++◌,
  String, str_eq, has, ltb, leb,
}
use ndt_agents.Result.{◌>>=◌}
use ndt_agents.Exec.{Result, ok, err, modify, raise_if}
use ndt_agents.Dict.{lookup}
use ndt_agents.Cache.Models.{TenantScope}
use ndt_agents.Scheduler.Data.{same_scope}
use ndt_agents.Scheduler.Validation.{are_distinct}
use ndt_agents.Approval.State.{is_approval}
use ndt_agents.Lifecycle.Data.{
  DataClassification, public, internal, confidential, restricted, LifecycleState, active,
  LegalHoldState, holding, LifecycleAction, MemoryAccess, GovernedObject, LegalHold, ApprovalRecord,
  Payload, input_payload, outcome_payload, Name, event_name, LifecycleError, scope_denied,
  target_invalid, classification_denied, object_not_active, legal_hold_active, approval_invalid,
  permission_denied, Governing,
}

-- `_CLASSIFICATION`.
abbrev pub level : DataClassification → ℕ
level public = 0
level internal = 1
level confidential = 2
level restricted = 3

abbrev pub is_active : LifecycleState → Bool
is_active active = true
is_active s = false

abbrev pub is_holding : LegalHoldState → Bool
is_holding holding = true
is_holding s = false

-- `_authorize`, of the whole name of the permission.
unfoldable pub authorize : MemoryAccess → String → Governing Unit
authorize access permission = raise_if (not (has permission access.permissions)) permission_denied

abbrev is_later : ℕ → Option ℕ → Bool
is_later now none = true
is_later now (some end) = ltb now end

-- The condition of `_validate_approval`.
unfoldable pub is_valid_approval :
    ApprovalRecord → TenantScope → String → String → String → String → String → ℕ → Bool
unfolding same_scope
is_valid_approval a scope action target_type target_id target_version target_sha256 now =
    same_scope a.scope scope
    && (str_eq a.action action
        && (str_eq a.target_type target_type
            && (str_eq a.target_id target_id
                && (str_eq a.target_version target_version
                    && (str_eq a.target_sha256 target_sha256
                        && (is_approval a.outcome
                            && (leb a.decided_at now && is_later now a.expires_at)))))))

-- `_validate_approval`.
unfoldable pub validate_approval :
    ApprovalRecord → TenantScope → String → String → String → String → String → ℕ → Governing Unit
unfolding is_valid_approval
validate_approval a scope action target_type target_id target_version target_sha256 now =
    raise_if
      (not
        (is_valid_approval a scope action target_type target_id target_version target_sha256 now))
      approval_invalid

-- One turn of the loop of `_load_active`.
abbrev pub load_found : MemoryAccess → Option GovernedObject → Result LifecycleError GovernedObject
load_found access none = err scope_denied
load_found access (some g) =
    if not (same_scope access.scope g.scope)
    then err scope_denied
    else if ltb (level access.clearance) (level g.classification)
    then err classification_denied
    else if not (is_active g.state)
    then err object_not_active
    else ok g

unfoldable pub load_each :
    MemoryAccess
    → List (String × GovernedObject)
    → List String
    → Result LifecycleError (List GovernedObject)
load_each access objects [] = ok []
load_each access objects (id ∷ ids) = load_found access (lookup str_eq id objects) >>= λ g.
    load_each access objects ids >>= λ gs. ok (g ∷ gs)

abbrev pub is_target_set : List String → Bool
is_target_set [] = false
is_target_set (id ∷ ids) = are_distinct (id ∷ ids)

abbrev pub load :
    MemoryAccess
    → List (String × GovernedObject)
    → List String
    → Result LifecycleError (List GovernedObject)
load access objects ids =
    if not (is_target_set ids) then err target_invalid else load_each access objects ids

-- `_load_active`.
unfoldable pub load_active : MemoryAccess → List String → Governing (List GovernedObject)
unfolding load_each
load_active access ids s = (load access s.objects ids, s)

-- Some hold is active on the object.
unfoldable pub is_held : String → List (String × LegalHold) → Bool
is_held id [] = false
is_held id ((k, h) ∷ holds) = (is_holding h.state && str_eq h.object_id id) || is_held id holds

unfoldable pub any_held : List GovernedObject → List (String × LegalHold) → Bool
unfolding is_held
any_held [] holds = false
any_held (g ∷ gs) holds = is_held g.object_id holds || any_held gs holds

-- `_deny_holds`.
unfoldable pub deny_holds : List GovernedObject → Governing Unit
unfolding any_held
deny_holds gs s = raise_if (any_held gs s.holds) legal_hold_active s

abbrev pub object_ids : List GovernedObject → List String
object_ids [] = []
object_ids (g ∷ gs) = g.object_id ∷ object_ids gs

abbrev pub object_hashes : List GovernedObject → List String
object_hashes [] = []
object_hashes (g ∷ gs) = g.content_sha256 ∷ object_hashes gs

abbrev inputs : List GovernedObject → List (String × String)
inputs [] = []
inputs (g ∷ gs) = (g.object_id, g.content_sha256) ∷ inputs gs

abbrev outcomes : List GovernedObject → List (String × LifecycleState)
outcomes [] = []
outcomes (g ∷ gs) = (g.object_id, g.state) ∷ outcomes gs

module _ (digest : Payload → String) (identify : Name → String) where
  -- `_event`.
  unfoldable pub record_event :
      TenantScope → LifecycleAction → List GovernedObject → Option String → ℕ → Governing Unit
  record_event scope action objects approval_id now =
      let input = digest (input_payload (inputs objects)) in
      modify (λ s. record s {
        events =
            s.events
            ++ record {
              event_id = identify (event_name action input approval_id now);
              scope = scope;
              action = action;
              object_ids = object_ids objects;
              input_sha256 = input;
              outcome_sha256 = digest (outcome_payload (outcomes objects));
              approval_id = approval_id;
              occurred_at = now;
            }
              ∷ [];
      })
