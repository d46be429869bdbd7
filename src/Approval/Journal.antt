-- ===== src/Approval/Journal.antt =====
-- `InMemoryApprovalRepository` of src/ndt_agents/approval/service.py: chains of events, one for each
-- approval of a project, and an index by event ID. Its lock makes each method one step.
use ndt_agents.Base.{
  ℕ, suc, ◌+◌, Bool, ◌&&◌, if◌then◌else◌, Option, none, some, List, [], ◌∷◌, ◌++◌, String, str_eq,
  ◌==◌, length,
}
use ndt_agents.Result.{Result, ok, err, ◌>>=◌}
use ndt_agents.Dict.{lookup, insert}
use ndt_agents.Cache.Models.{TenantScope}
use ndt_agents.Cache.Backend.{same_key}
use ndt_agents.Approval.Data.{
  ApprovalEventType, candidate_event, delegation_event, decision_event, resume_event, Payload,
  ApprovalEvent, Content, payload_content, event_content, ApprovalError,
  approval_idempotency_conflict, approval_scope_mismatch, approval_chain_invalid, Repository,
}

abbrev pub new_repository : Repository
new_repository = record { events = []; by_id = [] }

abbrev pub zero_sha256 : String
zero_sha256 = "0000000000000000000000000000000000000000000000000000000000000000"

-- `_project_key`.
abbrev pub project_key : TenantScope → List String
project_key scope = scope.tenant_id ∷ scope.project_id ∷ []

-- `(*_project_key(scope), approval_id)`.
abbrev pub chain_key : TenantScope → String → List String
chain_key scope approval_id = scope.tenant_id ∷ scope.project_id ∷ approval_id ∷ []

abbrev event_index : ApprovalEventType → ℕ
event_index candidate_event = 0
event_index delegation_event = 1
event_index decision_event = 2
event_index resume_event = 3

-- `is` between members of the enumeration.
abbrev pub same_event_type : ApprovalEventType → ApprovalEventType → Bool
same_event_type a b = event_index a == event_index b

abbrev pub or_empty : Option (List ApprovalEvent) → List ApprovalEvent
or_empty none = []
or_empty (some chain) = chain

-- `self._events.get(key, ())`.
unfoldable pub chain_of : List String → Repository → List ApprovalEvent
chain_of key r = or_empty (lookup same_key key r.events)

-- `chain[-1].event_sha256 if chain else ZERO_SHA256`, after an event whose digest is `before`.
unfoldable pub last_sha256 : String → List ApprovalEvent → String
last_sha256 before [] = before
last_sha256 before (e ∷ events) = last_sha256 e.event_sha256 events

-- The arguments of `append`.
pub record Appending : Type 0 where
  pub event_id : String
  pub approval_id : String
  pub scope : TenantScope
  pub event_type : ApprovalEventType
  pub payload : Payload
  pub created_at : ℕ

module _ (digest : Content → String) where
  -- The digest of `event_data`, which has every field of the event but its own digest.
  unfoldable pub event_digest : ApprovalEvent → String
  event_digest e = digest (event_content (record e { event_sha256 = "" }))

  -- The event that follows a chain.
  unfoldable pub next_event : Appending → List ApprovalEvent → ApprovalEvent
  unfolding event_digest last_sha256
  next_event a chain =
      let event : ApprovalEvent = record {
        event_id = a.event_id;
        approval_id = a.approval_id;
        scope = a.scope;
        sequence = length chain + 1;
        event_type = a.event_type;
        payload = a.payload;
        payload_sha256 = digest (payload_content a.payload);
        previous_sha256 = last_sha256 zero_sha256 chain;
        event_sha256 = "";
        created_at = a.created_at;
      } in
      record event { event_sha256 = event_digest event }

  -- The event under the ID is the one that is to be appended.
  unfoldable pub is_same_event : ApprovalEvent → Appending → Bool
  is_same_event e a =
      str_eq e.approval_id a.approval_id
      && (same_key (project_key e.scope) (project_key a.scope)
          && (same_event_type e.event_type a.event_type
              && str_eq e.payload_sha256 (digest (payload_content a.payload))))

  -- What `append` does once it has looked for the ID.
  abbrev pub append_over :
      Option ApprovalEvent
      → Appending
      → Repository
      → Result ApprovalError (ApprovalEvent × Repository)
  append_over (some e) a r =
      if is_same_event e a then ok (e, r) else err approval_idempotency_conflict
  append_over none a r =
      let key = chain_key a.scope a.approval_id in
      let event = next_event a (chain_of key r) in
      ok (
        event,
        record {
          events = insert same_key key (chain_of key r ++ event ∷ []) r.events;
          by_id = insert str_eq a.event_id event r.by_id;
        },
      )

  unfoldable pub append : Appending → Repository → Result ApprovalError (ApprovalEvent × Repository)
  append a r = append_over (lookup str_eq a.event_id r.by_id) a r

  -- The condition that `verify` demands of an event, with its number and the digest before it.
  unfoldable pub is_linked : ℕ → String → ApprovalEvent → Bool
  unfolding event_digest
  is_linked sequence previous e =
      (e.sequence == sequence)
      && (str_eq e.previous_sha256 previous
          && (str_eq e.payload_sha256 (digest (payload_content e.payload))
              && str_eq e.event_sha256 (event_digest e)))

  -- The loop of `verify`.
  unfoldable pub verify_from : ℕ → String → List ApprovalEvent → Result ApprovalError Unit
  unfolding is_linked
  verify_from sequence previous [] = ok tt
  verify_from sequence previous (e ∷ events) =
      let rest = verify_from (suc sequence) e.event_sha256 events in
      if is_linked sequence previous e then rest else err approval_chain_invalid

  unfoldable pub verify : List ApprovalEvent → Result ApprovalError Unit
  unfolding verify_from
  verify events = verify_from 1 zero_sha256 events

  -- `list`.
  unfoldable pub list_events :
      TenantScope → String → Repository → Result ApprovalError (List ApprovalEvent)
  unfolding chain_of verify
  list_events scope approval_id r =
      let chain = chain_of (chain_key scope approval_id) r in verify chain >>= λ _. ok chain

abbrev pub in_project :
    TenantScope → Option ApprovalEvent → Result ApprovalError (Option ApprovalEvent)
in_project scope none = ok none
in_project scope (some e) =
    if same_key (project_key e.scope) (project_key scope)
    then ok (some e)
    else err approval_scope_mismatch

-- `get`.
unfoldable pub get_event :
    TenantScope → String → Repository → Result ApprovalError (Option ApprovalEvent)
get_event scope event_id r = in_project scope (lookup str_eq event_id r.by_id)
