-- ===== src/Budget/Tools.antt =====
-- The tool calls, review rounds and concurrency slots of `BudgetGuard` in
-- src/ndt_agents/orchestration/budget.py. The UUID that `uuid4` returns is an argument, and so is
-- the hash of the arguments' canonical JSON: none where `json.dumps` raises.
use Prim.Native.Char.{code}
use Prim.Native.String.{◌++◌ as str_append, count as str_count}
use ndt_agents.Base.{
  ℕ, ◌+◌, ◌-◌, Bool, true, false, ◌&&◌, ◌||◌, not, Option, none, some, List, [], ◌∷◌, ◌++◌, String,
  max, leb, ◌==◌, str_eq, take_last, if◌then◌else◌,
}
use ndt_agents.Exec.{Result, ok, err, pure, raise, gets, raise_if, when, ◌>>=◌, ◌>>◌}
use ndt_agents.Budget.Policy.{
  tool_calls, professional_concurrency, review_rounds, correction_rounds,
}
use ndt_agents.Budget.Data.{
  ActionClass, validation, allowed, recorded, denied, review_round, correction_round,
  consumption_denied, identical_tool_call_denied, tool_call_denied, tool_call_started,
  tool_call_completed, tool_call_failed, professional_concurrency_denied,
  professional_slot_acquired, professional_slot_released, identical_tool_call, ContractCode,
  reservation_unknown, tool_identity_invalid, observation_hash_invalid, tool_arguments_invalid,
  contract, BudgetError, Guarded,
}
use ndt_agents.Budget.Stage.{increment}
use ndt_agents.Budget.Journal.{
  on_ledger, moved, one_action, one_retry, entry, record_event, raise_exceeded,
}
use ndt_agents.Budget.Checks.{ensure_capacity, check_time, authorize_action, consume}

abbrev is_hex : ℕ → Bool
is_hex c = (leb b'0' c && leb c b'9') || (leb b'a' c && leb c b'f')

unfoldable pub all_hex : String → Bool
all_hex String.[] = true
all_hex (String.◌∷◌ c s) = is_hex (code c) && all_hex s

-- `_is_sha256`.
unfoldable pub is_sha256 : String → Bool
unfolding all_hex
is_sha256 s = str_count s == 64 && all_hex s

-- `1 <= len(s) <= limit`.
abbrev has_length : ℕ → String → Bool
has_length limit s = leb 1 (str_count s) && leb (str_count s) limit

-- `(signature, observation_sha256) in self._action_history`.
unfoldable pub in_history : String × String → List (String × String) → Bool
in_history a [] = false
in_history a (b ∷ rest) = (str_eq a.0 b.0 && str_eq a.1 b.1) || in_history a rest

-- `history.append(a)`, and then `history[-10:]`.
unfoldable pub remember : String × String → List (String × String) → List (String × String)
remember a history = take_last 10 (history ++ a ∷ [])

-- `f"{tool_name}@{tool_version}:{arguments_sha256}"`.
unfoldable pub signature_of : String → String → String → String
signature_of name version sha =
    str_append name (str_append "@" (str_append version (str_append ":" sha)))

abbrev or_contract : Option String → ContractCode → Guarded String
or_contract none c = raise (contract c)
or_contract (some s) c = pure s

-- `reservation_id in self._tool_reservations`, and `remove`.
unfoldable pub has_reservation : ℕ → List ℕ → Bool
has_reservation id [] = false
has_reservation id (k ∷ rest) = k == id || has_reservation id rest

unfoldable pub remove_reservation : ℕ → List ℕ → List ℕ
remove_reservation id [] = []
remove_reservation id (k ∷ rest) = if k == id then rest else k ∷ remove_reservation id rest

-- `add`, to a set that is kept as a list.
unfoldable pub add_reservation : ℕ → List ℕ → List ℕ
add_reservation id ids = if has_reservation id ids then ids else id ∷ ids

-- The part of `begin_tool_call` behind its checks.
unfoldable pub start_tool_call : ℕ → String → String → Bool → Guarded ℕ
start_tool_call reservation_id signature observation retry = do
  before ← gets (λ s. s.ledger.counts.tool_calls)
  on_ledger (increment tool_calls 1)
  on_ledger one_action
  when retry (on_ledger one_retry)
  on_ledger (λ l. record l { action_history = remember (signature, observation) l.action_history })
  on_ledger
      (λ l. record l { tool_reservations = add_reservation reservation_id l.tool_reservations })
  record_event (record (moved (entry tool_call_started allowed) tool_calls 1 before (before + 1)) {
    action_signature = some signature;
    observation_sha256 = some observation;
  })
  pure reservation_id

-- A call that repeats a remembered one is denied.
unfoldable pub deny_identical : String → Guarded Unit
deny_identical signature = do
  record_event (record (entry identical_tool_call_denied denied) {
    dimension = some tool_calls;
    error_code = some identical_tool_call;
    action_signature = some signature;
  })
  raise_exceeded identical_tool_call

unfoldable pub begin_tool_call :
    ℕ → String → String → Option String → String → Bool → ActionClass → Guarded ℕ
begin_tool_call reservation_id name version arguments_sha256 observation retry c = do
  check_time
  raise_if (not (has_length 128 name && has_length 64 version)) (contract tool_identity_invalid)
  raise_if (not (is_sha256 observation)) (contract observation_hash_invalid)
  sha ← or_contract arguments_sha256 tool_arguments_invalid
  let signature = signature_of name version sha
  repeated ← gets (λ s. in_history (signature, observation) s.ledger.action_history)
  when repeated (deny_identical signature)
  ensure_capacity tool_calls 1 tool_call_denied none
  authorize_action c
  start_tool_call reservation_id signature observation retry

unfoldable pub complete_tool_call : ℕ → Bool → Guarded Unit
complete_tool_call reservation_id success = do
  known ← gets (λ s. has_reservation reservation_id s.ledger.tool_reservations)
  raise_if (not known) (contract reservation_unknown)
  on_ledger
      (λ l. record l { tool_reservations = remove_reservation reservation_id l.tool_reservations })
  when (not success) (on_ledger (λ l. record l { tool_failures = l.tool_failures + 1 }))
  record_event (entry (if success then tool_call_completed else tool_call_failed) recorded)

unfoldable pub record_review : Guarded Unit
record_review = do
  ensure_capacity review_rounds 1 (consumption_denied review_round) none
  authorize_action validation
  consume review_rounds 1 review_round true

unfoldable pub record_correction : Guarded Unit
record_correction = do
  ensure_capacity correction_rounds 1 (consumption_denied correction_round) none
  authorize_action validation
  consume correction_rounds 1 correction_round true

-- `professional_slot` up to its `yield`.
unfoldable pub acquire_slot : Guarded Unit
acquire_slot = do
  check_time
  ensure_capacity professional_concurrency 1 professional_concurrency_denied none
  before ← gets (λ s. s.ledger.counts.professional_concurrency)
  on_ledger (increment professional_concurrency 1)
  on_ledger (λ l. record l {
    peak_concurrency = max l.peak_concurrency l.counts.professional_concurrency;
  })
  record_event (
      moved (entry professional_slot_acquired allowed) professional_concurrency 1 before
        (before + 1))

-- Its `finally` block. The count is at least 1 here, since this slot is held.
unfoldable pub release_slot : Guarded Unit
release_slot = do
  before ← gets (λ s. s.ledger.counts.professional_concurrency)
  on_ledger (λ l. record l {
    counts = record l.counts { professional_concurrency = l.counts.professional_concurrency - 1 };
  })
  record_event (
      moved (entry professional_slot_released recorded) professional_concurrency 0 before
        (before - 1))

-- `try: m finally: n`.
abbrev pub finish_with :
    {A : Type 0} → Result BudgetError A → Result BudgetError (Unit {0}) → Result BudgetError A
finish_with r (ok u) = r
finish_with r (err e) = err e

-- `async with guard.professional_slot(): body`.
unfoldable pub with_professional_slot : {A : Type 0} → Guarded A → Guarded A
with_professional_slot body = do
  acquire_slot
  λ s.
      let (r, s') = body s in let (released, s'') = release_slot s' in (finish_with r released, s'')
