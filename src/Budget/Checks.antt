-- ===== src/Budget/Checks.antt =====
-- The checks of `BudgetGuard` that may deny a call, in src/ndt_agents/orchestration/budget.py.
use mathlib.Core.Option.{get_or}
use ndt_agents.Base.{
  ℕ, ◌+◌, Bool, true, false, not, Option, none, some, String, ltb, leb, if◌then◌else◌,
}
use ndt_agents.Exec.{pure, gets, when, ◌>>=◌, ◌>>◌}
use ndt_agents.Budget.Policy.{Dimension, total_tokens, wall_time_ms, Limit, limit_of}
use ndt_agents.Budget.Data.{
  ActionClass, low_value, query_expansion, standard, validation, finalization, DegradationStage,
  normal, reduce_low_value, stop_expansion, finalize_only, stopped, allowed, denied, Consumption,
  EventType, consumed, consumption_denied, degradation_action_denied, wall_time_denied, Code,
  hard_limit_exceeded, active_limit_exceeded, hard_time_exceeded, active_time_exceeded, degradation,
  Guarded,
}
use ndt_agents.Budget.Stage.{count, increment, degradation_stage}
use ndt_agents.Budget.Journal.{
  on_ledger, one_action, elapsed_ms, Entry, entry, record_event, raise_exceeded,
}

-- `if code is not None:` record the denial and raise.
unfoldable pub deny_with : Option Code → Entry → Guarded Unit
deny_with none e = pure tt
deny_with (some code) e = do record_event (record e { error_code = some code }); raise_exceeded code

-- The code of a projected amount that passes a limit.
abbrev pub capacity_code : Limit → ℕ → Option Code
capacity_code limit projected =
    if ltb limit.hard projected
    then some hard_limit_exceeded
    else if ltb limit.active projected
    then some active_limit_exceeded
    else none

-- `_ensure_capacity`.
unfoldable pub ensure_capacity : Dimension → ℕ → EventType → Option ℕ → Guarded Unit
ensure_capacity d amount event_type current_override = do
  p ← gets (λ s. s.policy)
  l ← gets (λ s. s.ledger)
  let current = get_or current_override (count l.counts d)
  deny_with (capacity_code (limit_of p d) (current + amount)) (record (entry event_type denied) {
    dimension = some d;
    amount = amount;
    before = current;
    after = current;
  })

-- `_ensure_token_capacity`.
unfoldable pub ensure_token_capacity : ℕ → EventType → Guarded Unit
ensure_token_capacity amount event_type = do
  l ← gets (λ s. s.ledger)
  ensure_capacity total_tokens amount event_type (some (l.counts.total_tokens + l.reserved_tokens))

abbrev pub time_code : Limit → ℕ → Option Code
time_code limit elapsed =
    if leb limit.hard elapsed
    then some hard_time_exceeded
    else if leb limit.active elapsed
    then some active_time_exceeded
    else none

-- `_check_time`.
unfoldable pub check_time : Guarded Unit
check_time = do
  elapsed ← elapsed_ms
  p ← gets (λ s. s.policy)
  deny_with (time_code p.wall_time_ms elapsed) (record (entry wall_time_denied denied) {
    dimension = some wall_time_ms;
    before = elapsed;
    after = elapsed;
  })

abbrev is_closing : ActionClass → Bool
is_closing validation = true
is_closing finalization = true
is_closing c = false

-- Whether a stage denies an action class.
unfoldable pub stage_denies : DegradationStage → ActionClass → Bool
stage_denies stopped c = not (is_closing c)
stage_denies finalize_only c = not (is_closing c)
stage_denies stop_expansion low_value = true
stage_denies stop_expansion query_expansion = true
stage_denies stop_expansion c = false
stage_denies reduce_low_value low_value = true
stage_denies reduce_low_value c = false
stage_denies normal c = false

-- The value of an action class.
unfoldable pub class_value : ActionClass → String
class_value low_value = "LOW_VALUE"
class_value query_expansion = "QUERY_EXPANSION"
class_value standard = "STANDARD"
class_value validation = "VALIDATION"
class_value finalization = "FINALIZATION"

-- The code of a denied stage, or none.
abbrev pub stage_code : DegradationStage → ActionClass → Option Code
stage_code stage c = if stage_denies stage c then some (degradation stage) else none

unfoldable pub authorize_action : ActionClass → Guarded Unit
authorize_action c = do
  check_time
  elapsed ← elapsed_ms
  p ← gets (λ s. s.policy)
  l ← gets (λ s. s.ledger)
  deny_with (stage_code (degradation_stage p l elapsed) c)
      (record (entry degradation_action_denied denied) { action_signature = some (class_value c) })

-- `_consume`.
unfoldable pub consume : Dimension → ℕ → Consumption → Bool → Guarded Unit
consume d amount what logical = do
  check_time
  ensure_capacity d amount (consumption_denied what) none
  before ← gets (λ s. count s.ledger.counts d)
  on_ledger (increment d amount)
  when logical (on_ledger one_action)
  record_event (record (entry (consumed what) allowed) {
    dimension = some d;
    amount = amount;
    before = before;
    after = before + amount;
  })
