-- ===== src/Budget/Tests.antt =====
-- Runs of the budget guard at concrete inputs, and the theorems applied to them.
use ndt_agents.Base.{ℕ, ◌≡◌, refl, true, false, none, some, [], ◌∷◌, String, pos, arith}
use ndt_agents.Exec.{ok, pure, raise, gets, modify, raise_if, when, ◌>>=◌}
use ndt_agents.Budget.Policy.{
  Dimension, Limit, k1, BudgetPolicy, IsValidPolicy, limit_of, llm_calls, make_limit, set_limit,
}
use ndt_agents.Budget.Policy.Defaults.{default_budget_policy}
use ndt_agents.Budget.Policy.Elevation.{
  human_approval, BudgetElevationAuthority, BudgetElevationRecord, elevate_budget_policy,
  elevate_all, elevated_limit,
}
use ndt_agents.Budget.Policy.Laws.{
  DefaultsTo, default_budget_policy-DefaultsTo, Elevates, requested, elevate-Elevates,
}
use ndt_agents.Budget.Data.{
  Guarded, contract, reservation_unknown, standard, low_value, Clock, BudgetGuard,
}
use ndt_agents.Budget.Stage.{
  degradation_stage, count, set_count, increment, usage, ratios, max_ratio, stage_of_ratio,
}
use ndt_agents.Budget.Journal.{
  telemetry, read_clock, elapsed_ms, counters_of, event_of, record_event, raise_exceeded, on_ledger,
}
use ndt_agents.Budget.Checks.{
  stage_denies, deny_with, ensure_capacity, ensure_token_capacity, check_time, class_value,
  authorize_action,
}
use ndt_agents.Budget.Calls.{find_reservation, begin_llm_call, complete_llm_call, put_reservation}
use ndt_agents.Budget.Tools.{
  with_professional_slot, begin_tool_call, all_hex, is_sha256, in_history, remember, signature_of,
  add_reservation, start_tool_call, deny_identical,
}
use ndt_agents.Budget.Restore.{new_guard, empty_ledger}
use ndt_agents.Budget.View.{NumberedFrom}
use ndt_agents.Budget.Sound.{total}
use ndt_agents.Budget.Sound.Runs.{
  Reach, here, next, begins_llm, begins_tool, after, new_guard-IsValid, Reach-IsValid,
}
use ndt_agents.Budget.Limits.{
  SpendsWithin, spends_within, books_balance, some_used, stage_denies-degradation_stage,
}
use ndt_agents.Budget.Denials.{
  Unchanged, Denied, begin_llm_call-Unchanged, begin_tool_call-Unchanged, repeat-Denied,
}
use ndt_agents.Budget.Restored.{RestoredBy, telemetry-from_telemetry}
use ndt_agents.Budget.Slots.{Holds, with_professional_slot-Holds}
use ndt_agents.Budget.Settlement.{Settles, complete_llm_call-Settles}

abbrev limit : ℕ → ℕ → Limit
limit active hard = record { default = active; active = active; hard = hard }

abbrev policy : BudgetPolicy
policy = record {
  policy_id = "p";
  task_class = k1;
  graph_steps = limit 10 20;
  llm_calls = limit 3 6;
  tool_calls = limit 5 9;
  total_tokens = limit 1000 2000;
  wall_time_ms = limit 100_000 200_000;
  professional_concurrency = limit 2 4;
  review_rounds = limit 1 2;
  correction_rounds = limit 1 2;
}

abbrev clock : Clock
clock = record { at = λ n. n; reads = 0 }

abbrev start : BudgetGuard
start = new_guard policy clock

abbrev called : BudgetGuard
called = after (begin_llm_call 7 (pos 100) false standard) start

abbrev sha : String
sha = "0123456789abcdef0123456789abcdef0123456789abcdef0123456789abcdef"

abbrev tooled : BudgetGuard
tooled = after (begin_tool_call 8 "t" "1" (some sha) sha false standard) start

start_fresh : find_reservation 7 start.ledger.llm_reservations ≡ none
unfolding find_reservation new_guard empty_ledger
start_fresh = refl

called_found : find_reservation 7 called.ledger.llm_reservations ≡ some 100
unfolding pure raise gets modify raise_if when ◌>>=◌ count set_count increment usage ratios
    max_ratio stage_of_ratio degradation_stage read_clock elapsed_ms counters_of telemetry event_of
    record_event raise_exceeded on_ledger deny_with ensure_capacity ensure_token_capacity check_time
    stage_denies class_value authorize_action put_reservation find_reservation begin_llm_call
    all_hex is_sha256 in_history remember signature_of add_reservation start_tool_call
    deny_identical begin_tool_call empty_ledger new_guard limit_of
called_found = refl

tooled_begun : (begin_tool_call 8 "t" "1" (some sha) sha false standard start).0 ≡ ok 8
unfolding pure raise gets modify raise_if when ◌>>=◌ count set_count increment usage ratios
    max_ratio stage_of_ratio degradation_stage read_clock elapsed_ms counters_of telemetry event_of
    record_event raise_exceeded on_ledger deny_with ensure_capacity ensure_token_capacity check_time
    stage_denies class_value authorize_action put_reservation find_reservation begin_llm_call
    all_hex is_sha256 in_history remember signature_of add_reservation start_tool_call
    deny_identical begin_tool_call empty_ledger new_guard limit_of
tooled_begun = refl

tooled_free : tooled.ledger.counts.professional_concurrency ≡ 0
unfolding pure raise gets modify raise_if when ◌>>=◌ count set_count increment usage ratios
    max_ratio stage_of_ratio degradation_stage read_clock elapsed_ms counters_of telemetry event_of
    record_event raise_exceeded on_ledger deny_with ensure_capacity ensure_token_capacity check_time
    stage_denies class_value authorize_action put_reservation find_reservation begin_llm_call
    all_hex is_sha256 in_history remember signature_of add_reservation start_tool_call
    deny_identical begin_tool_call empty_ledger new_guard limit_of
tooled_free = refl

tooled_unreserved : tooled.ledger.reserved_tokens ≡ 0
unfolding pure raise gets modify raise_if when ◌>>=◌ count set_count increment usage ratios
    max_ratio stage_of_ratio degradation_stage read_clock elapsed_ms counters_of telemetry event_of
    record_event raise_exceeded on_ledger deny_with ensure_capacity ensure_token_capacity check_time
    stage_denies class_value authorize_action put_reservation find_reservation begin_llm_call
    all_hex is_sha256 in_history remember signature_of add_reservation start_tool_call
    deny_identical begin_tool_call empty_ledger new_guard limit_of
tooled_unreserved = refl

tooled_remembers : tooled.ledger.action_history ≡ (signature_of "t" "1" sha, sha) ∷ []
unfolding pure raise gets modify raise_if when ◌>>=◌ count set_count increment usage ratios
    max_ratio stage_of_ratio degradation_stage read_clock elapsed_ms counters_of telemetry event_of
    record_event raise_exceeded on_ledger deny_with ensure_capacity ensure_token_capacity check_time
    stage_denies class_value authorize_action put_reservation find_reservation begin_llm_call
    all_hex is_sha256 in_history remember signature_of add_reservation start_tool_call
    deny_identical begin_tool_call empty_ledger new_guard limit_of
tooled_remembers = refl

reaches_called : Reach start called
reaches_called = next here (begins_llm 7 (pos 100) false standard start_fresh refl)

reaches_tooled : Reach start tooled
reaches_tooled = next here (begins_tool 8 "t" "1" (some sha) sha false standard refl)

spends_within_example : SpendsWithin policy called
spends_within_example = spends_within policy clock called reaches_called

books_balance_example :
    (called.ledger.reserved_tokens ≡ total called.ledger.llm_reservations)
    × NumberedFrom 0 called.events
books_balance_example = books_balance policy clock called reaches_called

telemetry-from_telemetry_example : RestoredBy tooled clock (telemetry tooled).0
telemetry-from_telemetry_example =
    telemetry-from_telemetry policy clock clock tooled reaches_tooled tooled_free tooled_unreserved

repeat-Denied_example :
    Denied tooled (begin_tool_call 9 "t" "1" (some sha) sha true low_value tooled)
repeat-Denied_example =
    repeat-Denied policy start 8 9 8 "t" "1" sha sha false true standard low_value
      (new_guard-IsValid policy clock) tooled_begun

complete_llm_call-Settles_example :
    Settles 100 70 true called.ledger (complete_llm_call 7 (pos 60) (pos 10) true called)
complete_llm_call-Settles_example =
    complete_llm_call-Settles policy called 7 100 (pos 60) (pos 10) true
      (Reach-IsValid (new_guard-IsValid policy clock) reaches_called) called_found refl

begin_llm_call-Unchanged_example : Unchanged start (begin_llm_call 7 (pos 5000) true standard start)
begin_llm_call-Unchanged_example =
    begin_llm_call-Unchanged policy start 7 (pos 5000) true standard
      (new_guard-IsValid policy clock) start_fresh

begin_tool_call-Unchanged_example :
    Unchanged start (begin_tool_call 8 "t" "1" none sha false standard start)
begin_tool_call-Unchanged_example =
    begin_tool_call-Unchanged policy start 8 "t" "1" none sha false standard
      (new_guard-IsValid policy clock)

stage_denies-degradation_stage_example :
    stage_denies (degradation_stage policy start.ledger 72_000) low_value
    ≡ some_used 70 policy start.ledger 72_000
stage_denies-degradation_stage_example =
    stage_denies-degradation_stage policy start.ledger 72_000 low_value

default_budget_policy-DefaultsTo_example :
    DefaultsTo k1 Dimension.tool_calls (default_budget_policy k1 (pos 40))
default_budget_policy-DefaultsTo_example =
    default_budget_policy-DefaultsTo k1 (pos 40) Dimension.tool_calls refl

abbrev authority : BudgetElevationAuthority
authority = record { kind = human_approval; reference_id = "approval-1" }

abbrev elevated : BudgetElevationRecord
elevated = record {
  source_policy_id = "p";
  elevated_policy = record policy {
    policy_id = "q";
    llm_calls = record (limit 3 6) { active = 5 };
  };
  authority = authority;
  active_limits = (llm_calls, pos 5) ∷ [];
}

elevates : elevate_budget_policy policy "q" ((llm_calls, pos 5) ∷ []) authority ≡ ok elevated
unfolding elevate_budget_policy elevate_all elevated_limit make_limit limit_of set_limit
elevates = refl

policy-IsValidPolicy : IsValidPolicy policy
unfolding limit_of
policy-IsValidPolicy Dimension.graph_steps = record {
  below_active = omega arith;
  below_hard = omega arith;
}
policy-IsValidPolicy d = record { below_active = ground arith; below_hard = ground arith }

elevate-Elevates_example :
    Elevates
      (limit_of policy llm_calls)
      (requested llm_calls ((llm_calls, pos 5) ∷ []) (pos (limit_of policy llm_calls).active))
      (limit_of elevated.elevated_policy llm_calls)
elevate-Elevates_example =
    elevate-Elevates policy "q" ((llm_calls, pos 5) ∷ []) authority policy-IsValidPolicy elevates
      llm_calls

-- A body that raises.
abbrev failing : Guarded (Unit {0})
failing = raise (contract reservation_unknown)

failing_keeps : (t : BudgetGuard) → Holds policy 1 t → Holds policy 1 (after failing t)
unfolding raise
failing_keeps t h = h

start-Holds : Holds policy 0 start
unfolding new_guard empty_ledger
start-Holds = (new_guard-IsValid policy clock, refl)

with_professional_slot-Holds_example : Holds policy 0 (after (with_professional_slot failing) start)
with_professional_slot-Holds_example =
    with_professional_slot-Holds policy 0 failing start failing_keeps start-Holds
