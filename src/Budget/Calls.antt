-- ===== src/Budget/Calls.antt =====
-- The graph steps, cache lookups, terminal transitions and model calls of `BudgetGuard` in src/ndt_agents/orchestration/budget.py. The UUID that
-- `uuid4` returns is an argument of the call that draws one.
use ndt_agents.Base.{
  ℕ, ◌+◌, ◌-◌, Bool, true, ◌||◌, not, Option, none, some, List, [], ◌∷◌, ltb, leb, ◌==◌, ℤ,
  is_negative, pos_part, if◌then◌else◌,
}
use ndt_agents.Exec.{pure, raise, gets, raise_if, when, ◌>>=◌, ◌>>◌}
use ndt_agents.Budget.Policy.{graph_steps, llm_calls, total_tokens}
use ndt_agents.Budget.Data.{
  ActionClass, standard, allowed, recorded, denied, graph_step, cache_lookup, consumption_denied,
  graph_step_reservation_consumed, graph_steps_reservation_denied, graph_steps_reserved,
  graph_reservation_abandoned, graph_reservation_released, cache_hit, cache_miss,
  terminal_transition, terminal_budget_stop_transition, llm_call_denied,
  llm_token_reservation_denied, llm_call_reserved, llm_tokens_reserved,
  llm_token_reservation_exceeded, llm_call_completed, llm_call_failed, token_reservation_exceeded,
  graph_reservation_invalid, token_reservation_invalid, reservation_unknown, actual_tokens_invalid,
  contract, Guarded,
}
use ndt_agents.Budget.Stage.{increment}
use ndt_agents.Budget.Journal.{
  on_ledger, moved, one_action, one_retry, entry, record_event, raise_exceeded,
}
use ndt_agents.Budget.Checks.{
  ensure_capacity, ensure_token_capacity, check_time, authorize_action, consume,
}

-- The branch of `record_graph_step` that uses up a reserved step.
unfoldable pub consume_reserved_step : Guarded Unit
consume_reserved_step = do
  check_time
  before ← gets (λ s. s.ledger.counts.graph_steps)
  on_ledger (λ l. record l { reserved_graph_steps = l.reserved_graph_steps - 1 })
  on_ledger (increment graph_steps 1)
  on_ledger one_action
  record_event
      (moved (entry graph_step_reservation_consumed allowed) graph_steps 1 before (before + 1))

-- Its other branch.
unfoldable pub consume_new_step : ActionClass → Guarded Unit
consume_new_step c = do
  ensure_capacity graph_steps 1 (consumption_denied graph_step) none
  authorize_action c
  consume graph_steps 1 graph_step true

unfoldable pub record_graph_step : ActionClass → Guarded Unit
record_graph_step c = do
  reserved ← gets (λ s. s.ledger.reserved_graph_steps)
  if reserved == 0 then consume_new_step c else consume_reserved_step

-- `amount < 1`.
abbrev pub below_one : ℤ → Bool
below_one n = is_negative n || leb (pos_part n) 0

unfoldable pub reserve_graph_steps : ℤ → Guarded Unit
reserve_graph_steps n = do
  raise_if (below_one n) (contract graph_reservation_invalid)
  let amount = pos_part n
  check_time
  current ← gets (λ s. s.ledger.counts.graph_steps + s.ledger.reserved_graph_steps)
  ensure_capacity graph_steps amount graph_steps_reservation_denied (some current)
  authorize_action standard
  on_ledger (λ l. record l { reserved_graph_steps = l.reserved_graph_steps + amount })
  record_event
      (moved (entry graph_steps_reserved allowed) graph_steps amount current (current + amount))

unfoldable pub abandon_graph_reservation : Guarded Unit
abandon_graph_reservation = do
  amount ← gets (λ s. s.ledger.reserved_graph_steps)
  before ← gets (λ s. s.ledger.counts.graph_steps)
  when (not (amount == 0)) do
    on_ledger (λ l. record l { reserved_graph_steps = 0 })
    on_ledger (increment graph_steps amount)
    on_ledger (λ l. record l { logical_actions = l.logical_actions + amount })
    on_ledger one_retry
    record_event (
        moved (entry graph_reservation_abandoned recorded) graph_steps amount before
          (before + amount))

unfoldable pub release_graph_reservation : Guarded Unit
release_graph_reservation = do
  amount ← gets (λ s. s.ledger.reserved_graph_steps)
  current ← gets (λ s. s.ledger.counts.graph_steps + amount)
  when (not (amount == 0)) do
    on_ledger (λ l. record l { reserved_graph_steps = 0 })
    record_event (
        moved (entry graph_reservation_released recorded) graph_steps amount current
          (current - amount))

unfoldable pub record_cache_lookup : Bool → Guarded Unit
record_cache_lookup hit = do
  ensure_capacity graph_steps 1 (consumption_denied cache_lookup) none
  authorize_action standard
  consume graph_steps 1 cache_lookup true
  on_ledger (λ l. record l { cache_lookups = l.cache_lookups + 1 })
  when hit (on_ledger (λ l. record l { cache_hits = l.cache_hits + 1 }))
  record_event (entry (if hit then cache_hit else cache_miss) recorded)

unfoldable pub record_terminal_transition : Bool → Guarded Unit
record_terminal_transition budget_stop = do
  on_ledger (λ l. record l { terminal_transitions = l.terminal_transitions + 1 })
  when budget_stop
      (on_ledger (λ l. record l { terminal_budget_stops = l.terminal_budget_stops + 1 }))
  record_event (
      entry (if budget_stop then terminal_budget_stop_transition else terminal_transition) recorded)

-- `_llm_reservations[reservation_id] = n`: an entry of that key is written over where it stands.
unfoldable pub put_reservation : ℕ → ℕ → List (ℕ × ℕ) → List (ℕ × ℕ)
put_reservation id n [] = (id, n) ∷ []
put_reservation id n ((k, m) ∷ rest) =
    if k == id then (id, n) ∷ rest else (k, m) ∷ put_reservation id n rest

-- `_llm_reservations.get(reservation_id)`.
unfoldable pub find_reservation : ℕ → List (ℕ × ℕ) → Option ℕ
find_reservation id [] = none
find_reservation id ((k, m) ∷ rest) = if k == id then some m else find_reservation id rest

-- `_llm_reservations.pop(reservation_id)`.
unfoldable pub pop_reservation : ℕ → List (ℕ × ℕ) → List (ℕ × ℕ)
pop_reservation id [] = []
pop_reservation id ((k, m) ∷ rest) = if k == id then rest else (k, m) ∷ pop_reservation id rest

unfoldable pub begin_llm_call : ℕ → ℤ → Bool → ActionClass → Guarded ℕ
begin_llm_call reservation_id maximum_total_tokens retry c = do
  raise_if (below_one maximum_total_tokens) (contract token_reservation_invalid)
  let tokens = pos_part maximum_total_tokens
  check_time
  ensure_capacity llm_calls 1 llm_call_denied none
  ensure_token_capacity tokens llm_token_reservation_denied
  authorize_action c
  on_ledger (increment llm_calls 1)
  on_ledger one_action
  when retry (on_ledger one_retry)
  token_before ← gets (λ s. s.ledger.counts.total_tokens + s.ledger.reserved_tokens)
  on_ledger (λ l. record l {
    llm_reservations = put_reservation reservation_id tokens l.llm_reservations;
  })
  on_ledger (λ l. record l { reserved_tokens = l.reserved_tokens + tokens })
  calls ← gets (λ s. s.ledger.counts.llm_calls)
  record_event (moved (entry llm_call_reserved allowed) llm_calls 1 (calls - 1) calls)
  record_event (
      moved (entry llm_tokens_reserved allowed) total_tokens tokens token_before
        (token_before + tokens))
  pure reservation_id

-- `complete_llm_call` once the reservation is found.
unfoldable pub settle_llm_call : ℕ → ℕ → ℕ → Bool → Guarded Unit
settle_llm_call reservation_id reserved actual success = do
  on_ledger (λ l. record l { llm_reservations = pop_reservation reservation_id l.llm_reservations })
  on_ledger (λ l. record l { reserved_tokens = l.reserved_tokens - reserved })
  before ← gets (λ s. s.ledger.counts.total_tokens)
  on_ledger (increment total_tokens actual)
  when (not success) (on_ledger (λ l. record l { llm_failures = l.llm_failures + 1 }))
  when (ltb reserved actual) do
    record_event
        (record (moved (entry llm_token_reservation_exceeded denied) total_tokens actual before
          (before + actual)) { error_code = some token_reservation_exceeded })
    raise_exceeded token_reservation_exceeded
  record_event (
      moved (entry (if success then llm_call_completed else llm_call_failed) recorded) total_tokens
        actual before (before + actual))

-- The reservation that a call names, or the contract error.
unfoldable pub require_reservation : Option ℕ → Guarded ℕ
require_reservation none = raise (contract reservation_unknown)
require_reservation (some n) = pure n

unfoldable pub complete_llm_call : ℕ → ℤ → ℤ → Bool → Guarded Unit
complete_llm_call reservation_id input_tokens output_tokens success = do
  found ← gets (λ s. find_reservation reservation_id s.ledger.llm_reservations)
  reserved ← require_reservation found
  raise_if (is_negative input_tokens || is_negative output_tokens) (contract actual_tokens_invalid)
  settle_llm_call reservation_id reserved (pos_part input_tokens + pos_part output_tokens) success
