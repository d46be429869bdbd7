-- ===== src/Budget/Restore.antt =====
-- The constructor of `BudgetGuard` and `from_telemetry`, in
-- src/ndt_agents/orchestration/budget.py.
use ndt_agents.Base.{
  ◌+◌, Bool, true, false, not, Option, some, List, [], ◌∷◌, String, ◌==◌, take_last, if◌then◌else◌,
}
use ndt_agents.Result.{Result, ok, err}
use ndt_agents.Budget.Policy.{BudgetPolicy}
use ndt_agents.Budget.Data.{
  EventType, tool_call_started, BudgetEvent, BudgetCounters, BudgetTelemetry, ContractCode,
  restore_concurrency_active, restore_llm_reservation_active, Ledger, Clock, BudgetGuard,
}

unfoldable pub empty_ledger : Ledger
empty_ledger = record {
  counts = record {
    graph_steps = 0;
    llm_calls = 0;
    tool_calls = 0;
    total_tokens = 0;
    wall_time_ms = 0;
    professional_concurrency = 0;
    review_rounds = 0;
    correction_rounds = 0;
  };
  reserved_graph_steps = 0;
  reserved_tokens = 0;
  logical_actions = 0;
  terminal_transitions = 0;
  terminal_budget_stops = 0;
  retries = 0;
  llm_failures = 0;
  tool_failures = 0;
  cache_lookups = 0;
  cache_hits = 0;
  peak_concurrency = 0;
  llm_reservations = [];
  tool_reservations = [];
  action_history = [];
}

-- A clock after one more call.
abbrev pub tick : Clock → Clock
tick c = record c { reads = c.reads + 1 }

-- `BudgetGuard(policy, clock=clock)`.
unfoldable pub new_guard : BudgetPolicy → Clock → BudgetGuard
unfolding empty_ledger
new_guard p c = record {
  policy = p;
  clock = tick c;
  started = c.at c.reads;
  carried = 0;
  ledger = empty_ledger;
  events = [];
}

abbrev pub is_start : EventType → Bool
is_start tool_call_started = true
is_start t = false

abbrev pub paired :
    Bool → Option String → Option String → List (String × String) → List (String × String)
paired true (some signature) (some observation) rest = (signature, observation) ∷ rest
paired b signature observation rest = rest

-- The actions of the tool calls that the events show as started, oldest first.
unfoldable pub started_actions : List BudgetEvent → List (String × String)
started_actions [] = []
started_actions (e ∷ events) =
    paired (is_start e.event_type) e.action_signature e.observation_sha256 (started_actions events)

-- The ledger that the counters describe, with no call in flight.
unfoldable pub restored_ledger : BudgetCounters → List BudgetEvent → Ledger
restored_ledger c events = record {
  counts = record {
    graph_steps = c.graph_steps;
    llm_calls = c.physical_llm_calls;
    tool_calls = c.physical_tool_calls;
    total_tokens = c.actual_total_tokens;
    wall_time_ms = 0;
    professional_concurrency = 0;
    review_rounds = c.review_rounds;
    correction_rounds = c.correction_rounds;
  };
  reserved_graph_steps = c.reserved_graph_steps;
  reserved_tokens = 0;
  logical_actions = c.logical_actions;
  terminal_transitions = c.terminal_transitions;
  terminal_budget_stops = c.terminal_budget_stops;
  retries = c.retries;
  llm_failures = c.llm_failures;
  tool_failures = c.tool_failures;
  cache_lookups = c.cache_lookups;
  cache_hits = c.cache_hits;
  peak_concurrency = c.peak_professional_concurrency;
  llm_reservations = [];
  tool_reservations = [];
  action_history = take_last 10 (started_actions events);
}

-- `from_telemetry`. The clock is called twice: by the constructor and for `_started`.
unfoldable pub from_telemetry : BudgetTelemetry → Clock → Result ContractCode BudgetGuard
unfolding restored_ledger
from_telemetry t c =
    if not (t.counters.current_professional_concurrency == 0)
    then err restore_concurrency_active
    else if not (t.counters.reserved_total_tokens == 0)
    then err restore_llm_reservation_active
    else ok (record {
      policy = t.policy;
      clock = tick (tick c);
      started = c.at (c.reads + 1);
      carried = t.elapsed_ms;
      ledger = restored_ledger t.counters t.events;
      events = t.events;
    })
