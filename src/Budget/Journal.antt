-- ===== src/Budget/Journal.antt =====
-- The clock, the telemetry and the journal of events of `BudgetGuard`, in
-- src/ndt_agents/orchestration/budget.py.
use ndt_agents.Base.{ℕ, ◌+◌, ◌-◌, Option, none, some, [], ◌∷◌, ◌++◌, String, length}
use ndt_agents.Exec.{ok, raise, gets, modify, ◌>>=◌}
use ndt_agents.Budget.Policy.{Dimension, Limit, BudgetPolicy, limit_of}
use ndt_agents.Budget.Data.{
  BudgetDecision, EventType, Code, BudgetEvent, BudgetCounters, BudgetTelemetry, exceeded, Ledger,
  BudgetGuard, Guarded,
}
use ndt_agents.Budget.Stage.{degradation_stage}

-- `self._clock()`.
unfoldable pub read_clock : Guarded ℕ
read_clock s = (
  ok (s.clock.at s.clock.reads),
  record s { clock = record s.clock { reads = s.clock.reads + 1 } },
)

-- `max(0, now - started)`, where `started` may be negative.
unfoldable pub elapsed_ms : Guarded ℕ
elapsed_ms = do now ← read_clock; gets (λ s. now + s.carried - s.started)

unfoldable pub counters_of : Ledger → BudgetCounters
counters_of l = record {
  graph_steps = l.counts.graph_steps;
  reserved_graph_steps = l.reserved_graph_steps;
  terminal_transitions = l.terminal_transitions;
  terminal_budget_stops = l.terminal_budget_stops;
  physical_llm_calls = l.counts.llm_calls;
  physical_tool_calls = l.counts.tool_calls;
  actual_total_tokens = l.counts.total_tokens;
  reserved_total_tokens = l.reserved_tokens;
  logical_actions = l.logical_actions;
  retries = l.retries;
  llm_failures = l.llm_failures;
  tool_failures = l.tool_failures;
  cache_lookups = l.cache_lookups;
  cache_hits = l.cache_hits;
  review_rounds = l.counts.review_rounds;
  correction_rounds = l.counts.correction_rounds;
  current_professional_concurrency = l.counts.professional_concurrency;
  peak_professional_concurrency = l.peak_concurrency;
}

unfoldable pub telemetry : Guarded BudgetTelemetry
telemetry = do
  elapsed ← elapsed_ms
  gets (λ s. record {
    policy = s.policy;
    counters = counters_of s.ledger;
    elapsed_ms = elapsed;
    degradation_stage = degradation_stage s.policy s.ledger elapsed;
    events = s.events;
  })

-- The arguments of `_record`; `entry` has its defaults.
pub record Entry : Type 0 where
  pub event_type : EventType
  pub decision : BudgetDecision
  pub dimension : Option Dimension
  pub amount : ℕ
  pub before : ℕ
  pub after : ℕ
  pub error_code : Option Code
  pub action_signature : Option String
  pub observation_sha256 : Option String

abbrev pub entry : EventType → BudgetDecision → Entry
entry event_type decision = record {
  event_type = event_type;
  decision = decision;
  dimension = none;
  amount = 0;
  before = 0;
  after = 0;
  error_code = none;
  action_signature = none;
  observation_sha256 = none;
}

-- The limit that an event shows.
abbrev shown_limit : BudgetPolicy → (Limit → ℕ) → Option Dimension → Option ℕ
shown_limit p part none = none
shown_limit p part (some d) = some (part (limit_of p d))

unfoldable pub event_of : BudgetGuard → Entry → ℕ → BudgetEvent
event_of s e elapsed = record {
  sequence = length s.events + 1;
  event_type = e.event_type;
  dimension = e.dimension;
  amount = e.amount;
  before = e.before;
  after = e.after;
  active_limit = shown_limit s.policy (λ l. l.active) e.dimension;
  hard_limit = shown_limit s.policy (λ l. l.hard) e.dimension;
  decision = e.decision;
  error_code = e.error_code;
  elapsed_ms = elapsed;
  action_signature = e.action_signature;
  observation_sha256 = e.observation_sha256;
}

-- `_record`.
unfoldable pub record_event : Entry → Guarded Unit
record_event e = do
  elapsed ← elapsed_ms
  modify (λ s. record s { events = s.events ++ event_of s e elapsed ∷ [] })

-- `_raise`.
unfoldable pub raise_exceeded : Code → Guarded Unit
raise_exceeded code = do t ← telemetry; raise (exceeded code t)

-- A write to the ledger.
unfoldable pub on_ledger : (Ledger → Ledger) → Guarded Unit
on_ledger f = modify (λ s. record s { ledger = f s.ledger })

-- An entry that shows how a count moved.
abbrev pub moved : Entry → Dimension → ℕ → ℕ → ℕ → Entry
moved e d amount before after = record e {
  dimension = some d;
  amount = amount;
  before = before;
  after = after;
}

abbrev pub one_action : Ledger → Ledger
one_action l = record l { logical_actions = l.logical_actions + 1 }

abbrev pub one_retry : Ledger → Ledger
one_retry l = record l { retries = l.retries + 1 }
