-- ===== src/Budget/Restored.antt =====
-- Restoring a guard from its own telemetry.
use ndt_agents.Base.{◌≡◌, refl, arith, []}
use ndt_agents.Exec.{Result, ok, err, gets, ◌>>=◌}
use ndt_agents.Budget.Policy.{BudgetPolicy}
use ndt_agents.Budget.Data.{BudgetTelemetry, BudgetError, ContractCode, Ledger, Clock, BudgetGuard}
use ndt_agents.Budget.Journal.{counters_of, telemetry, elapsed_ms, read_clock}
use ndt_agents.Budget.Restore.{new_guard, from_telemetry, restored_ledger}
use ndt_agents.Budget.View.{view}
use ndt_agents.Budget.Sound.Runs.{Reach, Reach-IsValid, new_guard-IsValid}

-- The ledger with no call in flight.
abbrev pub at_rest : Ledger → Ledger
at_rest l = record l { llm_reservations = []; tool_reservations = [] }

-- The telemetry that the guard shows, and the guard that is restored from it: the same policy,
-- events and counts, and the same memory of tool calls.
abbrev pub Restores : BudgetGuard → Result ContractCode BudgetGuard → Type 0
Restores s (ok g) = (g.policy ≡ s.policy) × (g.ledger ≡ at_rest s.ledger) × (g.events ≡ s.events)
Restores s (err e) = ⊥

-- What the telemetry of a guard shows.
abbrev pub RestoredBy : BudgetGuard → Clock → Result BudgetError BudgetTelemetry → Type 0
RestoredBy s c (ok t) = Restores s (from_telemetry t c)
RestoredBy s c (err e) = ⊥

-- Whenever a history of calls on a new guard (a model call begins under a UUID that no call in
-- flight has, and a slot is released only where one is held) has left no professional slot held and no tokens
-- reserved, the guard restored from its telemetry has the same policy, the same events and the same
-- ledger, less the reservations in flight: the remembered tool calls, read back from the journal,
-- are those that the guard remembered.
pub telemetry-from_telemetry :
    (p : BudgetPolicy) (c later : Clock) (s : BudgetGuard)
    → Reach (new_guard p c) s
    → s.ledger.counts.professional_concurrency ≡ 0
    → s.ledger.reserved_tokens ≡ 0
    → RestoredBy s later (telemetry s).0
unfolding telemetry elapsed_ms read_clock gets ◌>>=◌ from_telemetry restored_ledger counters_of view
telemetry-from_telemetry p c later s reach free unreserved =
    let sound = (Reach-IsValid (new_guard-IsValid p c) reach).sound in
    rw (free, unreserved) (refl, ground (arith, sound.history_shown, sound.no_wall_count), refl)
