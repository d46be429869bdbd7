-- ===== src/Budget/Sound.antt =====
-- The invariant of the budget guard.
pub mod Stages
pub mod Graph
pub mod Llm
pub mod Tools
pub mod Runs
use ndt_agents.Base.{ℕ, ◌+◌, ◌≤◌, ◌≡◌, refl, ap, sym, Bool, false, List, [], ◌∷◌, take_last, arith}
use mathlib.Core.Path.{subst}
use ndt_agents.Exec.Triple.{Triple, Triple-map}
use ndt_agents.Budget.Journal.{Entry, record_event}
use ndt_agents.Budget.Policy.{BudgetPolicy}
use ndt_agents.Budget.Data.{BudgetEvent, Ledger, BudgetGuard, BudgetError, Guarded}
use ndt_agents.Budget.View.{journalled, record_event-At, View, view, At, NumberedFrom}

-- The tokens of the reservations in flight.
abbrev pub total : List (ℕ × ℕ) → ℕ
total [] = 0
total ((id, n) ∷ rest) = n + total rest

-- Every count stays within its active limit, with what is reserved. The tokens do as long as no
-- provider has reported more than was reserved for its call.
pub record IsSound (v : View) : Type 0 where
  pub graph_fits :
      v.ledger.counts.graph_steps + v.ledger.reserved_graph_steps ≤ v.policy.graph_steps.active
  pub llm_fits : v.ledger.counts.llm_calls ≤ v.policy.llm_calls.active
  pub tools_fit : v.ledger.counts.tool_calls ≤ v.policy.tool_calls.active
  pub tokens_fit :
      v.overrun ≡ false
      → v.ledger.counts.total_tokens + v.ledger.reserved_tokens ≤ v.policy.total_tokens.active
  pub reviews_fit : v.ledger.counts.review_rounds ≤ v.policy.review_rounds.active
  pub corrections_fit : v.ledger.counts.correction_rounds ≤ v.policy.correction_rounds.active
  pub slots_peak : v.ledger.counts.professional_concurrency ≤ v.ledger.peak_concurrency
  pub peak_fits : v.ledger.peak_concurrency ≤ v.policy.professional_concurrency.active
  pub reserved_total : v.ledger.reserved_tokens ≡ total v.ledger.llm_reservations
  pub hits_bounded : v.ledger.cache_hits ≤ v.ledger.cache_lookups
  pub stops_bounded : v.ledger.terminal_budget_stops ≤ v.ledger.terminal_transitions
  pub no_wall_count : v.ledger.counts.wall_time_ms ≡ 0
  pub history_shown : v.ledger.action_history ≡ take_last 10 v.starts

-- A guard of a policy is valid if its view is sound and its events are numbered 1, 2, 3, ….
pub record IsValid (p : BudgetPolicy) (s : BudgetGuard) : Type 0 where
  pub bound : s.policy ≡ p
  pub sound : IsSound (view s)
  pub numbered : NumberedFrom 0 s.events

pub IsValid_of_At : {v : View} {s : BudgetGuard} → IsSound v → At v s → IsValid v.policy s
unfolding view
IsValid_of_At sound h = record {
  bound = ap (λ (w : View). w.policy) h.viewed;
  sound = subst IsSound (sym h.viewed) sound;
  numbered = h.numbered;
}

-- Recording an event as the last step of a call.
pub record_event-IsValid :
    {v : View} {R : BudgetError → BudgetGuard → Type 0} (e : Entry)
    → IsSound (journalled e v)
    → Triple (At v) (record_event e) (λ _. IsValid v.policy) R
record_event-IsValid e sound =
    Triple-map (record_event-At e) (λ s h. h) (λ _ s h. IsValid_of_At sound h) (λ e s h. h)

-- A call keeps the guard valid, and a call that raises leaves its view as it was.
abbrev pub Keeps : {A : Type 0} → Guarded A → Type 0
Keeps m = (v : View) → IsSound v → Triple (At v) m (λ _. IsValid v.policy) (λ _. At v)
