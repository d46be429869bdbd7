-- ===== src/Budget/Sound/Graph.antt =====
-- The calls on graph steps, cache lookups and terminal transitions keep a guard valid.
use ndt_agents.Base.{◌+◌, ◌≤◌, ◌≡◌, ◌≢◌, refl, Bool, none, some, ℤ, ◌==◌, arith}
use ndt_agents.Exec.Triple.{
  Triple, Triple-bind, Triple-given, Triple-raise_if, Triple-when, Triple-map, Triple-if,
}
use ndt_agents.Budget.Policy.{limit_of, graph_steps}
use ndt_agents.Budget.Data.{ActionClass, standard, graph_step, cache_lookup}
use ndt_agents.Budget.Stage.{count, increment}
use ndt_agents.Budget.Calls.{
  consume_reserved_step, consume_new_step, record_graph_step, reserve_graph_steps,
  abandon_graph_reservation, release_graph_reservation, record_cache_lookup,
  record_terminal_transition,
}
use ndt_agents.Budget.View.{View, At, on_ledger-At}
use ndt_agents.Budget.View.Checks.{ensure_capacity-At, check_time-At, authorize_action-At}
use ndt_agents.Budget.View.Calls.{
  when_ledger-At, with_ledger, consumed_ledger, consume-At, Triple-ledger, Triple-checked,
}
use ndt_agents.Budget.Sound.{IsSound, IsValid, IsValid_of_At, record_event-IsValid, Keeps}
use ndt_agents.Budget.Sound.Stages.{standard_leaves_room}

module _ (v : View) (sound : IsSound v) where
  consumed-IsSound :
      v.ledger.counts.graph_steps + v.ledger.reserved_graph_steps + 1 ≤ v.policy.graph_steps.active
      → IsSound (with_ledger v (consumed_ledger graph_steps 1))
  unfolding increment
  consumed-IsSound fits = ground arith

  new_step :
      (c : ActionClass)
      → v.ledger.reserved_graph_steps ≡ 0
      → Triple (At v) (consume_new_step c) (λ _. IsValid v.policy) (λ _. At v)
  unfolding consume_new_step limit_of count
  new_step c none_reserved = Triple-checked (ensure_capacity-At v graph_steps 1 _ none refl) λ fits.
      Triple-checked (authorize_action-At v c) λ _.
        Triple-map (consume-At v graph_steps 1 graph_step) (λ s h. h)
          (λ _ s h. IsValid_of_At (consumed-IsSound (omega arith)) h.0) (λ e s h. h)

  reserved_step :
      v.ledger.reserved_graph_steps ≢ 0
      → Triple (At v) consume_reserved_step (λ _. IsValid v.policy) (λ _. At v)
  unfolding consume_reserved_step increment
  reserved_step some_reserved = Triple-bind (check_time-At v) λ _.
      Triple-ledger (λ l. l.counts.graph_steps) _
        (Triple-bind (on_ledger-At _) λ _.
          Triple-bind (on_ledger-At _)
            λ _. Triple-bind (on_ledger-At _) λ _. record_event-IsValid _ (ground arith))

-- A graph step, from the reservation or a new one.
pub record_graph_step-Keeps : (c : ActionClass) → Keeps (record_graph_step c)
unfolding record_graph_step
record_graph_step-Keeps c v sound =
    Triple-ledger (λ l. l.reserved_graph_steps) _
      (Triple-if (v.ledger.reserved_graph_steps == 0) _ _ (λ e. new_step v sound c (ground arith))
        (λ e. reserved_step v sound (ground arith)))

pub reserve_graph_steps-Keeps : (n : ℤ) → Keeps (reserve_graph_steps n)
unfolding reserve_graph_steps limit_of
reserve_graph_steps-Keeps n v sound =
    Triple-bind (Triple-raise_if _ _ (λ _ s h. h) (λ _ s h. h)) λ _.
      Triple-bind (check_time-At v) λ _.
        Triple-ledger (λ l. l.counts.graph_steps + l.reserved_graph_steps) _
          (Triple-checked (ensure_capacity-At v graph_steps _ _ (some _) refl) λ fits.
            Triple-checked (authorize_action-At v standard)
              λ _. Triple-bind (on_ledger-At _) λ _. record_event-IsValid _ (ground arith))

pub abandon_graph_reservation-Keeps : Keeps abandon_graph_reservation
unfolding abandon_graph_reservation increment
abandon_graph_reservation-Keeps v sound =
    Triple-ledger (λ l. l.reserved_graph_steps) _
      (Triple-ledger (λ l. l.counts.graph_steps) _
        (Triple-when _ _
          (λ _. Triple-bind (on_ledger-At _) λ _. Triple-bind (on_ledger-At _) λ _.
            Triple-bind (on_ledger-At _)
              λ _. Triple-bind (on_ledger-At _) λ _. record_event-IsValid _ (ground arith))
          (λ _ s h. IsValid_of_At sound h)))

pub release_graph_reservation-Keeps : Keeps release_graph_reservation
unfolding release_graph_reservation
release_graph_reservation-Keeps v sound =
    Triple-ledger (λ l. l.reserved_graph_steps) _
      (Triple-ledger (λ l. l.counts.graph_steps + v.ledger.reserved_graph_steps) _
        (Triple-when _ _
          (λ _. Triple-bind (on_ledger-At _) λ _. record_event-IsValid _ (ground arith))
          (λ _ s h. IsValid_of_At sound h)))

pub record_terminal_transition-Keeps : (stop : Bool) → Keeps (record_terminal_transition stop)
unfolding record_terminal_transition
record_terminal_transition-Keeps stop v sound =
    Triple-bind (on_ledger-At _)
      λ _. Triple-bind (when_ledger-At stop _) λ _. record_event-IsValid _ (ground arith)

pub record_cache_lookup-Keeps : (hit : Bool) → Keeps (record_cache_lookup hit)
unfolding record_cache_lookup increment limit_of count
record_cache_lookup-Keeps hit v sound =
    Triple-checked (ensure_capacity-At v graph_steps 1 _ none refl) λ fits.
      Triple-checked (authorize_action-At v standard) λ permits.
        Triple-bind (consume-At v graph_steps 1 cache_lookup) λ _. Triple-given λ _.
          Triple-bind (on_ledger-At _) λ _. Triple-bind (when_ledger-At hit _) λ _.
            record_event-IsValid _ (
              ground
                (arith, standard_leaves_room v.policy v.ledger permits.0 permits.1 (omega arith)))
