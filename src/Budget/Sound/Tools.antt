-- ===== src/Budget/Sound/Tools.antt =====
-- Tool calls, review and correction rounds, and professional slots keep the guard valid.
use ndt_agents.Base.{
  ℕ, ◌+◌, ◌≤◌, ◌≡◌, refl, Bool, not, Option, none, some, arith, List, [], ◌∷◌, ◌++◌, String,
  take_last, take_last-append,
}
use ndt_agents.Exec.{gets, when, ◌>>=◌, ◌>>◌}
use ndt_agents.Exec.Triple.{
  Triple, Triple-bind, Triple-pure, Triple-raise_if, Triple-when, Triple-map, Triple-bind-pure,
  Triple-bind-raise,
}
use ndt_agents.Budget.Policy.{
  limit_of, tool_calls, review_rounds, correction_rounds, professional_concurrency,
}
use ndt_agents.Budget.Data.{
  ActionClass, validation, BudgetGuard, review_round, correction_round, identical_tool_call,
  tool_call_denied,
}
use ndt_agents.Budget.Stage.{count, increment}
use ndt_agents.Budget.Checks.{ensure_capacity, authorize_action}
use ndt_agents.Budget.Tools.{
  signature_of, has_reservation, in_history, remember, start_tool_call, deny_identical,
  begin_tool_call, complete_tool_call, record_review, record_correction, acquire_slot, release_slot,
}
use ndt_agents.Budget.View.{View, At, record_event-At, on_ledger-At}
use ndt_agents.Budget.View.Checks.{
  ensure_capacity-At, check_time-At, authorize_action-At, raise_exceeded-At,
}
use ndt_agents.Budget.View.Calls.{when_ledger-At, consume-At, Triple-ledger, Triple-checked}
use ndt_agents.Budget.Sound.{IsSound, IsValid, IsValid_of_At, record_event-IsValid, Keeps}

pub record_review-Keeps : Keeps record_review
unfolding record_review limit_of count increment
record_review-Keeps v sound =
    Triple-checked (ensure_capacity-At v review_rounds 1 _ none refl) λ fits.
      Triple-checked (authorize_action-At v validation) λ _.
        Triple-map (consume-At v review_rounds 1 review_round) (λ s h. h)
          (λ _ s h. IsValid_of_At (ground arith) h.0) (λ e s h. h)

pub record_correction-Keeps : Keeps record_correction
unfolding record_correction limit_of count increment
record_correction-Keeps v sound =
    Triple-checked (ensure_capacity-At v correction_rounds 1 _ none refl) λ fits.
      Triple-checked (authorize_action-At v validation) λ _.
        Triple-map (consume-At v correction_rounds 1 correction_round) (λ s h. h)
          (λ _ s h. IsValid_of_At (ground arith) h.0) (λ e s h. h)

pub complete_tool_call-Keeps : (id : ℕ) (success : Bool) → Keeps (complete_tool_call id success)
unfolding complete_tool_call
complete_tool_call-Keeps id success v sound =
    Triple-ledger (λ l. has_reservation id l.tool_reservations) _
      (Triple-bind (Triple-raise_if _ _ (λ _ s h. h) (λ _ s h. h)) λ _.
        Triple-bind (on_ledger-At {v = v} _) λ _.
          Triple-bind (when_ledger-At (not success) _) λ _. record_event-IsValid _ (ground arith))

pub acquire_slot-Keeps : Keeps acquire_slot
unfolding acquire_slot limit_of count increment
acquire_slot-Keeps v sound = Triple-bind (check_time-At v) λ _.
    Triple-checked (ensure_capacity-At v professional_concurrency 1 _ none refl) λ fits.
      Triple-ledger (λ l. l.counts.professional_concurrency) _
        (Triple-bind (on_ledger-At _)
          λ _. Triple-bind (on_ledger-At _) λ _. record_event-IsValid _ (ground arith))

pub release_slot-Keeps : Keeps release_slot
unfolding release_slot
release_slot-Keeps v sound =
    Triple-ledger (λ l. l.counts.professional_concurrency) _
      (Triple-bind (on_ledger-At _) λ _. record_event-IsValid _ (ground arith))

remember-shown :
    (a : String × String) (history starts : List (String × String))
    → history ≡ take_last 10 starts
    → remember a history ≡ take_last 10 (starts ++ a ∷ [])
unfolding remember
remember-shown a history starts e = rw e (take_last-append 10 starts a)

-- The part of `begin_tool_call` that starts the call.
start_tool_call-IsValid :
    (id : ℕ) (signature observation : String) (retry : Bool) (v : View)
    → IsSound v
    → v.ledger.counts.tool_calls + 1 ≤ v.policy.tool_calls.active
    → Triple
        (At v)
        (start_tool_call id signature observation retry)
        (λ _. IsValid v.policy)
        (λ _. At v)
unfolding start_tool_call increment count
start_tool_call-IsValid id signature observation retry v sound fits =
    Triple-ledger (λ l. l.counts.tool_calls) _
      (Triple-bind (on_ledger-At _) λ _. Triple-bind (on_ledger-At _) λ _.
        Triple-bind (when_ledger-At retry _) λ _. Triple-bind (on_ledger-At _) λ _.
          Triple-bind (on_ledger-At _) λ _. Triple-bind (record_event-At _) λ _.
            Triple-pure id λ s h.
              IsValid_of_At
                (ground (
                  arith,
                  remember-shown (signature, observation) v.ledger.action_history v.starts
                      sound.history_shown,
                ))
                h)

pub deny_identical-At :
    (signature : String) (v : View) {Q : Unit {0} → BudgetGuard → Type 0}
    → Triple (At v) (deny_identical signature) Q (λ _. At v)
unfolding deny_identical
deny_identical-At signature v =
    Triple-bind (record_event-At {v = v} _) λ _. raise_exceeded-At v identical_tool_call

-- The checks behind the arguments' hash, and the start.
begin_hashed :
    (id : ℕ) (signature observation : String) (retry : Bool) (c : ActionClass)
    → Keeps (do
      repeated ← gets (λ s. in_history (signature, observation) s.ledger.action_history)
      when repeated (deny_identical signature)
      ensure_capacity tool_calls 1 tool_call_denied none
      authorize_action c
      start_tool_call id signature observation retry)
unfolding limit_of count
begin_hashed id signature observation retry c v sound =
    Triple-ledger (λ l. in_history (signature, observation) l.action_history) _
      (Triple-bind (Triple-when _ _ (λ _. deny_identical-At signature v) (λ _ s h. h)) λ _.
        Triple-checked (ensure_capacity-At v tool_calls 1 _ none refl) λ fits.
          Triple-checked (authorize_action-At v c)
            λ _. start_tool_call-IsValid id signature observation retry v sound fits)

pub begin_tool_call-Keeps :
    (id : ℕ) (name version : String) (sha : Option String) (observation : String) (retry : Bool)
    (c : ActionClass)
    → Keeps (begin_tool_call id name version sha observation retry c)
unfolding begin_tool_call
begin_tool_call-Keeps id name version none observation retry c v sound =
    Triple-bind (check_time-At v) λ _.
      Triple-bind (Triple-raise_if _ _ (λ _ s h. h) (λ _ s h. h)) λ _.
        Triple-bind (Triple-raise_if _ _ (λ _ s h. h) (λ _ s h. h))
          λ _. Triple-bind-raise {P = At v} _ _ (λ s h. h)
begin_tool_call-Keeps id name version (some sha) observation retry c v sound =
    Triple-bind (check_time-At v) λ _.
      Triple-bind (Triple-raise_if _ _ (λ _ s h. h) (λ _ s h. h)) λ _.
        Triple-bind (Triple-raise_if _ _ (λ _ s h. h) (λ _ s h. h)) λ _.
          Triple-bind-pure sha _
            (begin_hashed id (signature_of name version sha) observation retry c v sound)
