-- ===== src/Budget/Settlement.antt =====
-- Settling a model call: what is charged, what is given back, and when the call raises.
use ndt_agents.Base.{
  ℕ, ◌+◌, ◌≤◌, ◌<◌, ◌≡◌, refl, sym, ◌∙◌, Bool, false, not, some, ℤ, pos_part, is_negative, ◌||◌,
  if◌then◌else◌, arith, ltb,
}
use mathlib.Core.Bool.{true≢false}
use ndt_agents.Exec.{Result, ok, err}
use ndt_agents.Exec.Triple.{
  Triple, Ends, Triple-bind, Triple-bind-pure, Triple-raise_if, Triple-when, Triple-map,
  Triple-given,
}
use ndt_agents.Budget.Policy.{BudgetPolicy}
use ndt_agents.Budget.Data.{BudgetError, BudgetGuard, Ledger}
use ndt_agents.Budget.Stage.{count, increment}
use ndt_agents.Budget.Calls.{
  find_reservation, settle_llm_call, require_reservation, complete_llm_call,
}
use ndt_agents.Budget.View.{View, view, At, on_ledger-At, record_event-At}
use ndt_agents.Budget.View.Checks.{ledger_of, raise_exceeded-At}
use ndt_agents.Budget.View.Calls.{with_ledger, when_ledger-At, Triple-ledger}
use ndt_agents.Budget.Sound.{IsSound, IsValid}
use ndt_agents.Budget.Sound.Llm.{settled, total-pop}

-- The books before and after a call that reserved `n` tokens and used `actual`.
pub record Charges (n actual : ℕ) (success : Bool) (l m : Ledger) : Type 0 where
  pub charged : m.counts.total_tokens ≡ l.counts.total_tokens + actual
  pub given_back : m.reserved_tokens + n ≡ l.reserved_tokens
  pub failure : m.llm_failures ≡ l.llm_failures + (if success then 0 else 1)
  pub same_calls : m.counts.llm_calls ≡ l.counts.llm_calls

-- How a settled call ends: it returns if the use is within the reservation, and raises if not.
abbrev pub Settles : ℕ → ℕ → Bool → Ledger → Result BudgetError (Unit {0}) × BudgetGuard → Type 0
Settles n actual success l (ok u, t) = (actual ≤ n) × Charges n actual success l t.ledger
Settles n actual success l (err e, t) = (n < actual) × Charges n actual success l t.ledger

module _ (v : View) (sound : IsSound v) (id n actual : ℕ) (success : Bool) where
  settled-Charges :
      find_reservation id v.ledger.llm_reservations ≡ some n
      → Charges n actual success v.ledger (settled id n actual success v.ledger)
  unfolding increment count
  settled-Charges found = ground (arith, total-pop id n v.ledger.llm_reservations found)

  Charges-of :
      find_reservation id v.ledger.llm_reservations ≡ some n
      → (w : View) → w.ledger ≡ settled id n actual success v.ledger
      → (s : BudgetGuard) → At w s
      → Charges n actual success v.ledger s.ledger
  Charges-of found w e s h = rw (ledger_of w s h ∙ e) (settled-Charges found)

  settle-Charges :
      find_reservation id v.ledger.llm_reservations ≡ some n
      → Triple
          (At v)
          (settle_llm_call id n actual success)
          (λ _ s. (actual ≤ n) × Charges n actual success v.ledger s.ledger)
          (λ _ s. (n < actual) × Charges n actual success v.ledger s.ledger)
  unfolding settle_llm_call
  settle-Charges found = Triple-bind (on_ledger-At _) λ _. Triple-bind (on_ledger-At _) λ _.
      Triple-ledger (λ l. l.counts.total_tokens) _
        (Triple-bind (on_ledger-At _) λ _. Triple-bind (when_ledger-At (not success) _) λ _.
          Triple-bind
            {M = λ _ s. At (with_ledger v (settled id n actual success)) s × (ltb n actual ≡ false)}
            (Triple-when (ltb n actual) _
              (λ over. Triple-bind (record_event-At _) λ _.
                Triple-map (raise_exceeded-At _ _) (λ s h. h) (λ _ s h. h)
                  (λ _ s h. (ground arith, Charges-of found _ refl s h)))
              (λ within s h. (h, within)))
            λ _. Triple-given λ within.
              Triple-map (record_event-At _) (λ s h. h)
                (λ _ s h. (ground arith, Charges-of found _ refl s h)) (λ _ s h. h))

Ends-Settles :
    (n actual : ℕ) (success : Bool) (l : Ledger) (r : Result BudgetError (Unit {0}))
    (t : BudgetGuard)
    → Ends
        (λ _ s. (actual ≤ n) × Charges n actual success l s.ledger)
        (λ _ s. (n < actual) × Charges n actual success l s.ledger)
        (r, t)
    → Settles n actual success l (r, t)
Ends-Settles n actual success l (ok u) t h = h
Ends-Settles n actual success l (err e) t h = h

-- On a valid guard, completing a model call whose reservation of `n` tokens is in flight, with token
-- counts that are not negative, charges what the provider reported, gives the reservation back and
-- counts a failure; it returns where the report is within the reservation, and raises where it is
-- more, with the same books.
pub complete_llm_call-Settles :
    (p : BudgetPolicy) (s : BudgetGuard) (id n : ℕ) (input output : ℤ) (success : Bool)
    → IsValid p s
    → find_reservation id s.ledger.llm_reservations ≡ some n
    → is_negative input || is_negative output ≡ false
    → Settles n
        (pos_part input + pos_part output)
        success
        s.ledger
        (complete_llm_call id input output success s)
unfolding complete_llm_call require_reservation view
complete_llm_call-Settles p s id n input output success valid found counts =
    Ends-Settles n _ success s.ledger _ _
      (whole.at s (record { viewed = refl; numbered = valid.numbered }))
  where
    whole :
        Triple
          (At (view s))
          (complete_llm_call id input output success)
          (λ _ t.
            (pos_part input + pos_part output ≤ n)
            × Charges n (pos_part input + pos_part output) success s.ledger t.ledger)
          (λ _ t.
            (n < pos_part input + pos_part output)
            × Charges n (pos_part input + pos_part output) success s.ledger t.ledger)
    whole =
        Triple-ledger (λ l. find_reservation id l.llm_reservations) _
          (rw found (
            Triple-bind-pure n _ (
              Triple-bind
                (Triple-raise_if _ _ (λ e. absurd (true≢false (sym e ∙ counts))) (λ _ t h. h))
                λ _. settle-Charges (view s) valid.sound id n _ success found)))
