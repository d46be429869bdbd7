-- ===== src/Budget/Sound/Llm.antt =====
-- The language model calls of the guard keep it valid. Reservations are looked up by their UUID,
-- and a fresh UUID is one that no reservation in flight has.
use ndt_agents.Base.{
  ℕ, ◌+◌, ◌-◌, ◌≡◌, refl, Bool, false, not, none, some, ℤ, pos_part, if◌then◌else◌, arith,
  Option-cases, inl, inr, List, [], ◌∷◌, ltb,
}
use ndt_agents.Exec.Triple.{
  Triple, Triple-bind, Triple-bind-pure, Triple-bind-raise, Triple-given, Triple-pure,
  Triple-raise_if, Triple-when, Triple-map,
}
use ndt_agents.Budget.Policy.{limit_of, llm_calls, total_tokens}
use ndt_agents.Budget.Data.{ActionClass, Code, Ledger, BudgetGuard, Guarded}
use ndt_agents.Budget.Stage.{count, increment}
use ndt_agents.Budget.Journal.{raise_exceeded}
use ndt_agents.Budget.Calls.{
  put_reservation, find_reservation, pop_reservation, begin_llm_call, settle_llm_call,
  require_reservation, complete_llm_call,
}
use ndt_agents.Budget.View.{View, At, record_event-At, on_ledger-At}
use ndt_agents.Budget.View.Checks.{
  ensure_capacity-At, ensure_token_capacity-At, check_time-At, authorize_action-At,
  raise_exceeded-At,
}
use ndt_agents.Budget.View.Calls.{with_ledger, when_ledger-At, Triple-ledger, Triple-checked}
use ndt_agents.Budget.Sound.{IsSound, IsValid, IsValid_of_At, record_event-IsValid, total}

total-put :
    (id n : ℕ) (rs : List (ℕ × ℕ))
    → find_reservation id rs ≡ none
    → total (put_reservation id n rs) ≡ total rs + n
unfolding find_reservation put_reservation
total-put id n [] h = omega arith
total-put id n ((k, m) ∷ rest) h = ground (arith, total-put id n rest)

pub total-pop :
    (id n : ℕ) (rs : List (ℕ × ℕ))
    → find_reservation id rs ≡ some n
    → total (pop_reservation id rs) + n ≡ total rs
unfolding find_reservation pop_reservation
total-pop id n [] h = cc
total-pop id n ((k, m) ∷ rest) h = ground (arith, total-pop id n rest)

-- A call may begin with a UUID that no reservation in flight has.
abbrev pub KeepsAt : {A : Type 0} → (View → Type 0) → Guarded A → Type 0
KeepsAt P m = (v : View) → IsSound v → P v → Triple (At v) m (λ _. IsValid v.policy) (λ _. At v)

pub begin_llm_call-Keeps :
    (id : ℕ) (n : ℤ) (retry : Bool) (c : ActionClass)
    → KeepsAt
        (λ v. find_reservation id v.ledger.llm_reservations ≡ none)
        (begin_llm_call id n retry c)
unfolding begin_llm_call limit_of increment count
begin_llm_call-Keeps id n retry c v sound fresh =
    Triple-bind (Triple-raise_if _ _ (λ _ s h. h) (λ _ s h. h)) λ _.
      Triple-bind (check_time-At v) λ _.
        Triple-checked (ensure_capacity-At v llm_calls 1 _ none refl) λ fits.
          Triple-checked (ensure_token_capacity-At v (pos_part n) _ refl) λ tokens_fit.
            Triple-checked (authorize_action-At v c) λ _. Triple-bind (on_ledger-At _) λ _.
              Triple-bind (on_ledger-At _) λ _. Triple-bind (when_ledger-At retry _) λ _.
                Triple-ledger (λ l. l.counts.total_tokens + l.reserved_tokens) _
                  (Triple-bind (on_ledger-At _) λ _. Triple-bind (on_ledger-At _) λ _.
                    Triple-ledger (λ l. l.counts.llm_calls) _
                      (Triple-bind (record_event-At _) λ _. Triple-bind (record_event-At _) λ _.
                        Triple-pure id (λ s h.
                          IsValid_of_At
                            (ground
                              (arith, total-put id (pos_part n) v.ledger.llm_reservations fresh))
                            h)))

-- A call keeps the guard valid, whether it returns or raises.
abbrev pub Preserves : {A : Type 0} → Guarded A → Type 0
Preserves m =
    (v : View) → IsSound v → Triple (At v) m (λ _. IsValid v.policy) (λ _. IsValid v.policy)

raise_exceeded-IsValid :
    (v : View) (code : Code) {Q : Unit {0} → BudgetGuard → Type 0}
    → IsSound v
    → Triple (At v) (raise_exceeded code) Q (λ _. IsValid v.policy)
raise_exceeded-IsValid v code sound =
    Triple-map (raise_exceeded-At v code) (λ s h. h) (λ _ s h. h) (λ _ s h. IsValid_of_At sound h)

-- What the end of a call makes of the ledger.
abbrev pub settled : ℕ → ℕ → ℕ → Bool → Ledger → Ledger
settled id reserved actual success l =
    let popped = record l { llm_reservations = pop_reservation id l.llm_reservations } in
    let counted =
      increment total_tokens actual
        (record popped { reserved_tokens = popped.reserved_tokens - reserved }) in
    if not success then record counted { llm_failures = counted.llm_failures + 1 } else counted

settle_llm_call-Preserves :
    (id reserved actual : ℕ) (success : Bool) (v : View)
    → IsSound v
    → find_reservation id v.ledger.llm_reservations ≡ some reserved
    → Triple
        (At v)
        (settle_llm_call id reserved actual success)
        (λ _. IsValid v.policy)
        (λ _. IsValid v.policy)
unfolding settle_llm_call increment count
settle_llm_call-Preserves id reserved actual success v sound found =
    let popped = total-pop id reserved v.ledger.llm_reservations found in
    Triple-bind (on_ledger-At _) λ _. Triple-bind (on_ledger-At _) λ _.
      Triple-ledger (λ l. l.counts.total_tokens) _
        (Triple-bind (on_ledger-At _) λ _. Triple-bind (when_ledger-At (not success) _) λ _.
          Triple-bind
            {M = λ _ s.
              At (with_ledger v (settled id reserved actual success)) s
              × (ltb reserved actual ≡ false)}
            (Triple-when (ltb reserved actual) _
              (λ over.
                Triple-bind (record_event-At _)
                  λ _. raise_exceeded-IsValid _ _ (ground (arith, popped)))
              (λ within s h. (h, within)))
            λ _. Triple-given λ within. record_event-IsValid _ (ground (arith, popped)))

pub complete_llm_call-Preserves :
    (id : ℕ) (input output : ℤ) (success : Bool)
    → Preserves (complete_llm_call id input output success)
unfolding complete_llm_call require_reservation
complete_llm_call-Preserves id input output success v sound =
    Triple-ledger (λ l. find_reservation id l.llm_reservations) _
      (elim (Option-cases (find_reservation id v.ledger.llm_reservations)) [
        | inl unknown ↦ rw unknown (Triple-bind-raise _ _ (λ s h. IsValid_of_At sound h))
        | inr (n, found) ↦ rw found (
            Triple-bind-pure n _ (
              Triple-bind (Triple-raise_if _ _ (λ _ s h. IsValid_of_At sound h) (λ _ s h. h))
                λ _. settle_llm_call-Preserves id n _ success v sound found))
      ])
