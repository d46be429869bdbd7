-- ===== src/Budget/Denials.antt =====
-- What a denied call leaves behind, the repeated tool call, and the settling of a model call.
use ndt_agents.Base.{
  ℕ, zero, suc, ◌≤◌, ◌≡◌, refl, ap, ◌∙◌, Bool, true, false, ◌||◌, Option, none, some, ℤ, arith,
  List, [], ◌∷◌, ◌++◌, String, eq_iff, drop, length, length-append,
}
use ndt_agents.Exec.{Result, ok, err}
use ndt_agents.Exec.Triple.{
  Triple, Ends, Triple-bind, Triple-pure, Triple-raise_if, Triple-when, Triple-map,
  Triple-bind-pure,
}
use ndt_agents.Budget.Policy.{BudgetPolicy, tool_calls}
use ndt_agents.Budget.Data.{ActionClass, Ledger, BudgetError, BudgetGuard, Guarded}
use ndt_agents.Budget.Calls.{find_reservation, begin_llm_call}
use ndt_agents.Budget.Tools.{signature_of, in_history, remember, start_tool_call, begin_tool_call}
use ndt_agents.Budget.View.{View, view, At, record_event-At, on_ledger-At}
use ndt_agents.Budget.View.Checks.{
  ledger_of, ensure_capacity-At, authorize_action-At, check_time-At,
}
use ndt_agents.Budget.View.Calls.{when_ledger-At, Triple-ledger, Triple-checked}
use ndt_agents.Budget.Sound.{IsValid}
use ndt_agents.Budget.Sound.Llm.{begin_llm_call-Keeps}
use ndt_agents.Budget.Sound.Runs.{after-Keeps}
use ndt_agents.Budget.Sound.Tools.{begin_tool_call-Keeps, deny_identical-At}

-- What a call that raised left alone.
abbrev pub Unchanged : {A : Type 0} → BudgetGuard → Result BudgetError A × BudgetGuard → Type 0
Unchanged s (ok a, t) = Unit
Unchanged s (err e, t) = (t.ledger ≡ s.ledger) × (t.policy ≡ s.policy)

Ends-Unchanged :
    {A : Type 0} (Q : A → BudgetGuard → Type 0) (s : BudgetGuard) (r : Result BudgetError A)
    (t : BudgetGuard)
    → Ends Q (λ _. At (view s)) (r, t)
    → Unchanged s (r, t)
unfolding view
Ends-Unchanged Q s (ok a) t h = tt
Ends-Unchanged Q s (err e) t h =
    (ap (λ (v : View). v.ledger) h.viewed, ap (λ (v : View). v.policy) h.viewed)

-- On a valid guard, a model call that begins with a fresh UUID and raises leaves every count,
-- reservation and history entry, and the policy, as they were.
pub begin_llm_call-Unchanged :
    (p : BudgetPolicy) (s : BudgetGuard) (id : ℕ) (n : ℤ) (retry : Bool) (c : ActionClass)
    → IsValid p s
    → find_reservation id s.ledger.llm_reservations ≡ none
    → Unchanged s (begin_llm_call id n retry c s)
unfolding view
begin_llm_call-Unchanged p s id n retry c valid fresh =
    let (r, t) = begin_llm_call id n retry c s in
    Ends-Unchanged _ s r t (
      (begin_llm_call-Keeps id n retry c (view s) valid.sound fresh).at s
        (record { viewed = refl; numbered = valid.numbered }))

-- On a valid guard, a tool call that raises at its start leaves the same as they were.
pub begin_tool_call-Unchanged :
    (p : BudgetPolicy) (s : BudgetGuard) (id : ℕ) (name version : String) (sha : Option String)
    (observation : String) (retry : Bool) (c : ActionClass)
    → IsValid p s
    → Unchanged s (begin_tool_call id name version sha observation retry c s)
begin_tool_call-Unchanged p s id name version sha observation retry c valid =
    let (r, t) = begin_tool_call id name version sha observation retry c s in
    Ends-Unchanged _ s r t (
      (begin_tool_call-Keeps id name version sha observation retry c (view s) valid.sound).at s
        (record { viewed = refl; numbered = valid.numbered }))

in_history_last :
    (a : String × String) (n : ℕ) (xs : List (String × String))
    → n ≤ length xs
    → in_history a (drop n (xs ++ a ∷ [])) ≡ true
unfolding in_history
in_history_last a zero [] h = rw ((eq_iff a.0 a.0).1 refl, (eq_iff a.1 a.1).1 refl)
in_history_last a zero (x ∷ xs) h = rw (in_history_last a zero xs (omega arith)) (or_true _)
  where
    or_true : (b : Bool) → (b || true) ≡ true
    or_true true = refl
    or_true false = refl
in_history_last a (suc n) [] h = absurd (omega arith)
in_history_last a (suc n) (x ∷ xs) h = in_history_last a n xs (omega arith)

in_history-remember :
    (a : String × String) (history : List (String × String))
    → in_history a (remember a history) ≡ true
unfolding remember
in_history-remember a history =
    in_history_last a _ history (omega (arith, length-append history (a ∷ [])))

-- The same rule, where nothing is said of a raise.
eased :
    {A : Type 0} {P : BudgetGuard → Type 0} {m : Guarded A} {Q : A → BudgetGuard → Type 0}
    {R : BudgetError → BudgetGuard → Type 0}
    → Triple P m Q R
    → Triple P m Q (λ _ _. Unit {0})
eased t = Triple-map t (λ s h. h) (λ _ s h. h) (λ _ _ _. tt)

-- A started tool call is remembered.
start_tool_call-in_history :
    (id : ℕ) (signature observation : String) (retry : Bool) (v : View)
    → Triple
        (At v)
        (start_tool_call id signature observation retry)
        (λ _ t. in_history (signature, observation) t.ledger.action_history ≡ true)
        (λ _ _. Unit {0})
unfolding start_tool_call
start_tool_call-in_history id signature observation retry v =
    Triple-ledger (λ l. l.counts.tool_calls) _
      (Triple-bind (on_ledger-At _) λ _. Triple-bind (on_ledger-At _) λ _.
        Triple-bind (when_ledger-At retry _) λ _. Triple-bind (on_ledger-At _) λ _.
          Triple-bind (on_ledger-At _) λ _. Triple-bind (record_event-At _) λ _.
            Triple-pure id λ t h.
              ap (λ (l : Ledger). in_history (signature, observation) l.action_history)
                (ledger_of _ t h)
              ∙ in_history-remember (signature, observation) _)

first_call :
    (id : ℕ) (name version sha observation : String) (retry : Bool) (c : ActionClass) (v : View)
    → Triple
        (At v)
        (begin_tool_call id name version (some sha) observation retry c)
        (λ _ t.
          in_history (signature_of name version sha, observation) t.ledger.action_history ≡ true)
        (λ _ _. Unit {0})
unfolding begin_tool_call
first_call id name version sha observation retry c v = Triple-bind (eased (check_time-At v)) λ _.
    Triple-bind {M = λ _. At v} (Triple-raise_if _ _ (λ _ _ _. tt) (λ _ s h. h)) λ _.
      Triple-bind {M = λ _. At v} (Triple-raise_if _ _ (λ _ _ _. tt) (λ _ s h. h)) λ _.
        Triple-bind-pure sha _ (
          Triple-ledger
            (λ l. in_history (signature_of name version sha, observation) l.action_history) _
            (Triple-bind (Triple-when _ _ (λ _. eased (deny_identical-At _ v)) (λ _ s h. h)) λ _.
              Triple-checked (eased (ensure_capacity-At v tool_calls 1 _ none refl)) λ _.
                Triple-checked (eased (authorize_action-At v c))
                  λ _. start_tool_call-in_history id _ observation retry v))

-- A remembered tool call does not return, and changes nothing.
second_call :
    (id : ℕ) (name version sha observation : String) (retry : Bool) (c : ActionClass) (v : View)
    → in_history (signature_of name version sha, observation) v.ledger.action_history ≡ true
    → Triple
        (At v)
        (begin_tool_call id name version (some sha) observation retry c)
        (λ _ _. ⊥)
        (λ _. At v)
unfolding begin_tool_call
second_call id name version sha observation retry c v old = Triple-bind (check_time-At v) λ _.
    Triple-bind (Triple-raise_if _ _ (λ _ s h. h) (λ _ s h. h)) λ _.
      Triple-bind (Triple-raise_if _ _ (λ _ s h. h) (λ _ s h. h)) λ _. Triple-bind-pure sha _ (
        Triple-ledger
          (λ l. in_history (signature_of name version sha, observation) l.action_history) _
          (Triple-bind {M = λ _ _. ⊥}
            (Triple-when _ _ (λ _. deny_identical-At (signature_of name version sha) v) (λ new. cc))
            λ _. record { at = λ s h. absurd h }))

-- What a denied call is: no value, and no change of the ledger.
abbrev pub Denied : {A : Type 0} → BudgetGuard → Result BudgetError A × BudgetGuard → Type 0
Denied s (ok a, t) = ⊥
Denied s (err e, t) = t.ledger ≡ s.ledger

Ends-Denied :
    {A : Type 0} (s : BudgetGuard) (r : Result BudgetError A) (t : BudgetGuard)
    → Ends (λ _ _. ⊥) (λ _. At (view s)) (r, t)
    → Denied s (r, t)
unfolding view
Ends-Denied s (ok a) t h = h
Ends-Denied s (err e) t h = ap (λ (v : View). v.ledger) h.viewed

remembered_of_Ends :
    (a : String × String) (r : Result BudgetError ℕ) (t : BudgetGuard) {x : ℕ}
    → Ends (λ _ t. in_history a t.ledger.action_history ≡ true) (λ _ _. Unit {0}) (r, t)
    → r ≡ ok x
    → in_history a t.ledger.action_history ≡ true
remembered_of_Ends a (ok y) t h e = h
remembered_of_Ends a (err y) t h e = cc

-- On a valid guard, once a tool call has begun, beginning it again with the same name, version,
-- arguments and observation is denied: it returns no reservation and changes nothing in the ledger.
pub repeat-Denied :
    (p : BudgetPolicy) (s : BudgetGuard) (id again x : ℕ) (name version sha observation : String)
    (retry retry' : Bool) (c c' : ActionClass)
    → IsValid p s
    → (begin_tool_call id name version (some sha) observation retry c s).0 ≡ ok x
    → let t = (begin_tool_call id name version (some sha) observation retry c s).1 in
      Denied t (begin_tool_call again name version (some sha) observation retry' c' t)
unfolding view
repeat-Denied p s id again x name version sha observation retry retry' c c' valid begun =
    let (r, t) = begin_tool_call id name version (some sha) observation retry c s in
    let at_s : At (view s) s = record { viewed = refl; numbered = valid.numbered } in
    let old =
      remembered_of_Ends _ r t
        ((first_call id name version sha observation retry c (view s)).at s at_s) begun in
    let later : IsValid p t =
      after-Keeps s valid (begin_tool_call-Keeps id name version (some sha) observation retry c) in
    let (r', u) = begin_tool_call again name version (some sha) observation retry' c' t in
    Ends-Denied t r' u (
      (second_call again name version sha observation retry' c' (view t) old).at t
        (record { viewed = refl; numbered = later.numbered }))
