-- ===== src/Budget/View/Calls.antt =====
-- What `_consume` makes of a view when it returns, and what it has checked; and rules for reading
-- a part of the ledger.
use ndt_agents.Base.{ℕ, refl, ap, Bool, true, false, none, if◌then◌else◌}
use ndt_agents.Exec.{gets, when, ◌>>=◌, ◌>>◌}
use ndt_agents.Exec.Triple.{Triple, Triple-bind, Triple-given, Triple-when, Triple-map}
use ndt_agents.Budget.Policy.{Dimension}
use ndt_agents.Budget.Data.{Consumption, Ledger, BudgetError, BudgetGuard, Guarded}
use ndt_agents.Budget.Stage.{count, increment}
use ndt_agents.Budget.Journal.{on_ledger, one_action}
use ndt_agents.Budget.Checks.{consume}
use ndt_agents.Budget.View.{View, At, record_event-At, on_ledger-At, Triple-reads}
use ndt_agents.Budget.View.Checks.{Fits, ledger_of, ensure_capacity-At, check_time-At}

-- The view with another ledger.
abbrev pub with_ledger : View → (Ledger → Ledger) → View
with_ledger v f = record v { ledger = f v.ledger }

abbrev pub consumed_ledger : Dimension → ℕ → Ledger → Ledger
consumed_ledger d amount l = one_action (increment d amount l)

module _ (v : View) where
  pub consume-At :
      (d : Dimension) (amount : ℕ) (what : Consumption)
      → Triple
          (At v)
          (consume d amount what true)
          (λ _ s. At (with_ledger v (consumed_ledger d amount)) s × Fits v d amount none)
          (λ _. At v)
  unfolding consume
  consume-At d amount what = Triple-bind (check_time-At v) λ _.
      Triple-bind (ensure_capacity-At v d amount _ none refl) λ _. Triple-given λ fits.
        Triple-reads _ _ (count v.ledger.counts d)
          (λ s h. ap (λ (l : Ledger). count l.counts d) (ledger_of v s h))
          (Triple-bind (on_ledger-At (increment d amount)) λ _.
            Triple-bind (Triple-when true _ (λ _. on_ledger-At one_action) (λ e. cc))
              λ _. Triple-map (record_event-At _) (λ s h. h) (λ _ s h. (h, fits)) (λ e s h. h))

module _ {v : View} {R : BudgetError → BudgetGuard → Type 0} where
  -- Reading a part of the ledger.
  pub Triple-ledger :
      {A B : Type 0} {Q : B → BudgetGuard → Type 0} (part : Ledger → A) (k : A → Guarded B)
      → Triple (At v) (k (part v.ledger)) Q R
      → Triple (At v) (gets (λ s. part s.ledger) >>= k) Q R
  Triple-ledger part k =
      Triple-reads (λ s. part s.ledger) k (part v.ledger) (λ s h. ap part (ledger_of v s h))

  -- `if b:` a write to the ledger.
  pub when_ledger-At :
      (b : Bool) (f : Ledger → Ledger)
      → Triple (At v) (when b (on_ledger f)) (λ _. At (with_ledger v (λ l. if b then f l else l))) R
  when_ledger-At true f = Triple-when true _ (λ _. on_ledger-At f) (λ e. cc)
  when_ledger-At false f = Triple-when false _ (λ e. cc) (λ _ s h. h)

  -- A check in front of a call: its fact is at hand for what follows.
  pub Triple-checked :
      {F : Type 0} {B : Type 0} {Q : B → BudgetGuard → Type 0} {m : Guarded (Unit {0})}
      {k : Guarded B}
      → Triple (At v) m (λ _ s. At v s × F) R
      → (F → Triple (At v) k Q R)
      → Triple (At v) (m >> k) Q R
  Triple-checked t k = Triple-bind t λ _. Triple-given k
