-- ===== src/Budget/Slots.antt =====
-- The slot of `BudgetGuard.professional_slot` in src/ndt_agents/orchestration/budget.py is given
-- back however the body ends.
use ndt_agents.Base.{ℕ, ◌+◌, ◌-◌, none, ◌≡◌, refl, ap, arith}
use mathlib.Core.Path.{subst}
use ndt_agents.Exec.{Result, ok, err, continue, ◌>>=◌}
use ndt_agents.Exec.Triple.{Triple, Ends, Triple-bind, Triple-map}
use ndt_agents.Budget.Policy.{BudgetPolicy, limit_of, professional_concurrency}
use ndt_agents.Budget.Data.{BudgetError, BudgetGuard, Guarded, Ledger}
use ndt_agents.Budget.Stage.{count, increment}
use ndt_agents.Budget.Tools.{acquire_slot, release_slot, finish_with, with_professional_slot}
use ndt_agents.Budget.View.{View, view, At, on_ledger-At, record_event-At}
use ndt_agents.Budget.View.Checks.{ledger_of, ensure_capacity-At, check_time-At}
use ndt_agents.Budget.View.Calls.{Triple-ledger, Triple-checked}
use ndt_agents.Budget.Sound.{IsSound, IsValid, IsValid_of_At}
use ndt_agents.Budget.Sound.Runs.{after}

abbrev pub slots : BudgetGuard → ℕ
slots s = s.ledger.counts.professional_concurrency

-- A valid guard that holds this many slots.
abbrev pub Holds : BudgetPolicy → ℕ → BudgetGuard → Type 0
Holds p n s = IsValid p s × (slots s ≡ n)

module _ (v : View) (sound : IsSound v) where
  acquire_slot-Holds :
      Triple
        (At v)
        acquire_slot
        (λ _. Holds v.policy (v.ledger.counts.professional_concurrency + 1))
        (λ _. Holds v.policy v.ledger.counts.professional_concurrency)
  unfolding acquire_slot limit_of count increment
  acquire_slot-Holds =
      Triple-map
        (Triple-bind (check_time-At v) λ _.
          Triple-checked (ensure_capacity-At v professional_concurrency 1 _ none refl) λ fits.
            Triple-ledger (λ l. l.counts.professional_concurrency) _
              (Triple-bind (on_ledger-At _) λ _. Triple-bind (on_ledger-At _) λ _.
                Triple-map (record_event-At _) (λ s h. h)
                  (λ _ s h. (
                    IsValid_of_At (ground arith) h,
                    ap (λ (l : Ledger). l.counts.professional_concurrency) (ledger_of _ s h),
                  ))
                  (λ _ s h. h)))
        (λ s h. h) (λ _ s h. h)
        (λ _ s h. (
          IsValid_of_At sound h,
          ap (λ (l : Ledger). l.counts.professional_concurrency) (ledger_of v s h),
        ))

  release_slot-Holds :
      Triple
        (At v)
        release_slot
        (λ _. Holds v.policy (v.ledger.counts.professional_concurrency - 1))
        (λ _. Holds v.policy (v.ledger.counts.professional_concurrency - 1))
  unfolding release_slot
  release_slot-Holds =
      Triple-ledger (λ l. l.counts.professional_concurrency) _
        (Triple-bind (on_ledger-At _) λ _.
          Triple-map (record_event-At _) (λ s h. h)
            (λ _ s h. (
              IsValid_of_At (ground arith) h,
              ap (λ (l : Ledger). l.counts.professional_concurrency) (ledger_of _ s h),
            ))
            (λ _ s h. h))

Ends-Holds :
    {A : Type 0} {p : BudgetPolicy} {n : ℕ} (r : Result BudgetError A) (t : BudgetGuard)
    → Ends (λ _. Holds p n) (λ _. Holds p n) (r, t)
    → Holds p n t
Ends-Holds (ok a) t h = h
Ends-Holds (err e) t h = h

released :
    (p : BudgetPolicy) (n : ℕ) (t : BudgetGuard)
    → Holds p (n + 1) t
    → Holds p n (after release_slot t)
unfolding view
released p n t (valid, held) =
    let (r, u) = release_slot t in
    let (valid', left) = Ends-Holds r u (
      (release_slot-Holds (view t) valid.sound).at t
        (record { viewed = refl; numbered = valid.numbered })) in
    (subst (λ q. IsValid q u) valid.bound valid', omega arith)

module _ {A : Type 0} (p : BudgetPolicy) (n : ℕ) (body : Guarded A)
    (keeps : (t : BudgetGuard) → Holds p (n + 1) t → Holds p (n + 1) (after body t)) where
  slot-Ends :
      (r : Result BudgetError (Unit {0})) (t : BudgetGuard)
      → Ends (λ _. Holds p (n + 1)) (λ _. Holds p n) (r, t)
      → Holds p n
          (continue r
            (λ _ u.
              let (out, u') = body u in
              let (gone, u'') = release_slot u' in (finish_with out gone, u''))
            t).1
  slot-Ends (ok a) t h = released p n (after body t) (keeps t h)
  slot-Ends (err e) t h = h

-- On a valid guard, a body run in a professional slot leaves the guard valid and as many slots held
-- as before, whether the slot was denied, the body returned or the body raised; provided that the
-- body itself leaves the guard valid and the held slots as they were.
pub with_professional_slot-Holds :
    {A : Type 0} (p : BudgetPolicy) (n : ℕ) (body : Guarded A) (s : BudgetGuard)
    → ((t : BudgetGuard) → Holds p (n + 1) t → Holds p (n + 1) (after body t))
    → Holds p n s
    → Holds p n (after (with_professional_slot body) s)
unfolding with_professional_slot ◌>>=◌ view
with_professional_slot-Holds p n body s keeps (valid, held) =
    let (r, t) = acquire_slot s in
    slot-Ends p n body keeps r t (
      bound r t (
        (acquire_slot-Holds (view s) valid.sound).at s
          (record { viewed = refl; numbered = valid.numbered })))
  where
    bound :
        (r : Result BudgetError (Unit {0})) (t : BudgetGuard)
        → Ends (λ _. Holds s.policy (slots s + 1)) (λ _. Holds s.policy (slots s)) (r, t)
        → Ends (λ _. Holds p (n + 1)) (λ _. Holds p n) (r, t)
    bound (ok a) t (valid', got) = (subst (λ q. IsValid q t) valid.bound valid', omega arith)
    bound (err e) t (valid', got) = (subst (λ q. IsValid q t) valid.bound valid', omega arith)
