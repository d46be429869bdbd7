-- ===== src/Budget/Sound/Runs.antt =====
-- Every history of calls on a guard, whatever they return or raise and whatever the clock shows.
use ndt_agents.Base.{ℕ, ◌<◌, ◌≡◌, refl, Bool, Option, none, String, ℤ, arith}
use ndt_agents.Exec.{Result, ok, err}
use mathlib.Core.Path.{subst}
use ndt_agents.Exec.Triple.{Triple, Ends, Triple-map}
use ndt_agents.Budget.Policy.{BudgetPolicy}
use ndt_agents.Budget.Data.{ActionClass, Clock, BudgetGuard, BudgetError, Guarded}
use ndt_agents.Budget.Calls.{
  record_graph_step, reserve_graph_steps, abandon_graph_reservation, release_graph_reservation,
  record_cache_lookup, record_terminal_transition, find_reservation, begin_llm_call,
  complete_llm_call,
}
use ndt_agents.Budget.Tools.{
  begin_tool_call, complete_tool_call, record_review, record_correction, acquire_slot, release_slot,
}
use ndt_agents.Budget.Restore.{new_guard}
use ndt_agents.Budget.View.{View, view, At}
use ndt_agents.Budget.Sound.{IsSound, IsValid, IsValid_of_At, Keeps}
use ndt_agents.Budget.Sound.Graph.{
  record_graph_step-Keeps, reserve_graph_steps-Keeps, abandon_graph_reservation-Keeps,
  release_graph_reservation-Keeps, record_cache_lookup-Keeps, record_terminal_transition-Keeps,
}
use ndt_agents.Budget.Sound.Llm.{begin_llm_call-Keeps, complete_llm_call-Preserves}
use ndt_agents.Budget.Sound.Tools.{
  begin_tool_call-Keeps, complete_tool_call-Keeps, record_review-Keeps, record_correction-Keeps,
  acquire_slot-Keeps, release_slot-Keeps,
}

-- The state in which a call leaves the guard, by return or by raise.
abbrev pub after : {A : Type 0} → Guarded A → BudgetGuard → BudgetGuard
after m s = (m s).1

-- One call on the guard. A model call begins with a UUID that no call in flight has, and a slot is
-- released only where one is held.
pub data Step (s : BudgetGuard) : BudgetGuard → Type 0 where
  graph_steps : (c : ActionClass) {t : BudgetGuard} → t ≡ after (record_graph_step c) s → Step s t
  reserves : (n : ℤ) {t : BudgetGuard} → t ≡ after (reserve_graph_steps n) s → Step s t
  abandons : {t : BudgetGuard} → t ≡ after abandon_graph_reservation s → Step s t
  releases : {t : BudgetGuard} → t ≡ after release_graph_reservation s → Step s t
  looks_up : (hit : Bool) {t : BudgetGuard} → t ≡ after (record_cache_lookup hit) s → Step s t
  ends : (stop : Bool) {t : BudgetGuard} → t ≡ after (record_terminal_transition stop) s → Step s t
  begins_llm :
      (id : ℕ) (n : ℤ) (retry : Bool) (c : ActionClass) {t : BudgetGuard}
      → find_reservation id s.ledger.llm_reservations ≡ none
      → t ≡ after (begin_llm_call id n retry c) s
      → Step s t
  completes_llm :
      (id : ℕ) (input output : ℤ) (success : Bool) {t : BudgetGuard}
      → t ≡ after (complete_llm_call id input output success) s
      → Step s t
  begins_tool :
      (id : ℕ) (name version : String) (sha : Option String) (observation : String) (retry : Bool)
      (c : ActionClass) {t : BudgetGuard}
      → t ≡ after (begin_tool_call id name version sha observation retry c) s
      → Step s t
  completes_tool :
      (id : ℕ) (success : Bool) {t : BudgetGuard}
      → t ≡ after (complete_tool_call id success) s
      → Step s t
  reviews : {t : BudgetGuard} → t ≡ after record_review s → Step s t
  corrects : {t : BudgetGuard} → t ≡ after record_correction s → Step s t
  acquires : {t : BudgetGuard} → t ≡ after acquire_slot s → Step s t
  frees :
      {t : BudgetGuard}
      → 0 < s.ledger.counts.professional_concurrency
      → t ≡ after release_slot s
      → Step s t

pub data Reach (s : BudgetGuard) : BudgetGuard → Type 0 where
  here : Reach s s
  next : {t u : BudgetGuard} → Reach s t → Step t u → Reach s u

pub new_guard-IsValid : (p : BudgetPolicy) (c : Clock) → IsValid p (new_guard p c)
unfolding new_guard view
new_guard-IsValid p c = record { bound = refl; sound = ground arith; numbered = tt }

ends-IsValid :
    {A : Type 0} {p : BudgetPolicy} (r : Result BudgetError A) (t : BudgetGuard)
    → Ends (λ _. IsValid p) (λ _. IsValid p) (r, t)
    → IsValid p t
ends-IsValid (ok a) t h = h
ends-IsValid (err e) t h = h

-- A call that preserves validity does so from every valid guard.
pub after-IsValid :
    {A : Type 0} {p : BudgetPolicy} {m : Guarded A} (s : BudgetGuard)
    → IsValid p s
    → ((v : View)
        → IsSound v
        → v ≡ view s
        → Triple (At v) m (λ _. IsValid v.policy) (λ _. IsValid v.policy))
    → IsValid p (after m s)
unfolding view
after-IsValid {p} {m} s h keeps =
    subst (λ q. IsValid q (after m s)) h.bound
      (ends-IsValid (m s).0 (m s).1
        ((keeps (view s) h.sound refl).at s (record { viewed = refl; numbered = h.numbered })))

-- A call that leaves the view alone when it raises preserves validity.
keeps-IsValid :
    {A : Type 0} {m : Guarded A} {v : View}
    → IsSound v
    → Triple (At v) m (λ _. IsValid v.policy) (λ _. At v)
    → Triple (At v) m (λ _. IsValid v.policy) (λ _. IsValid v.policy)
keeps-IsValid sound t = Triple-map t (λ s h. h) (λ a s h. h) (λ e s h. IsValid_of_At sound h)

pub after-Keeps :
    {A : Type 0} {p : BudgetPolicy} {m : Guarded A} (s : BudgetGuard)
    → IsValid p s
    → Keeps m
    → IsValid p (after m s)
after-Keeps s h keeps = after-IsValid s h (λ v sound _. keeps-IsValid sound (keeps v sound))

kept :
    {A : Type 0} {p : BudgetPolicy} {m : Guarded A} (s t : BudgetGuard)
    → IsValid p s
    → Keeps m
    → t ≡ after m s
    → IsValid p t
kept s t h keeps e = rw e (after-Keeps s h keeps)

-- Each call, whether it returns or raises, keeps the guard valid.
pub Step-IsValid : {p : BudgetPolicy} {s t : BudgetGuard} → Step s t → IsValid p s → IsValid p t
unfolding view
Step-IsValid (graph_steps c e) h = kept _ _ h (record_graph_step-Keeps c) e
Step-IsValid (reserves n e) h = kept _ _ h (reserve_graph_steps-Keeps n) e
Step-IsValid (abandons e) h = kept _ _ h abandon_graph_reservation-Keeps e
Step-IsValid (releases e) h = kept _ _ h release_graph_reservation-Keeps e
Step-IsValid (looks_up hit e) h = kept _ _ h (record_cache_lookup-Keeps hit) e
Step-IsValid (ends stop e) h = kept _ _ h (record_terminal_transition-Keeps stop) e
Step-IsValid (begins_llm id n retry c fresh e) h = rw e (
    after-IsValid _ h (λ v sound same.
      keeps-IsValid sound (begin_llm_call-Keeps id n retry c v sound (rw same fresh))))
Step-IsValid (completes_llm id input output success e) h =
    rw e
      (after-IsValid _ h (λ v sound _. complete_llm_call-Preserves id input output success v sound))
Step-IsValid (begins_tool id name version sha observation retry c e) h =
    kept _ _ h (begin_tool_call-Keeps id name version sha observation retry c) e
Step-IsValid (completes_tool id success e) h = kept _ _ h (complete_tool_call-Keeps id success) e
Step-IsValid (reviews e) h = kept _ _ h record_review-Keeps e
Step-IsValid (corrects e) h = kept _ _ h record_correction-Keeps e
Step-IsValid (acquires e) h = kept _ _ h acquire_slot-Keeps e
Step-IsValid (frees held e) h = kept _ _ h release_slot-Keeps e

pub Reach-IsValid : {p : BudgetPolicy} {s t : BudgetGuard} → IsValid p s → Reach s t → IsValid p t
Reach-IsValid h here = h
Reach-IsValid h (next r st) = Step-IsValid st (Reach-IsValid h r)
