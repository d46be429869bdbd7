-- ===== src/Budget/View.antt =====
-- What the methods of the budget guard move: the policy, the ledger, and what the journal tells of
-- started tool calls and of exceeded token reservations. One rule for each primitive method.
pub mod Checks
pub mod Calls
use mathlib.Core.Path.{subst}
use mathlib.Core.Option.{get_or}
use ndt_agents.Base.{
  ℕ, suc, ◌+◌, ◌-◌, ◌≤◌, ◌≡◌, refl, ap, sym, ◌∙◌, Bool, true, false, Option, none, some, List, [],
  ◌∷◌, ◌++◌, String, length, if◌then◌else◌, arith,
}
use ndt_agents.Exec.{Result, ok, err, Exec, gets, modify, ◌>>=◌, ◌>>◌}
use ndt_agents.Exec.Triple.{Triple, Triple-bind, Triple-gets, Triple-modify, Triple-given}
use ndt_agents.Budget.Policy.{BudgetPolicy, limit_of, Dimension}
use ndt_agents.Budget.Data.{
  EventType, BudgetEvent, BudgetError, Ledger, BudgetGuard, Guarded, llm_token_reservation_exceeded,
  tool_call_started,
}
use ndt_agents.Budget.Journal.{
  Entry, read_clock, elapsed_ms, event_of, record_event, telemetry, raise_exceeded, on_ledger,
}
use ndt_agents.Budget.Restore.{started_actions, paired, is_start}

-- The event that shows a provider's overrun of its reservation.
abbrev pub is_overrun : EventType → Bool
is_overrun llm_token_reservation_exceeded = true
is_overrun t = false

unfoldable pub has_overrun : List BudgetEvent → Bool
has_overrun [] = false
has_overrun (e ∷ events) = if is_overrun e.event_type then true else has_overrun events

pub record View : Type 0 where
  pub policy : BudgetPolicy
  pub ledger : Ledger
  pub starts : List (String × String)
  pub overrun : Bool

unfoldable pub view : BudgetGuard → View
unfolding started_actions has_overrun
view s = record {
  policy = s.policy;
  ledger = s.ledger;
  starts = started_actions s.events;
  overrun = has_overrun s.events;
}

-- The events are numbered one after another, from `suc n`.
abbrev pub NumberedFrom : ℕ → List BudgetEvent → Type 0
NumberedFrom n [] = Unit
NumberedFrom n (e ∷ events) = (e.sequence ≡ suc n) × NumberedFrom (suc n) events

-- The guard has this view, and its journal is numbered from 1.
pub record At (v : View) (s : BudgetGuard) : Type 0 where
  pub viewed : view s ≡ v
  pub numbered : NumberedFrom 0 s.events

abbrev pub push_start :
    Bool → Option String → Option String → List (String × String) → List (String × String)
push_start true (some signature) (some observation) starts = starts ++ (signature, observation) ∷ []
push_start b signature observation starts = starts

-- What recording an entry makes of a view.
abbrev pub journalled : Entry → View → View
journalled e v = record v {
  starts = push_start (is_start e.event_type) e.action_signature e.observation_sha256 v.starts;
  overrun = if is_overrun e.event_type then true else v.overrun;
}

numbered-append :
    (n : ℕ) (events : List BudgetEvent) (e : BudgetEvent)
    → NumberedFrom n events
    → e.sequence ≡ n + length events + 1
    → NumberedFrom n (events ++ e ∷ [])
numbered-append n [] e h q = (omega arith, tt)
numbered-append n (x ∷ events) e h q = (h.0, numbered-append (suc n) events e h.1 (omega arith))

paired-push_start :
    (b c : Bool) (x y z w : Option String) (xs : List (String × String))
    → paired b x y (push_start c z w xs) ≡ push_start c z w (paired b x y xs)
paired-push_start true true (some x) (some y) (some z) (some w) xs = refl
paired-push_start b c x y z w xs = refl

paired-nil : (b : Bool) (x y : Option String) → paired b x y [] ≡ push_start b x y []
paired-nil true (some x) (some y) = refl
paired-nil b x y = refl

started_actions-append :
    (events : List BudgetEvent) (e : BudgetEvent)
    → started_actions (events ++ e ∷ [])
      ≡ push_start
          (is_start e.event_type)
          e.action_signature
          e.observation_sha256
          (started_actions events)
unfolding started_actions
started_actions-append [] e = paired-nil _ _ _
started_actions-append (x ∷ events) e = rw (started_actions-append events e) (
    paired-push_start (is_start x.event_type) (is_start e.event_type) x.action_signature
      x.observation_sha256 e.action_signature e.observation_sha256 (started_actions events))

has_overrun-append :
    (events : List BudgetEvent) (e : BudgetEvent)
    → has_overrun (events ++ e ∷ [])
      ≡ (if is_overrun e.event_type then true else has_overrun events)
unfolding has_overrun
has_overrun-append [] e = refl
has_overrun-append (x ∷ events) e = ground (arith, has_overrun-append events e)

append_event-At :
    {v : View} (e : Entry) (elapsed : ℕ) (s : BudgetGuard)
    → At v s
    → At (journalled e v) (record s { events = s.events ++ event_of s e elapsed ∷ [] })
unfolding view event_of
append_event-At e elapsed s h = record {
  viewed =
      rw
        (
          started_actions-append s.events (event_of s e elapsed),
          has_overrun-append s.events (event_of s e elapsed),
        )
        (ap (journalled e) h.viewed);
  numbered = numbered-append 0 s.events _ h.numbered (omega arith);
}

module _ {v : View} {R : BudgetError → BudgetGuard → Type 0} where
  pub elapsed_ms-At : Triple (At v) elapsed_ms (λ _. At v) R
  unfolding elapsed_ms read_clock ◌>>=◌ gets view
  elapsed_ms-At = record { at = λ s h. record { viewed = h.viewed; numbered = h.numbered } }

  pub record_event-At : (e : Entry) → Triple (At v) (record_event e) (λ _. At (journalled e v)) R
  unfolding record_event
  record_event-At e =
      Triple-bind elapsed_ms-At λ elapsed. Triple-modify _ (append_event-At e elapsed)

  pub telemetry-At : Triple (At v) telemetry (λ _. At v) R
  unfolding telemetry
  telemetry-At = Triple-bind elapsed_ms-At λ elapsed. Triple-gets _ (λ s h. h)

  pub on_ledger-At :
      (f : Ledger → Ledger)
      → Triple (At v) (on_ledger f) (λ _. At (record v { ledger = f v.ledger })) R
  unfolding on_ledger view
  on_ledger-At f = Triple-modify _ (λ s h. record {
    viewed = ap (λ (w : View). record w { ledger = f w.ledger }) h.viewed;
    numbered = h.numbered;
  })

  -- Reading a part of the guard that the view shows.
  pub Triple-reads :
      {A B : Type 0} {Q : B → BudgetGuard → Type 0} (f : BudgetGuard → A) (k : A → Guarded B)
      (a : A)
      → ((s : BudgetGuard) → At v s → f s ≡ a)
      → Triple (At v) (k a) Q R
      → Triple (At v) (gets f >>= k) Q R
  unfolding ◌>>=◌ gets
  Triple-reads f k a same t = record { at = λ s h. rw (same s h) (t.at s h) }
