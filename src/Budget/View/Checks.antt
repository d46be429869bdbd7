-- ===== src/Budget/View/Checks.antt =====
-- The checks of the guard change no view; when they pass, what they test holds.
use mathlib.Core.Option.{get_or}
use ndt_agents.Base.{
  ℕ, ◌+◌, ◌≤◌, ◌≡◌, refl, ap, Bool, true, false, Option, none, some, if◌then◌else◌, arith,
}
use ndt_agents.Exec.Triple.{Triple, Triple-bind, Triple-pure, Triple-raise, Triple-map}
use ndt_agents.Budget.Policy.{Limit, Dimension, limit_of, total_tokens}
use ndt_agents.Budget.Data.{ActionClass, DegradationStage, EventType, Code, BudgetGuard}
use ndt_agents.Budget.Stage.{count, degradation_stage}
use ndt_agents.Budget.Journal.{Entry, raise_exceeded}
use ndt_agents.Budget.Checks.{
  deny_with, capacity_code, ensure_capacity, ensure_token_capacity, check_time, stage_denies,
  stage_code, authorize_action,
}
use ndt_agents.Budget.Restore.{is_start}
use ndt_agents.Budget.View.{
  View, At, view, is_overrun, journalled, elapsed_ms-At, record_event-At, telemetry-At,
  Triple-reads,
}

-- An event type that the view does not show.
abbrev pub is_plain : EventType → Bool
is_plain t = if is_start t then false else if is_overrun t then false else true

journalled-plain : (e : Entry) (v : View) → is_plain e.event_type ≡ true → journalled e v ≡ v
journalled-plain e v h = ground arith

module _ (v : View) where
  pub raise_exceeded-At :
      (code : Code) {Q : Unit {0} → BudgetGuard → Type 0}
      → Triple (At v) (raise_exceeded code) Q (λ _. At v)
  unfolding raise_exceeded
  raise_exceeded-At code = Triple-bind telemetry-At λ t. Triple-raise _ (λ s h. h)

  -- A check passes and there was no reason to deny, or it raises; the view stays in both cases.
  pub deny_with-At :
      (code : Option Code) (e : Entry)
      → is_plain e.event_type ≡ true
      → Triple (At v) (deny_with code e) (λ _ s. At v s × (code ≡ none)) (λ _. At v)
  unfolding deny_with
  deny_with-At none e plain = Triple-pure tt (λ s h. (h, refl))
  deny_with-At (some code) e plain =
      Triple-bind
        (rw (journalled-plain e v plain) at
          (record_event-At {v = v} {R = λ _. At v} (record e { error_code = some code })))
        λ _. raise_exceeded-At code

  policy_of : (s : BudgetGuard) → At v s → s.policy ≡ v.policy
  unfolding view
  policy_of s h = ap (λ (w : View). w.policy) h.viewed

  pub ledger_of : (s : BudgetGuard) → At v s → s.ledger ≡ v.ledger
  unfolding view
  ledger_of s h = ap (λ (w : View). w.ledger) h.viewed

  capacity_code-none :
      (l : Limit) (projected : ℕ) → capacity_code l projected ≡ none → projected ≤ l.active
  capacity_code-none l projected h = ground arith

  -- What a passed capacity check has shown.
  abbrev pub Fits : Dimension → ℕ → Option ℕ → Type 0
  Fits d amount current =
      get_or current (count v.ledger.counts d) + amount ≤ (limit_of v.policy d).active

  pub ensure_capacity-At :
      (d : Dimension) (amount : ℕ) (t : EventType) (current : Option ℕ)
      → is_plain t ≡ true
      → Triple
          (At v)
          (ensure_capacity d amount t current)
          (λ _ s. At v s × Fits d amount current)
          (λ _. At v)
  unfolding ensure_capacity
  ensure_capacity-At d amount t current plain = Triple-reads _ _ v.policy policy_of (
      Triple-reads _ _ v.ledger ledger_of (
        Triple-map (deny_with-At _ _ plain) (λ s h. h)
          (λ u s h. (h.0, capacity_code-none (limit_of v.policy d) _ h.1)) (λ e s h. h)))

  pub ensure_token_capacity-At :
      (amount : ℕ) (t : EventType)
      → is_plain t ≡ true
      → Triple
          (At v)
          (ensure_token_capacity amount t)
          (λ _ s.
            At v s
            × (v.ledger.counts.total_tokens + v.ledger.reserved_tokens + amount
                ≤ v.policy.total_tokens.active))
          (λ _. At v)
  unfolding ensure_token_capacity limit_of
  ensure_token_capacity-At amount t plain =
      Triple-reads _ _ v.ledger ledger_of (ensure_capacity-At total_tokens amount t _ plain)

  pub check_time-At : Triple (At v) check_time (λ _. At v) (λ _. At v)
  unfolding check_time
  check_time-At = Triple-bind elapsed_ms-At λ elapsed.
      Triple-reads _ _ v.policy policy_of
        (Triple-map (deny_with-At _ _ refl) (λ s h. h) (λ u s h. h.0) (λ e s h. h))

  -- What a passed authorization has shown.
  abbrev pub Permits : ActionClass → Type 0
  Permits c = (elapsed : ℕ) × (stage_denies (degradation_stage v.policy v.ledger elapsed) c ≡ false)

  stage_code-none :
      (stage : DegradationStage) (c : ActionClass)
      → stage_code stage c ≡ none
      → stage_denies stage c ≡ false
  stage_code-none stage c h = ground arith

  pub authorize_action-At :
      (c : ActionClass) → Triple (At v) (authorize_action c) (λ _ s. At v s × Permits c) (λ _. At v)
  unfolding authorize_action
  authorize_action-At c = Triple-bind check_time-At λ _. Triple-bind elapsed_ms-At λ elapsed.
      Triple-reads _ _ v.policy policy_of (
        Triple-reads _ _ v.ledger ledger_of (
          Triple-map (deny_with-At _ _ refl) (λ s h. h)
            (λ u s h. (h.0, (elapsed, stage_code-none _ c h.1))) (λ e s h. h)))
