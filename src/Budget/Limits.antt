-- ===== src/Budget/Limits.antt =====
-- What the invariant says to a user of the guard: the spending of every history is within the policy.
use ndt_agents.Base.{
  ℕ, ◌+◌, ◌*◌, ◌≤◌, ◌≡◌, refl, ap, ◌&&◌, ◌||◌, ◌==◌, not, leb, inl, inr, Bool-cases, ◌∙◌, false,
  Bool, true, if◌then◌else◌, List, [], ◌∷◌, arith,
}
use mathlib.Core.Path.{subst}
use ndt_agents.Budget.Policy.{Limit, BudgetPolicy, limit_of}
use ndt_agents.Budget.Data.{
  ActionClass, low_value, query_expansion, standard, validation, finalization, stopped,
  finalize_only, stop_expansion, reduce_low_value, normal, Ledger, Clock, BudgetGuard,
}
use ndt_agents.Budget.Stage.{degradation_stage, ratios, staged, usage}
use ndt_agents.Budget.Checks.{stage_denies}
use ndt_agents.Budget.Restore.{new_guard}
use ndt_agents.Budget.View.{view, has_overrun, NumberedFrom}
use ndt_agents.Budget.Sound.{IsSound, IsValid, total}
use ndt_agents.Budget.Sound.Stages.{used_up, any_reached, degradation_stage_lem}
use ndt_agents.Budget.Sound.Runs.{Reach, Reach-IsValid, new_guard-IsValid}

-- The spending that the guard has counted or reserved is within the active limits of the policy.
pub record SpendsWithin (p : BudgetPolicy) (s : BudgetGuard) : Type 0 where
  pub graph_steps :
      s.ledger.counts.graph_steps + s.ledger.reserved_graph_steps ≤ p.graph_steps.active
  pub llm_calls : s.ledger.counts.llm_calls ≤ p.llm_calls.active
  pub tool_calls : s.ledger.counts.tool_calls ≤ p.tool_calls.active
  pub total_tokens :
      has_overrun s.events ≡ false
      → s.ledger.counts.total_tokens + s.ledger.reserved_tokens ≤ p.total_tokens.active
  pub concurrency : s.ledger.counts.professional_concurrency ≤ p.professional_concurrency.active
  pub review_rounds : s.ledger.counts.review_rounds ≤ p.review_rounds.active
  pub correction_rounds : s.ledger.counts.correction_rounds ≤ p.correction_rounds.active

valid-SpendsWithin : (p : BudgetPolicy) (s : BudgetGuard) → IsValid p s → SpendsWithin p s
unfolding view
valid-SpendsWithin p s h = subst (λ q. SpendsWithin q s) h.bound (within h.sound)
  where
    within : IsSound (view s) → SpendsWithin s.policy s
    within sound = ground arith

-- After any history of calls on a new guard (a model call begins under a UUID that no call in flight
-- has, and a slot is released only where one is held), whatever the calls returned or raised and
-- whatever the clock showed, the graph steps (taken and reserved), the model calls, the tool calls, the
-- concurrent professionals, the review rounds and the correction rounds are each within the
-- active limit of the policy; and so are the tokens, charged and reserved, unless the journal shows
-- that a provider exceeded a reservation.
pub spends_within :
    (p : BudgetPolicy) (c : Clock) (s : BudgetGuard) → Reach (new_guard p c) s → SpendsWithin p s
spends_within p c s reach = valid-SpendsWithin p s (Reach-IsValid (new_guard-IsValid p c) reach)

-- After any history of calls on a new guard (fresh UUIDs, slots released only where held), the
-- reserved tokens are exactly the sum of the model
-- calls' reservations in flight, and the events are numbered 1, 2, 3, … without a gap.
pub books_balance :
    (p : BudgetPolicy) (c : Clock) (s : BudgetGuard)
    → Reach (new_guard p c) s
    → (s.ledger.reserved_tokens ≡ total s.ledger.llm_reservations) × NumberedFrom 0 s.events
unfolding view
books_balance p c s reach =
    let valid = Reach-IsValid (new_guard-IsValid p c) reach in
    (valid.sound.reserved_total, valid.numbered)

reached_mono :
    (high low : ℕ) (rs : List (ℕ × ℕ))
    → low ≤ high
    → any_reached high rs ≡ true
    → any_reached low rs ≡ true
reached_mono high low [] le h = cc
reached_mono high low ((v, n) ∷ rest) le h = grind (arith, reached_mono high low rest le)

-- The share of the limits from which on an action class is denied, in percent; none: never.
abbrev pub denied_from : ActionClass → Bool × ℕ
denied_from low_value = (true, 70)
denied_from query_expansion = (true, 85)
denied_from standard = (true, 95)
denied_from validation = (false, 0)
denied_from finalization = (false, 0)

abbrev share : ActionClass → Bool → Bool → Bool → Bool
share low_value b85 b95 b70 = b70
share query_expansion b85 b95 b70 = b85
share standard b85 b95 b70 = b95
share c b85 b95 b70 = false

stage_table :
    (c : ActionClass) (b100 b95 b85 b70 : Bool)
    → (b100 ≡ true → b95 ≡ true)
    → (b95 ≡ true → b85 ≡ true)
    → (b85 ≡ true → b70 ≡ true)
    → stage_denies
        (if b100
          then stopped
          else if b95
          then finalize_only
          else if b85
          then stop_expansion
          else if b70
          then reduce_low_value
          else normal)
        c
      ≡ share c b85 b95 b70
unfolding stage_denies
stage_table c b100 b95 b85 b70 h95 h85 h70 = ground arith

share-eq :
    (c : ActionClass) (used : ℕ → Bool)
    → share c (used 85) (used 95) (used 70)
      ≡ (if (denied_from c).0 then used (denied_from c).1 else false)
share-eq low_value used = refl
share-eq c used = refl

-- A share of a limit, in percent, is used; of a limit of zero, none ever is.
abbrev pub is_used : ℕ → ℕ → Limit → Bool
is_used percent used limit = not (limit.active == 0) && leb (percent * limit.active) (100 * used)

-- Some limit other than the one on concurrency has this share of it used: the graph steps and the
-- tokens with what is reserved of them, the calls, the rounds, or the wall time.
abbrev pub some_used : ℕ → BudgetPolicy → Ledger → ℕ → Bool
some_used percent p l elapsed =
    is_used percent (l.counts.graph_steps + l.reserved_graph_steps) p.graph_steps
    || (is_used percent l.counts.llm_calls p.llm_calls
        || (is_used percent l.counts.tool_calls p.tool_calls
            || (is_used percent (l.counts.total_tokens + l.reserved_tokens) p.total_tokens
                || (is_used percent elapsed p.wall_time_ms
                    || (is_used percent l.counts.review_rounds p.review_rounds
                        || is_used percent l.counts.correction_rounds p.correction_rounds)))))

reached_next :
    (percent used : ℕ) (limit : Limit) (rest : List (ℕ × ℕ)) (others : Bool)
    → any_reached percent rest ≡ others
    → any_reached percent (if limit.active == 0 then rest else (used, limit.active) ∷ rest)
      ≡ (is_used percent used limit || others)
reached_next percent used limit rest others h = elim (Bool-cases (limit.active == 0)) [
  | inl zero ↦ rw zero h
  | inr more ↦ elim (Bool-cases (leb (percent * limit.active) (100 * used))) [
    | inl y ↦ rw (more, y) refl
    | inr n ↦ rw (more, n) h
  ]
]

reached_last :
    (percent used : ℕ) (limit : Limit)
    → any_reached percent (if limit.active == 0 then [] else (used, limit.active) ∷ [])
      ≡ is_used percent used limit
reached_last percent used limit = ground arith

used_up-eq :
    (percent : ℕ) (p : BudgetPolicy) (l : Ledger) (elapsed : ℕ)
    → used_up percent p l elapsed ≡ some_used percent p l elapsed
unfolding ratios usage limit_of
used_up-eq percent p l elapsed = reached_next percent _ p.graph_steps _ _ (
    reached_next percent _ p.llm_calls _ _ (
      reached_next percent _ p.tool_calls _ _ (
        reached_next percent _ p.total_tokens _ _ (
          reached_next percent _ p.wall_time_ms _ _ (
            reached_next percent _ p.review_rounds _ _
              (reached_last percent _ p.correction_rounds))))))

-- The degradation stage denies a low-value action exactly when some limit that is not zero, other
-- than the one on concurrency, is used up to 70 percent (a limit on graph steps or tokens counts what
-- is reserved as used), a query expansion from 85 percent, a standard action from 95 percent, and
-- validation and finalization never.
pub stage_denies-degradation_stage :
    (p : BudgetPolicy) (l : Ledger) (elapsed : ℕ) (c : ActionClass)
    → stage_denies (degradation_stage p l elapsed) c
      ≡ (if (denied_from c).0 then some_used (denied_from c).1 p l elapsed else false)
stage_denies-degradation_stage p l elapsed c =
    let mono =
      λ (high low : ℕ) (le : low ≤ high). reached_mono high low (ratios p l elapsed staged) le in
    rw (degradation_stage_lem p l elapsed) (
      stage_table c _ _ _ _ (mono 100 95 (omega arith)) (mono 95 85 (omega arith))
        (mono 85 70 (omega arith))
      ∙ share-eq c (λ percent. used_up percent p l elapsed)
      ∙ ap (λ b. if (denied_from c).0 then b else false) (used_up-eq (denied_from c).1 p l elapsed))
