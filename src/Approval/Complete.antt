-- ===== src/Approval/Complete.antt =====
-- What an approved state of src/ndt_agents/approval/service.py comes from: complete approvals.
use ndt_agents.Base.{
  Bool, true, false, Option, none, some, List, [], ◌∷◌, String, has, is_subset, ◌≡◌, refl, ap, inl,
  inr, Bool-cases, arith,
}
use ndt_agents.Approval.Data.{
  ApprovalState, approved, ApprovalRule, ApprovalOutcome, approves, rejects, requests_changes,
  expires, cancels, ApprovalDecision,
}
use ndt_agents.Approval.State.{
  terminal_state, or_later, first_terminal, approved_roles, meets, is_complete, or_approval,
  state_of,
}
use ndt_agents.Approval.Eyes.{has_cons, later}

terminal_state-other : (o : ApprovalOutcome) → terminal_state o ≡ some approved → ⊥
terminal_state-other approves h = cc
terminal_state-other rejects h = cc
terminal_state-other requests_changes h = cc
terminal_state-other expires h = cc
terminal_state-other cancels h = cc

or_later-other :
    (found later : Option ApprovalState)
    → (found ≡ some approved → ⊥)
    → (later ≡ some approved → ⊥)
    → or_later found later ≡ some approved
    → ⊥
or_later-other (some t) later f l h = f h
or_later-other none later f l h = l h

first_terminal-other : (ds : List ApprovalDecision) → first_terminal ds ≡ some approved → ⊥
unfolding first_terminal
first_terminal-other [] h = cc
first_terminal-other (d ∷ ds) h =
    or_later-other _ _ (terminal_state-other d.outcome) (first_terminal-other ds) h

only_complete :
    (found : Option ApprovalState) (complete : Bool)
    → (found ≡ some approved → ⊥)
    → or_approval found complete ≡ approved
    → complete ≡ true
only_complete (some t) complete no_end h = absurd (no_end (ap some h))
only_complete none true no_end h = refl
only_complete none false no_end h = cc

-- An approved state comes from complete approvals.
pub approved_complete :
    (rule : ApprovalRule) (ds : List ApprovalDecision)
    → state_of rule ds ≡ approved
    → is_complete rule (approved_roles ds) ≡ true
unfolding state_of
approved_complete rule ds h = only_complete (first_terminal ds) _ (first_terminal-other ds) h

-- What a rule that is complete has approved.
meets-has : (xs ys : List String) → meets xs ys ≡ true → (x : String) × (has x ys ≡ true)
meets-has [] ys h = cc
meets-has (x ∷ xs) ys h = elim (Bool-cases (has x ys)) [
  | inl e ↦ (x, e)
  | inr e ↦ meets-has xs ys (rw e at h)
]

pub is_subset-has :
    (x : String) (xs ys : List String) → is_subset xs ys ≡ true → has x xs ≡ true → has x ys ≡ true
is_subset-has x [] ys h m = cc
is_subset-has x (y ∷ xs) ys h m =
    let front : has y ys ≡ true = ground arith in
    let back : is_subset xs ys ≡ true = ground arith in
    elim (has_cons x y xs m) [
      | inl same ↦ rw same front
      | inr more ↦ is_subset-has x xs ys back more
    ]

pub is_complete-has :
    (rule : ApprovalRule) (roles : List String) (x : String)
    → has x rule.required_roles ≡ true
    → is_complete rule roles ≡ true
    → (y : String) × (has y roles ≡ true)
unfolding is_complete
is_complete-has rule roles x required h = elim (Bool-cases rule.require_all_roles) [
  | inl all ↦ (x, is_subset-has x rule.required_roles roles (rw all at h) required)
  | inr any ↦ meets-has rule.required_roles roles (rw any at h)
]

pub is_complete-all :
    (rule : ApprovalRule) (roles : List String) (x : String)
    → rule.require_all_roles ≡ true
    → has x rule.required_roles ≡ true
    → is_complete rule roles ≡ true
    → has x roles ≡ true
unfolding is_complete
is_complete-all rule roles x all required h =
    is_subset-has x rule.required_roles roles (rw all at h) required
