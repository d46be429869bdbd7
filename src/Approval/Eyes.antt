-- ===== src/Approval/Eyes.antt =====
-- Who stands behind an approval in src/ndt_agents/approval/service.py: the decisions that the state
-- `approved` comes from.
use ndt_agents.Base.{
  Bool, true, false, ◌||◌, List, [], ◌∷◌, String, str_eq, eq_iff, has, ◌≡◌, refl, sym, ◌∙◌, ◌⊎◌,
  inl, inr, Bool-cases,
}
use mathlib.Core.Path.{subst}
use mathlib.Core.List.{Mem, mem-cons}
use mathlib.Core.Logic.Or
use ndt_agents.Approval.Data.{ApprovalDecision}
use ndt_agents.Approval.State.{is_approval, approved_roles}
use ndt_agents.Approval.Fair.{All, AllDistinct, approvers, str_eq_sym}

-- A decision of the list that approves in a role.
pub record Approves (ds : List ApprovalDecision) (role : String) (d : ApprovalDecision)
    : Type 0 where
  pub listed : Mem d ds
  pub approving : is_approval d.outcome ≡ true
  pub in_role : d.actor_role ≡ role
  pub counted : has d.actor_id (approvers ds) ≡ true

pub has_cons :
    (x y : String) (ys : List String) → has x (y ∷ ys) ≡ true → (x ≡ y) ⊎ (has x ys ≡ true)
has_cons x y ys h = elim (Bool-cases (str_eq x y)) [
  | inl e ↦ inl ((eq_iff x y).0 e)
  | inr e ↦ inr (rw e at h)
]

same_text : (s : String) → str_eq s s ≡ true
same_text s = (eq_iff s s).1 refl

or_true : (b : Bool) → b || true ≡ true
or_true true = refl
or_true false = refl

pub later :
    (e : ApprovalDecision) (ds : List ApprovalDecision) (role : String) (d : ApprovalDecision)
    → Approves ds role d
    → Approves (e ∷ ds) role d
later e ds role d h = record {
  listed = mem-cons.1 (Or.inr h.listed);
  approving = h.approving;
  in_role = h.in_role;
  counted = elim (Bool-cases (is_approval e.outcome)) [
    | inl yes' ↦ rw (yes', h.counted) (or_true _)
    | inr differs ↦ rw differs h.counted
  ];
}

first_one :
    (d : ApprovalDecision) (ds : List ApprovalDecision)
    → is_approval d.outcome ≡ true
    → Approves (d ∷ ds) d.actor_role d
first_one d ds h = record {
  listed = mem-cons.1 (Or.inl refl);
  approving = h;
  in_role = refl;
  counted = rw (h, same_text d.actor_id) refl;
}

other_actor :
    (x y : String) (xs : List String) → has x xs ≡ false → has y xs ≡ true → str_eq x y ≡ false
other_actor x y xs absent present = elim (Bool-cases (str_eq x y)) [
  | inl same ↦
      let there : has x xs ≡ true = rw ((eq_iff x y).0 same) present in
      let bad : false ≡ true = sym absent ∙ there in cc
  | inr apart ↦ apart
]

one_role : {r1 r2 : String} → r1 ≡ r2 → str_eq r1 r2 ≡ false → ⊥
one_role {r1} {r2} same apart = let bad : true ≡ false = sym ((eq_iff r1 r2).1 same) ∙ apart in cc

module _ (P : ApprovalDecision → Type 0) where
  -- A role that was approved, by a decision that has what every decision has.
  pub approved_roles-Approves :
      (role : String) (ds : List ApprovalDecision)
      → All P ds
      → has role (approved_roles ds) ≡ true
      → (d : ApprovalDecision) × (Approves ds role d × P d)
  unfolding approved_roles
  approved_roles-Approves role [] all h = cc
  approved_roles-Approves role (d ∷ ds) all h =
      let among_rest : has role (approved_roles ds) ≡ true
          → (e : ApprovalDecision) × (Approves (d ∷ ds) role e × P e) =
        λ more.
          let (e, found) = approved_roles-Approves role ds all.1 more in
          (e, (later d ds role e found.0, found.1)) in
      elim (Bool-cases (is_approval d.outcome)) [
        | inl yes' ↦ elim (has_cons role d.actor_role (approved_roles ds) (rw yes' at h)) [
          | inl same ↦
              (d, (subst (λ x. Approves (d ∷ ds) x d) (sym same) (first_one d ds yes'), all.0))
          | inr more ↦ among_rest more
        ]
        | inr differs ↦ among_rest (rw differs at h)
      ]

  -- Two roles that were approved, by two decisions of different actors.
  abbrev pub TwoApprove : List ApprovalDecision → String → String → Type 0
  TwoApprove ds r1 r2 =
      (d : ApprovalDecision) × (e : ApprovalDecision) × Approves ds r1 d
      × Approves ds r2 e
      × P d
      × P e
      × (str_eq d.actor_id e.actor_id ≡ false)

  pub approved_roles-TwoApprove :
      (r1 r2 : String) (ds : List ApprovalDecision)
      → str_eq r1 r2 ≡ false
      → All P ds
      → AllDistinct (approvers ds)
      → has r1 (approved_roles ds) ≡ true
      → has r2 (approved_roles ds) ≡ true
      → TwoApprove ds r1 r2
  unfolding approved_roles
  approved_roles-TwoApprove r1 r2 [] apart all distinct h1 h2 = cc
  approved_roles-TwoApprove r1 r2 (d ∷ ds) apart all distinct h1 h2 =
      let later_two : TwoApprove ds r1 r2 → TwoApprove (d ∷ ds) r1 r2 =
        λ t. (t.0, t.1, later d ds r1 t.0 t.2, later d ds r2 t.1 t.3, t.4, t.5, t.6) in
      let first_in : (r : String)
          → r ≡ d.actor_role
          → is_approval d.outcome ≡ true
          → Approves (d ∷ ds) r d =
        λ r same yes'. subst (λ x. Approves (d ∷ ds) x d) (sym same) (first_one d ds yes') in
      elim (Bool-cases (is_approval d.outcome)) [
        | inl yes' ↦
            let once : AllDistinct (d.actor_id ∷ approvers ds) = rw yes' at distinct in
            elim (has_cons r1 d.actor_role (approved_roles ds) (rw yes' at h1)) [
              | inl same1 ↦ elim (has_cons r2 d.actor_role (approved_roles ds) (rw yes' at h2)) [
                | inl same2 ↦ absurd (one_role (same1 ∙ sym same2) apart)
                | inr more2 ↦
                    let (e, found) = approved_roles-Approves r2 ds all.1 more2 in
                    (
                      d,
                      e,
                      first_in r1 same1 yes',
                      later d ds r2 e found.0,
                      all.0,
                      found.1,
                      other_actor d.actor_id e.actor_id (approvers ds) once.0 found.0.counted,
                    )
              ]
              | inr more1 ↦ elim (has_cons r2 d.actor_role (approved_roles ds) (rw yes' at h2)) [
                | inl same2 ↦
                    let (e, found) = approved_roles-Approves r1 ds all.1 more1 in
                    (
                      e,
                      d,
                      later d ds r1 e found.0,
                      first_in r2 same2 yes',
                      found.1,
                      all.0,
                      str_eq_sym d.actor_id e.actor_id
                          (other_actor d.actor_id e.actor_id (approvers ds) once.0 found.0.counted),
                    )
                | inr more2 ↦
                    later_two (approved_roles-TwoApprove r1 r2 ds apart all.1 once.1 more1 more2)
              ]
            ]
        | inr no' ↦ later_two (
            approved_roles-TwoApprove r1 r2 ds apart all.1 (rw no' at distinct) (rw no' at h1)
              (rw no' at h2))
      ]
