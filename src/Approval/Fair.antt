-- ===== src/Approval/Fair.antt =====
-- What fair lists of decisions and of grants are, for `ApprovalService` of
-- src/ndt_agents/approval/service.py.
use ndt_agents.Base.{
  Bool, true, false, ◌||◌, if◌then◌else◌, List, [], ◌∷◌, ◌++◌, String, str_eq, eq_iff, has, ◌≡◌,
  refl, sym, ◌∙◌, inl, inr, Bool-cases,
}
use ndt_agents.Approval.Data.{ApprovalDecision}
use ndt_agents.Approval.State.{is_approval}
use ndt_agents.Approval.Requests.{acted}

abbrev pub All {ℓ} : {A : Type ℓ} → (A → Type ℓ) → List A → Type ℓ
All P [] = Unit
All P (x ∷ xs) = P x × All P xs

pub All-append {ℓ} :
    {A : Type ℓ} (P : A → Type ℓ) (xs : List A) (x : A) → All P xs → P x → All P (xs ++ x ∷ [])
All-append P [] x h hx = (hx, tt)
All-append P (y ∷ ys) x h hx = (h.0, All-append P ys x h.1 hx)

-- No text stands twice.
abbrev pub AllDistinct : List String → Type 0
AllDistinct [] = Unit
AllDistinct (x ∷ xs) = (has x xs ≡ false) × AllDistinct xs

pub str_eq_sym : (a b : String) → str_eq a b ≡ false → str_eq b a ≡ false
str_eq_sym a b h = elim (Bool-cases (str_eq b a)) [
  | inl e ↦
      let same : str_eq a b ≡ true = (eq_iff a b).1 (sym ((eq_iff b a).0 e)) in
      let bad : false ≡ true = sym h ∙ same in cc
  | inr e ↦ e
]

pub or_false : (a b : Bool) → a || b ≡ false → (a ≡ false) × (b ≡ false)
or_false false b h = (refl, h)
or_false true b h = cc

has-append :
    (x : String) (ys : List String) (y : String)
    → has x ys ≡ false
    → str_eq x y ≡ false
    → has x (ys ++ y ∷ []) ≡ false
has-append x [] y h n = rw n refl
has-append x (z ∷ zs) y h n =
    let apart = or_false (str_eq x z) (has x zs) h in rw apart.0 (has-append x zs y apart.1 n)

AllDistinct-append :
    (xs : List String) (x : String) → AllDistinct xs → has x xs ≡ false → AllDistinct (xs ++ x ∷ [])
AllDistinct-append [] x h n = (refl, tt)
AllDistinct-append (y ∷ ys) x h n =
    let apart = or_false _ _ n in
    (has-append y ys x h.0 (str_eq_sym x y apart.0), AllDistinct-append ys x h.1 apart.1)

-- The actors of the decisions that approve.
abbrev pub approvers : List ApprovalDecision → List String
approvers [] = []
approvers (d ∷ ds) =
    let rest = approvers ds in if is_approval d.outcome then d.actor_id ∷ rest else rest

has-approvers :
    (x : String) (ds : List ApprovalDecision) → acted x ds ≡ false → has x (approvers ds) ≡ false
has-approvers x [] h = refl
has-approvers x (d ∷ ds) h =
    let apart = or_false _ _ h in
    elim (Bool-cases (is_approval d.outcome)) [
      | inl e ↦ rw (e, str_eq_sym d.actor_id x apart.0) (has-approvers x ds apart.1)
      | inr e ↦ rw e (has-approvers x ds apart.1)
    ]

approvers-append :
    (ds : List ApprovalDecision) (d : ApprovalDecision)
    → approvers (ds ++ d ∷ [])
      ≡ (if is_approval d.outcome then approvers ds ++ d.actor_id ∷ [] else approvers ds)
approvers-append [] d = refl
approvers-append (e ∷ es) d = elim (Bool-cases (is_approval e.outcome)) [
  | inl h ↦ elim (Bool-cases (is_approval d.outcome)) [
    | inl g ↦ let rest = approvers-append es d in rw (h, rest, g) refl
    | inr g ↦ let rest = approvers-append es d in rw (h, rest, g) refl
  ]
  | inr h ↦ rw h (approvers-append es d)
]

-- A decision by someone who has not acted keeps the approvers distinct.
pub approvers-AllDistinct :
    (ds : List ApprovalDecision) (d : ApprovalDecision)
    → AllDistinct (approvers ds)
    → (is_approval d.outcome ≡ true → acted d.actor_id ds ≡ false)
    → AllDistinct (approvers (ds ++ d ∷ []))
approvers-AllDistinct ds d h first =
    rw (approvers-append ds d) (elim (Bool-cases (is_approval d.outcome)) [
      | inl e ↦
          rw e
            (AllDistinct-append (approvers ds) d.actor_id h (has-approvers d.actor_id ds (first e)))
      | inr e ↦ rw e h
    ])
