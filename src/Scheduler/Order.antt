-- ===== src/Scheduler/Order.antt =====
-- The waves of `TaskScheduler._topological_waves` in src/ndt_agents/orchestration/scheduler.py.
use ndt_agents.Base.{
  has, is_subset, ◌≤◌, ◌<◌, Bool, true, false, ◌&&◌, ◌||◌, List, [], ◌∷◌, ◌++◌, String, str_eq,
  eq_iff, length, ◌≡◌, refl, inl, inr, Bool-cases, arith,
}
use ndt_agents.Scheduler.Data.{ChildTaskContext}
use ndt_agents.Scheduler.Waves.{ids, ready, without, Waves}

-- Every dependency of each context is resolved.
abbrev pub AllReady : List String → List ChildTaskContext → Type 0
AllReady resolved [] = Unit
AllReady resolved (c ∷ cs) =
    (is_subset c.dependency_assignment_ids resolved ≡ true) × AllReady resolved cs

-- The contexts of a wave depend only on contexts of the waves before it.
abbrev pub InOrder : List String → Waves → Type 0
InOrder resolved [] = Unit
InOrder resolved (w ∷ ws) = AllReady resolved w × InOrder (resolved ++ ids w) ws

abbrev pub all_ids : Waves → List String
all_ids [] = []
all_ids (w ∷ ws) = ids w ++ all_ids ws

and_true : (a b : Bool) → a && b ≡ true → (a ≡ true) × (b ≡ true)
and_true true true h = (refl, refl)
and_true true false h = cc
and_true false b h = cc

pub ready-AllReady :
    (remaining resolved : List String) (cs : List ChildTaskContext)
    → AllReady resolved (ready remaining resolved cs)
ready-AllReady remaining resolved [] = tt
ready-AllReady remaining resolved (c ∷ cs) =
    let rest = ready-AllReady remaining resolved cs in
    elim (Bool-cases
      (has c.assignment_id remaining && is_subset c.dependency_assignment_ids resolved)) [
        | inl h ↦ rw h ((and_true _ _ h).1, rest)
        | inr h ↦ rw h rest
      ]

pub has_append : (x : String) (xs ys : List String) → has x (xs ++ ys) ≡ has x xs || has x ys
has_append x [] ys = refl
has_append x (z ∷ xs) ys = elim (Bool-cases (str_eq x z)) [
  | inl h ↦ rw h refl
  | inr h ↦ rw h (has_append x xs ys)
]

-- What is taken out is in the wave.
pub has-without :
    (x : String) (gone xs : List String)
    → has x xs ≡ true
    → has x gone || has x (without gone xs) ≡ true
has-without x gone [] h = cc
has-without x gone (y ∷ ys) h = elim (Bool-cases (str_eq x y)) [
  | inl s ↦
      let same = (eq_iff x y).0 s in
      elim (Bool-cases (has x gone)) [
        | inl g ↦ rw g refl
        | inr g ↦ let g' : has y gone ≡ false = rw (← same) g in rw (g, g', s) refl
      ]
  | inr s ↦
      let h' : has x ys ≡ true = rw s at h in
      elim (Bool-cases (has y gone)) [
        | inl g ↦ rw g (has-without x gone ys h')
        | inr g ↦ rw (g, s) (has-without x gone ys h')
      ]
]

length-without : (gone xs : List String) → length (without gone xs) ≤ length xs
length-without gone [] = omega arith
length-without gone (y ∷ ys) = elim (Bool-cases (has y gone)) [
  | inl g ↦ rw g (omega (arith, length-without gone ys))
  | inr g ↦ rw g (omega (arith, length-without gone ys))
]

pub length-without_less :
    (x : String) (gone xs : List String)
    → has x xs ≡ true
    → has x gone ≡ true
    → length (without gone xs) < length xs
length-without_less x gone [] h g = cc
length-without_less x gone (y ∷ ys) h g = elim (Bool-cases (str_eq x y)) [
  | inl s ↦
      let g' : has y gone ≡ true = rw (← (eq_iff x y).0 s) g in
      rw g' (omega (arith, length-without gone ys))
  | inr s ↦
      let h' : has x ys ≡ true = rw s at h in
      let less = length-without_less x gone ys h' g in
      elim (Bool-cases (has y gone)) [ inl g' ↦ rw g' (omega arith) | inr g' ↦ rw g' (omega arith) ]
]

pub ready_remaining :
    (remaining resolved : List String) (cs : List ChildTaskContext) {c : ChildTaskContext}
    {wave : List ChildTaskContext}
    → ready remaining resolved cs ≡ c ∷ wave
    → has c.assignment_id remaining ≡ true
ready_remaining remaining resolved [] h = cc
ready_remaining remaining resolved (d ∷ ds) {c} {wave} h =
    elim (Bool-cases
      (has d.assignment_id remaining && is_subset d.dependency_assignment_ids resolved)) [
        | inl t ↦
            let h' : ◌≡◌ {A = List ChildTaskContext} (d ∷ ready remaining resolved ds) (c ∷ wave) =
              rw t at h in
            let same : d ≡ c = cc in rw (← same) (and_true _ _ t).0
        | inr t ↦
            let h' : ready remaining resolved ds ≡ c ∷ wave = rw t at h in
            ready_remaining remaining resolved ds h'
      ]
