-- ===== src/Dict.antt =====
-- Python dictionaries: pairs in the order their keys were first written, with a Boolean key test.
use ndt_agents.Base.{
  Bool, true, false, if◌then◌else◌, Option, none, some, List, [], ◌∷◌, ◌≡◌, refl, ap, ◌∙◌,
  Bool-cases, inl, inr,
}

-- The key test decides equality of keys.
pub record Decides {K : Type 0} (same : K → K → Bool) : Type 0 where
  pub sound : (a b : K) → same a b ≡ true → a ≡ b
  pub complete : (a : K) → same a a ≡ true

module _ {K V : Type 0} (same : K → K → Bool) where
  -- `d.get(k)`.
  abbrev pub lookup : K → List (K × V) → Option V
  lookup k [] = none
  lookup k ((l, v) ∷ d) = if same l k then some v else lookup k d

  -- `d[k] = v`: an entry of that key is written over where it stands.
  abbrev pub insert : K → V → List (K × V) → List (K × V)
  insert k v [] = (k, v) ∷ []
  insert k v ((l, w) ∷ d) = if same l k then (l, v) ∷ d else (l, w) ∷ insert k v d

  -- `d.pop(k, None)`.
  abbrev pub remove : K → List (K × V) → List (K × V)
  remove k [] = []
  remove k ((l, w) ∷ d) = if same l k then d else (l, w) ∷ remove k d

-- The pairs whose value passes a test.
abbrev pub keep : {K V : Type 0} → (V → Bool) → List (K × V) → List (K × V)
keep p [] = []
keep p ((k, v) ∷ d) = if p v then (k, v) ∷ keep p d else keep p d

-- A predicate of every pair.
abbrev pub Each : {K V : Type 0} → (K → V → Type 0) → List (K × V) → Type 0
Each P [] = Unit
Each P ((k, v) ∷ d) = P k v × Each P d

module _ {K V : Type 0} {same : K → K → Bool} (decides : Decides same) where
  pub lookup-insert :
      (k : K) (v : V) (d : List (K × V)) → lookup same k (insert same k v d) ≡ some v
  lookup-insert k v [] = rw (decides.complete k)
  lookup-insert k v ((l, w) ∷ d) = elim (Bool-cases (same l k)) [
    | inl h ↦ rw (h, h)
    | inr h ↦ rw (h, h) (lookup-insert k v d)
  ]

  pub lookup-insert-other :
      (k l : K) (v : V) (d : List (K × V))
      → same k l ≡ false
      → lookup same l (insert same k v d) ≡ lookup same l d
  lookup-insert-other k l v [] n = rw n
  lookup-insert-other k l v ((m, w) ∷ d) n = elim (Bool-cases (same m k)) [
    | inl h ↦ let h' = ap (λ x. same x l) (decides.sound m k h) ∙ n in rw (h, h')
    | inr h ↦ elim (Bool-cases (same m l)) [
      | inl g ↦ rw (h, g)
      | inr g ↦ rw (h, g) (lookup-insert-other k l v d n)
    ]
  ]

  pub lookup-remove-other :
      (k l : K) (d : List (K × V))
      → same k l ≡ false
      → lookup same l (remove same k d) ≡ lookup same l d
  lookup-remove-other k l [] n = refl
  lookup-remove-other k l ((m, w) ∷ d) n = elim (Bool-cases (same m k)) [
    | inl h ↦ let h' = ap (λ x. same x l) (decides.sound m k h) ∙ n in rw (h, h')
    | inr h ↦ elim (Bool-cases (same m l)) [
      | inl g ↦ rw (h, g)
      | inr g ↦ rw (h, g) (lookup-remove-other k l d n)
    ]
  ]

  module _ (P : K → V → Type 0) where
    pub Each-lookup :
        (k : K) (d : List (K × V)) {v : V} → Each P d → lookup same k d ≡ some v → P k v
    Each-lookup k [] e h = cc
    Each-lookup k ((l, w) ∷ d) {v} e h = elim (Bool-cases (same l k)) [
      | inl s ↦
          let h' : ◌≡◌ {A = Option V} (some w) (some v) = rw s at h in
          let found : w ≡ v = cc in rw (← decides.sound l k s, ← found) e.0
      | inr s ↦ let h' : lookup same k d ≡ some v = rw s at h in Each-lookup k d e.1 h'
    ]

    pub Each-insert :
        (k : K) (v : V) (d : List (K × V)) → P k v → Each P d → Each P (insert same k v d)
    Each-insert k v [] p e = (p, tt)
    Each-insert k v ((l, w) ∷ d) p e = elim (Bool-cases (same l k)) [
      | inl s ↦ rw (s, decides.sound l k s) (p, e.1)
      | inr s ↦ rw s (e.0, Each-insert k v d p e.1)
    ]

    pub Each-remove : (k : K) (d : List (K × V)) → Each P d → Each P (remove same k d)
    Each-remove k [] e = tt
    Each-remove k ((l, w) ∷ d) e = elim (Bool-cases (same l k)) [
      | inl s ↦ rw s e.1
      | inr s ↦ rw s (e.0, Each-remove k d e.1)
    ]

module _ {K V : Type 0} (P : K → V → Type 0) (p : V → Bool) where
  pub Each-keep : (d : List (K × V)) → Each P d → Each P (keep p d)
  Each-keep [] e = tt
  Each-keep ((k, v) ∷ d) e = elim (Bool-cases (p v)) [
    | inl s ↦ rw s (e.0, Each-keep d e.1)
    | inr s ↦ rw s (Each-keep d e.1)
  ]
