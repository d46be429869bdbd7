-- ===== src/Exec/Triple.antt =====
-- Pre- and postconditions of methods: one for a return, one for a raise, with a rule for each way
-- to build a method.
use ndt_agents.Base.{◌≡◌, refl, Bool, true, false, if◌then◌else◌, ◌⊎◌, inl, inr}
use ndt_agents.Exec.{
  Result, ok, err, Exec, pure, raise, gets, lift, modify, raise_if, when, continue, ◌>>=◌,
}

abbrev pub Ends {ℓ} :
    {S E A : Type ℓ} → (A → S → Type ℓ) → (E → S → Type ℓ) → Result E A × S → Type ℓ
Ends Q R (ok a, s) = Q a s
Ends Q R (err e, s) = R e s

-- From a state with `P`, the method returns with `Q` or raises with `R`.
pub record Triple {ℓ} {S E A : Type ℓ} (P : S → Type ℓ) (m : Exec S E A) (Q : A → S → Type ℓ)
    (R : E → S → Type ℓ) : Type ℓ where
  pub at : (s : S) → P s → Ends Q R (m s)

module _ {ℓ} {S E A : Type ℓ} (Q : A → S → Type ℓ) (R : E → S → Type ℓ) where
  pub Ends-lift :
      (r : Result E A) (s : S)
      → ((a : A) → r ≡ ok a → Q a s)
      → ((e : E) → r ≡ err e → R e s)
      → Ends Q R (r, s)
  Ends-lift (ok a) s q k = q a refl
  Ends-lift (err e) s q k = k e refl

module _ {ℓ} {S E A : Type ℓ} {P : S → Type ℓ} {Q : A → S → Type ℓ} {R : E → S → Type ℓ} where
  pub Triple-pure : (a : A) → ((s : S) → P s → Q a s) → Triple P (pure a) Q R
  unfolding pure
  Triple-pure a h = record { at = h }

  pub Triple-raise : (e : E) → ((s : S) → P s → R e s) → Triple P (raise e) Q R
  unfolding raise
  Triple-raise e h = record { at = h }

  pub Triple-gets : (f : S → A) → ((s : S) → P s → Q (f s) s) → Triple P (gets f) Q R
  unfolding gets
  Triple-gets f h = record { at = h }

  pub Triple-lift :
      (r : Result E A)
      → ((a : A) → r ≡ ok a → (s : S) → P s → Q a s)
      → ((e : E) → r ≡ err e → (s : S) → P s → R e s)
      → Triple P (lift r) Q R
  unfolding lift
  Triple-lift r q k = record { at = λ s h. Ends-lift Q R r s (λ a e. q a e s h) (λ x e. k x e s h) }

  pub Triple-if :
      (b : Bool) (m n : Exec S E A)
      → (b ≡ true → Triple P m Q R)
      → (b ≡ false → Triple P n Q R)
      → Triple P (if b then m else n) Q R
  Triple-if true m n km kn = km refl
  Triple-if false m n km kn = kn refl

  -- A fact that a postcondition carries beside the state becomes a hypothesis.
  pub Triple-given :
      {F : Type ℓ} {m : Exec S E A} → (F → Triple P m Q R) → Triple (λ s. P s × F) m Q R
  Triple-given k = record { at = λ s h. (k h.1).at s h.0 }

module _ {ℓ} {S E A : Type ℓ} {P P' : S → Type ℓ} {Q : A → S → Type ℓ} {R : E → S → Type ℓ} where
  -- A precondition with two cases.
  pub Triple-or :
      {m : Exec S E A} → Triple P m Q R → Triple P' m Q R → Triple (λ s. P s ⊎ P' s) m Q R
  Triple-or {m} t u = record { at = either }
    where
      either : (s : S) → P s ⊎ P' s → Ends Q R (m s)
      either s (inl h) = t.at s h
      either s (inr h) = u.at s h

module _ {ℓ} {S E A : Type ℓ} {Q Q' : A → S → Type ℓ} {R R' : E → S → Type ℓ} where
  map-Ends :
      ((a : A) (s : S) → Q a s → Q' a s)
      → ((e : E) (s : S) → R e s → R' e s)
      → (r : Result E A) (s : S) → Ends Q R (r, s)
      → Ends Q' R' (r, s)
  map-Ends q k (ok a) s h = q a s h
  map-Ends q k (err e) s h = k e s h

  -- Consequence.
  pub Triple-map :
      {P P' : S → Type ℓ} {m : Exec S E A}
      → Triple P m Q R
      → ((s : S) → P' s → P s)
      → ((a : A) (s : S) → Q a s → Q' a s)
      → ((e : E) (s : S) → R e s → R' e s)
      → Triple P' m Q' R'
  Triple-map {m} t p q k = record {
    at = λ s h. let (r, s') = m s in map-Ends q k r s' (t.at s (p s h));
  }

module _ {ℓ} {S E A B : Type ℓ} {Q : B → S → Type ℓ} {R : E → S → Type ℓ} where
  continue-Ends :
      {M : A → S → Type ℓ} (f : A → Exec S E B)
      → ((a : A) → Triple (M a) (f a) Q R)
      → (r : Result E A) (s : S) → Ends M R (r, s)
      → Ends Q R (continue r f s)
  continue-Ends f k (ok a) s h = (k a).at s h
  continue-Ends f k (err e) s h = h

  pub Triple-bind :
      {P : S → Type ℓ} {M : A → S → Type ℓ} {m : Exec S E A} {f : A → Exec S E B}
      → Triple P m M R
      → ((a : A) → Triple (M a) (f a) Q R)
      → Triple P (m >>= f) Q R
  unfolding ◌>>=◌
  Triple-bind {m} {f} t k = record {
    at = λ s h. let (r, s') = m s in continue-Ends f k r s' (t.at s h);
  }

module _ {ℓ} {S E A B : Type ℓ} {P : S → Type ℓ} {Q : B → S → Type ℓ} {R : E → S → Type ℓ} where
  -- Going on from a value, or from a raise.
  pub Triple-bind-pure :
      (a : A) (f : A → Exec S E B) → Triple P (f a) Q R → Triple P (pure a >>= f) Q R
  unfolding ◌>>=◌ pure
  Triple-bind-pure a f t = record { at = t.at }

  pub Triple-bind-raise :
      (e : E) (f : A → Exec S E B) → ((s : S) → P s → R e s) → Triple P (raise e >>= f) Q R
  unfolding ◌>>=◌ raise
  Triple-bind-raise e f h = record { at = h }

module _ {S E : Type 0} {P : S → Type 0} {Q : Unit {0} → S → Type 0} {R : E → S → Type 0} where
  pub Triple-modify : (f : S → S) → ((s : S) → P s → Q tt (f s)) → Triple P (modify f) Q R
  unfolding modify
  Triple-modify f h = record { at = h }

  pub Triple-raise_if :
      (b : Bool) (e : E)
      → (b ≡ true → (s : S) → P s → R e s)
      → (b ≡ false → (s : S) → P s → Q tt s)
      → Triple P (raise_if b e) Q R
  unfolding raise_if
  Triple-raise_if true e raises returns = record { at = raises refl }
  Triple-raise_if false e raises returns = record { at = returns refl }

  pub Triple-when :
      (b : Bool) (m : Exec S E (Unit {0}))
      → (b ≡ true → Triple P m Q R)
      → (b ≡ false → (s : S) → P s → Q tt s)
      → Triple P (when b m) Q R
  unfolding when
  Triple-when true m runs skips = record { at = (runs refl).at }
  Triple-when false m runs skips = record { at = skips refl }
