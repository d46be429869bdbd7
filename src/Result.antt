-- ===== src/Result.antt =====
-- The outcome of a function that may raise: a value, or the exception.
use ndt_agents.Base.{Bool, true, false, if◌then◌else◌, ◌≡◌, refl, Option, none, some}

pub data Result {ℓ} (E A : Type ℓ) : Type ℓ where
  err : E → Result E A
  ok : A → Result E A

module _ {ℓ} {E A B : Type ℓ} where
  infixl 5 ◌>>=◌
  abbrev pub ◌>>=◌ : (first : Result E A) (next : A → Result E B) → Result E B
  err e >>= next = err e
  ok a >>= next = next a

  abbrev pub map_ok : (A → B) → Result E A → Result E B
  map_ok f (err e) = err e
  map_ok f (ok a) = ok (f a)

  -- A chain that returns: what its first step returned, and that the second went on from it.
  pub >>=-eq-ok :
      (first : Result E A) (next : A → Result E B) {end : B}
      → (first >>= next) ≡ ok end
      → (middle : A) × (first ≡ ok middle) × (next middle ≡ ok end)
  >>=-eq-ok (err e) next returned = cc
  >>=-eq-ok (ok a) next returned = (a, refl, returned)

-- A constructor call whose validator raises where the option is empty.
abbrev pub or_raise {ℓ} : {E A : Type ℓ} → Option A → E → Result E A
or_raise none e = err e
or_raise (some a) e = ok a

module _ {ℓ} {E A : Type ℓ} where
  pub ok-injective : {a b : A} → ◌≡◌ {A = Result E A} (ok a) (ok b) → a ≡ b
  ok-injective h = cc

  -- `if b: raise e` in front of a result that is a value.
  pub unless-eq-ok :
      (b : Bool) (e : E) (m : Result E A) {a : A}
      → (if b then err e else m) ≡ ok a
      → (b ≡ false) × (m ≡ ok a)
  unless-eq-ok true e m h = cc
  unless-eq-ok false e m h = (refl, h)
