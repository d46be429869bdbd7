-- ===== src/Exec.antt =====
-- A Python method: it mutates an object, and may raise. What was written before a raise stays
-- written, so the state comes back beside the exception too.
pub mod Triple
pub use ndt_agents.Result.{Result, ok, err}
use ndt_agents.Base.{Bool, true, false}

-- `S` is the object, `E` the exceptions and `A` the value that is returned.
abbrev pub Exec {ℓ} : Type ℓ → Type ℓ → Type ℓ → Type ℓ
Exec S E A = S → Result E A × S

module _ {ℓ} {S E A : Type ℓ} where
  unfoldable pub pure : A → Exec S E A
  pure a s = (ok a, s)

  unfoldable pub raise : E → Exec S E A
  raise e s = (err e, s)

  unfoldable pub gets : (S → A) → Exec S E A
  gets f s = (ok (f s), s)

  -- A function that may raise, and writes nothing.
  unfoldable pub lift : Result E A → Exec S E A
  lift r s = (r, s)

module _ {S E : Type 0} where
  unfoldable pub modify : (S → S) → Exec S E Unit
  modify f s = (ok tt, f s)

  -- `if b: raise e`
  unfoldable pub raise_if : Bool → E → Exec S E Unit
  raise_if true e s = (err e, s)
  raise_if false e s = (ok tt, s)

  -- `if b: m`
  unfoldable pub when : Bool → Exec S E Unit → Exec S E Unit
  when true m s = m s
  when false m s = (ok tt, s)

module _ {ℓ} {S E A B : Type ℓ} where
  abbrev pub continue : Result E A → (A → Exec S E B) → Exec S E B
  continue (ok a) f s = f a s
  continue (err e) f s = (err e, s)

  infixl 5 ◌>>=◌ ◌>>◌
  unfoldable pub ◌>>=◌ : Exec S E A → (A → Exec S E B) → Exec S E B
  ◌>>=◌ m f s = let (r, s') = m s in continue r f s'

  abbrev pub ◌>>◌ : Exec S E A → Exec S E B → Exec S E B
  m >> n = m >>= λ _. n
