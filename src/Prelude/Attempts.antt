-- ===== src/Prelude/Attempts.antt =====
-- Results of code that may raise: a value, or the exception that it raises.
use mathlib.Core.Path.{◌≡◌, refl}

pub data Attempt {ℓ} (Exception Value : Type ℓ) : Type ℓ where
  raised : Exception → Attempt Exception Value
  ok : Value → Attempt Exception Value

module _ {ℓ} {Exception : Type ℓ} where
  -- A call whose result the next call needs; an exception ends the chain.
  infixl 5 ◌>>=◌
  abbrev pub ◌>>=◌ :
      {V W : Type ℓ} → Attempt Exception V → (V → Attempt Exception W) → Attempt Exception W
  raised problem >>= next = raised problem
  ok value >>= next = next value

  -- Where a chain returns, its first call has returned.
  pub returned_first :
      {V W : Type ℓ} (first : Attempt Exception V) (next : V → Attempt Exception W) {result : W}
      → (first >>= next) ≡ ok result
      → (value : V) × (first ≡ ok value) × (next value ≡ ok result)
  returned_first (raised problem) next done = cc
  returned_first (ok value) next done = (value, refl, done)

  pub ok-injective : {V : Type ℓ} {a b : V} → Path (Attempt Exception V) (ok a) (ok b) → a ≡ b
  ok-injective h = cc

  pub raised_never_ok :
      {V : Type ℓ} {problem : Exception} {a : V}
      → Path (Attempt Exception V) (raised problem) (ok a)
      → ⊥
  raised_never_ok h = cc
