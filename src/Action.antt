-- ===== src/Action.antt =====
-- Coroutines as actions on the state of the world: each ends with a value or with an exception in
-- flight, and what it changed before it raised stays changed.
pub mod Triple
pub mod Outcomes
pub mod Timeouts
use mathlib.Core.Path.{◌≡◌, refl}
use executor_service.Errors.{Error}

pub data Outcome {ℓ} (A : Type ℓ) : Type ℓ where
  ok : A → Outcome A
  raised : Error → Outcome A

abbrev pub Action : Type 0 → Type 0 → Type 0
Action W A = W → Outcome A × W

module _ {W A : Type 0} where
  abbrev pub pure : A → Action W A
  pure a w = (ok a, w)

  abbrev pub raise : Error → Action W A
  raise x w = (raised x, w)

  -- `except`: the handler takes the exception.
  abbrev pub recover : Outcome A → (Error → Action W A) → Action W A
  recover (ok a) h w = (ok a, w)
  recover (raised x) h w = h x w

  infixl 4 ◌except◌
  abbrev pub ◌except◌ : Action W A → (Error → Action W A) → Action W A
  ◌except◌ m h w = let (r, w') = m w in recover r h w'

  -- `try: … except … else: …`: the result or the exception, for the clauses to look at.
  abbrev pub attempt : Action W A → Action W (Outcome A)
  attempt m w = let (r, w') = m w in (ok r, w')

module _ {W A B : Type 0} where
  abbrev pub continue : Outcome A → (A → Action W B) → Action W B
  continue (ok a) f w = f a w
  continue (raised x) f w = (raised x, w)

  infixl 5 ◌>>=◌ ◌>>◌
  abbrev pub ◌>>=◌ : Action W A → (A → Action W B) → Action W B
  ◌>>=◌ m f w = let (r, w') = m w in continue r f w'

  abbrev pub ◌>>◌ : Action W A → Action W B → Action W B
  m >> k = m >>= λ _. k
