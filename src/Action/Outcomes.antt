-- ===== src/Action/Outcomes.antt =====
-- Calls that touch no state: a chain of them, with the exceptions that end it.
use mathlib.Core.Path.{◌≡◌, refl}
use mathlib.Core.Bool.{Bool, true, false}
use executor_service.Errors.{Error}
use executor_service.Action.{Outcome, ok, raised}
use executor_service.Action.Triple.{Post}

-- The first exception ends the chain, and the rest is not called.
module _ {A B : Type 0} where
  abbrev pub chained : (A → Outcome B) → Outcome A → Outcome B
  chained rest (raised x) = raised x
  chained rest (ok value) = rest value

  infixl 5 ◌>>=◌ ◌>>◌
  abbrev pub ◌>>=◌ : Outcome A → (A → Outcome B) → Outcome B
  first >>= rest = chained rest first

  abbrev pub ◌>>◌ : Outcome A → Outcome B → Outcome B
  first >> second = chained (λ _. second) first

-- `if test: raise x`
abbrev pub raise_if : Bool → Error → Outcome (Unit {0})
raise_if true x = raised x
raise_if false x = ok tt

-- A chain that ends well has a first part that does.
pub chained-eq-ok :
    {A B : Type 0} (first : Outcome A) (rest : A → Outcome B) {b : B}
    → chained rest first ≡ ok b
    → (value : A) × (first ≡ ok value) × (rest value ≡ ok b)
chained-eq-ok (raised x) rest e = cc
chained-eq-ok (ok value) rest e = (value, refl, e)

-- Every exception that the call ends with has `P`.
pub record Only {A : Type 0} (P : Error → Type 0) (m : Outcome A) : Type 0 where
  pub at : (x : Error) → m ≡ raised x → P x

module _ {P : Error → Type 0} {A : Type 0} where
  pub Only-ok : (a : A) → Only P (ok a)
  Only-ok a = record { at = λ x h. cc }

  pub Only-raised : (x : Error) → P x → Only {A = A} P (raised x)
  Only-raised x p = record { at = λ y h. let e : x ≡ y = cc in rw (← e) p }

module _ {P : Error → Type 0} {A B : Type 0} where
  pub Only->>= :
      {m : Outcome A} {f : A → Outcome B}
      → Only P m
      → ((a : A) → m ≡ ok a → Only P (f a))
      → Only P (m >>= f)
  Only->>= {m} {f} h k = go m h k
    where
      go : (n : Outcome A) → Only P n → ((a : A) → n ≡ ok a → Only P (f a)) → Only P (n >>= f)
      go (ok a) h k = k a refl
      go (raised x) h k = Only-raised x (h.at x refl)

-- After a guard its test is known to be false.
pub Only-raise_if :
    {P : Error → Type 0} {B : Type 0} (b : Bool) (x : Error) (m : Outcome B)
    → P x
    → (b ≡ false → Only P m)
    → Only P (raise_if b x >> m)
Only-raise_if true x m h k = Only-raised x h
Only-raise_if false x m h k = k refl

-- What a call returns, if it returns, has `P`.
pub record Gives {A : Type 0} (P : A → Type 0) (m : Outcome A) : Type 0 where
  pub at : (a : A) → m ≡ ok a → P a

pub Gives->>= :
    {A B : Type 0} {Q : A → Type 0} {P : B → Type 0} {m : Outcome A} {f : A → Outcome B}
    → Gives Q m
    → ((a : A) → Q a → Gives P (f a))
    → Gives P (m >>= f)
Gives->>= {m} {f} h k = record {
  at = λ b e. let (a, first, rest) = chained-eq-ok m f e in (k a (h.at a first)).at b rest;
}

pub Gives-ok : {A : Type 0} {P : A → Type 0} (a : A) → P a → Gives P (ok a)
Gives-ok a p = record { at = λ b e. let h : a ≡ b = cc in rw (← h) p }

-- As the end of an action.
pub Gives-Post :
    {W A : Type 0} {P : A → Type 0} (m : Outcome A) (w : W)
    → Gives P m
    → Post (λ a _. P a) (λ _ _. Unit {0}) (m, w)
Gives-Post (ok a) w h = h.at a refl
Gives-Post (raised x) w h = tt
