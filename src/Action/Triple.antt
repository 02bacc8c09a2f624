-- ===== src/Action/Triple.antt =====
-- Partial correctness with exceptions: a rule for each way to build an action.
use mathlib.Core.Path.{◌≡◌, refl}
use mathlib.Core.Bool.{Bool, true, false}
use executor_service.Common.{if◌then◌else◌}
use executor_service.Errors.{Error}
use executor_service.Action.{
  Outcome, ok, raised, Action, pure, raise, ◌except◌, recover, attempt, ◌>>=◌, continue,
}

-- What holds at the end: `Q` of a value and the world, `E` of an exception and the world.
abbrev pub Post : {W A : Type 0} → (A → W → Type 0) → (Error → W → Type 0) → Outcome A × W → Type 0
Post Q E (ok a, w) = Q a w
Post Q E (raised x, w) = E x w

-- From a world with `P`, the action ends in `Q` or raises in `E`.
pub record Triple {W A : Type 0} (P : W → Type 0) (m : Action W A) (Q : A → W → Type 0)
    (E : Error → W → Type 0) : Type 0 where
  pub at : (w : W) → P w → Post Q E (m w)

module _ {W A : Type 0} {Q : A → W → Type 0} {E : Error → W → Type 0} where
  Post-mono :
      (Q' : A → W → Type 0) (E' : Error → W → Type 0) (r : Outcome A × W)
      → ((a : A) (w : W) → Q a w → Q' a w)
      → ((x : Error) (w : W) → E x w → E' x w)
      → Post Q E r
      → Post Q' E' r
  Post-mono Q' E' (ok a, w) hq he p = hq a w p
  Post-mono Q' E' (raised x, w) hq he p = he x w p

  Post-recover :
      (E' : Error → W → Type 0) (h : Error → Action W A) (r : Outcome A × W)
      → ((x : Error) → Triple (E x) (h x) Q E')
      → Post Q E r
      → Post Q E' (recover r.0 h r.1)
  Post-recover E' h (ok a, w) th p = p
  Post-recover E' h (raised x, w) th p = (th x).at w p

module _ {W A B : Type 0} {Q : A → W → Type 0} {E : Error → W → Type 0} where
  Post-continue :
      (R : B → W → Type 0) (f : A → Action W B) (r : Outcome A × W)
      → ((a : A) → Triple (Q a) (f a) R E)
      → Post Q E r
      → Post R E (continue r.0 f r.1)
  Post-continue R f (ok a, w) tf p = (tf a).at w p
  Post-continue R f (raised x, w) tf p = p

  Post-attempt :
      (F : Error → W → Type 0) (R : B → W → Type 0) (f : Outcome A → Action W B) (r : Outcome A × W)
      → ((a : A) → Triple (Q a) (f (ok a)) R F)
      → ((x : Error) → Triple (E x) (f (raised x)) R F)
      → Post Q E r
      → Post R F (f r.0 r.1)
  Post-attempt F R f (ok a, w) tq te p = (tq a).at w p
  Post-attempt F R f (raised x, w) tq te p = (te x).at w p

module _ {W A B : Type 0} {Q : A → W → Type 0} where
  -- Two ways on that agree wherever the first part can end.
  pub continue-cong :
      (E : Error → W → Type 0) (f g : A → Action W B) (r : Outcome A × W)
      → Post Q E r
      → ((a : A) (w : W) → Q a w → f a w ≡ g a w)
      → continue r.0 f r.1 ≡ continue r.0 g r.1
  continue-cong E f g (ok a, w) p h = h a w p
  continue-cong E f g (raised x, w) p h = refl

module _ {W A : Type 0} {P : W → Type 0} {Q : A → W → Type 0} {E : Error → W → Type 0} where
  pub Triple-pure : (a : A) → ((w : W) → P w → Q a w) → Triple P (pure a) Q E
  Triple-pure a h = record { at = h }

  pub Triple-raise : (x : Error) → ((w : W) → P w → E x w) → Triple P (raise x) Q E
  Triple-raise x h = record { at = h }

  pub Triple-if :
      (b : Bool) (m n : Action W A)
      → (b ≡ true → Triple P m Q E)
      → (b ≡ false → Triple P n Q E)
      → Triple P (if b then m else n) Q E
  Triple-if true m n hm hn = hm refl
  Triple-if false m n hm hn = hn refl

  pub Triple-weaken :
      {P' : W → Type 0} {Q' : A → W → Type 0} {E' : Error → W → Type 0} {m : Action W A}
      → Triple P m Q E
      → ((w : W) → P' w → P w)
      → ((a : A) (w : W) → Q a w → Q' a w)
      → ((x : Error) (w : W) → E x w → E' x w)
      → Triple P' m Q' E'
  Triple-weaken {Q'} {E'} {m} t hp hq he = record {
    at = λ w p. Post-mono Q' E' (m w) hq he (t.at w (hp w p));
  }

  pub Triple-except :
      {E' : Error → W → Type 0} {m : Action W A} {h : Error → Action W A}
      → Triple P m Q E
      → ((x : Error) → Triple (E x) (h x) Q E')
      → Triple P (m except h) Q E'
  Triple-except {E'} {m} {h} tm th = record { at = λ w p. Post-recover E' h (m w) th (tm.at w p) }

module _ {W A B : Type 0} {P : W → Type 0} {Q : A → W → Type 0} {E : Error → W → Type 0} where
  pub Triple-bind :
      {R : B → W → Type 0} {m : Action W A} {f : A → Action W B}
      → Triple P m Q E
      → ((a : A) → Triple (Q a) (f a) R E)
      → Triple P (m >>= f) R E
  Triple-bind {R} {m} {f} tm tf = record { at = λ w p. Post-continue R f (m w) tf (tm.at w p) }

  -- After an attempt each outcome goes its own way; `F` is for what the rest raises itself.
  pub Triple-attempt :
      {F : Error → W → Type 0} {R : B → W → Type 0} {m : Action W A} (f : Outcome A → Action W B)
      → Triple P m Q E
      → ((a : A) → Triple (Q a) (f (ok a)) R F)
      → ((x : Error) → Triple (E x) (f (raised x)) R F)
      → Triple P (attempt m >>= f) R F
  Triple-attempt {F} {R} {m} f tm tq te = record {
    at = λ w p. Post-attempt F R f (m w) tq te (tm.at w p);
  }

-- Whatever the action does, `F` stays.
abbrev pub Keeps : {W A : Type 0} → (W → Type 0) → Action W A → Type 0
Keeps F m = Triple F m (λ _. F) (λ _. F)

module _ {W A : Type 0} where
  Post-both :
      (Q Q' : A → W → Type 0) (E E' : Error → W → Type 0) (r : Outcome A × W)
      → Post Q E r
      → Post Q' E' r
      → Post (λ a w. Q a w × Q' a w) (λ x w. E x w × E' x w) r
  Post-both Q Q' E E' (ok a, w) p p' = (p, p')
  Post-both Q Q' E E' (raised x, w) p p' = (p, p')

  -- Two statements about one action are one.
  pub Triple-both :
      {P P' : W → Type 0} {Q Q' : A → W → Type 0} {E E' : Error → W → Type 0} {m : Action W A}
      → Triple P m Q E
      → Triple P' m Q' E'
      → Triple (λ w. P w × P' w) m (λ a w. Q a w × Q' a w) (λ x w. E x w × E' x w)
  Triple-both {Q} {Q'} {E} {E'} {m} t t' = record {
    at = λ w p. Post-both Q Q' E E' (m w) (t.at w p.0) (t'.at w p.1);
  }

-- The action ends in a value.
abbrev pub Returns : {W A : Type 0} → (W → Type 0) → Action W A → Type 0
Returns P m = Triple P m (λ _ _. Unit {0}) (λ _ _. ⊥)

module _ {W A : Type 0} {P : W → Type 0} {m : Action W A} where
  pub Triple-sure :
      {Q : A → W → Type 0} {E : Error → W → Type 0}
      → Triple P m Q E
      → Returns P m
      → Triple P m Q (λ _ _. ⊥)
  Triple-sure t t' = Triple-weaken (Triple-both t t') (λ w p. (p, p)) (λ a w q. q.0) (λ x w q. q.1)

  pub Returns-weaken : {P' : W → Type 0} → ((w : W) → P' w → P w) → Returns P m → Returns P' m
  Returns-weaken h t = Triple-weaken t h (λ a w q. q) (λ x w q. q)

module _ {W A : Type 0} where
  Post-gives :
      (P : W → Type 0) (Q : A → W → Type 0) (E : Error → W → Type 0) (m : Action W A) (v : W)
      (o : Outcome A × W)
      → P v
      → m v ≡ o
      → Post Q E o
      → Post (λ a w. Q a w × ((u : W) × P u × (m u ≡ (ok a, w)))) E o
  Post-gives P Q E m v (ok a, w) p e q = (q, (v, p, e))
  Post-gives P Q E m v (raised x, w) p e q = q

  -- A value is one that the action gives.
  pub Triple-gives :
      {P : W → Type 0} {Q : A → W → Type 0} {E : Error → W → Type 0} {m : Action W A}
      → Triple P m Q E
      → Triple P m (λ a w. Q a w × ((v : W) × P v × (m v ≡ (ok a, w)))) E
  Triple-gives {P} {Q} {E} {m} t = record {
    at = λ w p. Post-gives P Q E m w (m w) p refl (t.at w p);
  }
