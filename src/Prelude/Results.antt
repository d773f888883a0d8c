-- ===== src/Prelude/Results.antt =====
-- A call that returns a value or raises, with its sequencing.
use mathlib.Core.Path.{◌≡◌, refl}
use mathlib.Core.Logic.{◌⊎◌, inl, inr}
use mathlib.Core.Bool.{Bool, true, false}

pub data Attempt (E A : Type 0) : Type 0 where
  returns : A → Attempt E A
  raises : E → Attempt E A

module _ {E : Type 0} where
  infixl 5 ◌>>=◌
  abbrev pub ◌>>=◌ : {A B : Type 0} → Attempt E A → (A → Attempt E B) → Attempt E B
  returns a >>= f = f a
  raises e >>= f = raises e

  infixl 5 ◌>>◌
  abbrev pub ◌>>◌ : {A B : Type 0} → Attempt E A → Attempt E B → Attempt E B
  m >> n = m >>= (λ a. n)

  -- `if bad: raise e`
  abbrev pub guard : Bool → E → Attempt E (Unit {0})
  guard true e = raises e
  guard false e = returns tt

-- A chain that returned went through its first call.
pub returns-inv :
    {E A B : Type 0} (m : Attempt E A) (f : A → Attempt E B) {b : B}
    → (m >>= f) ≡ returns b
    → (a : A) × (m ≡ returns a) × (f a ≡ returns b)
returns-inv (returns a) f h = (a, refl, h)
returns-inv (raises e) f h = cc

pub guard-inv :
    {E B : Type 0} (bad : Bool) (e : E) (m : Attempt E B) {b : B}
    → (guard bad e >> m) ≡ returns b
    → (bad ≡ false) × (m ≡ returns b)
guard-inv true e m h = cc
guard-inv false e m h = (refl, h)

pub Attempt-cases :
    {E B : Type 0} (r : Attempt E B) → ((b : B) × (r ≡ returns b)) ⊎ ((e : E) × (r ≡ raises e))
Attempt-cases (returns b) = inl (b, refl)
Attempt-cases (raises e) = inr (e, refl)
