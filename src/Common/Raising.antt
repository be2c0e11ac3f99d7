-- ===== src/Common/Raising.antt =====
-- An operation that either returns or raises, with the exceptions that it may raise as a parameter.
use mathlib.Core.Path.{◌≡◌, refl}
use mathlib.Core.Logic.{◌⊎◌, inl, inr}
use mathlib.Core.Bool.{Bool, true, false}
use mathlib.Core.Option.{Option, none, some}
use native.Mathlib.Omega.{arith}

pub data Result (E A : Type 0) : Type 0 where
  ok : A → Result E A
  err : E → Result E A

infixl 5 ◌>>=◌ ◌>>◌
abbrev pub ◌>>=◌ : {E A B : Type 0} → Result E A → (A → Result E B) → Result E B
err raised >>= next = err raised
ok value >>= next = next value

abbrev pub ◌>>◌ : {E B : Type 0} → Result E (Unit {0}) → Result E B → Result E B
first >> second = first >>= λ _. second

-- `if bad: raise`
abbrev pub refuse : {E : Type 0} → Bool → E → Result E (Unit {0})
refuse false raised = ok tt
refuse true raised = err raised

-- A chain that returns got through its first step.
pub >>=-ok :
    {E A B : Type 0} (first : Result E A) (next : A → Result E B) {end : B}
    → (first >>= next) ≡ ok end
    → (value : A) × (first ≡ ok value) × (next value ≡ ok end)
>>=-ok (err raised) next h = cc
>>=-ok (ok value) next h = (value, refl, h)

pub Result-cases :
    {E A : Type 0} (r : Result E A)
    → ((value : A) × (r ≡ ok value)) ⊎ ((raised : E) × (r ≡ err raised))
Result-cases (ok value) = inl (value, refl)
Result-cases (err raised) = inr (raised, refl)

-- The value, or the exception for a missing one.
abbrev pub required : {E A : Type 0} → Option A → E → Result E A
required none e = err e
required (some a) e = ok a

pub required-ok : {E A : Type 0} (o : Option A) (e : E) (a : A) → required o e ≡ ok a → o ≡ some a
required-ok none e a h = ground arith
required-ok (some b) e a h = ground arith

pub refuse-ok : {E : Type 0} (bad : Bool) (e : E) (u : Unit {0}) → refuse bad e ≡ ok u → bad ≡ false
refuse-ok true e u h = ground arith
refuse-ok false e u h = refl
