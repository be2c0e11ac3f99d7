-- ===== src/Common/Lists.antt =====
-- Lists measured by native numbers, and predicates over lists.
use Prim.Native.Nat.{ℕ, zero, suc, ◌+◌, min}
use mathlib.Core.Path.{◌≡◌, refl, sym}
use mathlib.Core.Bool.{Bool, true, false, cond, false≢true}
use mathlib.Core.List.{List, [], ◌∷◌, ◌++◌, cons≢nil}
use native.Mathlib.Omega.{arith}

module _ {ℓ} {A : Type ℓ} where
  abbrev pub length : List A → ℕ
  length [] = 0
  length (x ∷ xs) = suc (length xs)

  abbrev pub take : ℕ → List A → List A
  take zero xs = []
  take (suc n) [] = []
  take (suc n) (x ∷ xs) = x ∷ take n xs

  pub length-append : (xs ys : List A) → length (xs ++ ys) ≡ length xs + length ys
  length-append [] ys = omega arith
  length-append (x ∷ xs) ys = omega (arith, length-append xs ys)

module _ {ℓ} {A : Type ℓ} where
  pub length-take : (n : ℕ) (xs : List A) → length (take n xs) ≡ min n (length xs)
  length-take zero xs = omega arith
  length-take (suc n) [] = omega arith
  length-take (suc n) (x ∷ xs) = omega (arith, length-take n xs)

  -- Every element satisfies the predicate.
  abbrev pub All {κ} : (A → Type κ) → List A → Type κ
  All P [] = Unit
  All P (x ∷ xs) = P x × All P xs

module _ {ℓ κ} {A : Type ℓ} (P : A → Type κ) where
  pub All-take : (n : ℕ) (xs : List A) → All P xs → All P (take n xs)
  All-take zero xs h = tt
  All-take (suc n) [] h = tt
  All-take (suc n) (x ∷ xs) h = (h.0, All-take n xs h.1)

-- The labels whose check fails, in order.
abbrev pub collect {ℓ} : {E : Type ℓ} → List (Bool × E) → List E
collect [] = []
collect ((bad, e) ∷ checks) = let rest = collect checks in cond bad (e ∷ rest) rest

-- No label is collected where no check fails.
abbrev pub Clean {ℓ} : {E : Type ℓ} → List (Bool × E) → Type 0
Clean [] = Unit
Clean ((bad, e) ∷ checks) = (bad ≡ false) × Clean checks

pub collect-nil {ℓ} : {E : Type ℓ} (checks : List (Bool × E)) → collect checks ≡ [] → Clean checks
collect-nil [] h = tt
collect-nil ((true, e) ∷ checks) h = absurd (cons≢nil h)
collect-nil ((false, e) ∷ checks) h = (refl, collect-nil checks h)

pub collect_of_Clean {ℓ} :
    {E : Type ℓ} (checks : List (Bool × E)) → Clean checks → collect checks ≡ []
collect_of_Clean [] h = refl
collect_of_Clean ((true, e) ∷ checks) h = absurd (false≢true (sym h.0))
collect_of_Clean ((false, e) ∷ checks) h = collect_of_Clean checks h.1

pub Clean-append {ℓ} :
    {E : Type ℓ} (xs ys : List (Bool × E)) → Clean (xs ++ ys) → Clean xs × Clean ys
Clean-append [] ys h = (tt, h)
Clean-append ((bad, e) ∷ xs) ys h =
    let (first, second) = Clean-append xs ys h.1 in ((h.0, first), second)

pub append-Clean {ℓ} :
    {E : Type ℓ} (xs ys : List (Bool × E)) → Clean xs → Clean ys → Clean (xs ++ ys)
append-Clean [] ys h k = k
append-Clean ((bad, e) ∷ xs) ys h k = (h.0, append-Clean xs ys h.1 k)
