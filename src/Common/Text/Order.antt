-- ===== src/Common/Text/Order.antt =====
-- The order of texts by their characters' codes.
use Prim.Native.Nat.{ℕ, Ordering, compare as compare_ℕ}
use Prim.Native.Char.{Char, code}
use Prim.Native.String.compare
use Prim.Native.String.{String, [], ◌∷◌, then, compare}
use mathlib.Core.Path.{◌≡◌, refl, sym, ap, ◌∙◌, subst}
use mathlib.Core.Logic.{◌⊎◌, inl, inr}
use native.Mathlib.Omega.{arith}
use text.Mathlib.TextEquality.{codes_equal}
use text.Mathlib.TextPositions.{compare_self}

pub Ordering-cases : (o : Ordering) → (o ≡ Ordering.lt) ⊎ ((o ≡ Ordering.eq) ⊎ (o ≡ Ordering.gt))
Ordering-cases Ordering.lt = inl refl
Ordering-cases Ordering.eq = inr (inl refl)
Ordering-cases Ordering.gt = inr (inr refl)

codes_swap : (m n : ℕ) → compare_ℕ m n ≡ Ordering.lt → compare_ℕ n m ≡ Ordering.gt
codes_swap m n h = ground (arith, h)

codes_trans :
    (m n o : ℕ)
    → compare_ℕ m n ≡ Ordering.gt
    → compare_ℕ n o ≡ Ordering.gt
    → compare_ℕ m o ≡ Ordering.gt
codes_trans m n o h k = ground (arith, h, k)

codes_same : (m n : ℕ) → compare_ℕ m n ≡ Ordering.eq → compare_ℕ n m ≡ Ordering.eq
codes_same m n h = ground (arith, h)

-- `then` where the first comparison is known.
then_of : {o p : Ordering} (r : Ordering) → o ≡ p → then o r ≡ then p r
then_of r e = ap (λ (x : Ordering). then x r) e

-- A text that is before another one has that one after it.
pub compare_swap : (s t : String) → compare s t ≡ Ordering.lt → compare t s ≡ Ordering.gt
compare_swap [] [] h = ground (arith, h, compare.nil-nil)
compare_swap [] (d ∷ t) h = compare.cons-nil d t
compare_swap (c ∷ s) [] h = ground (arith, h, compare.cons-nil c s)
compare_swap (c ∷ s) (d ∷ t) h =
    let k = sym (compare.cons-cons c d s t) ∙ h in
    compare.cons-cons d c t s ∙ elim (Ordering-cases (compare_ℕ (code c) (code d))) [
      | inl e ↦ then_of (compare t s) (codes_swap (code c) (code d) e)
      | inr (inl e) ↦
          then_of (compare t s) (codes_same (code c) (code d) e)
          ∙ compare_swap s t (sym (then_of (compare s t) e) ∙ k)
      | inr (inr e) ↦ ground (arith, k, then_of (compare s t) e)
    ]

-- The first codes and the rest of texts of which the first is after the second.
after_cases :
    (c d : Char) (s t : String)
    → compare (c ∷ s) (d ∷ t) ≡ Ordering.gt
    → (compare_ℕ (code c) (code d) ≡ Ordering.gt) ⊎ ((c ≡ d) × (compare s t ≡ Ordering.gt))
after_cases c d s t h =
    let k = sym (compare.cons-cons c d s t) ∙ h in
    elim (Ordering-cases (compare_ℕ (code c) (code d))) [
      | inl e ↦ ground (arith, k, then_of (compare s t) e)
      | inr (inl e) ↦ inr (codes_equal c d e, sym (then_of (compare s t) e) ∙ k)
      | inr (inr e) ↦ inl e
    ]

after_first :
    (c d : Char) (s t : String)
    → compare_ℕ (code c) (code d) ≡ Ordering.gt
    → compare (c ∷ s) (d ∷ t) ≡ Ordering.gt
after_first c d s t e = compare.cons-cons c d s t ∙ then_of (compare s t) e

after_rest :
    (c : Char) (s t : String) → compare s t ≡ Ordering.gt → compare (c ∷ s) (c ∷ t) ≡ Ordering.gt
after_rest c s t h = compare.cons-cons c c s t ∙ then_of (compare s t) (compare_self (code c)) ∙ h

pub compare_trans :
    (s t u : String)
    → compare s t ≡ Ordering.gt
    → compare t u ≡ Ordering.gt
    → compare s u ≡ Ordering.gt
compare_trans [] [] u h k = ground (arith, h, compare.nil-nil)
compare_trans [] (d ∷ t) u h k = ground (arith, h, compare.nil-cons d t)
compare_trans (c ∷ s) [] [] h k = compare.cons-nil c s
compare_trans (c ∷ s) [] (e ∷ u) h k = ground (arith, k, compare.nil-cons e u)
compare_trans (c ∷ s) (d ∷ t) [] h k = compare.cons-nil c s
compare_trans (c ∷ s) (d ∷ t) (e ∷ u) h k = elim (after_cases c d s t h) [
  | inl far ↦ elim (after_cases d e t u k) [
    | inl farther ↦ after_first c e s u (codes_trans (code c) (code d) (code e) far farther)
    | inr (same, rest) ↦
        after_first c e s u (ap (λ (x : Char). compare_ℕ (code c) (code x)) (sym same) ∙ far)
  ]
  | inr (same, rest) ↦ elim (after_cases d e t u k) [
    | inl farther ↦
        after_first c e s u (ap (λ (x : Char). compare_ℕ (code x) (code e)) same ∙ farther)
    | inr (same_too, rest_too) ↦
        subst (λ (x : Char). compare (c ∷ s) (x ∷ u) ≡ Ordering.gt) (same ∙ same_too)
          (after_rest c s u (compare_trans s t u rest rest_too))
  ]
]
