-- ===== src/Deployment/ContextFields.antt =====
-- About `validate_context_fields` of ai_workflow/contextual_features.py on valid fields.
use ai_workflow_control_plan.Common.{
  ◌≤◌, ◌≡◌, refl, sym, ap, subst, ◌∙◌, inl, inr, some, List, [], ◌∷◌, String, strip, strip-strip,
  contains, unique_after, All, length, arith, Bool-cases,
}
use ai_workflow_control_plan.Deployment.Manifest.{
  strip_all, all_features, checked_fields, validate_context_fields,
}

abbrev Stripped : String → Type 0
Stripped s = strip s ≡ s

unique_after-again :
    (seen xs : List String) → unique_after seen (unique_after seen xs) ≡ unique_after seen xs
unfolding unique_after
unique_after-again seen [] = refl
unique_after-again seen (x ∷ xs) = elim (Bool-cases (contains seen x)) [
  | inl e ↦ rw e (unique_after-again seen xs)
  | inr e ↦
      rw (e, unique_after)
        (rw e (ap (λ (r : List String). x ∷ r) (unique_after-again (x ∷ seen) xs)))
]

unique_after-All :
    (P : String → Type 0) (seen xs : List String) → All P xs → All P (unique_after seen xs)
unfolding unique_after
unique_after-All P seen [] h = tt
unique_after-All P seen (x ∷ xs) h = elim (Bool-cases (contains seen x)) [
  | inl e ↦ rw e (unique_after-All P seen xs h.1)
  | inr e ↦ rw e (h.0, unique_after-All P (x ∷ seen) xs h.1)
]

strip_all-Stripped : (xs : List String) → All Stripped (strip_all xs)
unfolding strip_all
strip_all-Stripped [] = tt
strip_all-Stripped (x ∷ xs) = (strip-strip x, strip_all-Stripped xs)

strip_all-keeps : (xs : List String) → All Stripped xs → strip_all xs ≡ xs
unfolding strip_all
strip_all-keeps [] h = refl
strip_all-keeps (x ∷ xs) h = λ i. h.0 i ∷ strip_all-keeps xs h.1 i

checked_fields-keeps :
    (normalized fields : List String)
    → checked_fields normalized ≡ some fields
    → (normalized ≡ fields) × (1 ≤ length fields)
unfolding checked_fields
checked_fields-keeps [] fields h = ground (arith, h)
checked_fields-keeps (x ∷ xs) fields h = elim (Bool-cases (all_features (x ∷ xs))) [
  | inl e ↦
      let same : x ∷ xs ≡ fields = ground (arith, h, e) in
      (same, subst (λ (l : List String). 1 ≤ length l) same (omega arith))
  | inr e ↦ ground (arith, h, e)
]

-- Valid fields are valid again, and stay as they are.
pub validate_context_fields-again :
    (raw fields : List String)
    → validate_context_fields raw ≡ some fields
    → (validate_context_fields fields ≡ some fields) × (1 ≤ length fields)
unfolding validate_context_fields
validate_context_fields-again raw fields h =
    let (same, many) = checked_fields-keeps (unique_after [] (strip_all raw)) fields h in
    let stripped =
      strip_all-keeps (unique_after [] (strip_all raw))
        (unique_after-All Stripped [] (strip_all raw) (strip_all-Stripped raw)) in
    let again =
      ap (λ (l : List String). checked_fields (unique_after [] l)) stripped
      ∙ ap checked_fields (unique_after-again [] (strip_all raw))
      ∙ h in
    (
      ap (λ (l : List String). checked_fields (unique_after [] (strip_all l))) (sym same) ∙ again,
      many,
    )
