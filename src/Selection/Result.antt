-- ===== src/Selection/Result.antt =====
-- What ai_workflow/context_selection.py returns, whichever mode it runs in.
use ai_workflow_control_plan.Common.{
  ℕ, ◌≡◌, refl, subst, inl, inr, false, some, List, [], ◌∷◌, String, arith, All, length, Bool-cases,
}
use ai_workflow_control_plan.Guardrails.{Numbers}
use ai_workflow_control_plan.Selection.{
  Candidate, Selection, Limits, Entry, nothing, add_mandatory, remaining, add_fitting, reverse_onto,
}
use ai_workflow_control_plan.Selection.Scores.{ranked, apply_all}
use ai_workflow_control_plan.Selection.Modes.{
  first_heap, zeros, heap_fuel, is_tight, is_empty_budget, drain_all, select_rows, dedupe,
  bounded_rows, select_context,
}
use ai_workflow_control_plan.Selection.Budget.{
  Sound, nothing-Sound, add_mandatory-Sound, add_fitting-Sound, drain-Sound, some-injective,
}
use ai_workflow_control_plan.Selection.Heap.{Known, stale, first_heap-Known, drain_returns}

module _ {F : Type 0} (num : Numbers F) where
  stale_first :
      (l : Limits) (rows : List (Candidate F)) (coverage : List F) (heap : List (Entry F))
      → All (Known num l rows 0 coverage) heap
      → stale num l rows 0 heap ≡ 0
  stale_first l rows coverage [] all = refl
  stale_first l rows coverage (e ∷ heap) all =
      let rest = stale_first l rows coverage heap all.1 in
      elim all.0 [ inl old ↦ ground (arith, old) | inr (same, bound) ↦ ground (arith, same, rest) ]

  drain_all_returns :
      (l : Limits) (rows : List (Candidate F)) (s : Selection F)
      → ((x : F) → num.less num.tiny (num.abs (num.add x (num.neg x))) ≡ false)
      → (end : Selection F) × (drain_all num l rows s ≡ some end)
  unfolding drain_all
  drain_all_returns l rows s settled =
      let coverage = apply_all num (reverse_onto s.selected []) rows (zeros num l rows rows) in
      let left = remaining s.selected rows in
      let heap = first_heap num l rows coverage left [] in
      let (known, count) = first_heap-Known num l rows coverage left [] tt in
      let none_old = stale_first l rows coverage heap known in
      let same : length heap ≡ length left = omega (arith, count) in
      drain_returns num l rows settled (heap_fuel num l rows (length left)) 0 coverage s heap known
        (rw (none_old, same) (omega arith))

  select_rows_returns :
      (l : Limits) (rows : List (Candidate F)) (mandatory : List String) (tight : F)
      → ((x : F) → num.less num.tiny (num.abs (num.add x (num.neg x))) ≡ false)
      → (end : Selection F) × (select_rows num l rows mandatory tight ≡ some end)
  unfolding select_rows
  select_rows_returns l rows mandatory tight settled =
      let s = add_mandatory l mandatory nothing rows in
      elim (Bool-cases (is_empty_budget num l rows)) [
        | inl e ↦ (nothing, rw e refl)
        | inr e ↦ elim (Bool-cases (is_tight num l rows tight)) [
          | inl f ↦ (add_fitting l s (ranked num l (remaining s.selected rows)), rw (e, f) refl)
          | inr f ↦ let (end, run) = drain_all_returns l rows s settled in (end, rw (e, f) run)
        ]
      ]

  drain_all-Sound :
      (l : Limits) (rows : List (Candidate F)) (s end : Selection F)
      → drain_all num l rows s ≡ some end
      → Sound l s
      → Sound l end
  unfolding drain_all
  drain_all-Sound l rows s end h sound = drain-Sound num l rows _ 0 _ s end _ h sound

  select_rows-Sound :
      (l : Limits) (rows : List (Candidate F)) (mandatory : List String) (tight : F)
      (end : Selection F)
      → select_rows num l rows mandatory tight ≡ some end
      → Sound l end
  unfolding select_rows
  select_rows-Sound l rows mandatory tight end h =
      let s = add_mandatory l mandatory nothing rows in
      let first = add_mandatory-Sound l mandatory nothing rows (nothing-Sound l) in
      elim (Bool-cases (is_empty_budget num l rows)) [
        | inl e ↦
            subst (Sound l) (some-injective nothing end (ground (arith, h, e))) (nothing-Sound l)
        | inr e ↦ elim (Bool-cases (is_tight num l rows tight)) [
          | inl f ↦
              let fitted = add_fitting l s (ranked num l (remaining s.selected rows)) in
              subst (Sound l) (some-injective fitted end (ground (arith, h, e, f)))
                (add_fitting-Sound l s (ranked num l (remaining s.selected rows)) first)
          | inr f ↦ drain_all-Sound l rows s end (ground (arith, h, e, f)) first
        ]
      ]

  -- A selection's counted characters and tokens are those of what it selects, and neither is more than its
  -- budget, in every mode.
  pub select_context-Sound :
      (l : Limits) (limit : ℕ) (mandatory : List String) (tight : F)
      (candidates : List (Candidate F)) (end : Selection F)
      → select_context num l limit mandatory tight candidates ≡ some end
      → Sound l end
  unfolding select_context
  select_context-Sound l limit mandatory tight candidates end h =
      select_rows-Sound l (bounded_rows num l limit mandatory (dedupe num [] candidates)) mandatory
        tight end h

  -- The selection always returns: the heap is empty, or its best score not positive, within the fuel, where
  -- a number and its negation add up to less than the tolerance.
  pub select_context_returns :
      (l : Limits) (limit : ℕ) (mandatory : List String) (tight : F)
      (candidates : List (Candidate F))
      → ((x : F) → num.less num.tiny (num.abs (num.add x (num.neg x))) ≡ false)
      → (end : Selection F) × (select_context num l limit mandatory tight candidates ≡ some end)
  unfolding select_context
  select_context_returns l limit mandatory tight candidates settled =
      select_rows_returns l (bounded_rows num l limit mandatory (dedupe num [] candidates))
        mandatory tight settled
