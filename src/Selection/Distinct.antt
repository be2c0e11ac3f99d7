-- ===== src/Selection/Distinct.antt =====
-- About the keys of what ai_workflow/context_selection.py selects, whichever mode it runs in.
use ai_workflow_control_plan.Common.{
  ℕ, zero, suc, ◌+◌, ◌-◌, ◌≤◌, ◌≡◌, subst, inl, inr, not, some, List, [], ◌∷◌, String, arith,
  length, take, leb, Bool-cases,
}
use ai_workflow_control_plan.Guardrails.{Numbers}
use ai_workflow_control_plan.Selection.{
  Candidate, Selection, Limits, Entry, nothing, fits, add, add_mandatory, remaining, add_fitting,
  reverse_onto,
}
use ai_workflow_control_plan.Selection.Scores.{ranked, apply, apply_all, push}
use ai_workflow_control_plan.Selection.Modes.{
  score, is_stale, first_heap, drain, zeros, heap_fuel, is_tight, is_empty_budget, drain_all,
  mandatory_rows, select_rows, dedupe, bounded_rows, select_context,
}
use ai_workflow_control_plan.Selection.Budget.{some-injective}
use ai_workflow_control_plan.Selection.Keys.{
  key_count, key_count-++, key_count-take, remaining_apart, key_count-add_mandatory,
  key_count-add_fitting, key_count-mandatory_rows, key_count-ranked, key_count-dedupe, held_by,
  key_count-push,
}

module _ {F : Type 0} (num : Numbers F) (key : String) (l : Limits) where
  key_count-first_heap :
      (rows : List (Candidate F)) (coverage : List F) (cs : List (Candidate F))
      (heap : List (Entry F))
      → key_count key (held_by (first_heap num l rows coverage cs heap))
        ≡ key_count key cs + key_count key (held_by heap)
  unfolding first_heap
  key_count-first_heap rows coverage [] heap = omega arith
  key_count-first_heap rows coverage (c ∷ cs) heap =
      let e : Entry F = record {
        bound = num.neg (score num l rows coverage c);
        epoch = 0;
        candidate = c;
      } in
      let rest = key_count-first_heap rows coverage cs (push num e heap) in
      let pushed = key_count-push num key e heap in omega (arith, rest, pushed)

  -- The loop takes each candidate of the heap at most once.
  key_count-drain :
      (rows : List (Candidate F)) (fuel epoch : ℕ) (coverage : List F) (s end : Selection F)
      (heap : List (Entry F))
      → drain num l rows fuel epoch coverage s heap ≡ some end
      → key_count key end.selected ≤ key_count key s.selected + key_count key (held_by heap)
  unfolding drain
  key_count-drain rows zero epoch coverage s end heap h = ground (arith, h)
  key_count-drain rows (suc fuel) epoch coverage s end [] h =
      subst (λ (t : Selection F). key_count key t.selected ≤ key_count key s.selected + 0)
        (some-injective s end h) (omega arith)
  key_count-drain rows (suc fuel) epoch coverage s end (e ∷ heap) h =
      let current = score num l rows coverage e.candidate in
      elim (Bool-cases (not (fits l s e.candidate))) [
        | inl misses ↦
            let rest =
              key_count-drain rows fuel epoch coverage s end heap (ground (arith, h, misses)) in
            omega (arith, rest)
        | inr fitting ↦ elim (Bool-cases (is_stale num l rows epoch current e)) [
          | inl stale ↦
              let next : Entry F = record {
                bound = num.neg current;
                epoch = epoch;
                candidate = e.candidate;
              } in
              let rest =
                key_count-drain rows fuel epoch coverage s end (push num next heap)
                  (ground (arith, h, fitting, stale)) in
              let pushed = key_count-push num key next heap in omega (arith, rest, pushed)
          | inr fresh ↦ elim (Bool-cases (not (num.less num.zero current))) [
            | inl done ↦
                subst
                  (λ (t : Selection F).
                    key_count key t.selected
                    ≤ key_count key s.selected + key_count key (held_by (e ∷ heap)))
                  (some-injective s end (ground (arith, h, fitting, fresh, done))) (omega arith)
            | inr more ↦
                let rest =
                  key_count-drain rows fuel (suc epoch) (apply num e.candidate rows coverage)
                    (add s e.candidate) end heap (ground (arith, h, fitting, fresh, more)) in
                omega (arith, rest)
          ]
        ]
      ]

  drain_all_once :
      (rows : List (Candidate F)) (s end : Selection F)
      → drain_all num l rows s ≡ some end
      → key_count key s.selected + key_count key (remaining s.selected rows) ≤ 1
      → key_count key end.selected ≤ 1
  unfolding drain_all
  drain_all_once rows s end h once =
      let coverage = apply_all num (reverse_onto s.selected []) rows (zeros num l rows rows) in
      let left = remaining s.selected rows in
      let heap = first_heap num l rows coverage left [] in
      let taken =
        key_count-drain rows (heap_fuel num l rows (length left)) 0 coverage s end heap h in
      let held = key_count-first_heap rows coverage left [] in omega (arith, taken, held, once)

  bounded_rows_once :
      (limit : ℕ) (mandatory : List String) (rows : List (Candidate F))
      → key_count key rows ≤ 1
      → key_count key (bounded_rows num l limit mandatory rows) ≤ 1
  unfolding bounded_rows
  bounded_rows_once limit mandatory rows once =
      let first = mandatory_rows num mandatory rows in
      let left = remaining first rows in
      let further = ranked num l left in
      let fewer = key_count-mandatory_rows num key mandatory rows in
      let apart = remaining_apart key first rows (omega (arith, fewer, once)) once in
      let same = key_count-ranked num key l left in
      let cut = key_count-take key (limit - length first) further in
      let joined = key_count-++ key first (take (limit - length first) further) in
      elim (Bool-cases (leb (length rows) limit)) [
        | inl e ↦ rw e once
        | inr e ↦ rw e (omega (arith, apart, same, cut, joined))
      ]

  select_rows_once :
      (rows : List (Candidate F)) (mandatory : List String) (tight : F) (end : Selection F)
      → select_rows num l rows mandatory tight ≡ some end
      → key_count key rows ≤ 1
      → key_count key end.selected ≤ 1
  unfolding select_rows
  select_rows_once rows mandatory tight end h once =
      let s = add_mandatory l mandatory nothing rows in
      let left = remaining s.selected rows in
      let first = key_count-add_mandatory key l mandatory nothing rows (omega arith) in
      let apart = remaining_apart key s.selected rows first once in
      elim (Bool-cases (is_empty_budget num l rows)) [
        | inl e ↦
            subst (λ (t : Selection F). key_count key t.selected ≤ 1)
              (some-injective nothing end (ground (arith, h, e))) (omega arith)
        | inr e ↦ elim (Bool-cases (is_tight num l rows tight)) [
          | inl f ↦
              let fitted = add_fitting l s (ranked num l left) in
              let taken = key_count-add_fitting key l s (ranked num l left) in
              let same = key_count-ranked num key l left in
              subst (λ (t : Selection F). key_count key t.selected ≤ 1)
                (some-injective fitted end (ground (arith, h, e, f)))
                (omega (arith, taken, same, apart))
          | inr f ↦ drain_all_once rows s end (ground (arith, h, e, f)) apart
        ]
      ]

  -- A selection has no key twice, in every mode, whichever keys the candidates have.
  pub select_context_once :
      (limit : ℕ) (mandatory : List String) (tight : F) (candidates : List (Candidate F))
      (end : Selection F)
      → select_context num l limit mandatory tight candidates ≡ some end
      → key_count key end.selected ≤ 1
  unfolding select_context
  select_context_once limit mandatory tight candidates end h =
      let rows = dedupe num [] candidates in
      select_rows_once (bounded_rows num l limit mandatory rows) mandatory tight end h
        (bounded_rows_once limit mandatory rows (key_count-dedupe num key [] candidates))
