-- ===== src/Selection/Heap.antt =====
-- About the end of the loop over the heap in ai_workflow/context_selection.py.
use ai_workflow_control_plan.Common.{
  ℕ, zero, suc, ◌+◌, ◌≤◌, ◌≡◌, refl, ap, ◌∙◌, ◌⊎◌, inl, inr, true, false, not, some, List, [], ◌∷◌,
  arith, ◌==◌, if◌then◌else◌, All, length, Bool-cases,
}
use ai_workflow_control_plan.Guardrails.{Numbers}
use ai_workflow_control_plan.Selection.{Candidate, Selection, Limits, Entry, fits, add}
use ai_workflow_control_plan.Selection.Scores.{is_smaller, push, apply}
use ai_workflow_control_plan.Selection.Modes.{score, is_stale, heap_fuel, first_heap, drain}

module _ {F : Type 0} (num : Numbers F) (l : Limits) (rows : List (Candidate F)) where
  -- An entry of an earlier epoch, or one whose bound is its current score.
  abbrev pub Known : ℕ → List F → Entry F → Type 0
  Known epoch coverage e =
      (suc e.epoch ≤ epoch)
      ⊎ ((e.epoch ≡ epoch) × (e.bound ≡ num.neg (score num l rows coverage e.candidate)))

  -- The entries of other epochs.
  abbrev pub stale : ℕ → List (Entry F) → ℕ
  stale epoch [] = 0
  stale epoch (e ∷ heap) = (if e.epoch == epoch then 0 else 1) + stale epoch heap

  stale-length : (epoch : ℕ) (heap : List (Entry F)) → stale epoch heap ≤ length heap
  stale-length epoch [] = omega arith
  stale-length epoch (e ∷ heap) = let rest = stale-length epoch heap in ground (arith, rest)

  length-push : (e : Entry F) (heap : List (Entry F)) → length (push num e heap) ≡ suc (length heap)
  unfolding push
  length-push e [] = refl
  length-push e (d ∷ heap) = let rest = length-push e heap in ground (arith, rest)

  stale-push :
      (epoch : ℕ) (e : Entry F) (heap : List (Entry F))
      → stale epoch (push num e heap) ≡ (if e.epoch == epoch then 0 else 1) + stale epoch heap
  unfolding push
  stale-push epoch e [] = refl
  stale-push epoch e (d ∷ heap) = elim (Bool-cases (is_smaller num e d)) [
    | inl first ↦ rw (first, push) refl
    | inr later ↦ let rest = stale-push epoch e heap in rw (later, push) (omega (arith, rest))
  ]

  All-push :
      (P : Entry F → Type 0) (e : Entry F) (heap : List (Entry F))
      → P e
      → All P heap
      → All P (push num e heap)
  unfolding push
  All-push P e [] h all = (h, tt)
  All-push P e (d ∷ heap) h all = elim (Bool-cases (is_smaller num e d)) [
    | inl first ↦ rw (first, push) (h, all)
    | inr later ↦ rw (later, push) (all.0, All-push P e heap h all.1)
  ]

  -- After a new epoch begins every entry is of an earlier one.
  All-Known_later :
      (epoch : ℕ) (coverage further : List F) (heap : List (Entry F))
      → All (Known epoch coverage) heap
      → All (Known (suc epoch) further) heap
  All-Known_later epoch coverage further [] all = tt
  All-Known_later epoch coverage further (e ∷ heap) all = (
    elim all.0 [
      | inl old ↦ inl (omega (arith, old))
      | inr (same, bound) ↦ inl (omega (arith, same))
    ],
    All-Known_later epoch coverage further heap all.1,
  )

  pub first_heap-Known :
      (coverage : List F) (cs : List (Candidate F)) (heap : List (Entry F))
      → All (Known 0 coverage) heap
      → All (Known 0 coverage) (first_heap num l rows coverage cs heap)
        × (length (first_heap num l rows coverage cs heap) ≡ length cs + length heap)
  unfolding first_heap
  first_heap-Known coverage [] heap all = (all, omega arith)
  first_heap-Known coverage (c ∷ cs) heap all =
      let e : Entry F = record {
        bound = num.neg (score num l rows coverage c);
        epoch = 0;
        candidate = c;
      } in
      let (known, count) =
        first_heap-Known coverage cs (push num e heap)
          (All-push (Known 0 coverage) e heap (inr (refl, refl)) all) in
      let one = length-push e heap in (known, omega (arith, count, one))

  heap_fuel_positive : (n : ℕ) → 1 ≤ heap_fuel num l rows n
  heap_fuel_positive zero = omega arith
  heap_fuel_positive (suc n) = let rest = heap_fuel_positive n in omega (arith, rest)

  module _ (settled : (x : F) → num.less num.tiny (num.abs (num.add x (num.neg x))) ≡ false) where
    -- An entry that is known and seems stale is of an earlier epoch.
    stale-epoch :
        (epoch : ℕ) (coverage : List F) (e : Entry F)
        → Known epoch coverage e
        → is_stale num l rows epoch (score num l rows coverage e.candidate) e ≡ true
        → (e.epoch == epoch) ≡ false
    stale-epoch epoch coverage e (inl old) h = ground (arith, old)
    stale-epoch epoch coverage e (inr (same, bound)) h =
        let current = score num l rows coverage e.candidate in
        let calm : num.less num.tiny (num.abs (num.add current e.bound)) ≡ false =
          ap (λ (x : F). num.less num.tiny (num.abs (num.add current x))) bound ∙ settled current in
        ground (arith, h, calm)

    pub drain_returns :
        (fuel epoch : ℕ) (coverage : List F) (s : Selection F) (heap : List (Entry F))
        → All (Known epoch coverage) heap
        → stale epoch heap + heap_fuel num l rows (length heap) ≤ fuel
        → (end : Selection F) × (drain num l rows fuel epoch coverage s heap ≡ some end)
    unfolding drain
    drain_returns zero epoch coverage s heap all enough =
        let some_fuel = heap_fuel_positive (length heap) in ground (arith, enough, some_fuel)
    drain_returns (suc fuel) epoch coverage s [] all enough = (s, refl)
    drain_returns (suc fuel) epoch coverage s (e ∷ heap) all enough =
        let current = score num l rows coverage e.candidate in
        elim (Bool-cases (not (fits l s e.candidate))) [
          | inl misses ↦
              let (end, run) =
                drain_returns fuel epoch coverage s heap all.1 (ground (arith, enough)) in
              (end, ground (arith, misses, run))
          | inr fitting ↦ elim (Bool-cases (is_stale num l rows epoch current e)) [
            | inl seems ↦
                let next : Entry F = record {
                  bound = num.neg current;
                  epoch = epoch;
                  candidate = e.candidate;
                } in
                let old = stale-epoch epoch coverage e all.0 seems in
                let count = length-push next heap in
                let others = stale-push epoch next heap in
                let (end, run) =
                  drain_returns fuel epoch coverage s (push num next heap)
                    (All-push (Known epoch coverage) next heap (inr (refl, refl)) all.1)
                    (rw (count, others) (ground (arith, enough, old))) in
                (end, ground (arith, fitting, seems, run))
            | inr fresh ↦ elim (Bool-cases (not (num.less num.zero current))) [
              | inl done ↦ (s, ground (arith, fitting, fresh, done))
              | inr more ↦
                  let further = apply num e.candidate rows coverage in
                  let few = stale-length (suc epoch) heap in
                  let (end, run) =
                    drain_returns fuel (suc epoch) further (add s e.candidate) heap
                      (All-Known_later epoch coverage further heap all.1)
                      (ground (arith, enough, few)) in
                  (end, ground (arith, fitting, fresh, more, run))
            ]
          ]
        ]
