-- ===== src/Selection/Modes.antt =====
-- The modes of `select_context` of ai_workflow/context_selection.py, and the whole of it.
use ai_workflow_control_plan.Common.{
  ℕ, zero, suc, ◌+◌, ◌-◌, max, Bool, false, not, ◌||◌, Option, none, some, List, [], ◌∷◌, ◌++◌,
  String, leb, ◌==◌, if◌then◌else◌, length, take, contains,
}
use ai_workflow_control_plan.Guardrails.{Numbers}
use ai_workflow_control_plan.Selection.{
  Candidate, Selection, Limits, Entry, nothing, fits, add, add_mandatory, remaining, active_cost,
  total_cost, add_fitting, reverse_onto,
}
use ai_workflow_control_plan.Selection.Scores.{gain_from, apply, apply_all, ranked, push}

module _ {F : Type 0} (num : Numbers F) where
  module _ (l : Limits) (rows : List (Candidate F)) where
    -- `_gain(candidate, rows, coverage) / cost`
    unfoldable pub score : List F → Candidate F → F
    unfolding gain_from
    score coverage c =
        num.div (gain_from num num.zero c rows coverage) (num.of_count (active_cost l c))

    unfoldable pub first_heap : List F → List (Candidate F) → List (Entry F) → List (Entry F)
    unfolding push score
    first_heap coverage [] heap = heap
    first_heap coverage (c ∷ cs) heap =
        first_heap coverage cs
          (push num (record { bound = num.neg (score coverage c); epoch = 0; candidate = c }) heap)

    -- The score is of an earlier epoch, or another one.
    abbrev pub is_stale : ℕ → F → Entry F → Bool
    is_stale epoch current e =
        not (e.epoch == epoch) || num.less num.tiny (num.abs (num.add current e.bound))

    -- The loop over the heap; `none` is the end of the fuel.
    unfoldable pub drain : ℕ → ℕ → List F → Selection F → List (Entry F) → Option (Selection F)
    unfolding fits push score apply
    drain zero epoch coverage s heap = none
    drain (suc fuel) epoch coverage s [] = some s
    drain (suc fuel) epoch coverage s (e ∷ heap) =
        let current = score coverage e.candidate in
        let dropped = drain fuel epoch coverage s heap in
        let again = drain fuel epoch coverage s (
          push num (record { bound = num.neg current; epoch = epoch; candidate = e.candidate })
            heap) in
        let taken =
          drain fuel (suc epoch) (apply num e.candidate rows coverage) (add s e.candidate) heap in
        if not (fits l s e.candidate)
        then dropped
        else if is_stale epoch current e
        then again
        else if not (num.less num.zero current)
        then some s
        else taken

    -- `[0.0] * len(rows)`
    unfoldable pub zeros : List (Candidate F) → List F
    zeros [] = []
    zeros (c ∷ cs) = num.zero ∷ zeros cs

    -- Enough for every candidate to be taken up again once after each one that is taken.
    abbrev pub heap_fuel : ℕ → ℕ
    heap_fuel zero = 1
    heap_fuel (suc n) = heap_fuel n + (n + n + 2)

    abbrev pub active_budget : ℕ
    active_budget = elim l.token_limit [ none ↦ l.char_limit | some limit ↦ limit ]

    -- `ratio <= tight_fraction`
    unfoldable pub is_tight : F → Bool
    unfolding total_cost
    is_tight tight = not (
        num.less tight
          (num.div (num.of_count active_budget) (num.of_count (max 1 (total_cost l rows)))))

    abbrev pub is_empty_budget : Bool
    is_empty_budget =
        length rows == 0
        || l.char_limit == 0
        || elim l.token_limit [ none ↦ false | some n ↦ n == 0 ]

    -- The mode "facility_location", after the mandatory rows.
    unfoldable pub drain_all : Selection F → Option (Selection F)
    unfolding apply_all remaining first_heap drain zeros
    drain_all s =
        let coverage = apply_all num (reverse_onto s.selected []) rows (zeros rows) in
        let left = remaining s.selected rows in
        drain (heap_fuel (length left)) 0 coverage s (first_heap coverage left [])

    -- `select_context` from its bounded rows on. `tight` is `tight_budget_fraction`.
    unfoldable pub select_rows : List String → F → Option (Selection F)
    unfolding add_mandatory remaining ranked add_fitting drain_all is_tight
    select_rows mandatory tight =
        let s = add_mandatory l mandatory nothing rows in
        if is_empty_budget
        then some nothing
        else if is_tight tight
        then some (add_fitting l s (ranked num l (remaining s.selected rows)))
        else drain_all s

  -- `_dedupe`
  unfoldable pub dedupe : List String → List (Candidate F) → List (Candidate F)
  dedupe seen [] = []
  dedupe seen (c ∷ cs) =
      let same = dedupe seen cs in
      let rest = dedupe (c.key ∷ seen) cs in if contains seen c.key then same else c ∷ rest

  unfoldable pub mandatory_rows : List String → List (Candidate F) → List (Candidate F)
  mandatory_rows mandatory [] = []
  mandatory_rows mandatory (c ∷ cs) =
      let rest = mandatory_rows mandatory cs in
      if contains mandatory c.source then c ∷ rest else rest

  -- `_bounded`
  unfoldable pub bounded_rows : Limits → ℕ → List String → List (Candidate F) → List (Candidate F)
  unfolding mandatory_rows remaining ranked
  bounded_rows l limit mandatory rows =
      let first = mandatory_rows mandatory rows in
      if leb (length rows) limit
      then rows
      else first ++ take (limit - length first) (ranked num l (remaining first rows))

  -- `select_context`, of the candidates of all items.
  unfoldable pub select_context :
      Limits → ℕ → List String → F → List (Candidate F) → Option (Selection F)
  unfolding dedupe bounded_rows select_rows
  select_context l limit mandatory tight candidates =
      select_rows l (bounded_rows l limit mandatory (dedupe [] candidates)) mandatory tight
