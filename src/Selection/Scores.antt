-- ===== src/Selection/Scores.antt =====
-- The gain of a candidate, the order of the rows and the heap of ai_workflow/context_selection.py.
use Prim.Native.String.{compare}
use Prim.Native.Nat.{lt, eq, gt, compare as compare_ℕ}
use ai_workflow_control_plan.Common.{
  ℕ, suc, ◌+◌, ◌-◌, Bool, true, false, ◌||◌, List, [], ◌∷◌, String, ◌==◌, if◌then◌else◌, length,
  contains,
}
use ai_workflow_control_plan.Guardrails.{Numbers}
use ai_workflow_control_plan.Selection.{Candidate, Limits, Entry, active_cost}

-- `len(a & b)`, of lists without duplicates.
unfoldable pub common : List String → List String → ℕ
common [] b = 0
common (x ∷ a) b = let rest = common a b in if contains b x then suc rest else rest

module _ {F : Type 0} (num : Numbers F) where
  -- `_jaccard`; `len(a | b)` is not 0 where neither is empty.
  unfoldable pub jaccard : List String → List String → F
  unfolding common
  jaccard a b =
      if length a == 0 || length b == 0
      then num.zero
      else num.div (num.of_count (common a b)) (num.of_count (length a + length b - common a b))

  abbrev pub represented : Candidate F → Candidate F → F
  represented target c = num.mul target.relevance (jaccard target.tokens c.tokens)

  -- `_gain`; the coverage has an entry for every row.
  unfoldable pub gain_from : F → Candidate F → List (Candidate F) → List F → F
  unfolding jaccard
  gain_from total c (target ∷ rows) (covered ∷ coverage) =
      gain_from
        (if num.less covered (represented target c)
          then num.add total (num.sub (represented target c) covered)
          else total)
        c rows coverage
  gain_from total c _ _ = total

  -- `_apply`
  unfoldable pub apply : Candidate F → List (Candidate F) → List F → List F
  unfolding jaccard
  apply c (target ∷ rows) (covered ∷ coverage) =
      (if num.less covered (represented target c) then represented target c else covered)
      ∷ apply c rows coverage
  apply c _ coverage = coverage

  unfoldable pub apply_all : List (Candidate F) → List (Candidate F) → List F → List F
  unfolding apply
  apply_all [] rows coverage = coverage
  apply_all (c ∷ cs) rows coverage = apply_all cs rows (apply c rows coverage)

  -- The order of `sorted` in the relevance mode: relevance down, then cost, source and key.
  unfoldable pub goes_before : Limits → Candidate F → Candidate F → Bool
  goes_before l a b =
      if num.less b.relevance a.relevance
      then true
      else if num.less a.relevance b.relevance
      then false
      else elim (compare_ℕ (active_cost l a) (active_cost l b)) [
        | lt ↦ true
        | gt ↦ false
        | eq ↦ elim (compare a.source b.source) [
          | lt ↦ true
          | gt ↦ false
          | eq ↦ elim (compare a.key b.key) [ lt ↦ true | eq ↦ true | gt ↦ false ]
        ]
      ]

  unfoldable pub put_ranked : Limits → Candidate F → List (Candidate F) → List (Candidate F)
  unfolding goes_before
  put_ranked l c [] = c ∷ []
  put_ranked l c (d ∷ cs) =
      let rest = put_ranked l c cs in if goes_before l c d then c ∷ d ∷ cs else d ∷ rest

  unfoldable pub ranked : Limits → List (Candidate F) → List (Candidate F)
  unfolding put_ranked
  ranked l [] = []
  ranked l (c ∷ cs) = put_ranked l c (ranked l cs)

  -- The order of the heap's tuples. The keys of its candidates differ.
  unfoldable pub is_smaller : Entry F → Entry F → Bool
  is_smaller a b =
      if num.less a.bound b.bound
      then true
      else if num.less b.bound a.bound
      then false
      else elim (compare a.candidate.key b.candidate.key) [ lt ↦ true | eq ↦ true | gt ↦ false ]

  -- `heappush`, on the sorted list that stands for the heap: `heappop` takes its first.
  unfoldable pub push : Entry F → List (Entry F) → List (Entry F)
  unfolding is_smaller
  push e [] = e ∷ []
  push e (d ∷ heap) = let rest = push e heap in if is_smaller e d then e ∷ d ∷ heap else d ∷ rest
