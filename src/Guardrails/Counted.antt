-- ===== src/Guardrails/Counted.antt =====
-- About the scores and the violations that ai_workflow/deployment_guardrails.py counts.
use ai_workflow_control_plan.Common.{
  ℕ, ◌+◌, ◌≡◌, refl, ◌∙◌, inl, inr, Bool, true, false, ◌&&◌, Option, none, some, List, [], ◌∷◌,
  String, arith, if◌then◌else◌, length, Bool-cases, Option-cases,
}
use ai_workflow_control_plan.Guardrails.{Numbers, Row, Settings}
use ai_workflow_control_plan.Guardrails.Scores.{
  Scored, skipped, bad_probability, bad_outcome, bad_reward, bad_weight, scored, Violations,
  is_assigned, score_reward, score_exposure, score_row, add_row, sequential_scores,
}
use ai_workflow_control_plan.Guardrails.Monitor.{keep}

abbrev pub all_violations : Violations → ℕ
all_violations v =
    v.invalid_assignment_probability + v.invalid_outcome + v.reward_range_violation
    + v.importance_weight_violation

-- A row with a verified outcome of a task of the candidate or of the control group.
abbrev pub is_monitored : {F : Type 0} → Numbers F → Row F → Bool
is_monitored num row = elim row.deployment [
  | none ↦ false
  | some d ↦ elim row.outcome [ none ↦ false | some o ↦ o.verified && is_assigned num d.assignment ]
]

abbrev counts_as : {F : Type 0} → Scored F → Bool
counts_as skipped = false
counts_as _ = true

module _ {F : Type 0} (num : Numbers F) (s : Settings F) where
  score_reward-counts :
      (assignment : String) (p : F) (reward : Option F)
      → counts_as (score_reward num s assignment p reward) ≡ true
  unfolding score_reward
  score_reward-counts assignment p none = refl
  score_reward-counts assignment p (some reward) = ground arith

  score_exposure-counts :
      (assignment : String) (p reward : Option F)
      → counts_as (score_exposure num s assignment p reward) ≡ true
  unfolding score_exposure
  score_exposure-counts assignment none reward = refl
  score_exposure-counts assignment (some p) reward =
      let rest = score_reward-counts assignment p reward in ground (arith, rest)

  score_row-counts : (row : Row F) → counts_as (score_row num s row) ≡ is_monitored num row
  unfolding score_row
  score_row-counts row = elim (Option-cases row.deployment) [
    | inl e ↦ rw e refl
    | inr (d, e) ↦ elim (Option-cases row.outcome) [
      | inl f ↦ rw (e, f) refl
      | inr (o, f) ↦
          let rest = score_exposure-counts d.assignment d.candidate_probability o.reward in
          rw (e, f) (ground (arith, rest))
    ]
  ]

  add_row-counts :
      (x : Scored F) (r : List F × Violations)
      → length (add_row num x r).0 + all_violations (add_row num x r).1
        ≡ (if counts_as x then 1 else 0) + (length r.0 + all_violations r.1)
  add_row-counts skipped (values, v) = omega arith
  add_row-counts bad_probability (values, v) = omega arith
  add_row-counts bad_outcome (values, v) = omega arith
  add_row-counts bad_reward (values, v) = omega arith
  add_row-counts bad_weight (values, v) = omega arith
  add_row-counts (scored x) (values, v) = omega arith

  -- Every row with a verified outcome of a task of the candidate or of the control group gives either one
  -- score or one violation, and the other rows give none.
  pub sequential_scores_counted :
      (rows : List (Row F))
      → length (sequential_scores num s rows).0 + all_violations (sequential_scores num s rows).1
        ≡ length (keep (is_monitored num) rows)
  unfolding sequential_scores keep
  sequential_scores_counted [] = refl
  sequential_scores_counted (row ∷ rows) =
      let rest = sequential_scores_counted rows in
      let here = score_row-counts row in
      let step = add_row-counts (score_row num s row) (sequential_scores num s rows) in
      elim (Bool-cases (is_monitored num row)) [
        | inl m ↦ rw m (step ∙ rw (here, m) (omega (arith, rest)))
        | inr m ↦ rw m (step ∙ rw (here, m) (omega (arith, rest)))
      ]
