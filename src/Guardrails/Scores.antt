-- ===== src/Guardrails/Scores.antt =====
-- The scores of ai_workflow/deployment_guardrails.py (`_sequential_scores`), the confidence sequence of
-- ai_workflow/shadow_policy.py, and the clusters of ai_workflow/deployment_statistics.py.
use ai_workflow_control_plan.Common.{
  ℕ, suc, Bool, not, ◌&&◌, ◌||◌, Option, none, some, List, [], ◌∷◌, ◌++◌, String, str_eq,
  if◌then◌else◌, strip, is_blank,
}
use ai_workflow_control_plan.Guardrails.{Numbers, Row, Settings}

-- `violations`
pub record Violations : Type 0 where
  pub invalid_assignment_probability : ℕ
  pub invalid_outcome : ℕ
  pub reward_range_violation : ℕ
  pub importance_weight_violation : ℕ

abbrev pub no_violations : Violations
no_violations = record {
  invalid_assignment_probability = 0;
  invalid_outcome = 0;
  reward_range_violation = 0;
  importance_weight_violation = 0;
}

-- What becomes of one row.
pub data Scored (F : Type 0) : Type 0 where
  skipped bad_probability bad_outcome bad_reward bad_weight : Scored F
  scored : F → Scored F

module _ {F : Type 0} (num : Numbers F) where
  abbrev pub larger : F → F → F
  larger a b = if num.less a b then b else a

  -- The importance weight, and the score that it gives a reward.
  abbrev pub weight_of : String → F → F
  weight_of assignment probability =
      if str_eq assignment "candidate"
      then num.div num.one probability
      else num.div num.one (num.sub num.one probability)

  abbrev pub signed_score : String → F → F → F
  signed_score assignment weight reward =
      if str_eq assignment "candidate"
      then num.mul weight reward
      else num.mul (num.neg weight) reward

  abbrev pub is_assigned : String → Bool
  is_assigned assignment = str_eq assignment "candidate" || str_eq assignment "control"

  -- The tests on the reward and the weight.
  unfoldable pub score_reward : Settings F → String → F → Option F → Scored F
  score_reward s assignment probability none = bad_outcome
  score_reward s assignment probability (some reward) =
      if num.less reward s.reward_min || num.less s.reward_max reward
      then bad_reward
      else if num.less s.max_importance_weight (weight_of assignment probability)
      then bad_weight
      else scored (signed_score assignment (weight_of assignment probability) reward)

  unfoldable pub score_exposure : Settings F → String → Option F → Option F → Scored F
  unfolding score_reward
  score_exposure s assignment none reward = bad_probability
  score_exposure s assignment (some probability) reward =
      if not (num.less num.zero probability && num.less probability num.one)
      then bad_probability
      else score_reward s assignment probability reward

  -- The body of the loop of `_sequential_scores`.
  unfoldable pub score_row : Settings F → Row F → Scored F
  unfolding score_exposure
  score_row s row = elim row.deployment [
    | none ↦ skipped
    | some d ↦ elim row.outcome [
      | none ↦ skipped
      | some o ↦
          if not o.verified || not (is_assigned d.assignment)
          then skipped
          else score_exposure s d.assignment d.candidate_probability o.reward
    ]
  ]

  abbrev pub add_row : Scored F → List F × Violations → List F × Violations
  add_row skipped (values, v) = (values, v)
  add_row (scored x) (values, v) = (x ∷ values, v)
  add_row bad_probability (values, v) =
      (values, record v { invalid_assignment_probability = suc v.invalid_assignment_probability })
  add_row bad_outcome (values, v) = (values, record v { invalid_outcome = suc v.invalid_outcome })
  add_row bad_reward (values, v) =
      (values, record v { reward_range_violation = suc v.reward_range_violation })
  add_row bad_weight (values, v) =
      (values, record v { importance_weight_violation = suc v.importance_weight_violation })

  -- `_sequential_scores`
  unfoldable pub sequential_scores : Settings F → List (Row F) → List F × Violations
  unfolding score_row
  sequential_scores s [] = ([], no_violations)
  sequential_scores s (row ∷ rows) = add_row (score_row s row) (sequential_scores s rows)

  -- `absolute_bound` of `evaluate_live_guardrails`
  unfoldable pub absolute_bound : Settings F → F
  absolute_bound s =
      larger num.tiny
        (num.mul s.max_importance_weight (larger (num.abs s.reward_min) (num.abs s.reward_max)))

  -- `lower` and `upper` of one step of `anytime_hoeffding_sequence`.
  abbrev pub interval : F → ℕ → F → F × F
  interval bound n running =
      let mean = num.div running (num.of_count n) in
      let inner =
        num.div
          (num.mul (num.of_count 2) (num.log (num.div (num.of_count 2) (num.allocated_alpha n))))
          (num.of_count n) in
      let radius = num.mul bound (num.sqrt inner) in
      (num.round_6 (num.sub mean radius), num.round_6 (num.add mean radius))

  -- The loop of `anytime_hoeffding_sequence` from an index on; the last interval is `final`.
  unfoldable pub hoeffding_from : F → ℕ → F → Option (F × F) → List F → Option (F × F)
  hoeffding_from bound n running final [] = final
  hoeffding_from bound n running final (value ∷ values) =
      let total = num.add running value in
      hoeffding_from bound (suc n) total (some (interval bound n total)) values

  -- `final` of `anytime_hoeffding_sequence`; the outer `none` is its `ValueError` for the bound.
  unfoldable pub anytime_hoeffding_sequence : F → List F → Option (Option (F × F))
  unfolding hoeffding_from
  anytime_hoeffding_sequence bound values =
      if not (num.less num.zero bound) || not (num.is_finite bound)
      then none
      else some (hoeffding_from bound 1 num.zero none values)

  -- `_row_score`
  unfoldable pub row_score : Row F → Option F
  row_score row = elim row.deployment [
    | none ↦ none
    | some d ↦ elim row.outcome [
      | none ↦ none
      | some o ↦
          if not o.verified || not (is_assigned d.assignment)
          then none
          else elim d.candidate_probability [
            | none ↦ none
            | some probability ↦ elim o.reward [
              | none ↦ none
              | some reward ↦
                  if not (num.less num.zero probability && num.less probability num.one)
                  then none
                  else if str_eq d.assignment "candidate"
                  then some (num.div reward probability)
                  else some (num.div (num.neg reward) (num.sub num.one probability))
            ]
          ]
    ]
  ]

-- `clusters.setdefault(cluster, []).append(score)`
unfoldable pub add_score :
    {F : Type 0} → String → F → List (String × List F) → List (String × List F)
add_score name x [] = (name, x ∷ []) ∷ []
add_score name x ((key, scores) ∷ clusters) =
    let rest = add_score name x clusters in
    if str_eq key name then (key, scores ++ x ∷ []) ∷ clusters else (key, scores) ∷ rest

module _ {F : Type 0} (num : Numbers F) (row_name : ℕ → String) where
  abbrev pub cluster_name : ℕ → String → String
  cluster_name index fingerprint =
      if is_blank fingerprint then row_name index else strip fingerprint

  -- The loop of `clustered_reward_difference`: the clusters, and the rows without a score.
  -- `row_name` is the name of a row that has none.
  unfoldable pub clusters_from :
      ℕ → List (String × List F) → ℕ → List (Row F) → List (String × List F) × ℕ
  unfolding add_score row_score
  clusters_from index clusters invalid [] = (clusters, invalid)
  clusters_from index clusters invalid (row ∷ rows) = elim (row_score num row) [
    | none ↦ clusters_from (suc index) clusters (suc invalid) rows
    | some x ↦
        clusters_from (suc index) (add_score (cluster_name index row.task_fingerprint) x clusters)
          invalid rows
  ]
