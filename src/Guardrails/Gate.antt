-- ===== src/Guardrails/Gate.antt =====
-- The gate of `evaluate_live_guardrails` in ai_workflow/deployment_guardrails.py, and what it is computed
-- of.
use ai_workflow_control_plan.Common.{
  if◌then◌else◌, ℕ, ◌+◌, Bool, true, false, not, ◌&&◌, ◌||◌, Option, none, some, List, [], ◌∷◌,
  ◌++◌, String, ltb, leb, ◌==◌, collect, unique_after,
}
use ai_workflow_control_plan.Deployment.Types.{Stage, is_live}
use ai_workflow_control_plan.Deployment.Verify.{is_valid, StateError}
use ai_workflow_control_plan.Guardrails.{Numbers, Settings}
use ai_workflow_control_plan.Guardrails.Scores.{Violations, larger}
use ai_workflow_control_plan.Guardrails.Monitor.{at_least_one, at_least_two}

-- What the gate is computed of.
pub record Measured (F : Type 0) : Type 0 where
  pub candidates : ℕ
  pub candidate_outcomes : ℕ
  pub control_outcomes : ℕ
  pub candidate_failures : ℕ
  pub cumulative_cost : F
  pub violations : Violations
  pub interval : Option (F × F)
  pub clusters : ℕ
  pub cluster_high : Option F
  pub drift_samples : ℕ
  pub invalid_contexts : ℕ
  pub distance : F
  pub unknown : F

pub record Gate : Type 0 where
  pub rollback_required : Bool
  pub safe_to_advance : Bool
  pub rollback_blockers : List String
  pub blockers : List String
  pub evidence_of_improvement : Bool

pub record Report (F : Type 0) : Type 0 where
  pub policy_id : String
  pub stage : Stage
  pub state_generation : Option ℕ
  pub state_errors : List StateError
  pub measured : Option (Measured F)
  pub gate : Gate

-- The gate for a state that does not verify.
abbrev pub failed_gate : Gate
failed_gate = record {
  rollback_required = true;
  safe_to_advance = false;
  rollback_blockers = [];
  blockers = "deployment_state_verification_failed" ∷ [];
  evidence_of_improvement = false;
}

-- `any(monitoring_violations.values())`
unfoldable pub any_violation : Violations → Bool
any_violation v =
    not (v.invalid_assignment_probability == 0)
    || not (v.invalid_outcome == 0)
    || not (v.reward_range_violation == 0)
    || not (v.importance_weight_violation == 0)

-- `max_failures >= 0 and failures > max_failures`
abbrev pub is_over : ℕ → Option ℕ → Bool
is_over n none = false
is_over n (some bound) = ltb bound n

module _ {F : Type 0} (num : Numbers F) where
  abbrev pub is_above : Option F → F → Bool
  is_above none bound = false
  is_above (some x) bound = num.less bound x

  abbrev pub is_below : Option F → F → Bool
  is_below none bound = false
  is_below (some x) bound = num.less x bound

  -- A missing bound is never exceeded.
  abbrev pub exceeds : F → Option F → Bool
  exceeds x none = false
  exceeds x (some bound) = num.less bound x

  -- `_number` of a number.
  abbrev pub number_of : F → Option F
  number_of x = if num.is_finite x then some x else none

  abbrev pub low_end : Option (F × F) → Option F
  low_end none = none
  low_end (some (low, high)) = number_of low

  abbrev pub high_end : Option (F × F) → Option F
  high_end none = none
  high_end (some (low, high)) = number_of high

  -- `regression_margin`
  abbrev pub margin : Settings F → F
  margin s = larger num num.zero s.max_reward_regression

  -- The failure rate is read only where there are outcomes.
  abbrev pub failure_rate : Measured F → F
  failure_rate m = num.div (num.of_count m.candidate_failures) (num.of_count m.candidate_outcomes)

  -- `rollback_blockers`
  unfoldable pub rollback_checks : Settings F → Measured F → List (Bool × String)
  unfolding any_violation
  rollback_checks s m =
      let wanted = at_least_one s.minimum_monitor_outcomes in
      let drifts = leb (at_least_one s.minimum_drift_samples) m.drift_samples in
      (
        ltb 0 s.budget.max_candidate_exposures && ltb s.budget.max_candidate_exposures m.candidates,
        "candidate_exposure_budget_exhausted",
      )
      ∷ (
        is_over m.candidate_failures s.budget.max_candidate_failures,
        "candidate_failure_budget_exhausted",
      )
      ∷ (
        exceeds m.cumulative_cost s.budget.max_cumulative_realized_cost,
        "candidate_cost_budget_exhausted",
      )
      ∷ (
        leb wanted m.candidate_outcomes && num.less s.max_failure_rate (failure_rate m),
        "candidate_failure_rate_regression",
      )
      ∷ (
        leb wanted (m.candidate_outcomes + m.control_outcomes)
            && is_below (high_end m.interval) (num.neg (margin s)),
        "reward_regression_confident",
      )
      ∷ (
        leb (at_least_two s.minimum_monitor_clusters) m.clusters
            && is_below m.cluster_high (num.neg (margin s)),
        "clustered_reward_regression_confident",
      )
      ∷ (drifts && num.less s.max_context_tv_distance m.distance, "context_distribution_drift")
      ∷ (drifts && num.less s.max_unknown_context_rate m.unknown, "unknown_context_rate_exceeded")
      ∷ (not (m.invalid_contexts == 0), "invalid_context_features")
      ∷ (any_violation m.violations, "monitoring_input_violation")
      ∷ []

  -- `blockers`, before they are made unique.
  unfoldable pub blockers_of : Stage → Settings F → Measured F → List String
  blockers_of stage s m =
      collect ((not (is_live stage), "stage_not_live") ∷ [])
      ++ (collect (rollback_checks s m)
          ++ collect (
              (
                ltb m.candidate_outcomes (at_least_one s.minimum_monitor_outcomes),
                "insufficient_candidate_monitor_outcomes",
              )
              ∷ (
                ltb m.clusters (at_least_two s.minimum_monitor_clusters),
                "insufficient_monitor_clusters",
              )
              ∷ []))

  unfoldable pub gate_of : Stage → Settings F → Measured F → Gate
  unfolding rollback_checks blockers_of
  gate_of stage s m = record {
    rollback_required = not (is_valid (collect (rollback_checks s m)));
    safe_to_advance = is_valid (blockers_of stage s m);
    rollback_blockers = collect (rollback_checks s m);
    blockers = unique_after [] (blockers_of stage s m);
    evidence_of_improvement = is_above (low_end m.interval) s.promotion_margin;
  }
