-- ===== src/Guardrails/Evaluate.antt =====
-- `evaluate_live_guardrails` of ai_workflow/deployment_guardrails.py.
use ai_workflow_control_plan.Common.{
  ℕ, not, Option, none, some, List, [], map, String, ltb, if◌then◌else◌, length, Result, ok, err,
  required, ◌>>=◌,
}
use ai_workflow_control_plan.Deployment.Types.{StateBody, State, Hashes}
use ai_workflow_control_plan.Deployment.Verify.{is_valid, verify_deployment_state}
use ai_workflow_control_plan.Deployment.Transition.{generation_of}
use ai_workflow_control_plan.Deployment.Features.{Features, context_key}
use ai_workflow_control_plan.Guardrails.{Numbers, Row, Settings}
use ai_workflow_control_plan.Guardrails.Scores.{
  sequential_scores, absolute_bound, anytime_hoeffding_sequence, clusters_from,
}
use ai_workflow_control_plan.Guardrails.Monitor.{
  keep, last_n, at_least_one, deployment_rows, is_live_row, is_assigned_to, has_verified,
  has_failed, is_low_risk, count_contexts, fractions, sum_from, total_variation_distance,
  unknown_shares, costs,
}
use ai_workflow_control_plan.Guardrails.Gate.{number_of, Measured, Report, failed_gate, gate_of}

-- The `ValueError`s for entries that are missing, and for a bound that is not finite.
pub data GuardError : Type 0 where
  settings_missing manifest_missing context_policy_missing bound_invalid : GuardError

-- `lower` is `str.lower`; `row_name` names a row without a cluster; `bootstrap_high` is the upper end of
-- the bootstrapped mean of two or more clusters.
module _ {F : Type 0} (num : Numbers F) (lower : String → String) (row_name : ℕ → String)
    (bootstrap_high : List (String × List F) → Option F) where
  abbrev pub cluster_high_of : List (String × List F) → Option F
  cluster_high_of clusters =
      if ltb (length clusters) 2
      then none
      else elim (bootstrap_high clusters) [ none ↦ none | some high ↦ number_of num high ]

  -- The part of `evaluate_live_guardrails` that measures the live rows of the deployment.
  unfoldable pub measure :
      (Features → Option String)
      → List String
      → Settings F
      → List (Row F)
      → Result GuardError (Measured F)
  measure key_of known s live =
      let candidates = keep (is_assigned_to "candidate") live in
      let outcomes = keep has_verified candidates in
      let (values, violations) = sequential_scores num s live in
      let (clusters, invalid) = clusters_from num row_name 0 [] 0 live in
      let recent = last_n (at_least_one s.drift_window) (keep (is_low_risk lower) live) in
      let contexts =
        count_contexts key_of (record { counts = []; total = 0; invalid = 0 }) recent in
      elim (anytime_hoeffding_sequence num (absolute_bound num s) values) [
        | none ↦ err bound_invalid
        | some final ↦ ok (record {
          candidates = length candidates;
          candidate_outcomes = length outcomes;
          control_outcomes = length (keep has_verified (keep (is_assigned_to "control") live));
          candidate_failures = length (keep has_failed outcomes);
          cumulative_cost = sum_from num num.zero (costs num outcomes);
          violations = violations;
          interval = final;
          clusters = length clusters;
          cluster_high = cluster_high_of clusters;
          drift_samples = contexts.total;
          invalid_contexts = contexts.invalid;
          distance = total_variation_distance num (fractions num contexts) s.baseline_distribution;
          unknown = sum_from num num.zero (unknown_shares num known (fractions num contexts));
        })
      ]

  -- `settings_of` reads the `guardrails` and the baseline distribution of a state; `rows` are what
  -- `load_learning_records` reads; `dumps` is the canonical JSON text.
  module _ (hashes : Hashes) (dumps : List (String × String) → String)
      (settings_of : StateBody → Option (Settings F)) (rows : List (Row F)) where
    abbrev pub report_of : StateBody → Settings F → Measured F → Report F
    report_of b s m = record {
      policy_id = b.policy_id;
      stage = b.stage;
      state_generation = b.generation;
      state_errors = [];
      measured = some m;
      gate = gate_of num b.stage s m;
    }

    -- The live rows of the deployment of a state.
    abbrev pub live_rows : StateBody → List (Row F)
    live_rows b = keep is_live_row (deployment_rows b.policy_id (generation_of b.generation) rows)

    abbrev pub measure_state :
        StateBody
        → Settings F
        → List String
        → List (String × String)
        → Result GuardError (Measured F)
    measure_state b s fields policy =
        measure (λ (f : Features). context_key dumps f fields)
          (map (λ (p : String × String). p.0) policy) s (live_rows b)

    unfoldable pub evaluate_verified : StateBody → Result GuardError (Report F)
    unfolding measure
    evaluate_verified b = do
      s ← required (settings_of b) settings_missing
      manifest ← required b.policy_manifest GuardError.manifest_missing
      fields ← required manifest.body.context_fields context_policy_missing
      policy ← required manifest.body.policy context_policy_missing
      m ← measure_state b s fields policy
      ok (report_of b s m)

    -- `evaluate_live_guardrails`
    unfoldable pub evaluate_live_guardrails : String → State → Result GuardError (Report F)
    unfolding evaluate_verified
    evaluate_live_guardrails key state =
        if not (is_valid (verify_deployment_state hashes key state))
        then ok (record {
          policy_id = state.body.policy_id;
          stage = state.body.stage;
          state_generation = state.body.generation;
          state_errors = verify_deployment_state hashes key state;
          measured = none;
          gate = failed_gate;
        })
        else evaluate_verified state.body
