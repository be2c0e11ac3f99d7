-- ===== src/Guardrails/GateTests.antt =====
-- Runs of `evaluate_live_guardrails` on a few rows, and of what it decides on.
use ai_workflow_control_plan.Common.{
  ◌≤◌, ℕ, ◌*◌, ◌≡◌, refl, ◌⊎◌, Bool, true, false, ◌&&◌, none, some, [], ◌∷◌, arith, strip, is_blank,
  contains, unique_after, length, ok,
}
use ai_workflow_control_plan.Deployment.Types.{canary_1, canary_5, percent, State, stage_of}
use ai_workflow_control_plan.Deployment.Manifest.{
  verify_policy_manifest, validate_policy, validate_context_fields,
}
use ai_workflow_control_plan.Deployment.Verify.{
  signature_checks, manifest_checks, head_checks, body_checks, verify_deployment_state,
  sign_payload,
}
use ai_workflow_control_plan.Deployment.Transition.{
  check_report, check_target, entry_for, next_body, roll_back, Move, transition_deployment_state,
}
use ai_workflow_control_plan.Deployment.Assignment.{LiveReport}
use ai_workflow_control_plan.Deployment.Features.{context_key}
use ai_workflow_control_plan.Deployment.Samples.{hashes, state_at, move_to}
use ai_workflow_control_plan.Guardrails.Scores.{
  no_violations, sequential_scores, absolute_bound, anytime_hoeffding_sequence, clusters_from,
}
use ai_workflow_control_plan.Guardrails.Monitor.{
  keep, drop, deployment_rows, count_contexts, sum_from, total_variation_distance, unknown_shares,
  costs,
}
use ai_workflow_control_plan.Guardrails.Gate.{
  Measured, Report, rollback_checks, blockers_of, gate_of,
}
use ai_workflow_control_plan.Guardrails.Evaluate.{
  measure, evaluate_verified, evaluate_live_guardrails, report_of,
}
use ai_workflow_control_plan.Guardrails.Evidence.{Sound, candidate_failures}
use ai_workflow_control_plan.Guardrails.Decisions.{
  to_transition, to_runtime, evaluate_live_guardrails_exclusive, promotion-Sound,
}
use ai_workflow_control_plan.Guardrails.Tests.{
  num, rows, settings, lower, row_name, high, dumps, settings_of,
}

-- What is measured of the rows; each half counts as a whole, and no share is known.
abbrev measured_at : ℕ → Measured ℕ
measured_at failures = record {
  candidates = 2;
  candidate_outcomes = 2;
  control_outcomes = 0;
  candidate_failures = failures;
  cumulative_cost = 6;
  violations = no_violations;
  interval = some (0, 1604);
  clusters = 2;
  cluster_high = none;
  drift_samples = 2;
  invalid_contexts = 0;
  distance = 2;
  unknown = 0;
}

abbrev report_at : Bool → ℕ → Report ℕ
report_at success failures =
    report_of num lower row_name high hashes dumps settings_of (rows success)
      (state_at canary_1 2).body settings (measured_at failures)

is_evaluated :
    evaluate_live_guardrails num lower row_name high hashes dumps settings_of
      (rows true)
      "k"
      (state_at canary_1 2)
    ≡ ok (report_at true 0)
unfolding evaluate_live_guardrails evaluate_verified measure sequential_scores absolute_bound
    anytime_hoeffding_sequence clusters_from keep drop deployment_rows count_contexts context_key
    total_variation_distance sum_from unknown_shares costs verify_deployment_state signature_checks
    manifest_checks head_checks body_checks verify_policy_manifest validate_policy
    validate_context_fields unique_after contains is_blank strip
is_evaluated = refl

has_failures :
    evaluate_live_guardrails num lower row_name high hashes dumps settings_of
      (rows false)
      "k"
      (state_at canary_1 2)
    ≡ ok (report_at false 2)
unfolding evaluate_live_guardrails evaluate_verified measure sequential_scores absolute_bound
    anytime_hoeffding_sequence clusters_from keep drop deployment_rows count_contexts context_key
    total_variation_distance sum_from unknown_shares costs verify_deployment_state signature_checks
    manifest_checks head_checks body_checks verify_policy_manifest validate_policy
    validate_context_fields unique_after contains is_blank strip
has_failures = refl

evaluate_live_guardrails_exclusive_example :
    (((report_at false 2).gate.safe_to_advance && (report_at false 2).gate.rollback_required)
      ≡ false)
    × ((verify_deployment_state hashes "k" (state_at canary_1 2) ≡ [])
        ⊎ ((report_at false 2).gate.rollback_required ≡ true))
evaluate_live_guardrails_exclusive_example =
    evaluate_live_guardrails_exclusive num lower row_name high hashes dumps settings_of (rows false)
      "k" (state_at canary_1 2) (report_at false 2) has_failures

abbrev promoted : Move
promoted = move_to "canary_5" (some (to_transition "d" (report_at true 0)))

abbrev after : State
after = record {
  body = record (state_at canary_1 2).body {
    stage = canary_5;
    traffic_fraction = some (5 * percent);
    generation = some 3;
    updated_at = "1";
    history =
        record {
          generation = 3;
          from_stage = canary_1;
          to_stage = canary_5;
          actor = "ana";
          at = "1";
          evidence_sha256 = some "d";
          reason = "manual staged promotion";
        }
        ∷ [];
  };
  signature = some (record { algorithm = "hmac-sha256"; key_id = "k"; value = "k1" });
}

is_promoted : transition_deployment_state hashes "k" (state_at canary_1 2) promoted ≡ ok after
unfolding transition_deployment_state sign_payload check_target check_report next_body roll_back
    entry_for stage_of verify_deployment_state signature_checks manifest_checks head_checks
    body_checks verify_policy_manifest validate_policy unique_after contains is_blank strip gate_of
    blockers_of rollback_checks
is_promoted = refl

promotion-Sound_example :
    Sound num lower row_name high hashes dumps settings_of (rows true) (state_at canary_1 2).body
promotion-Sound_example =
    promotion-Sound num lower row_name high hashes dumps settings_of (rows true) "k"
      (state_at canary_1 2) (report_at true 0) is_evaluated "d" promoted after refl is_promoted refl
      (ground arith)

abbrev guardrails : State → LiveReport
guardrails s = to_runtime (report_at false 2)

over_budget :
    1
    ≤ length (
        candidate_failures num lower row_name high hashes dumps settings_of
          (rows false)
          (state_at canary_1 2).body)
unfolding keep deployment_rows
over_budget = omega arith
