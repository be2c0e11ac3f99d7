-- ===== src/Deployment/CreationTests.antt =====
-- Runs of the creation of a manifest and of a deployment state.
use ai_workflow_control_plan.Common.{
  ℕ, ◌+◌, ◌*◌, ◌≤◌, ◌≡◌, refl, true, false, Option, none, some, List, [], ◌∷◌, String, strip,
  is_blank, contains, unique_after, length, Result, ok, err,
}
use ai_workflow_control_plan.Value.{end}
use ai_workflow_control_plan.Common.Int.{pos}
use ai_workflow_control_plan.Guardrails.Tests.{num}
use ai_workflow_control_plan.Deployment.Types.{
  approved, canary_1, stage_of, unknown, percent, State,
}
use ai_workflow_control_plan.Deployment.Manifest.{
  verify_policy_manifest, validate_policy, validate_context_fields,
}
use ai_workflow_control_plan.Deployment.Verify.{
  signature_checks, manifest_checks, head_checks, body_checks, verify_deployment_state,
  sign_payload,
}
use ai_workflow_control_plan.Deployment.Transition.{
  Move, check_report, check_target, generation_of, entry_for, next_body, roll_back,
  transition_deployment_state,
}
use ai_workflow_control_plan.Deployment.Promotion.{run}
use ai_workflow_control_plan.Deployment.Samples.{hashes, manifest, move_to}
use ai_workflow_control_plan.Deployment.Creation.{
  PolicyReport, policy_invalid, create_policy_manifest, ShadowReport, StateFailure, Options,
  check_options, report_not_eligible, is_eligible, create_deployment_state,
}
use ai_workflow_control_plan.Deployment.ManifestCreated.{create_policy_manifest-valid}
use ai_workflow_control_plan.Deployment.Lifecycle.{create-run-verified}

abbrev policy_report : String → PolicyReport
policy_report arm = record {
  scope = "contextual-retrieval-policy-development";
  eligible_for_shadow = some true;
  feature_schema_version = "retrieval-context-v1";
  context_fields = some (" lane" ∷ "lane" ∷ []);
  development_policy = some ((" x ", arm) ∷ []);
  evidence_cutoff = "p1 ";
  others = end;
}

abbrev report_sha : PolicyReport → String
report_sha r = "r"

created : create_policy_manifest hashes report_sha end (policy_report "rrf_only ") "k" ≡ ok manifest
unfolding create_policy_manifest validate_context_fields validate_policy unique_after contains
    is_blank strip
created = refl

unsafe_arm :
    create_policy_manifest hashes report_sha end (policy_report "fastest") "k" ≡ err policy_invalid
unfolding create_policy_manifest validate_context_fields validate_policy unique_after contains
    is_blank strip
unsafe_arm = refl

trimmed : strip (report_sha (policy_report "rrf_only ")) ≡ report_sha (policy_report "rrf_only ")
unfolding strip
trimmed = refl

not_blank : is_blank (report_sha (policy_report "rrf_only ")) ≡ false
unfolding is_blank strip
not_blank = refl

create_policy_manifest-valid_example : verify_policy_manifest hashes "k" manifest ≡ []
create_policy_manifest-valid_example =
    create_policy_manifest-valid hashes report_sha end (policy_report "rrf_only ") "k" manifest
      trimmed not_blank created

abbrev shadow_report : Option String → ShadowReport
shadow_report policy_id = record {
  policy_id = policy_id;
  evidence_cutoff = some "p1";
  eligible_for_manual_promotion_review = some true;
  manifest_valid = some true;
  policy_received_runtime_traffic = some false;
}

abbrev shadow_sha : ShadowReport → String
shadow_sha r = "s"

abbrev options : Options ℕ
options = record {
  bounded_traffic_fraction = some (20 * percent);
  reward_min = 0;
  reward_max = 2;
  max_importance_weight = 100;
  max_failure_rate = 0;
  max_context_tv_distance = 0;
  max_unknown_context_rate = 0;
  minimum_monitor_clusters = 2;
  cluster_bootstrap_resamples = 100;
  cluster_bootstrap_seed = some (pos 0);
  max_cumulative_realized_cost = none;
}

abbrev settings_of : Options ℕ → String → List (String × String)
settings_of o approver = ("approved_by", approver) ∷ []

abbrev creation : Option String → Result StateFailure State
creation policy_id =
    create_deployment_state num hashes shadow_sha settings_of manifest (shadow_report policy_id) "k"
      " ana" options "0"

other_policy : creation (some "p2") ≡ err report_not_eligible
unfolding create_deployment_state verify_policy_manifest validate_policy unique_after contains
    is_blank strip is_eligible validate_context_fields
other_policy = refl

abbrev started : State
started = record {
  body = record {
    schema_version = "retrieval-deployment-state-v1";
    policy_id = "p1";
    stage = approved;
    traffic_fraction = some 0;
    bounded_traffic_fraction = some (20 * percent);
    generation = some 1;
    updated_at = "0";
    automatic_runtime_activation = false;
    policy_manifest = some manifest;
    settings = ("approved_by", "ana") ∷ [];
    rollback = some (record {
      target_arm = "adaptive_math";
      automatic = true;
      reason = none;
      rolled_back_at = none;
    });
    history =
        record {
          generation = 1;
          from_stage = unknown "shadow";
          to_stage = approved;
          actor = "ana";
          at = "0";
          evidence_sha256 = some "s";
          reason = "manual approval after signed shadow evidence";
        }
        ∷ [];
  };
  signature = some (record { algorithm = "hmac-sha256"; key_id = "k"; value = "k0" });
}

is_started : creation (some "p1") ≡ ok started
unfolding create_deployment_state verify_policy_manifest validate_policy unique_after contains
    is_blank strip is_eligible validate_context_fields check_options sign_payload
is_started = refl

abbrev begun : State
begun = record {
  body = record started.body {
    stage = canary_1;
    traffic_fraction = some percent;
    generation = some 2;
    updated_at = "1";
    history =
        record {
          generation = 1;
          from_stage = unknown "shadow";
          to_stage = approved;
          actor = "ana";
          at = "0";
          evidence_sha256 = some "s";
          reason = "manual approval after signed shadow evidence";
        }
        ∷ record {
          generation = 2;
          from_stage = approved;
          to_stage = canary_1;
          actor = "ana";
          at = "1";
          evidence_sha256 = none;
          reason = "manual staged promotion";
        }
        ∷ [];
  };
  signature = some (record { algorithm = "hmac-sha256"; key_id = "k"; value = "k1" });
}

is_begun : run hashes "k" started (move_to "canary_1" none ∷ []) ≡ ok begun
unfolding run transition_deployment_state sign_payload check_target check_report next_body roll_back
    entry_for stage_of verify_deployment_state signature_checks manifest_checks head_checks
    body_checks verify_policy_manifest validate_policy validate_context_fields unique_after contains
    is_blank strip
is_begun = refl

plain_id : strip manifest.body.policy_id ≡ manifest.body.policy_id
unfolding strip
plain_id = refl

create-run-verified_example :
    (verify_deployment_state hashes "k" begun ≡ [])
    × (length {A = Move} (move_to "canary_1" none ∷ []) ≤ 5)
    × (generation_of begun.body.generation ≡ 1 + length {A = Move} (move_to "canary_1" none ∷ []))
    × (length begun.body.history ≡ 1 + length {A = Move} (move_to "canary_1" none ∷ []))
create-run-verified_example =
    create-run-verified num hashes shadow_sha settings_of manifest (shadow_report (some "p1")) "k"
      " ana" options "0" started begun (move_to "canary_1" none ∷ []) plain_id is_started is_begun
