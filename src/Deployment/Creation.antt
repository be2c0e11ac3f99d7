-- ===== src/Deployment/Creation.antt =====
-- `create_policy_manifest` of ai_workflow/policy_manifest.py and `create_deployment_state` of
-- ai_workflow/deployment_state.py.
use ai_workflow_control_plan.Common.{
  ℕ, Bool, true, false, not, ◌&&◌, ◌||◌, Option, none, some, List, [], ◌∷◌, String, str_eq, ltb,
  strip, is_blank, Result, ok, required, refuse, ◌>>=◌, ◌>>◌,
}
use ai_workflow_control_plan.Common.Int.{ℤ}
use ai_workflow_control_plan.Value.{Fields}
use ai_workflow_control_plan.Guardrails.{Numbers}
use ai_workflow_control_plan.Deployment.Types.{
  approved, unknown, baseline_arm, ManifestBody, Manifest, StateBody, State, Hashes,
}
use ai_workflow_control_plan.Deployment.Manifest.{
  validate_context_fields, validate_policy, verify_policy_manifest,
}
use ai_workflow_control_plan.Deployment.Verify.{is_valid, is_bad_fraction, schema, sign_payload}

-- A report of ai_workflow/contextual_policy.py. A missing `promotion` is `none`.
pub record PolicyReport : Type 0 where
  pub scope : String
  pub eligible_for_shadow : Option Bool
  pub feature_schema_version : String
  pub context_fields : Option (List String)
  pub development_policy : Option (List (String × String))
  pub evidence_cutoff : String
  pub others : Fields

-- The `ValueError`s of `create_policy_manifest`.
pub data ManifestFailure : Type 0 where
  empty_signing_key not_a_policy_report not_eligible schema_incompatible : ManifestFailure
  fields_missing fields_invalid policy_invalid cutoff_missing : ManifestFailure

-- `bool(entry.get(name))`, of an entry that may be missing.
abbrev pub is_set : Option Bool → Bool
is_set none = false
is_set (some b) = b

-- The manifest before it is signed. `report_sha` is the digest of the report, and `others` the time and what
-- is copied from the report.
abbrev pub unsigned_manifest :
    Hashes → String → Fields → List String → List (String × String) → String → ManifestBody
unsigned_manifest hashes report_sha others fields policy cutoff = record {
  schema_version = "retrieval-policy-manifest-v1";
  policy_id = hashes.policy_id (record {
    feature_schema_version = "retrieval-context-v1";
    context_fields = fields;
    policy = policy;
    evidence_cutoff = cutoff;
    source_report_sha256 = report_sha;
  });
  status = "shadow_only";
  automatic_runtime_activation = false;
  feature_schema_version = "retrieval-context-v1";
  context_fields = some fields;
  policy = some policy;
  fallback_arm = baseline_arm;
  locked_risks = "medium" ∷ "high" ∷ [];
  evidence_cutoff = cutoff;
  source_report_sha256 = report_sha;
  rollback_target = some baseline_arm;
  others = others;
}

abbrev pub signed_manifest : Hashes → String → ManifestBody → Manifest
signed_manifest hashes key body = record {
  body = body;
  signature = some (record {
    algorithm = "hmac-sha256";
    key_id = hashes.key_id key;
    value = hashes.mac_manifest key body;
  });
}

unfoldable pub create_policy_manifest :
    Hashes
    → (PolicyReport → String)
    → Fields
    → PolicyReport
    → String
    → Result ManifestFailure Manifest
create_policy_manifest hashes report_sha others report key = do
  refuse (str_eq key "") empty_signing_key
  refuse (not (str_eq report.scope "contextual-retrieval-policy-development")) not_a_policy_report
  refuse (not (is_set report.eligible_for_shadow)) not_eligible
  refuse (not (str_eq report.feature_schema_version "retrieval-context-v1")) schema_incompatible
  raw ← required report.context_fields fields_missing
  fields ← required (validate_context_fields raw) fields_invalid
  policy ← required (validate_policy report.development_policy) policy_invalid
  refuse (is_blank report.evidence_cutoff) cutoff_missing
  ok (
      signed_manifest hashes key (
        unsigned_manifest hashes (report_sha report) others fields policy
          (strip report.evidence_cutoff)))

-- A report of `evaluate_shadow_policy`. An entry of a missing object is `none`.
pub record ShadowReport : Type 0 where
  pub policy_id : Option String
  pub evidence_cutoff : Option String
  pub eligible_for_manual_promotion_review : Option Bool
  pub manifest_valid : Option Bool
  pub policy_received_runtime_traffic : Option Bool

-- The `ValueError`s of `create_deployment_state`.
pub data StateFailure : Type 0 where
  manifest_unverified report_not_eligible approver_blank bounded_out_of_range : StateFailure
  reward_not_finite reward_range_empty weight_too_small rate_out_of_range : StateFailure
  too_few_clusters too_few_resamples seed_not_integer cost_invalid context_fields_missing :
      StateFailure
  empty_signing_key : StateFailure

-- The keyword arguments. A bounded fraction that is not finite or negative is `none`, and so is a
-- seed that is no integer.
pub record Options (F : Type 0) : Type 0 where
  pub bounded_traffic_fraction : Option ℕ
  pub reward_min : F
  pub reward_max : F
  pub max_importance_weight : F
  pub max_failure_rate : F
  pub max_context_tv_distance : F
  pub max_unknown_context_rate : F
  pub minimum_monitor_clusters : ℕ
  pub cluster_bootstrap_resamples : ℕ
  pub cluster_bootstrap_seed : Option ℤ
  pub max_cumulative_realized_cost : Option F

abbrev pub is_entry : Option String → String → Bool
is_entry none s = false
is_entry (some t) s = str_eq t s

-- The shadow report is about the manifest, and its gate is open.
unfoldable pub is_eligible : ShadowReport → ManifestBody → Bool
is_eligible r m =
    is_entry r.policy_id m.policy_id
    && is_entry r.evidence_cutoff m.evidence_cutoff
    && is_set r.eligible_for_manual_promotion_review
    && is_set r.manifest_valid
    && is_false r.policy_received_runtime_traffic
  where
    is_false : Option Bool → Bool
    is_false none = false
    is_false (some b) = not b

module _ {F : Type 0} (num : Numbers F) where
  -- `0.0 <= x <= 1.0` fails. A number that is not finite is outside, or compares with none.
  abbrev pub is_bad_rate : F → Bool
  is_bad_rate x = not (num.is_finite x) || (num.less x num.zero || num.less num.one x)

  abbrev pub is_bad_cost : Option F → Bool
  is_bad_cost none = false
  is_bad_cost (some x) = not (num.is_finite x) || num.less x num.zero

  -- The tests on the options.
  unfoldable pub check_options : Options F → Result StateFailure (Unit {0})
  check_options o = do
    refuse (not (num.is_finite o.reward_min) || not (num.is_finite o.reward_max)) reward_not_finite
    refuse (not (num.less o.reward_min o.reward_max)) reward_range_empty
    refuse (num.less o.max_importance_weight (num.of_count 100)) weight_too_small
    refuse (is_bad_rate o.max_failure_rate) rate_out_of_range
    refuse (is_bad_rate o.max_context_tv_distance) rate_out_of_range
    refuse (is_bad_rate o.max_unknown_context_rate) rate_out_of_range
    refuse (ltb o.minimum_monitor_clusters 2) too_few_clusters
    refuse (ltb o.cluster_bootstrap_resamples 100) too_few_resamples
    seed ← required o.cluster_bootstrap_seed seed_not_integer
    refuse (is_bad_cost o.max_cumulative_realized_cost) cost_invalid

  -- The state before it is signed. `settings` are the approval, the digest of the shadow report, the
  -- guardrails and the baseline distribution.
  abbrev pub approved_body :
      Manifest → String → List (String × String) → Option ℕ → String → String → StateBody
  approved_body manifest report_sha settings bounded approver now = record {
    schema_version = schema;
    policy_id = strip manifest.body.policy_id;
    stage = approved;
    traffic_fraction = some 0;
    bounded_traffic_fraction = bounded;
    generation = some 1;
    updated_at = now;
    automatic_runtime_activation = false;
    policy_manifest = some manifest;
    settings = settings;
    rollback = some (record {
      target_arm = baseline_arm;
      automatic = true;
      reason = none;
      rolled_back_at = none;
    });
    history =
        record {
          generation = 1;
          from_stage = unknown "shadow";
          to_stage = approved;
          actor = approver;
          at = now;
          evidence_sha256 = some report_sha;
          reason = "manual approval after signed shadow evidence";
        }
        ∷ [];
  }

  -- `report_sha` is the digest of the shadow report, and `settings_of` the entries that the options, the
  -- approver and the recorded rows make.
  unfoldable pub create_deployment_state :
      Hashes
      → (ShadowReport → String)
      → (Options F → String → List (String × String))
      → Manifest
      → ShadowReport
      → String
      → String
      → Options F
      → String
      → Result StateFailure State
  create_deployment_state hashes report_sha settings_of manifest report key approved_by options
        now =
      do
        refuse (not (is_valid (verify_policy_manifest hashes key manifest))) manifest_unverified
        refuse (not (is_eligible report manifest.body)) report_not_eligible
        refuse (is_blank approved_by) approver_blank
        refuse (is_bad_fraction options.bounded_traffic_fraction) bounded_out_of_range
        checked ← check_options options
        fields ← required manifest.body.context_fields context_fields_missing
        required
            (sign_payload hashes key (
              approved_body manifest (report_sha report) (settings_of options (strip approved_by))
                options.bounded_traffic_fraction (strip approved_by) now))
            StateFailure.empty_signing_key
