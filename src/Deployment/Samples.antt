-- ===== src/Deployment/Samples.antt =====
-- A small signed deployment state, for the tests.
use Prim.Native.String
use ai_workflow_control_plan.Common.{ℕ, ◌*◌, true, false, Option, none, some, [], ◌∷◌, String}
use ai_workflow_control_plan.Value.{end}
use ai_workflow_control_plan.Deployment.Types.{
  Stage, canary_1, percent, traffic_for_stage, Manifest, State, GuardrailReport, Hashes,
}
use ai_workflow_control_plan.Deployment.Transition.{Move}
use ai_workflow_control_plan.Deployment.Lock.{World, Disk, state, delivered}
use ai_workflow_control_plan.Deployment.Assignment.{Config}
use ai_workflow_control_plan.Common.Int.{pos}

-- Short stand-ins for the hash functions, which still read the time or the cutoff.
abbrev pub hashes : Hashes
hashes = record {
  mac_state = λ key b. String.◌++◌ key b.updated_at;
  mac_manifest = λ key m. String.◌++◌ key m.policy_id;
  key_id = λ key. key;
  policy_id = λ i. i.evidence_cutoff;
  report_sha256 = λ r. r.details;
}

abbrev pub manifest : Manifest
manifest = record {
  body = record {
    schema_version = "retrieval-policy-manifest-v1";
    policy_id = "p1";
    status = "shadow_only";
    automatic_runtime_activation = false;
    feature_schema_version = "retrieval-context-v1";
    context_fields = some ("lane" ∷ []);
    policy = some (("x", "rrf_only") ∷ []);
    fallback_arm = "adaptive_math";
    locked_risks = "medium" ∷ "high" ∷ [];
    evidence_cutoff = "p1";
    source_report_sha256 = "r";
    rollback_target = some "adaptive_math";
    others = end;
  };
  signature = some (record { algorithm = "hmac-sha256"; key_id = "k"; value = "kp1" });
}

abbrev pub state_at : Stage → ℕ → State
state_at stage generation = record {
  body = record {
    schema_version = "retrieval-deployment-state-v1";
    policy_id = "p1";
    stage = stage;
    traffic_fraction = some (traffic_for_stage (some (20 * percent)) stage);
    bounded_traffic_fraction = some (20 * percent);
    generation = some generation;
    updated_at = "0";
    automatic_runtime_activation = false;
    policy_manifest = some manifest;
    settings = [];
    rollback = some (record {
      target_arm = "adaptive_math";
      automatic = false;
      reason = none;
      rolled_back_at = none;
    });
    history = [];
  };
  signature = some (record { algorithm = "hmac-sha256"; key_id = "k"; value = "k0" });
}

abbrev pub report : ℕ → GuardrailReport
report generation = record {
  policy_id = "p1";
  state_generation = some generation;
  stage = canary_1;
  safe_to_advance = some true;
  details = "d";
}

abbrev pub move_to : String → Option GuardrailReport → Move
move_to stage r = record {
  to_stage = stage;
  actor = "ana";
  guardrail_report = r;
  reason = none;
  now = "1";
}

abbrev pub world : World
world = record {
  is_windows = false;
  now = 1000;
  pid = pos 7;
  host = "h";
  token = "t";
  kill = λ p. delivered;
  rename_fails = false;
  taken = none;
}

abbrev pub disk : Disk
disk = record {
  directory = true;
  state_file = some (state (state_at canary_1 2));
  lock = none;
  events = [];
  events_refused = false;
}

abbrev pub config : Config
config = record {
  enabled = true;
  kill_switch = false;
  path_is_valid = true;
  signing_key = "k";
  auto_rollback = true;
}
