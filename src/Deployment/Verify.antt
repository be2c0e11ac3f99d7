-- ===== src/Deployment/Verify.antt =====
-- `_sign_payload`, `_verify_signature` and `verify_deployment_state` of ai_workflow/deployment_state.py.
use ai_workflow_control_plan.Common.{
  ℕ, ◌*◌, ◌-◌, Bool, true, false, not, ◌&&◌, ◌||◌, Option, none, some, List, [], ◌∷◌, ◌++◌, String,
  str_eq, ltb, leb, if◌then◌else◌, collect,
}
use ai_workflow_control_plan.Deployment.Types.{
  Stage, is_known, percent, tolerance, traffic_for_stage, baseline_arm, Rollback, StateBody, State,
  Hashes,
}
use ai_workflow_control_plan.Deployment.Manifest.{verify_policy_manifest}

-- `_sign_payload`; `none` is its `ValueError` for an empty key.
unfoldable pub sign_payload : Hashes → String → StateBody → Option State
sign_payload hashes key body =
    if str_eq key ""
    then none
    else some (record {
      body = body;
      signature = some (record {
        algorithm = "hmac-sha256";
        key_id = hashes.key_id key;
        value = hashes.mac_state key body;
      });
    })

pub data StateError : Type 0 where
  signing_key_missing signature_missing signature_algorithm_mismatch key_id_mismatch : StateError
  signature_mismatch schema_version_mismatch invalid_stage invalid_generation : StateError
  manifest_missing manifest_verification_failed policy_id_mismatch : StateError
  invalid_bounded_traffic_fraction traffic_fraction_mismatch : StateError
  automatic_activation_forbidden rollback_target_mismatch : StateError

-- `_verify_signature`
unfoldable pub signature_checks : Hashes → String → State → List (Bool × StateError)
signature_checks hashes key state =
    if str_eq key "" then (true, signing_key_missing) ∷ [] else elim state.signature [
      | none ↦ (true, signature_missing) ∷ []
      | some s ↦
          (not (str_eq s.algorithm "hmac-sha256"), signature_algorithm_mismatch)
          ∷ (not (str_eq s.key_id (hashes.key_id key)), key_id_mismatch)
          ∷ (not (str_eq (hashes.mac_state key state.body) s.value), signature_mismatch)
          ∷ []
    ]

-- Not an integer of at least 1.
abbrev pub is_bad_generation : Option ℕ → Bool
is_bad_generation none = true
is_bad_generation (some n) = ltb n 1

-- No errors at all.
abbrev pub is_valid {ℓ} : {E : Type ℓ} → List E → Bool
is_valid [] = true
is_valid (e ∷ es) = false

unfoldable pub manifest_checks : Hashes → String → StateBody → List (Bool × StateError)
manifest_checks hashes key b = elim b.policy_manifest [
  | none ↦ (true, manifest_missing) ∷ []
  | some m ↦
      (not (is_valid (verify_policy_manifest hashes key m)), manifest_verification_failed)
      ∷ (not (str_eq b.policy_id m.body.policy_id), policy_id_mismatch)
      ∷ []
]

-- Not more than a tenth and at most a quarter.
abbrev pub is_bad_fraction : Option ℕ → Bool
is_bad_fraction none = true
is_bad_fraction (some f) = not (ltb (10 * percent) f && leb f (25 * percent))

-- `abs(actual - expected) > 1e-12`
abbrev pub differs : ℕ → ℕ → Bool
differs actual expected = ltb tolerance (actual - expected) || ltb tolerance (expected - actual)

-- The traffic is not what the stage asks for.
abbrev pub is_bad_traffic : Option ℕ → Stage → Option ℕ → Bool
is_bad_traffic fraction stage none = true
is_bad_traffic fraction stage (some actual) =
    not (is_known stage) || differs actual (traffic_for_stage fraction stage)

abbrev pub is_bad_rollback : Option Rollback → Bool
is_bad_rollback none = true
is_bad_rollback (some r) = not (str_eq r.target_arm baseline_arm)

abbrev pub schema : String
schema = "retrieval-deployment-state-v1"

unfoldable pub body_checks : StateBody → List (Bool × StateError)
body_checks b =
    (is_bad_fraction b.bounded_traffic_fraction, invalid_bounded_traffic_fraction)
    ∷ (
      is_bad_traffic b.bounded_traffic_fraction b.stage b.traffic_fraction,
      traffic_fraction_mismatch,
    )
    ∷ (b.automatic_runtime_activation, automatic_activation_forbidden)
    ∷ (is_bad_rollback b.rollback, rollback_target_mismatch)
    ∷ []

unfoldable pub head_checks : StateBody → List (Bool × StateError)
head_checks b =
    (not (str_eq b.schema_version schema), schema_version_mismatch)
    ∷ (not (is_known b.stage), invalid_stage)
    ∷ (is_bad_generation b.generation, invalid_generation)
    ∷ []

-- The `errors` of `verify_deployment_state`.
unfoldable pub verify_deployment_state : Hashes → String → State → List StateError
verify_deployment_state hashes key state = collect (
    signature_checks hashes key state
    ++ (head_checks state.body
        ++ (manifest_checks hashes key state.body ++ body_checks state.body)))
