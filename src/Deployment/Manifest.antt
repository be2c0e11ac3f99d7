-- ===== src/Deployment/Manifest.antt =====
-- `verify_policy_manifest` of ai_workflow/policy_manifest.py.
use ai_workflow_control_plan.Common.{
  Bool, true, false, not, ◌&&◌, ◌||◌, Option, none, some, List, [], ◌∷◌, ◌++◌, String, str_eq,
  if◌then◌else◌, strip, is_blank, contains, collect, unique_after,
}
use Prim.Native.Nat.{Ordering}
use Prim.Native.String
use ai_workflow_control_plan.Deployment.Types.{
  ManifestBody, Manifest, Hashes, baseline_arm, safe_exploration_arms,
}

-- `FEATURE_FIELDS` of ai_workflow/contextual_features.py
abbrev pub feature_fields : List String
feature_fields =
    "lane" ∷ "risk" ∷ "intent" ∷ "query_length_bucket" ∷ "changed_files_bucket"
    ∷ "workspace_roots_bucket" ∷ []

-- `map(strip, fields)`
unfoldable pub strip_all : List String → List String
strip_all [] = []
strip_all (field ∷ fields) = strip field ∷ strip_all fields

-- Every text is a feature field.
unfoldable pub all_features : List String → Bool
all_features [] = true
all_features (field ∷ fields) = contains feature_fields field && all_features fields

-- The tests on the normalized fields.
unfoldable pub checked_fields : List String → Option (List String)
unfolding all_features
checked_fields [] = none
checked_fields (field ∷ rest) = if all_features (field ∷ rest) then some (field ∷ rest) else none

-- `validate_context_fields`; `none` is its `ValueError`.
unfoldable pub validate_context_fields : List String → Option (List String)
unfolding strip_all unique_after checked_fields
validate_context_fields fields = checked_fields (unique_after [] (strip_all fields))

-- `out[context] = arm`, in the order of `sorted(out.items())`.
unfoldable pub put_sorted : String → String → List (String × String) → List (String × String)
put_sorted context arm [] = (context, arm) ∷ []
put_sorted context arm ((key, old) ∷ out) =
    let further = put_sorted context arm out in
    elim (String.compare context key) [
      | Ordering.lt ↦ (context, arm) ∷ (key, old) ∷ out
      | Ordering.eq ↦ (key, arm) ∷ out
      | Ordering.gt ↦ (key, old) ∷ further
    ]

-- The loop of `_validate_policy`.
unfoldable pub validate_entries :
    List (String × String) → List (String × String) → Option (List (String × String))
unfolding put_sorted strip is_blank
validate_entries out [] = some out
validate_entries out ((key, value) ∷ entries) =
    let rest = validate_entries (put_sorted (strip key) (strip value) out) entries in
    if is_blank key || not (contains safe_exploration_arms (strip value)) then none else rest

-- `_validate_policy`; `none` is its `ValueError`.
unfoldable pub validate_policy : Option (List (String × String)) → Option (List (String × String))
unfolding validate_entries
validate_policy none = none
validate_policy (some []) = none
validate_policy (some (entry ∷ entries)) = validate_entries [] (entry ∷ entries)

pub data ManifestError : Type 0 where
  signing_key_missing schema_version_mismatch feature_schema_mismatch : ManifestError
  invalid_context_fields invalid_policy missing_evidence_cutoff : ManifestError
  missing_source_report_sha256 policy_id_mismatch signature_missing : ManifestError
  signature_algorithm_mismatch signature_mismatch key_id_mismatch status_mismatch : ManifestError
  fallback_arm_mismatch rollback_target_mismatch locked_risks_mismatch : ManifestError
  automatic_activation_forbidden : ManifestError

abbrev pub is_none {ℓ} : {A : Type ℓ} → Option A → Bool
is_none none = true
is_none (some a) = false

-- Another identity than that of the fields, the policy, the cutoff and the report, where all are there.
unfoldable pub identity_differs :
    Hashes → ManifestBody → Option (List String) → Option (List (String × String)) → Bool
unfolding strip is_blank
identity_differs hashes m (some (field ∷ fields)) (some (entry ∷ policy)) =
    not (is_blank m.evidence_cutoff)
    && not (is_blank m.source_report_sha256)
    && not (
        str_eq m.policy_id (
          hashes.policy_id (record {
            feature_schema_version = "retrieval-context-v1";
            context_fields = field ∷ fields;
            policy = entry ∷ policy;
            evidence_cutoff = strip m.evidence_cutoff;
            source_report_sha256 = strip m.source_report_sha256;
          })))
identity_differs hashes m fields policy = false

abbrev pub read_fields : Option (List String) → Option (List String)
unfolding validate_context_fields
read_fields none = some []
read_fields (some raw) = validate_context_fields raw

-- The tests on the fields, the policy and the identity that they make.
unfoldable pub identity_checks : Hashes → ManifestBody → List (Bool × ManifestError)
unfolding identity_differs validate_policy strip is_blank read_fields
identity_checks hashes m =
    (is_none (read_fields m.context_fields), invalid_context_fields)
    ∷ (is_none (validate_policy m.policy), invalid_policy)
    ∷ (is_blank m.evidence_cutoff, missing_evidence_cutoff)
    ∷ (is_blank m.source_report_sha256, missing_source_report_sha256)
    ∷ (
      identity_differs hashes m (read_fields m.context_fields) (validate_policy m.policy),
      policy_id_mismatch,
    )
    ∷ []

-- The tests on the signature: an unknown algorithm hides the others, and so does an empty key.
unfoldable pub signature_checks : Hashes → String → Manifest → List (Bool × ManifestError)
signature_checks hashes key m = elim m.signature [
  | none ↦ (true, signature_missing) ∷ []
  | some s ↦
      if not (str_eq s.algorithm "hmac-sha256")
      then (true, signature_algorithm_mismatch) ∷ []
      else if str_eq key ""
      then []
      else (not (str_eq (hashes.mac_manifest key m.body) s.value), signature_mismatch)
        ∷ (not (str_eq s.key_id (hashes.key_id key)), key_id_mismatch)
        ∷ []
]

-- `locked != ["medium", "high"]`
unfoldable pub is_locked : List String → Bool
is_locked (first ∷ second ∷ []) = str_eq first "medium" && str_eq second "high"
is_locked risks = false

-- An entry that is there and equal.
abbrev pub is_text : Option String → String → Bool
is_text none s = false
is_text (some t) s = str_eq t s

unfoldable pub constant_checks : ManifestBody → List (Bool × ManifestError)
unfolding is_locked
constant_checks m =
    (not (str_eq m.status "shadow_only"), status_mismatch)
    ∷ (not (str_eq m.fallback_arm baseline_arm), fallback_arm_mismatch)
    ∷ (not (is_text m.rollback_target baseline_arm), rollback_target_mismatch)
    ∷ (not (is_locked m.locked_risks), locked_risks_mismatch)
    ∷ (m.automatic_runtime_activation, automatic_activation_forbidden)
    ∷ []

-- The `errors` of `verify_policy_manifest`; it is valid where there are none.
unfoldable pub verify_policy_manifest : Hashes → String → Manifest → List ManifestError
unfolding identity_checks signature_checks constant_checks
verify_policy_manifest hashes key m = collect (
    (str_eq key "", signing_key_missing)
    ∷ (not (str_eq m.body.schema_version "retrieval-policy-manifest-v1"), schema_version_mismatch)
    ∷ (not (str_eq m.body.feature_schema_version "retrieval-context-v1"), feature_schema_mismatch)
    ∷ (identity_checks hashes m.body ++ (signature_checks hashes key m ++ constant_checks m.body)))
