-- ===== src/Deployment/ManifestCreated.antt =====
-- A manifest that ai_workflow/policy_manifest.py creates, and its own verification.
use ai_workflow_control_plan.Common.{
  ◌≡◌, refl, subst, false, not, some, List, [], ◌∷◌, ◌++◌, String, str_eq, eq_refl, arith, strip,
  is_blank, strip-strip, Clean, append-Clean, collect_of_Clean, Result, ok, required, required-ok,
  refuse, refuse-ok, >>=-ok,
}
use ai_workflow_control_plan.Value.{Fields}
use ai_workflow_control_plan.Deployment.Types.{Manifest, Hashes}
use ai_workflow_control_plan.Deployment.Manifest.{
  signing_key_missing, schema_version_mismatch, feature_schema_mismatch, validate_context_fields,
  validate_policy, identity_differs, identity_checks, signature_checks, constant_checks, is_locked,
  verify_policy_manifest,
}
use ai_workflow_control_plan.Deployment.ContextFields.{validate_context_fields-again}
use ai_workflow_control_plan.Deployment.Policy.{strip-is_blank, validate_policy-again}
use ai_workflow_control_plan.Deployment.Creation.{
  PolicyReport, ManifestFailure, is_set, unsigned_manifest, signed_manifest, create_policy_manifest,
}

-- The identity of a new manifest is its own.
identity-own :
    (hashes : Hashes) (sha : String) (others : Fields) (fields : List String)
    (policy : List (String × String)) (cutoff : String)
    → strip sha ≡ sha
    → strip cutoff ≡ cutoff
    → identity_differs hashes
        (unsigned_manifest hashes sha others fields policy cutoff)
        (some fields)
        (some policy)
      ≡ false
unfolding identity_differs
identity-own hashes sha others [] policy cutoff h k = refl
identity-own hashes sha others (field ∷ fields) [] cutoff h k = refl
identity-own hashes sha others (field ∷ fields) (entry ∷ policy) cutoff h k =
    let m = unsigned_manifest hashes sha others (field ∷ fields) (entry ∷ policy) cutoff in
    rw (h, k) (ground (arith, eq_refl m.policy_id))

module _ (hashes : Hashes) (key : String) (sha : String) (others : Fields) (fields : List String)
    (policy : List (String × String)) (cutoff : String) where
  -- The manifest of these parts.
  abbrev made : Manifest
  made = signed_manifest hashes key (unsigned_manifest hashes sha others fields policy cutoff)

  identity-Clean :
      validate_context_fields fields ≡ some fields
      → validate_policy (some policy) ≡ some policy
      → strip sha ≡ sha
      → is_blank sha ≡ false
      → strip cutoff ≡ cutoff
      → is_blank cutoff ≡ false
      → Clean (identity_checks hashes made.body)
  unfolding identity_checks
  identity-Clean fine_fields fine_policy h there k given =
      let own = identity-own hashes sha others fields policy cutoff h k in
      rw (fine_fields, fine_policy) (refl, (refl, (given, (there, (own, tt)))))

  signature-Clean : str_eq key "" ≡ false → Clean (signature_checks hashes key made)
  unfolding signature_checks
  signature-Clean keyed =
      ground
        (arith, keyed, eq_refl (hashes.key_id key), eq_refl (hashes.mac_manifest key made.body))

  constant-Clean : Clean (constant_checks made.body)
  unfolding constant_checks is_locked
  constant-Clean = (refl, (refl, (refl, (refl, (refl, tt)))))

  made-valid :
      str_eq key "" ≡ false
      → Clean (identity_checks hashes made.body)
      → verify_policy_manifest hashes key made ≡ []
  unfolding verify_policy_manifest
  made-valid keyed identity =
      collect_of_Clean
        ((str_eq key "", signing_key_missing)
          ∷ (
            not (str_eq made.body.schema_version "retrieval-policy-manifest-v1"),
            schema_version_mismatch,
          )
          ∷ (
            not (str_eq made.body.feature_schema_version "retrieval-context-v1"),
            feature_schema_mismatch,
          )
          ∷ (identity_checks hashes made.body
              ++ (signature_checks hashes key made ++ constant_checks made.body)))
        (
          keyed,
          (
            refl,
            (
              refl,
              append-Clean (identity_checks hashes made.body) _ identity (
                  append-Clean (signature_checks hashes key made) _ (signature-Clean keyed)
                    constant-Clean),
            ),
          ),
        )

manifest-injective :
    (a b : Manifest) → ◌≡◌ {A = Result ManifestFailure Manifest} (ok a) (ok b) → a ≡ b
manifest-injective a b h = cc

module _ (hashes : Hashes) (report_sha : PolicyReport → String) (others : Fields)
    (report : PolicyReport) (key : String) (m : Manifest)
    (hexadecimal : strip (report_sha report) ≡ report_sha report)
    (there : is_blank (report_sha report) ≡ false) where
  -- A manifest that is created from a report passes its verification under the same key, where the
  -- report's digest is neither blank nor has white space around it.
  pub create_policy_manifest-valid :
      create_policy_manifest hashes report_sha others report key ≡ ok m
      → verify_policy_manifest hashes key m ≡ []
  unfolding create_policy_manifest
  create_policy_manifest-valid h =
      let (u0, keyed, h0) = >>=-ok (refuse (str_eq key "") _) _ h in
      let (u1, scope, h1) =
        >>=-ok (refuse (not (str_eq report.scope "contextual-retrieval-policy-development")) _) _
          h0 in
      let (u2, eligible, h2) = >>=-ok (refuse (not (is_set report.eligible_for_shadow)) _) _ h1 in
      let (u3, schema, h3) =
        >>=-ok (refuse (not (str_eq report.feature_schema_version "retrieval-context-v1")) _) _
          h2 in
      let (raw, has_raw, h4) = >>=-ok (required report.context_fields _) _ h3 in
      let (fields, has_fields, h5) = >>=-ok (required (validate_context_fields raw) _) _ h4 in
      let (policy, has_policy, h6) =
        >>=-ok (required (validate_policy report.development_policy) _) _ h5 in
      let (u7, given, h7) = >>=-ok (refuse (is_blank report.evidence_cutoff) _) _ h6 in
      let fields_fine = validate_context_fields-again raw fields (required-ok _ _ _ has_fields) in
      let policy_fine =
        validate_policy-again report.development_policy policy (required-ok _ _ _ has_policy) in
      let cutoff = strip report.evidence_cutoff in
      let clean =
        identity-Clean hashes key (report_sha report) others fields policy cutoff fields_fine.0
          policy_fine.0 hexadecimal there (strip-strip report.evidence_cutoff)
          (strip-is_blank report.evidence_cutoff (refuse-ok _ _ _ given)) in
      subst (λ (x : Manifest). verify_policy_manifest hashes key x ≡ [])
        (manifest-injective (made hashes key (report_sha report) others fields policy cutoff) m h7)
        (made-valid hashes key (report_sha report) others fields policy cutoff
          (refuse-ok _ _ _ keyed) clean)
