-- ===== src/Deployment/Created.antt =====
-- A state that ai_workflow/deployment_state.py creates, and its own verification.
use ai_workflow_control_plan.Common.{
  ◌≡◌, refl, subst, ◌∙◌, inl, inr, false, not, some, List, [], ◌∷◌, ◌++◌, String, str_eq, eq_refl,
  arith, strip, is_blank, Clean, append-Clean, collect_of_Clean, ok, required, required-ok, refuse,
  refuse-ok, >>=-ok, Bool-cases,
}
use ai_workflow_control_plan.Guardrails.{Numbers}
use ai_workflow_control_plan.Deployment.Types.{Manifest, StateBody, State, Hashes}
use ai_workflow_control_plan.Deployment.Manifest.{ManifestError, verify_policy_manifest}
use ai_workflow_control_plan.Deployment.Verify.{
  is_valid, is_bad_fraction, sign_payload, signature_checks as state_signature_checks, head_checks,
  manifest_checks, body_checks, verify_deployment_state,
}
use ai_workflow_control_plan.Deployment.Creation.{
  ShadowReport, Options, check_options, approved_body, is_eligible, create_deployment_state,
}

valid-nil : (errors : List ManifestError) → not (is_valid errors) ≡ false → errors ≡ []
valid-nil [] h = refl
valid-nil (e ∷ es) h = ground (arith, h)

state-injective : (a b : State) → some a ≡ some b → a ≡ b
state-injective a b h = cc

-- The signed state.
abbrev pub signed : Hashes → String → StateBody → State
signed hashes key b = record {
  body = b;
  signature = some (record {
    algorithm = "hmac-sha256";
    key_id = hashes.key_id key;
    value = hashes.mac_state key b;
  });
}

pub sign_payload-signed :
    (hashes : Hashes) (key : String) (b : StateBody) (s : State)
    → sign_payload hashes key b ≡ some s
    → (str_eq key "" ≡ false) × (signed hashes key b ≡ s)
unfolding sign_payload
sign_payload-signed hashes key b s h = elim (Bool-cases (str_eq key "")) [
  | inl e ↦ ground (arith, h, e)
  | inr e ↦ (e, state-injective (signed hashes key b) s (rw e refl ∙ h))
]

signed-Clean :
    (hashes : Hashes) (key : String) (b : StateBody)
    → str_eq key "" ≡ false
    → Clean (state_signature_checks hashes key (signed hashes key b))
unfolding state_signature_checks
signed-Clean hashes key b keyed =
    ground (arith, keyed, eq_refl (hashes.key_id key), eq_refl (hashes.mac_state key b))

module _ {F : Type 0} (num : Numbers F) (hashes : Hashes) (report_sha : ShadowReport → String)
    (settings_of : Options F → String → List (String × String)) (manifest : Manifest)
    (report : ShadowReport) (key approved_by : String) (options : Options F) (now : String)
    (s : State) where
  abbrev pub body : StateBody
  body =
      approved_body num manifest (report_sha report) (settings_of options (strip approved_by))
        options.bounded_traffic_fraction (strip approved_by) now

  -- What a created state went through.
  pub record Approved : Type 0 where
    pub verified : verify_policy_manifest hashes key manifest ≡ []
    pub fraction : is_bad_fraction options.bounded_traffic_fraction ≡ false
    pub signed : sign_payload hashes key body ≡ some s

  pub create-Approved :
      create_deployment_state num hashes report_sha settings_of manifest report key approved_by
          options now
        ≡ ok s
      → Approved
  unfolding create_deployment_state
  create-Approved h =
      let (u0, fine, h0) =
        >>=-ok (refuse (not (is_valid (verify_policy_manifest hashes key manifest))) _) _ h in
      let (u1, eligible, h1) = >>=-ok (refuse (not (is_eligible report manifest.body)) _) _ h0 in
      let (u2, approver, h2) = >>=-ok (refuse (is_blank approved_by) _) _ h1 in
      let (u3, fraction, h3) =
        >>=-ok (refuse (is_bad_fraction options.bounded_traffic_fraction) _) _ h2 in
      let (u4, checked, h4) = >>=-ok (check_options num options) _ h3 in
      let (fields, has_fields, h5) = >>=-ok (required manifest.body.context_fields _) _ h4 in
      record {
        verified = valid-nil _ (refuse-ok _ _ _ fine);
        fraction = refuse-ok _ _ _ fraction;
        signed = required-ok _ _ _ h5;
      }

  head-Clean : Clean (head_checks body)
  unfolding head_checks
  head-Clean = (refl, (refl, (refl, tt)))

  manifest-Clean :
      strip manifest.body.policy_id ≡ manifest.body.policy_id
      → verify_policy_manifest hashes key manifest ≡ []
      → Clean (manifest_checks hashes key body)
  unfolding manifest_checks
  manifest-Clean hexadecimal verified =
      let same = eq_refl manifest.body.policy_id in
      (rw verified refl, (rw hexadecimal (ground (arith, same)), tt))

  body-Clean : is_bad_fraction options.bounded_traffic_fraction ≡ false → Clean (body_checks body)
  unfolding body_checks
  body-Clean fraction = (fraction, (ground arith, (refl, (refl, tt))))

  -- A state that is created for a manifest passes its verification under the same key, where the
  -- manifest's id has no white space around it.
  pub create_deployment_state-valid :
      strip manifest.body.policy_id ≡ manifest.body.policy_id
      → create_deployment_state num hashes report_sha settings_of manifest report key approved_by
          options now
        ≡ ok s
      → verify_deployment_state hashes key s ≡ []
  unfolding verify_deployment_state
  create_deployment_state-valid hexadecimal h =
      let a = create-Approved h in
      let (keyed, same) = sign_payload-signed hashes key body s a.signed in
      let rest =
        append-Clean (manifest_checks hashes key body) (body_checks body)
          (manifest-Clean hexadecimal a.verified) (body-Clean a.fraction) in
      let all =
        append-Clean (state_signature_checks hashes key (signed hashes key body))
          (head_checks body ++ (manifest_checks hashes key body ++ body_checks body))
          (signed-Clean hashes key body keyed)
          (append-Clean (head_checks body) (manifest_checks hashes key body ++ body_checks body)
            head-Clean rest) in
      subst (λ (x : State). verify_deployment_state hashes key x ≡ []) same
        (collect_of_Clean
          (state_signature_checks hashes key (signed hashes key body)
            ++ (head_checks body ++ (manifest_checks hashes key body ++ body_checks body)))
          all)
