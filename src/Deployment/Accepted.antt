-- ===== src/Deployment/Accepted.antt =====
-- What an accepted move of ai_workflow/deployment_state.py shows, and the state that it leaves.
use ai_workflow_control_plan.Common.{
  ◌≡◌, refl, true, false, some, List, [], ◌∷◌, String, str_eq, arith, strip, is_blank, Clean,
  collect-nil, collect_of_Clean, Clean-append, append-Clean, ok,
}
use ai_workflow_control_plan.Deployment.Types.{Stage, stage_of, Signature, StateBody, State, Hashes}
use ai_workflow_control_plan.Deployment.Verify.{
  StateError, sign_payload, signature_checks, head_checks, manifest_checks, body_checks, is_valid,
  verify_deployment_state,
}
use ai_workflow_control_plan.Deployment.Transition.{
  Move, check_target, next_body, transition_deployment_state,
}

abbrev pub signature_for : Hashes → String → StateBody → Signature
signature_for hashes key body = record {
  algorithm = "hmac-sha256";
  key_id = hashes.key_id key;
  value = hashes.mac_state key body;
}

abbrev pub target_of : Move → Stage
target_of move = stage_of (strip move.to_stage)

-- A move was accepted, and this is the state that it left.
pub record Accepted (hashes : Hashes) (key : String) (state : State) (move : Move) (after : State)
    : Type 0 where
  pub verified : verify_deployment_state hashes key state ≡ []
  pub acted : is_blank move.actor ≡ false
  pub target : check_target state.body (target_of move) move.guardrail_report ≡ ok tt
  pub keyed : str_eq key "" ≡ false
  pub body : after.body ≡ next_body hashes state.body (target_of move) move
  pub signature : after.signature ≡ some (signature_for hashes key after.body)

is_valid-nil : (errors : List StateError) → is_valid errors ≡ true → errors ≡ []
is_valid-nil [] h = refl
is_valid-nil (e ∷ es) h = cc

module _ (hashes : Hashes) (key : String) (state : State) (move : Move) where
  pub transition-Accepted :
      (after : State)
      → transition_deployment_state hashes key state move ≡ ok after
      → Accepted hashes key state move after
  unfolding transition_deployment_state sign_payload
  transition-Accepted after h = record {
    verified = is_valid-nil (verify_deployment_state hashes key state) (ground arith);
    acted = ground arith;
    target = ground arith;
    keyed = ground arith;
    body = ground arith;
    signature = ground arith;
  }

  -- A state with no errors passes each group of tests.
  pub verified-Clean :
      verify_deployment_state hashes key state ≡ []
      → Clean (signature_checks hashes key state)
        × Clean (head_checks state.body)
        × Clean (manifest_checks hashes key state.body)
        × Clean (body_checks state.body)
  unfolding verify_deployment_state
  verified-Clean h =
      let (signature, rest) =
        Clean-append (signature_checks hashes key state) _ (collect-nil _ h) in
      let (head, rest') = Clean-append (head_checks state.body) _ rest in
      let (manifest, body) = Clean-append (manifest_checks hashes key state.body) _ rest' in
      (signature, head, manifest, body)

  pub verified_of :
      Clean (signature_checks hashes key state)
      → Clean (head_checks state.body)
      → Clean (manifest_checks hashes key state.body)
      → Clean (body_checks state.body)
      → verify_deployment_state hashes key state ≡ []
  unfolding verify_deployment_state
  verified_of a b c d =
      collect_of_Clean _ (append-Clean _ _ a (append-Clean _ _ b (append-Clean _ _ c d)))
