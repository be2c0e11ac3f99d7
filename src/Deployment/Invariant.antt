-- ===== src/Deployment/Invariant.antt =====
-- What every accepted move of ai_workflow/deployment_state.py keeps.
use ai_workflow_control_plan.Common.{
  ℕ, ◌*◌, ◌<◌, ◌≡◌, true, false, Option, [], String, eq_refl, arith, Clean, ok,
}
use ai_workflow_control_plan.Deployment.Types.{
  Stage, bounded, is_known, percent, traffic_for_stage, StateBody, State, GuardrailReport, Hashes,
}
use ai_workflow_control_plan.Deployment.Verify.{
  signature_checks, head_checks, manifest_checks, body_checks, verify_deployment_state, differs,
}
use ai_workflow_control_plan.Deployment.Transition.{
  Move, check_target, roll_back, next_body, transition_deployment_state,
}
use ai_workflow_control_plan.Deployment.Accepted.{
  Accepted, target_of, transition-Accepted, verified-Clean, verified_of,
}

-- A target that passes its tests is one of the stages.
target-known :
    (b : StateBody) (target : Stage) (report : Option GuardrailReport)
    → check_target b target report ≡ ok tt
    → is_known target ≡ true
unfolding check_target
target-known b target report h = ground arith

differs_self : (n : ℕ) → differs n n ≡ false
differs_self n = ground arith

module _ (hashes : Hashes) (key : String) (state after : State) (move : Move)
    (a : Accepted hashes key state move after) where
  signature-Clean : Clean (signature_checks hashes key after)
  unfolding signature_checks
  signature-Clean = ground (
    arith,
    a.keyed,
    a.signature,
    eq_refl (hashes.key_id key),
    eq_refl (hashes.mac_state key after.body),
  )

  head-Clean : Clean (head_checks after.body)
  unfolding head_checks next_body
  head-Clean =
      let before = (verified-Clean hashes key state move a.verified).1 in
      let known = target-known state.body (target_of move) move.guardrail_report a.target in
      ground (arith, a.body)

  manifest-Clean : Clean (manifest_checks hashes key after.body)
  unfolding manifest_checks next_body
  manifest-Clean =
      let before = (verified-Clean hashes key state move a.verified).2 in ground (arith, a.body)

  body-Clean : Clean (body_checks after.body)
  unfolding body_checks next_body roll_back
  body-Clean =
      let before = (verified-Clean hashes key state move a.verified).3 in
      let known = target-known state.body (target_of move) move.guardrail_report a.target in
      ground (
        arith,
        a.body,
        differs_self (traffic_for_stage state.body.bounded_traffic_fraction (target_of move)),
      )

module _ (hashes : Hashes) (key : String) (state : State) (move : Move) (after : State) where
  -- A state that an accepted move leaves is valid again, under the same key.
  pub transition-verified :
      transition_deployment_state hashes key state move ≡ ok after
      → verify_deployment_state hashes key after ≡ []
  transition-verified h =
      let a = transition-Accepted hashes key state move after h in
      verified_of hashes key after move (signature-Clean hashes key state after move a)
        (head-Clean hashes key state after move a) (manifest-Clean hashes key state after move a)
        (body-Clean hashes key state after move a)

  -- The bounded fraction of a valid state is more than a tenth.
  pub fraction_lem :
      verify_deployment_state hashes key state ≡ []
      → 10 * percent < traffic_for_stage state.body.bounded_traffic_fraction bounded
  unfolding body_checks
  fraction_lem h = let clean = (verified-Clean hashes key state move h).3 in ground arith
