-- ===== src/Deployment/Rollback.antt =====
-- About the rollback of ai_workflow/deployment_state.py from a valid state by a named actor.
use ai_workflow_control_plan.Common.{
  ◌≡◌, ap, ◌∙◌, ◌≢◌, false, [], String, str_eq, arith, strip, is_blank, inl, inr, Clean, ok,
  Result-cases,
}
use ai_workflow_control_plan.Deployment.Types.{
  Stage, rolled_back, stage_of, is_rolled_back, State, StateBody, Hashes,
}
use ai_workflow_control_plan.Deployment.Verify.{
  sign_payload, signature_checks, verify_deployment_state,
}
use ai_workflow_control_plan.Deployment.Transition.{
  Move, check_target, next_body, transition_deployment_state,
}
use ai_workflow_control_plan.Deployment.Accepted.{verified-Clean, target_of, transition-Accepted}

-- The key of a state that verifies is not empty.
verified-keyed :
    (hashes : Hashes) (key : String) (state : State)
    → Clean (signature_checks hashes key state)
    → str_eq key "" ≡ false
unfolding signature_checks
verified-keyed hashes key state clean = ground (arith, clean)

not_rolled_back : (s : Stage) → s ≢ rolled_back → is_rolled_back s ≡ false
not_rolled_back s h = ground arith

module _ (hashes : Hashes) (key : String) (state : State) (move : Move) where
  -- A valid state that is not rolled back can always be rolled back by anyone with a name.
  pub rollback-accepted :
      verify_deployment_state hashes key state ≡ []
      → state.body.stage ≢ rolled_back
      → is_blank move.actor ≡ false
      → strip move.to_stage ≡ "rolled_back"
      → (after : State) × (transition_deployment_state hashes key state move ≡ ok after)
        × (after.body.stage ≡ rolled_back)
  unfolding transition_deployment_state sign_payload check_target next_body stage_of
  rollback-accepted valid live named target =
      let keyed = verified-keyed hashes key state (verified-Clean hashes key state move valid).0 in
      let apart = not_rolled_back state.body.stage live in
      let stage : target_of move ≡ rolled_back = ap stage_of target in
      elim (Result-cases (transition_deployment_state hashes key state move)) [
        | inl (after, moved) ↦
            let a = transition-Accepted hashes key state move after moved in
            (after, moved, ap (λ (b : StateBody). b.stage) a.body ∙ stage)
        | inr (e, refused) ↦ ground (arith, refused, valid, named, keyed, apart, stage)
      ]
