-- ===== src/Deployment/Lifecycle.antt =====
-- A deployment from its creation on, through any accepted moves (ai_workflow/deployment_state.py).
use ai_workflow_control_plan.Common.{
  ◌+◌, ◌≤◌, ◌≡◌, sym, ap, ◌∙◌, List, [], ◌∷◌, String, strip, arith, length, ok, >>=-ok,
}
use ai_workflow_control_plan.Guardrails.{Numbers}
use ai_workflow_control_plan.Deployment.Types.{Manifest, State, Hashes, approved}
use ai_workflow_control_plan.Deployment.Verify.{verify_deployment_state}
use ai_workflow_control_plan.Deployment.Transition.{
  Move, generation_of, transition_deployment_state,
}
use ai_workflow_control_plan.Deployment.Invariant.{transition-verified}
use ai_workflow_control_plan.Deployment.Promotion.{run, run-short}
use ai_workflow_control_plan.Deployment.Creation.{ShadowReport, Options, create_deployment_state}
use ai_workflow_control_plan.Deployment.Created.{
  body, sign_payload-signed, create-Approved, create_deployment_state-valid,
}

run-verified :
    (hashes : Hashes) (key : String) (state after : State) (moves : List Move)
    → verify_deployment_state hashes key state ≡ []
    → run hashes key state moves ≡ ok after
    → verify_deployment_state hashes key after ≡ []
unfolding run
run-verified hashes key state after [] valid h = ground (arith, valid, h)
run-verified hashes key state after (move ∷ moves) valid h =
    let (next, first, rest) = >>=-ok (transition_deployment_state hashes key state move) _ h in
    run-verified hashes key next after moves (transition-verified hashes key state move next first)
      rest

module _ {F : Type 0} (num : Numbers F) (hashes : Hashes) (report_sha : ShadowReport → String)
    (settings_of : Options F → String → List (String × String)) (manifest : Manifest)
    (report : ShadowReport) (key approved_by : String) (options : Options F) (now : String)
    (s after : State) (moves : List Move)
    (hexadecimal : strip manifest.body.policy_id ≡ manifest.body.policy_id) where
  -- A created deployment, after any accepted moves, passes its verification under the same key; the moves
  -- are at most five, and its generation is the length of its history and one more than their number.
  -- The manifest's id has no white space around it.
  pub create-run-verified :
      create_deployment_state num hashes report_sha settings_of manifest report key approved_by
          options now
        ≡ ok s
      → run hashes key s moves ≡ ok after
      → (verify_deployment_state hashes key after ≡ [])
        × (length moves ≤ 5)
        × (generation_of after.body.generation ≡ 1 + length moves)
        × (length after.body.history ≡ 1 + length moves)
  create-run-verified h ran =
      let a =
        create-Approved num hashes report_sha settings_of manifest report key approved_by options
          now s h in
      let start =
        body num hashes report_sha settings_of manifest report key approved_by options now s in
      let (keyed, same) = sign_payload-signed hashes key start s a.signed in
      let stage : approved ≡ s.body.stage = ap (λ (x : State). x.body.stage) same in
      let (few, generation, history) = run-short hashes key s after moves (sym stage) ran in
      (
        run-verified hashes key s after moves
            (create_deployment_state-valid num hashes report_sha settings_of manifest report key
              approved_by options now s hexadecimal h)
            ran,
        few,
        generation ∙ ap (λ (x : State). generation_of x.body.generation + length moves) (sym same),
        history ∙ ap (λ (x : State). length x.body.history + length moves) (sym same),
      )
