-- ===== src/Deployment/Automatic.antt =====
-- About the automatic rollback of ai_workflow/deployment_runtime.py and the update that it makes.
use ai_workflow_control_plan.Common.{
  ℕ, ◌≡◌, refl, ap, ◌∙◌, ◌≢◌, Bool, true, none, some, List, [], String, arith, strip, is_blank,
  Result, ok, err,
}
use ai_workflow_control_plan.Deployment.Types.{Stage, rolled_back, is_live, State, Hashes}
use ai_workflow_control_plan.Deployment.Verify.{verify_deployment_state}
use ai_workflow_control_plan.Deployment.Transition.{
  Move, passes, generation_of, transition_deployment_state,
}
use ai_workflow_control_plan.Deployment.Stages.{transition-Moved}
use ai_workflow_control_plan.Deployment.Rollback.{rollback-accepted}
use ai_workflow_control_plan.Deployment.Lock.{
  state, Disk, World, FileError, Outcome, acquire, finish, held, release, with_state_lock,
}
use ai_workflow_control_plan.Deployment.Files.{
  load_deployment_state, store, update_loaded, update_body, update_deployment_state_file,
}
use ai_workflow_control_plan.Deployment.Sharing.{with_own_lock, release-keeps}
use ai_workflow_control_plan.Deployment.Failures.{stored_result, store-returns}
use ai_workflow_control_plan.Deployment.Runtime.{auto_rollback_if_needed}
use ai_workflow_control_plan.Deployment.Assignment.{Config, LiveReport, rollback_move}

with_state_lock-returns :
    {A : Type 0} (w : World) (disk : Disk) (body : Disk → Outcome A) (result : Result FileError A)
    (left : Disk)
    → disk.directory ≡ true
    → disk.lock ≡ none
    → body (with_own_lock w disk) ≡ (result, left)
    → with_state_lock w disk body ≡ (result, release w.token left)
unfolding with_state_lock acquire held finish
with_state_lock-returns w disk body result left there free returned =
    ground (arith, there, free, returned)

module _ (hashes : Hashes) (sha : State → String) (key : String) where
  update_body-returns :
      (g : ℕ) (move : Move) (disk left : Disk) (current updated : State)
      (result : Result FileError State)
      → disk.state_file ≡ some (state current)
      → verify_deployment_state hashes key current ≡ []
      → generation_of current.body.generation ≡ g
      → transition_deployment_state hashes key current move ≡ ok updated
      → store hashes sha key updated disk ≡ (result, left)
      → update_body hashes sha key (some g) move disk ≡ (result, left)
  unfolding update_body update_loaded load_deployment_state
  update_body-returns g move disk left current updated result file valid timely moved stored =
      ground (arith, file, valid, timely, moved, stored)

  pub update-returns :
      (w : World) (g : ℕ) (move : Move) (disk : Disk) (current updated : State)
      → disk.directory ≡ true
      → disk.lock ≡ none
      → disk.state_file ≡ some (state current)
      → verify_deployment_state hashes key current ≡ []
      → generation_of current.body.generation ≡ g
      → transition_deployment_state hashes key current move ≡ ok updated
      → (left : Disk) × (update_deployment_state_file hashes sha key w (some g) move disk
          ≡ (stored_result disk updated, left))
        × (left.state_file ≡ some (state updated))
  unfolding update_deployment_state_file
  update-returns w g move disk current updated there free file valid timely moved =
      let (entry, appended, from_is, to_is, generation_is) =
        (transition-Moved hashes key current move updated moved).recorded in
      let (after, stored, written_file, written_events) =
        store-returns hashes sha key updated current.body.history entry (with_own_lock w disk)
          appended in
      let ran =
        update_body-returns g move (with_own_lock w disk) after current updated _ file valid timely
          moved stored in
      (
        release w.token after,
        with_state_lock-returns w disk (update_body hashes sha key (some g) move) _ after there free
            ran,
        (release-keeps w.token after).0 ∙ written_file,
      )

live_not_rolled_back : (s : Stage) → is_live s ≡ true → s ≢ rolled_back
live_not_rolled_back s h = ground arith

module _ (hashes : Hashes) (sha : State → String) (dumps : List (String × String) → String)
    (round_12 : ℕ → ℕ) (guardrails : State → LiveReport) (mirror_fails : Bool) where
  rollback-done :
      (w : World) (now : String) (config : Config) (s : State) (disk left : Disk)
      (result : Result FileError State)
      → is_live s.body.stage ≡ true
      → config.auto_rollback ≡ true
      → passes (guardrails s).rollback_required ≡ true
      → update_deployment_state_file hashes sha config.signing_key w
          (some (generation_of s.body.generation))
          (rollback_move now (guardrails s))
          disk
        ≡ (result, left)
      → (auto_rollback_if_needed hashes sha dumps round_12 guardrails mirror_fails w now config s
          disk).1
        ≡ left
  unfolding auto_rollback_if_needed
  rollback-done w now config s disk left (ok rolled) live auto required updated =
      ground (arith, live, auto, required, updated)
  rollback-done w now config s disk left (err e) live auto required updated =
      ground (arith, live, auto, required, updated)

  -- Where automatic rollback is on and the guardrails ask for a rollback of the valid live state in a
  -- free file, the file holds a rolled back state afterwards.
  pub auto_rollback-rolled_back :
      (w : World) (now : String) (config : Config) (s : State) (disk : Disk)
      → disk.directory ≡ true
      → disk.lock ≡ none
      → disk.state_file ≡ some (state s)
      → verify_deployment_state hashes config.signing_key s ≡ []
      → is_live s.body.stage ≡ true
      → config.auto_rollback ≡ true
      → passes (guardrails s).rollback_required ≡ true
      → (rolled : State) × ((auto_rollback_if_needed hashes sha dumps round_12 guardrails
            mirror_fails w now config s disk).1.state_file
          ≡ some (state rolled))
        × (rolled.body.stage ≡ rolled_back)
  unfolding rollback_move is_blank strip
  auto_rollback-rolled_back w now config s disk there free file valid live auto required =
      let move = rollback_move now (guardrails s) in
      let (rolled, moved, stage) =
        rollback-accepted hashes config.signing_key s move valid
          (live_not_rolled_back s.body.stage live) refl refl in
      let (left, updated, held_file) =
        update-returns hashes sha config.signing_key w (generation_of s.body.generation) move disk s
          rolled there free file valid refl moved in
      let done = rollback-done w now config s disk left _ live auto required updated in
      (rolled, ap (λ (d : Disk). d.state_file) done ∙ held_file, stage)
