-- ===== src/Deployment/Conflict.antt =====
-- What updates of the state file of ai_workflow/deployment_state.py do to each other.
use ai_workflow_control_plan.Common.{
  ℕ, ◌≡◌, ap, ◌∙◌, true, false, Option, none, some, [], String, eq_refl, arith, ok, err,
}
use ai_workflow_control_plan.Deployment.Types.{State, Hashes}
use ai_workflow_control_plan.Deployment.Verify.{verify_deployment_state}
use ai_workflow_control_plan.Deployment.Transition.{Move, transition_deployment_state}
use ai_workflow_control_plan.Deployment.Invariant.{transition-verified}
use ai_workflow_control_plan.Deployment.Stages.{transition-Moved}
use ai_workflow_control_plan.Deployment.Lock.{
  state, Disk, World, FileError, generation_changed, Outcome, acquire, release, finish, held,
  with_state_lock,
}
use ai_workflow_control_plan.Deployment.Files.{
  load_deployment_state, is_outdated, update_loaded, update_body, update_deployment_state_file,
}
use ai_workflow_control_plan.Deployment.Sharing.{
  with_own_lock, release-own, with_state_lock-ok, update_body-ok,
}

-- A successful update moved the state in the file, and left the lock free.
pub record Updated (hashes : Hashes) (key : String) (expected : Option ℕ) (move : Move)
    (before : Disk) (after : State) (left : Disk) : Type 0 where
  pub current : State
  pub loaded : before.state_file ≡ some (state current)
  pub timely : is_outdated expected current ≡ false
  pub moved : transition_deployment_state hashes key current move ≡ ok after
  pub file : left.state_file ≡ some (state after)
  pub unlocked : left.lock ≡ none
  pub directory : left.directory ≡ true

-- An open lock is taken and given back around a body that fails and changes nothing.
with_state_lock-free :
    {A : Type 0} (w : World) (disk : Disk) (body : Disk → Outcome A) (e : FileError)
    → disk.directory ≡ true
    → disk.lock ≡ none
    → body (with_own_lock w disk) ≡ (err e, with_own_lock w disk)
    → with_state_lock w disk body ≡ (err e, disk)
unfolding with_state_lock acquire held finish release
with_state_lock-free w disk body e there free failed =
    ground (arith, there, free, failed, eq_refl w.token)

module _ (hashes : Hashes) (sha : State → String) (key : String) where
  -- A successful update found a state that verifies and has the expected generation, left in the file
  -- what the accepted move makes of it, and released the lock.
  pub update-Updated :
      (w : World) (expected : Option ℕ) (move : Move) (disk : Disk) (after : State) (left : Disk)
      → update_deployment_state_file hashes sha key w expected move disk ≡ (ok after, left)
      → Updated hashes key expected move disk after left
  unfolding update_deployment_state_file
  update-Updated w expected move disk after left h =
      let (there, (d, ran, is_left)) =
        with_state_lock-ok w disk (update_body hashes sha key expected move) after left h in
      let s = update_body-ok hashes sha key expected move (with_own_lock w disk) after d ran in
      let freed = is_left ∙ release-own w d s.same_lock in
      record {
        current = s.current;
        loaded = s.loaded;
        timely = s.timely;
        moved = s.moved;
        file = ap (λ (x : Disk). x.state_file) freed ∙ s.file;
        unlocked = ap (λ (x : Disk). x.lock) freed;
        directory = ap (λ (x : Disk). x.directory) freed ∙ (s.same_directory ∙ there);
      }

  outdated_body :
      (g : ℕ) (move : Move) (disk : Disk) (current : State)
      → disk.state_file ≡ some (state current)
      → verify_deployment_state hashes key current ≡ []
      → is_outdated (some g) current ≡ true
      → update_body hashes sha key (some g) move disk ≡ (err generation_changed, disk)
  unfolding update_body update_loaded load_deployment_state
  outdated_body g move disk current file valid late = ground (arith, file, valid, late)

  -- Of two updates that expect the same generation only the first goes through: the second ends with
  -- the error on the changed generation and leaves everything as the first left it.
  pub update-conflict :
      (first second : World) (g : ℕ) (move other : Move) (disk : Disk) (after : State) (left : Disk)
      → update_deployment_state_file hashes sha key first (some g) move disk ≡ (ok after, left)
      → update_deployment_state_file hashes sha key second (some g) other left
        ≡ (err generation_changed, left)
  unfolding update_deployment_state_file
  update-conflict first second g move other disk after left h =
      let u = update-Updated first (some g) move disk after left h in
      let valid = transition-verified hashes key u.current move after u.moved in
      let moved = transition-Moved hashes key u.current move after u.moved in
      let late : is_outdated (some g) after ≡ true = ground (arith, u.timely, moved.generation) in
      with_state_lock-free second left (update_body hashes sha key (some g) other)
        generation_changed u.directory u.unlocked
        (outdated_body g other (with_own_lock second left) after u.file valid late)
