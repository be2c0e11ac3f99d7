-- ===== src/Deployment/Sharing.antt =====
-- What the lock and the expected generation of ai_workflow/deployment_state.py give to processes that
-- share one state file.
use ai_workflow_control_plan.Common.{
  ℕ, ◌≡◌, refl, sym, ap, ◌∙◌, inl, inr, true, false, Option, none, some, String, eq_refl, arith, ok,
  err, Result-cases,
}
use ai_workflow_control_plan.Deployment.Types.{State, Hashes}
use ai_workflow_control_plan.Deployment.Transition.{Move, transition_deployment_state}
use ai_workflow_control_plan.Deployment.Lock.{
  state, Disk, World, FileError, Outcome, own_lock, acquire, release, finish, held, with_state_lock,
}
use ai_workflow_control_plan.Deployment.Files.{
  load_deployment_state, write_audit_event, is_outdated, store, update_loaded, update_body,
}

abbrev pub with_own_lock : World → Disk → Disk
with_own_lock w disk = record disk { lock = some (own_lock w) }

-- Taking the lock either ends with it held and all else as it was, or fails and leaves the files alone.
pub acquire-ok :
    (w : World) (disk d : Disk)
    → acquire w disk ≡ (ok tt, d)
    → (d ≡ with_own_lock w disk) × (disk.directory ≡ true)
unfolding acquire
acquire-ok w disk d h = ground arith

pub acquire-err :
    (w : World) (disk d : Disk) (e : FileError)
    → acquire w disk ≡ (err e, d)
    → (d.state_file ≡ disk.state_file) × (d.events ≡ disk.events)
unfolding acquire
acquire-err w disk d e h = ground arith

-- A process that still holds its lock removes it.
pub release-own :
    (w : World) (disk : Disk)
    → disk.lock ≡ some (own_lock w)
    → release w.token disk ≡ record disk { lock = none }
unfolding release
release-own w disk h = ground (arith, h, eq_refl w.token)

pub release-keeps :
    (token : String) (disk : Disk)
    → ((release token disk).state_file ≡ disk.state_file)
      × ((release token disk).events ≡ disk.events)
      × ((release token disk).directory ≡ disk.directory)
unfolding release
release-keeps token disk = ground arith

module _ {A : Type 0} (w : World) where
  finish-ok :
      (outcome : Outcome A) (value : A) (left : Disk)
      → finish w outcome ≡ (ok value, left)
      → (after : Disk) × (outcome ≡ (ok value, after)) × (left ≡ release w.token after)
  unfolding finish
  finish-ok (ok v, d) value left h = (d, ground arith, ground arith)
  finish-ok (err e, d) value left h = ground arith

  held-ok :
      (body : Disk → Outcome A) (taken : Outcome (Unit {0})) (value : A) (left : Disk)
      → held w body taken ≡ (ok value, left)
      → (d : Disk) × (taken ≡ (ok tt, d))
        × ((after : Disk) × (body d ≡ (ok value, after)) × (left ≡ release w.token after))
  unfolding held
  held-ok body (ok tt, d) value left h = (d, refl, finish-ok (body d) value left h)
  held-ok body (err e, d) value left h = ground arith

  pub with_state_lock-ok :
      (disk : Disk) (body : Disk → Outcome A) (value : A) (left : Disk)
      → with_state_lock w disk body ≡ (ok value, left)
      → (disk.directory ≡ true)
        × ((after : Disk) × (body (with_own_lock w disk) ≡ (ok value, after))
            × (left ≡ release w.token after))
  unfolding with_state_lock
  with_state_lock-ok disk body value left h =
      let (d, took, (after, ran, is_left)) = held-ok body (acquire w disk) value left h in
      let (same, there) = acquire-ok w disk d took in
      (there, (after, ap body (sym same) ∙ ran, is_left))

-- What a successful body of an update read and left.
pub record Stored (hashes : Hashes) (key : String) (expected : Option ℕ) (move : Move)
    (before : Disk) (after : State) (left : Disk) : Type 0 where
  pub current : State
  pub loaded : before.state_file ≡ some (state current)
  pub timely : is_outdated expected current ≡ false
  pub moved : transition_deployment_state hashes key current move ≡ ok after
  pub file : left.state_file ≡ some (state after)
  pub same_lock : left.lock ≡ before.lock
  pub same_directory : left.directory ≡ before.directory

module _ (hashes : Hashes) (sha : State → String) (key : String) where
  store-ok :
      (updated after : State) (disk left : Disk)
      → store hashes sha key updated disk ≡ (ok after, left)
      → (updated ≡ after)
        × (left.state_file ≡ some (state updated))
        × (left.lock ≡ disk.lock)
        × (left.directory ≡ disk.directory)
  unfolding store write_audit_event
  store-ok updated after disk left h = ground arith

  pub load-ok :
      (disk : Disk) (current : State)
      → load_deployment_state disk ≡ ok current
      → disk.state_file ≡ some (state current)
  unfolding load_deployment_state
  load-ok disk current h = ground arith

  update_loaded-ok :
      (expected : Option ℕ) (move : Move) (current : State) (disk : Disk) (after : State)
      (left : Disk)
      → update_loaded hashes sha key expected move current disk ≡ (ok after, left)
      → (is_outdated expected current ≡ false)
        × ((updated : State) × (transition_deployment_state hashes key current move ≡ ok updated)
            × (store hashes sha key updated disk ≡ (ok after, left)))
  unfolding update_loaded
  update_loaded-ok expected move current disk after left h =
      elim (Result-cases (transition_deployment_state hashes key current move)) [
        | inl (updated, moved) ↦ (ground (arith, moved), (updated, moved, ground (arith, moved)))
        | inr (e, failed) ↦ ground (arith, failed)
      ]

  pub update_body-ok :
      (expected : Option ℕ) (move : Move) (disk : Disk) (after : State) (left : Disk)
      → update_body hashes sha key expected move disk ≡ (ok after, left)
      → Stored hashes key expected move disk after left
  unfolding update_body
  update_body-ok expected move disk after left h =
      elim (Result-cases (load_deployment_state disk)) [
        | inl (current, loaded) ↦
            let rest : update_loaded hashes sha key expected move current disk ≡ (ok after, left) =
              ground (arith, loaded) in
            let (timely, (updated, moved, stored)) =
              update_loaded-ok expected move current disk after left rest in
            let (same, file, lock, directory) = store-ok updated after disk left stored in
            record {
              current = current;
              loaded = load-ok disk current loaded;
              timely = timely;
              moved = moved ∙ ap ok same;
              file = file ∙ ap (λ s. some (state s)) same;
              same_lock = lock;
              same_directory = directory;
            }
        | inr (e, failed) ↦ ground (arith, failed)
      ]
