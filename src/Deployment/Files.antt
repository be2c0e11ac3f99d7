-- ===== src/Deployment/Files.antt =====
-- The operations of ai_workflow/deployment_state.py on the state file and its audit events. `sha` is the
-- hash of a state's canonical JSON text.
use ai_workflow_control_plan.Common.{
  ℕ, Bool, true, false, not, ◌&&◌, ◌||◌, Option, none, some, List, [], ◌∷◌, String, str_eq, ◌==◌,
  if◌then◌else◌, text_take, Result, ok, err,
}
use ai_workflow_control_plan.Deployment.Types.{HistoryEntry, State, Hashes}
use ai_workflow_control_plan.Deployment.Verify.{is_valid, verify_deployment_state}
use ai_workflow_control_plan.Deployment.Transition.{
  Move, same_stage, generation_of, transition_deployment_state,
}
use ai_workflow_control_plan.Deployment.Lock.{
  AuditEvent, state, not_a_state, Disk, World, FileError, no_state_file, not_an_object,
  verification_failed, generation_changed, invalid_state, already_exists, event_exists,
  event_not_written, no_history, not_moved, Outcome, with_state_lock,
}

-- `load_deployment_state`
unfoldable pub load_deployment_state : Disk → Result FileError State
load_deployment_state disk = elim disk.state_file [
  | none ↦ err no_state_file
  | some content ↦ elim content [ state s ↦ ok s | not_a_state ↦ err not_an_object ]
]

-- `history[-1]`
unfoldable pub last_entry : List HistoryEntry → Option HistoryEntry
last_entry [] = none
last_entry (entry ∷ []) = some entry
last_entry (entry ∷ next ∷ entries) = last_entry (next ∷ entries)

unfoldable pub event_for : (State → String) → State → HistoryEntry → AuditEvent
event_for sha s tail = record {
  policy_prefix = text_take 12 s.body.policy_id;
  policy_id = s.body.policy_id;
  generation = generation_of s.body.generation;
  stage = s.body.stage;
  updated_at = s.body.updated_at;
  state_sha256 = sha s;
  history_tail = some tail;
}

-- The two files have the same name.
unfoldable pub same_name : AuditEvent → AuditEvent → Bool
same_name a b =
    a.generation == b.generation
    && str_eq a.policy_prefix b.policy_prefix
    && same_stage a.stage b.stage

unfoldable pub has_event : AuditEvent → List AuditEvent → Bool
unfolding same_name
has_event event [] = false
has_event event (other ∷ events) = same_name event other || has_event event events

-- `_write_audit_event`; an empty history is an `IndexError`, and an event that cannot be written an
-- `OSError`.
unfoldable pub write_audit_event : (State → String) → State → Disk → Outcome (Unit {0})
unfolding last_entry event_for has_event
write_audit_event sha s disk =
    if disk.events_refused
    then (err event_not_written, disk)
    else elim (last_entry s.body.history) [
      | none ↦ (err no_history, disk)
      | some tail ↦
          if has_event (event_for sha s tail) disk.events
          then (err event_exists, disk)
          else (ok tt, record disk { events = event_for sha s tail ∷ disk.events })
    ]

abbrev pub written : State → Disk → Disk
written s disk = record disk { state_file = some (state s) }

abbrev pub then_return : {A : Type 0} → A → Outcome (Unit {0}) → Outcome A
then_return value (ok done, disk) = (ok value, disk)
then_return value (err e, disk) = (err e, disk)

-- `expected_generation is not None and int(current["generation"]) != int(expected_generation)`
abbrev pub is_outdated : Option ℕ → State → Bool
is_outdated none current = false
is_outdated (some expected) current = not (generation_of current.body.generation == expected)

-- `except FileExistsError: pass`, and the value after it.
abbrev pub ignore_existing : {A : Type 0} → A → Outcome (Unit {0}) → Outcome A
ignore_existing value (ok done, disk) = (ok value, disk)
ignore_existing value (err event_exists, disk) = (ok value, disk)
ignore_existing value (err e, disk) = (err e, disk)

module _ (hashes : Hashes) (sha : State → String) (key : String) where
  unfoldable pub create_body : State → Disk → Outcome (Unit {0})
  unfolding write_audit_event
  create_body s disk = elim disk.state_file [
    | some content ↦ (err already_exists, disk)
    | none ↦ then_return tt (write_audit_event sha s (written s disk))
  ]

  -- The path that it returns is the caller's.
  unfoldable pub write_new_deployment_state : World → State → Disk → Outcome (Unit {0})
  unfolding create_body
  write_new_deployment_state w s disk =
      if is_valid (verify_deployment_state hashes key s)
      then with_state_lock w (record disk { directory = true }) (create_body s)
      else (err invalid_state, disk)

  -- The file is written, and then the event.
  unfoldable pub store : State → Disk → Outcome State
  unfolding write_audit_event
  store updated disk =
      ignore_existing updated (write_audit_event sha updated (written updated disk))

  -- The body of the lock, after the file is loaded.
  unfoldable pub update_loaded : Option ℕ → Move → State → Disk → Outcome State
  unfolding store
  update_loaded expected move current disk =
      if not (is_valid (verify_deployment_state hashes key current))
      then (err verification_failed, disk)
      else if is_outdated expected current
      then (err generation_changed, disk)
      else elim (transition_deployment_state hashes key current move) [
        | err e ↦ (err (not_moved e), disk)
        | ok updated ↦ store updated disk
      ]

  -- The body of the lock.
  unfoldable pub update_body : Option ℕ → Move → Disk → Outcome State
  unfolding update_loaded
  update_body expected move disk = elim (load_deployment_state disk) [
    | err e ↦ (err e, disk)
    | ok current ↦ update_loaded expected move current disk
  ]

  unfoldable pub update_deployment_state_file : World → Option ℕ → Move → Disk → Outcome State
  unfolding update_body
  update_deployment_state_file w expected move disk =
      with_state_lock w disk (update_body expected move)
