-- ===== src/Deployment/Failures.antt =====
-- What a failing operation of ai_workflow/deployment_state.py leaves on the disk.
use ai_workflow_control_plan.Common.{
  ◌≡◌, refl, ap, ◌∙◌, ◌⊎◌, inl, inr, true, false, if◌then◌else◌, Bool-cases, Result, some, List, [],
  ◌∷◌, ◌++◌, String, arith, ok, err,
}
use ai_workflow_control_plan.Deployment.Types.{State, Hashes, HistoryEntry}
use ai_workflow_control_plan.Deployment.Transition.{Move, transition_deployment_state}
use ai_workflow_control_plan.Deployment.Lock.{event_not_written, state, Disk, FileError}
use ai_workflow_control_plan.Deployment.Files.{write_audit_event, store, last_entry}

last_entry-append :
    (entries : List HistoryEntry) (entry : HistoryEntry)
    → last_entry (entries ++ entry ∷ []) ≡ some entry
unfolding last_entry
last_entry-append [] entry = refl
last_entry-append (x ∷ []) entry = refl
last_entry-append (x ∷ y ∷ entries) entry = last_entry-append (y ∷ entries) entry

-- What an update ends with once its move is accepted: the moved state, or the error of its event.
abbrev pub stored_result : Disk → State → Result FileError State
stored_result disk updated = if disk.events_refused then err event_not_written else ok updated

-- Only the audit event is missing: the file has what the accepted move makes of the state that was there.
pub record Unrecorded (hashes : Hashes) (key : String) (move : Move) (e : FileError)
    (before after : Disk) : Type 0 where
  pub error : e ≡ event_not_written
  pub refused : before.events_refused ≡ true
  pub current : State
  pub loaded : before.state_file ≡ some (state current)
  pub updated : State
  pub moved : transition_deployment_state hashes key current move ≡ ok updated
  pub file : after.state_file ≡ some (state updated)
  pub events : after.events ≡ before.events

module _ (hashes : Hashes) (sha : State → String) (key : String) where
  -- A moved state has a history, so its event is written or there already, unless the disk takes none.
  pub store-returns :
      (updated : State) (entries : List HistoryEntry) (entry : HistoryEntry) (disk : Disk)
      → updated.body.history ≡ entries ++ entry ∷ []
      → (left : Disk) × (store hashes sha key updated disk ≡ (stored_result disk updated, left))
        × (left.state_file ≡ some (state updated))
        × ((disk.events_refused ≡ false) ⊎ (left.events ≡ disk.events))
  unfolding store write_audit_event
  store-returns updated entries entry disk appended =
      let tail : last_entry updated.body.history ≡ some entry =
        ap last_entry appended ∙ last_entry-append entries entry in
      elim (Bool-cases disk.events_refused) [
        | inl bad ↦ (
          (store hashes sha key updated disk).1,
          ground (arith, tail, bad),
          ground (arith, tail, bad),
          inr (ground (arith, tail, bad)),
        )
        | inr fine ↦ (
          (store hashes sha key updated disk).1,
          ground (arith, tail, fine),
          ground (arith, tail, fine),
          inl fine,
        )
      ]
