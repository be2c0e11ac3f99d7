-- ===== src/RunJournal/Journal.antt =====
-- A whole journal of ai_workflow/run_journal.py: `build_replay_journal` and `verify_replay_journal`.
-- An entry of a record that is missing or has another type is `none`.

use ai_workflow_control_plan.Common.{
  ℕ, Bool, true, false, not, ◌&&◌, ◌||◌, Option, none, some, List, [], ◌∷◌, ◌++◌, map, String, Char,
  code, str_eq, ltb, ◌==◌, if◌then◌else◌, strip, is_blank, text_length, length, collect,
}
use ai_workflow_control_plan.Value.{text, other_key, Value, list, Fields, end, field}
use ai_workflow_control_plan.RunJournal.{
  Body, StoredEvent, EventError, same_text, is_number, text_or_empty, is_missing, check_events,
}

-- `changed_files` as it is read; an item that is no text is `none`.
pub data ChangedFiles : Type 0 where
  no_entry not_a_list : ChangedFiles
  files : List (Option String) → ChangedFiles

-- The entries that a caller records. `others` has every further one.
pub record Recorded : Type 0 where
  pub run_id : Option String
  pub policy_identity : Option Fields
  pub workspace_state : Option Fields
  pub graph_state : Option Fields
  pub repository_state : Option Fields
  pub provider_versions : Option Fields
  pub retrieval : Option Fields
  pub selected_evidence : Option Value
  pub changed_files : ChangedFiles
  pub others : Fields

-- A journal. A missing digest is empty.
pub record Journal : Type 0 where
  pub schema_version : Option String
  pub replay_mode : Option String
  pub recorded : Recorded
  pub replay_events : Option (List (Option StoredEvent))
  pub replay_event_count : Option ℕ
  pub replay_head_digest : Option String
  pub journal_digest : String

pub data JournalError : Type 0 where
  schema_version_mismatch replay_mode_mismatch run_id_invalid : JournalError
  expected_run_id_invalid run_id_mismatch : JournalError
  policy_identity_invalid workspace_state_invalid graph_state_invalid : JournalError
  repository_state_invalid provider_versions_invalid retrieval_invalid : JournalError
  selected_evidence_invalid changed_files_invalid replay_events_missing : JournalError
  event_contract_count_mismatch event_count_mismatch head_digest_mismatch : JournalError
  retrieval_snapshot_mismatch selection_snapshot_mismatch : JournalError
  journal_digest_unverifiable journal_digest_mismatch : JournalError
  event_error : EventError → JournalError
  missing_journal : JournalError

abbrev pub replay_schema : String
replay_schema = "ai-workflow-run-journal-v2"

abbrev pub replay_mode_name : String
replay_mode_name = "decision-history-only"

-- `EXPECTED_REPLAY_EVENT_KINDS`
abbrev pub expected_kinds : List String
expected_kinds =
    "routing" ∷ "repository_routing" ∷ "retrieval" ∷ "ranking" ∷ "selection" ∷ "orchestration"
    ∷ "authorization" ∷ []

-- `"\x00" in item`
has_null : String → Bool
has_null String.[] = false
has_null (String.◌∷◌ c s) = code c == 0 || has_null s

is_bad_file : Option String → Bool
unfolding has_null
is_bad_file none = true
is_bad_file (some item) = str_eq item "" || has_null item || ltb 4096 (text_length item)

has_bad_file : List (Option String) → Bool
unfolding is_bad_file
has_bad_file [] = false
has_bad_file (item ∷ items) = is_bad_file item || has_bad_file items

-- `_validated_changed_files` raises. Without `required` a missing entry is fine.
unfoldable pub changed_files_refused : Bool → ChangedFiles → Bool
unfolding has_bad_file
changed_files_refused required no_entry = required
changed_files_refused required not_a_list = true
changed_files_refused required (files items) = ltb 4096 (length items) || has_bad_file items

abbrev pub is_absent {ℓ} : {A : Type ℓ} → Option A → Bool
is_absent none = true
is_absent (some a) = false

-- `not isinstance(value, list)`
abbrev pub is_no_list : Option Value → Bool
is_no_list none = true
is_no_list (some (list items)) = false
is_no_list (some v) = true

-- The entries that both `build_replay_journal` and `verify_replay_journal` want, in their order.
abbrev pub entry_checks : Recorded → List (Bool × JournalError)
entry_checks r =
    (is_absent r.policy_identity, policy_identity_invalid)
    ∷ (is_absent r.workspace_state, workspace_state_invalid)
    ∷ (is_absent r.graph_state, graph_state_invalid)
    ∷ (is_absent r.repository_state, repository_state_invalid)
    ∷ (is_absent r.provider_versions, provider_versions_invalid)
    ∷ (is_absent r.retrieval, retrieval_invalid)
    ∷ (is_no_list r.selected_evidence, selected_evidence_invalid)
    ∷ (changed_files_refused true r.changed_files, changed_files_invalid)
    ∷ []

-- The value under a key.
unfoldable pub get : String → Fields → Option Value
get key end = none
get key (field (text k) v fields) = if str_eq k key then some v else get key fields
get key (field other_key v fields) = get key fields

-- `event_payloads.get(kind)` after the loop: the last event of the kind that has a payload.
unfoldable pub payload_of : String → List (Option StoredEvent) → Option Fields
payload_of kind [] = none
payload_of kind (none ∷ events) = payload_of kind events
payload_of kind (some raw ∷ events) = elim (payload_of kind events) [
  | some payload ↦ some payload
  | none ↦ if not (is_blank raw.kind) && str_eq (strip raw.kind) kind then raw.payload else none
]

-- `is_alnum` is `str.isalnum` of a character.
module _ (is_alnum : Char → Bool) where
  allowed : String → Bool
  allowed String.[] = true
  allowed (String.◌∷◌ c s) =
      (is_alnum c || str_eq (String.◌∷◌ c String.[]) "-" || str_eq (String.◌∷◌ c String.[]) "_")
      && allowed s

  -- `_safe_run_id`; `none` is its `ValueError`.
  unfoldable pub safe_run_id : String → Option String
  unfolding allowed
  safe_run_id run_id =
      if str_eq (strip run_id) "" || not (allowed (strip run_id)) then none else some (strip run_id)

-- `_journal_digest`
abbrev pub journal_digest_of : (Journal → Option String) → Journal → Option String
journal_digest_of sha_journal j = sha_journal (record j { journal_digest = "" })

-- `same` is Python's equality of JSON values; `sha` and `sha_journal` are the digests of canonical JSON
-- texts, where there is one.
module _ (is_alnum : Char → Bool) (same : Value → Value → Bool) (sha : Body → Option String)
    (sha_journal : Journal → Option String) where
  abbrev pub recorded_run_id : Option String → String
  recorded_run_id none = ""
  recorded_run_id (some run_id) = text_or_empty (safe_run_id is_alnum run_id)

  abbrev pub run_id_checks : String → Option String → List (Bool × JournalError)
  run_id_checks found none = []
  run_id_checks found (some expected) =
      (is_missing (safe_run_id is_alnum expected), expected_run_id_invalid)
      ∷ (not (str_eq found (text_or_empty (safe_run_id is_alnum expected))), run_id_mismatch)
      ∷ []

  -- The checks before the events.
  unfoldable pub head_checks : Option String → Journal → List (Bool × JournalError)
  head_checks expected j =
      let found = recorded_run_id j.recorded.run_id in
      (not (same_text j.schema_version (some replay_schema)), schema_version_mismatch)
      ∷ (not (same_text j.replay_mode (some replay_mode_name)), replay_mode_mismatch)
      ∷ (str_eq found "", run_id_invalid)
      ∷ (run_id_checks found expected ++ entry_checks j.recorded)

  abbrev pub differs : Option Value → Option Value → Bool
  differs none none = false
  differs (some v) (some w) = not (same v w)
  differs _ _ = true

  abbrev pub retrieval_differs : Option Fields → Option Fields → Bool
  retrieval_differs (some payload) (some recorded) =
      not (same (Value.object payload) (Value.object recorded))
  retrieval_differs _ _ = false

  abbrev pub selection_differs : Option Fields → Option Value → Bool
  unfolding get
  selection_differs none recorded = false
  selection_differs (some payload) recorded = differs (get "selected_evidence" payload) recorded

  -- The recorded retrieval and selection against those of the events.
  unfoldable pub snapshot_checks : Recorded → List (Option StoredEvent) → List (Bool × JournalError)
  unfolding selection_differs
  snapshot_checks r events =
      (retrieval_differs (payload_of "retrieval" events) r.retrieval, retrieval_snapshot_mismatch)
      ∷ (
        selection_differs (payload_of "selection" events) r.selected_evidence,
        selection_snapshot_mismatch,
      )
      ∷ []

  unfoldable pub digest_checks : Journal → List (Bool × JournalError)
  digest_checks j =
      (is_missing (journal_digest_of sha_journal j), journal_digest_unverifiable)
      ∷ (
        not (str_eq j.journal_digest (text_or_empty (journal_digest_of sha_journal j))),
        journal_digest_mismatch,
      )
      ∷ []

  -- The checks on the events.
  unfoldable pub events_errors : Journal → List (Option StoredEvent) → List JournalError
  events_errors j events =
      let (found, last) = check_events sha 0 none expected_kinds events in
      collect ((not (length events == 7), event_contract_count_mismatch) ∷ [])
      ++ (map event_error found
          ++ collect (
              (not (is_number j.replay_event_count (length events)), event_count_mismatch)
              ∷ (not (same_text j.replay_head_digest last), head_digest_mismatch)
              ∷ []))

  -- The `errors` of `verify_replay_journal`; the journal is valid where there are none.
  unfoldable pub verify_replay_journal : Option String → Journal → List JournalError
  verify_replay_journal expected j = elim j.replay_events [
    | none ↦ collect (head_checks expected j) ++ replay_events_missing ∷ []
    | some events ↦
        collect (head_checks expected j)
        ++ (events_errors j events
            ++ (collect (snapshot_checks j.recorded events) ++ collect (digest_checks j)))
  ]
