-- ===== src/RunJournal/Replay.antt =====
-- The readers of a stored journal in ai_workflow/run_journal.py: `verify_run_journal`,
-- `replay_run_journal` and the `_compatibility_from_record` that both end in.
pub mod Released
pub mod Agreed
use ai_workflow_control_plan.Common.{
  Bool, true, false, not, ◌&&◌, Option, none, some, List, [], ◌∷◌, ◌++◌, map, String, Char, str_eq,
  if◌then◌else◌,
}
use ai_workflow_control_plan.Value.{Key, text, other_key, Value, Fields, end, field}
use ai_workflow_control_plan.RunJournal.{Body, StoredEvent, same_text}
use ai_workflow_control_plan.RunJournal.Journal.{
  ChangedFiles, files, Recorded, Journal, JournalError, replay_schema, changed_files_refused, get,
  verify_replay_journal,
}
use ai_workflow_control_plan.RunJournal.Build.{no_errors}

pub data Compared : Type 0 where
  config_digest retrieval_policy_version workspace_fingerprint : Compared
  graph_fingerprint repository_fingerprint : Compared

pub data Mismatch : Type 0 where
  missing_journal invalid_journal invalid_changed_files : Mismatch
  differing : Compared → Mismatch

-- A name, what is current, and what was recorded.
pub record Comparison : Type 0 where
  pub name : Compared
  pub current : String
  pub recorded : String

-- It is compatible where it has no mismatch.
pub record Compatibility : Type 0 where
  pub mismatches : List Mismatch
  pub compared : List Comparison

-- What the replay reads of the workspace now.
pub record Surroundings : Type 0 where
  pub config_digest : String
  pub retrieval_policy_version : String
  pub workspace_fingerprint : ChangedFiles → String
  pub graph_fingerprint : String
  pub repository_fingerprint : String

pub record Replay : Type 0 where
  pub found : Bool
  pub errors : List JournalError
  pub compatibility : Compatibility
  pub events_released : Bool
  pub events : List StoredEvent

abbrev pub refused : Mismatch → Compatibility
refused m = record { mismatches = m ∷ []; compared = [] }

-- `[name for name in current if current[name] != recorded[name]]`
unfoldable pub mismatches_of : List Comparison → List Mismatch
mismatches_of [] = []
mismatches_of (c ∷ compared) =
    if str_eq c.current c.recorded
    then mismatches_of compared
    else differing c.name ∷ mismatches_of compared

-- `[dict(item) for item in raw_events if isinstance(item, Mapping)]`
unfoldable pub released_events : List (Option StoredEvent) → List StoredEvent
released_events [] = []
released_events (none ∷ events) = released_events events
released_events (some raw ∷ events) = raw ∷ released_events events

-- The compared names that have no condition, and the one that needs a recorded fingerprint.
abbrev pub repository_comparison : String → String → List Comparison
repository_comparison current recorded =
    if str_eq recorded ""
    then []
    else record { name = repository_fingerprint; current = current; recorded = recorded } ∷ []

-- `show` is Python's `str` of a value.
module _ (show : Value → String) (now : Surroundings) where
  -- `str(entry.get(name, ""))`, for an entry that is no object as for an empty one.
  unfoldable pub recorded_text : String → Option Fields → String
  unfolding get
  recorded_text name none = ""
  recorded_text name (some entry) = elim (get name entry) [ none ↦ "" | some v ↦ show v ]

  unfoldable pub comparisons : Recorded → List Comparison
  unfolding recorded_text
  comparisons r =
      record {
        name = Compared.config_digest;
        current = now.config_digest;
        recorded = recorded_text "config_digest" r.policy_identity;
      }
      ∷ record {
        name = Compared.retrieval_policy_version;
        current = now.retrieval_policy_version;
        recorded = recorded_text "retrieval_policy_version" r.policy_identity;
      }
      ∷ record {
        name = Compared.workspace_fingerprint;
        current = now.workspace_fingerprint r.changed_files;
        recorded = recorded_text "fingerprint" r.workspace_state;
      }
      ∷ record {
        name = Compared.graph_fingerprint;
        current = now.graph_fingerprint;
        recorded = recorded_text "fingerprint" r.graph_state;
      }
      ∷ repository_comparison now.repository_fingerprint
          (recorded_text "fingerprint" r.repository_state)

  -- `_compatibility_from_record`
  unfoldable pub compatibility_from_record : Journal → Compatibility
  unfolding comparisons
  compatibility_from_record j =
      if changed_files_refused (same_text j.schema_version (some replay_schema))
        j.recorded.changed_files
      then refused invalid_changed_files
      else record {
        mismatches = mismatches_of (comparisons j.recorded);
        compared = comparisons j.recorded;
      }

  -- The other parameters are those of `verify_replay_journal`; the journal is what `read_run_journal`
  -- finds.
  module _ (is_alnum : Char → Bool) (same : Value → Value → Bool) (sha : Body → Option String)
      (sha_journal : Journal → Option String) where
    unfoldable pub verify_run_journal : String → Option Journal → Compatibility
    verify_run_journal run_id none = refused Mismatch.missing_journal
    verify_run_journal run_id (some j) =
        if same_text j.schema_version (some replay_schema)
          && not (no_errors (verify_replay_journal is_alnum same sha sha_journal (some run_id) j))
        then refused invalid_journal
        else compatibility_from_record j

    -- What the replay of a journal returns where its verification fails, and where it does not.
    abbrev pub withheld : List JournalError → Replay
    withheld errors = record {
      found = true;
      errors = errors;
      compatibility = refused invalid_journal;
      events_released = false;
      events = [];
    }

    abbrev pub released : Journal → List (Option StoredEvent) → Replay
    released j events = record {
      found = true;
      errors = [];
      compatibility = compatibility_from_record j;
      events_released = true;
      events = released_events events;
    }

    -- `none` is the `RuntimeError` for a verified journal without its events.
    unfoldable pub replay_run_journal : String → Option Journal → Option Replay
    replay_run_journal run_id none = some (record {
      found = false;
      errors = JournalError.missing_journal ∷ [];
      compatibility = refused Mismatch.missing_journal;
      events_released = false;
      events = [];
    })
    replay_run_journal run_id (some j) =
        let errors = verify_replay_journal is_alnum same sha sha_journal (some run_id) j in
        if no_errors errors
        then elim j.replay_events [ none ↦ none | some events ↦ some (released j events) ]
        else some (withheld errors)
