-- ===== src/RunJournal/Build.antt =====
-- `build_replay_journal` of ai_workflow/run_journal.py.
use ai_workflow_control_plan.Common.{
  Bool, true, false, not, ◌&&◌, Option, none, some, List, [], ◌∷◌, map, String, Char, str_eq, strip,
  length, collect, Result, ok, err, required, ◌>>=◌, ◌>>◌, refuse,
}
use ai_workflow_control_plan.Value.{Fields, end}
use ai_workflow_control_plan.RunJournal.{
  ReplayEvent, Body, ChainedEvent, ChainError, StoredEvent, text_or_empty, chain_replay_events,
}
use ai_workflow_control_plan.RunJournal.Journal.{
  Recorded, Journal, entry_checks, replay_schema, replay_mode_name, expected_kinds, safe_run_id,
}

pub data BuildError : Type 0 where
  invalid_run_id record_not_json invalid_entry event_contract : BuildError
  not_chained : ChainError → BuildError

-- The chained event as it stands in the journal.
abbrev pub stored : ChainedEvent → Option StoredEvent
stored c = some (record {
  sequence = some c.body.sequence;
  kind = c.body.kind;
  payload = some c.body.payload;
  previous_event_digest = c.body.previous_event_digest;
  event_digest = c.event_digest;
  others = end;
})

-- `chained[-1]["event_digest"]`
unfoldable pub head_digest : List ChainedEvent → Option String
head_digest [] = none
head_digest (c ∷ []) = some c.event_digest
head_digest (c ∷ d ∷ chained) = head_digest (d ∷ chained)

-- `kinds != EXPECTED_REPLAY_EVENT_KINDS`, for the tuple of the stripped kinds.
unfoldable pub kinds_match : List ReplayEvent → List String → Bool
kinds_match [] [] = true
kinds_match (raw ∷ events) (kind ∷ kinds) = str_eq (strip raw.kind) kind && kinds_match events kinds
kinds_match _ _ = false

abbrev pub chained_or : {A : Type 0} → Result ChainError A → Result BuildError A
chained_or (ok a) = ok a
chained_or (err e) = err (not_chained e)

-- The journal without its digest.
abbrev pub unsigned_journal : Recorded → String → List ChainedEvent → Journal
unsigned_journal r run_id chained = record {
  schema_version = some replay_schema;
  replay_mode = some replay_mode_name;
  recorded = record r { run_id = some run_id };
  replay_events = some (map stored chained);
  replay_event_count = some (length chained);
  replay_head_digest = head_digest chained;
  journal_digest = "";
}

abbrev pub no_errors {ℓ} : {E : Type ℓ} → List E → Bool
no_errors [] = true
no_errors (e ∷ es) = false

-- `is_alnum` is `str.isalnum` of a character; `sha` and `sha_journal` are the digests of canonical JSON
-- texts, where there is one, and `clone` and `clone_record` read such a text back.
module _ (is_alnum : Char → Bool) (sha : Body → Option String)
    (sha_journal : Journal → Option String) (clone : Fields → Option Fields)
    (clone_record : Recorded → Option Recorded) where
  unfoldable pub build_replay_journal : Recorded → List ReplayEvent → Result BuildError Journal
  build_replay_journal given events = do
    run_id ← required (safe_run_id is_alnum (text_or_empty given.run_id)) invalid_run_id
    r ← required (clone_record given) record_not_json
    refuse (not (no_errors (collect (entry_checks r)))) invalid_entry
    refuse (not (kinds_match events expected_kinds)) event_contract
    chained ← chained_or (chain_replay_events sha clone events)
    let unsigned = unsigned_journal r run_id chained
    digest ← required (sha_journal unsigned) record_not_json
    ok (record unsigned { journal_digest = digest })
