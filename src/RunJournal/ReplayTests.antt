-- ===== src/RunJournal/ReplayTests.antt =====
-- Runs of a whole journal of ai_workflow/run_journal.py: built, stored, verified and replayed.
use ai_workflow_control_plan.Common.{
  ℕ, suc, ◌≡◌, refl, ◌⊎◌, inr, Bool, true, false, Option, none, some, List, [], ◌∷◌, map, String,
  Char, strip, is_blank, length, ok, err, collect,
}
use ai_workflow_control_plan.Value.{text, Value, nil, list, Fields, end, field}
use ai_workflow_control_plan.RunJournal.{
  ReplayEvent, back_of, Body, ChainedEvent, StoredEvent, chain_replay_events, same_text,
  shape_checks, digest_checks, check_events,
}
use ai_workflow_control_plan.RunJournal.Journal.{
  files, Recorded, Journal, run_id_mismatch, expected_kinds, replay_schema, get, payload_of,
  safe_run_id, changed_files_refused, head_checks, snapshot_checks, events_errors,
  digest_checks as seal_checks, recorded_run_id, verify_replay_journal,
}
use ai_workflow_control_plan.RunJournal.Build.{
  event_contract, unsigned_journal, head_digest, kinds_match, no_errors, build_replay_journal,
}
use ai_workflow_control_plan.RunJournal.Verified.{build-verified}
use ai_workflow_control_plan.RunJournal.Replay.{
  Surroundings, Replay, mismatches_of, released_events, recorded_text, comparisons,
  compatibility_from_record, verify_run_journal, replay_run_journal,
}
use ai_workflow_control_plan.RunJournal.Replay.Released.{
  replay_run_journal_total, replay_run_journal_releases,
}
use ai_workflow_control_plan.RunJournal.Replay.Agreed.{Agrees, verify_run_journal-Agrees}

abbrev is_alnum : Char → Bool
is_alnum c = true

abbrev same : Value → Value → Bool
same v w = true

abbrev sha : Body → Option String
sha b = some "d"

abbrev sha_journal : Journal → Option String
sha_journal j = some "j"

abbrev recorded : Recorded
recorded = record {
  run_id = some " run-1 ";
  policy_identity = some (field (text "config_digest") (Value.str "c") end);
  workspace_state = some end;
  graph_state = some end;
  repository_state = some end;
  provider_versions = some end;
  retrieval = some end;
  selected_evidence = some (list nil);
  changed_files = files [];
  others = end;
}

-- What every event carries.
abbrev payload : Fields
payload = field (text "selected_evidence") (list nil) end

abbrev event : String → ReplayEvent
event kind = record { kind = kind; payload = some payload }

abbrev events : List ReplayEvent
events = map event expected_kinds

abbrev chain : ℕ → Option String → List String → List ChainedEvent
chain n previous [] = []
chain n previous (kind ∷ kinds) =
    record {
      body = record {
        sequence = n;
        kind = kind;
        previous_event_digest = back_of previous;
        payload = payload;
      };
      event_digest = "d";
    }
    ∷ chain (suc n) (some "d") kinds

abbrev journal : Journal
journal = record (unsigned_journal recorded "run-1" (chain 0 none expected_kinds)) {
  journal_digest = "j";
}

abbrev stored_events : List ChainedEvent → List StoredEvent
stored_events [] = []
stored_events (c ∷ chained) =
    record {
      sequence = some c.body.sequence;
      kind = c.body.kind;
      payload = some c.body.payload;
      previous_event_digest = c.body.previous_event_digest;
      event_digest = c.event_digest;
      others = end;
    }
    ∷ stored_events chained

built :
    build_replay_journal is_alnum sha sha_journal (λ p. some p) (λ r. some r) recorded events
    ≡ ok journal
unfolding build_replay_journal safe_run_id strip is_blank kinds_match head_digest
    chain_replay_events changed_files_refused
built = refl

short_refused :
    build_replay_journal is_alnum sha sha_journal
      (λ p. some p)
      (λ r. some r)
      recorded
      (event "routing" ∷ [])
    ≡ err event_contract
unfolding build_replay_journal safe_run_id strip is_blank kinds_match changed_files_refused
short_refused = refl

build-verified_example :
    (written : List (Option StoredEvent)) × (journal.replay_events ≡ some written)
    × (verify_replay_journal is_alnum same sha sha_journal (some "run-1") journal
        ≡ collect (snapshot_checks is_alnum same sha sha_journal journal.recorded written))
build-verified_example =
    build-verified is_alnum same sha sha_journal (λ p. some p) (λ r. some r) recorded events journal
      (some "run-1") built (inr refl)

abbrev show : Value → String
show v = "c"

abbrev now : Surroundings
now = record {
  config_digest = "c";
  retrieval_policy_version = "";
  workspace_fingerprint = λ f. "";
  graph_fingerprint = "";
  repository_fingerprint = "";
}

journal_verified : verify_replay_journal is_alnum same sha sha_journal (some "run-1") journal ≡ []
unfolding verify_replay_journal head_checks events_errors snapshot_checks seal_checks safe_run_id
    strip is_blank check_events shape_checks digest_checks payload_of changed_files_refused
    head_digest get
journal_verified = refl

other_run_refused :
    verify_replay_journal is_alnum same sha sha_journal (some "run-2") journal
    ≡ run_id_mismatch ∷ []
unfolding verify_replay_journal head_checks events_errors snapshot_checks seal_checks safe_run_id
    strip is_blank check_events shape_checks digest_checks payload_of changed_files_refused
    head_digest get
other_run_refused = refl

abbrev replayed : Replay
replayed = record {
  found = true;
  errors = [];
  compatibility = record { mismatches = []; compared = comparisons show now recorded };
  events_released = true;
  events = stored_events (chain 0 none expected_kinds);
}

journal_replayed :
    replay_run_journal show now is_alnum same sha sha_journal "run-1" (some journal) ≡ some replayed
unfolding replay_run_journal compatibility_from_record mismatches_of released_events comparisons
    changed_files_refused get recorded_text head_digest
journal_replayed = rw journal_verified refl

replay_run_journal_total_example :
    (r : Replay) × (replay_run_journal show now is_alnum same sha sha_journal "run-1" (some journal)
      ≡ some r)
    × (r.errors ≡ verify_replay_journal is_alnum same sha sha_journal (some "run-1") journal)
    × (r.events_released
        ≡ no_errors (verify_replay_journal is_alnum same sha sha_journal (some "run-1") journal))
    × ((r.events_released ≡ true) ⊎ (r.events ≡ []))
replay_run_journal_total_example =
    replay_run_journal_total is_alnum same sha sha_journal show now "run-1" (some journal)

replay_run_journal_releases_example :
    (j : Journal) × (some journal ≡ some j)
    × (safe_run_id is_alnum "run-1"
        ≡ some (recorded_run_id is_alnum same sha sha_journal j.recorded.run_id))
    × (sha_journal (record j { journal_digest = "" }) ≡ some j.journal_digest)
    × (length replayed.events ≡ 7)
    × (j.replay_events ≡ some (map some replayed.events))
    × (check_events sha 0 none expected_kinds (map some replayed.events)
        ≡ ([], j.replay_head_digest))
replay_run_journal_releases_example =
    replay_run_journal_releases is_alnum same sha sha_journal show now "run-1" (some journal)
      replayed journal_replayed refl

compatible :
    (verify_run_journal show now is_alnum same sha sha_journal "run-1" (some journal)).mismatches
    ≡ []
unfolding verify_run_journal compatibility_from_record mismatches_of comparisons
    changed_files_refused get recorded_text
compatible = rw journal_verified refl

verify_run_journal-Agrees_example :
    (j : Journal) × (some journal ≡ some j)
    × ((same_text j.schema_version (some replay_schema) ≡ false)
        ⊎ (verify_replay_journal is_alnum same sha sha_journal (some "run-1") j ≡ []))
    × Agrees show now j.recorded
verify_run_journal-Agrees_example =
    verify_run_journal-Agrees is_alnum same sha sha_journal show now "run-1" (some journal)
      compatible
