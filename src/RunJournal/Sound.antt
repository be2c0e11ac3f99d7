-- ===== src/RunJournal/Sound.antt =====
-- What `verify_replay_journal` of ai_workflow/run_journal.py has found of a journal without errors.
use ai_workflow_control_plan.Common.{
  ◌==◌, ◌≡◌, refl, sym, inl, inr, Bool, true, not, Option, none, some, List, [], ◌∷◌, ◌++◌, map,
  String, Char, arith, length, collect, collect-nil, Option-cases,
}
use ai_workflow_control_plan.Value.{Value}
use ai_workflow_control_plan.RunJournal.{
  Body, StoredEvent, EventError, is_number, same_text, check_events,
}
use ai_workflow_control_plan.RunJournal.Chain.{same_text-≡, supplied-≡}
use ai_workflow_control_plan.RunJournal.Journal.{
  Journal, JournalError, event_error, event_contract_count_mismatch, event_count_mismatch,
  head_digest_mismatch, replay_events_missing, expected_kinds, safe_run_id, head_checks,
  events_errors, snapshot_checks, digest_checks, recorded_run_id, verify_replay_journal,
}
use ai_workflow_control_plan.RunJournal.Build.{no_errors}

pub no_errors-≡ : (errors : List JournalError) → no_errors errors ≡ true → errors ≡ []
no_errors-≡ [] h = refl
no_errors-≡ (e ∷ es) h = ground arith

appended : (xs ys : List JournalError) → xs ++ ys ≡ [] → (xs ≡ []) × (ys ≡ [])
appended [] ys h = (refl, h)
appended (x ∷ xs) ys h = ground arith

mapped-nil : (xs : List EventError) → map event_error xs ≡ [] → xs ≡ []
mapped-nil [] h = refl
mapped-nil (x ∷ xs) h = ground arith

-- What a verified journal is.
pub record Verified (is_alnum : Char → Bool) (same : Value → Value → Bool)
    (sha : Body → Option String) (sha_journal : Journal → Option String) (run_id : String)
    (j : Journal) : Type 0 where
  pub events : List (Option StoredEvent)
  pub has_events : j.replay_events ≡ some events
  pub seven : length events ≡ 7
  pub chained : check_events sha 0 none expected_kinds events ≡ ([], j.replay_head_digest)
  pub named :
      safe_run_id is_alnum run_id
      ≡ some (recorded_run_id is_alnum same sha sha_journal j.recorded.run_id)
  pub sealed : sha_journal (record j { journal_digest = "" }) ≡ some j.journal_digest

module _ (is_alnum : Char → Bool) (same : Value → Value → Bool) (sha : Body → Option String)
    (sha_journal : Journal → Option String) where
  events_errors-chained :
      (j : Journal) (events : List (Option StoredEvent))
      → events_errors is_alnum same sha sha_journal j events ≡ []
      → (length events ≡ 7)
        × (check_events sha 0 none expected_kinds events ≡ ([], j.replay_head_digest))
  unfolding events_errors
  events_errors-chained j events h =
      let found = check_events sha 0 none expected_kinds events in
      let (count, more) =
        appended (collect ((not (length events == 7), event_contract_count_mismatch) ∷ []))
          (map event_error found.0
            ++ collect (
                (not (is_number j.replay_event_count (length events)), event_count_mismatch)
                ∷ (not (same_text j.replay_head_digest found.1), head_digest_mismatch)
                ∷ []))
          h in
      let (clean, ends) = appended (map event_error found.0) _ more in
      let head = same_text-≡ j.replay_head_digest found.1 (ground (arith, ends)) in
      (ground (arith, count), λ i. (mapped-nil found.0 clean i, sym head i))

  verified-named :
      (run_id : String) (j : Journal)
      → collect (head_checks is_alnum same sha sha_journal (some run_id) j) ≡ []
      → safe_run_id is_alnum run_id
        ≡ some (recorded_run_id is_alnum same sha sha_journal j.recorded.run_id)
  unfolding head_checks
  verified-named run_id j h =
      let c = collect-nil (head_checks is_alnum same sha sha_journal (some run_id) j) h in
      let found = recorded_run_id is_alnum same sha sha_journal j.recorded.run_id in
      let (schema, (mode, (present, (safe, (equal, rest))))) = c in
      supplied-≡ found (safe_run_id is_alnum run_id) safe (ground (arith, equal))

  verified-sealed :
      (j : Journal)
      → collect (digest_checks is_alnum same sha sha_journal j) ≡ []
      → sha_journal (record j { journal_digest = "" }) ≡ some j.journal_digest
  unfolding digest_checks
  verified-sealed j h =
      let c = collect-nil (digest_checks is_alnum same sha sha_journal j) h in
      supplied-≡ j.journal_digest (sha_journal (record j { journal_digest = "" })) c.0
        (ground (arith, c))

  pub verify_replay_journal-Verified :
      (run_id : String) (j : Journal)
      → verify_replay_journal is_alnum same sha sha_journal (some run_id) j ≡ []
      → Verified is_alnum same sha sha_journal run_id j
  unfolding verify_replay_journal
  verify_replay_journal-Verified run_id j h = elim (Option-cases j.replay_events) [
    | inl lacks ↦
        let missing =
          appended (collect (head_checks is_alnum same sha sha_journal (some run_id) j))
            (replay_events_missing ∷ []) (ground (arith, h, lacks)) in
        ground (arith, missing.1)
    | inr (events, has) ↦
        let (head, more) =
          appended (collect (head_checks is_alnum same sha sha_journal (some run_id) j))
            (events_errors is_alnum same sha sha_journal j events
              ++ (collect (snapshot_checks is_alnum same sha sha_journal j.recorded events)
                  ++ collect (digest_checks is_alnum same sha sha_journal j)))
            (ground (arith, h, has)) in
        let (ran, ends) = appended (events_errors is_alnum same sha sha_journal j events) _ more in
        let (seven, chained) = events_errors-chained j events ran in
        record {
          events = events;
          has_events = has;
          seven = seven;
          chained = chained;
          named = verified-named run_id j head;
          sealed =
              verified-sealed j
                (appended
                  (collect (snapshot_checks is_alnum same sha sha_journal j.recorded events)) _
                  ends).1;
        }
  ]
