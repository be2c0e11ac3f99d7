-- ===== src/RunJournal/Replay/Released.antt =====
-- What a replay of ai_workflow/run_journal.py releases.
use ai_workflow_control_plan.Common.{
  ℕ, suc, ◌≡◌, refl, sym, ap, ◌∙◌, ◌⊎◌, inl, inr, Bool, true, Option, none, some, List, [], ◌∷◌,
  map, String, Char, arith, length, Bool-cases,
}
use ai_workflow_control_plan.Value.{Value}
use ai_workflow_control_plan.RunJournal.{Body, StoredEvent, later, check_events}
use ai_workflow_control_plan.RunJournal.Chain.{check-Linked}
use ai_workflow_control_plan.RunJournal.Binding.{invalid-refused}
use ai_workflow_control_plan.RunJournal.Journal.{
  Journal, JournalError, expected_kinds, safe_run_id, recorded_run_id, verify_replay_journal,
}
use ai_workflow_control_plan.RunJournal.Build.{no_errors}
use ai_workflow_control_plan.RunJournal.Sound.{no_errors-≡, verify_replay_journal-Verified}
use ai_workflow_control_plan.RunJournal.Replay.{
  Surroundings, Replay, released_events, released, withheld, replay_run_journal,
}

-- Every event of a list that passes the checks is an object.
released_events-map :
    (sha : Body → Option String) (n : ℕ) (previous : Option String) (kinds : List String)
    (events : List (Option StoredEvent)) (last : Option String)
    → check_events sha n previous kinds events ≡ ([], last)
    → map some (released_events events) ≡ events
unfolding released_events
released_events-map sha n previous kinds [] last h = refl
released_events-map sha n previous kinds (none ∷ events) last h =
    absurd (invalid-refused sha n previous kinds events last h)
released_events-map sha n previous kinds (some raw ∷ events) last h =
    let l = check-Linked sha n previous kinds raw events last h in
    ap (λ (x : List (Option StoredEvent)). some raw ∷ x)
      (released_events-map sha (suc n) (some raw.event_digest) (later kinds) events last l.rest)

length-map :
    (events : List StoredEvent) → length (map {B = Option StoredEvent} some events) ≡ length events
length-map [] = refl
length-map (e ∷ events) = ap suc (length-map events)

module _ (is_alnum : Char → Bool) (same : Value → Value → Bool) (sha : Body → Option String)
    (sha_journal : Journal → Option String) where
  replay-released :
      (show : Value → String) (now : Surroundings) (run_id : String) (j : Journal)
      (events : List (Option StoredEvent))
      → j.replay_events ≡ some events
      → no_errors (verify_replay_journal is_alnum same sha sha_journal (some run_id) j) ≡ true
      → replay_run_journal show now is_alnum same sha sha_journal run_id (some j)
        ≡ some (released show now is_alnum same sha sha_journal j events)
  unfolding replay_run_journal
  replay-released show now run_id j events has fine = simp (fine, has) refl

  -- The errors of the verification of what was found under a run id.
  abbrev pub found_errors : String → Option Journal → List JournalError
  found_errors run_id none = JournalError.missing_journal ∷ []
  found_errors run_id (some j) = verify_replay_journal is_alnum same sha sha_journal (some run_id) j

  -- A replay never runs into the error for a verified journal without events. Its errors are those of the
  -- verification of the journal under the run id, or the one of a missing journal; it releases events
  -- exactly where there are none of them, and otherwise its list of events is empty.
  pub replay_run_journal_total :
      (show : Value → String) (now : Surroundings) (run_id : String) (stored : Option Journal)
      → (r : Replay) × (replay_run_journal show now is_alnum same sha sha_journal run_id stored
          ≡ some r)
        × (r.errors ≡ found_errors run_id stored)
        × (r.events_released ≡ no_errors (found_errors run_id stored))
        × ((r.events_released ≡ true) ⊎ (r.events ≡ []))
  unfolding replay_run_journal
  replay_run_journal_total show now run_id none = (_, refl, refl, refl, inr refl)
  replay_run_journal_total show now run_id (some j) =
      elim (Bool-cases
        (no_errors (verify_replay_journal is_alnum same sha sha_journal (some run_id) j))) [
          | inl fine ↦
              let v =
                verify_replay_journal-Verified is_alnum same sha sha_journal run_id j
                  (no_errors-≡ _ fine) in
              (
                released show now is_alnum same sha sha_journal j v.events,
                replay-released show now run_id j v.events v.has_events fine,
                sym (no_errors-≡ _ fine),
                sym fine,
                inl refl,
              )
          | inr bad ↦
              let errors = verify_replay_journal is_alnum same sha sha_journal (some run_id) j in
              (
                withheld show now is_alnum same sha sha_journal errors,
                rw bad refl,
                refl,
                sym bad,
                inr refl,
              )
        ]

  -- If a replay releases events, there is a journal whose run id is the given one and whose recorded
  -- digest is that of the rest of it; the events are seven, none of the journal's is left out, and they
  -- pass the checks of the chain up to the recorded last digest.
  pub replay_run_journal_releases :
      (show : Value → String) (now : Surroundings) (run_id : String) (stored : Option Journal)
      (r : Replay)
      → replay_run_journal show now is_alnum same sha sha_journal run_id stored ≡ some r
      → r.events_released ≡ true
      → (j : Journal) × (stored ≡ some j)
        × (safe_run_id is_alnum run_id
            ≡ some (recorded_run_id is_alnum same sha sha_journal j.recorded.run_id))
        × (sha_journal (record j { journal_digest = "" }) ≡ some j.journal_digest)
        × (length r.events ≡ 7)
        × (j.replay_events ≡ some (map some r.events))
        × (check_events sha 0 none expected_kinds (map some r.events) ≡ ([], j.replay_head_digest))
  unfolding replay_run_journal
  replay_run_journal_releases show now run_id none r h out = ground (arith, h, out)
  replay_run_journal_releases show now run_id (some j) r h out =
      elim (Bool-cases
        (no_errors (verify_replay_journal is_alnum same sha sha_journal (some run_id) j))) [
          | inl fine ↦
              let v =
                verify_replay_journal-Verified is_alnum same sha sha_journal run_id j
                  (no_errors-≡ _ fine) in
              let shown : r.events ≡ released_events v.events =
                ap (λ (x : Option Replay). elim x [ none ↦ [] | some r ↦ r.events ])
                  {y = some (released show now is_alnum same sha sha_journal j v.events)}
                  (sym h ∙ replay-released show now run_id j v.events v.has_events fine) in
              let whole =
                released_events-map sha 0 none expected_kinds v.events j.replay_head_digest
                  v.chained in
              let kept : map some r.events ≡ v.events = ap (map some) shown ∙ whole in
              (
                j,
                refl,
                v.named,
                v.sealed,
                sym (length-map r.events) ∙ ap length kept ∙ v.seven,
                v.has_events ∙ ap some (sym kept),
                ap (check_events sha 0 none expected_kinds) kept ∙ v.chained,
              )
          | inr bad ↦ ground (arith, h, out, bad)
        ]
