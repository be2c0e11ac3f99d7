-- ===== src/RunJournal/Tests.antt =====
-- Runs of the replay chain of ai_workflow/run_journal.py on two events.
use ai_workflow_control_plan.Common.{
  ℕ, ◌≡◌, refl, Option, none, some, List, [], ◌∷◌, String, strip, is_blank, err,
}
use ai_workflow_control_plan.Value.{end}
use ai_workflow_control_plan.RunJournal.{
  back_of, Body, blank_kind, StoredEvent, sequence_mismatch, chain_from, chain_replay_events,
  shape_checks, digest_checks, check_events,
}

abbrev sha : Body → Option String
sha b = some "d"

abbrev event : ℕ → String → Option String → StoredEvent
event n kind previous = record {
  sequence = some n;
  kind = kind;
  payload = some end;
  previous_event_digest = back_of previous;
  event_digest = "d";
  others = end;
}

abbrev kinds : List String
kinds = "routing" ∷ "retrieval" ∷ []

abbrev stored : List (Option StoredEvent)
stored = some (event 0 "routing" none) ∷ some (event 1 "retrieval" (some "d")) ∷ []

abbrev padded : List (Option StoredEvent)
padded = some (event 0 " routing " none) ∷ some (event 1 "retrieval" (some "d")) ∷ []

swapped_fails :
    check_events sha 0 none kinds (some (event 1 "routing" none) ∷ [])
    ≡ (sequence_mismatch 0 ∷ [], some "d")
unfolding check_events shape_checks digest_checks is_blank strip
swapped_fails = refl

blank_fails :
    chain_replay_events sha (λ p. some p) (record { kind = " "; payload = some end } ∷ [])
    ≡ err blank_kind
unfolding chain_replay_events chain_from is_blank strip
blank_fails = refl

abbrev start : Option String
start = none
