-- ===== src/RunJournal/Replay/Agreed.antt =====
-- What a compatible run of ai_workflow/run_journal.py agrees on.
use ai_workflow_control_plan.Common.{
  ◌≡◌, refl, sym, subst, ◌⊎◌, inl, inr, Bool, true, false, not, ◌&&◌, Option, none, some, List, [],
  ◌∷◌, String, Char, str_eq, eq_iff, arith, All, Bool-cases,
}
use ai_workflow_control_plan.Value.{Value}
use ai_workflow_control_plan.RunJournal.{Body, same_text}
use ai_workflow_control_plan.RunJournal.Journal.{
  Recorded, Journal, JournalError, replay_schema, changed_files_refused, verify_replay_journal,
}
use ai_workflow_control_plan.RunJournal.Build.{no_errors}
use ai_workflow_control_plan.RunJournal.Replay.{
  Comparison, repository_fingerprint, repository_comparison, recorded_text, comparisons,
  Surroundings, mismatches_of, compatibility_from_record, verify_run_journal,
}

-- What was recorded is what is current; the repositories, where their fingerprint was recorded.
pub record Agrees (show : Value → String) (now : Surroundings) (r : Recorded) : Type 0 where
  pub config : recorded_text show now "config_digest" r.policy_identity ≡ now.config_digest
  pub policy :
      recorded_text show now "retrieval_policy_version" r.policy_identity
      ≡ now.retrieval_policy_version
  pub workspace :
      recorded_text show now "fingerprint" r.workspace_state
      ≡ now.workspace_fingerprint r.changed_files
  pub graph : recorded_text show now "fingerprint" r.graph_state ≡ now.graph_fingerprint
  pub repositories :
      (recorded_text show now "fingerprint" r.repository_state ≡ "")
      ⊎ (recorded_text show now "fingerprint" r.repository_state ≡ now.repository_fingerprint)

abbrev Equal : Comparison → Type 0
Equal c = c.current ≡ c.recorded

repositories-Equal :
    (current recorded : String)
    → All Equal (repository_comparison current recorded)
    → (recorded ≡ "") ⊎ (recorded ≡ current)
repositories-Equal current recorded all = elim (Bool-cases (str_eq recorded "")) [
  | inl e ↦ inl ((eq_iff recorded "").0 e)
  | inr e ↦
      let kept : repository_comparison current recorded
          ≡ record { name = repository_fingerprint; current = current; recorded = recorded } ∷ [] =
        rw e refl in
      inr (sym (subst (All Equal) kept all).0)
]

comparisons-Agrees :
    (show : Value → String) (now : Surroundings) (r : Recorded)
    → All Equal (comparisons show now r)
    → Agrees show now r
unfolding comparisons
comparisons-Agrees show now r (config, (policy, (workspace, (graph, rest)))) = record {
  config = sym config;
  policy = sym policy;
  workspace = sym workspace;
  graph = sym graph;
  repositories = repositories-Equal _ _ rest;
}

mismatches_of-nil : (compared : List Comparison) → mismatches_of compared ≡ [] → All Equal compared
unfolding mismatches_of
mismatches_of-nil [] h = tt
mismatches_of-nil (c ∷ compared) h = elim (Bool-cases (str_eq c.current c.recorded)) [
  | inl e ↦ ((eq_iff c.current c.recorded).0 e, mismatches_of-nil compared (ground (arith, h, e)))
  | inr e ↦ ground (arith, h, e)
]

either-verified :
    (current : Bool) (errors : List JournalError)
    → (current && not (no_errors errors)) ≡ false
    → (current ≡ false) ⊎ (errors ≡ [])
either-verified false errors h = inl refl
either-verified true [] h = inr refl
either-verified true (e ∷ errors) h = ground (arith, h)

compatibility_from_record-Agrees :
    (show : Value → String) (now : Surroundings) (j : Journal)
    → (compatibility_from_record show now j).mismatches ≡ []
    → Agrees show now j.recorded
unfolding compatibility_from_record
compatibility_from_record-Agrees show now j h =
    elim (Bool-cases (
      changed_files_refused (same_text j.schema_version (some replay_schema))
        j.recorded.changed_files)) [
          | inl bad ↦ ground (arith, h, bad)
          | inr fine ↦
              comparisons-Agrees show now j.recorded
                (mismatches_of-nil (comparisons show now j.recorded) (ground (arith, h, fine)))
        ]

module _ (is_alnum : Char → Bool) (same : Value → Value → Bool) (sha : Body → Option String)
    (sha_journal : Journal → Option String) where
  -- A run that is compatible has a journal; of the current schema it is verified; and its configuration,
  -- its policy version, its workspace and its graph, and its repositories where they were recorded, are
  -- the current ones.
  pub verify_run_journal-Agrees :
      (show : Value → String) (now : Surroundings) (run_id : String) (stored : Option Journal)
      → (verify_run_journal show now is_alnum same sha sha_journal run_id stored).mismatches ≡ []
      → (j : Journal) × (stored ≡ some j)
        × ((same_text j.schema_version (some replay_schema) ≡ false)
            ⊎ (verify_replay_journal is_alnum same sha sha_journal (some run_id) j ≡ []))
        × Agrees show now j.recorded
  unfolding verify_run_journal compatibility_from_record
  verify_run_journal-Agrees show now run_id none h = ground (arith, h)
  verify_run_journal-Agrees show now run_id (some j) h =
      let errors = verify_replay_journal is_alnum same sha sha_journal (some run_id) j in
      elim (Bool-cases
        (same_text j.schema_version (some replay_schema) && not (no_errors errors))) [
          | inl bad ↦ ground (arith, h, bad)
          | inr fine ↦
              let agreed = compatibility_from_record-Agrees show now j (ground (arith, h, fine)) in
              (
                j,
                refl,
                either-verified (same_text j.schema_version (some replay_schema)) errors fine,
                agreed,
              )
        ]
