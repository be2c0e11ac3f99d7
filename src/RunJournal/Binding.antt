-- ===== src/RunJournal/Binding.antt =====
-- About two chains of replay events with one last digest (ai_workflow/run_journal.py).
use ai_workflow_control_plan.Common.{
  ℕ, suc, ◌≡◌, Option, none, some, List, [], ◌∷◌, String, arith, strip,
}
use ai_workflow_control_plan.Value.{Fields}
use ai_workflow_control_plan.RunJournal.{Body, StoredEvent, event_invalid, body_of, check_events}
use ai_workflow_control_plan.RunJournal.Chain.{add_errors-nil}

-- The same event, up to white space around its kind and the further entries, which no digest covers.
pub record SameEvent (x y : StoredEvent) : Type 0 where
  pub sequence : x.sequence ≡ y.sequence
  pub kind : strip x.kind ≡ strip y.kind
  pub payload : x.payload ≡ y.payload
  pub previous : x.previous_event_digest ≡ y.previous_event_digest
  pub digest : x.event_digest ≡ y.event_digest

abbrev pub SameEvents : List (Option StoredEvent) → List (Option StoredEvent) → Type 0
SameEvents [] [] = Unit
SameEvents (some x ∷ xs) (some y ∷ ys) = SameEvent x y × SameEvents xs ys
SameEvents _ _ = ⊥

module _ (sha : Body → Option String) where
  -- The hash tells the bodies at the same places of two chains apart.
  abbrev pub NoCollision : ℕ → List (Option StoredEvent) → List (Option StoredEvent) → Type 0
  NoCollision n (some x ∷ xs) (some y ∷ ys) =
      ((a b : Fields)
        → x.payload ≡ some a
        → y.payload ≡ some b
        → sha (body_of sha n x a) ≡ sha (body_of sha n y b)
        → body_of sha n x a ≡ body_of sha n y b)
      × NoCollision (suc n) xs ys
  NoCollision n _ _ = Unit

  pub invalid-refused :
      (n : ℕ) (p : Option String) (kinds : List String) (xs : List (Option StoredEvent))
      (last : Option String)
      → check_events sha n p kinds (none ∷ xs) ≡ ([], last)
      → ⊥
  unfolding check_events
  invalid-refused n p kinds xs last h =
      let (all, same) = add_errors-nil sha (event_invalid n ∷ []) _ last h in ground (arith, all)
