-- ===== src/RunJournal/Verified.antt =====
-- The round trip of ai_workflow/run_journal.py: a journal that is built verifies, but for the snapshots.
use ai_workflow_control_plan.Common.{
  suc, ◌≤◌, All, ◌≡◌, refl, sym, ap, subst, ◌⊎◌, Bool, true, false, not, Option, none, some, List,
  [], ◌∷◌, map, String, Char, str_eq, eq_refl, arith, strip, is_blank, strip-strip, length, collect,
  Clean, collect-nil, collect_of_Clean, append-nil, Result, ok, err, refuse, >>=-ok, required,
  required-ok, refuse-ok,
}
use ai_workflow_control_plan.Value.{Value, Fields}
use ai_workflow_control_plan.RunJournal.{
  ReplayEvent, Body, ChainedEvent, ChainError, StoredEvent, text_or_empty, chain_replay_events,
}
use ai_workflow_control_plan.RunJournal.Journal.{
  Recorded, Journal, entry_checks, replay_schema, replay_mode_name, expected_kinds, safe_run_id,
  head_checks, events_errors, snapshot_checks, digest_checks, verify_replay_journal,
}
use ai_workflow_control_plan.RunJournal.Build.{
  BuildError, stored, head_digest, kinds_match, chained_or, unsigned_journal, no_errors,
  build_replay_journal,
}
use ai_workflow_control_plan.RunJournal.Built.{last_of, Fine, chain_from-checked, same_text_refl}

safe_run_id-safe :
    (is_alnum : Char → Bool) (given run_id : String)
    → safe_run_id is_alnum given ≡ some run_id
    → (safe_run_id is_alnum run_id ≡ some run_id) × (str_eq run_id "" ≡ false)
unfolding safe_run_id
safe_run_id-safe is_alnum given run_id h = ground (arith, h, strip-strip given)

not-false : (b : Bool) → not b ≡ false → b ≡ true
not-false true h = refl
not-false false h = cc

ok-injective : (a b : Journal) → ◌≡◌ {A = Result BuildError Journal} (ok a) (ok b) → a ≡ b
ok-injective a b h = cc

chained_or-ok : {A : Type 0} (r : Result ChainError A) (a : A) → chained_or r ≡ ok a → r ≡ ok a
chained_or-ok (ok b) a h = ground arith
chained_or-ok (err e) a h = ground arith

no_errors-nil {ℓ} : {E : Type ℓ} (errors : List E) → not (no_errors errors) ≡ false → errors ≡ []
no_errors-nil [] h = refl
no_errors-nil (e ∷ es) h = cc

head_digest-last :
    (c : ChainedEvent) (chained : List ChainedEvent) (previous : Option String)
    → head_digest (c ∷ chained) ≡ last_of previous (c ∷ chained)
unfolding head_digest
head_digest-last c [] previous = refl
head_digest-last c (d ∷ chained) previous = head_digest-last d chained (some c.event_digest)

head_digest-last_of :
    (chained : List ChainedEvent) → 1 ≤ length chained → head_digest chained ≡ last_of none chained
head_digest-last_of [] h = ground arith
head_digest-last_of (c ∷ chained) h = head_digest-last c chained none

length-map : (chained : List ChainedEvent) → length (map stored chained) ≡ length chained
length-map [] = refl
length-map (c ∷ chained) = ap suc (length-map chained)

-- The expected kinds have nothing to strip.
expected_Fine : All Fine expected_kinds
unfolding strip is_blank
expected_Fine = (
  (refl, refl),
  (
    (refl, refl),
    ((refl, refl), ((refl, refl), ((refl, refl), ((refl, refl), ((refl, refl), tt))))),
  ),
)

-- What a successful build went through.
record Built (is_alnum : Char → Bool) (sha : Body → Option String)
    (sha_journal : Journal → Option String) (clone : Fields → Option Fields)
    (events : List ReplayEvent) (j : Journal) : Type 0 where
  r : Recorded
  run_id : String
  chained : List ChainedEvent
  digest : String
  named : safe_run_id is_alnum run_id ≡ some run_id
  not_empty : str_eq run_id "" ≡ false
  entries : Clean (entry_checks r)
  kinds : kinds_match events expected_kinds ≡ true
  linked : chain_replay_events sha clone events ≡ ok chained
  hashed : sha_journal (unsigned_journal r run_id chained) ≡ some digest
  journal : j ≡ record (unsigned_journal r run_id chained) { journal_digest = digest }

module _ (is_alnum : Char → Bool) (same : Value → Value → Bool) (sha : Body → Option String)
    (sha_journal : Journal → Option String) (clone : Fields → Option Fields)
    (clone_record : Recorded → Option Recorded) where
  build-Built :
      (given : Recorded) (events : List ReplayEvent) (j : Journal)
      → build_replay_journal is_alnum sha sha_journal clone clone_record given events ≡ ok j
      → Built is_alnum sha sha_journal clone events j
  unfolding build_replay_journal
  build-Built given events j h =
      let (run_id, named, h1) =
        >>=-ok (required (safe_run_id is_alnum (text_or_empty given.run_id)) _) _ h in
      let (r, cloned, h2) = >>=-ok (required (clone_record given) _) _ h1 in
      let (u, clean, h3) = >>=-ok (refuse (not (no_errors (collect (entry_checks r)))) _) _ h2 in
      let (v, matched, h4) = >>=-ok (refuse (not (kinds_match events expected_kinds)) _) _ h3 in
      let (chained, linked, h5) = >>=-ok (chained_or (chain_replay_events sha clone events)) _ h4 in
      let (digest, hashed, h6) =
        >>=-ok (required (sha_journal (unsigned_journal r run_id chained)) _) _ h5 in
      let (safe, not_empty) =
        safe_run_id-safe is_alnum (text_or_empty given.run_id) run_id (required-ok _ _ _ named) in
      record {
        r = r;
        run_id = run_id;
        chained = chained;
        digest = digest;
        named = safe;
        not_empty = not_empty;
        entries = collect-nil (entry_checks r) (no_errors-nil _ (refuse-ok _ _ _ clean));
        kinds = not-false _ (refuse-ok _ _ _ matched);
        linked = chained_or-ok _ _ linked;
        hashed = required-ok _ _ _ hashed;
        journal = sym (ok-injective _ _ h6);
      }

  module _ (events : List ReplayEvent) (j : Journal)
      (b : Built is_alnum sha sha_journal clone events j) where
    -- The journal of these parts.
    abbrev built : Journal
    built = record (unsigned_journal b.r b.run_id b.chained) { journal_digest = b.digest }

    head-none :
        (expected : Option String)
        → (expected ≡ none) ⊎ (expected ≡ some b.run_id)
        → collect (head_checks is_alnum same sha sha_journal expected built) ≡ []
    unfolding head_checks
    head-none none wanted =
        collect_of_Clean (head_checks is_alnum same sha sha_journal none built)
          (ground (arith, eq_refl replay_schema, eq_refl replay_mode_name))
    head-none (some e) wanted =
        collect_of_Clean (head_checks is_alnum same sha sha_journal (some e) built) (
          ground (arith, eq_refl replay_schema, eq_refl replay_mode_name, wanted, eq_refl b.run_id))

    events-none : events_errors is_alnum same sha sha_journal built (map stored b.chained) ≡ []
    unfolding events_errors chain_replay_events
    events-none =
        let (checked, count) =
          chain_from-checked sha clone 0 none expected_kinds events b.chained expected_Fine b.kinds
            b.linked in
        let last = head_digest-last_of b.chained (omega (arith, count)) in
        let many = length-map b.chained in
        rw checked (ground (arith, many, count, last, same_text_refl (head_digest b.chained)))

    digest-none : collect (digest_checks is_alnum same sha sha_journal built) ≡ []
    unfolding digest_checks
    digest-none =
        collect_of_Clean (digest_checks is_alnum same sha sha_journal built)
          (ground (arith, b.hashed, eq_refl b.digest))

    built-verified :
        (expected : Option String)
        → (expected ≡ none) ⊎ (expected ≡ some b.run_id)
        → verify_replay_journal is_alnum same sha sha_journal expected built
          ≡ collect (snapshot_checks is_alnum same sha sha_journal b.r (map stored b.chained))
    unfolding verify_replay_journal snapshot_checks
    built-verified expected wanted =
        rw (head-none expected wanted, events-none, digest-none)
          (append-nil
            (collect (snapshot_checks is_alnum same sha sha_journal b.r (map stored b.chained))))

  -- A journal that was built from a record and from events, with no run id expected or with its own,
  -- has events, and its verification finds nothing but the differences, if any, between the recorded
  -- retrieval and selection and those of these events.
  pub build-verified :
      (given : Recorded) (events : List ReplayEvent) (j : Journal) (expected : Option String)
      → build_replay_journal is_alnum sha sha_journal clone clone_record given events ≡ ok j
      → (expected ≡ none) ⊎ (expected ≡ j.recorded.run_id)
      → (written : List (Option StoredEvent)) × (j.replay_events ≡ some written)
        × (verify_replay_journal is_alnum same sha sha_journal expected j
            ≡ collect (snapshot_checks is_alnum same sha sha_journal j.recorded written))
  unfolding snapshot_checks
  build-verified given events j expected h wanted =
      let b = build-Built given events j h in
      (
        map stored b.chained,
        ap (λ (x : Journal). x.replay_events) b.journal,
        subst
            (λ (x : Journal).
              ((expected ≡ none) ⊎ (expected ≡ x.recorded.run_id))
              → verify_replay_journal is_alnum same sha sha_journal expected x
                ≡ collect (
                    snapshot_checks is_alnum same sha sha_journal x.recorded
                      (map stored b.chained)))
            (sym b.journal) (built-verified events j b expected) wanted,
      )
