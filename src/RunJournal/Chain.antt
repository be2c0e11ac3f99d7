-- ===== src/RunJournal/Chain.antt =====
-- What the last digest of a chain of events says (ai_workflow/run_journal.py).
use ai_workflow_control_plan.Common.{
  ℕ, suc, ◌≡◌, refl, sym, ap, true, false, Option, none, some, inl, inr, Bool-cases, Option-cases,
  List, [], ◌∷◌, ◌++◌, String, str_eq, eq_iff, arith, is_blank,
}
use ai_workflow_control_plan.Value.{Fields}
use ai_workflow_control_plan.RunJournal.{
  Back, no_digest, digest_text, other_value, back_of, is_back, Body, StoredEvent, EventError,
  same_text, later, body_of, is_missing, text_or_empty, shape_invalid, shape_checks, digest_checks,
  add_errors, check_events,
}

pub add_errors-nil :
    (sha : Body → Option String) (errors : List EventError) (r : List EventError × Option String)
    (last : Option String)
    → add_errors sha errors r ≡ ([], last)
    → (errors ≡ []) × (r ≡ ([], last))
add_errors-nil sha [] (more, l) last h = (refl, h)
add_errors-nil sha (e ∷ errors) (more, l) last h = ground arith

pub append-nil : (xs ys : List EventError) → xs ++ ys ≡ [] → (xs ≡ []) × (ys ≡ [])
append-nil [] ys h = (refl, h)
append-nil (x ∷ xs) ys h = ground arith

pub same_text-≡ : (s t : Option String) → same_text s t ≡ true → s ≡ t
same_text-≡ none none h = refl
same_text-≡ (some s) (some t) h = ap some ((eq_iff s t).0 h)
same_text-≡ none (some t) h = ground arith
same_text-≡ (some s) none h = ground arith

pub is_back-≡ : (b : Back) (t : Option String) → is_back b t ≡ true → b ≡ back_of t
is_back-≡ no_digest none h = refl
is_back-≡ (digest_text s) (some t) h = ap digest_text ((eq_iff s t).0 h)
is_back-≡ no_digest (some t) h = ground arith
is_back-≡ (digest_text s) none h = ground arith
is_back-≡ (other_value v) none h = ground arith
is_back-≡ (other_value v) (some t) h = ground arith

pub back_of-injective : (s t : Option String) → back_of s ≡ back_of t → s ≡ t
back_of-injective none none h = refl
back_of-injective (some s) (some t) h = ground (arith, h)
back_of-injective none (some t) h = ground (arith, h)
back_of-injective (some s) none h = ground (arith, h)

-- An event without errors, and the rest of the chain.
pub record Linked (sha : Body → Option String) (n : ℕ) (previous : Option String)
    (kinds : List String) (raw : StoredEvent) (events : List (Option StoredEvent))
    (last : Option String) : Type 0 where
  pub payload : Fields
  pub has_payload : raw.payload ≡ some payload
  pub place : raw.sequence ≡ some n
  pub back : raw.previous_event_digest ≡ back_of previous
  pub hashed : sha (body_of sha n raw payload) ≡ some raw.event_digest
  pub rest : check_events sha (suc n) (some raw.event_digest) (later kinds) events ≡ ([], last)

pub supplied-≡ :
    (supplied : String) (digest : Option String)
    → is_missing digest ≡ false
    → str_eq supplied (text_or_empty digest) ≡ true
    → digest ≡ some supplied
supplied-≡ supplied none h k = ground arith
supplied-≡ supplied (some d) h k = ap some (sym ((eq_iff supplied d).0 k))

module _ (sha : Body → Option String) where
  shape-place :
      (n : ℕ) (kinds : List String) (raw : StoredEvent)
      → shape_checks sha n kinds raw ≡ []
      → raw.sequence ≡ some n
  unfolding shape_checks
  shape-place n kinds raw h = ground arith

  digest-linked :
      (n : ℕ) (previous : Option String) (raw : StoredEvent) (payload : Fields)
      → digest_checks sha n previous raw payload ≡ []
      → (raw.previous_event_digest ≡ back_of previous)
        × (sha (body_of sha n raw payload) ≡ some raw.event_digest)
  unfolding digest_checks
  digest-linked n previous raw payload h = (
    is_back-≡ raw.previous_event_digest previous (ground arith),
    supplied-≡ raw.event_digest (sha (body_of sha n raw payload)) (ground arith) (ground arith),
  )

  -- An event that is skipped has an error.
  skipped-errors :
      (n : ℕ) (errors : List EventError) (r : List EventError × Option String)
      (last : Option String)
      → add_errors sha (errors ++ shape_invalid n ∷ []) r ≡ ([], last)
      → ⊥
  skipped-errors n errors r last h =
      let (all, same) = add_errors-nil sha (errors ++ shape_invalid n ∷ []) r last h in
      let (none_before, none_after) = append-nil errors (shape_invalid n ∷ []) all in
      ground (arith, none_after)

  pub check-Linked :
      (n : ℕ) (previous : Option String) (kinds : List String) (raw : StoredEvent)
      (events : List (Option StoredEvent)) (last : Option String)
      → check_events sha n previous kinds (some raw ∷ events) ≡ ([], last)
      → Linked sha n previous kinds raw events last
  unfolding check_events
  check-Linked n previous kinds raw events last h =
      let skipped = check_events sha (suc n) previous (later kinds) events in
      let after = check_events sha (suc n) (some raw.event_digest) (later kinds) events in
      let shape = shape_checks sha n kinds raw in
      elim (Option-cases raw.payload) [
        | inl lacks ↦ absurd (skipped-errors n shape skipped last (ground (arith, h, lacks)))
        | inr (payload, has) ↦ elim (Bool-cases (is_blank raw.kind)) [
          | inl blank ↦ absurd (skipped-errors n shape skipped last (ground (arith, h, has, blank)))
          | inr fine ↦
              let digests = digest_checks sha n previous raw payload in
              let kept : add_errors sha (shape ++ digests) after ≡ ([], last) =
                ground (arith, h, has, fine) in
              let (all, rest) = add_errors-nil sha (shape ++ digests) after last kept in
              let (shape_fine, digests_fine) = append-nil shape digests all in
              let (back, hashed) = digest-linked n previous raw payload digests_fine in
              record {
                payload = payload;
                has_payload = has;
                place = shape-place n kinds raw shape_fine;
                back = back;
                hashed = hashed;
                rest = rest;
              }
        ]
      ]
