-- ===== src/RunJournal/Built.antt =====
-- The chain of events of a journal that ai_workflow/run_journal.py builds, before its own checks.
use ai_workflow_control_plan.Common.{
  ℕ, suc, ◌≡◌, refl, sym, ap, ◌∙◌, inl, inr, true, false, Option, none, some, List, [], ◌∷◌, map,
  String, eq_iff, eq_refl, arith, strip, is_blank, length, All, Result, ok, Result-cases,
  Bool-cases, Option-cases,
}
use ai_workflow_control_plan.Value.{Fields, end}
use ai_workflow_control_plan.RunJournal.{
  ReplayEvent, Body, ChainedEvent, ChainError, StoredEvent, EventError, same_text, back_of, is_back,
  body_of, link, chain_from, shape_checks, digest_checks, add_errors, check_events,
}
use ai_workflow_control_plan.RunJournal.Build.{stored, kinds_match}

-- A kind that has nothing to strip.
abbrev pub Fine : String → Type 0
Fine kind = (strip kind ≡ kind) × (is_blank kind ≡ false)

-- The digest at the end of a chain that follows one.
abbrev pub last_of : Option String → List ChainedEvent → Option String
last_of previous [] = previous
last_of previous (c ∷ chained) = last_of (some c.event_digest) chained

pub same_text_refl : (s : Option String) → same_text s s ≡ true
same_text_refl none = refl
same_text_refl (some s) = eq_refl s

is_back_refl : (s : Option String) → is_back (back_of s) s ≡ true
is_back_refl none = refl
is_back_refl (some s) = eq_refl s

abbrev body_at : ℕ → Option String → String → Fields → Body
body_at n previous kind payload = record {
  sequence = n;
  kind = kind;
  previous_event_digest = back_of previous;
  payload = payload;
}

-- The first link of a chain, and the chain after it.
record Link (sha : Body → Option String) (clone : Fields → Option Fields) (n : ℕ)
    (previous : Option String) (raw : ReplayEvent) (events : List ReplayEvent)
    (chained : List ChainedEvent) : Type 0 where
  payload : Fields
  digest : String
  more : List ChainedEvent
  hashed : sha (body_at n previous (strip raw.kind) payload) ≡ some digest
  rest : chain_from sha clone (suc n) (some digest) events ≡ ok more
  first :
      chained
      ≡ record { body = body_at n previous (strip raw.kind) payload; event_digest = digest } ∷ more

module _ (sha : Body → Option String) where
  link-ok :
      (rest : String → Result ChainError (List ChainedEvent)) (body : Body)
      (chained : List ChainedEvent)
      → link sha rest body ≡ ok chained
      → (digest : String) × (more : List ChainedEvent) × (sha body ≡ some digest)
        × (rest digest ≡ ok more)
        × (chained ≡ record { body = body; event_digest = digest } ∷ more)
  unfolding link
  link-ok rest body chained h = elim (Option-cases (sha body)) [
    | inl lacks ↦ ground (arith, h, lacks)
    | inr (digest, hashed) ↦ elim (Result-cases (rest digest)) [
      | inl (more, ran) ↦ (digest, more, hashed, ran, ground (arith, h, hashed, ran))
      | inr (e, failed) ↦ ground (arith, h, hashed, failed)
    ]
  ]

  add_errors-none : (r : List EventError × Option String) → add_errors sha [] r ≡ r
  add_errors-none (more, last) = refl

  shape_checks-none :
      (n : ℕ) (k : String) (kinds : List String) (raw : StoredEvent)
      → strip raw.kind ≡ k
      → raw.sequence ≡ some n
      → shape_checks sha n (k ∷ kinds) raw ≡ []
  unfolding shape_checks
  shape_checks-none n k kinds raw named place = ground (arith, named, place, eq_refl k)

  digest_checks-none :
      (n : ℕ) (previous : Option String) (raw : StoredEvent) (payload : Fields)
      → raw.previous_event_digest ≡ back_of previous
      → sha (body_of sha n raw payload) ≡ some raw.event_digest
      → digest_checks sha n previous raw payload ≡ []
  unfolding digest_checks
  digest_checks-none n previous raw payload back hashed =
      ground (arith, is_back_refl previous, back, hashed, eq_refl raw.event_digest)

  -- A stored event of a kind with nothing to strip passes the checks.
  checked-cons :
      (n : ℕ) (previous : Option String) (k : String) (payload : Fields) (kinds : List String)
      (digest : String) (events : List (Option StoredEvent))
      → Fine k
      → sha (body_at n previous k payload) ≡ some digest
      → check_events sha n previous
          (k ∷ kinds)
          (stored (record { body = body_at n previous k payload; event_digest = digest }) ∷ events)
        ≡ check_events sha (suc n) (some digest) kinds events
  unfolding check_events
  checked-cons n previous k payload kinds digest events fine hashed =
      let raw : StoredEvent = record {
        sequence = some n;
        kind = k;
        payload = some payload;
        previous_event_digest = back_of previous;
        event_digest = digest;
        others = end;
      } in
      let same_hash = ap (λ (x : String). sha (body_at n previous x payload)) fine.0 ∙ hashed in
      let shape = shape_checks-none n k kinds raw fine.0 refl in
      let digests = digest_checks-none n previous raw payload refl same_hash in
      rw (fine.1, shape, digests)
        (add_errors-none (check_events sha (suc n) (some digest) kinds events))

  module _ (clone : Fields → Option Fields) where
    chain_from-Link :
        (n : ℕ) (previous : Option String) (raw : ReplayEvent) (events : List ReplayEvent)
        (chained : List ChainedEvent)
        → chain_from sha clone n previous (raw ∷ events) ≡ ok chained
        → Link sha clone n previous raw events chained
    unfolding chain_from
    chain_from-Link n previous raw events chained h = elim (Bool-cases (is_blank raw.kind)) [
      | inl blank ↦ ground (arith, h, blank)
      | inr fine ↦ elim (Option-cases raw.payload) [
        | inl lacks ↦ ground (arith, h, fine, lacks)
        | inr (given, has) ↦ elim (Option-cases (clone given)) [
          | inl lost ↦ ground (arith, h, fine, has, lost)
          | inr (payload, cloned) ↦
              let body = body_at n previous (strip raw.kind) payload in
              let after = λ (digest : String). chain_from sha clone (suc n) (some digest) events in
              let linked : link sha after body ≡ ok chained =
                ground (arith, h, fine, has, cloned) in
              let (digest, more, hashed, rest, first) = link-ok after body chained linked in
              record {
                payload = payload;
                digest = digest;
                more = more;
                hashed = hashed;
                rest = rest;
                first = first;
              }
        ]
      ]
    ]

    -- What is stored of a chain passes the checks on events, and ends in its last digest.
    pub chain_from-checked :
        (n : ℕ) (previous : Option String) (kinds : List String) (events : List ReplayEvent)
        (chained : List ChainedEvent)
        → All Fine kinds
        → kinds_match events kinds ≡ true
        → chain_from sha clone n previous events ≡ ok chained
        → (check_events sha n previous kinds (map stored chained) ≡ ([], last_of previous chained))
          × (length chained ≡ length kinds)
    unfolding chain_from kinds_match check_events
    chain_from-checked n previous [] [] chained fine same h = ground (arith, h)
    chain_from-checked n previous (kind ∷ kinds) [] chained fine same h = ground arith
    chain_from-checked n previous [] (raw ∷ events) chained fine same h = ground arith
    chain_from-checked n previous (kind ∷ kinds) (raw ∷ events) chained fine same h =
        let l = chain_from-Link n previous raw events chained h in
        let named : strip raw.kind ≡ kind = (eq_iff (strip raw.kind) kind).0 (ground arith) in
        let (checked, count) =
          chain_from-checked (suc n) (some l.digest) kinds events l.more fine.1 (ground arith)
            l.rest in
        let hashed =
          ap (λ (x : String). sha (body_at n previous x l.payload)) (sym named) ∙ l.hashed in
        let step =
          checked-cons n previous kind l.payload kinds l.digest (map stored l.more) fine.0 hashed in
        let first =
          l.first
          ∙ ap
              (λ (x : String).
                record { body = body_at n previous x l.payload; event_digest = l.digest } ∷ l.more)
              named in
        rw first (step ∙ checked, ap suc count)
