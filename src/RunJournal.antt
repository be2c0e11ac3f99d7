-- ===== src/RunJournal.antt =====
-- The hash chain of replay events in ai_workflow/run_journal.py: `chain_replay_events`, and the loop over
-- the events in `verify_replay_journal`.
pub mod Chain
pub mod Binding
pub mod Journal
pub mod Build
pub mod Built
pub mod Verified
mod ReplayTests
pub mod Sound
pub mod Replay
mod Tests
use ai_workflow_control_plan.Common.{
  ℕ, suc, Bool, true, false, not, ◌||◌, Option, none, some, List, [], ◌∷◌, ◌++◌, String, str_eq,
  ◌==◌, if◌then◌else◌, strip, is_blank, collect, Result, ok, err,
}
use ai_workflow_control_plan.Value.{Value, Fields}

-- An event to record; a payload that is no object is missing.
pub record ReplayEvent : Type 0 where
  pub kind : String
  pub payload : Option Fields

-- What an event has as the digest before it: none, a text, or a value of another type.
pub data Back : Type 0 where
  no_digest : Back
  digest_text : String → Back
  other_value : Value → Back

-- What an event's digest is taken of.
pub record Body : Type 0 where
  pub sequence : ℕ
  pub kind : String
  pub previous_event_digest : Back
  pub payload : Fields

pub record ChainedEvent : Type 0 where
  pub body : Body
  pub event_digest : String

pub data ChainError : Type 0 where
  blank_kind payload_not_object not_json : ChainError

-- An event of a stored journal, as the code reads it: a sequence that equals no natural number and a
-- payload that is no object are `none`, and a kind or a digest is the text that `str` makes of it.
-- `others` has the further entries, which the code accepts and releases.
pub record StoredEvent : Type 0 where
  pub sequence : Option ℕ
  pub kind : String
  pub payload : Option Fields
  pub previous_event_digest : Back
  pub event_digest : String
  pub others : Fields

pub data EventError : Type 0 where
  event_invalid sequence_mismatch kind_mismatch shape_invalid : ℕ → EventError
  previous_digest_mismatch digest_unverifiable digest_mismatch : ℕ → EventError

abbrev pub is_number : Option ℕ → ℕ → Bool
is_number none n = false
is_number (some m) n = m == n

abbrev pub same_text : Option String → Option String → Bool
same_text none none = true
same_text (some s) (some t) = str_eq s t
same_text _ _ = false

abbrev pub back_of : Option String → Back
back_of none = no_digest
back_of (some s) = digest_text s

-- `stored_previous == previous`
abbrev pub is_back : Back → Option String → Bool
is_back no_digest none = true
is_back (digest_text s) (some t) = str_eq s t
is_back _ _ = false

-- The expected kind, past whose end every kind is fine, and the kinds after it.
abbrev pub is_kind : List String → String → Bool
is_kind [] kind = true
is_kind (expected ∷ kinds) kind = str_eq kind expected

abbrev pub later : List String → List String
later [] = []
later (kind ∷ kinds) = kinds

abbrev pub is_missing : Option String → Bool
is_missing none = true
is_missing (some s) = false

-- The text, or an empty one.
abbrev pub text_or_empty : Option String → String
text_or_empty none = ""
text_or_empty (some s) = s

-- `sha` is the digest of a body's canonical JSON text, where it has one; `clone` reads a payload's JSON
-- text back, where it has one.
module _ (sha : Body → Option String) where
  -- One link, once its digest is there, and the links after it.
  unfoldable pub link :
      (String → Result ChainError (List ChainedEvent))
      → Body
      → Result ChainError (List ChainedEvent)
  link rest body = elim (sha body) [
    | none ↦ err not_json
    | some digest ↦ elim (rest digest) [
      | err e ↦ err e
      | ok chained ↦ ok (record { body = body; event_digest = digest } ∷ chained)
    ]
  ]

  -- The loop of `chain_replay_events` from one event on.
  unfoldable pub chain_from :
      (Fields → Option Fields)
      → ℕ
      → Option String
      → List ReplayEvent
      → Result ChainError (List ChainedEvent)
  unfolding link
  chain_from clone sequence previous [] = ok []
  chain_from clone sequence previous (raw ∷ events) =
      let rest : String → Result ChainError (List ChainedEvent) =
        λ digest. chain_from clone (suc sequence) (some digest) events in
      if is_blank raw.kind then err blank_kind else elim raw.payload [
        | none ↦ err payload_not_object
        | some given ↦ elim (clone given) [
          | none ↦ err not_json
          | some payload ↦ link rest (record {
            sequence = sequence;
            kind = strip raw.kind;
            previous_event_digest = back_of previous;
            payload = payload;
          })
        ]
      ]

  unfoldable pub chain_replay_events :
      (Fields → Option Fields) → List ReplayEvent → Result ChainError (List ChainedEvent)
  unfolding chain_from
  chain_replay_events clone events = chain_from clone 0 none events

  abbrev pub body_of : ℕ → StoredEvent → Fields → Body
  body_of sequence raw payload = record {
    sequence = sequence;
    kind = strip raw.kind;
    previous_event_digest = raw.previous_event_digest;
    payload = payload;
  }

  -- The tests on the place and the kind of an event.
  unfoldable pub shape_checks : ℕ → List String → StoredEvent → List EventError
  shape_checks sequence kinds raw = collect (
      (not (is_number raw.sequence sequence), sequence_mismatch sequence)
      ∷ (not (is_kind kinds (strip raw.kind)), kind_mismatch sequence)
      ∷ [])

  -- The tests on the digests of an event.
  unfoldable pub digest_checks : ℕ → Option String → StoredEvent → Fields → List EventError
  digest_checks sequence previous raw payload =
      let expected = sha (body_of sequence raw payload) in
      collect (
        (not (is_back raw.previous_event_digest previous), previous_digest_mismatch sequence)
        ∷ (is_missing expected, digest_unverifiable sequence)
        ∷ (not (str_eq raw.event_digest (text_or_empty expected)), digest_mismatch sequence)
        ∷ [])

  abbrev pub add_errors :
      List EventError → List EventError × Option String → List EventError × Option String
  add_errors errors (more, last) = (errors ++ more, last)

  -- The loop of `verify_replay_journal`: the errors, and the last digest.
  unfoldable pub check_events :
      ℕ → Option String → List String → List (Option StoredEvent) → List EventError × Option String
  check_events sequence previous kinds [] = ([], previous)
  check_events sequence previous kinds (none ∷ events) =
      add_errors (event_invalid sequence ∷ [])
        (check_events (suc sequence) previous (later kinds) events)
  check_events sequence previous kinds (some raw ∷ events) =
      let skipped = check_events (suc sequence) previous (later kinds) events in
      let rest = check_events (suc sequence) (some raw.event_digest) (later kinds) events in
      let shape = shape_checks sequence kinds raw in
      elim raw.payload [
        | none ↦ add_errors (shape ++ shape_invalid sequence ∷ []) skipped
        | some payload ↦
            if is_blank raw.kind
            then add_errors (shape ++ shape_invalid sequence ∷ []) skipped
            else add_errors (shape ++ digest_checks sequence previous raw payload) rest
      ]
