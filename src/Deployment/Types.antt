-- ===== src/Deployment/Types.antt =====
-- The records of ai_workflow/deployment_state.py and ai_workflow/policy_manifest.py. A record stands for
-- a JSON object with its entries parsed; an entry that may be missing or have another type is an
-- `Option`. A traffic fraction is a number of `unit`s of 10^-15, in which the code's constants and its
-- tolerance of 10^-12 are whole.
use ai_workflow_control_plan.Common.{
  ℕ, ◌*◌, Bool, true, false, Option, none, some, List, [], ◌∷◌, String, str_eq, if◌then◌else◌,
}
use ai_workflow_control_plan.Value.{Fields}

-- `DEPLOYMENT_STAGES`, and any other text.
pub data Stage : Type 0 where
  approved canary_1 canary_5 canary_10 bounded rolled_back : Stage
  unknown : String → Stage

-- The stage of a text.
unfoldable pub stage_of : String → Stage
stage_of s =
    if str_eq s "approved"
    then approved
    else if str_eq s "canary_1"
    then canary_1
    else if str_eq s "canary_5"
    then canary_5
    else if str_eq s "canary_10"
    then canary_10
    else if str_eq s "bounded"
    then bounded
    else if str_eq s "rolled_back"
    then rolled_back
    else unknown s

-- `LIVE_STAGES`
abbrev pub is_live : Stage → Bool
is_live canary_1 = true
is_live canary_5 = true
is_live canary_10 = true
is_live bounded = true
is_live _ = false

-- `stage in DEPLOYMENT_STAGES`
abbrev pub is_known : Stage → Bool
is_known (unknown s) = false
is_known _ = true

abbrev pub is_rolled_back : Stage → Bool
is_rolled_back rolled_back = true
is_rolled_back _ = false

-- `NEXT_STAGE`
abbrev pub next_stage : Stage → Option Stage
next_stage approved = some canary_1
next_stage canary_1 = some canary_5
next_stage canary_5 = some canary_10
next_stage canary_10 = some bounded
next_stage _ = none

-- One percent, in units of 10^-15.
abbrev pub percent : ℕ
percent = 10000000000000

-- The tolerance of 10^-12.
abbrev pub tolerance : ℕ
tolerance = 1000

-- `STAGE_TRAFFIC`, and `_traffic_for_stage` with the bounded fraction's default of a quarter.
abbrev pub traffic_for_stage : Option ℕ → Stage → ℕ
traffic_for_stage none bounded = 25 * percent
traffic_for_stage (some fraction) bounded = fraction
traffic_for_stage fraction canary_1 = percent
traffic_for_stage fraction canary_5 = 5 * percent
traffic_for_stage fraction canary_10 = 10 * percent
traffic_for_stage fraction _ = 0

abbrev pub baseline_arm : String
baseline_arm = "adaptive_math"

-- `SAFE_EXPLORATION_ARMS`
abbrev pub safe_exploration_arms : List String
safe_exploration_arms =
    baseline_arm ∷ "source_rank" ∷ "bm25_rank" ∷ "rrf_only" ∷ "rrf_mmr_050" ∷ "rrf_mmr_075"
    ∷ "rrf_mmr_090" ∷ []

pub record Signature : Type 0 where
  pub algorithm : String
  pub key_id : String
  pub value : String

-- A policy manifest without its signature. `others` has the entries that nothing here reads: the time, the
-- models, the evidence and the provenance.
pub record ManifestBody : Type 0 where
  pub schema_version : String
  pub policy_id : String
  pub status : String
  pub automatic_runtime_activation : Bool
  pub feature_schema_version : String
  pub context_fields : Option (List String)
  pub policy : Option (List (String × String))
  pub fallback_arm : String
  pub locked_risks : List String
  pub evidence_cutoff : String
  pub source_report_sha256 : String
  pub rollback_target : Option String
  pub others : Fields

pub record Manifest : Type 0 where
  pub body : ManifestBody
  pub signature : Option Signature

-- What a policy's identity is the hash of.
pub record Identity : Type 0 where
  pub feature_schema_version : String
  pub context_fields : List String
  pub policy : List (String × String)
  pub evidence_cutoff : String
  pub source_report_sha256 : String

-- The `rollback` entry of a deployment state.
pub record Rollback : Type 0 where
  pub target_arm : String
  pub automatic : Bool
  pub reason : Option String
  pub rolled_back_at : Option String

-- One entry of `history`. Its first `from` is "shadow".
pub record HistoryEntry : Type 0 where
  pub generation : ℕ
  pub from_stage : Stage
  pub to_stage : Stage
  pub actor : String
  pub at : String
  pub evidence_sha256 : Option String
  pub reason : String

-- A deployment state without its signature. `settings` stands for the entries that no operation here
-- changes: the approval, the shadow report, the guardrails and the baseline distribution.
pub record StateBody : Type 0 where
  pub schema_version : String
  pub policy_id : String
  pub stage : Stage
  pub traffic_fraction : Option ℕ
  pub bounded_traffic_fraction : Option ℕ
  pub generation : Option ℕ
  pub updated_at : String
  pub automatic_runtime_activation : Bool
  pub policy_manifest : Option Manifest
  pub settings : List (String × String)
  pub rollback : Option Rollback
  pub history : List HistoryEntry

pub record State : Type 0 where
  pub body : StateBody
  pub signature : Option Signature

-- The part of a guardrail report that a promotion reads; no `gate` is `none`.
pub record GuardrailReport : Type 0 where
  pub policy_id : String
  pub state_generation : Option ℕ
  pub stage : Stage
  pub safe_to_advance : Option Bool
  pub details : String

-- The hash functions of the standard library, each over the canonical JSON text of its argument:
-- HMAC-SHA256 with a key, the first digits of the key's own hash, and SHA-256.
pub record Hashes : Type 0 where
  pub mac_state : String → StateBody → String
  pub mac_manifest : String → ManifestBody → String
  pub key_id : String → String
  pub policy_id : Identity → String
  pub report_sha256 : GuardrailReport → String
