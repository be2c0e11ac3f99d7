-- ===== src/Selection.antt =====
-- The candidates of ai_workflow/context_selection.py, what is selected of them, and what fits the budgets.
pub mod Budget
pub mod Distinct
pub mod Heap
pub mod Keys
pub mod Modes
pub mod Result
pub mod Scores
mod Tests
use Prim.Native.String.{compare}
use Prim.Native.Nat.{lt, eq, gt, compare as compare_ℕ}
use ai_workflow_control_plan.Common.{
  ℕ, zero, suc, ◌+◌, ◌*◌, ◌-◌, max, Bool, true, false, not, ◌&&◌, ◌||◌, Option, none, some, List,
  [], ◌∷◌, ◌++◌, String, str_eq, ltb, leb, ◌==◌, if◌then◌else◌, length, take, contains,
}
use ai_workflow_control_plan.Guardrails.{Numbers}

-- `_Candidate`, with the key and the source of its item. A cost is at least one.
pub record Candidate (F : Type 0) : Type 0 where
  pub key : String
  pub source : String
  pub relevance : F
  pub tokens : List String
  pub char_cost : ℕ
  pub token_cost : ℕ

-- What is selected, the last first, and what it costs.
pub record Selection (F : Type 0) : Type 0 where
  pub selected : List (Candidate F)
  pub used_chars : ℕ
  pub used_tokens : ℕ

-- The budgets; without a token budget it is `none`.
pub record Limits : Type 0 where
  pub char_limit : ℕ
  pub token_limit : Option ℕ

-- An entry of the heap: the negated score, the epoch it is of, and the candidate.
pub record Entry (F : Type 0) : Type 0 where
  pub bound : F
  pub epoch : ℕ
  pub candidate : Candidate F

abbrev pub nothing : {F : Type 0} → Selection F
nothing = record { selected = []; used_chars = 0; used_tokens = 0 }

abbrev pub within : ℕ → Option ℕ → Bool
within n none = true
within n (some limit) = leb n limit

module _ {F : Type 0} where
  unfoldable pub fits : Limits → Selection F → Candidate F → Bool
  fits l s c =
      leb (s.used_chars + c.char_cost) l.char_limit
      && within (s.used_tokens + c.token_cost) l.token_limit

  abbrev pub add : Selection F → Candidate F → Selection F
  add s c = record {
    selected = c ∷ s.selected;
    used_chars = s.used_chars + c.char_cost;
    used_tokens = s.used_tokens + c.token_cost;
  }

  -- `candidate.item.dedupe_key in selected_keys`
  unfoldable pub has_key : String → List (Candidate F) → Bool
  has_key key [] = false
  has_key key (c ∷ cs) = str_eq c.key key || has_key key cs

  -- One round of the loop over the mandatory sources.
  unfoldable pub add_mandatory_row : Limits → List String → Selection F → Candidate F → Selection F
  unfolding fits has_key
  add_mandatory_row l mandatory s c =
      if not (contains mandatory c.source) || (has_key c.key s.selected || not (fits l s c))
      then s
      else add s c

  unfoldable pub add_mandatory :
      Limits → List String → Selection F → List (Candidate F) → Selection F
  unfolding add_mandatory_row
  add_mandatory l mandatory s [] = s
  add_mandatory l mandatory s (c ∷ cs) =
      add_mandatory l mandatory (add_mandatory_row l mandatory s c) cs

  -- `remaining_rows`
  unfoldable pub remaining : List (Candidate F) → List (Candidate F) → List (Candidate F)
  unfolding has_key
  remaining selected [] = []
  remaining selected (c ∷ cs) =
      let rest = remaining selected cs in if has_key c.key selected then rest else c ∷ rest

  abbrev pub active_cost : Limits → Candidate F → ℕ
  active_cost l c = elim l.token_limit [ none ↦ c.char_cost | some n ↦ c.token_cost ]

  unfoldable pub total_cost : Limits → List (Candidate F) → ℕ
  total_cost l [] = 0
  total_cost l (c ∷ cs) = active_cost l c + total_cost l cs

  -- The loop of the relevance mode, over the sorted rows.
  unfoldable pub add_fitting : Limits → Selection F → List (Candidate F) → Selection F
  unfolding fits
  add_fitting l s [] = s
  add_fitting l s (c ∷ cs) = add_fitting l (if fits l s c then add s c else s) cs

-- The rows in the order in which they were selected.
abbrev pub reverse_onto :
    {F : Type 0} → List (Candidate F) → List (Candidate F) → List (Candidate F)
reverse_onto [] out = out
reverse_onto (c ∷ cs) out = reverse_onto cs (c ∷ out)
