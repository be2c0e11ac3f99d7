-- ===== src/Selection/Tests.antt =====
-- A run of ai_workflow/context_selection.py on three candidates, with differences of natural numbers for the
-- floating point ones.
use ai_workflow_control_plan.Common.{
  ℕ, ◌+◌, ◌*◌, ◌≤◌, ◌≡◌, refl, Bool, true, false, none, some, List, [], ◌∷◌, String, ltb, arith,
  if◌then◌else◌, contains,
}
use ai_workflow_control_plan.Guardrails.{Numbers}
use ai_workflow_control_plan.Selection.{
  Candidate, Selection, Limits, fits, has_key, add_mandatory, remaining, total_cost,
}
use ai_workflow_control_plan.Selection.Scores.{
  common, jaccard, gain_from, apply, apply_all, is_smaller, push,
}
use ai_workflow_control_plan.Selection.Modes.{
  first_heap, drain, zeros, is_tight, drain_all, select_rows, dedupe, bounded_rows, select_context,
}
use ai_workflow_control_plan.Selection.Budget.{Sound}
use ai_workflow_control_plan.Selection.Distinct.{select_context_once}
use ai_workflow_control_plan.Selection.Keys.{key_count}
use ai_workflow_control_plan.Selection.Result.{select_context-Sound, select_context_returns}

-- The difference of two numbers.
abbrev Difference : Type 0
Difference = ℕ × ℕ

abbrev negated : Difference → Difference
negated (a, b) = (b, a)

abbrev is_less : Difference → Difference → Bool
is_less (a, b) (c, d) = ltb (a + d) (c + b)

abbrev sum : Difference → Difference → Difference
sum (a, b) (c, d) = (a + c, b + d)

abbrev product : Difference → Difference → Difference
product (a, b) (c, d) = (a * c + b * d, a * d + b * c)

abbrev num : Numbers Difference
num = record {
  zero = (0, 0);
  one = (1, 0);
  less = is_less;
  add = sum;
  sub = λ a b. sum a (negated b);
  mul = product;
  div = λ a b. a;
  neg = negated;
  abs = λ a. if is_less a (0, 0) then negated a else a;
  sqrt = λ a. a;
  log = λ a. a;
  is_finite = λ a. true;
  round_6 = λ a. a;
  of_count = λ n. (n, 0);
  tiny = (1, 0);
  allocated_alpha = λ n. (n, 0);
}

settled : (x : Difference) → num.less num.tiny (num.abs (num.add x (num.neg x))) ≡ false
settled (a, b) = ground arith

abbrev candidate : String → ℕ → List String → Candidate Difference
candidate key relevance tokens = record {
  key = key;
  source = "bm25";
  relevance = (relevance, 0);
  tokens = tokens;
  char_cost = 4;
  token_cost = 1;
}

abbrev first : Candidate Difference
first = candidate "a" 2 ("x" ∷ "y" ∷ [])

abbrev alike : Candidate Difference
alike = candidate "b" 1 ("x" ∷ "y" ∷ [])

abbrev other : Candidate Difference
other = candidate "c" 1 ("z" ∷ [])

abbrev limits : Limits
limits = record { char_limit = 10; token_limit = none }

abbrev chosen : Selection Difference
chosen = record { selected = other ∷ first ∷ []; used_chars = 8; used_tokens = 2 }

-- The text that is like the first one is left out, and so is the repeated one.
is_chosen :
    select_context num limits 200 [] (0, 0) (alike ∷ other ∷ first ∷ other ∷ []) ≡ some chosen
unfolding select_context select_rows drain_all drain first_heap push is_smaller apply_all apply
    gain_from jaccard common remaining has_key add_mandatory fits zeros is_tight total_cost
    bounded_rows dedupe contains
is_chosen = refl

select_context-Sound_example : Sound limits chosen
select_context-Sound_example =
    select_context-Sound num limits 200 [] (0, 0) (alike ∷ other ∷ first ∷ other ∷ []) chosen
      is_chosen

select_context_returns_example :
    (end : Selection Difference) × (select_context num limits 200 []
        (0, 0)
        (alike ∷ other ∷ first ∷ other ∷ [])
      ≡ some end)
select_context_returns_example =
    select_context_returns num limits 200 [] (0, 0) (alike ∷ other ∷ first ∷ other ∷ []) settled

select_context_once_example : key_count "c" chosen.selected ≤ 1
select_context_once_example =
    select_context_once num "c" limits 200 [] (0, 0) (alike ∷ other ∷ first ∷ other ∷ []) chosen
      is_chosen
