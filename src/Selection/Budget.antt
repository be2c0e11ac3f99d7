-- ===== src/Selection/Budget.antt =====
-- About the budgets and the counted costs of the selection of ai_workflow/context_selection.py.
use ai_workflow_control_plan.Common.{
  ℕ, zero, suc, ◌+◌, ◌≤◌, ◌≡◌, refl, ap, subst, inl, inr, true, not, ◌||◌, Option, none, some, List,
  [], ◌∷◌, String, arith, contains, Bool-cases,
}
use ai_workflow_control_plan.Guardrails.{Numbers}
use ai_workflow_control_plan.Selection.{
  Candidate, Selection, Limits, Entry, within, nothing, fits, add, has_key, add_mandatory_row,
  add_mandatory, add_fitting,
}
use ai_workflow_control_plan.Selection.Scores.{apply, push}
use ai_workflow_control_plan.Selection.Modes.{score, is_stale, drain}

-- At most the limit, where there is one.
abbrev pub AtMost : ℕ → Option ℕ → Type 0
AtMost n none = Unit
AtMost n (some limit) = n ≤ limit

within-AtMost : (n : ℕ) (limit : Option ℕ) → within n limit ≡ true → AtMost n limit
within-AtMost n none h = tt
within-AtMost n (some limit) h = ground (arith, h)

module _ {F : Type 0} where
  abbrev pub chars_of : List (Candidate F) → ℕ
  chars_of [] = 0
  chars_of (c ∷ cs) = chars_of cs + c.char_cost

  abbrev pub tokens_of : List (Candidate F) → ℕ
  tokens_of [] = 0
  tokens_of (c ∷ cs) = tokens_of cs + c.token_cost

  -- The costs are those of what is selected, and within the budgets.
  pub record Sound (l : Limits) (s : Selection F) : Type 0 where
    pub chars : s.used_chars ≡ chars_of s.selected
    pub tokens : s.used_tokens ≡ tokens_of s.selected
    pub chars_within : s.used_chars ≤ l.char_limit
    pub tokens_within : AtMost s.used_tokens l.token_limit

  pub nothing-Sound : (l : Limits) → Sound l nothing
  nothing-Sound l = record {
    chars = refl;
    tokens = refl;
    chars_within = omega arith;
    tokens_within = AtMost-zero l.token_limit;
  }
    where
      AtMost-zero : (limit : Option ℕ) → AtMost 0 limit
      AtMost-zero none = tt
      AtMost-zero (some limit) = omega arith

  add-Sound :
      (l : Limits) (s : Selection F) (c : Candidate F)
      → fits l s c ≡ true
      → Sound l s
      → Sound l (add s c)
  unfolding fits
  add-Sound l s c h sound = record {
    chars = ap (λ (n : ℕ). n + c.char_cost) sound.chars;
    tokens = ap (λ (n : ℕ). n + c.token_cost) sound.tokens;
    chars_within = ground (arith, h);
    tokens_within = within-AtMost (s.used_tokens + c.token_cost) l.token_limit (ground (arith, h));
  }

  add_mandatory_row-Sound :
      (l : Limits) (mandatory : List String) (s : Selection F) (c : Candidate F)
      → Sound l s
      → Sound l (add_mandatory_row l mandatory s c)
  unfolding add_mandatory_row
  add_mandatory_row-Sound l mandatory s c sound =
      elim (Bool-cases
        (not (contains mandatory c.source) || (has_key c.key s.selected || not (fits l s c)))) [
          | inl e ↦ rw e sound
          | inr e ↦ rw e (add-Sound l s c (ground (arith, e)) sound)
        ]

  pub add_mandatory-Sound :
      (l : Limits) (mandatory : List String) (s : Selection F) (cs : List (Candidate F))
      → Sound l s
      → Sound l (add_mandatory l mandatory s cs)
  unfolding add_mandatory
  add_mandatory-Sound l mandatory s [] sound = sound
  add_mandatory-Sound l mandatory s (c ∷ cs) sound =
      add_mandatory-Sound l mandatory (add_mandatory_row l mandatory s c) cs
        (add_mandatory_row-Sound l mandatory s c sound)

  pub add_fitting-Sound :
      (l : Limits) (s : Selection F) (cs : List (Candidate F))
      → Sound l s
      → Sound l (add_fitting l s cs)
  unfolding add_fitting
  add_fitting-Sound l s [] sound = sound
  add_fitting-Sound l s (c ∷ cs) sound = elim (Bool-cases (fits l s c)) [
    | inl e ↦ rw (e, add_fitting) (add_fitting-Sound l (add s c) cs (add-Sound l s c e sound))
    | inr e ↦ rw (e, add_fitting) (add_fitting-Sound l s cs sound)
  ]

pub some-injective : {F : Type 0} (a b : Selection F) → some a ≡ some b → a ≡ b
some-injective a b p = cc

module _ {F : Type 0} (num : Numbers F) (l : Limits) (rows : List (Candidate F)) where
  pub drain-Sound :
      (fuel epoch : ℕ) (coverage : List F) (s end : Selection F) (heap : List (Entry F))
      → drain num l rows fuel epoch coverage s heap ≡ some end
      → Sound l s
      → Sound l end
  unfolding drain
  drain-Sound zero epoch coverage s end heap h sound = ground (arith, h)
  drain-Sound (suc fuel) epoch coverage s end [] h sound =
      subst (Sound l) (some-injective s end h) sound
  drain-Sound (suc fuel) epoch coverage s end (e ∷ heap) h sound =
      elim (Bool-cases (not (fits l s e.candidate))) [
        | inl misses ↦ drain-Sound fuel epoch coverage s end heap (ground (arith, h, misses)) sound
        | inr fitting ↦
            let current = score num l rows coverage e.candidate in
            elim (Bool-cases (is_stale num l rows epoch current e)) [
              | inl stale ↦
                  drain-Sound fuel epoch coverage s end
                    (push num
                      (record { bound = num.neg current; epoch = epoch; candidate = e.candidate })
                      heap)
                    (ground (arith, h, fitting, stale)) sound
              | inr fresh ↦ elim (Bool-cases (not (num.less num.zero current))) [
                | inl done ↦
                    subst (Sound l) (some-injective s end (ground (arith, h, fitting, fresh, done)))
                      sound
                | inr more ↦
                    drain-Sound fuel (suc epoch) (apply num e.candidate rows coverage)
                      (add s e.candidate) end heap (ground (arith, h, fitting, fresh, more))
                      (add-Sound l s e.candidate (ground (arith, fitting)) sound)
              ]
            ]
      ]
