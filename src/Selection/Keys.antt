-- ===== src/Selection/Keys.antt =====
-- How often a key stands in the lists of candidates of ai_workflow/context_selection.py.
use ai_workflow_control_plan.Common.{
  ℕ, zero, suc, ◌+◌, ◌≤◌, ◌≡◌, refl, subst, inl, inr, true, false, not, ◌||◌, List, [], ◌∷◌, ◌++◌,
  String, str_eq, arith, if◌then◌else◌, contains, take, eq_iff, Bool-cases,
}
use ai_workflow_control_plan.Guardrails.{Numbers}
use ai_workflow_control_plan.Selection.{
  Candidate, Selection, Limits, Entry, fits, add, has_key, add_mandatory_row, add_mandatory,
  remaining, add_fitting,
}
use ai_workflow_control_plan.Selection.Scores.{goes_before, put_ranked, ranked, is_smaller, push}
use ai_workflow_control_plan.Selection.Modes.{dedupe, mandatory_rows}

module _ {F : Type 0} where
  abbrev pub key_count : String → List (Candidate F) → ℕ
  key_count key [] = 0
  key_count key (c ∷ cs) = (if str_eq c.key key then 1 else 0) + key_count key cs

  abbrev pub held_by : List (Entry F) → List (Candidate F)
  held_by [] = []
  held_by (e ∷ heap) = e.candidate ∷ held_by heap

  pub key_count_of_absent :
      (key : String) (cs : List (Candidate F)) → has_key key cs ≡ false → key_count key cs ≡ 0
  unfolding has_key
  key_count_of_absent key [] h = refl
  key_count_of_absent key (c ∷ cs) h = ground (arith, h, key_count_of_absent key cs)

  pub key_count-++ :
      (key : String) (cs ds : List (Candidate F))
      → key_count key (cs ++ ds) ≡ key_count key cs + key_count key ds
  key_count-++ key [] ds = omega arith
  key_count-++ key (c ∷ cs) ds = let rest = key_count-++ key cs ds in omega (arith, rest)

  pub key_count-take :
      (key : String) (n : ℕ) (cs : List (Candidate F))
      → key_count key (take n cs) ≤ key_count key cs
  key_count-take key zero cs = omega arith
  key_count-take key (suc n) [] = omega arith
  key_count-take key (suc n) (c ∷ cs) = let rest = key_count-take key n cs in omega (arith, rest)

  key_count-remaining :
      (key : String) (selected cs : List (Candidate F))
      → key_count key (remaining selected cs) ≤ key_count key cs
  unfolding remaining
  key_count-remaining key selected [] = omega arith
  key_count-remaining key selected (c ∷ cs) =
      let rest = key_count-remaining key selected cs in ground (arith, rest)

  remaining_absent :
      (key : String) (selected cs : List (Candidate F))
      → has_key key selected ≡ true
      → key_count key (remaining selected cs) ≡ 0
  unfolding remaining
  remaining_absent key selected [] h = refl
  remaining_absent key selected (c ∷ cs) h =
      let rest = remaining_absent key selected cs h in ground (arith, rest, h, eq_iff c.key key)

  -- What remains has no key twice either, with what is selected.
  pub remaining_apart :
      (key : String) (selected cs : List (Candidate F))
      → key_count key selected ≤ 1
      → key_count key cs ≤ 1
      → key_count key selected + key_count key (remaining selected cs) ≤ 1
  remaining_apart key selected cs h k = elim (Bool-cases (has_key key selected)) [
    | inl e ↦ let none_left = remaining_absent key selected cs e in omega (arith, h, none_left)
    | inr e ↦
        let fresh = key_count_of_absent key selected e in
        let fewer = key_count-remaining key selected cs in omega (arith, k, fresh, fewer)
  ]

  -- A candidate whose key is not there yet comes to a list without repetitions.
  added :
      (key : String) (c : Candidate F) (cs : List (Candidate F))
      → key_count key cs ≤ 1
      → key_count c.key cs ≡ 0
      → key_count key (c ∷ cs) ≤ 1
  added key c cs h fresh = elim (Bool-cases (str_eq c.key key)) [
    | inl e ↦
        let same = subst (λ (k : String). key_count k cs ≡ 0) ((eq_iff c.key key).0 e) fresh in
        ground (arith, e, same)
    | inr e ↦ ground (arith, e, h)
  ]

  key_count-add_mandatory_row :
      (key : String) (l : Limits) (mandatory : List String) (s : Selection F) (c : Candidate F)
      → key_count key s.selected ≤ 1
      → key_count key (add_mandatory_row l mandatory s c).selected ≤ 1
  unfolding add_mandatory_row
  key_count-add_mandatory_row key l mandatory s c h =
      elim (Bool-cases
        (not (contains mandatory c.source) || (has_key c.key s.selected || not (fits l s c)))) [
          | inl e ↦ rw e h
          | inr e ↦
              let fresh = key_count_of_absent c.key s.selected (ground (arith, e)) in
              rw e (added key c s.selected h fresh)
        ]

  pub key_count-add_mandatory :
      (key : String) (l : Limits) (mandatory : List String) (s : Selection F)
      (cs : List (Candidate F))
      → key_count key s.selected ≤ 1
      → key_count key (add_mandatory l mandatory s cs).selected ≤ 1
  unfolding add_mandatory
  key_count-add_mandatory key l mandatory s [] h = h
  key_count-add_mandatory key l mandatory s (c ∷ cs) h =
      key_count-add_mandatory key l mandatory (add_mandatory_row l mandatory s c) cs
        (key_count-add_mandatory_row key l mandatory s c h)

  pub key_count-add_fitting :
      (key : String) (l : Limits) (s : Selection F) (cs : List (Candidate F))
      → key_count key (add_fitting l s cs).selected ≤ key_count key s.selected + key_count key cs
  unfolding add_fitting
  key_count-add_fitting key l s [] = omega arith
  key_count-add_fitting key l s (c ∷ cs) = elim (Bool-cases (fits l s c)) [
    | inl e ↦
        let rest = key_count-add_fitting key l (add s c) cs in
        rw (e, add_fitting) (omega (arith, rest))
    | inr e ↦
        let rest = key_count-add_fitting key l s cs in rw (e, add_fitting) (omega (arith, rest))
  ]

module _ {F : Type 0} (num : Numbers F) where
  pub key_count-mandatory_rows :
      (key : String) (mandatory : List String) (cs : List (Candidate F))
      → key_count key (mandatory_rows num mandatory cs) ≤ key_count key cs
  unfolding mandatory_rows
  key_count-mandatory_rows key mandatory [] = omega arith
  key_count-mandatory_rows key mandatory (c ∷ cs) =
      let rest = key_count-mandatory_rows key mandatory cs in ground (arith, rest)

  key_count-put_ranked :
      (key : String) (l : Limits) (c : Candidate F) (cs : List (Candidate F))
      → key_count key (put_ranked num l c cs) ≡ key_count key (c ∷ cs)
  unfolding put_ranked
  key_count-put_ranked key l c [] = refl
  key_count-put_ranked key l c (d ∷ cs) = elim (Bool-cases (goes_before num l c d)) [
    | inl e ↦ rw (e, put_ranked) refl
    | inr e ↦ let rest = key_count-put_ranked key l c cs in rw (e, put_ranked) (omega (arith, rest))
  ]

  pub key_count-ranked :
      (key : String) (l : Limits) (cs : List (Candidate F))
      → key_count key (ranked num l cs) ≡ key_count key cs
  unfolding ranked
  key_count-ranked key l [] = refl
  key_count-ranked key l (c ∷ cs) =
      let put = key_count-put_ranked key l c (ranked num l cs) in
      let rest = key_count-ranked key l cs in omega (arith, put, rest)

  dedupe_seen :
      (key : String) (seen : List String) (cs : List (Candidate F))
      → contains seen key ≡ true
      → key_count key (dedupe num seen cs) ≡ 0
  unfolding dedupe contains
  dedupe_seen key seen [] h = refl
  dedupe_seen key seen (c ∷ cs) h =
      let same = dedupe_seen key seen cs h in
      let rest = dedupe_seen key (c.key ∷ seen) cs (ground (arith, h)) in
      ground (arith, same, rest, h, eq_iff c.key key)

  pub key_count-dedupe :
      (key : String) (seen : List String) (cs : List (Candidate F))
      → key_count key (dedupe num seen cs) ≤ 1
  unfolding dedupe contains
  key_count-dedupe key seen [] = omega arith
  key_count-dedupe key seen (c ∷ cs) = elim (Bool-cases (str_eq c.key key)) [
    | inl e ↦
        let same = key_count-dedupe key seen cs in
        let gone = dedupe_seen key (c.key ∷ seen) cs (ground (arith, e)) in
        ground (arith, same, gone)
    | inr e ↦
        let same = key_count-dedupe key seen cs in
        let rest = key_count-dedupe key (c.key ∷ seen) cs in ground (arith, same, rest, e)
  ]

  pub key_count-push :
      (key : String) (e : Entry F) (heap : List (Entry F))
      → key_count key (held_by (push num e heap)) ≡ key_count key (held_by (e ∷ heap))
  unfolding push
  key_count-push key e [] = refl
  key_count-push key e (d ∷ heap) = elim (Bool-cases (is_smaller num e d)) [
    | inl first ↦ rw (first, push) refl
    | inr later ↦ let rest = key_count-push key e heap in rw (later, push) (omega (arith, rest))
  ]
