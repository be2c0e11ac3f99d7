-- ===== src/Common/Text/Strip.antt =====
-- What is left after stripping has nothing to strip.
use Prim.Native.Char.{Char, code}
use Prim.Native.String.{String}
use mathlib.Core.Path.{◌≡◌, refl, ap, ◌∙◌}
use mathlib.Core.Bool.{false}
use mathlib.Core.Logic.{inl, inr}
use ai_workflow_control_plan.Common.Tests.{Bool-cases}
use ai_workflow_control_plan.Common.Text.{is_space, lstrip, rstrip_cons, rstrip, strip}

-- The text does not begin with white space.
abbrev NoLead : String → Type 0
NoLead String.[] = Unit
NoLead (String.◌∷◌ c s) = is_space (code c) ≡ false

lstrip-NoLead : (s : String) → NoLead (lstrip s)
unfolding lstrip
lstrip-NoLead String.[] = tt
lstrip-NoLead (String.◌∷◌ c s) = elim (Bool-cases (is_space (code c))) [
  | inl e ↦ rw e (lstrip-NoLead s)
  | inr e ↦ rw e e
]

lstrip_of_NoLead : (s : String) → NoLead s → lstrip s ≡ s
unfolding lstrip
lstrip_of_NoLead String.[] h = refl
lstrip_of_NoLead (String.◌∷◌ c s) h = rw h

rstrip_cons-keep :
    (c : Char) (s : String) → is_space (code c) ≡ false → rstrip_cons c s ≡ String.◌∷◌ c s
unfolding rstrip_cons
rstrip_cons-keep c String.[] h = rw h
rstrip_cons-keep c (String.◌∷◌ d s) h = refl

rstrip-NoLead : (s : String) → NoLead s → NoLead (rstrip s)
unfolding rstrip
rstrip-NoLead String.[] h = tt
rstrip-NoLead (String.◌∷◌ c s) h = rw (rstrip_cons-keep c (rstrip s) h) h

rstrip-rstrip_cons :
    (c : Char) (s : String) → rstrip s ≡ s → rstrip (rstrip_cons c s) ≡ rstrip_cons c s
unfolding rstrip rstrip_cons
rstrip-rstrip_cons c String.[] h = elim (Bool-cases (is_space (code c))) [
  | inl e ↦ rw e
  | inr e ↦ rw (e, e)
]
rstrip-rstrip_cons c (String.◌∷◌ d s) h = ap (rstrip_cons c) h

rstrip-rstrip : (s : String) → rstrip (rstrip s) ≡ rstrip s
unfolding rstrip
rstrip-rstrip String.[] = refl
rstrip-rstrip (String.◌∷◌ c s) = rstrip-rstrip_cons c (rstrip s) (rstrip-rstrip s)

pub strip-strip : (s : String) → strip (strip s) ≡ strip s
unfolding strip
strip-strip s =
    ap rstrip (lstrip_of_NoLead (rstrip (lstrip s)) (rstrip-NoLead (lstrip s) (lstrip-NoLead s)))
    ∙ rstrip-rstrip (lstrip s)
