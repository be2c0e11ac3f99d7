-- ===== src/Common/Text.antt =====
-- Python's `str` methods that the code uses, over native texts.
pub mod Strip
pub mod Order
use Prim.Native.Nat.{ℕ, zero, suc}
use Prim.Native.Char.{Char, code}
use Prim.Native.String.{String}
use mathlib.Core.Path.{◌≡◌, sym, ◌∙◌}
use mathlib.Core.Bool.{Bool, true, false, false≢true, ◌||◌, ◌&&◌}
use mathlib.Core.Logic.{◌⊎◌, inl, inr}
use mathlib.Core.List.{List, [], ◌∷◌}
use native.Mathlib.Omega.{arith}
use text.Mathlib.Text.{◌==◌ as str_eq}
use text.Mathlib.TextEquality.{eq_iff}
use ai_workflow_control_plan.Common.Tests.{leb, ◌==◌, if◌then◌else◌, Bool-cases}

-- The characters that `str.isspace` accepts.
pub is_space : ℕ → Bool
is_space c =
    (leb 9 c && leb c 13)
    || (leb 28 c && leb c 32)
    || c == 133
    || c == 160
    || c == 5760
    || (leb 8192 c && leb c 8202)
    || c == 8232
    || c == 8233
    || c == 8239
    || c == 8287
    || c == 12288

-- `s.lstrip()`
pub lstrip : String → String
unfolding is_space
lstrip String.[] = String.[]
lstrip (String.◌∷◌ c s) = let rest = lstrip s in if is_space (code c) then rest else String.◌∷◌ c s

-- One character before a text whose white space at the end is gone.
pub rstrip_cons : Char → String → String
unfolding is_space
rstrip_cons c String.[] = if is_space (code c) then String.[] else String.◌∷◌ c String.[]
rstrip_cons c (String.◌∷◌ d s) = String.◌∷◌ c (String.◌∷◌ d s)

-- `s.rstrip()`
pub rstrip : String → String
unfolding rstrip_cons
rstrip String.[] = String.[]
rstrip (String.◌∷◌ c s) = rstrip_cons c (rstrip s)

-- `s.strip()`
unfoldable pub strip : String → String
unfolding lstrip rstrip
strip s = rstrip (lstrip s)

-- `not s.strip()`
unfoldable pub is_blank : String → Bool
unfolding strip
is_blank s = str_eq (strip s) ""

-- Where the walk of `squeeze` stands: before the first word, in a word, or after one.
pub data Place : Type 0 where
  before inside after : Place

place_after : Place → Bool → Place
place_after p false = inside
place_after before true = before
place_after inside true = after
place_after after true = after

squeeze_char : Place → Bool → Char → String → String
squeeze_char p true c rest = rest
squeeze_char after false c rest = String.◌∷◌ " " (String.◌∷◌ c rest)
squeeze_char p false c rest = String.◌∷◌ c rest

squeeze_from : Place → String → String
unfolding is_space place_after squeeze_char
squeeze_from p String.[] = String.[]
squeeze_from p (String.◌∷◌ c s) =
    squeeze_char p (is_space (code c)) c (squeeze_from (place_after p (is_space (code c))) s)

-- `" ".join(s.split())`
unfoldable pub squeeze : String → String
unfolding squeeze_from
squeeze s = squeeze_from before s

-- `len(s)`: the number of code points.
abbrev pub text_length : String → ℕ
text_length String.[] = 0
text_length (String.◌∷◌ c s) = suc (text_length s)

-- `s[:n]`
abbrev pub text_take : ℕ → String → String
text_take zero s = String.[]
text_take (suc n) String.[] = String.[]
text_take (suc n) (String.◌∷◌ c s) = String.◌∷◌ c (text_take n s)

-- `x in texts`
unfoldable pub contains : List String → String → Bool
contains [] x = false
contains (y ∷ ys) x = str_eq y x || contains ys x

-- `x` stands in the list.
abbrev pub In : String → List String → Type 0
In x [] = ⊥
In x (y ∷ ys) = (y ≡ x) ⊎ In x ys

pub contains→In : (xs : List String) (x : String) → contains xs x ≡ true → In x xs
unfolding contains
contains→In [] x h = cc
contains→In (y ∷ ys) x h = ground (arith, eq_iff y x, contains→In ys x)

pub In→contains : (xs : List String) (x : String) → In x xs → contains xs x ≡ true
unfolding contains
In→contains [] x h = absurd h
In→contains (y ∷ ys) x (inl e) = ground (arith, eq_iff y x)
In→contains (y ∷ ys) x (inr h) = ground (arith, In→contains ys x h)

pub contains-false : (xs : List String) (x : String) → contains xs x ≡ false → ¬ In x xs
contains-false xs x h m = false≢true (sym h ∙ In→contains xs x m)

pub contains_of_not-In : (xs : List String) (x : String) → ¬ In x xs → contains xs x ≡ false
contains_of_not-In xs x h = elim (Bool-cases (contains xs x)) [
  | inl e ↦ absurd (h (contains→In xs x e))
  | inr e ↦ e
]

-- `tuple(dict.fromkeys(texts))`, after the texts that are there already.
unfoldable pub unique_after : List String → List String → List String
unique_after seen [] = []
unique_after seen (x ∷ xs) =
    let rest = unique_after (x ∷ seen) xs in
    let same = unique_after seen xs in if contains seen x then same else x ∷ rest

pub In-unique_after : (seen xs : List String) (x : String) → In x (unique_after seen xs) → In x xs
unfolding unique_after
In-unique_after seen [] x h = h
In-unique_after seen (y ∷ ys) x h =
    ground (arith, In-unique_after seen ys x, In-unique_after (y ∷ seen) ys x)
