-- ===== src/Capability/Paths.antt =====
-- `_safe_relative_path` and `_path_values_are_safe` of ai_workflow/capability_gate.py. A path is read
-- as its code points.
use ai_workflow_control_plan.Common.{
  ℕ, ◌≡◌, refl, sym, ◌∙◌, Bool, true, false, not, ◌&&◌, ◌||◌, List, [], ◌∷◌, ◌++◌, map,
  append_assoc, String, code, arith, leb, ◌==◌, if◌then◌else◌, strip, Bool-cases, inl, inr,
}
use ai_workflow_control_plan.Value.{Value, str, list, Items, nil, cons}

pub codes : String → List ℕ
codes String.[] = []
codes (String.◌∷◌ c s) = code c ∷ codes s

to_slash : ℕ → ℕ
to_slash c = if c == b'\\' then b'/' else c

-- `str(value).strip().replace("\\", "/")`
unfoldable pub raw_path : String → List ℕ
unfolding codes to_slash strip
raw_path s = map to_slash (codes (strip s))

has_code : ℕ → List ℕ → Bool
has_code x [] = false
has_code x (c ∷ cs) = c == x || has_code x cs

starts_scheme : List ℕ → Bool
starts_scheme (a ∷ b ∷ c ∷ cs) = a == b':' && b == b'/' && c == b'/'
starts_scheme cs = false

-- `"://" in raw`
has_scheme : List ℕ → Bool
unfolding starts_scheme
has_scheme [] = false
has_scheme (c ∷ cs) = starts_scheme (c ∷ cs) || has_scheme cs

-- `raw.startswith(("/", "~"))`, with the empty text
starts_outside : List ℕ → Bool
starts_outside [] = true
starts_outside (c ∷ cs) = c == b'/' || c == b'~'

is_letter : ℕ → Bool
is_letter c = (leb b'A' c && leb c b'Z') || (leb b'a' c && leb c b'z')

-- `re.match(r"^[A-Za-z]:", raw)`
has_drive : List ℕ → Bool
unfolding is_letter
has_drive (c ∷ d ∷ cs) = is_letter c && d == b':'
has_drive cs = false

push : ℕ → List (List ℕ) → List (List ℕ)
push c [] = (c ∷ []) ∷ []
push c (part ∷ parts) = (c ∷ part) ∷ parts

-- `raw.split("/")`
pub split_slash : List ℕ → List (List ℕ)
unfolding push
split_slash [] = [] ∷ []
split_slash (c ∷ cs) = if c == b'/' then [] ∷ split_slash cs else push c (split_slash cs)

-- "" and "."
is_skipped : List ℕ → Bool
is_skipped [] = true
is_skipped (c ∷ []) = c == b'.'
is_skipped (c ∷ d ∷ cs) = false

-- ".."
is_parent : List ℕ → Bool
is_parent (c ∷ d ∷ []) = c == b'.' && d == b'.'
is_parent cs = false

-- `PurePosixPath(raw).parts` of a path with no root: the parts but "" and ".".
posix_parts : List (List ℕ) → List (List ℕ)
unfolding is_skipped
posix_parts [] = []
posix_parts (part ∷ parts) =
    let rest = posix_parts parts in if is_skipped part then rest else part ∷ rest

no_parent : List (List ℕ) → Bool
unfolding is_parent
no_parent [] = true
no_parent (part ∷ parts) = not (is_parent part) && no_parent parts

safe_codes : List ℕ → Bool
unfolding has_code has_scheme starts_outside has_drive no_parent posix_parts split_slash
safe_codes raw =
    not (starts_outside raw || has_code 0 raw || has_scheme raw || has_drive raw)
    && no_parent (posix_parts (split_slash raw))

unfoldable pub safe_relative_path : String → Bool
unfolding safe_codes raw_path
safe_relative_path s = safe_codes (raw_path s)

-- `all(isinstance(item, str) and _safe_relative_path(item) for item in value)`
unfoldable pub safe_items : Items → Bool
safe_items nil = true
safe_items (cons (str s) vs) = safe_relative_path s && safe_items vs
safe_items (cons v vs) = false

unfoldable pub path_values_are_safe : Value → Bool
unfolding safe_items
path_values_are_safe (str s) = safe_relative_path s
path_values_are_safe (list nil) = false
path_values_are_safe (list (cons v vs)) = safe_items (cons v vs)
path_values_are_safe v = false

-- How an operating system reads the parts of a path: "" and "." stay, ".." goes up, and any other
-- name goes down. A place is the names from it up to the root.
up : List (List ℕ) → List (List ℕ)
up [] = []
up (name ∷ names) = names

visit : List (List ℕ) → List ℕ → List (List ℕ)
unfolding is_skipped is_parent up
visit place part =
    if is_skipped part then place else if is_parent part then up place else part ∷ place

walk_parts : List (List ℕ) → List (List ℕ) → List (List ℕ)
unfolding visit
walk_parts place [] = place
walk_parts place (part ∷ parts) = walk_parts (visit place part) parts

start : List (List ℕ) → ℕ → List (List ℕ) → List (List ℕ)
start place c parts = if c == b'/' then walk_parts [] parts else walk_parts place parts

-- The place that a path names, from the place where it is read: a path with a root starts there.
pub locate : List (List ℕ) → List ℕ → List (List ℕ)
unfolding start
locate place [] = place
locate place (c ∷ cs) = start place c (split_slash (c ∷ cs))

walk_parts-below :
    (place : List (List ℕ)) (parts : List (List ℕ))
    → no_parent (posix_parts parts) ≡ true
    → (below : List (List ℕ)) × (walk_parts place parts ≡ below ++ place)
unfolding walk_parts posix_parts no_parent
walk_parts-below place [] h = ([], refl)
walk_parts-below place (part ∷ parts) h = elim (Bool-cases (is_skipped part)) [
  | inl skipped ↦ rw skipped (walk_parts-below place parts (ground arith))
  | inr kept ↦
      let plain : is_parent part ≡ false = ground arith in
      let (below, e) = walk_parts-below (part ∷ place) parts (ground arith) in
      rw (kept, plain) (below ++ part ∷ [], e ∙ sym (append_assoc below (part ∷ []) place))
]

start-below :
    (place : List (List ℕ)) (c : ℕ) (parts : List (List ℕ))
    → (c == b'/') ≡ false
    → no_parent (posix_parts parts) ≡ true
    → (below : List (List ℕ)) × (start place c parts ≡ below ++ place)
unfolding start
start-below place c parts inside h = rw inside (walk_parts-below place parts h)

safe_codes-below :
    (raw : List ℕ) (place : List (List ℕ))
    → safe_codes raw ≡ true
    → (below : List (List ℕ)) × (locate place raw ≡ below ++ place)
unfolding safe_codes locate starts_outside
safe_codes-below [] place h = ([], refl)
safe_codes-below (c ∷ cs) place h =
    let inside : (c == b'/') ≡ false = ground arith in
    start-below place c (split_slash (c ∷ cs)) inside (ground arith)

-- A path that the gate accepts names a place at or below the one where it is read, wherever that is:
-- it has no root to start from and no part that goes up.
pub safe_relative_path-below :
    (s : String) (place : List (List ℕ))
    → safe_relative_path s ≡ true
    → (below : List (List ℕ)) × (locate place (raw_path s) ≡ below ++ place)
unfolding safe_relative_path locate
safe_relative_path-below s place h = safe_codes-below (raw_path s) place h
