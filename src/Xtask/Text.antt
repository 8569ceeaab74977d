-- ===== src/Xtask/Text.antt =====
-- `str` of the standard library, as xtask/src/main.rs uses it, on lists of character codes.
use mathlib.Core.Option
use cryptovault.Common.{
  ℕ, suc, Option, none, some, List, [], ◌∷◌, map, Bool, ◌||◌, ◌&&◌, true, false, ◌==◌, leb,
  if◌then◌else◌,
}

-- `char::is_whitespace`
abbrev pub is_whitespace : ℕ → Bool
is_whitespace c =
    (leb 9 c && leb c 13)
    || c == 32
    || c == 0x85
    || c == 0xA0
    || c == 0x1680
    || (leb 0x2000 c && leb c 0x200A)
    || c == 0x2028
    || c == 0x2029
    || c == 0x202F
    || c == 0x205F
    || c == 0x3000

unfoldable pub is_empty : List ℕ → Bool
is_empty [] = true
is_empty (c ∷ s) = false

unfoldable pub trim_start_matches : (ℕ → Bool) → List ℕ → List ℕ
trim_start_matches p [] = []
trim_start_matches p (c ∷ s) = let rest = trim_start_matches p s in if p c then rest else (c ∷ s)

-- A character before what is left of its tail.
abbrev pub keep_char : (ℕ → Bool) → ℕ → List ℕ → List ℕ
keep_char p c [] = if p c then [] else (c ∷ [])
keep_char p c (d ∷ t) = c ∷ d ∷ t

unfoldable pub trim_end_matches : (ℕ → Bool) → List ℕ → List ℕ
trim_end_matches p [] = []
trim_end_matches p (c ∷ s) = keep_char p c (trim_end_matches p s)

unfoldable pub trim_matches : (ℕ → Bool) → List ℕ → List ℕ
unfolding trim_start_matches trim_end_matches
trim_matches p s = trim_end_matches p (trim_start_matches p s)

abbrev pub trim : List ℕ → List ℕ
trim s = trim_matches is_whitespace s

abbrev pub trim_start : List ℕ → List ℕ
trim_start s = trim_start_matches is_whitespace s

unfoldable pub strip_prefix : List ℕ → List ℕ → Option (List ℕ)
strip_prefix [] s = some s
strip_prefix (a ∷ m) [] = none
strip_prefix (a ∷ m) (c ∷ s) = let rest = strip_prefix m s in if a == c then rest else none

unfoldable pub starts_with : ℕ → List ℕ → Bool
starts_with a [] = false
starts_with a (c ∷ s) = c == a

-- The place of a match: here, or one further than in the tail.
abbrev pub or_later : Option (List ℕ) → Option ℕ → Option ℕ
or_later (some rest) later = some 0
or_later none later = Option.map suc later

-- `s.find(m)`, which counts in characters here
unfoldable pub find : List ℕ → List ℕ → Option ℕ
unfolding strip_prefix
find m [] = or_later (strip_prefix m []) none
find m (c ∷ s) = or_later (strip_prefix m (c ∷ s)) (find m s)

-- `s.strip_suffix(c)`
unfoldable pub strip_suffix : ℕ → List ℕ → Option (List ℕ)
strip_suffix a [] = none
strip_suffix a (c ∷ []) = if c == a then some [] else none
strip_suffix a (c ∷ d ∷ s) = Option.map (λ t. c ∷ t) (strip_suffix a (d ∷ s))

abbrev push_char : ℕ → List (List ℕ) → List (List ℕ)
push_char c [] = (c ∷ []) ∷ []
push_char c (l ∷ ls) = (c ∷ l) ∷ ls

-- `s.split_inclusive('\n')`
unfoldable pub split_inclusive : List ℕ → List (List ℕ)
split_inclusive [] = []
split_inclusive (c ∷ s) =
    let rest = split_inclusive s in if c == b'\n' then (c ∷ []) ∷ rest else push_char c rest

unfoldable pub without_ending : List ℕ → List ℕ
unfolding strip_suffix
without_ending line = elim (strip_suffix b'\n' line) [
  | none ↦ line
  | some l ↦ elim (strip_suffix b'\r' l) [ none ↦ l | some m ↦ m ]
]

-- `s.lines()`
unfoldable pub lines : List ℕ → List (List ℕ)
unfolding split_inclusive without_ending
lines s = map without_ending (split_inclusive s)

-- `iter.any(p)`
unfoldable pub any {ℓ} : {A : Type ℓ} → (A → Bool) → List A → Bool
any p [] = false
any p (a ∷ as') = p a || any p as'
