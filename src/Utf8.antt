-- ===== src/Utf8.antt =====
-- `core::str::from_utf8`, as src/vault.rs uses it: the scan, its error and the error's text.
pub mod Strings
pub mod Sequences
pub mod Decoded
use Prim.Native.String.{◌++◌ as append}
use cryptovault.Common.{
  ℕ, zero, suc, ◌+◌, ◌≡◌, String, Option, none, some, List, [], ◌∷◌, Bool, ◌&&◌, ◌||◌, ◌==◌, ltb,
  leb, if◌then◌else◌, length, drop, take, ◌++◌,
}
use cryptovault.Error.{decimal}

-- `Utf8Error`: where the valid part ends, and the length of the bad sequence if the input does not
-- merely end inside one.
pub record Utf8Error : Type 0 where
  pub valid_up_to : ℕ
  pub error_len : Option ℕ

-- One character: its width, or what is wrong with it.
pub data Scan : Type 0 where
  width : ℕ → Scan
  invalid : ℕ → Scan
  incomplete : Scan

abbrev pub in_range : ℕ → ℕ → ℕ → Bool
in_range lo hi b = leb lo b && leb b hi

abbrev pub is_continuation : ℕ → Bool
is_continuation b = in_range 0x80 0xBF b

-- Which second bytes a first byte of three or four allows.
pub second_of_three : ℕ → ℕ → Bool
second_of_three a b =
    (a == 0xE0 && in_range 0xA0 0xBF b)
    || ((in_range 0xE1 0xEC a && is_continuation b)
        || ((a == 0xED && in_range 0x80 0x9F b) || (in_range 0xEE 0xEF a && is_continuation b)))

pub second_of_four : ℕ → ℕ → Bool
second_of_four a b =
    (a == 0xF0 && in_range 0x90 0xBF b)
    || ((in_range 0xF1 0xF3 a && is_continuation b) || (a == 0xF4 && in_range 0x80 0x8F b))

-- The bytes from the third on, `n` of them, of which the first stands at place `k`.
pub scan_tail : ℕ → ℕ → List ℕ → Scan
scan_tail zero k bs = width k
scan_tail (suc n) k [] = incomplete
scan_tail (suc n) k (b ∷ bs) =
    let rest = scan_tail n (k + 1) bs in if is_continuation b then rest else invalid k

-- The second byte, by the test `fits`, and `n` more.
pub scan_second : (ℕ → Bool) → ℕ → List ℕ → Scan
unfolding scan_tail
scan_second fits n [] = incomplete
scan_second fits n (b ∷ bs) = if fits b then scan_tail n 2 bs else invalid 1

pub scan_char : ℕ → List ℕ → Scan
unfolding scan_second second_of_three second_of_four
scan_char a bs =
    if ltb a 0x80
    then width 1
    else if in_range 0xC2 0xDF a
    then scan_second is_continuation 0 bs
    else if in_range 0xE0 0xEF a
    then scan_second (second_of_three a) 1 bs
    else if in_range 0xF0 0xF4 a
    then scan_second (second_of_four a) 2 bs
    else invalid 1

-- The scan of a whole text from place `i` on; each round passes a byte at least.
pub scan_from : ℕ → ℕ → List ℕ → Option Utf8Error
unfolding scan_char
scan_from fuel i [] = none
scan_from zero i (a ∷ bs) = none
scan_from (suc fuel) i (a ∷ bs) = elim (scan_char a bs) [
  | width k ↦ scan_from fuel (i + k) (drop k (a ∷ bs))
  | invalid k ↦ some (record { valid_up_to = i; error_len = some k })
  | incomplete ↦ some (record { valid_up_to = i; error_len = none })
]

-- `none` is a valid text.
unfoldable pub from_utf8 : List ℕ → Option Utf8Error
unfolding scan_from
from_utf8 bytes = scan_from (length bytes) 0 bytes

-- `impl Display for Utf8Error`
abbrev sequence_text : Option ℕ → String
sequence_text (some k) =
    append (append "invalid utf-8 sequence of " (decimal k)) " bytes from index "
sequence_text none = "incomplete utf-8 byte sequence from index "

unfoldable pub utf8_error_text : Utf8Error → String
unfolding decimal
utf8_error_text e = append (sequence_text e.error_len) (decimal e.valid_up_to)

abbrev pub IsUtf8 : List ℕ → Type 0
IsUtf8 bytes = from_utf8 bytes ≡ none

abbrev replacement : List ℕ
replacement = 0xEF ∷ 0xBF ∷ 0xBD ∷ []

lossy_from : ℕ → List ℕ → List ℕ
unfolding scan_char
lossy_from fuel [] = []
lossy_from zero (a ∷ bs) = []
lossy_from (suc fuel) (a ∷ bs) = elim (scan_char a bs) [
  | width k ↦ take k (a ∷ bs) ++ lossy_from fuel (drop k (a ∷ bs))
  | invalid k ↦ replacement ++ lossy_from fuel (drop k (a ∷ bs))
  | incomplete ↦ replacement
]

-- `String::from_utf8_lossy`: U+FFFD in the place of each bad sequence.
unfoldable pub from_utf8_lossy : List ℕ → List ℕ
unfolding lossy_from
from_utf8_lossy bytes = lossy_from (length bytes) bytes
