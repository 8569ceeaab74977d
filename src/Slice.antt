-- ===== src/Slice.antt =====
-- Indexing, slicing and little-endian integers of the standard library, as src/ uses them: an index
-- out of range and an underflow are panics.
use cryptovault.Common.{
  ℕ, zero, suc, ◌+◌, ◌-◌, ◌*◌, ◌/◌, ◌%◌, ◌^◌, ◌≤◌, ◌<◌, ◌≡◌, refl, ap, List, [], ◌∷◌, ◌++◌, none,
  some, arith, ltb, leb, if◌then◌else◌, length, get_elem?, get_or, set, take, drop, length-append,
  get_elem?-eq-get_or, take-append_left, drop-append_left, ◌&&◌, ◌==◌,
}
use cryptovault.Error.{Result, ok, panic}

-- `s[i]`
unfoldable pub read : List ℕ → ℕ → Result ℕ
read s i = elim (get_elem? s i) [ none ↦ panic | some v ↦ ok v ]

-- `s[i] = v`
unfoldable pub write : List ℕ → ℕ → ℕ → Result (List ℕ)
write s i v = if ltb i (length s) then ok (set s i v) else panic

-- `s[lo..hi]`
unfoldable pub slice : List ℕ → ℕ → ℕ → Result (List ℕ)
slice s lo hi = if leb lo hi && leb hi (length s) then ok (take (hi - lo) (drop lo s)) else panic

-- `s.split_at(n)`
unfoldable pub split_at : List ℕ → ℕ → Result (List ℕ × List ℕ)
split_at s n = if leb n (length s) then ok (take n s, drop n s) else panic

-- `GenericArray::from_slice`, an array of `n` bytes.
abbrev pub from_slice : ℕ → List ℕ → Result (List ℕ)
from_slice n s = if length s == n then ok s else panic

-- `a - b` on `usize`
unfoldable pub checked_sub : ℕ → ℕ → Result ℕ
checked_sub a b = if leb b a then ok (a - b) else panic

-- `n.to_le_bytes()` of an integer of `w` bytes
unfoldable pub to_le_bytes : ℕ → ℕ → List ℕ
to_le_bytes zero n = []
to_le_bytes (suc w) n = (n % 256) ∷ to_le_bytes w (n / 256)

-- `from_le_bytes`
unfoldable pub from_le_bytes : List ℕ → ℕ
from_le_bytes [] = 0
from_le_bytes (b ∷ bs) = b + 256 * from_le_bytes bs

pub read-ok : (s : List ℕ) (i : ℕ) → i < length s → read s i ≡ ok (get_or s i 0)
unfolding read
read-ok s i h = ground (arith, get_elem?-eq-get_or s i 0 h)

pub write-ok : (s : List ℕ) (i v : ℕ) → i < length s → write s i v ≡ ok (set s i v)
unfolding write
write-ok s i v h = ground arith

pub checked_sub-ok : (a b : ℕ) → b ≤ a → checked_sub a b ≡ ok (a - b)
unfolding checked_sub
checked_sub-ok a b h = ground arith

-- A slice that ends at the end of `mid` is `mid`.
pub slice-mid :
    (front mid back : List ℕ) (lo hi : ℕ)
    → lo ≡ length front
    → hi ≡ lo + length mid
    → slice (front ++ (mid ++ back)) lo hi ≡ ok mid
unfolding slice
slice-mid front mid back lo hi e f = ground (
  arith,
  length-append front (mid ++ back),
  length-append mid back,
  drop-append_left front (mid ++ back),
  take-append_left mid back,
  ap (λ (n : ℕ). take n (mid ++ back)) (omega_len),
  ap (λ (n : ℕ). drop n (front ++ (mid ++ back))) e,
)
  where
    omega_len : hi - lo ≡ length mid
    omega_len = omega arith

pub split_at-ok : (s : List ℕ) (n : ℕ) → n ≤ length s → split_at s n ≡ ok (take n s, drop n s)
unfolding split_at
split_at-ok s n h = ground arith

-- Any slice inside the list returns.
pub slice-ok :
    (s : List ℕ) (lo hi : ℕ)
    → lo ≤ hi
    → hi ≤ length s
    → slice s lo hi ≡ ok (take (hi - lo) (drop lo s))
unfolding slice
slice-ok s lo hi p q = ground arith

pub length-to_le_bytes : (w n : ℕ) → length (to_le_bytes w n) ≡ w
unfolding to_le_bytes
length-to_le_bytes zero n = refl
length-to_le_bytes (suc w) n = ap suc (length-to_le_bytes w (n / 256))

-- Four bytes hold every u32.
pub from_le_bytes-to_le_bytes : (n : ℕ) → n < 2 ^ 32 → from_le_bytes (to_le_bytes 4 n) ≡ n
unfolding from_le_bytes to_le_bytes
from_le_bytes-to_le_bytes n h = omega arith
