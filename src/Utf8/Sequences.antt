-- ===== src/Utf8/Sequences.antt =====
-- `&str`: the byte sequences of two to four bytes that `core::str::from_utf8` passes.
use cryptovault.Common.{
  ℕ, suc, ◌+◌, ◌-◌, ◌*◌, ◌/◌, ◌%◌, ◌≤◌, ◌≡◌, inl, inr, refl, ap₂, List, [], ◌∷◌, Bool, true, arith,
  lt→ltb, le→ltb, Bool-cases,
}
use cryptovault.Utf8.{
  width, invalid, is_continuation, second_of_three, second_of_four, scan_tail, scan_second,
}
use cryptovault.Utf8.Strings.{encode_char}

pub encode_two :
    (a b : ℕ)
    → 0xC2 ≤ a
    → a ≤ 0xDF
    → 0x80 ≤ b
    → b ≤ 0xBF
    → encode_char ((a - 0xC0) * 64 + (b - 0x80)) ≡ a ∷ b ∷ []
encode_two a b lo hi blo bhi =
    let c = (a - 0xC0) * 64 + (b - 0x80) in
    rw (le→ltb c 0x80 (omega arith), lt→ltb c 0x800 (omega arith))
      (ap₂ (λ (x y : ℕ). x ∷ y ∷ []) (omega arith) (omega arith))

pub encode_three :
    (a b d : ℕ)
    → 0xE0 ≤ a
    → a ≤ 0xEF
    → 0x80 ≤ b
    → b ≤ 0xBF
    → 0x80 ≤ d
    → d ≤ 0xBF
    → 0x800 ≤ (a - 0xE0) * 4096 + (b - 0x80) * 64 + (d - 0x80)
    → encode_char ((a - 0xE0) * 4096 + (b - 0x80) * 64 + (d - 0x80)) ≡ a ∷ b ∷ d ∷ []
encode_three a b d lo hi blo bhi dlo dhi long =
    let c = (a - 0xE0) * 4096 + (b - 0x80) * 64 + (d - 0x80) in
    let x : 0xE0 + c / 4096 ≡ a = omega arith in
    let y : 0x80 + c / 64 % 64 ≡ b = omega arith in
    let z : 0x80 + c % 64 ≡ d = omega arith in
    rw (le→ltb c 0x80 (omega arith), le→ltb c 0x800 (omega arith), lt→ltb c 0x10000 (omega arith))
      (rw (x, y, z) refl)

pub encode_four :
    (a b d e : ℕ)
    → 0xF0 ≤ a
    → a ≤ 0xF4
    → 0x80 ≤ b
    → b ≤ 0xBF
    → 0x80 ≤ d
    → d ≤ 0xBF
    → 0x80 ≤ e
    → e ≤ 0xBF
    → 0x10000 ≤ (a - 0xF0) * 262144 + (b - 0x80) * 4096 + (d - 0x80) * 64 + (e - 0x80)
    → encode_char ((a - 0xF0) * 262144 + (b - 0x80) * 4096 + (d - 0x80) * 64 + (e - 0x80))
      ≡ a ∷ b ∷ d ∷ e ∷ []
encode_four a b d e lo hi blo bhi dlo dhi elo ehi long =
    let c = (a - 0xF0) * 262144 + (b - 0x80) * 4096 + (d - 0x80) * 64 + (e - 0x80) in
    let x : 0xF0 + c / 262144 ≡ a = omega arith in
    let y : 0x80 + c / 4096 % 64 ≡ b = omega arith in
    let z : 0x80 + c / 64 % 64 ≡ d = omega arith in
    let u : 0x80 + c % 64 ≡ e = omega arith in
    rw (le→ltb c 0x80 (omega arith), le→ltb c 0x800 (omega arith), le→ltb c 0x10000 (omega arith))
      (rw (x, y, z, u) refl)

pub is_continuation-eq-true : (b : ℕ) → is_continuation b ≡ true → (0x80 ≤ b) × (b ≤ 0xBF)
is_continuation-eq-true b h = (ground arith, ground arith)

pub second_of_three-eq-true :
    (a b : ℕ)
    → second_of_three a b ≡ true
    → (0x80 ≤ b) × (b ≤ 0xBF) × ((a ≡ 0xE0) → 0xA0 ≤ b) × ((a ≡ 0xED) → b ≤ 0x9F)
unfolding second_of_three
second_of_three-eq-true a b h = (ground arith, ground arith, λ e. ground arith, λ e. ground arith)

pub second_of_four-eq-true :
    (a b : ℕ)
    → second_of_four a b ≡ true
    → (0x80 ≤ b) × (b ≤ 0xBF) × ((a ≡ 0xF0) → 0x90 ≤ b) × ((a ≡ 0xF4) → b ≤ 0x8F)
unfolding second_of_four
second_of_four-eq-true a b h = (ground arith, ground arith, λ e. ground arith, λ e. ground arith)

-- A tail that is passed begins with a continuation byte.
pub scan_tail-eq-width :
    (n k m : ℕ) (bs : List ℕ)
    → scan_tail (suc n) k bs ≡ width m
    → (b : ℕ) × (rest : List ℕ) × (bs ≡ b ∷ rest)
      × (0x80 ≤ b)
      × (b ≤ 0xBF)
      × (scan_tail n (k + 1) rest ≡ width m)
unfolding scan_tail
scan_tail-eq-width n k m [] h = cc
scan_tail-eq-width n k m (b ∷ bs) h = elim (Bool-cases (is_continuation b)) [
  | inl good ↦ let (lo, hi) = is_continuation-eq-true b good in (b, bs, refl, lo, hi, rw good at h)
  | inr bad ↦ absurd (stopped (rw bad at h))
]
  where
    stopped : invalid k ≡ width m → ⊥
    stopped e = cc

pub scan_second-eq-width :
    (fits : ℕ → Bool) (n m : ℕ) (bs : List ℕ)
    → scan_second fits n bs ≡ width m
    → (b : ℕ) × (rest : List ℕ) × (bs ≡ b ∷ rest) × (fits b ≡ true) × (scan_tail n 2 rest ≡ width m)
unfolding scan_second
scan_second-eq-width fits n m [] h = cc
scan_second-eq-width fits n m (b ∷ bs) h = elim (Bool-cases (fits b)) [
  | inl good ↦ (b, bs, refl, good, rw good at h)
  | inr bad ↦ absurd (stopped (rw bad at h))
]
  where
    stopped : invalid 1 ≡ width m → ⊥
    stopped e = cc
