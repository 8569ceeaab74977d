-- ===== src/Fec/Interleaver/Block/Burst.antt =====
-- src/fec/interleaver.rs: the block interleaver and bursts, as the comment at its top has it.
use cryptovault.Common.{
  ℕ, ◌+◌, ◌*◌, ◌/◌, ◌%◌, ◌≤◌, ◌<◌, ◌≡◌, ◌≢◌, sym, ap, ◌∙◌, List, arith, length, get_elem?,
}
use native.Mathlib.Nat.{mod-lt, div-lt_iff_lt-mul, mod-mod_of_dvd, dvd-mul_right}
use cryptovault.Error.{ok}
use cryptovault.Fec.Interleaver.Block.{BlockInterleaver, window_len, interleave}
use cryptovault.Fec.Interleaver.Block.Full.{
  source, codeword, mod-ne_of_near, mod-at, interleave_full,
}

-- The codeword of the byte sent at `p`: row `p % depth` of the window number `p / window_len`.
codeword-source :
    (b : BlockInterleaver) (p : ℕ)
    → 1 ≤ b.depth
    → codeword (source b p) ≡ p / window_len b * b.depth + p % window_len b % b.depth
codeword-source b p hd =
    let rem : p % window_len b < b.depth * 255 = mod-lt p {m = window_len b} (omega arith) in
    let column : p % window_len b / b.depth < 255 =
      (div-lt_iff_lt-mul {k = b.depth} {x = p % window_len b} {y = 255} hd).1 (omega arith) in
    omega arith

-- Sums of a multiple of `d` and a remainder by `d` agree only if the remainders do.
remainder_unique : (d x y x' y' : ℕ) → y < d → y' < d → x * d + y ≡ x' * d + y' → y ≡ y'
remainder_unique d x y x' y' h h' e =
    sym (mod-at d x y h) ∙ ap (λ (n : ℕ). n % d) e ∙ mod-at d x' y' h'

codeword-ne :
    (b : BlockInterleaver) (p q : ℕ)
    → 1 ≤ b.depth
    → p < q
    → q < p + b.depth
    → codeword (source b p) ≢ codeword (source b q)
codeword-ne b p q hd lo hi e =
    let win = window_len b in
    let row : (n : ℕ) → n % win % b.depth ≡ n % b.depth =
      λ n. mod-mod_of_dvd b.depth {b = win} n (dvd-mul_right b.depth 255) in
    mod-ne_of_near b.depth p q lo hi (
      sym (row p)
      ∙ remainder_unique b.depth (p / win) (p % win % b.depth) (q / win) (q % win % b.depth)
          (mod-lt (p % win) hd) (mod-lt (q % win) hd)
          (sym (codeword-source b p hd) ∙ e ∙ codeword-source b q hd)
      ∙ row q)

-- On a stream of full windows, two bytes sent less than `depth` places apart, in one window or on
-- the two sides of a boundary, are bytes of the original stream from two different codewords.
pub burst_spreads :
    (b : BlockInterleaver) (s : List ℕ) (m p q : ℕ)
    → 1 ≤ b.depth
    → length s ≡ m * window_len b
    → p < q
    → q < p + b.depth
    → q < length s
    → (t : List ℕ) × (interleave b s ≡ ok t)
      × (get_elem? t p ≡ get_elem? s (source b p))
      × (get_elem? t q ≡ get_elem? s (source b q))
      × (codeword (source b p) ≢ codeword (source b q))
burst_spreads b s m p q hd size lo near hi =
    let (t, run, at) = interleave_full b s m hd size in
    (t, run, at p (omega arith), at q hi, codeword-ne b p q hd lo near)
