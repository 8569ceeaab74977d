-- ===== src/Fec/ReedSolomon/Laws.antt =====
-- src/fec/rs.rs: the documented behaviour of the `reedsolomon` crate, and the codec over it.
use cryptovault.Common.{
  ℕ, ◌+◌, ◌-◌, ◌*◌, ◌/◌, ◌%◌, ◌^◌, ◌≤◌, ◌<◌, ◌≡◌, ◌⊎◌, refl, ap, ◌∙◌, inl, inr, some, List, [], ◌∷◌,
  ◌++◌, ◌==◌, Bool-cases, if◌then◌else◌, arith, length, take, drop, replicate, take-all,
  length-append, length-replicate,
}
use cryptovault.Consts.{div_ceil, rs_block, rs_data}
use cryptovault.Error.{ok, err, Returns, Returns-eq, expect-eq-ok, invalid_input}
use cryptovault.Fec.ReedSolomon.{
  RsCrate, RsAnswer, corrected, uncorrectable, rs_invalid_input, rs_answer, block_count, encode,
  decode,
}

-- The number of places where two lists differ.
abbrev pub distance : List ℕ → List ℕ → ℕ
distance [] ys = 0
distance (x ∷ xs) [] = 0
distance (x ∷ xs) (y ∷ ys) = (if x == y then 0 else 1) + distance xs ys

pub distance_self : (xs : List ℕ) → distance xs xs ≡ 0
distance_self [] = refl
distance_self (x ∷ xs) = ground (arith, distance_self xs)

pub distance_nil : (xs : List ℕ) → distance xs [] ≡ 0
distance_nil [] = refl
distance_nil (x ∷ xs) = refl

-- The codeword number `j` of a stream.
abbrev pub codeword_at : List ℕ → ℕ → List ℕ
codeword_at s j = take rs_block (drop (j * rs_block) s)

-- The codewords, and the data bytes with padding, of a payload of `n` bytes.
abbrev pub blocks_of : ℕ → ℕ
blocks_of n = div_ceil n rs_data

abbrev pub padded : List ℕ → List ℕ
padded xs = xs ++ replicate (blocks_of (length xs) * rs_data - length xs) 0

-- `encode` codes any payload that is held in memory, 223 bytes to a codeword of 255, the last piece
-- padded with zeros. `decode` of a stream with at most 16 wrong symbols in each codeword returns the
-- data bytes, cut to the length asked for.
pub record IsReedSolomon (rs : RsCrate) : Type 0 where
  pub encoded :
      (xs : List ℕ)
      → length xs < 2 ^ 62
      → (cw : List ℕ) × (rs.rs_encode xs ≡ some cw) × (length cw ≡ blocks_of (length xs) * rs_block)
  pub recovered :
      (xs cw r : List ℕ) (n : ℕ)
      → rs.rs_encode xs ≡ some cw
      → length r ≡ length cw
      → ((j : ℕ) → distance (codeword_at cw j) (codeword_at r j) ≤ 16)
      → n ≤ blocks_of (length xs) * rs_data
      → rs.rs_decode r n ≡ corrected (take n (padded xs))

pub block_count-whole : (k : ℕ) → block_count (k * rs_block) ≡ some k
unfolding block_count
block_count-whole k =
    let whole : k * rs_block % rs_block ≡ 0 = omega arith in
    let quot : k * rs_block / rs_block ≡ k = omega arith in rw (whole, quot)

module _ (rs : RsCrate) where
  open rs use {rs_decode}

  decode-whole :
      (r : List ℕ) (k n : ℕ) → length r ≡ k * rs_block → decode rs r n ≡ rs_answer (rs_decode r n)
  unfolding decode
  decode-whole r k n e = rw (ap block_count e ∙ block_count-whole k, decode)

  answer-Returns : (a : RsAnswer) → Returns (rs_answer a)
  answer-Returns (corrected bytes) = tt
  answer-Returns uncorrectable = tt
  answer-Returns rs_invalid_input = tt

  decode_cases :
      (r : List ℕ) (n : ℕ)
      → (decode rs r n ≡ err (invalid_input "malformed blob"))
        ⊎ (decode rs r n ≡ rs_answer (rs_decode r n))
  unfolding decode block_count
  decode_cases r n = elim (Bool-cases (length r % rs_block == 0)) [
    | inl whole ↦ inr (rw (whole, decode))
    | inr broken ↦ inl (rw (broken, decode))
  ]

  -- `decode` never panics, whatever the crate answers.
  pub decode-Returns : (r : List ℕ) (n : ℕ) → Returns (decode rs r n)
  decode-Returns r n = elim (decode_cases r n) [
    | inl bad ↦ Returns-eq bad tt
    | inr run ↦ Returns-eq run (answer-Returns (rs_decode r n))
  ]

module _ (rs : RsCrate) (laws : IsReedSolomon rs) where
  open laws use {encoded, recovered}

  -- A stream with at most 16 wrong symbols in each codeword is corrected to the padded payload.
  pub decode-noisy :
      (xs cw r : List ℕ)
      → encode rs xs ≡ ok cw
      → length cw ≡ blocks_of (length xs) * rs_block
      → length r ≡ length cw
      → ((j : ℕ) → distance (codeword_at cw j) (codeword_at r j) ≤ 16)
      → decode rs r (blocks_of (length xs) * rs_data) ≡ ok (padded xs)
  decode-noisy xs cw r run size same near =
      decode-whole rs r (blocks_of (length xs)) _ (same ∙ size)
      ∙ ap rs_answer (recovered xs cw r _ (crate_run run) same near (omega arith))
      ∙ ap ok (take-all _ (padded xs) (length_padded))
    where
      crate_run : encode rs xs ≡ ok cw → rs.rs_encode xs ≡ some cw
      crate_run h = unfold encode in expect-eq-ok (rs.rs_encode xs) h

      length_padded : length (padded xs) ≤ blocks_of (length xs) * rs_data
      length_padded = omega (
        arith,
        length-append xs (replicate (blocks_of (length xs) * rs_data - length xs) 0),
        length-replicate {A = ℕ} (blocks_of (length xs) * rs_data - length xs) 0,
      )
