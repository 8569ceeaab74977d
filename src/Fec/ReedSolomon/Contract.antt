-- ===== src/Fec/ReedSolomon/Contract.antt =====
-- src/fec/rs.rs: `ReedSolomonCodec` as a strategy of its own.
use cryptovault.Common.{
  ℕ, ◌*◌, ◌/◌, ◌≤◌, ◌<◌, ◌≡◌, ◌^◌, ◌⊎◌, inl, inr, refl, ap, ◌∙◌, List, le→ltb, arith, length, ◌-◌,
  replicate,
}
use cryptovault.Consts.{max_blob_len, rs_block, rs_data}
use cryptovault.Error.{ok, err, Returns-eq, expect, invalid_input}
use cryptovault.Fec.{Carries, protected_max, IsTotal}
use cryptovault.Fec.ReedSolomon.{
  RsCrate, block_count, validate_pre_fec, encode, decode, reed_solomon_codec,
}
use cryptovault.Fec.ReedSolomon.Laws.{
  IsReedSolomon, blocks_of, padded, distance_self, codeword_at, block_count-whole, decode-noisy,
  decode-Returns,
}

validate_pre_fec-whole :
    (r : List ℕ) (k : ℕ)
    → length r ≡ k * rs_block
    → length r ≤ max_blob_len
    → 1 ≤ k
    → validate_pre_fec r ≡ ok (k * rs_data)
unfolding validate_pre_fec
validate_pre_fec-whole r k e cap pos =
    rw (le→ltb max_blob_len (length r) cap, ap block_count e ∙ block_count-whole k) (ground arith)

gate_cases :
    (r : List ℕ)
    → (validate_pre_fec r ≡ err (invalid_input "input exceeds maximum size"))
      ⊎ (validate_pre_fec r ≡ err (invalid_input "malformed blob"))
      ⊎ (validate_pre_fec r ≡ ok (length r / rs_block * rs_data))
unfolding validate_pre_fec block_count
gate_cases r = ground arith

-- Whatever the crate answers, the outer code alone returns a value or a typed error on every input.
pub reed_solomon_codec-IsTotal : (rs : RsCrate) → IsTotal (reed_solomon_codec rs)
reed_solomon_codec-IsTotal rs = record {
  gate = λ r. elim (gate_cases r) [
    | inl big ↦ Returns-eq big tt
    | inr (inl bad) ↦ Returns-eq bad tt
    | inr (inr run) ↦ Returns-eq run tt
  ];
  correct = decode-Returns rs;
}

module _ (rs : RsCrate) (laws : IsReedSolomon rs) where
  open laws use {encoded}

  -- The coded form of a payload, and its clean decode.
  pub encode_lem :
      (xs : List ℕ)
      → length xs < 2 ^ 62
      → (cw : List ℕ) × (encode rs xs ≡ ok cw)
        × (length cw ≡ blocks_of (length xs) * rs_block)
        × (decode rs cw (blocks_of (length xs) * rs_data) ≡ ok (padded xs))
  encode_lem xs h =
      let (cw, e, size) = encoded xs h in
      let run : encode rs xs ≡ ok cw = unfold encode in ap expect e in
      (
        cw,
        run,
        size,
        decode-noisy rs laws xs cw cw run size refl
            (λ j. omega (arith, distance_self (codeword_at cw j))),
      )

  -- If the `reedsolomon` crate behaves as documented, the outer code alone carries every payload
  -- of 1 byte up to the protected cap: it encodes it within the blob cap, its gate accepts the
  -- blob, and decoding at the length that the gate derives returns the payload with padding.
  pub reed_solomon_codec-Carries :
      (xs : List ℕ) → 1 ≤ length xs → length xs ≤ protected_max → Carries (reed_solomon_codec rs) xs
  reed_solomon_codec-Carries xs lo hi =
      let (cw, run, size, back) = encode_lem xs (omega arith) in
      (
        cw,
        blocks_of (length xs) * rs_data,
        replicate (blocks_of (length xs) * rs_data - length xs) 0,
        run,
        omega arith,
        validate_pre_fec-whole cw (blocks_of (length xs)) size (omega arith) (omega arith),
        back,
      )
