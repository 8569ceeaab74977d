-- ===== src/Fec/Concat/Contract.antt =====
-- src/fec/mod.rs: `ConcatenatedFec` against the contracts of a strategy.
use cryptovault.Common.{
  ℕ, ◌-◌, ◌*◌, ◌≤◌, ◌≡◌, refl, ap, ◌∙◌, List, ◌==◌, eq→==, inl, inr, not, arith, length, replicate,
}
use cryptovault.Consts.{rs_data}
use cryptovault.Error.{ok, ◌>>=◌, Returns, Returns-eq, Returns-bind, Returns-reject_if}
use cryptovault.Fec.{Carries, protected_max, IsTotal}
use cryptovault.Fec.Interleaver.Csprng.{StreamCipher}
use cryptovault.Fec.Interleaver.Csprng.RoundTrip.{IsLive}
use cryptovault.Fec.Interleaver.Layers
use cryptovault.Fec.Interleaver.Layers.{depth_of, deinterleave-interleave_any, deinterleave_total}
use cryptovault.Fec.PreFec
use cryptovault.Fec.PreFec.{Framed, validate_pre_fec-Framed, validate_pre_fec_cases}
use cryptovault.Fec.ReedSolomon
use cryptovault.Fec.ReedSolomon.{RsCrate}
use cryptovault.Fec.ReedSolomon.Contract.{encode_lem}
use cryptovault.Fec.ReedSolomon.Laws.{IsReedSolomon, blocks_of, decode-Returns}
use cryptovault.Fec.Viterbi
use cryptovault.Fec.Viterbi.{ViterbiCrate}
use cryptovault.Fec.Viterbi.RoundTrip.{IsViterbi, decode-encode}
use cryptovault.Fec.Viterbi.Total
use cryptovault.Fec.Concat.{ConcatenatedFec, encode, decode, validate_pre_fec, concatenated_fec}

-- A depth that `BlockInterleaver::new` accepts.
abbrev pub IsDepth : ConcatenatedFec → Type 0
IsDepth fec = (1 ≤ depth_of fec.il) × (depth_of fec.il ≤ 16)

pre_fec-Returns : (received : List ℕ) → Returns (PreFec.validate_pre_fec received)
pre_fec-Returns received = elim (validate_pre_fec_cases received) [
  | inl (l, f) ↦ Returns-eq (validate_pre_fec-Framed received l f) tt
  | inr (inl big) ↦ Returns-eq big tt
  | inr (inr bad) ↦ Returns-eq bad tt
]

module _ (rs : RsCrate) (vc : ViterbiCrate) (sc : StreamCipher) (fuel : ℕ)
    (live : IsLive sc fuel) where
  -- With a live keystream and a depth of 1 to 16, the gate and the decoder of the concatenated stack
  -- return a value or a typed error on arbitrary received bytes and lengths, whatever the crates answer.
  pub concatenated_fec-IsTotal :
      (fec : ConcatenatedFec) → IsDepth fec → IsTotal (concatenated_fec rs vc sc fuel fec)
  unfolding validate_pre_fec decode
  concatenated_fec-IsTotal fec (lo, hi) = record {
    gate = λ received.
        Returns-bind (PreFec.validate_pre_fec received) _ (pre_fec-Returns received) (λ l _. tt);
    correct = λ received n.
        Returns-bind (PreFec.validate_pre_fec received) _ (pre_fec-Returns received) (λ l _.
          Returns-bind (Viterbi.decode vc received) _ (Total.decode-Returns vc received)
            (λ stream _. Returns-reject_if (not (length stream == l)) _ _ (λ _.
              let (s, run, size) = deinterleave_total sc fuel live fec.il stream lo hi in
              Returns-eq (ap (λ r. r >>= λ codewords. ReedSolomon.decode rs codewords n) run)
                (decode-Returns rs s n))));
  }

  module _ (rs_laws : IsReedSolomon rs) (vc_laws : IsViterbi vc) where
    pub decode_stages :
        (fec : ConcatenatedFec) (body mixed cw : List ℕ) (n : ℕ)
        → PreFec.validate_pre_fec body ≡ ok (length mixed)
        → Viterbi.decode vc body ≡ ok mixed
        → Layers.deinterleave sc fuel fec.il mixed ≡ ok cw
        → decode rs vc sc fuel fec body n ≡ ReedSolomon.decode rs cw n
    unfolding decode
    decode_stages fec body mixed cw n e f g = rw (e, f, eq→== (length mixed) (length mixed) refl, g)

    -- If the crates behave as documented and the keystream is live, the concatenated stack, with a
    -- depth of 1 to 16 and either interleaver, carries every payload of 1 byte up to the protected cap:
    -- it encodes it within the blob cap, its gate accepts the blob, and decoding at the length that the
    -- gate derives returns the payload with padding.
    pub concatenated_fec-Carries :
        (fec : ConcatenatedFec)
        → IsDepth fec
        → (xs : List ℕ) → 1 ≤ length xs
        → length xs ≤ protected_max
        → Carries (concatenated_fec rs vc sc fuel fec) xs
    concatenated_fec-Carries fec (low, high) xs lo hi =
        let (cw, run, size, back) = encode_lem rs rs_laws xs (omega arith) in
        let (mixed, mix, same, unmix) =
          deinterleave-interleave_any sc fuel live fec.il cw low high in
        let (body, code, coded, uncode) = decode-encode vc vc_laws mixed in
        let framed : Framed (length body) (length mixed) =
          (omega arith, coded, omega arith, omega arith) in
        let gate = validate_pre_fec-Framed body (length mixed) framed in
        (
          body,
          blocks_of (length xs) * rs_data,
          replicate (blocks_of (length xs) * rs_data - length xs) 0,
          unfold encode in rw (run, mix) code,
          omega arith,
          unfold validate_pre_fec in rw gate (ap ok (omega arith)),
          decode_stages fec body mixed cw (blocks_of (length xs) * rs_data) gate uncode unmix
              ∙ back,
        )
