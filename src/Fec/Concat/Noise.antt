-- ===== src/Fec/Concat/Noise.antt =====
-- src/fec/mod.rs: `ConcatenatedFec` over a channel that corrupts what was sent.
use cryptovault.Common.{
  ℕ, ◌-◌, ◌*◌, ◌/◌, ◌%◌, ◌≤◌, ◌≡◌, sym, ap, ◌∙◌, List, arith, length, replicate,
}
use cryptovault.Consts.{rs_block, rs_data}
use cryptovault.Error.{ok, ok-injective}
use cryptovault.Fec.{Delivers, protected_max}
use cryptovault.Fec.Interleaver.Block.{BlockInterleaver}
use cryptovault.Fec.Interleaver.Block.Noise.{IsBurst, narrowest, deinterleave-burst}
use cryptovault.Fec.Interleaver.Csprng.{StreamCipher}
use cryptovault.Fec.Interleaver.Csprng.RoundTrip.{IsLive}
use cryptovault.Fec.Interleaver.Layers
use cryptovault.Fec.Interleaver.Layers.{block, deinterleave-interleave_any, deinterleave_total}
use cryptovault.Fec.PreFec.{Framed, validate_pre_fec-Framed}
use cryptovault.Fec.ReedSolomon
use cryptovault.Fec.ReedSolomon.{RsCrate}
use cryptovault.Fec.ReedSolomon.Contract.{encode_lem}
use cryptovault.Fec.ReedSolomon.Laws.{IsReedSolomon, blocks_of, distance, codeword_at, decode-noisy}
use cryptovault.Fec.Viterbi
use cryptovault.Fec.Viterbi.{ViterbiCrate}
use cryptovault.Fec.Viterbi.Framing.{coded_len}
use cryptovault.Fec.Viterbi.RoundTrip.{IsViterbi, decode-encode}
use cryptovault.Fec.Concat.{ConcatenatedFec, encode, validate_pre_fec, concatenated_fec}
use cryptovault.Fec.Concat.Contract.{IsDepth, decode_stages}

module _ (rs : RsCrate) (vc : ViterbiCrate) (sc : StreamCipher) (fuel : ℕ) (live : IsLive sc fuel)
    (rs_laws : IsReedSolomon rs) (vc_laws : IsViterbi vc) where
  -- What was sent: the codewords of the payload, interleaved and coded.
  pub record IsSent (fec : ConcatenatedFec) (xs sent mixed cw : List ℕ) : Type 0 where
    pub coded : ReedSolomon.encode rs xs ≡ ok cw
    pub whole : length cw ≡ blocks_of (length xs) * rs_block
    pub same : length mixed ≡ length cw
    pub unmixed : Layers.deinterleave sc fuel fec.il mixed ≡ ok cw
    pub framed : Framed (length sent) (length mixed)

  pub encode-IsSent :
      (fec : ConcatenatedFec) (xs sent mixed : List ℕ)
      → IsDepth fec
      → 1 ≤ length xs
      → length xs ≤ protected_max
      → encode rs vc sc fuel fec xs ≡ ok sent
      → Viterbi.decode vc sent ≡ ok mixed
      → (cw : List ℕ) × IsSent fec xs sent mixed cw
  encode-IsSent fec xs sent mixed (low, high) lo hi made inner =
      let (cw, run, size, _) = encode_lem rs rs_laws xs (omega arith) in
      let (mixed', mix, same, unmix) =
        deinterleave-interleave_any sc fuel live fec.il cw low high in
      let (body, code, coded, uncode) = decode-encode vc vc_laws mixed' in
      let made' : encode rs vc sc fuel fec xs ≡ ok body = unfold encode in rw (run, mix) code in
      let same_body : body ≡ sent = ok-injective (sym made' ∙ made) in
      let same_mixed : mixed' ≡ mixed =
        ok-injective (sym uncode ∙ ap (Viterbi.decode vc) same_body ∙ inner) in
      let long : length mixed ≡ length cw = ap length (sym same_mixed) ∙ same in
      let coded' : length sent ≡ coded_len (length mixed) =
        ap length (sym same_body) ∙ coded ∙ ap (λ (l : List ℕ). coded_len (length l)) same_mixed in
      (
        cw,
        record {
          coded = run;
          whole = size;
          same = long;
          unmixed = ap (Layers.deinterleave sc fuel fec.il) (sym same_mixed) ∙ unmix;
          framed = (omega arith, coded', omega arith, omega arith);
        },
      )

  -- Whatever the interleaver, what the inner decoder read is corrected if after de-interleaving each
  -- codeword has at most 16 wrong symbols.
  pub corrects :
      (fec : ConcatenatedFec) (xs sent mixed cw received got u : List ℕ)
      → IsSent fec xs sent mixed cw
      → 1 ≤ length xs
      → length received ≡ length sent
      → Viterbi.decode vc received ≡ ok got
      → length got ≡ length mixed
      → Layers.deinterleave sc fuel fec.il got ≡ ok u
      → length u ≡ length cw
      → ((j : ℕ) → distance (codeword_at cw j) (codeword_at u j) ≤ 16)
      → Delivers (concatenated_fec rs vc sc fuel fec) xs received
  corrects fec xs sent mixed cw received got u s lo same_size inner same_len unmixed len near =
      let n = blocks_of (length xs) * rs_data in
      let (cap, coded, some_bytes, whole) = s.framed in
      let framed : Framed (length received) (length got) = (
        omega arith,
        same_size ∙ coded ∙ ap coded_len (sym same_len),
        omega arith,
        ap (λ (x : ℕ). x % rs_block) same_len ∙ whole,
      ) in
      let gate = validate_pre_fec-Framed received (length got) framed in
      (
        n,
        replicate (n - length xs) 0,
        unfold validate_pre_fec in rw gate (ap ok (omega (arith, same_len, s.same, s.whole))),
        decode_stages rs vc sc fuel live rs_laws vc_laws fec received got u n gate inner unmixed
            ∙ decode-noisy rs rs_laws xs cw u s.coded s.whole len near,
      )

  -- If the crates behave as documented and the keystream is live: with the block interleaver at a
  -- depth of 1 to 16, a received blob as long as the one sent, from which the inner code reads a
  -- stream that is wrong only in a burst of at most 16 symbols for each codeword of the narrowest
  -- window, delivers the payload.
  pub concatenated_fec-corrects_burst :
      (b : BlockInterleaver) (xs sent mixed received got : List ℕ) (start len : ℕ)
      → 1 ≤ b.depth
      → b.depth ≤ 16
      → 1 ≤ length xs
      → length xs ≤ protected_max
      → encode rs vc sc fuel (record { il = block b }) xs ≡ ok sent
      → Viterbi.decode vc sent ≡ ok mixed
      → length received ≡ length sent
      → Viterbi.decode vc received ≡ ok got
      → IsBurst start len mixed got
      → len ≤ 16 * narrowest b.depth (length mixed / rs_block)
      → Delivers (concatenated_fec rs vc sc fuel (record { il = block b })) xs received
  unfolding Layers.deinterleave
  concatenated_fec-corrects_burst b xs sent mixed received got start len low high lo hi made inner
        same_size inner' burst fits =
      let fec : ConcatenatedFec = record { il = block b } in
      let (cw, s) = encode-IsSent fec xs sent mixed (low, high) lo hi made inner in
      let n = blocks_of (length xs) in
      let size : length mixed ≡ n * 255 = s.same ∙ s.whole in
      let quot : length mixed / rs_block ≡ n = omega arith in
      let (u, unmixed, len_u, near) =
        deinterleave-burst b n start len 16 mixed got cw low size burst (rw (← quot) fits)
          s.unmixed in
      corrects fec xs sent mixed cw received got u s lo same_size inner' burst.same_length unmixed
        (len_u ∙ sym s.whole) near
