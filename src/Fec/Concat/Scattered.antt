-- ===== src/Fec/Concat/Scattered.antt =====
-- src/fec/mod.rs: `ConcatenatedFec` over a channel that leaves a few symbols wrong, anywhere.
use cryptovault.Common.{
  ℕ, zero, suc, ◌*◌, ◌≤◌, ◌≡◌, sym, ◌∙◌, List, [], ◌∷◌, arith, length, take, drop,
}
use cryptovault.Consts.{rs_block}
use cryptovault.Error.{ok, ok-injective}
use cryptovault.Fec.{Delivers, protected_max}
use cryptovault.Fec.Interleaver.Csprng.{StreamCipher}
use cryptovault.Fec.Interleaver.Csprng.RoundTrip.{IsLive}
use cryptovault.Fec.Interleaver.Layers.{deinterleave_near}
use cryptovault.Fec.ReedSolomon.{RsCrate}
use cryptovault.Fec.ReedSolomon.Laws.{IsReedSolomon, distance, distance_nil}
use cryptovault.Fec.Viterbi
use cryptovault.Fec.Viterbi.{ViterbiCrate}
use cryptovault.Fec.Viterbi.RoundTrip.{IsViterbi}
use cryptovault.Fec.Concat.{ConcatenatedFec, encode, concatenated_fec}
use cryptovault.Fec.Concat.Contract.{IsDepth}
use cryptovault.Fec.Concat.Noise.{encode-IsSent, corrects}

-- A part of two streams differs in no more places than the whole.
distance-take : (n : ℕ) (s t : List ℕ) → distance (take n s) (take n t) ≤ distance s t
distance-take zero s t = omega arith
distance-take (suc n) [] t = omega arith
distance-take (suc n) (x ∷ s) [] = omega arith
distance-take (suc n) (x ∷ s) (y ∷ t) = omega (arith, distance-take n s t)

distance-drop : (n : ℕ) (s t : List ℕ) → distance (drop n s) (drop n t) ≤ distance s t
distance-drop zero s t = omega arith
distance-drop (suc n) [] t = omega arith
distance-drop (suc n) (x ∷ s) [] = omega (arith, distance_nil (drop n s))
distance-drop (suc n) (x ∷ s) (y ∷ t) = omega (arith, distance-drop n s t)

module _ (rs : RsCrate) (vc : ViterbiCrate) (sc : StreamCipher) (fuel : ℕ) (live : IsLive sc fuel)
    (rs_laws : IsReedSolomon rs) (vc_laws : IsViterbi vc) where
  -- If the crates behave as documented and the keystream is live: with a depth of 1 to 16 and either
  -- interleaver, a received blob as long as the one sent, from which the inner code reads a stream
  -- as long as the one it coded and wrong in at most 16 symbols, wherever they are, delivers the
  -- payload.
  pub concatenated_fec-corrects_scattered :
      (fec : ConcatenatedFec) (xs sent mixed received got : List ℕ)
      → IsDepth fec
      → 1 ≤ length xs
      → length xs ≤ protected_max
      → encode rs vc sc fuel fec xs ≡ ok sent
      → Viterbi.decode vc sent ≡ ok mixed
      → length received ≡ length sent
      → Viterbi.decode vc received ≡ ok got
      → length got ≡ length mixed
      → distance mixed got ≤ 16
      → Delivers (concatenated_fec rs vc sc fuel fec) xs received
  concatenated_fec-corrects_scattered fec xs sent mixed received got depth lo hi made inner same
        inner' size few =
      let (cw, s) =
        encode-IsSent rs vc sc fuel live rs_laws vc_laws fec xs sent mixed depth lo hi made inner in
      let (v, u, run_v, run_u, len_v, len_u, near) =
        deinterleave_near sc fuel live fec.il mixed got depth.0 depth.1 (sym size) in
      let same_v : v ≡ cw = ok-injective (sym run_v ∙ s.unmixed) in
      let near_cw : distance cw u ≤ distance mixed got = rw (← same_v) near in
      corrects rs vc sc fuel live rs_laws vc_laws fec xs sent mixed cw received got u s lo same
        inner' size run_u (omega (arith, len_u, size, s.same))
        (λ j. omega (
          arith,
          few,
          near_cw,
          distance-drop (j * rs_block) cw u,
          distance-take rs_block (drop (j * rs_block) cw) (drop (j * rs_block) u),
        ))
