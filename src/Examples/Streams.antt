-- ===== src/Examples/Streams.antt =====
-- The theorems on the error correction at work.
use cryptovault.Common.{
  ℕ, ◌*◌, ◌≤◌, ◌≡◌, ◌≢◌, ◌↔◌, ◌⊎◌, refl, List, [], ◌∷◌, arith, length, replicate, get_elem?, zero,
  suc, take, drop-all, length-replicate, ap,
}
use cryptovault.Error.{ok, err, invalid_input, Returns}
use cryptovault.Fec.{Carries, IsTotal}
use cryptovault.Fec.Concat.{ConcatenatedFec, with_csprng_from_master, concatenated_fec}
use cryptovault.Blob.{decode_blob}
use cryptovault.Fec.Concat
use cryptovault.Fec.Concat.Keyed.{with_csprng_from_master-Carries}
use cryptovault.Fec.Concat.Contract.{concatenated_fec-IsTotal, concatenated_fec-Carries}
use cryptovault.Fec.Interleaver.Block
use cryptovault.Fec.Interleaver.Block.{BlockInterleaver}
use cryptovault.Fec.Interleaver.Block.Full.{source, codeword}
use cryptovault.Fec.Interleaver.Block.Burst.{burst_spreads}
use cryptovault.Fec.Interleaver.Block.RoundTrip.{deinterleave-interleave}
use cryptovault.Fec.Interleaver.Csprng
use cryptovault.Fec.Interleaver.Csprng.{CsprngLayer}
use cryptovault.Fec.Interleaver.Csprng.RoundTrip.{deinterleave-interleave_keyed}
use cryptovault.Fec.Interleaver.Layers
use cryptovault.Fec.Interleaver.Layers.{
  Interleaver, block, block_then_csprng, deinterleave-interleave_any, deinterleave_near,
}
use cryptovault.Fec.PreFec
use cryptovault.Fec.PreFec.{Framed, IsRefusal, validate_pre_fec-Framed, validate_pre_fec_iff}
use cryptovault.Fec.ReedSolomon
use cryptovault.Fec.ReedSolomon.{reed_solomon_codec}
use cryptovault.Fec.ReedSolomon.Contract.{reed_solomon_codec-IsTotal, reed_solomon_codec-Carries}
use cryptovault.Fec.ReedSolomon.Laws.{codeword_at, distance, distance_self, padded, decode-noisy}
use cryptovault.Fec.Viterbi
use cryptovault.Fec.Viterbi.{rs_len_from_body}
use cryptovault.Fec.Viterbi.Framing.{coded_len, rs_len_from_body_iff}
use cryptovault.Fec.Viterbi.RoundTrip.{decode-encode}
use cryptovault.Fec.Viterbi.Total.{decode-Returns}
use cryptovault.Fec.ViterbiOnly.{
  viterbi_only_fec, viterbi_only_fec-Carries, viterbi_only_fec-IsTotal,
}
use cryptovault.Examples.Code.{code}
use cryptovault.Examples.Crates.{
  kdf_crates, viterbi_crate, viterbi_crate-IsViterbi, stream_cipher, stream_cipher-IsLive,
}
use cryptovault.Examples.Repetition.{rs_crate, rs_crate-IsReedSolomon}

abbrev two_rows : BlockInterleaver
two_rows = record { depth = 2 }

abbrev layer : CsprngLayer
layer = record { seed = replicate 32 3 }

abbrev keyed_stack : ConcatenatedFec
keyed_stack = record { il = block_then_csprng two_rows layer }

abbrev payload : List ℕ
payload = 1 ∷ 2 ∷ 3 ∷ []

abbrev window : List ℕ
window = replicate 510 4

concatenated_fec-Carries_example :
    Carries (concatenated_fec rs_crate viterbi_crate stream_cipher 2 keyed_stack) payload
concatenated_fec-Carries_example =
    concatenated_fec-Carries rs_crate viterbi_crate stream_cipher 2 stream_cipher-IsLive
      rs_crate-IsReedSolomon viterbi_crate-IsViterbi keyed_stack (omega arith, omega arith) payload
      (omega arith) (omega arith)

concatenated_fec-IsTotal_example :
    IsTotal (concatenated_fec rs_crate viterbi_crate stream_cipher 2 keyed_stack)
concatenated_fec-IsTotal_example =
    concatenated_fec-IsTotal rs_crate viterbi_crate stream_cipher 2 stream_cipher-IsLive keyed_stack
      (omega arith, omega arith)

viterbi_only_fec-Carries_example : Carries (viterbi_only_fec viterbi_crate) payload
viterbi_only_fec-Carries_example =
    viterbi_only_fec-Carries viterbi_crate viterbi_crate-IsViterbi payload (omega arith)
      (omega arith)

viterbi_only_fec-IsTotal_example : IsTotal (viterbi_only_fec viterbi_crate)
viterbi_only_fec-IsTotal_example = viterbi_only_fec-IsTotal viterbi_crate

reed_solomon_codec-Carries_example : Carries (reed_solomon_codec rs_crate) payload
reed_solomon_codec-Carries_example =
    reed_solomon_codec-Carries rs_crate rs_crate-IsReedSolomon payload (omega arith) (omega arith)

reed_solomon_codec-IsTotal_example : IsTotal (reed_solomon_codec rs_crate)
reed_solomon_codec-IsTotal_example = reed_solomon_codec-IsTotal rs_crate

burst_spreads_example :
    (t : List ℕ) × (Block.interleave two_rows window ≡ ok t)
    × (get_elem? t 6 ≡ get_elem? window (source two_rows 6))
    × (get_elem? t 7 ≡ get_elem? window (source two_rows 7))
    × (codeword (source two_rows 6) ≢ codeword (source two_rows 7))
burst_spreads_example =
    burst_spreads two_rows window 1 6 7 (omega arith) refl (omega arith) (omega arith) (omega arith)

deinterleave-interleave_example :
    (t : List ℕ) × (Block.interleave two_rows payload ≡ ok t)
    × (length t ≡ length payload)
    × (Block.deinterleave two_rows t ≡ ok payload)
deinterleave-interleave_example = deinterleave-interleave two_rows payload (omega arith)

deinterleave-interleave_keyed_example :
    (t : List ℕ) × (Csprng.interleave stream_cipher 2 layer payload 510 ≡ ok t)
    × (length t ≡ length payload)
    × (Csprng.deinterleave stream_cipher 2 layer t 510 ≡ ok payload)
deinterleave-interleave_keyed_example =
    deinterleave-interleave_keyed stream_cipher 2 stream_cipher-IsLive layer payload 510
      (omega arith) (omega arith)

deinterleave-interleave_any_example :
    (t : List ℕ) × (Layers.interleave stream_cipher 2 keyed_stack.il payload ≡ ok t)
    × (length t ≡ length payload)
    × (Layers.deinterleave stream_cipher 2 keyed_stack.il t ≡ ok payload)
deinterleave-interleave_any_example =
    deinterleave-interleave_any stream_cipher 2 stream_cipher-IsLive keyed_stack.il payload
      (omega arith) (omega arith)

deinterleave_near_example :
    (u : List ℕ) × (v : List ℕ) × (Layers.deinterleave stream_cipher 2 keyed_stack.il payload
      ≡ ok u)
    × (Layers.deinterleave stream_cipher 2 keyed_stack.il (9 ∷ 2 ∷ 3 ∷ []) ≡ ok v)
    × (length u ≡ length payload)
    × (length v ≡ 3)
    × (distance u v ≤ distance payload (9 ∷ 2 ∷ 3 ∷ []))
deinterleave_near_example =
    deinterleave_near stream_cipher 2 stream_cipher-IsLive keyed_stack.il payload (9 ∷ 2 ∷ 3 ∷ [])
      (omega arith) (omega arith) refl

decode-encode_example :
    (body : List ℕ) × (Viterbi.encode viterbi_crate payload ≡ ok body)
    × (length body ≡ coded_len 3)
    × (Viterbi.decode viterbi_crate body ≡ ok payload)
decode-encode_example = decode-encode viterbi_crate viterbi_crate-IsViterbi payload

decode-Returns_example : Returns (Viterbi.decode viterbi_crate payload)
decode-Returns_example = decode-Returns viterbi_crate payload

rs_len_from_body_iff_example :
    ((l : ℕ) → (rs_len_from_body 512 ≡ ok l) ↔ (512 ≡ coded_len l))
    × (((l : ℕ) × (rs_len_from_body 512 ≡ ok l))
        ⊎ (rs_len_from_body 512 ≡ err (invalid_input "malformed blob")))
rs_len_from_body_iff_example = rs_len_from_body_iff 512

validate_pre_fec_iff_example :
    ((l : ℕ) → (PreFec.validate_pre_fec payload ≡ ok l) ↔ Framed 3 l)
    × (((l : ℕ) × (PreFec.validate_pre_fec payload ≡ ok l))
        ⊎ IsRefusal (PreFec.validate_pre_fec payload))
validate_pre_fec_iff_example = validate_pre_fec_iff payload

abbrev symbol : ℕ
symbol = code (padded payload)

-- One symbol of the codeword is wrong, and there is no second codeword.
one_wrong :
    (c j : ℕ)
    → distance (codeword_at (replicate 255 c) j) (codeword_at (0 ∷ replicate 254 c) j) ≤ 16
one_wrong c zero = grind (arith, distance_self (replicate 254 c))
one_wrong c (suc j) =
    let none_left : codeword_at (replicate 255 c) (suc j) ≡ [] =
      ap (take 255)
        (drop-all (suc j * 255) (replicate 255 c) (omega (arith, length-replicate 255 c))) in
    rw none_left (omega arith)

decode-noisy_example :
    ReedSolomon.decode rs_crate (0 ∷ replicate 254 symbol) 223 ≡ ok (padded payload)
decode-noisy_example =
    decode-noisy rs_crate rs_crate-IsReedSolomon payload (replicate 255 symbol)
      (0 ∷ replicate 254 symbol) coded refl refl (one_wrong symbol)
  where
    coded : ReedSolomon.encode rs_crate payload ≡ ok (replicate 255 symbol)
    coded = unfold ReedSolomon.encode in refl

with_csprng_from_master-Carries_example :
    (stack : ConcatenatedFec) × (with_csprng_from_master kdf_crates (replicate 32 9) 4 ≡ ok stack)
    × Carries (concatenated_fec rs_crate viterbi_crate stream_cipher 2 stack) payload
with_csprng_from_master-Carries_example =
    with_csprng_from_master-Carries kdf_crates rs_crate viterbi_crate stream_cipher 2
      stream_cipher-IsLive rs_crate-IsReedSolomon viterbi_crate-IsViterbi (replicate 32 9)
      (replicate 32 2) payload 4 refl refl refl (omega arith) (omega arith) (omega arith)
      (omega arith)

payload_refused :
    decode_blob (concatenated_fec rs_crate viterbi_crate stream_cipher 2 keyed_stack) payload
    ≡ err (invalid_input "malformed blob")
unfolding decode_blob Concat.validate_pre_fec PreFec.validate_pre_fec rs_len_from_body
payload_refused = refl
