-- ===== src/Fec/Concat/Keyed.antt =====
-- `ConcatenatedFec::with_csprng_from_master`: the stack with the keyed interleaver.
use cryptovault.Common.{ℕ, ◌≤◌, ◌≡◌, List, eq→==, arith, length}
use cryptovault.Consts.{key_len}
use cryptovault.Error.{ok}
use cryptovault.Fec.{Carries, protected_max}
use cryptovault.Fec.Concat.{ConcatenatedFec, with_csprng_from_master, concatenated_fec}
use cryptovault.Fec.Concat.Contract.{concatenated_fec-Carries}
use cryptovault.Fec.Interleaver.Block
use cryptovault.Fec.Interleaver.Csprng
use cryptovault.Fec.Interleaver.Csprng.{StreamCipher, CsprngLayer}
use cryptovault.Fec.Interleaver.Csprng.RoundTrip.{IsLive}
use cryptovault.Fec.Interleaver.Layers.{block_then_csprng}
use cryptovault.Fec.ReedSolomon.{RsCrate}
use cryptovault.Fec.ReedSolomon.Laws.{IsReedSolomon}
use cryptovault.Fec.Viterbi.{ViterbiCrate}
use cryptovault.Fec.Viterbi.RoundTrip.{IsViterbi}
use cryptovault.Kdf.{KdfCrates, good, expand_interleaver_seed, hkdf_expand, hkdf_info_interleaver}

block_new-ok :
    (depth : ℕ) → 1 ≤ depth → depth ≤ 16 → Block.new depth ≡ ok (record { depth = depth })
unfolding Block.new
block_new-ok depth lo hi = ground arith

csprng_new-ok :
    (seed : List ℕ) → length seed ≡ key_len → Csprng.new seed ≡ ok (record { seed = seed })
unfolding Csprng.new
csprng_new-ok seed size = rw (eq→== (length seed) key_len size)

expand_interleaver_seed-ok :
    (kc : KdfCrates) (master seed : List ℕ)
    → kc.hkdf master hkdf_info_interleaver key_len ≡ good seed
    → expand_interleaver_seed kc master ≡ ok seed
unfolding expand_interleaver_seed hkdf_expand
expand_interleaver_seed-ok kc master seed h = rw h

-- The stack at a seed and a depth.
abbrev pub keyed : List ℕ → ℕ → ConcatenatedFec
keyed seed depth = record {
  il = block_then_csprng (record { depth = depth }) (record { seed = seed });
}

pub with_csprng_from_master-ok :
    (kc : KdfCrates) (master seed : List ℕ) (depth : ℕ)
    → length master ≡ key_len
    → kc.hkdf master hkdf_info_interleaver key_len ≡ good seed
    → length seed ≡ key_len
    → 1 ≤ depth
    → depth ≤ 16
    → with_csprng_from_master kc master depth ≡ ok (keyed seed depth)
unfolding with_csprng_from_master
with_csprng_from_master-ok kc master seed depth hm drawn hs lo hi = rw (
  eq→== (length master) key_len hm,
  expand_interleaver_seed-ok kc master seed drawn,
  block_new-ok depth lo hi,
  csprng_new-ok seed hs,
)

-- If the crates behave as documented and the keystream is live, a master key of 32 bytes from which
-- HKDF derives a seed of 32 bytes, and a depth of 1 to 16, give a stack with the keyed interleaver, and
-- this stack carries every payload of 1 byte up to the protected cap.
pub with_csprng_from_master-Carries :
    (kc : KdfCrates) (rs : RsCrate) (vc : ViterbiCrate) (sc : StreamCipher) (fuel : ℕ)
    → IsLive sc fuel
    → IsReedSolomon rs
    → IsViterbi vc
    → (master seed xs : List ℕ) (depth : ℕ) → length master ≡ key_len
    → kc.hkdf master hkdf_info_interleaver key_len ≡ good seed
    → length seed ≡ key_len
    → 1 ≤ depth
    → depth ≤ 16
    → 1 ≤ length xs
    → length xs ≤ protected_max
    → (stack : ConcatenatedFec) × (with_csprng_from_master kc master depth ≡ ok stack)
      × Carries (concatenated_fec rs vc sc fuel stack) xs
with_csprng_from_master-Carries kc rs vc sc fuel live rs_laws vc_laws master seed xs depth hm drawn
      hs lo hi some_bytes cap =
    (
      keyed seed depth,
      with_csprng_from_master-ok kc master seed depth hm drawn hs lo hi,
      concatenated_fec-Carries rs vc sc fuel live rs_laws vc_laws (keyed seed depth) (lo, hi) xs
          some_bytes cap,
    )
