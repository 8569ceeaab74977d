-- ===== src/Fec/Concat.antt =====
-- `ConcatenatedFec` of src/fec/mod.rs: Reed-Solomon, then the interleaver, then Viterbi.
pub mod Contract
pub mod Keyed
pub mod Messages
pub mod Noise
pub mod Scattered
use Prim.Native.String.{◌++◌ as append}
use cryptovault.Common.{ℕ, ◌*◌, ◌/◌, List, ◌==◌, not, length}
use cryptovault.Consts.{key_len, rs_block, rs_data}
use cryptovault.Error.{
  CryptoError, Result, ok, err, panic, hang, ◌>>=◌, ◌>>◌, reject_if, invalid_input,
}
use cryptovault.Fec.{ErrorCorrection}
use cryptovault.Fec.Interleaver.Block
use cryptovault.Fec.Interleaver.Csprng
use cryptovault.Fec.Interleaver.Csprng.{StreamCipher}
use cryptovault.Fec.Interleaver.Layers
use cryptovault.Fec.Interleaver.Layers.{Interleaver, block, block_then_csprng}
use cryptovault.Fec.PreFec
use cryptovault.Fec.ReedSolomon
use cryptovault.Fec.ReedSolomon.{RsCrate}
use cryptovault.Fec.Viterbi
use cryptovault.Fec.Viterbi.{ViterbiCrate}
use cryptovault.Kdf.{KdfCrates, expand_interleaver_seed}

-- The two other stages, `ReedSolomonCodec` and `ViterbiCodec`, have no fields.
pub record ConcatenatedFec : Type 0 where
  pub il : Interleaver

-- `ConcatenatedFec::new`
abbrev pub new : Interleaver → ConcatenatedFec
new il = record { il = il }

abbrev pub default_interleave_depth : ℕ
default_interleave_depth = 5

-- `Result::expect`
abbrev expect_value {ℓ} : {A : Type ℓ} → Result A → Result A
expect_value (ok a) = ok a
expect_value (err e) = panic
expect_value panic = panic
expect_value hang = hang

-- `ConcatenatedFec::default`
unfoldable pub default_stack : Result ConcatenatedFec
unfolding Block.new
default_stack = do b ← expect_value (Block.new default_interleave_depth); ok (new (block b))

-- `ConcatenatedFec::with_csprng_from_master`
unfoldable pub with_csprng_from_master : KdfCrates → List ℕ → ℕ → Result ConcatenatedFec
unfolding expand_interleaver_seed Block.new Csprng.new
with_csprng_from_master kc master depth = do
  reject_if (not (length master == key_len)) (invalid_input "master key must be exactly 32 bytes")
  seed ← expand_interleaver_seed kc master
  b ← Block.new depth
  csprng ← Csprng.new seed
  ok (new (block_then_csprng b csprng))

unfoldable pub validate_pre_fec : List ℕ → Result ℕ
unfolding PreFec.validate_pre_fec
validate_pre_fec received = do l ← PreFec.validate_pre_fec received; ok (l / rs_block * rs_data)

module _ (rs : RsCrate) (vc : ViterbiCrate) (sc : StreamCipher) (fuel : ℕ) where
  unfoldable pub encode : ConcatenatedFec → List ℕ → Result (List ℕ)
  encode fec payload = do
    codewords ← ReedSolomon.encode rs payload
    mixed ← Layers.interleave sc fuel fec.il codewords
    Viterbi.encode vc mixed

  unfoldable pub decode : ConcatenatedFec → List ℕ → ℕ → Result (List ℕ)
  decode fec encoded pre_len = do
    l ← PreFec.validate_pre_fec encoded
    rs_stream ← Viterbi.decode vc encoded
    reject_if (not (length rs_stream == l)) (invalid_input "malformed blob")
    codewords ← Layers.deinterleave sc fuel fec.il rs_stream
    ReedSolomon.decode rs codewords pre_len

  abbrev pub concatenated_fec : ConcatenatedFec → ErrorCorrection
  concatenated_fec fec = record {
    encode = encode fec;
    decode = decode fec;
    validate_pre_fec = validate_pre_fec;
  }
