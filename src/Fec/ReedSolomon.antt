-- ===== src/Fec/ReedSolomon.antt =====
-- src/fec/rs.rs: the outer code. The `reedsolomon` crate is the parameter `RsCrate`.
pub mod Laws
pub mod Contract
use cryptovault.Common.{
  ℕ, ◌*◌, ◌/◌, ◌%◌, List, Option, none, some, ◌==◌, ltb, leb, if◌then◌else◌, length,
}
use cryptovault.Consts.{max_blob_len, rs_block, rs_data}
use cryptovault.Error.{
  Result, ok, err, expect, ◌>>=◌, ◌>>◌, reject_if, invalid_input, error_correction,
}
use cryptovault.Fec.{ErrorCorrection}

-- What the crate's `decode` answers.
pub data RsAnswer : Type 0 where
  corrected : List ℕ → RsAnswer
  uncorrectable rs_invalid_input : RsAnswer

pub record RsCrate : Type 0 where
  pub rs_encode : List ℕ → Option (List ℕ)
  pub rs_decode : List ℕ → ℕ → RsAnswer

unfoldable pub block_count : ℕ → Option ℕ
block_count byte_len = if byte_len % rs_block == 0 then some (byte_len / rs_block) else none

abbrev pub rs_answer : RsAnswer → Result (List ℕ)
rs_answer (corrected bytes) = ok bytes
rs_answer uncorrectable = err (error_correction "forward error correction failed")
rs_answer rs_invalid_input = err (invalid_input "malformed blob")

-- `validate_pre_fec`, which calls nothing of the crate.
unfoldable pub validate_pre_fec : List ℕ → Result ℕ
unfolding block_count
validate_pre_fec received = do
  reject_if (ltb max_blob_len (length received)) (invalid_input "input exceeds maximum size")
  elim (block_count (length received)) [
    | none ↦ err (invalid_input "malformed blob")
    | some blocks ↦
        if leb 1 blocks then ok (blocks * rs_data) else err (invalid_input "malformed blob")
  ]

module _ (rs : RsCrate) where
  open rs use {rs_encode, rs_decode}

  unfoldable pub encode : List ℕ → Result (List ℕ)
  encode payload = expect (rs_encode payload)

  unfoldable pub decode : List ℕ → ℕ → Result (List ℕ)
  unfolding block_count
  decode encoded pre_len = elim (block_count (length encoded)) [
    | none ↦ err (invalid_input "malformed blob")
    | some blocks ↦ rs_answer (rs_decode encoded pre_len)
  ]

  abbrev pub reed_solomon_codec : ErrorCorrection
  reed_solomon_codec = record {
    encode = encode;
    decode = decode;
    validate_pre_fec = validate_pre_fec;
  }
