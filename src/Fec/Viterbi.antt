-- ===== src/Fec/Viterbi.antt =====
-- src/fec/viterbi.rs: the inner code in sub-blocks. The `viterbi` crate is the parameter
-- `ViterbiCrate`. Products of lengths of one sub-block stay far below 2^64.
pub mod Framing
pub mod Chunks
pub mod RoundTrip
pub mod Total
use cryptovault.Common.{
  ℕ, zero, suc, ◌+◌, ◌-◌, ◌*◌, ◌/◌, ◌%◌, max, Option, none, some, List, [], ◌∷◌, ◌++◌, ◌==◌, ◌||◌,
  not, ltb, if◌then◌else◌, length, take, drop, replicate,
}
use cryptovault.Consts.{viterbi_chunk, termination_overhead}
use cryptovault.Error.{
  CryptoError, Result, ok, err, expect, ◌>>=◌, ◌>>◌, reject_if, invalid_input, error_correction,
}
use cryptovault.Slice.{slice, checked_sub}

abbrev pub tail_bytes : ℕ
tail_bytes = termination_overhead

abbrev pub full_chunk_body : ℕ
full_chunk_body = 2 * viterbi_chunk + tail_bytes

abbrev pub min_chunk_body : ℕ
min_chunk_body = 2 + tail_bytes

-- What `decode_block` answers.
pub data Decoded : Type 0 where
  decoded : List ℕ → Decoded
  length_mismatch input_too_long allocation_failed : Decoded

-- The encoder and decoder of the crate, at the CCSDS parameters. A decoder is mutable: a call of
-- `decode_block` also returns the decoder that it leaves.
pub record ViterbiCrate : Type 1 where
  pub Encoder : Type 0
  pub Decoder : Type 0
  pub new_encoder : Option Encoder
  pub encode_block : Encoder → List ℕ → Option (List ℕ)
  pub new_decoder : ℕ → Option Decoder
  pub decode_block : Decoder → List ℕ → ℕ → Decoded × Decoder

unfoldable pub coded_nbits : ℕ → Result ℕ
unfolding checked_sub
coded_nbits body_len = checked_sub (8 * body_len) 4

-- `slice::chunks(n)`: pieces of `n` elements, the last one shorter.
unfoldable pub chunks_up_to {ℓ} : {A : Type ℓ} → ℕ → ℕ → List A → List (List A)
chunks_up_to fuel n [] = []
chunks_up_to zero n (x ∷ xs) = []
chunks_up_to (suc fuel) n (x ∷ xs) = take n (x ∷ xs) ∷ chunks_up_to fuel n (drop n (x ∷ xs))

unfoldable pub chunks {ℓ} : {A : Type ℓ} → ℕ → List A → List (List A)
unfolding chunks_up_to
chunks n xs = chunks_up_to (length xs) n xs

unfoldable pub chunk_body_lengths : ℕ → Result (List ℕ)
chunk_body_lengths total =
    let full = total / full_chunk_body in
    let rem = total % full_chunk_body in
    let bodies = replicate full full_chunk_body in
    if not (rem == 0)
    then (if ltb rem min_chunk_body || not (rem % 2 == 0)
        then err (invalid_input "malformed blob")
        else ok (bodies ++ (rem ∷ [])))
    else ok bodies

-- `.map(|b| b / 2 - 1)` over the bodies
unfoldable pub info_lengths : List ℕ → Result (List ℕ)
unfolding checked_sub
info_lengths [] = ok []
info_lengths (b ∷ bodies) = do
  info ← checked_sub (b / 2) 1
  rest ← info_lengths bodies
  ok (info ∷ rest)

-- `.sum()`
unfoldable pub sum : List ℕ → ℕ
sum [] = 0
sum (x ∷ xs) = x + sum xs

-- `.max().unwrap_or(0)`
unfoldable pub max_of : List ℕ → ℕ
max_of [] = 0
max_of (x ∷ xs) = max x (max_of xs)

unfoldable pub rs_len_from_body : ℕ → Result ℕ
unfolding chunk_body_lengths info_lengths sum
rs_len_from_body body_len = do
  bodies ← chunk_body_lengths body_len
  infos ← info_lengths bodies
  ok (sum infos)

-- `map_decode_error`, on the answers that are errors
abbrev pub decode_answer : Decoded → Result (List ℕ)
decode_answer (decoded bytes) = ok bytes
decode_answer length_mismatch = err (invalid_input "malformed blob")
decode_answer input_too_long = err (invalid_input "malformed blob")
decode_answer allocation_failed = err (error_correction "forward error correction failed")

module _ (vc : ViterbiCrate) where
  open vc use {Encoder, Decoder, new_encoder, encode_block, new_decoder, decode_block}

  -- The loop of `ViterbiCodec::encode`.
  unfoldable pub encode_chunks : Encoder → List (List ℕ) → List ℕ → Result (List ℕ)
  encode_chunks encoder [] out = ok out
  encode_chunks encoder (chunk ∷ rest) out = do
    coded ← expect (encode_block encoder chunk)
    encode_chunks encoder rest (out ++ coded)

  -- `ViterbiCodec::encode`
  unfoldable pub encode : List ℕ → Result (List ℕ)
  unfolding encode_chunks chunks
  encode rs_stream = do
    encoder ← expect new_encoder
    encode_chunks encoder (chunks viterbi_chunk rs_stream) []

  unfoldable pub build_decoder : ℕ → Result Decoder
  build_decoder max_info_bytes = elim (new_decoder (max_info_bytes * 8)) [
    | none ↦ err (error_correction "forward error correction failed")
    | some d ↦ ok d
  ]

  -- The loop of `ViterbiCodec::decode`.
  unfoldable pub decode_bodies : Decoder → List ℕ → List ℕ → ℕ → List ℕ → Result (List ℕ)
  unfolding coded_nbits slice
  decode_bodies decoder [] blob_body offset out = ok out
  decode_bodies decoder (body_len ∷ bodies) blob_body offset out = do
    bytes ← slice blob_body offset (offset + body_len)
    nbits ← coded_nbits body_len
    let (answer, decoder') = decode_block decoder bytes nbits
    info ← decode_answer answer
    decode_bodies decoder' bodies blob_body (offset + body_len) (out ++ info)

  -- `ViterbiCodec::decode`
  unfoldable pub decode : List ℕ → Result (List ℕ)
  unfolding chunk_body_lengths info_lengths max_of build_decoder decode_bodies
  decode [] = ok []
  decode (b ∷ bs) = do
    bodies ← chunk_body_lengths (length (b ∷ bs))
    infos ← info_lengths bodies
    decoder ← build_decoder (max_of infos)
    decode_bodies decoder bodies (b ∷ bs) 0 []
