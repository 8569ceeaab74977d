-- ===== src/Blob.antt =====
-- src/blob.rs: `encode_blob` and `decode_blob` over any error-correction strategy.
pub mod RoundTrip
pub mod Sound
use cryptovault.Common.{ℕ, ◌+◌, ◌*◌, ◌≤◌, ◌<◌, List, [], ◌∷◌, ◌++◌, ◌==◌, not, ltb, length}
use cryptovault.Consts.{blob_version, header_len, nonce_len, tag_len, max_plaintext_len}
use cryptovault.Error.{Result, ok, err, ◌>>=◌, ◌>>◌, reject_if, invalid_input}
use cryptovault.Fec.{ErrorCorrection}
use cryptovault.Slice.{read, slice, to_le_bytes, from_le_bytes}

-- The protected payload of `encode_blob`.
abbrev pub protected_payload : ℕ → ℕ → List ℕ → List ℕ
protected_payload version plaintext_len body = version ∷ (to_le_bytes 4 plaintext_len ++ body)

module _ (fec : ErrorCorrection) where
  unfoldable pub encode_blob : ℕ → ℕ → List ℕ → Result (List ℕ)
  encode_blob version plaintext_len body = fec.encode (protected_payload version plaintext_len body)

-- The header checks of `decode_blob`, on the corrected payload.
unfoldable pub parse_protected : List ℕ → Result (ℕ × ℕ × List ℕ)
unfolding read slice from_le_bytes
parse_protected protected = do
  reject_if (ltb (length protected) header_len) (invalid_input "malformed blob")
  version ← read protected 0
  reject_if (not (version == blob_version)) (invalid_input "unsupported blob version")
  len_bytes ← slice protected 1 header_len
  let plaintext_len = from_le_bytes len_bytes
  reject_if (ltb max_plaintext_len plaintext_len) (invalid_input "malformed blob")
  let protected_len = header_len + nonce_len + plaintext_len + tag_len
  reject_if (ltb (length protected) protected_len) (invalid_input "malformed blob")
  body ← slice protected header_len protected_len
  ok (version, plaintext_len, body)

module _ (fec : ErrorCorrection) where
  unfoldable pub decode_blob : List ℕ → Result (ℕ × ℕ × List ℕ)
  unfolding parse_protected
  decode_blob received = do
    recovered_len ← fec.validate_pre_fec received
    protected ← fec.decode received recovered_len
    parse_protected protected
