-- ===== src/Fec/Concat/Messages.antt =====
-- src/fec/mod.rs and src/blob.rs: the errors of `decode_blob` over the concatenated stack.
use cryptovault.Common.{ℕ, ◌+◌, ◌≡◌, inl, inr, refl, List, ◌==◌, not, ltb, length, subst, sym}
use cryptovault.Consts.{header_len, blob_version, max_plaintext_len, nonce_len, tag_len}
use cryptovault.Error.{CryptoError, invalid_input, err, ◌>>=◌, reject_if}
use cryptovault.Blob.{decode_blob, parse_protected}
use cryptovault.Fec.Messages.{
  IsFixed, malformed, IsQuiet, IsQuiet-bind, IsQuiet-reject_if, read-IsQuiet, slice-IsQuiet,
  pre_fec-IsQuiet, viterbi-IsQuiet, reed_solomon-IsQuiet,
}
use cryptovault.Fec.Concat.{ConcatenatedFec, concatenated_fec, decode, validate_pre_fec}
use cryptovault.Fec.Concat.Contract.{IsDepth}
use cryptovault.Fec.Interleaver.Csprng.{StreamCipher}
use cryptovault.Fec.Interleaver.Csprng.RoundTrip.{IsLive}
use cryptovault.Fec.Interleaver.Layers.{deinterleave_total}
use cryptovault.Fec.PreFec
use cryptovault.Fec.ReedSolomon
use cryptovault.Fec.ReedSolomon.{RsCrate}
use cryptovault.Fec.Viterbi
use cryptovault.Fec.Viterbi.{ViterbiCrate}
use cryptovault.Slice.{read, slice, from_le_bytes}

unsupported : IsFixed (invalid_input "unsupported blob version")
unsupported = inr (inr (inl refl))

parse_protected-IsQuiet : (s : List ℕ) → IsQuiet (parse_protected s)
unfolding parse_protected
parse_protected-IsQuiet s =
    IsQuiet-bind (reject_if (ltb (length s) header_len) _) _ (IsQuiet-reject_if _ malformed) (λ _.
      IsQuiet-bind (read s 0) _ (read-IsQuiet s 0) (λ version.
        IsQuiet-bind (reject_if (not (version == blob_version)) _) _
          (IsQuiet-reject_if _ unsupported)
          (λ _. IsQuiet-bind (slice s 1 header_len) _ (slice-IsQuiet s 1 header_len) (λ bytes.
            IsQuiet-bind (reject_if (ltb max_plaintext_len (from_le_bytes bytes)) _) _
              (IsQuiet-reject_if _ malformed)
              (λ _.
                IsQuiet-bind
                  (reject_if
                    (ltb (length s) (header_len + nonce_len + from_le_bytes bytes + tag_len)) _)
                  _ (IsQuiet-reject_if _ malformed)
                  (λ _.
                    IsQuiet-bind
                      (slice s header_len (header_len + nonce_len + from_le_bytes bytes + tag_len))
                      _ (slice-IsQuiet s header_len _) (λ body. tt)))))))

module _ (rs : RsCrate) (vc : ViterbiCrate) (sc : StreamCipher) (fuel : ℕ) (live : IsLive sc fuel)
    (fec : ConcatenatedFec) (depth : IsDepth fec) where
  decode-IsQuiet : (received : List ℕ) (n : ℕ) → IsQuiet (decode rs vc sc fuel fec received n)
  unfolding decode
  decode-IsQuiet received n =
      IsQuiet-bind (PreFec.validate_pre_fec received) _ (pre_fec-IsQuiet received) (λ l.
        IsQuiet-bind (Viterbi.decode vc received) _ (viterbi-IsQuiet vc received) (λ stream.
          IsQuiet-bind (reject_if (not (length stream == l)) _) _ (IsQuiet-reject_if _ malformed)
            (λ _.
              let (s, run, size) = deinterleave_total sc fuel live fec.il stream depth.0 depth.1 in
              subst (λ r. IsQuiet (r >>= λ codewords. ReedSolomon.decode rs codewords n)) (sym run)
                (reed_solomon-IsQuiet rs s n))))

  decode_blob-IsQuiet :
      (received : List ℕ) → IsQuiet (decode_blob (concatenated_fec rs vc sc fuel fec) received)
  unfolding decode_blob validate_pre_fec
  decode_blob-IsQuiet received =
      IsQuiet-bind (validate_pre_fec received) _
        (IsQuiet-bind (PreFec.validate_pre_fec received) _ (pre_fec-IsQuiet received) (λ l. tt))
        (λ n.
          IsQuiet-bind (decode rs vc sc fuel fec received n) _ (decode-IsQuiet received n)
            parse_protected-IsQuiet)

  -- Over the concatenated stack, with a depth of 1 to 16 and a live keystream, whatever was received
  -- and whatever the crates answer, an error of `decode_blob` is one of four errors with fixed messages:
  -- it tells a prober nothing of lengths, places or versions.
  pub decode_blob-IsFixed :
      (received : List ℕ) (e : CryptoError)
      → decode_blob (concatenated_fec rs vc sc fuel fec) received ≡ err e
      → IsFixed e
  decode_blob-IsFixed received e h = subst (λ r. IsQuiet r) h (decode_blob-IsQuiet received)
