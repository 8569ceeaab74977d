-- ===== src/Vault/Size.antt =====
-- src/vault.rs: what is encrypted, and how long the text is.
use cryptovault.Common.{
  ℕ, ◌+◌, ◌*◌, ◌≤◌, ◌≡◌, ◌≢◌, ◌<◌, ◌⊎◌, inl, inr, ℕ_discrete, dec_lt, sym, ap, ◌∙◌, List, ◌++◌,
  arith, length, length-append,
}
use cryptovault.Consts.{
  key_len, nonce_len, tag_len, header_len, rs_data, rs_block, max_plaintext_len, max_b64_len,
  blob_version, div_ceil,
}
use cryptovault.Error.{ok, err, invalid_input, ok-injective}
use cryptovault.Blob.{encode_blob, protected_payload}
use cryptovault.Blob.RoundTrip.{length-protected_payload}
use cryptovault.Cipher.{Entropy}
use cryptovault.Fec.{protected_max}
use cryptovault.Fec.Concat.{ConcatenatedFec, encode}
use cryptovault.Fec.Concat.Contract.{IsDepth}
use cryptovault.Fec.Interleaver.Csprng.RoundTrip.{IsLive}
use cryptovault.Fec.Interleaver.Layers.{deinterleave-interleave_any}
use cryptovault.Fec.ReedSolomon.Contract.{encode_lem}
use cryptovault.Fec.ReedSolomon.Laws.{blocks_of}
use cryptovault.Fec.Viterbi.Framing.{coded_len}
use cryptovault.Fec.Viterbi.RoundTrip.{decode-encode}
use cryptovault.Vault.{encrypt_bytes_aad}
use cryptovault.Vault.Default.{Crates, IsDocumented, vault_of, vault_of-IsVault}
use cryptovault.Vault.Guards.{wrong_master, encrypt_bytes_aad-wrong, long_plaintext_refused}
use cryptovault.Vault.Laws.{Supplies}
use cryptovault.Vault.Sealed.{encrypt_bytes_aad-IsSealed}

-- The length of the text for a plaintext of `n` bytes: header, nonce, ciphertext and tag, in whole
-- codewords, coded twice over with two bytes for each sub-block, four characters for three bytes.
abbrev pub text_size : ℕ → ℕ
text_size n =
    let codewords = div_ceil (header_len + nonce_len + n + tag_len) rs_data in
    4 * div_ceil (coded_len (codewords * rs_block)) 3

module _ (crates : Crates) (live : IsLive crates.sc crates.fuel) (laws : IsDocumented crates)
    (fec : ConcatenatedFec) (depth : IsDepth fec) where
  open crates use {kc, b64, rs, vc, sc, fuel}

  -- The stack makes a blob of a length that depends on the length of the payload only.
  encode_size :
      (xs : List ℕ)
      → length xs ≤ protected_max
      → (body : List ℕ) × (encode rs vc sc fuel fec xs ≡ ok body)
        × (length body ≡ coded_len (blocks_of (length xs) * rs_block))
  unfolding encode
  encode_size xs hi =
      let (cw, run, size, _) = encode_lem rs laws.rs_laws xs (omega arith) in
      let (mixed, mix, same, _) =
        deinterleave-interleave_any sc fuel live fec.il cw depth.0 depth.1 in
      let (body, code, coded, _) = decode-encode vc laws.vc_laws mixed in
      (body, rw (run, mix) code, coded ∙ ap coded_len (omega (arith, same, size)))

  -- An encryption on every branch: in a vault of the default parts with a depth of 1 to 16, over
  -- crates that behave as documented, a live keystream and a generator that supplies a nonce, for
  -- every key, plaintext, purpose and context, either the key has not 32 bytes and is refused, or
  -- the plaintext is above the cap and is refused, or a text is returned, as long as the constants
  -- say for the length of the plaintext and within the cap that decryption puts on a text.
  pub encrypt_bytes_aad_cases :
      (entropy : Entropy) (master pt extra : List ℕ) (purpose : ℕ)
      → Supplies entropy nonce_len
      → ((length master ≢ key_len)
          × (encrypt_bytes_aad kc b64 (vault_of crates fec) entropy master pt purpose extra
              ≡ wrong_master))
        ⊎ ((length master ≡ key_len)
            × (max_plaintext_len < length pt)
            × (encrypt_bytes_aad kc b64 (vault_of crates fec) entropy master pt purpose extra
                ≡ err (invalid_input "plaintext exceeds maximum size")))
        ⊎ ((length master ≡ key_len)
            × (length pt ≤ max_plaintext_len)
            × ((text : List ℕ) × (encrypt_bytes_aad kc b64
                    (vault_of crates fec)
                    entropy
                    master
                    pt
                    purpose
                    extra
                  ≡ ok text)
                × (length text ≡ text_size (length pt))
                × (length text ≤ max_b64_len)))
  unfolding encode_blob
  encrypt_bytes_aad_cases entropy master pt extra purpose drawn =
      let vault = vault_of crates fec in
      elim (ℕ_discrete (length master) key_len) [
        | no ne ↦ inl (ne, encrypt_bytes_aad-wrong kc b64 vault entropy master pt purpose extra ne)
        | yes hm ↦ elim (dec_lt max_plaintext_len (length pt)) [
          | yes big ↦ inr (
              inl (
                hm,
                big,
                long_plaintext_refused kc b64 vault entropy master pt purpose extra hm big,
              ))
          | no small ↦
              let hp : length pt ≤ max_plaintext_len = omega arith in
              let (key, nonce, ct, blob, run, s) =
                encrypt_bytes_aad-IsSealed kc b64 vault
                  (vault_of-IsVault crates live laws fec depth) entropy master pt extra purpose
                  drawn hm hp in
              let payload = protected_payload blob_version (length pt) (nonce ++ ct) in
              let long : length payload ≡ header_len + nonce_len + length pt + tag_len = omega (
                arith,
                length-protected_payload (length pt) (nonce ++ ct),
                length-append nonce ct,
                s.nonce_size,
                s.size,
              ) in
              let (body, made, size) = encode_size payload (omega arith) in
              let coded : length blob ≡ coded_len (blocks_of (length payload) * rs_block) =
                ap length (ok-injective (sym s.encoded ∙ made)) ∙ size in
              let chars = laws.base64.size blob in
              inr (
                inr (
                  hm,
                  hp,
                  (
                    b64.b64_encode blob,
                    run,
                    chars
                        ∙ ap (λ (l : ℕ). 4 * div_ceil l 3)
                            (coded ∙ ap (λ (l : ℕ). coded_len (blocks_of l * rs_block)) long),
                    omega (arith, chars, s.bound),
                  ),
                ))
        ]
      ]
