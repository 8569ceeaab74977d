-- ===== src/Vault/Noise.antt =====
-- src/vault.rs: decryption of a blob that a noisy channel delivered.
use cryptovault.Common.{
  ℕ, ◌+◌, ◌*◌, ◌/◌, ◌≤◌, ◌≡◌, sym, ap, ◌∙◌, List, ◌++◌, some, arith, length, length-append,
}
use cryptovault.Consts.{
  key_len, nonce_len, tag_len, blob_version, max_plaintext_len, max_b64_len, rs_block,
}
use cryptovault.Error.{ok, ok-injective}
use cryptovault.Blob.{protected_payload, encode_blob}
use cryptovault.Blob.RoundTrip.{decode_blob-Delivers, length-protected_payload}
use cryptovault.Cipher.{Entropy}
use cryptovault.Fec.{Delivers, protected_max}
use cryptovault.Fec.ReedSolomon.Laws.{distance}
use cryptovault.Fec.Concat.Contract.{IsDepth}
use cryptovault.Fec.Concat.Scattered.{concatenated_fec-corrects_scattered}
use cryptovault.Fec.Concat.{ConcatenatedFec, encode}
use cryptovault.Fec.Concat.Noise.{concatenated_fec-corrects_burst}
use cryptovault.Fec.Interleaver.Block.{BlockInterleaver}
use cryptovault.Fec.Interleaver.Block.Noise.{IsBurst, narrowest}
use cryptovault.Fec.Interleaver.Csprng.RoundTrip.{IsLive}
use cryptovault.Fec.Interleaver.Layers.{block}
use cryptovault.Fec.Viterbi
use cryptovault.Kdf.{KdfCrates}
use cryptovault.Vault.{Base64, CryptoVault, encrypt_bytes_aad, decrypt_bytes_aad}
use cryptovault.Vault.Binding.{some-injective}
use cryptovault.Vault.Default.{Crates, vault_of, IsDocumented, vault_of-IsVault}
use cryptovault.Vault.Laws.{Supplies, IsVault}
use cryptovault.Vault.Sealed.{IsSealed, encrypt_bytes_aad-IsSealed, open_body-ok, decrypt_steps}

-- Over any strategy, bytes that deliver the payload of a sealed plaintext decrypt to it.
decrypt_bytes_aad-Delivers :
    (kc : KdfCrates) (b64 : Base64) (vault : CryptoVault)
    (master pt extra key nonce ct blob received : List ℕ) (purpose : ℕ)
    → IsVault kc b64 vault
    → length master ≡ key_len
    → length pt ≤ max_plaintext_len
    → IsSealed kc vault master pt purpose extra key nonce ct blob
    → length received ≡ length blob
    → Delivers vault.fec (protected_payload blob_version (length pt) (nonce ++ ct)) received
    → decrypt_bytes_aad kc b64 vault master (b64.b64_encode received) purpose extra ≡ ok pt
decrypt_bytes_aad-Delivers kc b64 vault master pt extra key nonce ct blob received purpose laws hm
      hp s same delivered =
    let body : length (nonce ++ ct) ≡ nonce_len + length pt + tag_len =
      omega (arith, length-append nonce ct, s.nonce_size, s.size) in
    let cap : length received ≤ vault.accept_cap = omega (arith, laws.cap, s.bound) in
    let short : length (b64.b64_encode received) ≤ max_b64_len =
      omega (arith, laws.base64.size received, s.bound) in
    decrypt_steps kc b64 vault master (b64.b64_encode received) received (nonce ++ ct) pt extra
      purpose (length pt) hm short (laws.base64.back received) cap
      (decode_blob-Delivers vault.fec (length pt) (nonce ++ ct) received delivered hp body)
      (open_body-ok kc b64 vault master key nonce ct pt purpose extra (length pt) s.key_eq
        s.nonce_size s.opened)

-- What a sender put on the channel: a payload that is coded to `sent`, and whatever delivers that
-- payload, `sent` long, decrypts to the plaintext.
record IsTransmitted (crates : Crates) (fec : ConcatenatedFec) (master pt extra sent : List ℕ)
    (purpose : ℕ) : Type 1 where
  payload : List ℕ
  some_bytes : 1 ≤ length payload
  fits : length payload ≤ protected_max
  coded : encode crates.rs crates.vc crates.sc crates.fuel fec payload ≡ ok sent
  decrypts :
      (received : List ℕ)
      → length received ≡ length sent
      → Delivers (vault_of crates fec).fec payload received
      → decrypt_bytes_aad crates.kc crates.b64
          (vault_of crates fec)
          master
          (crates.b64.b64_encode received)
          purpose
          extra
        ≡ ok pt

module _ (crates : Crates) where
  open crates use {kc, b64, rs, vc, sc, fuel}

  encrypt_bytes_aad-IsTransmitted :
      IsLive sc fuel
      → IsDocumented crates
      → (fec : ConcatenatedFec) (entropy : Entropy) (master pt extra text sent : List ℕ)
        (purpose : ℕ)
      → IsDepth fec
      → Supplies entropy nonce_len
      → length master ≡ key_len
      → length pt ≤ max_plaintext_len
      → encrypt_bytes_aad kc b64 (vault_of crates fec) entropy master pt purpose extra ≡ ok text
      → b64.b64_decode text ≡ some sent
      → IsTransmitted crates fec master pt extra sent purpose
  unfolding encode_blob
  encrypt_bytes_aad-IsTransmitted live laws fec entropy master pt extra text sent purpose depth
        drawn hm hp made decoded =
      let vault = vault_of crates fec in
      let good_vault = vault_of-IsVault crates live laws fec depth in
      let (key, nonce, ct, blob, run, s) =
        encrypt_bytes_aad-IsSealed kc b64 vault good_vault entropy master pt extra purpose drawn hm
          hp in
      let same_text : b64.b64_encode blob ≡ text = ok-injective (sym run ∙ made) in
      let same_blob : blob ≡ sent =
        some-injective (sym (laws.base64.back blob) ∙ ap b64.b64_decode same_text ∙ decoded) in
      let size : length (protected_payload blob_version (length pt) (nonce ++ ct))
          ≡ 5 + (nonce_len + length pt + tag_len) =
        omega (
          arith,
          length-protected_payload (length pt) (nonce ++ ct),
          length-append nonce ct,
          s.nonce_size,
          s.size,
        ) in
      record {
        payload = protected_payload blob_version (length pt) (nonce ++ ct);
        some_bytes = omega arith;
        fits = omega arith;
        coded = s.encoded ∙ ap ok same_blob;
        decrypts = λ received same delivered.
            decrypt_bytes_aad-Delivers kc b64 vault master pt extra key nonce ct blob received
              purpose good_vault hm hp s (same ∙ ap length (sym same_blob)) delivered;
      }

  -- Reception through noise, end to end: if the crates behave as documented and the keystream is live,
  -- in a vault with the block interleaver at a depth of 1 to 16, a plaintext within the cap that was
  -- encrypted under a key of 32 bytes is returned by `decrypt_bytes_aad`, with that key, purpose and
  -- context, from any received blob as long as the one sent from which the inner code reads a stream
  -- that is wrong only in a burst of at most 16 symbols for each codeword of the narrowest window.
  pub decrypt_bytes_aad-corrects_burst :
      IsLive sc fuel
      → IsDocumented crates
      → (b : BlockInterleaver) (entropy : Entropy)
        (master pt extra text sent received mixed got : List ℕ) (purpose start len : ℕ)
      → 1 ≤ b.depth
      → b.depth ≤ 16
      → Supplies entropy nonce_len
      → length master ≡ key_len
      → length pt ≤ max_plaintext_len
      → encrypt_bytes_aad kc b64
          (vault_of crates (record { il = block b }))
          entropy
          master
          pt
          purpose
          extra
        ≡ ok text
      → b64.b64_decode text ≡ some sent
      → Viterbi.decode vc sent ≡ ok mixed
      → length received ≡ length sent
      → Viterbi.decode vc received ≡ ok got
      → IsBurst start len mixed got
      → len ≤ 16 * narrowest b.depth (length mixed / rs_block)
      → decrypt_bytes_aad kc b64
          (vault_of crates (record { il = block b }))
          master
          (b64.b64_encode received)
          purpose
          extra
        ≡ ok pt
  decrypt_bytes_aad-corrects_burst live laws b entropy master pt extra text sent received mixed got
        purpose start len low high drawn hm hp made decoded inner same inner' burst fits =
      let t =
        encrypt_bytes_aad-IsTransmitted live laws (record { il = block b }) entropy master pt extra
          text sent purpose (low, high) drawn hm hp made decoded in
      t.decrypts received same (
        concatenated_fec-corrects_burst rs vc sc fuel live laws.rs_laws laws.vc_laws b t.payload
          sent mixed received got start len low high t.some_bytes t.fits t.coded inner same inner'
          burst fits)

  -- Reception with scattered errors, end to end: if the crates behave as documented and the
  -- keystream is live, in a vault of the default parts around a stack with either interleaver and a
  -- depth of 1 to 16, a plaintext within the cap that was encrypted under a key of 32 bytes is
  -- returned by `decrypt_bytes_aad`, with that key, purpose and context, from any received blob as
  -- long as the one sent from which the inner code reads a stream as long as the one it coded and
  -- wrong in at most 16 symbols, wherever they are.
  pub decrypt_bytes_aad-corrects_scattered :
      IsLive sc fuel
      → IsDocumented crates
      → (fec : ConcatenatedFec) (entropy : Entropy)
        (master pt extra text sent received mixed got : List ℕ) (purpose : ℕ)
      → IsDepth fec
      → Supplies entropy nonce_len
      → length master ≡ key_len
      → length pt ≤ max_plaintext_len
      → encrypt_bytes_aad kc b64 (vault_of crates fec) entropy master pt purpose extra ≡ ok text
      → b64.b64_decode text ≡ some sent
      → Viterbi.decode vc sent ≡ ok mixed
      → length received ≡ length sent
      → Viterbi.decode vc received ≡ ok got
      → length got ≡ length mixed
      → distance mixed got ≤ 16
      → decrypt_bytes_aad kc b64
          (vault_of crates fec)
          master
          (b64.b64_encode received)
          purpose
          extra
        ≡ ok pt
  decrypt_bytes_aad-corrects_scattered live laws fec entropy master pt extra text sent received
        mixed got purpose depth drawn hm hp made decoded inner same inner' size few =
      let t =
        encrypt_bytes_aad-IsTransmitted live laws fec entropy master pt extra text sent purpose
          depth drawn hm hp made decoded in
      t.decrypts received same (
        concatenated_fec-corrects_scattered rs vc sc fuel live laws.rs_laws laws.vc_laws fec
          t.payload sent mixed received got depth t.some_bytes t.fits t.coded inner same inner' size
          few)
