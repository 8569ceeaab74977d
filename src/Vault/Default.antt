-- ===== src/Vault/Default.antt =====
-- src/vault.rs: `Default for CryptoVault`.
use cryptovault.Common.{ℕ, ◌≤◌, ◌≡◌, refl, List, arith, length}
use cryptovault.Consts.{key_len, nonce_len, max_plaintext_len}
use cryptovault.Error.{Result, ok, ◌>>=◌, Returns}
use cryptovault.Cipher.{AeadCrate, Entropy, aes256_gcm_siv_cipher}
use cryptovault.Cipher.Laws.{
  IsAead, aes256_gcm_siv_cipher-Opens, aes256_gcm_siv_cipher-IsTotalCipher,
}
use cryptovault.Fec.Concat.{
  ConcatenatedFec, default_stack, default_interleave_depth, concatenated_fec,
}
use cryptovault.Fec.Concat.Contract.{IsDepth, concatenated_fec-IsTotal, concatenated_fec-Carries}
use cryptovault.Fec.Interleaver.Block
use cryptovault.Fec.Interleaver.Layers.{block}
use cryptovault.Fec.Interleaver.Csprng.{StreamCipher}
use cryptovault.Fec.Interleaver.Csprng.RoundTrip.{IsLive}
use cryptovault.Fec.ReedSolomon.{RsCrate}
use cryptovault.Fec.ReedSolomon.Laws.{IsReedSolomon}
use cryptovault.Fec.Viterbi.{ViterbiCrate}
use cryptovault.Fec.Viterbi.RoundTrip.{IsViterbi}
use cryptovault.Kdf.{KdfCrates, argon2_kdf}
use cryptovault.Utf8.{IsUtf8}
use cryptovault.Vault.{Base64, CryptoVault, new, encrypt_with_key, decrypt_with_key, unwrap_key}
use cryptovault.Vault.Laws.{Supplies, Expands, IsBase64, IsVault, IsTotalVault}
use cryptovault.Vault.RoundTrip.{decrypt_with_key-encrypt_with_key}
use cryptovault.Vault.Total.{decrypt_with_key-Returns}

-- The third-party crates of a build.
pub record Crates : Type 1 where
  pub kc : KdfCrates
  pub b64 : Base64
  pub aead : AeadCrate
  pub rs : RsCrate
  pub vc : ViterbiCrate
  pub sc : StreamCipher
  -- a bound on the draws of one rejection-sampling loop
  pub fuel : ℕ

module _ (crates : Crates) where
  open crates use {kc, b64, aead, rs, vc, sc, fuel}

  -- The default parts around a given stack.
  abbrev pub vault_of : ConcatenatedFec → CryptoVault
  vault_of fec =
      new (argon2_kdf kc) (aes256_gcm_siv_cipher aead) (concatenated_fec rs vc sc fuel fec)

  -- `CryptoVault::default`
  unfoldable pub default_vault : Result CryptoVault
  unfolding default_stack
  default_vault = do fec ← default_stack; ok (vault_of fec)

  -- The crates' documented behaviour.
  pub record IsDocumented : Type 1 where
    pub expands : Expands kc
    pub base64 : IsBase64 b64
    pub aead_laws : IsAead aead
    pub rs_laws : IsReedSolomon rs
    pub vc_laws : IsViterbi vc

  pub vault_of-IsVault :
      IsLive sc fuel
      → IsDocumented
      → (fec : ConcatenatedFec) → IsDepth fec
      → IsVault kc b64 (vault_of fec)
  vault_of-IsVault live laws fec depth = record {
    expands = laws.expands;
    base64 = laws.base64;
    opens = aes256_gcm_siv_cipher-Opens aead laws.aead_laws;
    recovers = concatenated_fec-Carries rs vc sc fuel live laws.rs_laws laws.vc_laws fec depth;
    cap = omega arith;
  }

  pub vault_of-IsTotalVault :
      IsLive sc fuel → (fec : ConcatenatedFec) → IsDepth fec → IsTotalVault (vault_of fec)
  vault_of-IsTotalVault live fec depth = record {
    cipher = aes256_gcm_siv_cipher-IsTotalCipher aead;
    fec = concatenated_fec-IsTotal rs vc sc fuel live fec depth;
  }

  -- If the crates behave as documented and the keystream is live, the default vault is built, and
  -- with a key of 32 bytes and a generator that supplies a nonce, every UTF-8 text within the cap
  -- is encrypted by its `encrypt_with_key`, and its `decrypt_with_key` returns it, through the
  -- AEAD, the Reed-Solomon code, the interleaver and the Viterbi code.
  pub default_vault-round_trip :
      IsLive sc fuel
      → IsDocumented
      → (entropy : Entropy) (key text : List ℕ) → Supplies entropy nonce_len
      → length key ≡ key_len
      → length text ≤ max_plaintext_len
      → IsUtf8 text
      → (vault : CryptoVault) × (default_vault ≡ ok vault)
        × ((blob : List ℕ) × (encrypt_with_key kc b64 vault entropy key text ≡ ok blob)
            × (decrypt_with_key kc b64 vault key blob ≡ ok text))
  unfolding default_vault default_stack Block.new
  default_vault-round_trip live laws entropy key text drawn hk ht utf8 =
      let fec : ConcatenatedFec = record {
        il = block (record { depth = default_interleave_depth });
      } in
      (
        vault_of fec,
        refl,
        decrypt_with_key-encrypt_with_key kc b64 (vault_of fec)
            (vault_of-IsVault live laws fec (omega arith, omega arith)) entropy key text drawn hk ht
            utf8,
      )

  -- If the keystream is live, the default vault is built, and its `decrypt_with_key` and
  -- `unwrap_key` return a value or a typed error for every key, salt and text, whatever the other
  -- crates answer.
  pub default_vault-Returns :
      IsLive sc fuel
      → (key text salt : List ℕ)
      → (vault : CryptoVault) × (default_vault ≡ ok vault)
        × Returns (decrypt_with_key kc b64 vault key text)
        × Returns (unwrap_key kc b64 vault key salt text)
  unfolding default_vault default_stack Block.new
  default_vault-Returns live key text salt =
      let fec : ConcatenatedFec = record {
        il = block (record { depth = default_interleave_depth });
      } in
      let total = vault_of-IsTotalVault live fec (omega arith, omega arith) in
      let (read, unwrapped) = decrypt_with_key-Returns kc b64 (vault_of fec) total key text salt in
      (vault_of fec, refl, read, unwrapped)
