-- ===== src/Vault/Refused.antt =====
-- src/vault.rs: decryption of a text of the vault for another purpose or context.
use cryptovault.Common.{ℕ, ◌≤◌, ◌≡◌, ◌≢◌, refl, ap, ◌∙◌, inl, inr, List, [], arith, length}
use cryptovault.Consts.{key_len, nonce_len, max_plaintext_len}
use cryptovault.Error.{Returns-cases, ok, err, CryptoError}
use cryptovault.Cipher.{Entropy}
use cryptovault.Fec.Concat.{ConcatenatedFec}
use cryptovault.Fec.Concat.Contract.{IsDepth}
use cryptovault.Fec.Interleaver.Csprng.RoundTrip.{IsLive}
use cryptovault.Vault.{
  encrypt_bytes_aad, decrypt_bytes_aad, encrypt_bytes, decrypt_bytes, encrypt_with_key,
  decrypt_with_key, wrap_key, unwrap_key, rewrap, aad_purpose_data, aad_purpose_envelope,
}
use cryptovault.Vault.Binding.{
  BindsAead, aes256_gcm_siv_cipher-Binds, encrypt_bytes_aad_one_context,
}
use cryptovault.Vault.Default.{
  Crates, IsDocumented, vault_of, vault_of-IsVault, vault_of-IsTotalVault,
}
use cryptovault.Vault.Laws.{Supplies}
use cryptovault.Vault.Messages.{not_authentic, decrypt_bytes_aad_no_oracle}
use cryptovault.Vault.RoundTrip.{decrypt_bytes_aad-encrypt_bytes_aad}
use cryptovault.Vault.Total.{decrypt_bytes_aad-Returns}

module _ (crates : Crates) (live : IsLive crates.sc crates.fuel) (laws : IsDocumented crates)
    (binds : BindsAead crates.aead) (fec : ConcatenatedFec) (depth : IsDepth fec) where
  open crates use {kc, b64, aead}

  -- It is not `ok`, since the cipher binds; it is an error that the right purpose and context do
  -- not meet, so that of the authentication.
  other_context_refused :
      (entropy : Entropy) (master pt text xs ys : List ℕ) (p q : ℕ)
      → Supplies entropy nonce_len
      → length master ≡ key_len
      → length pt ≤ max_plaintext_len
      → encrypt_bytes_aad kc b64 (vault_of crates fec) entropy master pt p xs ≡ ok text
      → ¬ ((p ≡ q) × (xs ≡ ys))
      → decrypt_bytes_aad kc b64 (vault_of crates fec) master text q ys ≡ err not_authentic
  other_context_refused entropy master pt text xs ys p q drawn hm hp made differs =
      let vault = vault_of crates fec in
      let sound = vault_of-IsVault crates live laws fec depth in
      let returns =
        decrypt_bytes_aad-Returns kc b64 vault (vault_of-IsTotalVault crates live fec depth) master
          text q ys in
      let (blob, run, back) =
        decrypt_bytes_aad-encrypt_bytes_aad kc b64 vault sound entropy master pt xs p drawn hm hp in
      elim (Returns-cases (decrypt_bytes_aad kc b64 vault master text q ys) returns) [
        | inl (found, opened) ↦
            let (same_p, same_x, _) =
              encrypt_bytes_aad_one_context kc b64 vault sound
                (aes256_gcm_siv_cipher-Binds aead binds) entropy master pt found text xs ys p q
                drawn hm hp made opened in
            absurd (differs (same_p, same_x))
        | inr (e, failed) ↦
            let (_, told) =
              decrypt_bytes_aad_no_oracle crates live laws.expands fec depth master master text ys
                xs q p e hm hm failed in
            elim told [
              | inl same ↦ failed ∙ ap (λ f. err f) same
              | inr also ↦ absurd (clash run made back also)
            ]
      ]
    where
      clash :
          {blob : List ℕ} {e : CryptoError}
          → encrypt_bytes_aad kc b64 (vault_of crates fec) entropy master pt p xs ≡ ok blob
          → encrypt_bytes_aad kc b64 (vault_of crates fec) entropy master pt p xs ≡ ok text
          → decrypt_bytes_aad kc b64 (vault_of crates fec) master blob p xs ≡ ok pt
          → decrypt_bytes_aad kc b64 (vault_of crates fec) master text p xs ≡ err e
          → ⊥
      clash run1 made1 back1 also1 = cc

  -- The wrong door: in a vault of the default parts with a depth of 1 to 16, over crates that behave
  -- as documented, a cipher that binds its associated data and a live keystream, with a key of 32
  -- bytes, a generator that supplies a nonce and a plaintext within the cap: what `wrap_key` made is
  -- refused under that key by `unwrap_key` and `rewrap` with a salt other than its own, and by
  -- `decrypt_with_key`, and what `encrypt_with_key` made is refused by `unwrap_key` with that salt,
  -- each time with the one error of a failed authentication.
  pub wrong_context_refused :
      (entropy again : Entropy) (key salt other new_key new_salt plain wrapped stored : List ℕ)
      → Supplies entropy nonce_len
      → length key ≡ key_len
      → length plain ≤ max_plaintext_len
      → wrap_key kc b64 (vault_of crates fec) entropy key salt plain ≡ ok wrapped
      → encrypt_with_key kc b64 (vault_of crates fec) entropy key plain ≡ ok stored
      → salt ≢ other
      → (unwrap_key kc b64 (vault_of crates fec) key other wrapped ≡ err not_authentic)
        × (rewrap kc b64 (vault_of crates fec) again key other new_key new_salt wrapped
            ≡ err not_authentic)
        × (decrypt_with_key kc b64 (vault_of crates fec) key wrapped ≡ err not_authentic)
        × (unwrap_key kc b64 (vault_of crates fec) key other stored ≡ err not_authentic)
  unfolding wrap_key unwrap_key rewrap decrypt_with_key decrypt_bytes encrypt_with_key encrypt_bytes
  wrong_context_refused entropy again key salt other new_key new_salt plain wrapped stored drawn hk
        hp made saved differs =
      let refused =
        other_context_refused entropy key plain wrapped salt other aad_purpose_envelope
          aad_purpose_envelope drawn hk hp made (λ same. differs same.1) in
      (
        refused,
        rw refused refl,
        rw
            (other_context_refused entropy key plain wrapped salt [] aad_purpose_envelope
              aad_purpose_data drawn hk hp made (λ same. absurd (omega (arith, same.0))))
            refl,
        other_context_refused entropy key plain stored [] other aad_purpose_data
            aad_purpose_envelope drawn hk hp saved (λ same. absurd (omega (arith, same.0))),
      )
