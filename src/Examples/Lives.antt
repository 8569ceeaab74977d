-- ===== src/Examples/Lives.antt =====
-- The vault's theorems on changes of the passphrase, refusals and every branch of a call at work.
use cryptovault.Common.{
  ℕ, ◌≤◌, ◌≡◌, ◌≢◌, ◌<◌, ◌⊎◌, String, refl, List, [], ◌∷◌, arith, replicate, length,
}
use cryptovault.Consts.{nonce_len, salt_len, key_len, max_plaintext_len, max_b64_len}
use cryptovault.Error.{ok, err, invalid_input, encoding, CryptoError}
use cryptovault.Kdf.{derive_master, owasp_params}
use cryptovault.Vault.Size.{text_size, encrypt_bytes_aad_cases}
use cryptovault.Vault.Strings.{decrypt_with_key_cases}
use cryptovault.Vault.Guards.{wrong_master}
use cryptovault.Utf8.Decoded.{IsString}
use cryptovault.Vault.{
  encrypt_bytes_aad, decrypt_bytes, encrypt_with_key, decrypt_with_key, wrap_key, unwrap_key,
  rewrap,
}
use cryptovault.Vault.Default.{vault_of, vault_of-IsVault}
use cryptovault.Vault.Lifecycle.{
  Keyring, Draws, Change, last_password, Derives, create, change_all, read_text,
  read_text-change_all,
}
use cryptovault.Vault.Messages.{not_authentic}
use cryptovault.Vault.Refused.{wrong_context_refused}
use cryptovault.Vault.RoundTrip.{unwrap_key-wrap_key, decrypt_with_key-encrypt_with_key}
use cryptovault.Examples.Crates.{
  entropy, entropy-Supplies, kdf_crates, base64, stream_cipher-IsLive,
}
use cryptovault.Examples.Sessions.{stack}
use cryptovault.Examples.Vaults.{
  crates, crates-IsDocumented, vault, vault-IsVault, vault-IsTotalVault, aead_crate-BindsAead,
  master, salt, new_master, new_salt, text, text-IsUtf8,
}

abbrev draws : Draws
draws = record { for_salt = entropy; for_dek = entropy; for_wrap = entropy; for_text = entropy }

-- Two changes, to passphrases of one and two bytes.
abbrev changes : List Change
changes =
    record { password = 0x61 ∷ []; for_salt = entropy; for_wrap = entropy }
    ∷ record { password = 0x62 ∷ 0x63 ∷ []; for_salt = entropy; for_wrap = entropy }
    ∷ []

vault-Derives : Derives vault.kdf
unfolding derive_master owasp_params
vault-Derives password s h = (replicate 32 1, refl, refl)

read_text-change_all_example :
    (ring : Keyring) × (create kdf_crates base64 vault draws text text ≡ ok ring)
    × ((changed : Keyring) × (change_all kdf_crates base64 vault ring text changes ≡ ok changed)
        × (changed.stored ≡ ring.stored)
        × (read_text kdf_crates base64 vault changed (last_password text changes) ≡ ok text))
read_text-change_all_example =
    read_text-change_all kdf_crates base64 vault vault-IsVault vault-Derives draws text text changes
      (
        entropy-Supplies salt_len,
        entropy-Supplies key_len,
        entropy-Supplies nonce_len,
        entropy-Supplies nonce_len,
      )
      (
        (omega arith, entropy-Supplies salt_len, entropy-Supplies nonce_len),
        ((omega arith, entropy-Supplies salt_len, entropy-Supplies nonce_len), tt),
      )
      (omega arith) (omega arith) text-IsUtf8

-- An envelope and a stored text of a vault with the default stack.
wrap_round_trip :
    (wrapped : List ℕ) × (wrap_key kdf_crates base64
        (vault_of crates stack)
        entropy
        master
        salt
        text
      ≡ ok wrapped)
    × (unwrap_key kdf_crates base64 (vault_of crates stack) master salt wrapped ≡ ok text)
wrap_round_trip =
    unwrap_key-wrap_key kdf_crates base64 (vault_of crates stack)
      (vault_of-IsVault crates stream_cipher-IsLive crates-IsDocumented stack
        (omega arith, omega arith))
      entropy master salt text (entropy-Supplies nonce_len) refl (omega arith)

store_round_trip :
    (blob : List ℕ) × (encrypt_with_key kdf_crates base64
        (vault_of crates stack)
        entropy
        master
        text
      ≡ ok blob)
    × (decrypt_with_key kdf_crates base64 (vault_of crates stack) master blob ≡ ok text)
store_round_trip =
    decrypt_with_key-encrypt_with_key kdf_crates base64 (vault_of crates stack)
      (vault_of-IsVault crates stream_cipher-IsLive crates-IsDocumented stack
        (omega arith, omega arith))
      entropy master text (entropy-Supplies nonce_len) refl (omega arith) text-IsUtf8

salts_differ : salt ≢ new_salt
salts_differ h = omega (arith, first h)
  where
    first : {a b : ℕ} {us vs : List ℕ} → a ∷ us ≡ b ∷ vs → a ≡ b
    first e = cc

wrong_context_refused_example :
    (unwrap_key kdf_crates base64 (vault_of crates stack) master new_salt wrap_round_trip.0
      ≡ err not_authentic)
    × (rewrap kdf_crates base64
          (vault_of crates stack)
          entropy
          master
          new_salt
          new_master
          salt
          wrap_round_trip.0
        ≡ err not_authentic)
    × (decrypt_with_key kdf_crates base64 (vault_of crates stack) master wrap_round_trip.0
        ≡ err not_authentic)
    × (unwrap_key kdf_crates base64 (vault_of crates stack) master new_salt store_round_trip.0
        ≡ err not_authentic)
wrong_context_refused_example =
    wrong_context_refused crates stream_cipher-IsLive crates-IsDocumented aead_crate-BindsAead stack
      (omega arith, omega arith) entropy entropy master salt new_salt new_master salt text
      wrap_round_trip.0 store_round_trip.0 (entropy-Supplies nonce_len) refl (omega arith)
      wrap_round_trip.1 store_round_trip.1 salts_differ

encrypt_bytes_aad_cases_example :
    ((length master ≢ key_len)
      × (encrypt_bytes_aad kdf_crates base64 (vault_of crates stack) entropy master text 2 salt
          ≡ wrong_master))
    ⊎ ((length master ≡ key_len)
        × (max_plaintext_len < length text)
        × (encrypt_bytes_aad kdf_crates base64 (vault_of crates stack) entropy master text 2 salt
            ≡ err (invalid_input "plaintext exceeds maximum size")))
    ⊎ ((length master ≡ key_len)
        × (length text ≤ max_plaintext_len)
        × ((made : List ℕ) × (encrypt_bytes_aad kdf_crates base64
                (vault_of crates stack)
                entropy
                master
                text
                2
                salt
              ≡ ok made)
            × (length made ≡ text_size (length text))
            × (length made ≤ max_b64_len)))
encrypt_bytes_aad_cases_example =
    encrypt_bytes_aad_cases crates stream_cipher-IsLive crates-IsDocumented stack
      (omega arith, omega arith) entropy master text salt 2 (entropy-Supplies nonce_len)

decrypt_with_key_cases_example :
    ((bytes : List ℕ) × (decrypt_bytes kdf_crates base64 vault master text ≡ ok bytes)
      × IsString bytes
      × (decrypt_with_key kdf_crates base64 vault master text ≡ ok bytes))
    ⊎ ((bytes : List ℕ) × (decrypt_bytes kdf_crates base64 vault master text ≡ ok bytes)
        × (¬ IsString bytes)
        × (told : String) × (decrypt_with_key kdf_crates base64 vault master text
            ≡ err (encoding told)))
    ⊎ ((e : CryptoError) × (decrypt_bytes kdf_crates base64 vault master text ≡ err e)
        × (decrypt_with_key kdf_crates base64 vault master text ≡ err e))
decrypt_with_key_cases_example =
    decrypt_with_key_cases kdf_crates base64 vault vault-IsTotalVault master text
