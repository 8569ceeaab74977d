-- ===== src/Vault/RoundTrip.antt =====
-- src/vault.rs: encryption and then decryption.
use cryptovault.Common.{ℕ, ◌≤◌, ◌≡◌, List, [], ◌++◌, arith, length}
use cryptovault.Consts.{key_len, nonce_len, max_plaintext_len, max_b64_len}
use cryptovault.Error.{ok}
use cryptovault.Cipher.{Entropy}
use cryptovault.Kdf.{KdfCrates}
use cryptovault.Utf8.{IsUtf8}
use cryptovault.Vault.{
  Base64, CryptoVault, encrypt_bytes_aad, decrypt_bytes_aad, encrypt_bytes, decrypt_bytes,
  encrypt_with_key, decrypt_with_key, wrap_key, unwrap_key, rewrap, aad_purpose_data,
  aad_purpose_envelope, as_text,
}
use cryptovault.Vault.Laws.{Supplies, IsVault}
use cryptovault.Vault.Sealed.{encrypt_bytes_aad-IsSealed, open_body-ok, decrypt_steps}

module _ (kc : KdfCrates) (b64 : Base64) (vault : CryptoVault) where
  -- In a vault whose parts meet their contracts, with a key of 32 bytes and a generator that
  -- supplies a nonce, every plaintext within the cap is encrypted, for any purpose and context,
  -- and `decrypt_bytes_aad` with the same key, purpose and context returns it.
  pub decrypt_bytes_aad-encrypt_bytes_aad :
      IsVault kc b64 vault
      → (entropy : Entropy) (master pt extra : List ℕ) (purpose : ℕ) → Supplies entropy nonce_len
      → length master ≡ key_len
      → length pt ≤ max_plaintext_len
      → (text : List ℕ) × (encrypt_bytes_aad kc b64 vault entropy master pt purpose extra ≡ ok text)
        × (decrypt_bytes_aad kc b64 vault master text purpose extra ≡ ok pt)
  decrypt_bytes_aad-encrypt_bytes_aad laws entropy master pt extra purpose drawn hm hp =
      let (key, nonce, ct, blob, run, s) =
        encrypt_bytes_aad-IsSealed kc b64 vault laws entropy master pt extra purpose drawn hm hp in
      let cap : length blob ≤ vault.accept_cap = omega (arith, laws.cap, s.bound) in
      let short : length (b64.b64_encode blob) ≤ max_b64_len =
        omega (arith, laws.base64.size blob, s.bound) in
      (
        b64.b64_encode blob,
        run,
        decrypt_steps kc b64 vault master (b64.b64_encode blob) blob (nonce ++ ct) pt extra purpose
            (length pt) hm short (laws.base64.back blob) cap s.framed
            (open_body-ok kc b64 vault master key nonce ct pt purpose extra (length pt) s.key_eq
              s.nonce_size s.opened),
      )

  -- In a vault whose parts meet their contracts, with a key of 32 bytes and a generator that
  -- supplies a nonce, every UTF-8 text within the cap is encrypted by `encrypt_with_key`, and
  -- `decrypt_with_key` with the same key returns it.
  pub decrypt_with_key-encrypt_with_key :
      IsVault kc b64 vault
      → (entropy : Entropy) (key text : List ℕ) → Supplies entropy nonce_len
      → length key ≡ key_len
      → length text ≤ max_plaintext_len
      → IsUtf8 text
      → (blob : List ℕ) × (encrypt_with_key kc b64 vault entropy key text ≡ ok blob)
        × (decrypt_with_key kc b64 vault key blob ≡ ok text)
  unfolding encrypt_with_key decrypt_with_key encrypt_bytes decrypt_bytes
  decrypt_with_key-encrypt_with_key laws entropy key text drawn hk ht utf8 =
      let (blob, run, back) =
        decrypt_bytes_aad-encrypt_bytes_aad laws entropy key text [] aad_purpose_data drawn hk ht in
      (blob, run, rw (back, utf8, as_text))

  -- In a vault whose parts meet their contracts, with a key of 32 bytes and a generator that
  -- supplies a nonce, all key material within the cap is wrapped by `wrap_key`, and `unwrap_key`
  -- with the same key and salt returns it.
  pub unwrap_key-wrap_key :
      IsVault kc b64 vault
      → (entropy : Entropy) (kek salt material : List ℕ) → Supplies entropy nonce_len
      → length kek ≡ key_len
      → length material ≤ max_plaintext_len
      → (wrapped : List ℕ) × (wrap_key kc b64 vault entropy kek salt material ≡ ok wrapped)
        × (unwrap_key kc b64 vault kek salt wrapped ≡ ok material)
  unfolding wrap_key unwrap_key
  unwrap_key-wrap_key laws entropy kek salt material drawn hk hm =
      decrypt_bytes_aad-encrypt_bytes_aad laws entropy kek material salt aad_purpose_envelope drawn
        hk hm

  -- Rotation: in a vault whose parts meet their contracts, with a generator that supplies a nonce
  -- and a new key of 32 bytes, an envelope that `unwrap_key` opens under the old key and salt, to
  -- key material within the cap, is rewrapped by `rewrap`, and the result opens to the same
  -- material under the new key and salt.
  pub unwrap_key-rewrap :
      IsVault kc b64 vault
      → (entropy : Entropy) (old_kek old_salt new_kek new_salt blob material : List ℕ)
      → Supplies entropy nonce_len
      → length new_kek ≡ key_len
      → length material ≤ max_plaintext_len
      → unwrap_key kc b64 vault old_kek old_salt blob ≡ ok material
      → (wrapped : List ℕ) × (rewrap kc b64 vault entropy old_kek old_salt new_kek new_salt blob
          ≡ ok wrapped)
        × (unwrap_key kc b64 vault new_kek new_salt wrapped ≡ ok material)
  unfolding rewrap wrap_key unwrap_key
  unwrap_key-rewrap laws entropy old_kek old_salt new_kek new_salt blob material drawn hk hm
        opened =
      let (wrapped, run, back) =
        decrypt_bytes_aad-encrypt_bytes_aad laws entropy new_kek material new_salt
          aad_purpose_envelope drawn hk hm in
      (wrapped, rw (opened, run), back)
