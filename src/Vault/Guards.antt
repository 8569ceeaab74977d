-- ===== src/Vault/Guards.antt =====
-- src/vault.rs: the checks that come first in each operation.
use cryptovault.Common.{
  ℕ, ◌<◌, ◌≤◌, ◌≡◌, ◌≢◌, refl, min, List, ◌==◌, not, ◌⊎◌, arith, lt→ltb, le→ltb, eq→==, ne→==,
  length, some,
}
use cryptovault.Consts.{key_len, salt_len, max_plaintext_len, max_blob_len, max_b64_len}
use cryptovault.Error.{Result, ok, err, >>-eq-ok, invalid_input}
use cryptovault.Cipher.{Entropy}
use cryptovault.Kdf.{KdfCrates}
use cryptovault.Vault.{
  Base64, CryptoVault, with_max_blob_len, derive_key, encrypt_bytes_aad, decrypt_bytes_aad,
  strict_decode,
}

-- The error for a master key of a wrong length, shared by the two byte cores.
abbrev pub wrong_master : Result (List ℕ)
wrong_master = err (invalid_input "master key must be exactly 32 bytes")

module _ (kc : KdfCrates) (b64 : Base64) (vault : CryptoVault) where
  pub encrypt_bytes_aad-wrong :
      (entropy : Entropy) (master pt : List ℕ) (purpose : ℕ) (extra : List ℕ)
      → length master ≢ key_len
      → encrypt_bytes_aad kc b64 vault entropy master pt purpose extra ≡ wrong_master
  unfolding encrypt_bytes_aad
  encrypt_bytes_aad-wrong entropy master pt purpose extra h =
      rw (ne→== (length master) key_len h) refl

  -- Under a key of 32 bytes, a plaintext above the cap is refused for any purpose and context.
  pub long_plaintext_refused :
      (entropy : Entropy) (master pt : List ℕ) (purpose : ℕ) (extra : List ℕ)
      → length master ≡ key_len
      → max_plaintext_len < length pt
      → encrypt_bytes_aad kc b64 vault entropy master pt purpose extra
        ≡ err (invalid_input "plaintext exceeds maximum size")
  unfolding encrypt_bytes_aad
  long_plaintext_refused entropy master pt purpose extra hm hp =
      rw (eq→== (length master) key_len hm, lt→ltb max_plaintext_len (length pt) hp) refl

-- Lowering the acceptance cap takes effect, and raising it does not: over `with_max_blob_len vault cap`,
-- with a key of 32 bytes and a text within the Base64 cap, decoded bytes that are longer than `cap` or
-- than the blob cap are refused with one error, before the error correction sees them, whatever the
-- strategy, the cipher, the purpose and the context are.
pub with_max_blob_len-refuses :
    (kc : KdfCrates) (b64 : Base64) (vault : CryptoVault) (cap : ℕ) (master text decoded : List ℕ)
    (purpose : ℕ) (extra : List ℕ)
    → length master ≡ key_len
    → length text ≤ max_b64_len
    → b64.b64_decode text ≡ some decoded
    → (cap < length decoded) ⊎ (max_blob_len < length decoded)
    → decrypt_bytes_aad kc b64 (with_max_blob_len vault cap) master text purpose extra
      ≡ err (invalid_input "input exceeds maximum size")
unfolding decrypt_bytes_aad
with_max_blob_len-refuses kc b64 vault cap master text decoded purpose extra hm short got long =
    rw
      (
        eq→== (length master) key_len hm,
        le→ltb max_b64_len (length text) short,
        got,
        strict_decode,
        lt→ltb (min cap max_blob_len) (length decoded) above,
      )
      refl
  where
    above : min cap max_blob_len < length decoded
    above = omega arith

-- `derive_key` runs the key derivation exactly on the arguments that it is meant for: it returns a
-- key only for a password that is not empty and a salt of 16 bytes, and the key is the derivation's.
pub derive_key-eq-ok :
    (vault : CryptoVault) (password salt key : List ℕ)
    → derive_key vault password salt ≡ ok key
    → (1 ≤ length password)
      × (length salt ≡ salt_len)
      × (vault.kdf.derive_master password salt ≡ ok key)
unfolding derive_key
derive_key-eq-ok vault password salt key h =
    let (some_bytes, h1) = >>-eq-ok (length password == 0) _ _ h in
    let (right, derived) = >>-eq-ok (not (length salt == salt_len)) _ _ h1 in
    (ground arith, ground arith, derived)
