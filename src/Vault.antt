-- ===== src/Vault.antt =====
-- src/vault.rs: `CryptoVault`. A string is its UTF-8 bytes; `Zeroizing` buffers are their contents,
-- since wiping is not observable here. The `base64` crate is the parameter `Base64`, the operating
-- system's generator an argument of each call that draws from it.
pub mod Laws
pub mod Guards
pub mod Sealed
pub mod RoundTrip
pub mod Total
pub mod Context
pub mod Binding
pub mod Default
pub mod Noise
pub mod Equal
pub mod Session
pub mod Authentic
pub mod Messages
pub mod Lifecycle
pub mod Refused
pub mod Size
pub mod Strings
use Prim.Native.String.{◌++◌ as append}
use cryptovault.Common.{
  ℕ, ◌%◌, ◌^◌, min, Option, none, some, List, [], ◌∷◌, ◌++◌, ◌==◌, not, ltb, length, take, drop,
}
use cryptovault.Consts.{
  key_len, salt_len, nonce_len, blob_version, max_plaintext_len, max_blob_len, max_b64_len,
}
use cryptovault.Error.{
  Result, ok, err, panic, ◌>>=◌, ◌>>◌, reject_if, invalid_input, encoding, key_derivation,
}
use cryptovault.Blob.{encode_blob, decode_blob}
use cryptovault.Cipher.{
  AuthenticatedCipher, AeadCrate, aes256_gcm_siv_cipher, Entropy, sample_nonce,
}
use cryptovault.Fec.{ErrorCorrection}
use cryptovault.Kdf.{
  KeyDerivation, KdfCrates, expand_aead_key, argon2_kdf, good, bad, or_key_derivation,
}
use cryptovault.Slice.{to_le_bytes, split_at}
use cryptovault.Utf8.{Utf8Error, from_utf8, utf8_error_text}

-- The `STANDARD` engine of the `base64` crate.
pub record Base64 : Type 0 where
  pub b64_encode : List ℕ → List ℕ
  pub b64_decode : List ℕ → Option (List ℕ)

pub record CryptoVault : Type 0 where
  pub kdf : KeyDerivation
  pub cipher : AuthenticatedCipher
  pub fec : ErrorCorrection
  pub accept_cap : ℕ

abbrev pub aad_purpose_data : ℕ
aad_purpose_data = 0x01

abbrev pub aad_purpose_envelope : ℕ
aad_purpose_envelope = 0x02

-- `CryptoVault::new`
abbrev pub new : KeyDerivation → AuthenticatedCipher → ErrorCorrection → CryptoVault
new kdf cipher fec = record { kdf = kdf; cipher = cipher; fec = fec; accept_cap = max_blob_len }

-- `CryptoVault::with_max_blob_len`
abbrev pub with_max_blob_len : CryptoVault → ℕ → CryptoVault
with_max_blob_len vault cap = record vault { accept_cap = min cap max_blob_len }

-- `random_zeroizing`
unfoldable pub random_bytes : Entropy → ℕ → Result (List ℕ)
random_bytes entropy len = or_key_derivation "OsRng entropy failure: " (entropy len)

unfoldable pub generate_salt : Entropy → Result (List ℕ)
unfolding random_bytes
generate_salt entropy = random_bytes entropy salt_len

unfoldable pub generate_dek : Entropy → Result (List ℕ)
unfolding random_bytes
generate_dek entropy = random_bytes entropy key_len

-- `CryptoVault::derive_key`
unfoldable pub derive_key : CryptoVault → List ℕ → List ℕ → Result (List ℕ)
derive_key vault password salt = do
  reject_if (length password == 0) (invalid_input "password must not be empty")
  reject_if (not (length salt == salt_len)) (invalid_input "salt must be exactly 16 bytes")
  vault.kdf.derive_master password salt

unfoldable pub build_header : ℕ → List ℕ
unfolding to_le_bytes
build_header plaintext_len = blob_version ∷ to_le_bytes 4 plaintext_len

unfoldable pub build_aad : ℕ → List ℕ → List ℕ → List ℕ
build_aad purpose header aad_extra = purpose ∷ (header ++ aad_extra)

-- The first check of the two byte cores.
abbrev pub check_master : List ℕ → Result (Unit {0})
check_master master =
    reject_if (not (length master == key_len)) (invalid_input "master key must be exactly 32 bytes")

-- `STANDARD.decode(b64).map_err(…)`
abbrev pub strict_decode : Option (List ℕ) → Result (List ℕ)
strict_decode none = err (encoding "invalid encoding")
strict_decode (some decoded) = ok decoded

-- The check of the recovered bytes in `decrypt_with_key`.
abbrev pub as_text : List ℕ → Option Utf8Error → Result (List ℕ)
as_text bytes none = ok bytes
as_text bytes (some e) =
    err (encoding (append "decrypted plaintext is not valid UTF-8: " (utf8_error_text e)))

module _ (kc : KdfCrates) (b64 : Base64) (vault : CryptoVault) where
  open b64 use {b64_encode, b64_decode}

  unfoldable pub encrypt_bytes_aad : Entropy → List ℕ → List ℕ → ℕ → List ℕ → Result (List ℕ)
  encrypt_bytes_aad entropy master pt purpose aad_extra = do
    check_master master
    reject_if (ltb max_plaintext_len (length pt)) (invalid_input "plaintext exceeds maximum size")
    aead_key ← expand_aead_key kc master
    nonce ← sample_nonce entropy
    let plaintext_len = length pt % 2 ^ 32
    let aad = build_aad purpose (build_header plaintext_len) aad_extra
    ct ← vault.cipher.encrypt aead_key nonce aad pt
    blob ← encode_blob vault.fec blob_version plaintext_len (nonce ++ ct)
    ok (b64_encode blob)

  -- The part of `decrypt_bytes_aad` after `decode_blob`.
  unfoldable pub open_body : List ℕ → ℕ → List ℕ → ℕ → List ℕ → Result (List ℕ)
  unfolding split_at
  open_body master purpose aad_extra plaintext_len body = do
    let aad = build_aad purpose (build_header plaintext_len) aad_extra
    reject_if (ltb (length body) nonce_len) (invalid_input "malformed blob")
    (nonce, ct) ← split_at body nonce_len
    aead_key ← expand_aead_key kc master
    vault.cipher.decrypt aead_key nonce aad ct

  unfoldable pub decrypt_bytes_aad : List ℕ → List ℕ → ℕ → List ℕ → Result (List ℕ)
  unfolding open_body
  decrypt_bytes_aad master text purpose aad_extra = do
    check_master master
    reject_if (ltb max_b64_len (length text)) (invalid_input "input exceeds maximum size")
    decoded ← strict_decode (b64_decode text)
    reject_if (ltb vault.accept_cap (length decoded)) (invalid_input "input exceeds maximum size")
    (version, plaintext_len, body) ← decode_blob vault.fec decoded
    open_body master purpose aad_extra plaintext_len body

  unfoldable pub encrypt_bytes : Entropy → List ℕ → List ℕ → Result (List ℕ)
  unfolding encrypt_bytes_aad
  encrypt_bytes entropy master pt = encrypt_bytes_aad entropy master pt aad_purpose_data []

  unfoldable pub decrypt_bytes : List ℕ → List ℕ → Result (List ℕ)
  unfolding decrypt_bytes_aad
  decrypt_bytes master text = decrypt_bytes_aad master text aad_purpose_data []

  unfoldable pub encrypt_with_key : Entropy → List ℕ → List ℕ → Result (List ℕ)
  unfolding encrypt_bytes
  encrypt_with_key entropy key plaintext = encrypt_bytes entropy key plaintext

  unfoldable pub decrypt_with_key : List ℕ → List ℕ → Result (List ℕ)
  unfolding decrypt_bytes from_utf8 utf8_error_text
  decrypt_with_key key blob = do bytes ← decrypt_bytes key blob; as_text bytes (from_utf8 bytes)

  unfoldable pub wrap_key : Entropy → List ℕ → List ℕ → List ℕ → Result (List ℕ)
  unfolding encrypt_bytes_aad
  wrap_key entropy kek salt key_material =
      encrypt_bytes_aad entropy kek key_material aad_purpose_envelope salt

  unfoldable pub unwrap_key : List ℕ → List ℕ → List ℕ → Result (List ℕ)
  unfolding decrypt_bytes_aad
  unwrap_key kek salt wrapped = decrypt_bytes_aad kek wrapped aad_purpose_envelope salt

  -- Arguments in the source's order: old key, old salt, new key, new salt, blob.
  unfoldable pub rewrap : Entropy → List ℕ → List ℕ → List ℕ → List ℕ → List ℕ → Result (List ℕ)
  unfolding decrypt_bytes_aad encrypt_bytes_aad
  rewrap entropy old_kek old_salt new_kek new_salt blob = do
    dek ← decrypt_bytes_aad old_kek blob aad_purpose_envelope old_salt
    encrypt_bytes_aad entropy new_kek dek aad_purpose_envelope new_salt
