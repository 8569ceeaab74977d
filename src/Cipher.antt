-- ===== src/Cipher.antt =====
-- src/cipher.rs: the trait `AuthenticatedCipher`, `Aes256GcmSivCipher` and the nonce sampler. The
-- `aes-gcm-siv` crate is the parameter `AeadCrate`, the operating system's generator an argument.
pub mod Laws
use Prim.Native.String.{◌++◌ as append}
use cryptovault.Common.{ℕ, String, Option, none, some, List, ◌==◌, not, length}
use cryptovault.Consts.{key_len, nonce_len}
use cryptovault.Error.{Result, ok, err, ◌>>=◌, ◌>>◌, reject_if, cipher, decimal}
use cryptovault.Kdf.{Answer, good, bad}
use cryptovault.Slice.{from_slice}

-- `OsRng.try_fill_bytes` on a buffer of the given length: the bytes, or the text of the failure.
abbrev pub Entropy : Type 0
Entropy = ℕ → Answer (List ℕ)

unfoldable pub sample_nonce : Entropy → Result (List ℕ)
sample_nonce entropy = elim (entropy nonce_len) [
  | good nonce ↦ ok nonce
  | bad e ↦ err (cipher (append "OsRng nonce sampling failed: " e))
]

-- Arguments in the source's order: key, nonce, aad, plaintext or ciphertext.
pub record AuthenticatedCipher : Type 0 where
  pub encrypt : List ℕ → List ℕ → List ℕ → List ℕ → Result (List ℕ)
  pub decrypt : List ℕ → List ℕ → List ℕ → List ℕ → Result (List ℕ)
  pub nonce_size : ℕ

pub record AeadCrate : Type 0 where
  pub seal : List ℕ → List ℕ → List ℕ → List ℕ → Option (List ℕ)
  pub unseal : List ℕ → List ℕ → List ℕ → List ℕ → Option (List ℕ)

-- `cipher_for`: the key, once its length is checked.
unfoldable pub cipher_for : List ℕ → Result (List ℕ)
unfolding decimal
cipher_for key = do
  reject_if (not (length key == key_len))
      (cipher (append "AES-256 key must be 32 bytes, got " (decimal (length key))))
  from_slice key_len key

unfoldable pub nonce_for : List ℕ → Result (List ℕ)
unfolding decimal
nonce_for nonce = do
  reject_if (not (length nonce == nonce_len))
      (cipher (append "nonce must be 12 bytes, got " (decimal (length nonce))))
  from_slice nonce_len nonce

-- `.map_err(|_| CryptoError::Cipher(…))`
abbrev pub or_cipher {ℓ} : {A : Type ℓ} → String → Option A → Result A
or_cipher text none = err (cipher text)
or_cipher text (some a) = ok a

module _ (ac : AeadCrate) where
  open ac use {seal, unseal}

  unfoldable pub encrypt : List ℕ → List ℕ → List ℕ → List ℕ → Result (List ℕ)
  unfolding cipher_for nonce_for
  encrypt key nonce aad pt = do
    k ← cipher_for key
    n ← nonce_for nonce
    or_cipher "AES-256-GCM-SIV encryption failed" (seal k n aad pt)

  unfoldable pub decrypt : List ℕ → List ℕ → List ℕ → List ℕ → Result (List ℕ)
  unfolding cipher_for nonce_for
  decrypt key nonce aad ct = do
    k ← cipher_for key
    n ← nonce_for nonce
    or_cipher "AES-256-GCM-SIV authentication failed" (unseal k n aad ct)

  abbrev pub aes256_gcm_siv_cipher : AuthenticatedCipher
  aes256_gcm_siv_cipher = record { encrypt = encrypt; decrypt = decrypt; nonce_size = nonce_len }
