-- ===== src/Vault/Laws.antt =====
-- What src/vault.rs relies on: the documented behaviour of the crates and the contracts of its
-- parts.
use cryptovault.Common.{ℕ, ◌*◌, ◌≤◌, ◌≡◌, some, List, length}
use cryptovault.Consts.{key_len, max_blob_len, div_ceil}
use cryptovault.Cipher.{Entropy}
use cryptovault.Cipher.Laws.{Opens, IsTotalCipher}
use cryptovault.Fec.{Recovers, IsTotal}
use cryptovault.Kdf.{KdfCrates, good}
use cryptovault.Vault.{Base64, CryptoVault}

-- The generator fills a buffer of `n` bytes.
abbrev pub Supplies : Entropy → ℕ → Type 0
Supplies entropy n = (bytes : List ℕ) × (entropy n ≡ good bytes) × (length bytes ≡ n)

-- HKDF-SHA256 answers every request for 32 bytes (the limit of RFC 5869 is 8160).
abbrev pub Expands : KdfCrates → Type 0
Expands kc =
    (master info : List ℕ)
    → (key : List ℕ) × (kc.hkdf master info key_len ≡ good key) × (length key ≡ key_len)

-- The standard alphabet with padding: four characters for three bytes.
pub record IsBase64 (b64 : Base64) : Type 0 where
  pub back : (xs : List ℕ) → b64.b64_decode (b64.b64_encode xs) ≡ some xs
  pub size : (xs : List ℕ) → length (b64.b64_encode xs) ≡ 4 * div_ceil (length xs) 3

-- A vault whose parts meet their contracts, at the acceptance cap of `new` or above.
pub record IsVault (kc : KdfCrates) (b64 : Base64) (vault : CryptoVault) : Type 0 where
  pub expands : Expands kc
  pub base64 : IsBase64 b64
  pub opens : Opens vault.cipher
  pub recovers : Recovers vault.fec
  pub cap : max_blob_len ≤ vault.accept_cap

-- A vault whose parts never panic.
pub record IsTotalVault (vault : CryptoVault) : Type 0 where
  pub cipher : IsTotalCipher vault.cipher
  pub fec : IsTotal vault.fec
