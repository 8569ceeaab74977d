-- ===== src/Cipher/Laws.antt =====
-- src/cipher.rs: the contract of an authenticated cipher, and `Aes256GcmSivCipher` under it.
use cryptovault.Common.{
  ℕ, ◌+◌, ◌≤◌, ◌≡◌, Option, none, some, List, ◌==◌, Bool, true, false, if◌then◌else◌, String, not,
  eq→==, length,
}
use cryptovault.Consts.{key_len, nonce_len, tag_len, max_plaintext_len}
use cryptovault.Error.{CryptoError, ok, panic, ◌>>◌, reject_if, Returns, Returns-bind}
use cryptovault.Cipher.{
  AuthenticatedCipher, AeadCrate, cipher_for, nonce_for, or_cipher, encrypt, decrypt,
  aes256_gcm_siv_cipher,
}

-- Under a key and a nonce of the right lengths every plaintext within the cap is sealed, with a tag
-- of 16 bytes, and opens under the same key, nonce and associated data.
abbrev pub Opens : AuthenticatedCipher → Type 0
Opens c =
    (key nonce aad pt : List ℕ)
    → length key ≡ key_len
    → length nonce ≡ nonce_len
    → length pt ≤ max_plaintext_len
    → (ct : List ℕ) × (c.encrypt key nonce aad pt ≡ ok ct)
      × (length ct ≡ length pt + tag_len)
      × (c.decrypt key nonce aad ct ≡ ok pt)

-- The same of the crate (RFC 8452).
abbrev pub IsAead : AeadCrate → Type 0
IsAead ac =
    (key nonce aad pt : List ℕ)
    → length key ≡ key_len
    → length nonce ≡ nonce_len
    → length pt ≤ max_plaintext_len
    → (ct : List ℕ) × (ac.seal key nonce aad pt ≡ some ct)
      × (length ct ≡ length pt + tag_len)
      × (ac.unseal key nonce aad ct ≡ some pt)

pub aes256_gcm_siv_cipher-Opens : (ac : AeadCrate) → IsAead ac → Opens (aes256_gcm_siv_cipher ac)
unfolding encrypt decrypt cipher_for nonce_for
aes256_gcm_siv_cipher-Opens ac laws key nonce aad pt hk hn hp =
    let (ct, e, size, back) = laws key nonce aad pt hk hn hp in
    let k : (length key == key_len) ≡ true = eq→== (length key) key_len hk in
    let n : (length nonce == nonce_len) ≡ true = eq→== (length nonce) nonce_len hn in
    (ct, rw (k, n, e), size, rw (k, n, back))

or_cipher-Returns : {A : Type 0} (text : String) (o : Option A) → Returns (or_cipher text o)
or_cipher-Returns text none = tt
or_cipher-Returns text (some a) = tt

-- A cipher that always returns or reports an error, on any lengths.
abbrev pub IsTotalCipher : AuthenticatedCipher → Type 0
IsTotalCipher c =
    (key nonce aad text : List ℕ)
    → Returns (c.encrypt key nonce aad text) × Returns (c.decrypt key nonce aad text)

-- Behind its guard, `from_slice` does not panic.
guarded-Returns :
    (fits : Bool) (e : CryptoError) (bytes : List ℕ)
    → Returns (reject_if (not fits) e >> (if fits then ok bytes else panic))
guarded-Returns true e bytes = tt
guarded-Returns false e bytes = tt

cipher_for-Returns : (key : List ℕ) → Returns (cipher_for key)
unfolding cipher_for
cipher_for-Returns key = guarded-Returns (length key == key_len) _ key

nonce_for-Returns : (nonce : List ℕ) → Returns (nonce_for nonce)
unfolding nonce_for
nonce_for-Returns nonce = guarded-Returns (length nonce == nonce_len) _ nonce

pub aes256_gcm_siv_cipher-IsTotalCipher :
    (ac : AeadCrate) → IsTotalCipher (aes256_gcm_siv_cipher ac)
aes256_gcm_siv_cipher-IsTotalCipher ac key nonce aad text = (
  unfold encrypt in
      Returns-bind (cipher_for key) _ (cipher_for-Returns key) (λ k _.
        Returns-bind (nonce_for nonce) _ (nonce_for-Returns nonce)
          (λ n _. or_cipher-Returns "AES-256-GCM-SIV encryption failed" (ac.seal k n aad text))),
  unfold decrypt in
      Returns-bind (cipher_for key) _ (cipher_for-Returns key) (λ k _.
        Returns-bind (nonce_for nonce) _ (nonce_for-Returns nonce) (λ n _.
          or_cipher-Returns "AES-256-GCM-SIV authentication failed" (ac.unseal k n aad text))),
)
