-- ===== src/Vault/Total.antt =====
-- src/vault.rs: decryption on arbitrary input.
use cryptovault.Common.{ℕ, ◌≤◌, arith, List, ltb, length, ◌==◌, not, none, some, Option}
use cryptovault.Consts.{key_len, nonce_len, max_b64_len}
use cryptovault.Error.{Returns, Returns-eq, Returns-bind, Returns-reject_if}
use cryptovault.Blob.{decode_blob}
use cryptovault.Blob.Sound.{decode_blob-Returns}
use cryptovault.Kdf.{
  KdfCrates, Answer, good, bad, or_key_derivation, expand_aead_key, hkdf_expand, hkdf_info_aead,
}
use cryptovault.Slice.{split_at, split_at-ok}
use cryptovault.Utf8.{Utf8Error, from_utf8}
use cryptovault.Vault.{
  Base64, CryptoVault, decrypt_bytes_aad, open_body, decrypt_bytes, decrypt_with_key, unwrap_key,
  strict_decode, as_text,
}
use cryptovault.Vault.Laws.{IsTotalVault}

or_key_derivation-Returns :
    {A : Type 0} (text : _) (answer : Answer A) → Returns (or_key_derivation text answer)
or_key_derivation-Returns text (good a) = tt
or_key_derivation-Returns text (bad e) = tt

expand_aead_key-Returns : (kc : KdfCrates) (master : List ℕ) → Returns (expand_aead_key kc master)
unfolding expand_aead_key hkdf_expand
expand_aead_key-Returns kc master =
    or_key_derivation-Returns _ (kc.hkdf master hkdf_info_aead key_len)

strict_decode-Returns : (answer : Option (List ℕ)) → Returns (strict_decode answer)
strict_decode-Returns none = tt
strict_decode-Returns (some decoded) = tt

as_text-Returns : (bytes : List ℕ) (answer : Option Utf8Error) → Returns (as_text bytes answer)
as_text-Returns bytes none = tt
as_text-Returns bytes (some e) = tt

module _ (kc : KdfCrates) (b64 : Base64) (vault : CryptoVault) where
  open_body-Returns :
      IsTotalVault vault
      → (master : List ℕ) (purpose : ℕ) (extra : List ℕ) (n : ℕ) (body : List ℕ)
      → Returns (open_body kc b64 vault master purpose extra n body)
  unfolding open_body
  open_body-Returns total master purpose extra n body =
      Returns-reject_if (ltb (length body) nonce_len) _ _ (λ guarded.
        let long : nonce_len ≤ length body = ground arith in
        Returns-bind (split_at body nonce_len) _ (Returns-eq (split_at-ok body nonce_len long) tt)
          (λ halves _.
            Returns-bind (expand_aead_key kc master) _ (expand_aead_key-Returns kc master)
              (λ key _. (total.cipher key halves.0 _ halves.1).1)))

  -- Over a strategy and a cipher that never panic, `decrypt_bytes_aad` returns a value or a typed
  -- error for every master key, text, purpose and context, whatever the crates answer.
  pub decrypt_bytes_aad-Returns :
      IsTotalVault vault
      → (master text : List ℕ) (purpose : ℕ) (extra : List ℕ)
      → Returns (decrypt_bytes_aad kc b64 vault master text purpose extra)
  unfolding decrypt_bytes_aad
  decrypt_bytes_aad-Returns total master text purpose extra =
      Returns-reject_if (not (length master == key_len)) _ _ (λ _.
        Returns-reject_if (ltb max_b64_len (length text)) _ _ (λ _.
          Returns-bind (strict_decode (b64.b64_decode text)) _
            (strict_decode-Returns (b64.b64_decode text))
            (λ decoded _. Returns-reject_if (ltb vault.accept_cap (length decoded)) _ _ (λ _.
              Returns-bind (decode_blob vault.fec decoded) _
                (decode_blob-Returns vault.fec decoded total.fec)
                (λ out _. open_body-Returns total master purpose extra out.1 out.2)))))

  -- Over a strategy and a cipher that never panic, `decrypt_with_key` and `unwrap_key` return a
  -- value or a typed error for every key, salt and text, whatever the crates answer.
  pub decrypt_with_key-Returns :
      IsTotalVault vault
      → (master text salt : List ℕ)
      → Returns (decrypt_with_key kc b64 vault master text)
        × Returns (unwrap_key kc b64 vault master salt text)
  unfolding decrypt_with_key decrypt_bytes unwrap_key
  decrypt_with_key-Returns total master text salt = (
    Returns-bind (decrypt_bytes_aad kc b64 vault master text _ _) _
        (decrypt_bytes_aad-Returns total master text _ _)
        (λ bytes _. as_text-Returns bytes (from_utf8 bytes)),
    decrypt_bytes_aad-Returns total master text _ salt,
  )
