-- ===== src/Vault/Strings.antt =====
-- src/vault.rs: `decrypt_with_key` and the `String` that it returns.
use Prim.Native.String.{◌++◌ as append}
use cryptovault.Common.{
  String, [], ℕ, ◌≡◌, ◌⊎◌, inl, inr, refl, ap, ◌∙◌, List, Option, none, some, Option-cases,
}
use cryptovault.Error.{CryptoError, ok, err, encoding, Returns-cases}
use cryptovault.Kdf.{KdfCrates}
use cryptovault.Utf8.{Utf8Error, from_utf8, utf8_error_text}
use cryptovault.Utf8.Decoded.{IsString, IsUtf8-iff}
use cryptovault.Vault.{
  Base64, CryptoVault, decrypt_bytes, decrypt_with_key, as_text, aad_purpose_data,
}
use cryptovault.Vault.Laws.{IsTotalVault}
use cryptovault.Vault.Total.{decrypt_bytes_aad-Returns}

module _ (kc : KdfCrates) (b64 : Base64) (vault : CryptoVault) where
  with_text :
      (key blob bytes : List ℕ)
      → decrypt_bytes kc b64 vault key blob ≡ ok bytes
      → decrypt_with_key kc b64 vault key blob ≡ as_text bytes (from_utf8 bytes)
  unfolding decrypt_with_key
  with_text key blob bytes run = rw run refl

  with_error :
      (key blob : List ℕ) (e : CryptoError)
      → decrypt_bytes kc b64 vault key blob ≡ err e
      → decrypt_with_key kc b64 vault key blob ≡ err e
  unfolding decrypt_with_key
  with_error key blob e run = rw run refl

  -- What a decryption to a `String` returns: over a strategy and a cipher that never panic, for
  -- every key and text, `decrypt_with_key` returns the plaintext of `decrypt_bytes` unchanged if it
  -- is the UTF-8 encoding of a list of Unicode scalar values, returns an `Encoding` error if it is
  -- not, and hands on the error of `decrypt_bytes` if there is one.
  pub decrypt_with_key_cases :
      IsTotalVault vault
      → (key blob : List ℕ)
      → ((bytes : List ℕ) × (decrypt_bytes kc b64 vault key blob ≡ ok bytes)
          × IsString bytes
          × (decrypt_with_key kc b64 vault key blob ≡ ok bytes))
        ⊎ ((bytes : List ℕ) × (decrypt_bytes kc b64 vault key blob ≡ ok bytes)
            × (¬ IsString bytes)
            × (text : String) × (decrypt_with_key kc b64 vault key blob ≡ err (encoding text)))
        ⊎ ((e : CryptoError) × (decrypt_bytes kc b64 vault key blob ≡ err e)
            × (decrypt_with_key kc b64 vault key blob ≡ err e))
  unfolding decrypt_bytes
  decrypt_with_key_cases total key blob =
      elim (Returns-cases (decrypt_bytes kc b64 vault key blob)
        (decrypt_bytes_aad-Returns kc b64 vault total key blob aad_purpose_data [])) [
          | inl (bytes, run) ↦ elim (Option-cases (from_utf8 bytes)) [
            | inl valid ↦ inl (
              bytes,
              run,
              (IsUtf8-iff bytes).0 valid,
              with_text key blob bytes run ∙ ap (as_text bytes) valid,
            )
            | inr (e, bad) ↦ inr (
                inl (
                  bytes,
                  run,
                  λ string. clash ((IsUtf8-iff bytes).1 string) bad,
                  append "decrypted plaintext is not valid UTF-8: " (utf8_error_text e),
                  with_text key blob bytes run ∙ ap (as_text bytes) bad,
                ))
          ]
          | inr (e, run) ↦ inr (inr (e, run, with_error key blob e run))
        ]
    where
      clash : {answer : Option Utf8Error} {e : Utf8Error} → answer ≡ none → answer ≡ some e → ⊥
      clash h k = cc
