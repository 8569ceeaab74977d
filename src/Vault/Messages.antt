-- ===== src/Vault/Messages.antt =====
-- src/vault.rs: what the errors of a decryption tell.
use cryptovault.Common.{
  ℕ, ◌≤◌, ◌≡◌, ◌⊎◌, inl, inr, refl, List, Option, none, some, Bool, true, false, ◌==◌, ltb, length,
  take, drop, arith, eq→==, le→ltb, String, length-take,
}
use cryptovault.Consts.{key_len, nonce_len, max_b64_len}
use cryptovault.Error.{
  CryptoError, Result, ok, err, panic, hang, ◌>>=◌, reject_if, cipher, encoding, invalid_input,
}
use cryptovault.Blob.{decode_blob}
use cryptovault.Blob.Sound.{decode_blob-IsParsed}
use cryptovault.Cipher.{AeadCrate, decrypt, cipher_for, nonce_for, or_cipher}
use cryptovault.Fec.Concat.{ConcatenatedFec}
use cryptovault.Fec.Concat.Contract.{IsDepth}
use cryptovault.Fec.Concat.Messages.{decode_blob-IsFixed}
use cryptovault.Fec.Messages.{IsFixed}
use cryptovault.Fec.Interleaver.Csprng.RoundTrip.{IsLive}
use cryptovault.Kdf.{hkdf_info_aead}
use cryptovault.Slice.{split_at-ok}
use cryptovault.Vault.{decrypt_bytes_aad, open_body, strict_decode}
use cryptovault.Vault.Default.{Crates, vault_of}
use cryptovault.Vault.Laws.{Expands}
use cryptovault.Vault.Sealed.{expand_aead_key-ok}

-- The one error of a failed authentication.
abbrev pub not_authentic : CryptoError
not_authentic = cipher "AES-256-GCM-SIV authentication failed"

-- The errors of a decryption: the four of `decode_blob`, bad Base64, and a failed authentication.
abbrev pub IsDoorError : CryptoError → Type 0
IsDoorError e = IsFixed e ⊎ ((e ≡ encoding "invalid encoding") ⊎ (e ≡ not_authentic))

>>=-eq-err {ℓ κ} :
    {A : Type ℓ} {B : Type κ} (call : Result A) (rest : A → Result B) {e : CryptoError}
    → (call >>= rest) ≡ err e
    → (call ≡ err e) ⊎ ((a : A) × (call ≡ ok a) × (rest a ≡ err e))
>>=-eq-err (ok a) rest h = inr (a, refl, h)
>>=-eq-err (err f) rest h = inl (cc h)
>>=-eq-err panic rest h = cc
>>=-eq-err hang rest h = cc

or_cipher-eq-err :
    (text : String) (o : Option (List ℕ)) {e : CryptoError}
    → or_cipher text o ≡ err e
    → e ≡ cipher text
or_cipher-eq-err text none h = cc h
or_cipher-eq-err text (some a) h = cc

reject_if-eq-err : (b : Bool) (f : CryptoError) {e : CryptoError} → reject_if b f ≡ err e → e ≡ f
reject_if-eq-err true f h = cc h
reject_if-eq-err false f h = cc

strict_decode-eq-err :
    (answer : Option (List ℕ)) {e : CryptoError}
    → strict_decode answer ≡ err e
    → e ≡ encoding "invalid encoding"
strict_decode-eq-err none h = cc h
strict_decode-eq-err (some decoded) h = cc

-- Under a key and a nonce of the right lengths, `decrypt` fails in one way.
decrypt-eq-err :
    (ac : AeadCrate) (key nonce aad ct : List ℕ) (e : CryptoError)
    → length key ≡ key_len
    → length nonce ≡ nonce_len
    → decrypt ac key nonce aad ct ≡ err e
    → e ≡ not_authentic
unfolding decrypt cipher_for nonce_for
decrypt-eq-err ac key nonce aad ct e hk hn h =
    or_cipher-eq-err _ (ac.unseal key nonce aad ct)
      (rw (eq→== (length key) key_len hk, eq→== (length nonce) nonce_len hn) at h)

module _ (crates : Crates) (live : IsLive crates.sc crates.fuel) (expands : Expands crates.kc)
    (fec : ConcatenatedFec) (depth : IsDepth fec) where
  open crates use {kc, b64, aead, rs, vc, sc, fuel}

  -- Once a blob is decoded, a decryption fails in one way.
  open_body-eq-err :
      (master : List ℕ) (purpose : ℕ) (extra : List ℕ) (n : ℕ) (body : List ℕ) (e : CryptoError)
      → nonce_len ≤ length body
      → open_body kc b64 (vault_of crates fec) master purpose extra n body ≡ err e
      → e ≡ not_authentic
  unfolding open_body
  open_body-eq-err master purpose extra n body e long h =
      let (key, hkdf, hk) = expands master hkdf_info_aead in
      decrypt-eq-err aead key (take nonce_len body) _ (drop nonce_len body) e hk
        (omega (arith, length-take nonce_len body))
        (rw
          (
            le→ltb (length body) nonce_len long,
            split_at-ok body nonce_len long,
            expand_aead_key-ok kc master key hkdf,
          )
          at h)

  -- No oracle: in a vault of the default parts with a depth of 1 to 16, if HKDF answers and the
  -- keystream is live, an error of `decrypt_bytes_aad` under a key of 32 bytes has one of six fixed
  -- messages, and either it is the failed authentication, or any other key of 32 bytes, purpose and
  -- context give the same error on the text, so that it tells nothing of them.
  pub decrypt_bytes_aad_no_oracle :
      (master other text xs ys : List ℕ) (p q : ℕ) (e : CryptoError)
      → length master ≡ key_len
      → length other ≡ key_len
      → decrypt_bytes_aad kc b64 (vault_of crates fec) master text p xs ≡ err e
      → IsDoorError e
        × ((e ≡ not_authentic)
            ⊎ (decrypt_bytes_aad kc b64 (vault_of crates fec) other text q ys ≡ err e))
  unfolding decrypt_bytes_aad
  decrypt_bytes_aad_no_oracle master other text xs ys p q e hm ho h =
      let vault = vault_of crates fec in
      let right : (length other == key_len) ≡ true = eq→== (length other) key_len ho in
      let too_long = invalid_input "input exceeds maximum size" in
      let h1 = rw (eq→== (length master) key_len hm) at h in
      elim (>>=-eq-err (reject_if (ltb max_b64_len (length text)) too_long) _ h1) [
        | inl f ↦ (inl (inl (reject_if-eq-err _ _ f)), inr (rw (right, f)))
        | inr (_, f1, h2) ↦ elim (>>=-eq-err (strict_decode (b64.b64_decode text)) _ h2) [
          | inl f ↦ (inr (inl (strict_decode-eq-err _ f)), inr (rw (right, f1, f)))
          | inr (decoded, f2, h3) ↦
              elim (>>=-eq-err (reject_if (ltb vault.accept_cap (length decoded)) too_long) _ h3) [
                | inl f ↦ (inl (inl (reject_if-eq-err _ _ f)), inr (rw (right, f1, f2, f)))
                | inr (_, f3, h4) ↦ elim (>>=-eq-err (decode_blob vault.fec decoded) _ h4) [
                  | inl f ↦ (
                    inl (decode_blob-IsFixed rs vc sc fuel live fec depth decoded e f),
                    inr (rw (right, f1, f2, f3, f)),
                  )
                  | inr ((v, n, body), f4, h5) ↦
                      let parsed = decode_blob-IsParsed vault.fec decoded (v, n, body) f4 in
                      let same =
                        open_body-eq-err master p xs n body e (omega (arith, parsed.size)) h5 in
                      (inr (inr same), inl same)
                ]
              ]
        ]
      ]
