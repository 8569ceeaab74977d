-- ===== src/Vault/Context.antt =====
-- src/vault.rs: the associated data, and what a decryption went through.
use cryptovault.Common.{
  ℕ, ◌^◌, ◌<◌, ◌≤◌, ◌≡◌, sym, ap, ◌∙◌, List, ◌++◌, arith, ltb, length, take, drop, take-append_left,
  drop-append_left, some, ◌==◌, not, Option, none,
}
use cryptovault.Consts.{key_len, nonce_len, blob_version, max_plaintext_len, max_b64_len}
use cryptovault.Error.{ok, >>=-eq-ok, >>-eq-ok, ok-injective}
use cryptovault.Blob.{decode_blob}
use cryptovault.Blob.Sound.{decode_blob-IsParsed}
use cryptovault.Kdf.{KdfCrates, expand_aead_key}
use cryptovault.Slice.{
  split_at-ok, to_le_bytes, from_le_bytes, length-to_le_bytes, from_le_bytes-to_le_bytes,
}
use cryptovault.Vault.{
  Base64, CryptoVault, build_aad, build_header, decrypt_bytes_aad, open_body, strict_decode,
}

append-injective_right :
    (n : ℕ) (xs ys us vs : List ℕ)
    → length xs ≡ n
    → length us ≡ n
    → xs ++ ys ≡ us ++ vs
    → (xs ≡ us) × (ys ≡ vs)
append-injective_right n xs ys us vs hx hu e = (
  sym (front xs ys hx) ∙ ap (take n) e ∙ front us vs hu,
  sym (back xs ys hx) ∙ ap (drop n) e ∙ back us vs hu,
)
  where
    front : (fs bs : List ℕ) → length fs ≡ n → take n (fs ++ bs) ≡ fs
    front fs bs h = ap (λ (k : ℕ). take k (fs ++ bs)) (sym h) ∙ take-append_left fs bs

    back : (fs bs : List ℕ) → length fs ≡ n → drop n (fs ++ bs) ≡ bs
    back fs bs h = ap (λ (k : ℕ). drop k (fs ++ bs)) (sym h) ∙ drop-append_left fs bs

-- Two associated data that are equal have the same purpose, the same plaintext length (each fits in
-- 32 bits) and the same context: a value and an envelope, or envelopes under two salts, are never
-- authenticated under the same bytes.
pub build_aad-injective :
    (p q n m : ℕ) (xs ys : List ℕ)
    → n < 2 ^ 32
    → m < 2 ^ 32
    → build_aad p (build_header n) xs ≡ build_aad q (build_header m) ys
    → (p ≡ q) × (n ≡ m) × (xs ≡ ys)
unfolding build_aad build_header
build_aad-injective p q n m xs ys hn hm e =
    let head : p ≡ q = cc e in
    let tail : to_le_bytes 4 n ++ xs ≡ to_le_bytes 4 m ++ ys = ap (drop 2) e in
    let (len, rest) =
      append-injective_right 4 (to_le_bytes 4 n) xs (to_le_bytes 4 m) ys (length-to_le_bytes 4 n)
        (length-to_le_bytes 4 m) tail in
    (
      head,
      sym (from_le_bytes-to_le_bytes n hn) ∙ ap from_le_bytes len ∙ from_le_bytes-to_le_bytes m hm,
      rest,
    )

strict_decode-eq-ok :
    (answer : Option (List ℕ)) {decoded : List ℕ}
    → strict_decode answer ≡ ok decoded
    → answer ≡ some decoded
strict_decode-eq-ok none h = cc
strict_decode-eq-ok (some d) h = ap some (ok-injective h)

-- What a decryption that succeeded went through.
pub record IsOpened (kc : KdfCrates) (b64 : Base64) (vault : CryptoVault) (master text : List ℕ)
    (purpose : ℕ) (extra pt decoded body key : List ℕ) (n : ℕ) : Type 0 where
  pub master_len : length master ≡ key_len
  pub decoded_eq : b64.b64_decode text ≡ some decoded
  pub cap : length decoded ≤ vault.accept_cap
  pub framed : decode_blob vault.fec decoded ≡ ok (blob_version, n, body)
  pub small : n ≤ max_plaintext_len
  pub key_eq : expand_aead_key kc master ≡ ok key
  pub opened :
      vault.cipher.decrypt key
        (take nonce_len body)
        (build_aad purpose (build_header n) extra)
        (drop nonce_len body)
      ≡ ok pt

module _ (kc : KdfCrates) (b64 : Base64) (vault : CryptoVault) where
  open_body-eq-ok :
      (master : List ℕ) (purpose : ℕ) (extra : List ℕ) (n : ℕ) (body pt : List ℕ)
      → open_body kc b64 vault master purpose extra n body ≡ ok pt
      → (key : List ℕ) × (expand_aead_key kc master ≡ ok key)
        × (vault.cipher.decrypt key
              (take nonce_len body)
              (build_aad purpose (build_header n) extra)
              (drop nonce_len body)
            ≡ ok pt)
  unfolding open_body
  open_body-eq-ok master purpose extra n body pt h =
      let (guarded, h1) = >>-eq-ok (ltb (length body) nonce_len) _ _ h in
      let long : nonce_len ≤ length body = ground arith in
      >>=-eq-ok (expand_aead_key kc master) _ (rw (split_at-ok body nonce_len long) at h1)

  -- Over any strategy and cipher, if `decrypt_bytes_aad` returns a plaintext, then the master key
  -- has 32 bytes, the text is Base64 of bytes within the vault's cap, these decode to a blob of
  -- the supported version, and the cipher opened the blob's body to that plaintext, under the sub-
  -- key of the master key, with associated data of the given purpose and context and the blob's
  -- own length.
  pub decrypt_bytes_aad-IsOpened :
      (master text : List ℕ) (purpose : ℕ) (extra pt : List ℕ)
      → decrypt_bytes_aad kc b64 vault master text purpose extra ≡ ok pt
      → (decoded : List ℕ) × (body : List ℕ) × (key : List ℕ) × (n : ℕ) × IsOpened kc b64 vault
          master text purpose extra pt decoded body key n
  unfolding decrypt_bytes_aad
  decrypt_bytes_aad-IsOpened master text purpose extra pt h =
      let (hm, h1) = >>-eq-ok (not (length master == key_len)) _ _ h in
      let (_, h2) = >>-eq-ok (ltb max_b64_len (length text)) _ _ h1 in
      let (decoded, got, h3) = >>=-eq-ok (strict_decode (b64.b64_decode text)) _ h2 in
      let (cap, h4) = >>-eq-ok (ltb vault.accept_cap (length decoded)) _ _ h3 in
      let (out, framed, h5) = >>=-eq-ok (decode_blob vault.fec decoded) _ h4 in
      let (key, hkey, opened) = open_body-eq-ok master purpose extra out.1 out.2 pt h5 in
      let parsed = decode_blob-IsParsed vault.fec decoded out framed in
      (
        decoded,
        out.2,
        key,
        out.1,
        record {
          master_len = ground arith;
          decoded_eq = strict_decode-eq-ok (b64.b64_decode text) got;
          cap = ground arith;
          framed = framed ∙ ap (λ (v : ℕ). ok (v, out.1, out.2)) parsed.version;
          small = parsed.small;
          key_eq = hkey;
          opened = opened;
        },
      )
