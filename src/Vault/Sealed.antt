-- ===== src/Vault/Sealed.antt =====
-- src/vault.rs: what an encryption makes of a plaintext, and the steps that open it.
use cryptovault.Common.{
  ◌+◌, ℕ, ◌^◌, ◌%◌, ◌≤◌, ◌≡◌, sym, ap, ◌∙◌, List, ◌++◌, arith, le→ltb, eq→==, length, take, drop,
  length-append, take-append_left, drop-append_left, some,
}
use cryptovault.Consts.{
  key_len, nonce_len, tag_len, blob_version, max_plaintext_len, max_blob_len, max_b64_len,
}
use cryptovault.Error.{ok}
use cryptovault.Blob.{encode_blob, decode_blob}
use cryptovault.Blob.RoundTrip.{decode_blob-encode_blob}
use cryptovault.Cipher.{Entropy, sample_nonce}
use cryptovault.Kdf.{KdfCrates, expand_aead_key, hkdf_expand, hkdf_info_aead, good}
use cryptovault.Slice.{split_at-ok}
use cryptovault.Vault.{
  Base64, CryptoVault, build_aad, build_header, encrypt_bytes_aad, decrypt_bytes_aad, open_body,
  strict_decode,
}
use cryptovault.Vault.Laws.{Supplies, IsVault}

-- What an encryption that succeeded made: a sub-key, a nonce, a ciphertext that opens, and a blob
-- within the cap that is decoded to the length and the body.
pub record IsSealed (kc : KdfCrates) (vault : CryptoVault) (master pt : List ℕ) (purpose : ℕ)
    (extra key nonce ct blob : List ℕ) : Type 0 where
  pub key_eq : expand_aead_key kc master ≡ ok key
  pub nonce_size : length nonce ≡ nonce_len
  pub sealed :
      vault.cipher.encrypt key nonce (build_aad purpose (build_header (length pt)) extra) pt ≡ ok ct
  pub opened :
      vault.cipher.decrypt key nonce (build_aad purpose (build_header (length pt)) extra) ct ≡ ok pt
  pub size : length ct ≡ length pt + tag_len
  pub encoded : encode_blob vault.fec blob_version (length pt) (nonce ++ ct) ≡ ok blob
  pub bound : length blob ≤ max_blob_len
  pub framed : decode_blob vault.fec blob ≡ ok (blob_version, length pt, nonce ++ ct)

pub expand_aead_key-ok :
    (kc : KdfCrates) (master key : List ℕ)
    → kc.hkdf master hkdf_info_aead key_len ≡ good key
    → expand_aead_key kc master ≡ ok key
unfolding expand_aead_key hkdf_expand
expand_aead_key-ok kc master key h = rw h

sample_nonce-ok :
    (entropy : Entropy) (nonce : List ℕ)
    → entropy nonce_len ≡ good nonce
    → sample_nonce entropy ≡ ok nonce
unfolding sample_nonce
sample_nonce-ok entropy nonce h = rw (h, sample_nonce)

module _ (kc : KdfCrates) (b64 : Base64) (vault : CryptoVault) where
  -- The body `nonce ‖ ciphertext` opens to what was sealed.
  pub open_body-ok :
      (master key nonce ct pt : List ℕ) (purpose : ℕ) (extra : List ℕ) (n : ℕ)
      → expand_aead_key kc master ≡ ok key
      → length nonce ≡ nonce_len
      → vault.cipher.decrypt key nonce (build_aad purpose (build_header n) extra) ct ≡ ok pt
      → open_body kc b64 vault master purpose extra n (nonce ++ ct) ≡ ok pt
  unfolding open_body
  open_body-ok master key nonce ct pt purpose extra n hkey hn opened =
      let front : take nonce_len (nonce ++ ct) ≡ nonce =
        ap (λ (k : ℕ). take k (nonce ++ ct)) (sym hn) ∙ take-append_left nonce ct in
      let back : drop nonce_len (nonce ++ ct) ≡ ct =
        ap (λ (k : ℕ). drop k (nonce ++ ct)) (sym hn) ∙ drop-append_left nonce ct in
      rw (
        le→ltb (length (nonce ++ ct)) nonce_len (omega (arith, length-append nonce ct)),
        split_at-ok (nonce ++ ct) nonce_len (omega (arith, length-append nonce ct)),
        hkey,
        front,
        back,
        opened,
      )

  encrypt_steps :
      (entropy : Entropy) (master pt key nonce ct blob extra : List ℕ) (purpose : ℕ)
      → length master ≡ key_len
      → length pt ≤ max_plaintext_len
      → expand_aead_key kc master ≡ ok key
      → sample_nonce entropy ≡ ok nonce
      → vault.cipher.encrypt key nonce (build_aad purpose (build_header (length pt)) extra) pt
        ≡ ok ct
      → encode_blob vault.fec blob_version (length pt) (nonce ++ ct) ≡ ok blob
      → encrypt_bytes_aad kc b64 vault entropy master pt purpose extra ≡ ok (b64.b64_encode blob)
  unfolding encrypt_bytes_aad
  encrypt_steps entropy master pt key nonce ct blob extra purpose hm hp hkey hnonce sealed framed =
      let u32 : length pt % 2 ^ 32 ≡ length pt = omega arith in
      rw (
        eq→== (length master) key_len hm,
        le→ltb max_plaintext_len (length pt) hp,
        hkey,
        hnonce,
        u32,
        sealed,
        framed,
      )

  pub decrypt_steps :
      (master text blob body pt extra : List ℕ) (purpose n : ℕ)
      → length master ≡ key_len
      → length text ≤ max_b64_len
      → b64.b64_decode text ≡ some blob
      → length blob ≤ vault.accept_cap
      → decode_blob vault.fec blob ≡ ok (blob_version, n, body)
      → open_body kc b64 vault master purpose extra n body ≡ ok pt
      → decrypt_bytes_aad kc b64 vault master text purpose extra ≡ ok pt
  unfolding decrypt_bytes_aad
  decrypt_steps master text blob body pt extra purpose n hm ht decoded fits framed opened = rw (
    eq→== (length master) key_len hm,
    le→ltb max_b64_len (length text) ht,
    decoded,
    strict_decode,
    le→ltb vault.accept_cap (length blob) fits,
    framed,
    opened,
  )

  -- Under a vault whose parts meet their contracts the encryption runs through.
  pub encrypt_bytes_aad-IsSealed :
      IsVault kc b64 vault
      → (entropy : Entropy) (master pt extra : List ℕ) (purpose : ℕ) → Supplies entropy nonce_len
      → length master ≡ key_len
      → length pt ≤ max_plaintext_len
      → (key : List ℕ) × (nonce : List ℕ) × (ct : List ℕ) × (blob : List ℕ) × (encrypt_bytes_aad kc
            b64 vault entropy master pt purpose extra
          ≡ ok (b64.b64_encode blob))
        × IsSealed kc vault master pt purpose extra key nonce ct blob
  encrypt_bytes_aad-IsSealed laws entropy master pt extra purpose (nonce, drawn, hn) hm hp =
      let (key, expanded, hk) = laws.expands master hkdf_info_aead in
      let aad = build_aad purpose (build_header (length pt)) extra in
      let (ct, sealed, size, opened) = laws.opens key nonce aad pt hk hn hp in
      let hkey = expand_aead_key-ok kc master key expanded in
      let (blob, framed, bound, back) =
        decode_blob-encode_blob vault.fec (length pt) (nonce ++ ct) laws.recovers hp
          (omega (arith, length-append nonce ct)) in
      (
        key,
        nonce,
        ct,
        blob,
        encrypt_steps entropy master pt key nonce ct blob extra purpose hm hp hkey
            (sample_nonce-ok entropy nonce drawn) sealed framed,
        record {
          key_eq = hkey;
          nonce_size = hn;
          sealed = sealed;
          opened = opened;
          size = size;
          encoded = framed;
          bound = bound;
          framed = back;
        },
      )
