-- ===== src/Vault/Binding.antt =====
-- src/vault.rs: the key, the purpose and the context of a ciphertext, over a cipher that binds
-- them.
use cryptovault.Common.{
  ℕ, ◌≤◌, ◌≡◌, ◌≢◌, sym, ap, ap₂, ◌∙◌, List, [], ◌++◌, arith, length, take, drop, take-append_left,
  drop-append_left, Option, some, none, String,
}
use cryptovault.Consts.{key_len, nonce_len, max_plaintext_len}
use cryptovault.Error.{ok, ok-injective, >>=-eq-ok}
use cryptovault.Blob.{decode_blob}
use cryptovault.Cipher.{
  AuthenticatedCipher, AeadCrate, Entropy, cipher_for, nonce_for, or_cipher, encrypt, decrypt,
  aes256_gcm_siv_cipher,
}
use cryptovault.Kdf.{KdfCrates}
use cryptovault.Utf8.{from_utf8}
use cryptovault.Vault.{
  Base64, CryptoVault, build_aad, build_header, encrypt_bytes_aad, decrypt_bytes_aad, wrap_key,
  unwrap_key, decrypt_bytes, decrypt_with_key, encrypt_bytes, encrypt_with_key, aad_purpose_data,
  aad_purpose_envelope, as_text,
}
use cryptovault.Vault.Laws.{Supplies, IsVault}
use cryptovault.Vault.Sealed.{encrypt_bytes_aad-IsSealed}
use cryptovault.Vault.Context.{build_aad-injective, decrypt_bytes_aad-IsOpened}

-- The authenticity of the AEAD, without its negligible error: a ciphertext opens only under the
-- associated data that it was sealed with.
abbrev pub Binds : AuthenticatedCipher → Type 0
Binds c =
    (key nonce aad other pt found ct : List ℕ)
    → c.encrypt key nonce aad pt ≡ ok ct
    → c.decrypt key nonce other ct ≡ ok found
    → aad ≡ other

-- The same of the crate.
abbrev pub BindsAead : AeadCrate → Type 0
BindsAead ac =
    (key nonce aad other pt found ct : List ℕ)
    → ac.seal key nonce aad pt ≡ some ct
    → ac.unseal key nonce other ct ≡ some found
    → aad ≡ other

or_cipher-eq-ok :
    (text : String) (o : Option (List ℕ)) {xs : List ℕ} → or_cipher text o ≡ ok xs → o ≡ some xs
or_cipher-eq-ok text none h = cc
or_cipher-eq-ok text (some a) h = ap some (ok-injective h)

-- The default cipher hands the binding of the crate on.
pub aes256_gcm_siv_cipher-Binds : (ac : AeadCrate) → BindsAead ac → Binds (aes256_gcm_siv_cipher ac)
unfolding encrypt decrypt
aes256_gcm_siv_cipher-Binds ac binds key nonce aad other pt found ct made opened =
    let (k, hk, made1) = >>=-eq-ok (cipher_for key) _ made in
    let (n, hn, made2) = >>=-eq-ok (nonce_for nonce) _ made1 in
    let (k', hk', opened1) = >>=-eq-ok (cipher_for key) _ opened in
    let (n', hn', opened2) = >>=-eq-ok (nonce_for nonce) _ opened1 in
    let sealed = or_cipher-eq-ok _ (ac.seal k n aad pt) made2 in
    let unsealed = or_cipher-eq-ok _ (ac.unseal k' n' other ct) opened2 in
    let same_k : k ≡ k' = ok-injective (sym hk ∙ hk') in
    let same_n : n ≡ n' = ok-injective (sym hn ∙ hn') in
    binds k n aad other pt found ct sealed
      (ap₂ (λ (a b : List ℕ). ac.unseal a b other ct) same_k same_n ∙ unsealed)

pub some-injective : {xs ys : List ℕ} → some xs ≡ some ys → xs ≡ ys
some-injective h = cc

module _ (kc : KdfCrates) (b64 : Base64) (vault : CryptoVault) where
  -- In a vault whose parts meet their contracts and whose cipher binds the associated data, with a
  -- key of 32 bytes and a generator that supplies a nonce, a text that `encrypt_bytes_aad` made of
  -- a plaintext within the cap decrypts under that key only for the purpose and the context that
  -- it was made for, and only to the plaintext that it was made of.
  pub encrypt_bytes_aad_one_context :
      IsVault kc b64 vault
      → Binds vault.cipher
      → (entropy : Entropy) (master pt found text xs ys : List ℕ) (p q : ℕ)
      → Supplies entropy nonce_len
      → length master ≡ key_len
      → length pt ≤ max_plaintext_len
      → encrypt_bytes_aad kc b64 vault entropy master pt p xs ≡ ok text
      → decrypt_bytes_aad kc b64 vault master text q ys ≡ ok found
      → (p ≡ q) × (xs ≡ ys) × (pt ≡ found)
  encrypt_bytes_aad_one_context laws binds entropy master pt found text xs ys p q drawn hm hp made
        read_back =
      let (key, nonce, ct, blob, run, s) =
        encrypt_bytes_aad-IsSealed kc b64 vault laws entropy master pt xs p drawn hm hp in
      let (decoded, body, key2, n, o) =
        decrypt_bytes_aad-IsOpened kc b64 vault master text q ys found read_back in
      let same_text : b64.b64_encode blob ≡ text = ok-injective (sym run ∙ made) in
      let same_blob : blob ≡ decoded =
        some-injective (sym (laws.base64.back blob) ∙ ap b64.b64_decode same_text ∙ o.decoded_eq) in
      let same_key : key ≡ key2 = ok-injective (sym s.key_eq ∙ o.key_eq) in
      let same =
        ok-injective (sym s.framed ∙ ap (λ d. decode_blob vault.fec d) same_blob ∙ o.framed) in
      let same_len : length pt ≡ n = ap (λ (t : ℕ × ℕ × List ℕ). t.1) same in
      let same_body : nonce ++ ct ≡ body = ap (λ (t : ℕ × ℕ × List ℕ). t.2) same in
      let front : take nonce_len body ≡ nonce =
        ap₂ take (sym s.nonce_size) (sym same_body) ∙ take-append_left nonce ct in
      let back : drop nonce_len body ≡ ct =
        ap₂ drop (sym s.nonce_size) (sym same_body) ∙ drop-append_left nonce ct in
      let aad2 = build_aad q (build_header n) ys in
      let opened : vault.cipher.decrypt key nonce aad2 ct ≡ ok found =
        rw (same_key, sym front, sym back) o.opened in
      let same_aad = binds key nonce _ aad2 pt found ct s.sealed opened in
      let (same_p, _, same_x) =
        build_aad-injective p q (length pt) n xs ys (omega arith) (omega (arith, o.small))
          same_aad in
      (
        same_p,
        same_x,
        ok-injective
            (sym s.opened ∙ ap (λ a. vault.cipher.decrypt key nonce a ct) same_aad ∙ opened),
      )

  -- In a vault whose parts meet their contracts and whose cipher binds the associated data, with a
  -- key of 32 bytes and a generator that supplies a nonce, what `wrap_key` made of material within
  -- the cap belongs to its salt: `unwrap_key` that succeeds on it under the same key was given the
  -- salt of `wrap_key`, and returns what was wrapped.
  pub unwrap_key_one_salt :
      IsVault kc b64 vault
      → Binds vault.cipher
      → (entropy : Entropy) (kek salt other material found wrapped : List ℕ)
      → Supplies entropy nonce_len
      → length kek ≡ key_len
      → length material ≤ max_plaintext_len
      → wrap_key kc b64 vault entropy kek salt material ≡ ok wrapped
      → unwrap_key kc b64 vault kek other wrapped ≡ ok found
      → (salt ≡ other) × (material ≡ found)
  unfolding wrap_key unwrap_key
  unwrap_key_one_salt laws binds entropy kek salt other material found wrapped drawn hk hm made
        opened =
      let (_, same_salt, same_material) =
        encrypt_bytes_aad_one_context laws binds entropy kek material found wrapped salt other
          aad_purpose_envelope aad_purpose_envelope drawn hk hm made opened in
      (same_salt, same_material)

  -- In a vault whose parts meet their contracts and whose cipher binds the associated data, with a
  -- key of 32 bytes and a generator that supplies a nonce, a wrapped key is not read as a stored
  -- value and a stored value is not unwrapped as a key: under the same key, `decrypt_with_key` on
  -- what `wrap_key` made, and `unwrap_key` under any salt on what `encrypt_with_key` made, do not
  -- succeed.
  pub purposes_separated :
      IsVault kc b64 vault
      → Binds vault.cipher
      → (entropy : Entropy) (key salt other plain text wrapped blob : List ℕ)
      → Supplies entropy nonce_len
      → length key ≡ key_len
      → length plain ≤ max_plaintext_len
      → wrap_key kc b64 vault entropy key salt plain ≡ ok wrapped
      → encrypt_with_key kc b64 vault entropy key plain ≡ ok blob
      → (decrypt_with_key kc b64 vault key wrapped ≢ ok text)
        × (unwrap_key kc b64 vault key other blob ≢ ok text)
  unfolding wrap_key unwrap_key decrypt_with_key decrypt_bytes encrypt_with_key encrypt_bytes
  purposes_separated laws binds entropy key salt other plain text wrapped blob drawn hk hm sealed
        made =
      (
        λ opened.
            let (bytes, run, _) =
              >>=-eq-ok (decrypt_bytes_aad kc b64 vault key wrapped aad_purpose_data [])
                (λ bs. as_text bs (from_utf8 bs)) opened in
            let crossed =
              encrypt_bytes_aad_one_context laws binds entropy key plain bytes wrapped salt []
                aad_purpose_envelope aad_purpose_data drawn hk hm sealed run in
            absurd (omega (arith, crossed.0)),
        λ opened.
            let crossed =
              encrypt_bytes_aad_one_context laws binds entropy key plain text blob [] other
                aad_purpose_data aad_purpose_envelope drawn hk hm made opened in
            absurd (omega (arith, crossed.0)),
      )
