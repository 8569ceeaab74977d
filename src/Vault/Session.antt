-- ===== src/Vault/Session.antt =====
-- src/vault.rs: a run of calls of one vault, and the record of what its cipher sealed.
use mathlib.Core.List.{Memᴰ}
use cryptovault.Common.{
  ℕ, ◌%◌, ◌^◌, ◌≤◌, ◌≡◌, ◌⊎◌, inl, inr, refl, sym, ap, ◌∙◌, List, [], ◌∷◌, ◌++◌, not, ltb, ◌==◌,
  length, arith, subst, ap₂,
}
use cryptovault.Consts.{key_len, blob_version, max_plaintext_len}
use cryptovault.Error.{ok, >>=-eq-ok, >>-eq-ok, ok-injective}
use cryptovault.Blob.{encode_blob}
use cryptovault.Cipher.{Entropy, sample_nonce}
use cryptovault.Kdf.{KdfCrates, expand_aead_key}
use cryptovault.Vault.{
  Base64, CryptoVault, build_aad, build_header, encrypt_bytes_aad, encrypt_bytes, encrypt_with_key,
  wrap_key, unwrap_key, rewrap, aad_purpose_data, aad_purpose_envelope,
}

-- One plaintext that the cipher sealed, for a purpose and a context, under a sub-key and a nonce.
pub record Sealing : Type 0 where
  pub purpose : ℕ
  pub extra : List ℕ
  pub pt : List ℕ
  pub key : List ℕ
  pub nonce : List ℕ
  pub ct : List ℕ

abbrev pub aad_of : Sealing → List ℕ
aad_of s = build_aad s.purpose (build_header (length s.pt)) s.extra

module _ (kc : KdfCrates) (b64 : Base64) (vault : CryptoVault) where
  -- What an encryption under `master` that returned `text` sealed.
  pub record IsMade (master text : List ℕ) (s : Sealing) : Type 0 where
    pub key_eq : expand_aead_key kc master ≡ ok s.key
    pub small : length s.pt ≤ max_plaintext_len
    pub sealed : vault.cipher.encrypt s.key s.nonce (aad_of s) s.pt ≡ ok s.ct
    pub blob : List ℕ
    pub encoded : encode_blob vault.fec blob_version (length s.pt) (s.nonce ++ s.ct) ≡ ok blob
    pub text_eq : text ≡ b64.b64_encode blob

  -- An encryption that returns has sealed its plaintext.
  pub encrypt_bytes_aad-IsMade :
      (entropy : Entropy) (master pt extra text : List ℕ) (purpose : ℕ)
      → encrypt_bytes_aad kc b64 vault entropy master pt purpose extra ≡ ok text
      → (s : Sealing) × (s.purpose ≡ purpose)
        × (s.extra ≡ extra)
        × (s.pt ≡ pt)
        × IsMade master text s
  unfolding encrypt_bytes_aad
  encrypt_bytes_aad-IsMade entropy master pt extra text purpose h =
      let (_, h1) = >>-eq-ok (not (length master == key_len)) _ _ h in
      let (fits, h2) = >>-eq-ok (ltb max_plaintext_len (length pt)) _ _ h1 in
      let (key, hk, h3) = >>=-eq-ok (expand_aead_key kc master) _ h2 in
      let (nonce, hn, h4) = >>=-eq-ok (sample_nonce entropy) _ h3 in
      let small : length pt ≤ max_plaintext_len = ground arith in
      let u32 : length pt % 2 ^ 32 ≡ length pt = omega arith in
      let (ct, hc, h5) = >>=-eq-ok (vault.cipher.encrypt key nonce _ pt) _ h4 in
      let (blob, hb, h6) = >>=-eq-ok (encode_blob vault.fec blob_version _ (nonce ++ ct)) _ h5 in
      (
        record { purpose = purpose; extra = extra; pt = pt; key = key; nonce = nonce; ct = ct },
        refl,
        refl,
        refl,
        record {
          key_eq = hk;
          small = small;
          sealed =
              subst
                (λ n.
                  vault.cipher.encrypt key nonce (build_aad purpose (build_header n) extra) pt
                  ≡ ok ct)
                u32 hc;
          blob = blob;
          encoded =
              subst (λ n. encode_blob vault.fec blob_version n (nonce ++ ct) ≡ ok blob) u32 hb;
          text_eq = sym (ok-injective h6);
        },
      )

  -- A call that seals, with what it adds to the record. `rewrap` seals what it unwrapped.
  pub data Step (log : List Sealing) : List Sealing → Type 0 where
    stored :
        (entropy : Entropy) (key text : List ℕ) (s : Sealing)
        → encrypt_with_key kc b64 vault entropy key s.pt ≡ ok text
        → s.purpose ≡ aad_purpose_data
        → s.extra ≡ []
        → IsMade key text s
        → Step log (s ∷ log)
    wrapped :
        (entropy : Entropy) (kek text : List ℕ) (s : Sealing)
        → wrap_key kc b64 vault entropy kek s.extra s.pt ≡ ok text
        → s.purpose ≡ aad_purpose_envelope
        → IsMade kek text s
        → Step log (s ∷ log)
    rewrapped :
        (entropy : Entropy) (old_kek old_salt new_kek blob text : List ℕ) (s : Sealing)
        → rewrap kc b64 vault entropy old_kek old_salt new_kek s.extra blob ≡ ok text
        → unwrap_key kc b64 vault old_kek old_salt blob ≡ ok s.pt
        → s.purpose ≡ aad_purpose_envelope
        → IsMade new_kek text s
        → Step log (s ∷ log)

  -- The records that a run of calls can leave; calls that read or fail add nothing.
  pub data Session : List Sealing → Type 0 where
    started : Session []
    next : {log log' : List Sealing} → Session log → Step log log' → Session log'

  -- Every call that returns a text is a step.
  pub encrypt_with_key-Step :
      (log : List Sealing) (entropy : Entropy) (key pt text : List ℕ)
      → encrypt_with_key kc b64 vault entropy key pt ≡ ok text
      → (s : Sealing) × (s.pt ≡ pt) × Step log (s ∷ log)
  unfolding encrypt_with_key encrypt_bytes
  encrypt_with_key-Step log entropy key pt text h =
      let (s, p, x, e, made) = encrypt_bytes_aad-IsMade entropy key pt [] text aad_purpose_data h in
      let call : encrypt_with_key kc b64 vault entropy key s.pt ≡ ok text =
        subst (λ q. encrypt_with_key kc b64 vault entropy key q ≡ ok text) (sym e) h in
      (s, e, stored entropy key text s call p x made)

  pub wrap_key-Step :
      (log : List Sealing) (entropy : Entropy) (kek salt pt text : List ℕ)
      → wrap_key kc b64 vault entropy kek salt pt ≡ ok text
      → (s : Sealing) × (s.pt ≡ pt) × (s.extra ≡ salt) × Step log (s ∷ log)
  unfolding wrap_key
  wrap_key-Step log entropy kek salt pt text h =
      let (s, p, x, e, made) =
        encrypt_bytes_aad-IsMade entropy kek pt salt text aad_purpose_envelope h in
      let call : wrap_key kc b64 vault entropy kek s.extra s.pt ≡ ok text =
        ap₂ (λ u q. wrap_key kc b64 vault entropy kek u q) x e ∙ h in
      (s, e, x, wrapped entropy kek text s call p made)

  pub rewrap-Step :
      (log : List Sealing) (entropy : Entropy)
      (old_kek old_salt new_kek new_salt blob text : List ℕ)
      → rewrap kc b64 vault entropy old_kek old_salt new_kek new_salt blob ≡ ok text
      → (s : Sealing) × (s.extra ≡ new_salt) × Step log (s ∷ log)
  unfolding rewrap unwrap_key
  rewrap-Step log entropy old_kek old_salt new_kek new_salt blob text h =
      let (dek, got, h') = >>=-eq-ok (unwrap_key kc b64 vault old_kek old_salt blob) _ h in
      let (s, p, x, e, made) =
        encrypt_bytes_aad-IsMade entropy new_kek dek new_salt text aad_purpose_envelope h' in
      let call : rewrap kc b64 vault entropy old_kek old_salt new_kek s.extra blob ≡ ok text =
        ap (λ u. rewrap kc b64 vault entropy old_kek old_salt new_kek u blob) x ∙ h in
      (
        s,
        x,
        rewrapped entropy old_kek old_salt new_kek blob text s call (got ∙ ap ok (sym e)) p made,
      )

  -- What holds of each entry of the record: the cipher made its ciphertext, under a sub-key, and the
  -- context of a stored value is empty.
  pub record IsRecorded (s : Sealing) : Type 0 where
    pub small : length s.pt ≤ max_plaintext_len
    pub sealed : vault.cipher.encrypt s.key s.nonce (aad_of s) s.pt ≡ ok s.ct
    pub derived : (master : List ℕ) × (expand_aead_key kc master ≡ ok s.key)
    pub purposes :
        ((s.purpose ≡ aad_purpose_data) × (s.extra ≡ [])) ⊎ (s.purpose ≡ aad_purpose_envelope)

  IsMade-IsRecorded :
      (master text : List ℕ) (s : Sealing)
      → IsMade master text s
      → ((s.purpose ≡ aad_purpose_data) × (s.extra ≡ [])) ⊎ (s.purpose ≡ aad_purpose_envelope)
      → IsRecorded s
  IsMade-IsRecorded master text s made purposes = record {
    small = made.small;
    sealed = made.sealed;
    derived = (master, made.key_eq);
    purposes = purposes;
  }

  added :
      {log : List Sealing} (new : Sealing)
      → IsRecorded new
      → ((s : Sealing) → Memᴰ s log → IsRecorded s)
      → (s : Sealing) → Memᴰ s (new ∷ log)
      → IsRecorded s
  added new r h s (Memᴰ.head e) = subst (λ t. IsRecorded t) (sym e) r
  added new r h s (Memᴰ.tail m) = h s m

  Step-IsRecorded :
      {log log' : List Sealing}
      → Step log log'
      → ((s : Sealing) → Memᴰ s log → IsRecorded s)
      → (s : Sealing) → Memᴰ s log'
      → IsRecorded s
  Step-IsRecorded (stored entropy key text new call p x made) h s m =
      added new (IsMade-IsRecorded key text new made (inl (p, x))) h s m
  Step-IsRecorded (wrapped entropy kek text new call p made) h s m =
      added new (IsMade-IsRecorded kek text new made (inr p)) h s m
  Step-IsRecorded (rewrapped entropy old_kek old_salt new_kek blob text new call got p made) h s m =
      added new (IsMade-IsRecorded new_kek text new made (inr p)) h s m

  pub Session-IsRecorded :
      {log : List Sealing} → Session log → (s : Sealing) → Memᴰ s log → IsRecorded s
  Session-IsRecorded started s m = elim m [ ]
  Session-IsRecorded (next past st) s m = Step-IsRecorded st (Session-IsRecorded past) s m
