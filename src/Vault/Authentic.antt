-- ===== src/Vault/Authentic.antt =====
-- src/vault.rs: what a vault reads was sealed in its session, or is a forgery.
use mathlib.Core.List.{Memᴰ}
use cryptovault.Common.{
  ℕ, ◌≡◌, ◌⊎◌, inl, inr, refl, sym, ap, ◌∙◌, List, [], ◌∷◌, ◌++◌, Bool, true, false, ◌&&◌,
  Bool-cases, length, arith, subst, same_text, same_text-eq, same_text_refl, some, take, drop,
  take-append-drop, length-take,
}
use cryptovault.Consts.{nonce_len, blob_version}
use cryptovault.Error.{ok, ok-injective}
use cryptovault.Blob.{decode_blob}
use cryptovault.Blob.Sound.{decode_blob-IsParsed}
use cryptovault.Cipher.Laws.{Opens}
use cryptovault.Kdf.{KdfCrates, expand_aead_key, hkdf_info_aead}
use cryptovault.Vault.Sealed.{expand_aead_key-ok}
use cryptovault.Vault.{Base64, CryptoVault, build_aad, build_header, decrypt_bytes_aad}
use cryptovault.Vault.Context.{build_aad-injective, decrypt_bytes_aad-IsOpened}
use cryptovault.Vault.Laws.{Expands}
use cryptovault.Vault.Session.{Sealing, aad_of, Session, Session-IsRecorded, IsRecorded}

-- The ciphertext `ct` was sealed under this key, nonce and associated data.
abbrev IsSame : List ℕ → List ℕ → List ℕ → List ℕ → Sealing → Type 0
IsSame key nonce aad ct s = (s.key ≡ key) × (s.nonce ≡ nonce) × (aad_of s ≡ aad) × (s.ct ≡ ct)

abbrev same_seal : List ℕ → List ℕ → List ℕ → List ℕ → Sealing → Bool
same_seal key nonce aad ct s =
    same_text s.key key
    && (same_text s.nonce nonce && (same_text (aad_of s) aad && same_text s.ct ct))

both_true : (a b : Bool) → a && b ≡ true → (a ≡ true) × (b ≡ true)
both_true true b h = (refl, h)
both_true false b h = cc

same_seal-IsSame :
    (key nonce aad ct : List ℕ) (s : Sealing)
    → same_seal key nonce aad ct s ≡ true
    → IsSame key nonce aad ct s
same_seal-IsSame key nonce aad ct s h =
    let (k, h1) = both_true (same_text s.key key) _ h in
    let (n, h2) = both_true (same_text s.nonce nonce) _ h1 in
    let (a, c) = both_true (same_text (aad_of s) aad) _ h2 in
    (
      same_text-eq s.key key k,
      same_text-eq s.nonce nonce n,
      same_text-eq (aad_of s) aad a,
      same_text-eq s.ct ct c,
    )

IsSame-same_seal :
    (key nonce aad ct : List ℕ) (s : Sealing)
    → IsSame key nonce aad ct s
    → same_seal key nonce aad ct s ≡ true
IsSame-same_seal key nonce aad ct s (k, n, a, c) =
    rw (k, n, a, c, same_text_refl key, same_text_refl nonce, same_text_refl aad)
      (same_text_refl ct)

-- The record has such a sealing or has none.
find_sealing :
    (key nonce aad ct : List ℕ) (log : List Sealing)
    → ((s : Sealing) × Memᴰ s log × IsSame key nonce aad ct s)
      ⊎ ((s : Sealing) → Memᴰ s log → ¬ IsSame key nonce aad ct s)
find_sealing key nonce aad ct [] = inr (λ s m. elim m [ ])
find_sealing key nonce aad ct (t ∷ log) = elim (Bool-cases (same_seal key nonce aad ct t)) [
  | inl same ↦ inl (t, Memᴰ.head refl, same_seal-IsSame key nonce aad ct t same)
  | inr other ↦ elim (find_sealing key nonce aad ct log) [
    | inl (s, m, same) ↦ inl (s, Memᴰ.tail m, same)
    | inr none_there ↦ inr (λ s m same. absent other s m same none_there)
  ]
]
  where
    absent :
        same_seal key nonce aad ct t ≡ false
        → (s : Sealing) → Memᴰ s (t ∷ log)
        → IsSame key nonce aad ct s
        → ((r : Sealing) → Memᴰ r log → ¬ IsSame key nonce aad ct r)
        → ⊥
    absent other s (Memᴰ.head e) same none_there =
        cc (
          IsSame-same_seal key nonce aad ct t (subst (λ r. IsSame key nonce aad ct r) e same),
          other,
        )
    absent other s (Memᴰ.tail m) same none_there = none_there s m same

module _ (kc : KdfCrates) (b64 : Base64) (vault : CryptoVault) where
  -- A text that carries a ciphertext which opens under the sub-key of `master`, and which was never
  -- sealed under that key, nonce and associated data: what an AEAD is to make infeasible.
  pub record IsForgery (log : List Sealing) (master text : List ℕ) : Type 0 where
    pub decoded : List ℕ
    pub n : ℕ
    pub key : List ℕ
    pub nonce : List ℕ
    pub aad : List ℕ
    pub ct : List ℕ
    pub pt : List ℕ
    pub decoded_eq : b64.b64_decode text ≡ some decoded
    pub framed : decode_blob vault.fec decoded ≡ ok (blob_version, n, nonce ++ ct)
    pub key_eq : expand_aead_key kc master ≡ ok key
    pub opened : vault.cipher.decrypt key nonce aad ct ≡ ok pt
    pub fresh : (s : Sealing) → Memᴰ s log → ¬ IsSame key nonce aad ct s

  -- A plaintext that the session sealed, for the purpose and the context, under the sub-key of
  -- `master`.
  pub record IsOwn (log : List Sealing) (master pt : List ℕ) (purpose : ℕ) (extra : List ℕ)
      : Type 0 where
    pub entry : Sealing
    pub recorded : Memᴰ entry log
    pub same_key : expand_aead_key kc master ≡ ok entry.key
    pub same_purpose : entry.purpose ≡ purpose
    pub same_extra : entry.extra ≡ extra
    pub same_pt : entry.pt ≡ pt

  -- A body that was decoded begins with a whole nonce.
  body_size :
      (decoded body : List ℕ) (n : ℕ)
      → decode_blob vault.fec decoded ≡ ok (blob_version, n, body)
      → length (take nonce_len body) ≡ nonce_len
  body_size decoded body n framed =
      let parsed = decode_blob-IsParsed vault.fec decoded (blob_version, n, body) framed in
      omega (arith, length-take nonce_len body, parsed.size)

  -- What was sealed is what opens.
  reopened :
      Opens vault.cipher
      → Expands kc
      → (master key nonce aad ct pt : List ℕ) (s : Sealing) → IsRecorded kc b64 vault s
      → IsSame key nonce aad ct s
      → expand_aead_key kc master ≡ ok key
      → length nonce ≡ nonce_len
      → vault.cipher.decrypt key nonce aad ct ≡ ok pt
      → s.pt ≡ pt
  reopened opens expands master key nonce aad ct pt s r (k, n, a, c) derived size opened =
      let (long, hkdf, hk) = expands master hkdf_info_aead in
      let same_key : long ≡ key =
        ok-injective (sym (expand_aead_key-ok kc master long hkdf) ∙ derived) in
      let (made, sealed, _, back) =
        opens s.key s.nonce (aad_of s) s.pt
          (omega (arith, ap (λ (t : List ℕ). length t) same_key, ap (λ (t : List ℕ). length t) k))
          (omega (arith, ap (λ (t : List ℕ). length t) n)) r.small in
      let same_ct : made ≡ s.ct = ok-injective (sym sealed ∙ r.sealed) in
      cc (back, same_ct, opened, k, n, a, c)

  -- The AEAD as a backstop, with no assumption on what was received: in any session of calls of a
  -- vault whose cipher opens what it seals, over an HKDF that answers, if `decrypt_bytes_aad`
  -- returns a plaintext from any text at all, then the session sealed that very plaintext, for that
  -- purpose and context and under the same sub-key, or the text exhibits a forgery of the cipher.
  pub decrypt_bytes_aad-IsOwn_or_forged :
      Opens vault.cipher
      → Expands kc
      → {log : List Sealing} → Session kc b64 vault log
      → (master text extra pt : List ℕ) (purpose : ℕ)
      → decrypt_bytes_aad kc b64 vault master text purpose extra ≡ ok pt
      → IsOwn log master pt purpose extra ⊎ IsForgery log master text
  decrypt_bytes_aad-IsOwn_or_forged opens expands {log} session master text extra pt purpose h =
      let (decoded, body, key, n, o) =
        decrypt_bytes_aad-IsOpened kc b64 vault master text purpose extra pt h in
      let aad = build_aad purpose (build_header n) extra in
      elim (find_sealing key (take nonce_len body) aad (drop nonce_len body) log) [
        | inl (s, m, same) ↦
            let r = Session-IsRecorded kc b64 vault session s m in
            let size = body_size decoded body n o.framed in
            let (same_p, _, same_x) =
              build_aad-injective s.purpose purpose (length s.pt) n s.extra extra
                (omega (arith, r.small)) (omega (arith, o.small)) same.2 in
            inl (record {
              entry = s;
              recorded = m;
              same_key = o.key_eq ∙ ap ok (sym same.0);
              same_purpose = same_p;
              same_extra = same_x;
              same_pt =
                  reopened opens expands master key (take nonce_len body) aad (drop nonce_len body)
                    pt s r same o.key_eq size o.opened;
            })
        | inr absent ↦ inr (record {
          decoded = decoded;
          n = n;
          key = key;
          nonce = take nonce_len body;
          aad = aad;
          ct = drop nonce_len body;
          pt = pt;
          decoded_eq = o.decoded_eq;
          framed =
              o.framed
              ∙ ap (λ (b : List ℕ). ok (blob_version, n, b))
                  (sym (take-append-drop nonce_len body));
          key_eq = o.key_eq;
          opened = o.opened;
          fresh = absent;
        })
      ]
