-- ===== src/Vault/Lifecycle.antt =====
-- src/vault.rs: the envelope scheme that src/README.md describes. A random data key encrypts the
-- text and is wrapped under a key of the passphrase; a change of the passphrase rewraps it.
use cryptovault.Common.{
  ℕ, ◌≤◌, ◌≡◌, refl, ◌∙◌, List, [], ◌∷◌, ◌==◌, All, length, arith, ne→==, eq→==, false,
}
use cryptovault.Consts.{key_len, salt_len, nonce_len, max_plaintext_len}
use cryptovault.Error.{Result, ok, ◌>>=◌}
use cryptovault.Cipher.{Entropy}
use cryptovault.Kdf.{KdfCrates, KeyDerivation, or_key_derivation}
use cryptovault.Utf8.{IsUtf8}
use cryptovault.Vault.{
  Base64, CryptoVault, derive_key, random_bytes, generate_salt, generate_dek, encrypt_with_key,
  decrypt_with_key, wrap_key, unwrap_key, rewrap,
}
use cryptovault.Vault.Laws.{Supplies, IsVault}
use cryptovault.Vault.RoundTrip.{
  decrypt_with_key-encrypt_with_key, unwrap_key-wrap_key, unwrap_key-rewrap,
}

-- What is kept: the salt of the passphrase, the wrapped data key and the encrypted text.
pub record Keyring : Type 0 where
  pub salt : List ℕ
  pub wrapped : List ℕ
  pub stored : List ℕ

-- The states of the generator at the draws of a creation, and of a change of the passphrase.
pub record Draws : Type 0 where
  pub for_salt : Entropy
  pub for_dek : Entropy
  pub for_wrap : Entropy
  pub for_text : Entropy

pub record Change : Type 0 where
  pub password : List ℕ
  pub for_salt : Entropy
  pub for_wrap : Entropy

-- The passphrase after the changes.
abbrev pub last_password : List ℕ → List Change → List ℕ
last_password password [] = password
last_password password (c ∷ changes) = last_password c.password changes

-- A key derivation that never fails on a salt of the right length.
abbrev pub Derives : KeyDerivation → Type 0
Derives kdf =
    (password salt : List ℕ)
    → length salt ≡ salt_len
    → (key : List ℕ) × (kdf.derive_master password salt ≡ ok key) × (length key ≡ key_len)

abbrev pub SuppliesDraws : Draws → Type 0
SuppliesDraws d =
    Supplies d.for_salt salt_len
    × Supplies d.for_dek key_len
    × Supplies d.for_wrap nonce_len
    × Supplies d.for_text nonce_len

abbrev pub SuppliesChange : Change → Type 0
SuppliesChange c =
    (1 ≤ length c.password) × Supplies c.for_salt salt_len × Supplies c.for_wrap nonce_len

random_bytes-ok :
    (entropy : Entropy) (n : ℕ)
    → Supplies entropy n
    → (bytes : List ℕ) × (random_bytes entropy n ≡ ok bytes) × (length bytes ≡ n)
unfolding random_bytes
random_bytes-ok entropy n (bytes, drawn, size) = (bytes, rw (drawn, or_key_derivation) refl, size)

module _ (kc : KdfCrates) (b64 : Base64) (vault : CryptoVault) where
  unfoldable pub create : Draws → List ℕ → List ℕ → Result Keyring
  unfolding generate_salt generate_dek derive_key wrap_key encrypt_with_key
  create draws password text = do
    salt ← generate_salt draws.for_salt
    kek ← derive_key vault password salt
    dek ← generate_dek draws.for_dek
    wrapped ← wrap_key kc b64 vault draws.for_wrap kek salt dek
    stored ← encrypt_with_key kc b64 vault draws.for_text dek text
    ok (record { salt = salt; wrapped = wrapped; stored = stored })

  unfoldable pub change_password : Keyring → List ℕ → Change → Result Keyring
  unfolding generate_salt derive_key rewrap
  change_password ring password c = do
    old_kek ← derive_key vault password ring.salt
    new_salt ← generate_salt c.for_salt
    new_kek ← derive_key vault c.password new_salt
    wrapped ← rewrap kc b64 vault c.for_wrap old_kek ring.salt new_kek new_salt ring.wrapped
    ok (record { salt = new_salt; wrapped = wrapped; stored = ring.stored })

  unfoldable pub change_all : Keyring → List ℕ → List Change → Result Keyring
  unfolding change_password
  change_all ring password [] = ok ring
  change_all ring password (c ∷ changes) = do
    changed ← change_password ring password c
    change_all changed c.password changes

  unfoldable pub read_text : Keyring → List ℕ → Result (List ℕ)
  unfolding derive_key unwrap_key decrypt_with_key
  read_text ring password = do
    kek ← derive_key vault password ring.salt
    dek ← unwrap_key kc b64 vault kek ring.salt ring.wrapped
    decrypt_with_key kc b64 vault dek ring.stored

  derive_key-ok :
      Derives vault.kdf
      → (password salt : List ℕ) → 1 ≤ length password
      → length salt ≡ salt_len
      → (kek : List ℕ) × (derive_key vault password salt ≡ ok kek) × (length kek ≡ key_len)
  unfolding derive_key
  derive_key-ok derives password salt hp hs =
      let (kek, run, hk) = derives password salt hs in
      let given : (length password == 0) ≡ false =
        ne→== (length password) 0 (λ e. omega (arith, e, hp)) in
      (kek, rw (given, eq→== (length salt) salt_len hs) run, hk)

  -- The keyring opens to the data key.
  record IsOpenTo (ring : Keyring) (password dek : List ℕ) : Type 0 where
    kek : List ℕ
    derived : derive_key vault password ring.salt ≡ ok kek
    opened : unwrap_key kc b64 vault kek ring.salt ring.wrapped ≡ ok dek

  module _ (laws : IsVault kc b64 vault) (derives : Derives vault.kdf) where
    change_password-ok :
        (ring : Keyring) (password dek : List ℕ) (c : Change)
        → SuppliesChange c
        → length dek ≡ key_len
        → IsOpenTo ring password dek
        → (changed : Keyring) × (change_password ring password c ≡ ok changed)
          × (changed.stored ≡ ring.stored)
          × IsOpenTo changed c.password dek
    unfolding change_password generate_salt
    change_password-ok ring password dek c (given, draws_salt, draws_nonce) hd o =
        let (salt, drawn, hs) = random_bytes-ok c.for_salt salt_len draws_salt in
        let (kek, derived, hk) = derive_key-ok derives c.password salt given hs in
        let (wrapped, run, back) =
          unwrap_key-rewrap kc b64 vault laws c.for_wrap o.kek ring.salt kek salt ring.wrapped dek
            draws_nonce hk (omega arith) o.opened in
        (
          record { salt = salt; wrapped = wrapped; stored = ring.stored },
          rw (o.derived, drawn, derived, run) refl,
          refl,
          record { kek = kek; derived = derived; opened = back },
        )

    change_all-ok :
        (ring : Keyring) (password dek : List ℕ) (changes : List Change)
        → All (λ c. SuppliesChange c) changes
        → length dek ≡ key_len
        → IsOpenTo ring password dek
        → (changed : Keyring) × (change_all ring password changes ≡ ok changed)
          × (changed.stored ≡ ring.stored)
          × IsOpenTo changed (last_password password changes) dek
    unfolding change_all
    change_all-ok ring password dek [] h hd o = (ring, refl, refl, o)
    change_all-ok ring password dek (c ∷ changes) (h, hs) hd o =
        let (next, run, kept, o1) = change_password-ok ring password dek c h hd o in
        let (changed, runs, still, o2) = change_all-ok next c.password dek changes hs hd o1 in
        (changed, rw run runs, still ∙ kept, o2)

    -- Envelope encryption over its whole life: in a vault whose parts meet their contracts, with a
    -- key derivation that yields 32 bytes and generators that answer, a text of UTF-8 within the cap that is stored
    -- under a passphrase is read back under the last passphrase after any sequence of changes of
    -- it, none of them empty, each of which succeeds, and no change touches the stored text.
    pub read_text-change_all :
        (draws : Draws) (password text : List ℕ) (changes : List Change)
        → SuppliesDraws draws
        → All (λ c. SuppliesChange c) changes
        → 1 ≤ length password
        → length text ≤ max_plaintext_len
        → IsUtf8 text
        → (ring : Keyring) × (create draws password text ≡ ok ring)
          × ((changed : Keyring) × (change_all ring password changes ≡ ok changed)
              × (changed.stored ≡ ring.stored)
              × (read_text changed (last_password password changes) ≡ ok text))
    unfolding create read_text generate_salt generate_dek
    read_text-change_all draws password text changes (salt_drawn, dek_drawn, wrap_drawn, text_drawn)
          h hp ht utf8 =
        let (salt, drawn, hs) = random_bytes-ok draws.for_salt salt_len salt_drawn in
        let (kek, derived, hk) = derive_key-ok derives password salt hp hs in
        let (dek, made, hd) = random_bytes-ok draws.for_dek key_len dek_drawn in
        let (wrapped, wrap, back) =
          unwrap_key-wrap_key kc b64 vault laws draws.for_wrap kek salt dek wrap_drawn hk
            (omega arith) in
        let (stored, seal, reads) =
          decrypt_with_key-encrypt_with_key kc b64 vault laws draws.for_text dek text text_drawn hd
            ht utf8 in
        let ring : Keyring = record { salt = salt; wrapped = wrapped; stored = stored } in
        let (changed, runs, kept, o) =
          change_all-ok ring password dek changes h hd
            (record { kek = kek; derived = derived; opened = back }) in
        (
          ring,
          rw (drawn, derived, made, wrap, seal) refl,
          (changed, runs, kept, rw (o.derived, o.opened, kept) reads),
        )
