-- ===== src/Examples/Vaults.antt =====
-- The vault's theorems on small vaults.
use cryptovault.Common.{
  ℕ, ◌+◌, ◌≡◌, ◌≢◌, refl, sym, ◌∙◌, some, none, List, [], ◌∷◌, ◌++◌, ◌==◌, ==_iff, arith, length,
  replicate, Bool-cases, inl, inr,
}
use cryptovault.Consts.{nonce_len}
use cryptovault.Error.{ok, err, invalid_input, Returns}
use cryptovault.Cipher.{aes256_gcm_siv_cipher, cipher_for, nonce_for, sample_nonce}
use cryptovault.Cipher
use cryptovault.Cipher.Laws.{aes256_gcm_siv_cipher-Opens, aes256_gcm_siv_cipher-IsTotalCipher}
use cryptovault.Fec.NoFec.{no_fec, no_fec-Carries, no_fec-IsTotal}
use cryptovault.Kdf.{argon2_kdf}
use cryptovault.Utf8.{from_utf8}
use cryptovault.Vault.{
  CryptoVault, new, with_max_blob_len, encrypt_bytes_aad, decrypt_bytes_aad, encrypt_with_key,
  decrypt_with_key, wrap_key, unwrap_key, rewrap,
}
use cryptovault.Vault.Laws.{IsVault, IsTotalVault}
use cryptovault.Vault.Binding.{
  BindsAead, Binds, aes256_gcm_siv_cipher-Binds, encrypt_bytes_aad_one_context, purposes_separated,
}
use cryptovault.Vault.Context.{IsOpened, build_aad-injective, decrypt_bytes_aad-IsOpened}
use cryptovault.Vault.Default.{
  Crates, IsDocumented, default_vault, default_vault-round_trip, default_vault-Returns,
}
use cryptovault.Vault.Guards.{with_max_blob_len-refuses}
use cryptovault.Vault.RoundTrip.{
  decrypt_bytes_aad-encrypt_bytes_aad, decrypt_with_key-encrypt_with_key, unwrap_key-wrap_key,
  unwrap_key-rewrap,
}
use cryptovault.Vault.Total.{decrypt_with_key-Returns}
use cryptovault.Examples.Code.{code, code-injective}
use cryptovault.Examples.Crates.{
  entropy, entropy-Supplies, kdf_crates, kdf_crates-Expands, base64, base64-IsBase64, aead_crate,
  aead_crate-IsAead, viterbi_crate, viterbi_crate-IsViterbi, stream_cipher, stream_cipher-IsLive,
}
use cryptovault.Examples.Repetition.{rs_crate, rs_crate-IsReedSolomon}

pub aead_crate-BindsAead : BindsAead aead_crate
aead_crate-BindsAead key nonce aad other pt found ct made opened = by_tag ct (word made) opened
  where
    word : {a b : List ℕ} → some a ≡ some b → a ≡ b
    word h = cc

    by_tag :
        (c : List ℕ)
        → code aad ∷ replicate 15 0 ++ pt ≡ c
        → aead_crate.unseal key nonce other c ≡ some found
        → aad ≡ other
    by_tag [] e h = cc
    by_tag (t ∷ c) e h = elim (Bool-cases (t == code other)) [
      | inl same ↦ code-injective aad other (first e ∙ (==_iff t (code other)).0 same)
      | inr differs ↦ absurd (refused (sym (rw differs refl) ∙ h))
    ]
      where
        first : {a b : ℕ} {us vs : List ℕ} → a ∷ us ≡ b ∷ vs → a ≡ b
        first h = cc

        refused : none ≡ some found → ⊥
        refused h = cc

-- The default key derivation and cipher around the identity strategy.
abbrev pub vault : CryptoVault
vault = new (argon2_kdf kdf_crates) (aes256_gcm_siv_cipher aead_crate) no_fec

pub vault-IsVault : IsVault kdf_crates base64 vault
vault-IsVault = record {
  expands = kdf_crates-Expands;
  base64 = base64-IsBase64;
  opens = aes256_gcm_siv_cipher-Opens aead_crate aead_crate-IsAead;
  recovers = no_fec-Carries;
  cap = omega arith;
}

pub vault-IsTotalVault : IsTotalVault vault
vault-IsTotalVault = record {
  cipher = aes256_gcm_siv_cipher-IsTotalCipher aead_crate;
  fec = no_fec-IsTotal;
}

vault-Binds : Binds vault.cipher
vault-Binds = aes256_gcm_siv_cipher-Binds aead_crate aead_crate-BindsAead

abbrev pub master : List ℕ
master = replicate 32 9

abbrev pub salt : List ℕ
salt = replicate 16 4

abbrev pub text : List ℕ
text = 0x68 ∷ 0x69 ∷ []

pub text-IsUtf8 : from_utf8 text ≡ none
unfolding from_utf8
text-IsUtf8 = refl

abbrev pub crates : Crates
crates = record {
  kc = kdf_crates;
  b64 = base64;
  aead = aead_crate;
  rs = rs_crate;
  vc = viterbi_crate;
  sc = stream_cipher;
  fuel = 2;
}

pub crates-IsDocumented : IsDocumented crates
crates-IsDocumented = record {
  expands = kdf_crates-Expands;
  base64 = base64-IsBase64;
  aead_laws = aead_crate-IsAead;
  rs_laws = rs_crate-IsReedSolomon;
  vc_laws = viterbi_crate-IsViterbi;
}

default_vault-round_trip_example :
    (v : CryptoVault) × (default_vault crates ≡ ok v)
    × ((blob : List ℕ) × (encrypt_with_key kdf_crates base64 v entropy master text ≡ ok blob)
        × (decrypt_with_key kdf_crates base64 v master blob ≡ ok text))
default_vault-round_trip_example =
    default_vault-round_trip crates stream_cipher-IsLive crates-IsDocumented entropy master text
      (entropy-Supplies nonce_len) refl (omega arith) text-IsUtf8

default_vault-Returns_example :
    (v : CryptoVault) × (default_vault crates ≡ ok v)
    × Returns (decrypt_with_key kdf_crates base64 v master text)
    × Returns (unwrap_key kdf_crates base64 v master salt text)
default_vault-Returns_example = default_vault-Returns crates stream_cipher-IsLive master text salt

decrypt_bytes_aad-encrypt_bytes_aad_example :
    (blob : List ℕ) × (encrypt_bytes_aad kdf_crates base64 vault entropy master text 2 salt
      ≡ ok blob)
    × (decrypt_bytes_aad kdf_crates base64 vault master blob 2 salt ≡ ok text)
decrypt_bytes_aad-encrypt_bytes_aad_example =
    decrypt_bytes_aad-encrypt_bytes_aad kdf_crates base64 vault vault-IsVault entropy master text
      salt 2 (entropy-Supplies nonce_len) refl (omega arith)

stored_round_trip :
    (blob : List ℕ) × (encrypt_with_key kdf_crates base64 vault entropy master text ≡ ok blob)
    × (decrypt_with_key kdf_crates base64 vault master blob ≡ ok text)
stored_round_trip =
    decrypt_with_key-encrypt_with_key kdf_crates base64 vault vault-IsVault entropy master text
      (entropy-Supplies nonce_len) refl (omega arith) text-IsUtf8

pub envelope_round_trip :
    (wrapped : List ℕ) × (wrap_key kdf_crates base64 vault entropy master salt text ≡ ok wrapped)
    × (unwrap_key kdf_crates base64 vault master salt wrapped ≡ ok text)
envelope_round_trip =
    unwrap_key-wrap_key kdf_crates base64 vault vault-IsVault entropy master salt text
      (entropy-Supplies nonce_len) refl (omega arith)

-- What `wrap_key` makes of the text under the salt.
abbrev pub envelope : List ℕ
envelope = envelope_round_trip.0

pub envelope_made : wrap_key kdf_crates base64 vault entropy master salt text ≡ ok envelope
envelope_made = envelope_round_trip.1

pub envelope_opens : unwrap_key kdf_crates base64 vault master salt envelope ≡ ok text
envelope_opens = envelope_round_trip.2

abbrev pub new_master : List ℕ
new_master = replicate 32 8

abbrev pub new_salt : List ℕ
new_salt = replicate 16 5

unwrap_key-rewrap_example :
    (wrapped : List ℕ) × (rewrap kdf_crates base64 vault entropy master salt new_master new_salt
        envelope
      ≡ ok wrapped)
    × (unwrap_key kdf_crates base64 vault new_master new_salt wrapped ≡ ok text)
unwrap_key-rewrap_example =
    unwrap_key-rewrap kdf_crates base64 vault vault-IsVault entropy master salt new_master new_salt
      envelope text (entropy-Supplies nonce_len) refl (omega arith) envelope_opens

encrypt_bytes_aad_one_context_example : (◌≡◌ {A = ℕ} 2 2) × (salt ≡ salt) × (text ≡ text)
unfolding wrap_key unwrap_key
encrypt_bytes_aad_one_context_example =
    encrypt_bytes_aad_one_context kdf_crates base64 vault vault-IsVault vault-Binds entropy master
      text text envelope salt salt 2 2 (entropy-Supplies nonce_len) refl (omega arith) envelope_made
      envelope_opens

purposes_separated_example :
    (decrypt_with_key kdf_crates base64 vault master envelope ≢ ok text)
    × (unwrap_key kdf_crates base64 vault master new_salt stored_round_trip.0 ≢ ok text)
purposes_separated_example =
    purposes_separated kdf_crates base64 vault vault-IsVault vault-Binds entropy master salt
      new_salt text text envelope stored_round_trip.0 (entropy-Supplies nonce_len) refl
      (omega arith) envelope_made stored_round_trip.1

decrypt_bytes_aad-IsOpened_example :
    (decoded : List ℕ) × (body : List ℕ) × (key : List ℕ) × (n : ℕ) × IsOpened kdf_crates base64
      vault master envelope 2 salt text decoded body key n
unfolding unwrap_key
decrypt_bytes_aad-IsOpened_example =
    decrypt_bytes_aad-IsOpened kdf_crates base64 vault master envelope 2 salt text envelope_opens

build_aad-injective_example : (◌≡◌ {A = ℕ} 2 2) × (◌≡◌ {A = ℕ} 7 7) × (salt ≡ salt)
build_aad-injective_example = build_aad-injective 2 2 7 7 salt salt (omega arith) (omega arith) refl

with_max_blob_len-refuses_example :
    decrypt_bytes_aad kdf_crates base64 (with_max_blob_len vault 1) master (2 ∷ 5 ∷ 6 ∷ []) 1 []
    ≡ err (invalid_input "input exceeds maximum size")
with_max_blob_len-refuses_example =
    with_max_blob_len-refuses kdf_crates base64 vault 1 master (2 ∷ 5 ∷ 6 ∷ []) (5 ∷ 6 ∷ []) 1 []
      refl (omega arith) refl (inl (omega arith))

decrypt_with_key-Returns_example :
    Returns (decrypt_with_key kdf_crates base64 vault master envelope)
    × Returns (unwrap_key kdf_crates base64 vault master salt envelope)
decrypt_with_key-Returns_example =
    decrypt_with_key-Returns kdf_crates base64 vault vault-IsTotalVault master envelope salt

aes256_gcm_siv_cipher-Opens_example :
    (ct : List ℕ) × (Cipher.encrypt aead_crate master (replicate 12 0) salt text ≡ ok ct)
    × (length ct ≡ length text + 16)
    × (Cipher.decrypt aead_crate master (replicate 12 0) salt ct ≡ ok text)
aes256_gcm_siv_cipher-Opens_example =
    aes256_gcm_siv_cipher-Opens aead_crate aead_crate-IsAead master (replicate 12 0) salt text refl
      refl (omega arith)
