-- ===== src/Fuzz.antt =====
-- fuzz/fuzz_targets: the targets that drive a vault's decryption or the crates. A target that ends normally
-- returns the unit; what the call under test returned is dropped.
use cryptovault.Slice.{read, slice}
use cryptovault.Fec.ReedSolomon.{RsAnswer}
use cryptovault.Fec.Viterbi.{Decoded}
use cryptovault.Common.{
  ◌==◌, if◌then◌else◌, Option, none, some, length, min, ◌^◌, ◌-◌, ◌*◌, ◌%◌, ℕ, List, replicate,
}
use cryptovault.Error.{◌>>◌, Result, ok, err, panic, hang, ◌>>=◌}
use cryptovault.Cipher.{aes256_gcm_siv_cipher}
use cryptovault.Fec.ViterbiOnly.{viterbi_only_fec}
use cryptovault.Kdf.{argon2_kdf}
use cryptovault.Utf8.{from_utf8_lossy}
use cryptovault.Vault.{CryptoVault, new, decrypt_with_key, unwrap_key}
use cryptovault.Vault.Default.{Crates, default_vault}

-- `let _ = call;`
abbrev pub discard : {A : Type 0} → Result A → Result (Unit {0})
discard (ok a) = ok tt
discard (err e) = ok tt
discard panic = panic
discard hang = hang

-- Multiplication of `usize` that stops at the greatest number.
abbrev saturating : ℕ → ℕ
saturating n = min n (2 ^ 64 - 1)

abbrev pub max_info_bits : ℕ
max_info_bits = 1000000

-- `KEY`, and `KEK` of the envelope's target
abbrev pub fuzz_key : List ℕ
fuzz_key = replicate 32 0x42

abbrev pub fuzz_salt : List ℕ
fuzz_salt = replicate 16 0x24

module _ (crates : Crates) where
  open crates use {kc, b64, aead, rs, vc, sc, fuel}

  -- decrypt.rs
  unfoldable pub fuzz_decrypt : List ℕ → Result (Unit {0})
  fuzz_decrypt input = do
    vault ← default_vault crates
    discard (decrypt_with_key kc b64 vault fuzz_key (from_utf8_lossy input))

  -- unwrap.rs
  unfoldable pub fuzz_unwrap : List ℕ → Result (Unit {0})
  fuzz_unwrap input = do
    vault ← default_vault crates
    discard (unwrap_key kc b64 vault fuzz_key fuzz_salt (from_utf8_lossy input))

  abbrev pub viterbi_only_vault : CryptoVault
  viterbi_only_vault = new (argon2_kdf kc) (aes256_gcm_siv_cipher aead) (viterbi_only_fec vc)

  -- decrypt_viterbi_only.rs
  unfoldable pub fuzz_decrypt_viterbi_only : List ℕ → Result (Unit {0})
  fuzz_decrypt_viterbi_only input =
      discard (decrypt_with_key kc b64 viterbi_only_vault fuzz_key (from_utf8_lossy input))

-- The two crates as fec_crates.rs drives them: any of their calls may panic, which is what the target
-- looks for. `decode` and `decode_framed` are the `reedsolomon` crate's.
pub record FuzzedCrates : Type 1 where
  pub decode : List ℕ → ℕ → Result RsAnswer
  pub decode_framed : List ℕ → Result RsAnswer
  pub Decoder : Type 0
  pub new_decoder : ℕ → Result (Option Decoder)
  pub decode_block : Decoder → List ℕ → ℕ → Result (Decoded × Decoder)

module _ (fuzzed : FuzzedCrates) where
  open fuzzed use {Decoder, decode, decode_framed, new_decoder, decode_block}

  -- `if let Ok(mut decoder) = … { … }`
  abbrev pub drive_decoder : Option Decoder → ℕ → List ℕ → Result (Unit {0})
  drive_decoder none sel payload = ok tt
  drive_decoder (some decoder) sel payload =
      discard (decode_block decoder payload (saturating (length payload * 8) - sel % 8))

  -- The calls on a selector and a payload.
  unfoldable pub drive_crates : ℕ → List ℕ → Result (Unit {0})
  drive_crates sel payload = do
    discard (decode payload (saturating (sel * 4)))
    discard (decode_framed payload)
    built ← new_decoder max_info_bits
    drive_decoder built sel payload

  -- fec_crates.rs
  unfoldable pub fuzz_fec_crates : List ℕ → Result (Unit {0})
  unfolding read slice drive_crates
  fuzz_fec_crates input =
      if length input == 0
      then ok tt
      else (do sel ← read input 0; payload ← slice input 1 (length input); drive_crates sel payload)
