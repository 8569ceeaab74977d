-- ===== src/Kdf.antt =====
-- src/kdf.rs: the trait `KeyDerivation`, `Argon2Kdf` and the HKDF sub-keys. The `argon2` and `hkdf`
-- crates are the parameter `KdfCrates`; wiping of buffers is not modelled.
use Prim.Native.String.{◌++◌ as append}
use cryptovault.Common.{ℕ, String, Option, List, bytes_of}
use cryptovault.Consts.{key_len}
use cryptovault.Error.{Result, ok, err, expect, ◌>>=◌, key_derivation}

-- The answer of a crate that fails with a text.
pub data Answer (A : Type 0) : Type 0 where
  good : A → Answer A
  bad : String → Answer A

pub record KdfCrates : Type 1 where
  pub Params : Type 0
  -- `Params::new(m_cost, t_cost, p_cost, output_len)`
  pub new_params : ℕ → ℕ → ℕ → ℕ → Option Params
  -- Argon2id, version 0x13: parameters, password, salt
  pub hash_password : Params → List ℕ → List ℕ → Answer (List ℕ)
  -- HKDF-SHA256 with no salt: key material, info, output length
  pub hkdf : List ℕ → List ℕ → ℕ → Answer (List ℕ)

pub record KeyDerivation : Type 0 where
  pub derive_master : List ℕ → List ℕ → Result (List ℕ)

abbrev pub argon2_m_kib : ℕ
argon2_m_kib = 65536

abbrev pub argon2_t : ℕ
argon2_t = 3

abbrev pub argon2_p : ℕ
argon2_p = 4

abbrev pub hkdf_info_aead : List ℕ
hkdf_info_aead = bytes_of "cryptovault:v1:aead"

abbrev pub hkdf_info_interleaver : List ℕ
hkdf_info_interleaver = bytes_of "cryptovault:v1:interleaver"

-- `.map_err(|e| KeyDerivation(format!("…: {e}")))`
abbrev pub or_key_derivation : {A : Type 0} → String → Answer A → Result A
or_key_derivation text (good a) = ok a
or_key_derivation text (bad e) = err (key_derivation (append text e))

module _ (kc : KdfCrates) where
  open kc use {Params, new_params, hash_password, hkdf}

  unfoldable pub owasp_params : Result Params
  owasp_params = expect (new_params argon2_m_kib argon2_t argon2_p key_len)

  unfoldable pub derive_master : List ℕ → List ℕ → Result (List ℕ)
  unfolding owasp_params
  derive_master password salt = do
    params ← owasp_params
    or_key_derivation "Argon2id derivation failed: " (hash_password params password salt)

  abbrev pub argon2_kdf : KeyDerivation
  argon2_kdf = record { derive_master = derive_master }

  unfoldable pub hkdf_expand : List ℕ → List ℕ → Result (List ℕ)
  hkdf_expand master info =
      or_key_derivation "HKDF-SHA256 expand failed: " (hkdf master info key_len)

  unfoldable pub expand_aead_key : List ℕ → Result (List ℕ)
  unfolding hkdf_expand
  expand_aead_key master = hkdf_expand master hkdf_info_aead

  unfoldable pub expand_interleaver_seed : List ℕ → Result (List ℕ)
  unfolding hkdf_expand
  expand_interleaver_seed master = hkdf_expand master hkdf_info_interleaver
