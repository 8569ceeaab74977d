-- ===== src/Examples/Sessions.antt =====
-- The vault's theorems on sessions and messages at work.
use cryptovault.Common.{ℕ, ◌≡◌, ◌⊎◌, refl, List, [], ◌∷◌, arith, replicate}
use cryptovault.Error.{err, invalid_input}
use cryptovault.Blob.{decode_blob}
use cryptovault.Cipher.Laws.{aes256_gcm_siv_cipher-Opens}
use cryptovault.Fec.Concat
use cryptovault.Fec.Concat.{ConcatenatedFec}
use cryptovault.Fec.Interleaver.Layers.{block}
use cryptovault.Fec.PreFec
use cryptovault.Vault.{decrypt_bytes_aad, unwrap_key}
use cryptovault.Vault.Authentic.{IsOwn, IsForgery, decrypt_bytes_aad-IsOwn_or_forged}
use cryptovault.Vault.Default.{vault_of}
use cryptovault.Vault.Messages.{not_authentic, IsDoorError, decrypt_bytes_aad_no_oracle}
use cryptovault.Vault.Session.{Sealing, Session, started, next, wrap_key-Step}
use cryptovault.Examples.Crates.{
  entropy, kdf_crates, kdf_crates-Expands, base64, aead_crate, aead_crate-IsAead,
  stream_cipher-IsLive,
}
use cryptovault.Examples.Vaults.{
  crates, vault, master, salt, text, envelope, envelope_made, envelope_opens,
}

-- The session of the one call that made the envelope.
abbrev log : List Sealing
log =
    (wrap_key-Step kdf_crates base64 vault [] entropy master salt text envelope envelope_made).0
    ∷ []

session : Session kdf_crates base64 vault log
session =
    next started
      (wrap_key-Step kdf_crates base64 vault [] entropy master salt text envelope envelope_made).3

decrypt_bytes_aad-IsOwn_or_forged_example :
    IsOwn kdf_crates base64 vault log master text 2 salt
    ⊎ IsForgery kdf_crates base64 vault log master envelope
unfolding unwrap_key
decrypt_bytes_aad-IsOwn_or_forged_example =
    decrypt_bytes_aad-IsOwn_or_forged kdf_crates base64 vault
      (aes256_gcm_siv_cipher-Opens aead_crate aead_crate-IsAead) kdf_crates-Expands session master
      envelope salt text 2 envelope_opens

-- The default stack.
abbrev pub stack : ConcatenatedFec
stack = record { il = block (record { depth = 5 }) }

abbrev garbage : List ℕ
garbage = 3 ∷ 1 ∷ 2 ∷ 3 ∷ []

garbage_refused :
    decrypt_bytes_aad kdf_crates base64 (vault_of crates stack) master garbage 2 salt
    ≡ err (invalid_input "malformed blob")
unfolding decrypt_bytes_aad decode_blob Concat.validate_pre_fec PreFec.validate_pre_fec
garbage_refused = refl

decrypt_bytes_aad_no_oracle_example :
    IsDoorError (invalid_input "malformed blob")
    × ((invalid_input "malformed blob" ≡ not_authentic)
        ⊎ (decrypt_bytes_aad kdf_crates base64 (vault_of crates stack) (replicate 32 8) garbage 1 []
            ≡ err (invalid_input "malformed blob")))
decrypt_bytes_aad_no_oracle_example =
    decrypt_bytes_aad_no_oracle crates stream_cipher-IsLive kdf_crates-Expands stack
      (omega arith, omega arith) master (replicate 32 8) garbage salt [] 2 1
      (invalid_input "malformed blob") refl refl garbage_refused
