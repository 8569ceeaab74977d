-- ===== src/Examples/Noises.antt =====
-- Reception through noise at work: a payload of one codeword, and one wrong symbol.
use cryptovault.Common.{
  ℕ, ◌+◌, ◌≤◌, ◌≡◌, ◌<◌, ◌≢◌, refl, sym, List, [], ◌∷◌, ◌++◌, arith, replicate, get_or-set_ne, ◌⊎◌,
  inl, inr,
}
use cryptovault.Error.{ok}
use cryptovault.Fec.Concat
use cryptovault.Fec.Concat.{ConcatenatedFec, concatenated_fec}
use cryptovault.Fec.Interleaver.Block
use cryptovault.Fec.Interleaver.Block.{BlockInterleaver}
use cryptovault.Fec.Interleaver.Block.Noise.{IsBurst}
use cryptovault.Fec.Interleaver.Layers
use cryptovault.Fec.Interleaver.Layers.{block}
use cryptovault.Fec.ReedSolomon
use cryptovault.Fec.ReedSolomon.Laws.{padded, distance, distance_self}
use cryptovault.Fec.Viterbi
use cryptovault.Slice
use cryptovault.Examples.Code.{code}
use cryptovault.Blob.{protected_payload, encode_blob}
use cryptovault.Cipher
use cryptovault.Cipher.{sample_nonce}
use cryptovault.Kdf
use cryptovault.Vault.{build_aad, build_header, encrypt_bytes_aad, decrypt_bytes_aad}
use cryptovault.Vault.Default.{vault_of}
use cryptovault.Vault.Noise.{decrypt_bytes_aad-corrects_burst, decrypt_bytes_aad-corrects_scattered}
use cryptovault.Examples.Vaults.{crates, crates-IsDocumented}
use cryptovault.Examples.Crates.{
  kdf_crates, base64, entropy, entropy-Supplies, viterbi_crate, stream_cipher, stream_cipher-IsLive,
}
use cryptovault.Examples.Repetition.{rs_crate}

abbrev two_rows : BlockInterleaver
two_rows = record { depth = 2 }

abbrev coded : ℕ → List ℕ
coded c = replicate 255 c ++ (replicate 255 c ++ 0 ∷ 0 ∷ [])

inner_sent : (c : ℕ) → Viterbi.decode viterbi_crate (coded c) ≡ ok (replicate 255 c)
unfolding Viterbi.decode Slice.checked_sub Viterbi.coded_nbits
inner_sent c = refl

-- The first symbol arrives as a 0.
abbrev noisy : ℕ → List ℕ
noisy c = 0 ∷ replicate 254 c

abbrev received : ℕ → List ℕ
received c = noisy c ++ (replicate 255 c ++ 0 ∷ 0 ∷ [])

inner_received : (c : ℕ) → Viterbi.decode viterbi_crate (received c) ≡ ok (noisy c)
unfolding Viterbi.decode Slice.checked_sub Viterbi.coded_nbits
inner_received c = refl

mixed_word : (c : ℕ) → Block.interleave two_rows (replicate 255 c) ≡ ok (replicate 255 c)
unfolding Block.interleave Block.window_perm Slice.read Slice.write
mixed_word c = refl

coded_word : (c : ℕ) → Viterbi.encode viterbi_crate (replicate 255 c) ≡ ok (coded c)
unfolding Viterbi.encode
coded_word c = refl

first_wrong : (c : ℕ) → IsBurst 0 1 (replicate 255 c) (noisy c)
first_wrong c = record {
  same_length = refl;
  agrees = λ p out. sym (get_or-set_ne (replicate 255 c) 0 p 0 0 (ne p out));
}
  where
    ne : (p : ℕ) → (p < 0) ⊎ (0 + 1 ≤ p) → 0 ≢ p
    ne p (inl h) = absurd (omega arith)
    ne p (inr h) = omega arith

abbrev payload : List ℕ
payload = 1 ∷ 2 ∷ 3 ∷ []

abbrev stack : ConcatenatedFec
stack = record { il = block two_rows }

abbrev symbol : ℕ
symbol = code (padded payload)

payload_sent :
    Concat.encode rs_crate viterbi_crate stream_cipher 2 stack payload ≡ ok (coded symbol)
unfolding Concat.encode ReedSolomon.encode Layers.interleave
payload_sent = rw (mixed_word symbol) (coded_word symbol)

-- The text "hi" under the purpose 1 and no context.
abbrev text : List ℕ
text = 0x68 ∷ 0x69 ∷ []

abbrev aad : List ℕ
aad = build_aad 1 (build_header 2) []

abbrev ct : List ℕ
ct = (code aad ∷ replicate 15 0) ++ text

abbrev sent_symbol : ℕ
sent_symbol = code (padded (protected_payload 1 2 (replicate 12 7 ++ ct)))

abbrev master : List ℕ
master = replicate 32 9

blob_sent :
    encode_blob
      (concatenated_fec rs_crate viterbi_crate stream_cipher 2 stack)
      1
      2
      (replicate 12 7 ++ ct)
    ≡ ok (coded sent_symbol)
unfolding encode_blob Concat.encode ReedSolomon.encode Layers.interleave Slice.to_le_bytes
blob_sent = rw (mixed_word sent_symbol) (coded_word sent_symbol)

text_sent :
    encrypt_bytes_aad kdf_crates base64 (vault_of crates stack) entropy master text 1 []
    ≡ ok (base64.b64_encode (coded sent_symbol))
unfolding encrypt_bytes_aad Kdf.expand_aead_key sample_nonce Cipher.encrypt
text_sent = rw blob_sent refl

decrypt_bytes_aad-corrects_burst_example :
    decrypt_bytes_aad kdf_crates base64
      (vault_of crates stack)
      master
      (base64.b64_encode (received sent_symbol))
      1
      []
    ≡ ok text
decrypt_bytes_aad-corrects_burst_example =
    decrypt_bytes_aad-corrects_burst crates stream_cipher-IsLive crates-IsDocumented two_rows
      entropy master text [] (base64.b64_encode (coded sent_symbol)) (coded sent_symbol)
      (received sent_symbol) (replicate 255 sent_symbol) (noisy sent_symbol) 1 0 1 (omega arith)
      (omega arith) (entropy-Supplies 12) refl (omega arith) text_sent refl (inner_sent sent_symbol)
      refl (inner_received sent_symbol) (first_wrong sent_symbol) (omega arith)

one_wrong : (c : ℕ) → distance (replicate 255 c) (noisy c) ≤ 16
one_wrong c = grind (arith, distance_self (replicate 254 c))

decrypt_bytes_aad-corrects_scattered_example :
    decrypt_bytes_aad kdf_crates base64
      (vault_of crates stack)
      master
      (base64.b64_encode (received sent_symbol))
      1
      []
    ≡ ok text
decrypt_bytes_aad-corrects_scattered_example =
    decrypt_bytes_aad-corrects_scattered crates stream_cipher-IsLive crates-IsDocumented stack
      entropy master text [] (base64.b64_encode (coded sent_symbol)) (coded sent_symbol)
      (received sent_symbol) (replicate 255 sent_symbol) (noisy sent_symbol) 1
      (omega arith, omega arith) (entropy-Supplies 12) refl (omega arith) text_sent refl
      (inner_sent sent_symbol) refl (inner_received sent_symbol) refl (one_wrong sent_symbol)
