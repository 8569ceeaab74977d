-- ===== src/Examples/Crates.antt =====
-- Crates with the documented behaviour, each the simplest that has it. A symbol is any number, so
-- that a tag or a codeword can carry a whole list.
use cryptovault.Common.{
  ℕ, suc, ◌+◌, ◌-◌, ◌*◌, ◌/◌, ◌%◌, ◌≡◌, refl, sym, ap, ◌∙◌, Option, none, some, List, [], ◌∷◌, ◌++◌,
  ◌==◌, eq→==, if◌then◌else◌, arith, length, take, drop, replicate, length-append, length-replicate,
  take-append_left,
}
use cryptovault.Consts.{key_len, div_ceil}
use cryptovault.Cipher.{AeadCrate, Entropy}
use cryptovault.Cipher.Laws.{IsAead}
use cryptovault.Fec.Interleaver.Csprng.{StreamCipher}
use cryptovault.Fec.Interleaver.Csprng.RoundTrip.{IsLive}
use cryptovault.Fec.Viterbi.{ViterbiCrate, decoded}
use cryptovault.Fec.Viterbi.RoundTrip.{IsViterbi}
use cryptovault.Kdf.{KdfCrates, good}
use cryptovault.Slice.{from_le_bytes}
use cryptovault.Vault.{Base64}
use cryptovault.Vault.Laws.{Supplies, Expands, IsBase64}
use cryptovault.Examples.Code.{code}

abbrev pub entropy : Entropy
entropy n = good (replicate n 7)

pub entropy-Supplies : (n : ℕ) → Supplies entropy n
entropy-Supplies n = (replicate n 7, refl, length-replicate n 7)

abbrev pub kdf_crates : KdfCrates
kdf_crates = record {
  Params = Unit;
  new_params = λ m t p n. some tt;
  hash_password = λ params password salt. good (replicate 32 1);
  hkdf = λ master info n. good (replicate n 2);
}

pub kdf_crates-Expands : Expands kdf_crates
kdf_crates-Expands master info = (replicate key_len 2, refl, refl)

-- The length, the symbols, and zeros up to four for three.
abbrev spell : List ℕ → List ℕ
spell [] = []
spell (x ∷ xs) = let n = suc (length xs) in n ∷ (x ∷ xs) ++ replicate (4 * div_ceil n 3 - 1 - n) 0

abbrev unspell : List ℕ → Option (List ℕ)
unspell [] = some []
unspell (n ∷ text) = some (take n text)

abbrev pub base64 : Base64
base64 = record { b64_encode = spell; b64_decode = unspell }

spell-back : (xs : List ℕ) → unspell (spell xs) ≡ some xs
spell-back [] = refl
spell-back (x ∷ xs) = ap some (take-append_left (x ∷ xs) _)

length-spell : (xs : List ℕ) → length (spell xs) ≡ 4 * div_ceil (length xs) 3
length-spell [] = refl
length-spell (x ∷ xs) =
    let k = 4 * div_ceil (suc (length xs)) 3 - 1 - suc (length xs) in
    omega (arith, length-append xs (replicate k 0), length-replicate {A = ℕ} k 0)

pub base64-IsBase64 : IsBase64 base64
base64-IsBase64 = record { back = spell-back; size = length-spell }

-- The associated data stands in the tag.
abbrev tag : List ℕ → List ℕ
tag aad = code aad ∷ replicate 15 0

abbrev open_tagged : List ℕ → List ℕ → Option (List ℕ)
open_tagged aad [] = none
open_tagged aad (t ∷ ct) = if t == code aad then some (drop 15 ct) else none

abbrev pub aead_crate : AeadCrate
aead_crate = record {
  seal = λ key nonce aad pt. some (tag aad ++ pt);
  unseal = λ key nonce aad ct. open_tagged aad ct;
}

pub aead_crate-IsAead : IsAead aead_crate
aead_crate-IsAead key nonce aad pt hk hn hp =
    (tag aad ++ pt, refl, omega arith, rw (eq→== (code aad) (code aad) refl))

-- A coded block is the chunk twice, and two zeros; a decoder knows its size in bits.
abbrev pub viterbi_crate : ViterbiCrate
viterbi_crate = record {
  Encoder = Unit;
  Decoder = ℕ;
  new_encoder = some tt;
  encode_block = λ e c. some (c ++ (c ++ (0 ∷ 0 ∷ [])));
  new_decoder = λ n. some n;
  decode_block = λ d body nbits. (decoded (take ((nbits - 12) / 16) body), d);
}

decode_twice : (c tail : List ℕ) → take ((16 * length c + 12 - 12) / 16) (c ++ tail) ≡ c
decode_twice c tail = ap (λ (n : ℕ). take n (c ++ tail)) (omega arith) ∙ take-append_left c tail

pub viterbi_crate-IsViterbi : IsViterbi viterbi_crate
viterbi_crate-IsViterbi = record {
  encoder = tt;
  encoder_built = refl;
  encoded = λ c lo hi. (
    c ++ (c ++ (0 ∷ 0 ∷ [])),
    refl,
    omega (arith, length-append c (c ++ (0 ∷ 0 ∷ [])), length-append c (0 ∷ 0 ∷ [])),
  );
  bits = λ d. d;
  decoder_built = λ n h. (n, refl, refl);
  decoded_back = λ c body d e h. (d, ap (λ b. (decoded b, d)) (twice c body e), refl);
}
  where
    twice :
        (c body : List ℕ)
        → some (c ++ (c ++ (0 ∷ 0 ∷ []))) ≡ some body
        → take ((16 * length c + 12 - 12) / 16) body ≡ c
    twice c body e =
        let same : c ++ (c ++ (0 ∷ 0 ∷ [])) ≡ body = cc in
        ap (λ (b : List ℕ). take ((16 * length c + 12 - 12) / 16) b) (sym same)
        ∙ decode_twice c (c ++ (0 ∷ 0 ∷ []))

-- A keystream that counts up in its first byte.
abbrev pub stream_cipher : StreamCipher
stream_cipher = record {
  Cipher = ℕ;
  start = λ key nonce. 1;
  apply_keystream = λ c buf. ((c % 256) ∷ 0 ∷ 0 ∷ 0 ∷ [], c + 1);
}

pub stream_cipher-IsLive : IsLive stream_cipher 2
unfolding from_le_bytes
stream_cipher-IsLive c = (0, omega arith, omega arith)
