-- ===== src/Fec.antt =====
-- src/fec/mod.rs: the trait `ErrorCorrection`, and what the layers above may rely on.
pub mod Interleaver
pub mod Viterbi
pub mod ReedSolomon
pub mod ViterbiOnly
pub mod NoFec
pub mod PreFec
pub mod Messages
pub mod Concat
use cryptovault.Common.{ℕ, ◌+◌, ◌≤◌, ◌≡◌, List, ◌++◌, length}
use cryptovault.Consts.{max_plaintext_len, header_len, nonce_len, tag_len, max_blob_len}
use cryptovault.Error.{Result, ok, Returns}

-- A strategy object: an implementor holds configuration only.
pub record ErrorCorrection : Type 0 where
  pub encode : List ℕ → Result (List ℕ)
  pub decode : List ℕ → ℕ → Result (List ℕ)
  pub validate_pre_fec : List ℕ → Result ℕ

-- The longest payload that the blob layer hands to a strategy.
abbrev pub protected_max : ℕ
protected_max = max_plaintext_len + header_len + nonce_len + tag_len

-- A payload that the strategy carries over a clean channel: it is encoded within the blob cap, the
-- gate accepts the blob, and decoding at the length that the gate derives returns the payload,
-- perhaps padded.
abbrev pub Carries : ErrorCorrection → List ℕ → Type 0
Carries fec xs =
    (blob : List ℕ) × (n : ℕ) × (pad : List ℕ) × (fec.encode xs ≡ ok blob)
    × (length blob ≤ max_blob_len)
    × (fec.validate_pre_fec blob ≡ ok n)
    × (fec.decode blob n ≡ ok (xs ++ pad))

-- The contract: every payload of the blob layer is carried.
abbrev pub Recovers : ErrorCorrection → Type 0
Recovers fec = (xs : List ℕ) → 1 ≤ length xs → length xs ≤ protected_max → Carries fec xs

-- The contract on arbitrary received bytes: a value or a typed error, never a panic.
pub record IsTotal (fec : ErrorCorrection) : Type 0 where
  pub gate : (received : List ℕ) → Returns (fec.validate_pre_fec received)
  pub correct : (received : List ℕ) (n : ℕ) → Returns (fec.decode received n)

-- What a noisy channel delivered in place of the encoded payload: the gate accepts it, and decoding at
-- the length that the gate derives returns the payload, perhaps padded.
abbrev pub Delivers : ErrorCorrection → List ℕ → List ℕ → Type 0
Delivers fec xs received =
    (n : ℕ) × (pad : List ℕ) × (fec.validate_pre_fec received ≡ ok n)
    × (fec.decode received n ≡ ok (xs ++ pad))
