-- ===== src/Fec/Interleaver/Csprng.antt =====
-- `CsprngLayer` of src/fec/interleaver.rs: a keyed shuffle of each window, drawn from ChaCha20.
-- The cipher of the `chacha20` crate is the parameter `StreamCipher`; `fuel` bounds the rounds of
-- one rejection-sampling loop, which the source does not bound.
pub mod Shuffle
pub mod RoundTrip
pub mod Liveness
use Prim.Native.String.{◌++◌ as append}
use cryptovault.Common.{
  ℕ, zero, suc, ◌+◌, ◌-◌, ◌*◌, ◌/◌, ◌%◌, ◌^◌, List, [], ◌∷◌, ◌++◌, ◌==◌, not, ltb, leb,
  if◌then◌else◌, length, replicate,
}
use cryptovault.Consts.{key_len, nonce_len}
use cryptovault.Error.{Result, ok, panic, hang, ◌>>=◌, ◌>>◌, reject_if, invalid_input}
use cryptovault.Slice.{read, write, to_le_bytes, from_le_bytes}
use cryptovault.Fec.Interleaver.{interleave_windows, deinterleave_windows}

-- `ChaCha20::new(key, nonce)`, and `apply_keystream` on a buffer with the cipher that it leaves.
pub record StreamCipher : Type 1 where
  pub Cipher : Type 0
  pub start : List ℕ → List ℕ → Cipher
  pub apply_keystream : Cipher → List ℕ → List ℕ × Cipher

pub record CsprngLayer : Type 0 where
  pub seed : List ℕ

-- `CsprngLayer::new`
unfoldable pub new : List ℕ → Result CsprngLayer
new seed = do
  reject_if (not (length seed == key_len))
      (invalid_input "interleaver seed must be exactly 32 bytes")
  ok (record { seed = seed })

-- `perm.swap(i, j)`
unfoldable pub swap : List ℕ → ℕ → ℕ → Result (List ℕ)
unfolding read write
swap perm i j = do a ← read perm i; b ← read perm j; perm' ← write perm i b; write perm' j a

-- `(start..start + n).collect()`
unfoldable pub range : ℕ → ℕ → List ℕ
range start zero = []
range start (suc n) = start ∷ range (start + 1) n

module _ (sc : StreamCipher) where
  open sc use {Cipher, apply_keystream}

  -- `CsprngLayer::next_index`; a division by a `range` of 0 is a panic.
  unfoldable pub next_index : ℕ → Cipher → ℕ → Result (ℕ × Cipher)
  next_index zero c range_len = hang
  next_index (suc rounds) c range_len =
      let (buf, c') = apply_keystream c (replicate 4 0) in
      let limit = 2 ^ 32 / range_len * range_len in
      let x = from_le_bytes buf in
      let again = next_index rounds c' range_len in
      if range_len == 0 then panic else if ltb x limit then ok (x % range_len, c') else again

module _ (sc : StreamCipher) (fuel : ℕ) where
  open sc use {Cipher, start}

  -- `for i in (1..=i).rev() { … }`
  unfoldable pub fisher_yates : ℕ → Cipher → List ℕ → Result (List ℕ)
  fisher_yates zero c perm = ok perm
  fisher_yates (suc i) c perm = do
    (j, c') ← next_index sc fuel c ((suc i + 1) % 2 ^ 32)
    perm' ← swap perm (suc i) j
    fisher_yates i c' perm'

  -- `CsprngLayer::window_perm`
  unfoldable pub window_perm : CsprngLayer → ℕ → ℕ → Result (List ℕ)
  unfolding fisher_yates
  window_perm layer filled window_index =
      let perm = range 0 filled in
      let nonce = to_le_bytes 8 window_index ++ replicate (nonce_len - 8) 0 in
      if leb filled 1 then ok perm else fisher_yates (filled - 1) (start layer.seed nonce) perm

  -- `CsprngLayer::interleave`
  unfoldable pub interleave : CsprngLayer → List ℕ → ℕ → Result (List ℕ)
  unfolding interleave_windows
  interleave layer stream window_len = interleave_windows (window_perm layer) window_len stream

  unfoldable pub deinterleave : CsprngLayer → List ℕ → ℕ → Result (List ℕ)
  unfolding deinterleave_windows
  deinterleave layer stream window_len = deinterleave_windows (window_perm layer) window_len stream
