-- ===== src/Fec/Interleaver.antt =====
-- src/fec/interleaver.rs: the windowed loops that the two interleaving layers share. A stream is a
-- list of bytes, an index a `usize` that no slice length exceeds.
pub mod Windows
pub mod Loops
pub mod Total
pub mod Near
pub mod Block
pub mod Csprng
pub mod Layers
use cryptovault.Common.{
  ℕ, zero, suc, ◌+◌, ◌-◌, ◌*◌, ◌%◌, ◌^◌, ◌<◌, min, List, [], ◌∷◌, ◌++◌, Bool, true, false, ◌&&◌,
  ltb, leb, if◌then◌else◌, length, replicate,
}
use cryptovault.Consts.{rs_block, rs_interleave_max}
use cryptovault.Error.{Result, ok, err, panic, hang, ◌>>=◌, CryptoError, invalid_input}
use cryptovault.Slice.{read, write}

-- `for (k, &src) in perm.iter().enumerate() { out[base + k] = stream[base + src] }`
unfoldable pub gather : List ℕ → ℕ → List ℕ → ℕ → List ℕ → Result (List ℕ)
gather stream base [] k out = ok out
gather stream base (src ∷ perm) k out = do
  v ← read stream (base + src)
  out' ← write out (base + k) v
  gather stream base perm (k + 1) out'

-- `for (k, &dst) in perm.iter().enumerate() { out[base + dst] = stream[base + k] }`
unfoldable pub scatter : List ℕ → ℕ → List ℕ → ℕ → List ℕ → Result (List ℕ)
scatter stream base [] k out = ok out
scatter stream base (dst ∷ perm) k out = do
  v ← read stream (base + k)
  out' ← write out (base + dst) v
  scatter stream base perm (k + 1) out'

-- `while base < stream.len() { … }` over the windows of `win` bytes. `window_perm filled w` is the
-- permutation of a window, `move_window` one of the two loops above, and `w` the window's number.
module _ (window_perm : ℕ → ℕ → Result (List ℕ)) (win : ℕ)
    (move_window : List ℕ → ℕ → List ℕ → ℕ → List ℕ → Result (List ℕ)) (stream : List ℕ) where
  unfoldable pub each_window : ℕ → ℕ → ℕ → List ℕ → Result (List ℕ)
  each_window zero base w out = if ltb base (length stream) then hang else ok out
  each_window (suc fuel) base w out = elim (ltb base (length stream)) [
    | false ↦ ok out
    | true ↦ do
      let filled = min (length stream - base) win
      perm ← window_perm filled w
      out' ← move_window stream base perm 0 out
      each_window fuel (base + filled) ((w + 1) % 2 ^ 64) out'
  ]

-- A round moves a byte at least, so as many rounds as bytes are enough.
unfoldable pub interleave_windows : (ℕ → ℕ → Result (List ℕ)) → ℕ → List ℕ → Result (List ℕ)
unfolding each_window gather
interleave_windows window_perm win stream =
    each_window window_perm win gather stream (length stream) 0 0 (replicate (length stream) 0)

unfoldable pub deinterleave_windows : (ℕ → ℕ → Result (List ℕ)) → ℕ → List ℕ → Result (List ℕ)
unfolding each_window scatter
deinterleave_windows window_perm win stream =
    each_window window_perm win scatter stream (length stream) 0 0 (replicate (length stream) 0)
