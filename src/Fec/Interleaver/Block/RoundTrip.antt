-- ===== src/Fec/Interleaver/Block/RoundTrip.antt =====
-- src/fec/interleaver.rs: the block interleaver on whole streams.
use cryptovault.Common.{ℕ, ◌≤◌, ◌≡◌, refl, List, arith, length}
use cryptovault.Error.{Result, ok}
use cryptovault.Fec.Interleaver.Block.{
  BlockInterleaver, window_len, window_perm, interleave, deinterleave,
}
use cryptovault.Fec.Interleaver.Block.Perm.{window_perm-IsShuffle}
use cryptovault.Fec.Interleaver.Loops.{
  Shuffles, Interleaved, interleave_windows_lem, deinterleave_windows_lem,
}

abbrev pub block_perm : BlockInterleaver → ℕ → ℕ → Result (List ℕ)
block_perm b = λ filled w. ok (window_perm b filled)

pub block_perm-Shuffles : (b : BlockInterleaver) → Shuffles (block_perm b) (window_len b)
block_perm-Shuffles b filled w h = (window_perm b filled, refl, window_perm-IsShuffle b filled h)

-- `interleave` returns, on every stream, a stream of the same length with its windows permuted.
pub interleave_lem :
    (b : BlockInterleaver) (s : List ℕ)
    → 1 ≤ b.depth
    → (t : List ℕ) × (interleave b s ≡ ok t)
      × (length t ≡ length s)
      × Interleaved (block_perm b) (window_len b) (length s) 0 0 s t
unfolding interleave
interleave_lem b s h =
    interleave_windows_lem (block_perm b) (window_len b) (omega arith) (block_perm-Shuffles b) s

-- For every depth of at least 1 and every stream, whole windows or not, `interleave` returns a
-- stream of the same length, and `deinterleave` returns the original from it.
pub deinterleave-interleave :
    (b : BlockInterleaver) (s : List ℕ)
    → 1 ≤ b.depth
    → (t : List ℕ) × (interleave b s ≡ ok t) × (length t ≡ length s) × (deinterleave b t ≡ ok s)
unfolding deinterleave
deinterleave-interleave b s h =
    let (t, run, size, il) = interleave_lem b s h in
    (
      t,
      run,
      size,
      deinterleave_windows_lem (block_perm b) (window_len b) (omega arith) (block_perm-Shuffles b) s
          t size il,
    )
