-- ===== src/Fec/Interleaver/Layers.antt =====
-- The enum `Interleaver` of src/fec/interleaver.rs: the block layer alone, or the keyed layer on it.
use cryptovault.Common.{ℕ, ◌≤◌, ◌≡◌, List, arith, length, ◌∙◌}
use cryptovault.Error.{Result, ok, ◌>>=◌}
use cryptovault.Fec.Interleaver.Block
use cryptovault.Fec.Interleaver.Block.{BlockInterleaver, window_len}
use cryptovault.Fec.Interleaver.Block.RoundTrip.{
  deinterleave-interleave, block_perm, block_perm-Shuffles,
}
use cryptovault.Fec.Interleaver.Csprng
use cryptovault.Fec.Interleaver.Csprng.{StreamCipher, CsprngLayer}
use cryptovault.Fec.Interleaver.Csprng.RoundTrip.{
  IsLive, deinterleave-interleave_keyed, window_perm-Shuffles,
}
use cryptovault.Fec.Interleaver.Near.{deinterleave_windows_near}
use cryptovault.Fec.ReedSolomon.Laws.{distance}
use cryptovault.Fec.Interleaver.Total.{deinterleave_windows_total}

pub data Interleaver : Type 0 where
  block : BlockInterleaver → Interleaver
  block_then_csprng : BlockInterleaver → CsprngLayer → Interleaver

abbrev pub depth_of : Interleaver → ℕ
depth_of (block b) = b.depth
depth_of (block_then_csprng b layer) = b.depth

module _ (sc : StreamCipher) (fuel : ℕ) where
  -- `Interleaver::interleave`
  unfoldable pub interleave : Interleaver → List ℕ → Result (List ℕ)
  interleave (block b) stream = Block.interleave b stream
  interleave (block_then_csprng b layer) stream = do
    blocked ← Block.interleave b stream
    Csprng.interleave sc fuel layer blocked (window_len b)

  -- `Interleaver::deinterleave`: the keyed layer is undone first.
  unfoldable pub deinterleave : Interleaver → List ℕ → Result (List ℕ)
  deinterleave (block b) stream = Block.deinterleave b stream
  deinterleave (block_then_csprng b layer) stream = do
    unshuffled ← Csprng.deinterleave sc fuel layer stream (window_len b)
    Block.deinterleave b unshuffled

  -- With either interleaver, a depth of 1 to 16 and a live keystream, `interleave` returns a
  -- stream of the same length on every input, and `deinterleave` returns the original from it.
  pub deinterleave-interleave_any :
      IsLive sc fuel
      → (il : Interleaver) (s : List ℕ) → 1 ≤ depth_of il
      → depth_of il ≤ 16
      → (t : List ℕ) × (interleave il s ≡ ok t) × (length t ≡ length s) × (deinterleave il t ≡ ok s)
  unfolding interleave deinterleave
  deinterleave-interleave_any live (block b) s lo hi = deinterleave-interleave b s lo
  deinterleave-interleave_any live (block_then_csprng b layer) s lo hi =
      let (t, run, size, back) = deinterleave-interleave b s lo in
      let (u, run', size', back') =
        deinterleave-interleave_keyed sc fuel live layer t (window_len b) (omega arith)
          (omega arith) in
      (u, rw run run', size' ∙ size, rw back' back)

  pub deinterleave_total :
      IsLive sc fuel
      → (il : Interleaver) (t : List ℕ) → 1 ≤ depth_of il
      → depth_of il ≤ 16
      → (s : List ℕ) × (deinterleave il t ≡ ok s) × (length s ≡ length t)
  unfolding deinterleave Block.deinterleave Csprng.deinterleave
  deinterleave_total live (block b) t lo hi =
      deinterleave_windows_total (block_perm b) (window_len b) (omega arith) (block_perm-Shuffles b)
        t
  deinterleave_total live (block_then_csprng b layer) t lo hi =
      let perms = window_perm-Shuffles sc fuel live layer (window_len b) (omega arith) in
      let (u, run, size) =
        deinterleave_windows_total (Csprng.window_perm sc fuel layer) (window_len b) (omega arith)
          perms t in
      let (s, run', size') =
        deinterleave_windows_total (block_perm b) (window_len b) (omega arith)
          (block_perm-Shuffles b) u in
      (s, rw run run', size' ∙ size)

  -- De-interleaving spreads no error: with either interleaver, a depth of 1 to 16 and a live
  -- keystream, `deinterleave` returns on any two streams of one length, with streams of that length,
  -- and these differ in no more places than the streams that were read.
  pub deinterleave_near :
      IsLive sc fuel
      → (il : Interleaver) (s t : List ℕ) → 1 ≤ depth_of il
      → depth_of il ≤ 16
      → length s ≡ length t
      → (u : List ℕ) × (v : List ℕ) × (deinterleave il s ≡ ok u)
        × (deinterleave il t ≡ ok v)
        × (length u ≡ length s)
        × (length v ≡ length t)
        × (distance u v ≤ distance s t)
  unfolding deinterleave Block.deinterleave Csprng.deinterleave
  deinterleave_near live (block b) s t lo hi same =
      deinterleave_windows_near (block_perm b) (window_len b) (omega arith) (block_perm-Shuffles b)
        s t same
  deinterleave_near live (block_then_csprng b layer) s t lo hi same =
      let perms = window_perm-Shuffles sc fuel live layer (window_len b) (omega arith) in
      let (u, v, run_u, run_v, len_u, len_v, near) =
        deinterleave_windows_near (Csprng.window_perm sc fuel layer) (window_len b) (omega arith)
          perms s t same in
      let (x, y, run_x, run_y, len_x, len_y, near') =
        deinterleave_windows_near (block_perm b) (window_len b) (omega arith)
          (block_perm-Shuffles b) u v (omega (arith, same, len_u, len_v)) in
      (
        x,
        y,
        rw run_u run_x,
        rw run_v run_y,
        len_x ∙ len_u,
        len_y ∙ len_v,
        omega (arith, near, near'),
      )
