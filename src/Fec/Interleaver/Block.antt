-- ===== src/Fec/Interleaver/Block.antt =====
-- `BlockInterleaver` of src/fec/interleaver.rs: rows are codewords, the window is read by columns.
pub mod Perm
pub mod RoundTrip
pub mod Full
pub mod Burst
pub mod Inverse
pub mod Noise
use Prim.Native.String.{◌++◌ as append}
use cryptovault.Common.{
  ℕ, zero, suc, ◌+◌, ◌*◌, List, [], ◌∷◌, ◌++◌, ◌&&◌, not, ltb, leb, if◌then◌else◌,
}
use cryptovault.Consts.{rs_block, rs_interleave_max}
use cryptovault.Error.{Result, ok, ◌>>=◌, ◌>>◌, reject_if, invalid_input, decimal}
use cryptovault.Fec.Interleaver.{interleave_windows, deinterleave_windows}

pub record BlockInterleaver : Type 0 where
  pub depth : ℕ

-- `BlockInterleaver::new`
unfoldable pub new : ℕ → Result BlockInterleaver
unfolding decimal
new depth = do
  reject_if (not (leb 1 depth && leb depth rs_interleave_max))
      (invalid_input (append (append "interleave depth " (decimal depth)) " out of range 1..=16"))
  ok (record { depth = depth })

abbrev pub window_len : BlockInterleaver → ℕ
window_len b = b.depth * rs_block

-- `for row in …`: the cells of column `col` in `n` rows from `row` on that lie below `filled`.
unfoldable pub read_column : ℕ → ℕ → ℕ → ℕ → List ℕ
read_column filled col zero row = []
read_column filled col (suc n) row =
    let idx = row * rs_block + col in
    let rest = read_column filled col n (row + 1) in if ltb idx filled then idx ∷ rest else rest

-- `for col in …`: `m` columns from `col` on.
unfoldable pub read_columns : ℕ → ℕ → ℕ → ℕ → List ℕ
unfolding read_column
read_columns filled depth zero col = []
read_columns filled depth (suc m) col =
    read_column filled col depth 0 ++ read_columns filled depth m (col + 1)

-- `BlockInterleaver::window_perm`
unfoldable pub window_perm : BlockInterleaver → ℕ → List ℕ
unfolding read_columns
window_perm b filled = read_columns filled b.depth rs_block 0

-- `BlockInterleaver::interleave`; the number of a window plays no part.
unfoldable pub interleave : BlockInterleaver → List ℕ → Result (List ℕ)
unfolding interleave_windows
interleave b stream =
    interleave_windows (λ filled w. ok (window_perm b filled)) (window_len b) stream

unfoldable pub deinterleave : BlockInterleaver → List ℕ → Result (List ℕ)
unfolding deinterleave_windows
deinterleave b stream =
    deinterleave_windows (λ filled w. ok (window_perm b filled)) (window_len b) stream
