-- ===== src/Fec/Interleaver/Block/Inverse.antt =====
-- `BlockInterleaver::deinterleave` of src/fec/interleaver.rs on streams of whole codewords, in closed
-- form.
use cryptovault.Common.{
  ℕ, zero, suc, ◌+◌, ◌-◌, ◌*◌, ◌/◌, ◌%◌, ◌^◌, ◌≤◌, ◌<◌, ◌≡◌, refl, sym, ap, ap₂, ◌∙◌, min, List, [],
  ◌++◌, arith, le→ltb, length, get_or, get_elem?, get_elem?-eq-get_or, dec_lt, subst, tabulate,
  length-tabulate, get_elem?-tabulate, some,
}
use native.Mathlib.Nat.{div-lt_iff_lt-mul, mod-lt, div-add-mod'}
use cryptovault.Consts.{rs_block}
use cryptovault.Error.{ok}
use cryptovault.Fec.Interleaver.Block.{
  BlockInterleaver, window_len, read_column, read_columns, window_perm, deinterleave,
}
use cryptovault.Fec.Interleaver.Block.Full.{cell, window_perm_full, div-at, mod-at}
use cryptovault.Fec.Interleaver.Block.Perm.{window_perm-IsShuffle}
use cryptovault.Fec.Interleaver.Block.RoundTrip.{block_perm, block_perm-Shuffles}
use cryptovault.Fec.Interleaver.Loops.{Interleaved, deinterleave_windows_lem}

-- Rows past the filled part add nothing to a column.
read_column_none :
    (filled col n row : ℕ) → filled ≤ row * 255 + col → read_column filled col n row ≡ []
unfolding read_column
read_column_none filled col zero row h = refl
read_column_none filled col (suc n) row h =
    rw (le→ltb (row * 255 + col) filled h) (read_column_none filled col n (row + 1) (omega arith))

read_column_cut :
    (filled col n m row : ℕ)
    → filled ≡ (row + m) * 255
    → m ≤ n
    → read_column filled col n row ≡ read_column filled col m row
unfolding read_column
read_column_cut filled col n zero row e h = read_column_none filled col n row (omega arith)
read_column_cut filled col zero (suc m) row e h = absurd (omega arith)
read_column_cut filled col (suc n) (suc m) row e h =
    rw (read_column_cut filled col n m (row + 1) (omega arith) (omega arith))

read_columns_cut :
    (depth m cols col : ℕ)
    → m ≤ depth
    → read_columns (m * 255) depth cols col ≡ read_columns (m * 255) m cols col
unfolding read_columns
read_columns_cut depth m zero col h = refl
read_columns_cut depth m (suc cols) col h =
    ap₂ ◌++◌ (read_column_cut (m * 255) col depth m 0 (omega arith) h)
      (read_columns_cut depth m cols (col + 1) h)

window_perm_cut :
    (b : BlockInterleaver) (m : ℕ)
    → m ≤ b.depth
    → window_perm b (m * 255) ≡ window_perm (record { depth = m }) (m * 255)
unfolding window_perm
window_perm_cut b m h = read_columns_cut b.depth m 255 0 h

-- A window of `m` whole rows is read as a full window of that depth.
window_perm_rows :
    (b : BlockInterleaver) (m k : ℕ)
    → m ≤ b.depth
    → 1 ≤ m
    → k < m * 255
    → get_or (window_perm b (m * 255)) k 0 ≡ cell m k
window_perm_rows b m k h pos hk =
    ap (λ (p : List ℕ). get_or p k 0) (window_perm_cut b m h)
    ∙ window_perm_full (record { depth = m }) k pos hk

-- The rows of the window number `w` of a stream of `n` codewords.
abbrev pub rows : ℕ → ℕ → ℕ → ℕ
rows depth n w = min depth (n - w * depth)

-- Where the byte `q` of a stream of `n` codewords is sent.
abbrev pub dest : BlockInterleaver → ℕ → ℕ → ℕ
dest b n q =
    let w = q / window_len b in
    w * window_len b + (q % rs_block * rows b.depth n w + q % window_len b / rs_block)

-- The byte at row `r` and column `c` of the window number `w`.
pub dest_lem :
    (b : BlockInterleaver) (n w r c : ℕ)
    → r < b.depth
    → c < 255
    → dest b n (w * window_len b + (r * 255 + c)) ≡ w * window_len b + (c * rows b.depth n w + r)
dest_lem b n w r c hr hc =
    let q = w * window_len b + (r * 255 + c) in
    let small : r * 255 + c < window_len b = omega arith in
    let quot : q / window_len b ≡ w = div-at (window_len b) w (r * 255 + c) small in
    let rem : q % window_len b ≡ r * 255 + c = mod-at (window_len b) w (r * 255 + c) small in
    let col : q % 255 ≡ c =
      ap (λ (x : ℕ). x % 255) (omega arith) ∙ mod-at 255 (w * b.depth + r) c hc in
    let row : q % window_len b / 255 ≡ r = ap (λ (x : ℕ). x / 255) rem ∙ div-at 255 r c hc in
    rw (quot, col, row) refl

-- The part of window `a` that is filled is a whole number of rows.
filled_rows : (d n a : ℕ) → min (n * 255 - a * (d * 255)) (d * 255) ≡ rows d n a * 255
filled_rows d n a = omega arith

-- A place in the stream, and the rows of its window.
rows_pos : (d n a : ℕ) → 1 ≤ d → a * (d * 255) < n * 255 → 1 ≤ rows d n a
rows_pos d n a hd h = omega arith

cell_bounds :
    (m k : ℕ) → 1 ≤ m → k < m * 255 → (k % m < m) × (k / m < 255) × (k / m * m + k % m ≡ k)
cell_bounds m k hm hk = (
  mod-lt k hm,
  (div-lt_iff_lt-mul {k = m} {x = k} {y = 255} hm).1 (omega arith),
  div-add-mod' k m,
)

module _ (b : BlockInterleaver) (n : ℕ) (t : List ℕ) (pos : 1 ≤ b.depth)
    (size : length t ≡ n * 255) where
  -- The stream whose bytes are those of `t` at their destinations.
  abbrev pub original : List ℕ
  original = tabulate (λ q. get_or t (dest b n q) 0) 0 (n * 255)

  original_at :
      (a k : ℕ)
      → a * window_len b < n * 255
      → k < rows b.depth n a * 255
      → get_elem? t (a * window_len b + k)
        ≡ get_elem? original (a * window_len b + cell (rows b.depth n a) k)
  original_at a k h hk =
      let m = rows b.depth n a in
      let (row, col, whole) = cell_bounds m k (rows_pos b.depth n a pos h) hk in
      let q = a * window_len b + cell m k in
      let sent : dest b n (0 + q) ≡ a * window_len b + k =
        ap (dest b n) {x = 0 + q} {y = q} (omega arith)
        ∙ dest_lem b n a (k % m) (k / m) (omega arith) col
        ∙ omega (arith, whole) in
      get_elem?-eq-get_or t (a * window_len b + k) 0 (omega arith)
      ∙ ap (λ (x : ℕ). some (get_or t x 0)) (sym sent)
      ∙ sym (get_elem?-tabulate (λ q. get_or t (dest b n q) 0) 0 (n * 255) q (omega arith))

  length-original : length original ≡ n * 255
  length-original = length-tabulate (λ q. get_or t (dest b n q) 0) 0 (n * 255)

  done :
      (fuel base w : ℕ)
      → n * 255 ≤ base
      → Interleaved (block_perm b) (window_len b) fuel base w original t
  done zero base w h = omega (arith, length-original)
  done (suc fuel) base w h = λ more. absurd (omega (arith, length-original))

  original-Interleaved :
      (fuel a w : ℕ)
      → length original ≤ a * window_len b + fuel
      → Interleaved (block_perm b) (window_len b) fuel (a * window_len b) w original t
  original-Interleaved zero a w h = omega arith
  original-Interleaved (suc fuel) a w h = λ more.
      let base = a * window_len b in
      let m = rows b.depth n a in
      let filled = min (length original - base) (window_len b) in
      let inside : base < n * 255 = omega (arith, length-original) in
      let whole : filled ≡ m * 255 = omega (arith, length-original, filled_rows b.depth n a) in
      let perm_at : (k : ℕ) → k < filled → get_or (window_perm b filled) k 0 ≡ cell m k = λ k hk.
        ap (λ (x : ℕ). get_or (window_perm b x) k 0) whole
        ∙ window_perm_rows b m k (omega arith) (rows_pos b.depth n a pos inside) (omega arith) in
      (
        (
          window_perm b filled,
          refl,
          window_perm-IsShuffle b filled (omega arith),
          λ k hk.
              original_at a k inside (omega arith)
              ∙ ap (λ (x : ℕ). get_elem? original (base + x)) (sym (perm_at k hk)),
        ),
        elim (dec_lt (n * 255) (base + window_len b)) [
          | yes last ↦ done fuel (base + filled) ((w + 1) % 2 ^ 64) (omega (arith, length-original))
          | no full ↦
              subst
                (λ x.
                  Interleaved (block_perm b) (window_len b) fuel x ((w + 1) % 2 ^ 64) original t)
                (omega (arith, length-original))
                (original-Interleaved fuel (suc a) ((w + 1) % 2 ^ 64) (omega arith))
        ],
      )

  -- `deinterleave` puts at each place of the stream the byte that was sent from it.
  pub deinterleave_lem : deinterleave b t ≡ ok original
  unfolding deinterleave
  deinterleave_lem =
      deinterleave_windows_lem (block_perm b) (window_len b) (omega arith) (block_perm-Shuffles b)
        original t (size ∙ sym length-original)
        (subst (λ x. Interleaved (block_perm b) (window_len b) (length original) x 0 original t)
          (omega arith) (original-Interleaved (length original) 0 0 (omega arith)))
