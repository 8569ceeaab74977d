-- ===== src/Fec/Interleaver/Block/Full.antt =====
-- `BlockInterleaver` of src/fec/interleaver.rs on streams of full windows.
use cryptovault.Common.{
  ℕ, zero, suc, ◌+◌, ◌-◌, ◌*◌, ◌/◌, ◌%◌, ◌^◌, ◌≤◌, ◌<◌, ◌≡◌, ◌≢◌, refl, sym, ap, ap₂, ◌∙◌, min,
  List, ◌∷◌, ◌++◌, arith, lt→ltb, length, get_or, get_elem?, get_or-append_left,
  get_or-append_right, dec_lt, subst,
}
use native.Mathlib.Nat.{
  mod-eq_of_lt, mod-eq-sub-mod, div-eq_of_lt, div-eq-sub-div, div-add-mod, div-add-mod',
  div-eq_of_lt-le,
}
use cryptovault.Consts.{rs_block}
use cryptovault.Error.{ok, ok-injective}
use cryptovault.Fec.Interleaver.Block.{
  BlockInterleaver, window_len, read_column, read_columns, window_perm, interleave,
}
use cryptovault.Fec.Interleaver.Block.RoundTrip.{block_perm, interleave_lem}
use cryptovault.Fec.Interleaver.Loops.{Interleaved}

-- The cell of a full window that is sent at place `k`, for `depth` rows.
abbrev pub cell : ℕ → ℕ → ℕ
cell depth k = k % depth * rs_block + k / depth

-- The byte of a stream of full windows that is sent at place `p`.
abbrev pub source : BlockInterleaver → ℕ → ℕ
source b p = p / window_len b * window_len b + cell b.depth (p % window_len b)

-- The codeword that a byte of the stream belongs to.
abbrev pub codeword : ℕ → ℕ
codeword x = x / rs_block

read_column_full :
    (filled col n row : ℕ)
    → (row + n) * 255 ≤ filled
    → col < 255
    → (length (read_column filled col n row) ≡ n)
      × ((i : ℕ) → i < n → get_or (read_column filled col n row) i 0 ≡ (row + i) * 255 + col)
unfolding read_column
read_column_full filled col zero row h hc = (refl, λ i hi. absurd (omega arith))
read_column_full filled col (suc n) row h hc =
    let (size, at) = read_column_full filled col n (row + 1) (omega arith) hc in
    rw (lt→ltb (row * 255 + col) filled (omega arith)) (ap suc size, place at)
  where
    place :
        ((i : ℕ)
          → i < n
          → get_or (read_column filled col n (row + 1)) i 0 ≡ (row + 1 + i) * 255 + col)
        → (i : ℕ) → i < suc n
        → get_or ((row * 255 + col) ∷ read_column filled col n (row + 1)) i 0
          ≡ (row + i) * 255 + col
    place at zero hi = omega arith
    place at (suc i) hi = omega (arith, at i (omega arith))

-- Places counted from the second column on.
cell_next :
    (depth col k : ℕ)
    → 1 ≤ depth
    → depth ≤ k
    → (k - depth) % depth * 255 + (col + 1 + (k - depth) / depth)
      ≡ k % depth * 255 + (col + k / depth)
cell_next depth col k hd hk =
    omega (arith, mod-eq-sub-mod {n = k} {m = depth} hk, div-eq-sub-div {m = depth} {n = k} hd hk)

read_columns_full :
    (depth m col k : ℕ)
    → 1 ≤ depth
    → col + m ≤ 255
    → k < m * depth
    → get_or (read_columns (depth * 255) depth m col) k 0 ≡ k % depth * 255 + (col + k / depth)
unfolding read_columns
read_columns_full depth zero col k hd hc hk = absurd (omega arith)
read_columns_full depth (suc m) col k hd hc hk =
    let first = read_column (depth * 255) col depth 0 in
    let rest = read_columns (depth * 255) depth m (col + 1) in
    let (size, at) = read_column_full (depth * 255) col depth 0 (omega arith) (omega arith) in
    elim (dec_lt k depth) [
      | yes now ↦
          get_or-append_left first rest k 0 (omega (arith, size))
          ∙ at k now
          ∙ omega (arith, mod-eq_of_lt now, div-eq_of_lt now)
      | no later ↦
          ap (λ (i : ℕ). get_or (first ++ rest) i 0) (omega (arith, size))
          ∙ get_or-append_right first rest (k - depth) 0
          ∙ read_columns_full depth m (col + 1) (k - depth) hd (omega arith) (omega arith)
          ∙ cell_next depth col k hd (omega arith)
    ]

-- In a full window the place `k` holds row `k % depth` of column `k / depth`.
pub window_perm_full :
    (b : BlockInterleaver) (k : ℕ)
    → 1 ≤ b.depth
    → k < window_len b
    → get_or (window_perm b (window_len b)) k 0 ≡ cell b.depth k
unfolding window_perm
window_perm_full b k hd hk =
    read_columns_full b.depth 255 0 k hd (omega arith) (omega arith) ∙ omega arith

-- Two places less than `d` apart have different remainders by `d`.
pub mod-ne_of_near : (d p q : ℕ) → p < q → q < p + d → p % d ≢ q % d
mod-ne_of_near d p q lo hi e = grind (arith, div-add-mod p d, div-add-mod q d)

pub div-at : (win a k : ℕ) → k < win → (a * win + k) / win ≡ a
div-at win a k h = div-eq_of_lt-le {k = a} win {m = a * win + k} (omega arith) (omega arith)

pub mod-at : (win a k : ℕ) → k < win → (a * win + k) % win ≡ k
mod-at win a k h =
    omega (arith, div-add-mod' (a * win + k) win, ap (λ (t : ℕ). t * win) (div-at win a k h))

-- A window that begins inside a stream of full windows is full.
full_window : (a m win n : ℕ) → n ≡ m * win → a * win < n → min (n - a * win) win ≡ win
full_window a m win n e h = elim (dec_lt a m) [
  | yes lt ↦ grind arith
  | no ge ↦ absurd (grind arith)
]

-- The byte sent at `p`, in the window number `a` that holds it.
sent_at :
    (b : BlockInterleaver) (s t perm : List ℕ) (a p : ℕ)
    → 1 ≤ b.depth
    → min (length s - a * window_len b) (window_len b) ≡ window_len b
    → window_perm b (window_len b) ≡ perm
    → ((k : ℕ)
        → k < min (length s - a * window_len b) (window_len b)
        → get_elem? t (a * window_len b + k) ≡ get_elem? s (a * window_len b + get_or perm k 0))
    → a * window_len b ≤ p
    → p < a * window_len b + window_len b
    → get_elem? t p ≡ get_elem? s (source b p)
sent_at b s t perm a p hd full same cells lo now =
    let win = window_len b in
    let k = p - a * win in
    let e : p ≡ a * win + k = omega arith in
    let hk : k < win = omega arith in
    let quot : p / win ≡ a = ap (λ (q : ℕ). q / win) e ∙ div-at win a k hk in
    let rem : p % win ≡ k = ap (λ (q : ℕ). q % win) e ∙ mod-at win a k hk in
    let at : get_or perm k 0 ≡ cell b.depth k =
      ap (λ (l : List ℕ). get_or l k 0) (sym same) ∙ window_perm_full b k hd hk in
    ap (λ (q : ℕ). get_elem? t q) e
    ∙ cells k (omega (arith, full))
    ∙ ap (λ (q : ℕ). get_elem? s (a * win + q)) at
    ∙ ap₂ (λ (x y : ℕ). get_elem? s (x * win + cell b.depth y)) (sym quot) (sym rem)

-- In a stream of full windows the byte sent at `p` is the one that `source` names.
whole_windows :
    (b : BlockInterleaver) (s t : List ℕ) (m : ℕ)
    → 1 ≤ b.depth
    → length s ≡ m * window_len b
    → (fuel a w p : ℕ) → Interleaved (block_perm b) (window_len b) fuel (a * window_len b) w s t
    → a * window_len b ≤ p
    → p < length s
    → get_elem? t p ≡ get_elem? s (source b p)
whole_windows b s t m hd size zero a w p il lo hi = absurd (omega arith)
whole_windows b s t m hd size (suc fuel) a w p il lo hi =
    let win = window_len b in
    let ((perm, ep, shuffle, cells), rest) = il (omega arith) in
    let full : min (length s - a * win) win ≡ win =
      full_window a m win (length s) size (omega arith) in
    let same : window_perm b win ≡ perm =
      ok-injective (ap (λ n. ok (window_perm b n)) (sym full) ∙ ep) in
    elim (dec_lt p (a * win + win)) [
      | yes now ↦ sent_at b s t perm a p hd full same cells lo now
      | no later ↦
          whole_windows b s t m hd size fuel (suc a) ((w + 1) % 2 ^ 64) p
            (subst (λ n. Interleaved (block_perm b) win fuel n ((w + 1) % 2 ^ 64) s t)
              (omega (arith, full)) rest)
            (omega arith) hi
    ]

-- On a stream of full windows `interleave` returns a stream whose byte at each place `p` is the one
-- at `source b p`.
pub interleave_full :
    (b : BlockInterleaver) (s : List ℕ) (m : ℕ)
    → 1 ≤ b.depth
    → length s ≡ m * window_len b
    → (t : List ℕ) × (interleave b s ≡ ok t)
      × ((p : ℕ) → p < length s → get_elem? t p ≡ get_elem? s (source b p))
interleave_full b s m hd size =
    let (t, run, _, il) = interleave_lem b s hd in
    (
      t,
      run,
      λ p hp. whole_windows b s t m hd size (length s) 0 0 p (start_at s t il) (omega arith) hp,
    )
  where
    start_at :
        (s t : List ℕ)
        → Interleaved (block_perm b) (window_len b) (length s) 0 0 s t
        → Interleaved (block_perm b) (window_len b) (length s) (0 * window_len b) 0 s t
    start_at s t il =
        subst (λ n. Interleaved (block_perm b) (window_len b) (length s) n 0 s t) (omega arith) il
