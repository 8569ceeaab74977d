-- ===== src/Fec/Interleaver/Block/Perm.antt =====
-- `BlockInterleaver::window_perm` of src/fec/interleaver.rs: its column-major order.
use cryptovault.Common.{
  ℕ, zero, suc, ◌+◌, ◌-◌, ◌*◌, ◌/◌, ◌%◌, ◌≤◌, ◌<◌, ◌≡◌, refl, ◌∙◌, inl, inr, min, List, [], ◌∷◌,
  ◌++◌, arith, ltb, if◌then◌else◌, Bool-cases, ltb→lt, lt→ltb, length, get_or, All, length-append,
  get_or-append_left, get_or-append_right, dec_lt,
}
use cryptovault.Fec.Interleaver.Block.{
  BlockInterleaver, window_len, read_column, read_columns, window_perm,
}
use cryptovault.Fec.Interleaver.Windows.{IsShuffle}

-- `d` stands in `p`, with its place.
abbrev pub Has : List ℕ → ℕ → Type 0
Has p d = (k : ℕ) × (k < length p) × (get_or p k 0 ≡ d)

Has-cons : (x d : ℕ) (p : List ℕ) → Has p d → Has (x ∷ p) d
Has-cons x d p (k, h, e) = (suc k, omega arith, e)

Has-append_left : (p q : List ℕ) (d : ℕ) → Has p d → Has (p ++ q) d
Has-append_left p q d (k, h, e) =
    (k, omega (arith, length-append p q), get_or-append_left p q k 0 h ∙ e)

Has-append_right : (p q : List ℕ) (d : ℕ) → Has q d → Has (p ++ q) d
Has-append_right p q d (k, h, e) =
    (length p + k, omega (arith, length-append p q), get_or-append_right p q k 0 ∙ e)

module _ (filled : ℕ) where
  read_column-Has :
      (col n row r : ℕ)
      → row ≤ r
      → r < row + n
      → r * 255 + col < filled
      → Has (read_column filled col n row) (r * 255 + col)
  unfolding read_column
  read_column-Has col zero row r lo hi h = absurd (omega arith)
  read_column-Has col (suc n) row r lo hi h = elim (dec_lt row r) [
    | yes later ↦
        let ih = read_column-Has col n (row + 1) r (omega arith) (omega arith) h in
        elim (Bool-cases (ltb (row * 255 + col) filled)) [
          | inl e ↦ rw e (Has-cons (row * 255 + col) (r * 255 + col) _ ih)
          | inr e ↦ rw e ih
        ]
    | no now ↦ rw (lt→ltb (row * 255 + col) filled (omega arith)) (0, omega arith, omega arith)
  ]

  read_columns-Has :
      (depth m col c r : ℕ)
      → col ≤ c
      → c < col + m
      → r < depth
      → r * 255 + c < filled
      → Has (read_columns filled depth m col) (r * 255 + c)
  unfolding read_columns
  read_columns-Has depth zero col c r lo hi hr h = absurd (omega arith)
  read_columns-Has depth (suc m) col c r lo hi hr h = elim (dec_lt col c) [
    | yes later ↦
        Has-append_right (read_column filled col depth 0) _ (r * 255 + c)
          (read_columns-Has depth m (col + 1) c r (omega arith) (omega arith) hr h)
    | no now ↦
        let same : c ≡ col = omega arith in
        rw same (
          Has-append_left (read_column filled col depth 0) _ (r * 255 + col)
            (read_column-Has col depth 0 r (omega arith) (omega arith) (omega arith)))
  ]

  All-append :
      (p q : List ℕ)
      → All (λ i. i < filled) p
      → All (λ i. i < filled) q
      → All (λ i. i < filled) (p ++ q)
  All-append [] q hp hq = hq
  All-append (x ∷ p) q (hx, hp) hq = (hx, All-append p q hp hq)

  read_column-below : (col n row : ℕ) → All (λ i. i < filled) (read_column filled col n row)
  unfolding read_column
  read_column-below col zero row = tt
  read_column-below col (suc n) row = elim (Bool-cases (ltb (row * 255 + col) filled)) [
    | inl e ↦ rw e (ltb→lt (row * 255 + col) filled e, read_column-below col n (row + 1))
    | inr e ↦ rw e (read_column-below col n (row + 1))
  ]

  read_columns-below : (depth m col : ℕ) → All (λ i. i < filled) (read_columns filled depth m col)
  unfolding read_columns
  read_columns-below depth zero col = tt
  read_columns-below depth (suc m) col =
      All-append (read_column filled col depth 0) _ (read_column-below col depth 0)
        (read_columns-below depth m (col + 1))

  All-get_or : (p : List ℕ) (k : ℕ) → All (λ i. i < filled) p → k < length p → get_or p k 0 < filled
  All-get_or [] k a h = absurd (omega arith)
  All-get_or (x ∷ p) zero (hx, a) h = hx
  All-get_or (x ∷ p) (suc k) (hx, a) h = All-get_or p k a (omega arith)

  -- The cells of `n` rows from `row` on, counted column by column.
  total : ℕ → ℕ → ℕ → ℕ → ℕ
  total n row zero col = 0
  total n row (suc m) col = length (read_column filled col n row) + total n row m (col + 1)

  -- The cells of one row.
  in_row : ℕ → ℕ → ℕ → ℕ
  in_row row zero col = 0
  in_row row (suc m) col = (if ltb (row * 255 + col) filled then 1 else 0) + in_row row m (col + 1)

  in_row_lem : (row m col : ℕ) → in_row row m col ≡ min m (filled - (row * 255 + col))
  unfolding in_row
  in_row_lem row zero col = omega arith
  in_row_lem row (suc m) col = ground (arith, in_row_lem row m (col + 1))

  total-suc :
      (n row m col : ℕ) → total (suc n) row m col ≡ in_row row m col + total n (row + 1) m col
  unfolding total in_row read_column
  total-suc n row zero col = refl
  total-suc n row (suc m) col = ground (arith, total-suc n row m (col + 1))

  total-zero : (row m col : ℕ) → total 0 row m col ≡ 0
  unfolding total read_column
  total-zero row zero col = refl
  total-zero row (suc m) col = omega (arith, total-zero row m (col + 1))

  total_lem : (n row : ℕ) → total n row 255 0 ≡ min (n * 255) (filled - row * 255)
  total_lem zero row = omega (arith, total-zero row 255 0)
  total_lem (suc n) row =
      omega (arith, total-suc n row 255 0, in_row_lem row 255 0, total_lem n (row + 1))

  length-read_columns :
      (depth m col : ℕ) → length (read_columns filled depth m col) ≡ total depth 0 m col
  unfolding read_columns total
  length-read_columns depth zero col = refl
  length-read_columns depth (suc m) col = omega (
    arith,
    length-append (read_column filled col depth 0) (read_columns filled depth m (col + 1)),
    length-read_columns depth m (col + 1),
  )

-- For every fill of a window, `window_perm` visits each filled cell exactly once.
pub window_perm-IsShuffle :
    (b : BlockInterleaver) (filled : ℕ)
    → filled ≤ window_len b
    → IsShuffle filled (window_perm b filled)
unfolding window_perm
window_perm-IsShuffle b filled h =
    let size : length (read_columns filled b.depth 255 0) ≡ filled =
      omega (arith, length-read_columns filled b.depth 255 0, total_lem filled b.depth 0) in
    record {
      count = size;
      below = λ k hk.
          All-get_or filled _ k (read_columns-below filled b.depth 255 0) (omega (arith, size));
      onto = λ d hd.
          let (k, hk, e) =
            read_columns-Has filled b.depth 255 0 (d % 255) (d / 255) (omega arith) (omega arith)
              (omega arith) (omega arith) in
          (k, omega (arith, size), omega (arith, e));
    }
