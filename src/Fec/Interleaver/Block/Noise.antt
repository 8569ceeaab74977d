-- ===== src/Fec/Interleaver/Block/Noise.antt =====
-- src/fec/interleaver.rs: what a burst leaves in each codeword, as the comment at its top counts it.
use cryptovault.Common.{
  ℕ, zero, suc, ◌+◌, ◌-◌, ◌*◌, ◌/◌, ◌%◌, ◌≤◌, ◌<◌, ◌≡◌, ◌⊎◌, inl, inr, sym, ap, ◌∙◌, min, max, List,
  arith, ◌==◌, if◌then◌else◌, length, get_or, dec_lt, tabulate, length-tabulate, subst,
  drop-tabulate, take-tabulate, take,
}
use native.Mathlib.Nat.{mod-lt, div-add-mod', le-div_iff_mul-le, div-lt_iff_lt-mul}
use cryptovault.Error.{ok, ok-injective}
use cryptovault.Fec.Interleaver.Block.{BlockInterleaver, window_len, deinterleave}
use cryptovault.Fec.Interleaver.Block.Inverse.{rows, dest, dest_lem, original, deinterleave_lem}
use cryptovault.Fec.ReedSolomon.Laws.{distance, codeword_at}

-- Two streams of one length that agree outside the `len` places from `start` on.
pub record IsBurst (start len : ℕ) (sent got : List ℕ) : Type 0 where
  pub same_length : length got ≡ length sent
  pub agrees : (p : ℕ) → (p < start) ⊎ (start + len ≤ p) → get_or sent p 0 ≡ get_or got p 0

mismatch-le-one : (x y : ℕ) → (if x == y then 0 else 1) ≤ 1
mismatch-le-one x y = ground arith

mismatch_zero : (x y : ℕ) → x ≡ y → (if x == y then 0 else 1) ≤ 0
mismatch_zero x y e = ground arith

-- Functions that agree outside `w` places differ in as many symbols at most.
distance-tabulate :
    (f g : ℕ → ℕ) (a w n k : ℕ)
    → ((p : ℕ) → k ≤ p → p < k + n → (p < a) ⊎ (a + w ≤ p) → f p ≡ g p)
    → distance (tabulate f k n) (tabulate g k n) ≤ min (a + w) (k + n) - max a k
distance-tabulate f g a w zero k agree = omega arith
distance-tabulate f g a w (suc n) k agree =
    let later =
      distance-tabulate f g a w n (k + 1)
        (λ p lo hi out. agree p (omega arith) (omega arith) out) in
    let here = agree k (omega arith) (omega arith) in
    elim (dec_lt k a) [
      | yes before ↦ omega (arith, later, mismatch_zero (f k) (g k) (here (inl before)))
      | no begun ↦ elim (dec_lt k (a + w)) [
        | yes inside ↦ omega (arith, later, mismatch-le-one (f k) (g k))
        | no after ↦ omega (arith, later, mismatch_zero (f k) (g k) (here (inr (omega arith))))
      ]
    ]

within : (a w n k d : ℕ) → d ≤ min (a + w) (k + n) - max a k → d ≤ w
within a w n k d h = omega arith

-- A codeword of a tabulated stream.
codeword_at-tabulate :
    (f : ℕ → ℕ) (n j : ℕ)
    → codeword_at (tabulate f 0 (n * 255)) j ≡ tabulate f (j * 255) (min 255 (n * 255 - j * 255))
codeword_at-tabulate f n j =
    ap (take 255) (drop-tabulate f (j * 255) 0 (n * 255))
    ∙ take-tabulate f 255 (0 + j * 255) (n * 255 - j * 255)
    ∙ ap (λ (x : ℕ). tabulate f x (min 255 (n * 255 - j * 255))) (omega arith)

-- The places of one codeword that a burst can reach: from the first column at or behind its start
-- on, as many as the burst has rows of the window.
abbrev first_column : ℕ → ℕ → ℕ → ℕ
first_column start place m = (start - place + (m - 1)) / m

column_out :
    (start len place m w c : ℕ)
    → 1 ≤ m
    → len ≤ w * m
    → (c < first_column start place m) ⊎ (first_column start place m + w ≤ c)
    → (place + c * m < start) ⊎ (start + len ≤ place + c * m)
column_out start len place m w c hm hl (inl early) =
    let bound : suc c * m ≤ start - place + (m - 1) =
      (le-div_iff_mul-le {k = m} {x = suc c} {y = start - place + (m - 1)} hm).0 early in
    inl (omega arith)
column_out start len place m w c hm hl (inr late) =
    let e = c - w in
    let split : c ≡ e + w = omega arith in
    let bound : start - place + (m - 1) < suc e * m =
      (div-lt_iff_lt-mul {k = m} {x = start - place + (m - 1)} {y = suc e} hm).0 (omega arith) in
    let prod : c * m ≡ e * m + w * m = omega (arith, ap (λ (x : ℕ). x * m) split) in
    inr (omega arith)

-- In a codeword the streams agree but for `w` columns.
column_agrees :
    (b : BlockInterleaver) (n start len w : ℕ) (sent got : List ℕ) (x r p : ℕ)
    → r < b.depth
    → 1 ≤ rows b.depth n x
    → IsBurst start len sent got
    → len ≤ w * rows b.depth n x
    → (x * b.depth + r) * 255 ≤ p
    → p < (x * b.depth + r) * 255 + 255
    → (p < (x * b.depth + r) * 255 + first_column start (x * window_len b + r) (rows b.depth n x))
      ⊎ ((x * b.depth + r) * 255 + first_column start (x * window_len b + r) (rows b.depth n x) + w
          ≤ p)
    → get_or sent (dest b n p) 0 ≡ get_or got (dest b n p) 0
column_agrees b n start len w sent got x r p hr hm burst fits lo hi out =
    let m = rows b.depth n x in
    let place = x * window_len b + r in
    let c = p - (x * b.depth + r) * 255 in
    let sent_to : dest b n p ≡ place + c * m =
      ap (dest b n) {x = p} {y = x * window_len b + (r * 255 + c)} (omega arith)
      ∙ dest_lem b n x r c hr (omega arith)
      ∙ omega arith in
    let far : (place + c * m < start) ⊎ (start + len ≤ place + c * m) =
      column_out start len place m w c hm fits
        (elim out [ inl early ↦ inl (omega arith) | inr late ↦ inr (omega arith) ]) in
    ap (λ (q : ℕ). get_or sent q 0) sent_to
    ∙ burst.agrees (place + c * m) far
    ∙ ap (λ (q : ℕ). get_or got q 0) (sym sent_to)

-- The fewest rows of a window of a stream of `n` codewords: those of the last one, if it is partial.
abbrev pub narrowest : ℕ → ℕ → ℕ
narrowest depth n = if n % depth == 0 then depth else n % depth

narrowest-le-rows :
    (depth n x : ℕ) → 1 ≤ depth → x * depth < n → (narrowest depth n ≤ rows depth n x)
narrowest-le-rows depth n x hd h =
    let whole : n / depth * depth + n % depth ≡ n = div-add-mod' n depth in
    let small : n % depth < depth = mod-lt n hd in
    elim (dec_lt x (n / depth)) [
      | yes full ↦ let prod : suc x * depth ≤ n / depth * depth = grind arith in ground arith
      | no last ↦
          let prod : n / depth * depth ≤ x * depth = grind arith in
          let same : x * depth ≡ n / depth * depth =
            let top : x ≤ n / depth =
              (le-div_iff_mul-le {k = depth} {x = x} {y = n} hd).1 (omega arith) in
            ap (λ (y : ℕ). y * depth) (omega arith) in
          ground arith
    ]

-- The row `r` of the window number `x`, after de-interleaving the two streams.
near_row :
    (b : BlockInterleaver) (n start len w : ℕ) (sent got : List ℕ) (x r : ℕ)
    → r < b.depth
    → x * b.depth + r < n
    → IsBurst start len sent got
    → len ≤ w * narrowest b.depth n
    → distance
        (tabulate (λ q. get_or sent (dest b n q) 0) ((x * b.depth + r) * 255) 255)
        (tabulate (λ q. get_or got (dest b n q) 0) ((x * b.depth + r) * 255) 255)
      ≤ w
near_row b n start len w sent got x r hr inside burst fits =
    let m = rows b.depth n x in
    let start_row = (x * b.depth + r) * 255 in
    let first = first_column start (x * window_len b + r) m in
    let wide : narrowest b.depth n ≤ m =
      narrowest-le-rows b.depth n x (omega arith) (omega arith) in
    let fits_row : len ≤ w * m = grind arith in
    within (start_row + first) w 255 start_row _ (
      distance-tabulate (λ q. get_or sent (dest b n q) 0) (λ q. get_or got (dest b n q) 0)
        (start_row + first) w 255 start_row
        (λ p lo hi out.
          column_agrees b n start len w sent got x r p hr (omega arith) burst fits_row lo hi out))

near_codeword :
    (b : BlockInterleaver) (n start len w : ℕ) (sent got : List ℕ) (j : ℕ)
    → 1 ≤ b.depth
    → IsBurst start len sent got
    → len ≤ w * narrowest b.depth n
    → distance
        (tabulate (λ q. get_or sent (dest b n q) 0) (j * 255) (min 255 (n * 255 - j * 255)))
        (tabulate (λ q. get_or got (dest b n q) 0) (j * 255) (min 255 (n * 255 - j * 255)))
      ≤ w
near_codeword b n start len w sent got j hd burst fits = elim (dec_lt j n) [
  | yes inside ↦
      let all : min 255 (n * 255 - j * 255) ≡ 255 = omega arith in
      let at : j / b.depth * b.depth + j % b.depth ≡ j = div-add-mod' j b.depth in
      rw all (
        subst
          (λ (y : ℕ).
            distance (tabulate (λ q. get_or sent (dest b n q) 0) (y * 255) 255)
              (tabulate (λ q. get_or got (dest b n q) 0) (y * 255) 255)
            ≤ w)
          at
          (near_row b n start len w sent got (j / b.depth) (j % b.depth) (mod-lt j hd) (omega arith)
            burst fits))
  | no outside ↦ let none : min 255 (n * 255 - j * 255) ≡ 0 = omega arith in rw none (omega arith)
]

-- After de-interleaving, a burst of at most `w` times the rows of the narrowest window has left at most
-- `w` wrong symbols in each codeword.
pub deinterleave-burst :
    (b : BlockInterleaver) (n start len w : ℕ) (sent got cw : List ℕ)
    → 1 ≤ b.depth
    → length sent ≡ n * 255
    → IsBurst start len sent got
    → len ≤ w * narrowest b.depth n
    → deinterleave b sent ≡ ok cw
    → (u : List ℕ) × (deinterleave b got ≡ ok u)
      × (length u ≡ n * 255)
      × ((j : ℕ) → distance (codeword_at cw j) (codeword_at u j) ≤ w)
deinterleave-burst b n start len w sent got cw hd size burst fits run =
    let sent_word = λ (q : ℕ). get_or sent (dest b n q) 0 in
    let got_word = λ (q : ℕ). get_or got (dest b n q) 0 in
    let same_cw : original b n sent hd size ≡ cw =
      ok-injective (sym (deinterleave_lem b n sent hd size) ∙ run) in
    let got_size = burst.same_length ∙ size in
    (
      original b n got hd got_size,
      deinterleave_lem b n got hd got_size,
      length-tabulate got_word 0 (n * 255),
      λ j.
          subst
            (λ (l : List ℕ).
              distance (codeword_at l j) (codeword_at (original b n got hd got_size) j) ≤ w)
            same_cw
            (rw (codeword_at-tabulate sent_word n j, codeword_at-tabulate got_word n j)
              (near_codeword b n start len w sent got j hd burst fits)),
    )
