-- ===== src/Fec/Interleaver/Loops.antt =====
-- The loops over the windows of a stream in src/fec/interleaver.rs, for any window permutations.
use cryptovault.Common.{
  ℕ, zero, suc, ◌+◌, ◌-◌, ◌%◌, ◌^◌, ◌≤◌, ◌<◌, ◌≡◌, refl, ap, ◌∙◌, min, List, arith, lt→ltb, le→ltb,
  length, get_elem?, get_or, replicate, length-replicate, eq_of_get_elem?, subst, dec_lt,
}
use cryptovault.Error.{Result, ok}
use cryptovault.Fec.Interleaver.{
  gather, scatter, each_window, interleave_windows, deinterleave_windows,
}
use cryptovault.Fec.Interleaver.Windows.{IsShuffle, gather-Gathers, Scatters, scatter-Scatters}

module _ (window_perm : ℕ → ℕ → Result (List ℕ)) (win : ℕ)
    (move_window : List ℕ → ℕ → List ℕ → ℕ → List ℕ → Result (List ℕ)) (s : List ℕ) where
  -- The loop ends where the stream does, at any fuel.
  pub each_window_done :
      (fuel base w : ℕ) (out : List ℕ)
      → length s ≤ base
      → each_window window_perm win move_window s fuel base w out ≡ ok out
  unfolding each_window
  each_window_done zero base w out h = rw (le→ltb base (length s) h)
  each_window_done (suc fuel) base w out h = rw (le→ltb base (length s) h, each_window)

  pub each_window_step :
      (fuel base w filled : ℕ) (out : List ℕ) {p out' : List ℕ}
      → base < length s
      → min (length s - base) win ≡ filled
      → window_perm filled w ≡ ok p
      → move_window s base p 0 out ≡ ok out'
      → each_window window_perm win move_window s (suc fuel) base w out
        ≡ each_window window_perm win move_window s fuel (base + filled) ((w + 1) % 2 ^ 64) out'
  unfolding each_window
  each_window_step fuel base w filled out h e ep em =
      rw (lt→ltb base (length s) h, each_window, e, ep, em)

-- After a window is scattered, the cells below its end agree with `s`.
rebuilt :
    (s out out' p : List ℕ) (base filled : ℕ)
    → IsShuffle filled p
    → Scatters s base p out out'
    → ((q : ℕ) → q < base → get_elem? out q ≡ get_elem? s q)
    → (q : ℕ) → q < base + filled
    → get_elem? out' q ≡ get_elem? s q
rebuilt s out out' p base filled shuffle g agree q h = elim (dec_lt q base) [
  | yes low ↦ g.keeps q (agree q low)
  | no high ↦
      let (k, hk, e) = shuffle.onto (q - base) (omega arith) in
      subst (λ r. get_elem? out' r ≡ get_elem? s r) (omega (arith, e))
        (g.cells k (omega (arith, shuffle.count)))
]

module _ (window_perm : ℕ → ℕ → Result (List ℕ)) (win : ℕ) where
  -- Every window's permutation is computed, and is a shuffle of the window's cells.
  abbrev pub Shuffles : Type 0
  Shuffles =
      (filled w : ℕ)
      → filled ≤ win
      → (p : List ℕ) × (window_perm filled w ≡ ok p) × IsShuffle filled p

  -- The windows of `t` from `base` on hold those of `s`, each in the order of its permutation.
  abbrev pub Interleaved : ℕ → ℕ → ℕ → List ℕ → List ℕ → Type 0
  Interleaved zero base w s t = length s ≤ base
  Interleaved (suc fuel) base w s t =
      base < length s
      → ((p : List ℕ) × (window_perm (min (length s - base) win) w ≡ ok p)
          × IsShuffle (min (length s - base) win) p
          × ((k : ℕ)
              → k < min (length s - base) win
              → get_elem? t (base + k) ≡ get_elem? s (base + get_or p k 0)))
        × Interleaved fuel (base + min (length s - base) win) ((w + 1) % 2 ^ 64) s t

  module _ (pos : 0 < win) (shuffles : Shuffles) where
    -- The interleaving loop returns, at any fuel that covers the rest of the stream.
    interleave_loop :
        (fuel base w : ℕ) (s out : List ℕ)
        → length s ≤ base + fuel
        → length out ≡ length s
        → (t : List ℕ) × (each_window window_perm win gather s fuel base w out ≡ ok t)
          × (length t ≡ length s)
          × Interleaved fuel base w s t
          × ((p : ℕ) → p < base → get_elem? t p ≡ get_elem? out p)
    interleave_loop zero base w s out hf ho = (
      out,
      each_window_done window_perm win gather s zero base w out (omega arith),
      ho,
      omega arith,
      λ p h. refl,
    )
    interleave_loop (suc fuel) base w s out hf ho = elim (dec_lt base (length s)) [
      | yes more ↦
          let filled = min (length s - base) win in
          let (p, ep, shuffle) = shuffles filled w (omega arith) in
          let fits : (j : ℕ) → j < length p → base + get_or p j 0 < length s =
            λ j h. omega (arith, shuffle.below j (omega (arith, shuffle.count))) in
          let (out', em, g) = gather-Gathers s base p 0 out fits (omega (arith, shuffle.count)) in
          let (t, run, size, rest, before) =
            interleave_loop fuel (base + filled) ((w + 1) % 2 ^ 64) s out' (omega arith)
              (g.size ∙ ho) in
          (
            t,
            each_window_step window_perm win gather s fuel base w filled out more refl ep em ∙ run,
            size,
            λ _. (
              (
                p,
                ep,
                shuffle,
                λ k h.
                    before (base + k) (omega arith)
                    ∙ ap (λ (q : ℕ). get_elem? out' q) (omega arith)
                    ∙ g.cells k (omega (arith, shuffle.count)),
              ),
              rest,
            ),
            λ q h. before q (omega arith) ∙ g.before q (omega arith),
          )
      | no done ↦ (
        out,
        each_window_done window_perm win gather s (suc fuel) base w out (omega arith),
        ho,
        λ h. absurd (done h),
        λ p h. refl,
      )
    ]

    -- The de-interleaving loop rebuilds `s` from a stream that holds its windows permuted.
    deinterleave_loop :
        (fuel base w : ℕ) (s t out : List ℕ)
        → Interleaved fuel base w s t
        → length t ≡ length s
        → length out ≡ length s
        → ((p : ℕ) → p < base → get_elem? out p ≡ get_elem? s p)
        → each_window window_perm win scatter t fuel base w out ≡ ok s
    deinterleave_loop zero base w s t out il ht ho agree =
        each_window_done window_perm win scatter t zero base w out (omega arith)
        ∙ ap ok (eq_of_get_elem? out s ho (λ p h. agree p (omega arith)))
    deinterleave_loop (suc fuel) base w s t out il ht ho agree = elim (dec_lt base (length s)) [
      | yes more ↦
          let ((p, ep, shuffle, cells), rest) = il more in
          let filled = min (length s - base) win in
          let same : min (length t - base) win ≡ filled = rw ht in
          let (out', em, g) =
            scatter-Scatters t s base p 0 out (omega (arith, shuffle.count))
              (λ j h. omega (arith, shuffle.count, shuffle.below j (omega (arith, shuffle.count))))
              (λ j h.
                ap (λ (q : ℕ). get_elem? t q) (omega arith)
                ∙ cells j (omega (arith, shuffle.count))) in
          each_window_step window_perm win scatter t fuel base w filled out (omega arith) same ep em
          ∙ deinterleave_loop fuel (base + filled) ((w + 1) % 2 ^ 64) s t out' rest ht (g.size ∙ ho)
              (rebuilt s out out' p base filled shuffle g agree)
      | no done ↦
          each_window_done window_perm win scatter t (suc fuel) base w out (omega arith)
          ∙ ap ok (eq_of_get_elem? out s ho (λ p h. agree p (omega arith)))
    ]

    -- Interleaving returns a stream of the same length that holds the windows permuted.
    pub interleave_windows_lem :
        (s : List ℕ)
        → (t : List ℕ) × (interleave_windows window_perm win s ≡ ok t)
          × (length t ≡ length s)
          × Interleaved (length s) 0 0 s t
    unfolding interleave_windows
    interleave_windows_lem s =
        let (t, run, size, il, _) =
          interleave_loop (length s) 0 0 s (replicate (length s) 0) (omega arith)
            (length-replicate (length s) 0) in
        (t, run, size, il)

    pub deinterleave_windows_lem :
        (s t : List ℕ)
        → length t ≡ length s
        → Interleaved (length s) 0 0 s t
        → deinterleave_windows window_perm win t ≡ ok s
    unfolding deinterleave_windows
    deinterleave_windows_lem s t size il = rw size (
        deinterleave_loop (length s) 0 0 s t (replicate (length s) 0) il size
          (length-replicate (length s) 0) (λ p h. absurd (omega arith)))
