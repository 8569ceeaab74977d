-- ===== src/Fec/Interleaver/Csprng/RoundTrip.antt =====
-- src/fec/interleaver.rs: the keyed layer on whole streams.
use cryptovault.Common.{
  ℕ, zero, suc, ◌+◌, ◌-◌, ◌*◌, ◌/◌, ◌%◌, ◌^◌, ◌≤◌, ◌<◌, ◌≡◌, refl, ap, ◌∙◌, List, arith, ltb, leb,
  lt→ltb, false, Bool-cases, inl, inr, ◌==◌, length, replicate,
}
use native.Mathlib.Nat.{div-add-mod', mod-lt}
use cryptovault.Error.{ok}
use cryptovault.Slice.{from_le_bytes}
use cryptovault.Fec.Interleaver.Csprng.{
  StreamCipher, CsprngLayer, range, next_index, fisher_yates, window_perm, interleave, deinterleave,
}
use cryptovault.Fec.Interleaver.Csprng.Shuffle.{
  swapped, swap_lem, swapped-IsShuffle, range-IsShuffle,
}
use cryptovault.Fec.Interleaver.Loops.{Shuffles, interleave_windows_lem, deinterleave_windows_lem}
use cryptovault.Fec.Interleaver.Windows.{IsShuffle}

-- The largest window: `RS_INTERLEAVE_MAX` codewords.
abbrev pub max_window : ℕ
max_window = 4080

-- A rejection bound drops less than `r` of the 2^32 values.
bound_large : (r : ℕ) → 1 ≤ r → r ≤ max_window → 2 ^ 32 - max_window ≤ 2 ^ 32 / r * r
bound_large r hr hm = omega (arith, div-add-mod' (2 ^ 32) r, mod-lt (2 ^ 32) hr)

ne_zero : (r : ℕ) → 1 ≤ r → (r == 0) ≡ false
ne_zero r h = ground arith

module _ (sc : StreamCipher) where
  open sc use {Cipher, apply_keystream}

  -- One draw of a `u32`, with the cipher after it.
  abbrev pub draw : Cipher → ℕ × Cipher
  draw c =
      (from_le_bytes (apply_keystream c (replicate 4 0)).0, (apply_keystream c (replicate 4 0)).1)

  abbrev pub after : ℕ → Cipher → Cipher
  after zero c = c
  after (suc k) c = after k (draw c).1

  -- From any state, one of the next `fuel` draws is below every rejection bound.
  abbrev pub IsLive : ℕ → Type 0
  IsLive fuel = (c : Cipher) → (k : ℕ) × (k < fuel) × ((draw (after k c)).0 < 2 ^ 32 - max_window)

  -- An accepted draw among the next `rounds` ends the loop with an index in range.
  pub next_index_lem :
      (rounds : ℕ) (c : Cipher) (r k : ℕ)
      → 1 ≤ r
      → r ≤ max_window
      → k < rounds
      → (draw (after k c)).0 < 2 ^ 32 - max_window
      → (x : ℕ) × (c' : Cipher) × (next_index sc rounds c r ≡ ok (x, c')) × (x < r)
  unfolding next_index
  next_index_lem zero c r k hr hm hk live = absurd (omega arith)
  next_index_lem (suc rounds) c r zero hr hm hk live =
      let small : (draw c).0 < 2 ^ 32 / r * r = omega (arith, bound_large r hr hm) in
      (
        (draw c).0 % r,
        (draw c).1,
        rw (ne_zero r hr, lt→ltb (draw c).0 (2 ^ 32 / r * r) small),
        mod-lt (draw c).0 hr,
      )
  next_index_lem (suc rounds) c r (suc k) hr hm hk live =
      let (x, c', e, h) = next_index_lem rounds (draw c).1 r k hr hm (omega arith) live in
      elim (Bool-cases (ltb (draw c).0 (2 ^ 32 / r * r))) [
        | inl small ↦ ((draw c).0 % r, (draw c).1, rw (ne_zero r hr, small), mod-lt (draw c).0 hr)
        | inr big ↦ (x, c', rw (ne_zero r hr, big) e, h)
      ]

module _ (sc : StreamCipher) (fuel : ℕ) (live : IsLive sc fuel) where
  open sc use {Cipher}

  fisher_yates-IsShuffle :
      (n i : ℕ) (c : Cipher) (p : List ℕ)
      → n ≤ max_window
      → i < n
      → IsShuffle n p
      → (p' : List ℕ) × (fisher_yates sc fuel i c p ≡ ok p') × IsShuffle n p'
  unfolding fisher_yates
  fisher_yates-IsShuffle n zero c p hn hi v = (p, refl, v)
  fisher_yates-IsShuffle n (suc i) c p hn hi v =
      let (k, hk, low) = live c in
      let (j, c', e, hj) =
        next_index_lem sc fuel c (suc i + 1) k (omega arith) (omega arith) hk low in
      let drawn : next_index sc fuel c ((suc i + 1) % 2 ^ 32) ≡ ok (j, c') =
        ap (λ (r : ℕ). next_index sc fuel c r) (omega arith) ∙ e in
      let (p', run, v') =
        fisher_yates-IsShuffle n i c' (swapped p (suc i) j) hn (omega arith)
          (swapped-IsShuffle n p (suc i) j hi (omega arith) v) in
      (
        p',
        rw (drawn, swap_lem p (suc i) j (omega (arith, v.count)) (omega (arith, v.count))) run,
        v',
      )

  -- Every window's keyed permutation is computed and is a shuffle.
  pub window_perm-Shuffles :
      (layer : CsprngLayer) (win : ℕ) → win ≤ max_window → Shuffles (window_perm sc fuel layer) win
  unfolding window_perm
  window_perm-Shuffles layer win hw filled w h = elim (Bool-cases (leb filled 1)) [
    | inl small ↦ (range 0 filled, rw small, range-IsShuffle filled)
    | inr more ↦ rw more (
        fisher_yates-IsShuffle filled (filled - 1) _ (range 0 filled) (omega arith)
          (positive filled more) (range-IsShuffle filled))
  ]
    where
      positive : (n : ℕ) → leb n 1 ≡ false → n - 1 < n
      positive n e = ground arith

  -- On a live keystream and windows of 1 to 4080 bytes, `CsprngLayer::interleave` returns a stream
  -- of the same length on every input, and `deinterleave` under the same seed returns the original
  -- from it.
  pub deinterleave-interleave_keyed :
      (layer : CsprngLayer) (s : List ℕ) (win : ℕ)
      → 1 ≤ win
      → win ≤ max_window
      → (t : List ℕ) × (interleave sc fuel layer s win ≡ ok t)
        × (length t ≡ length s)
        × (deinterleave sc fuel layer t win ≡ ok s)
  unfolding interleave deinterleave
  deinterleave-interleave_keyed layer s win lo hi =
      let perms = window_perm-Shuffles layer win hi in
      let (t, run, size, il) = interleave_windows_lem (window_perm sc fuel layer) win lo perms s in
      (t, run, size, deinterleave_windows_lem (window_perm sc fuel layer) win lo perms s t size il)
