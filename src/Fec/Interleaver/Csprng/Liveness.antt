-- ===== src/Fec/Interleaver/Csprng/Liveness.antt =====
-- src/fec/interleaver.rs: the rejection sampling of `CsprngLayer` ends, with no bound on its rounds.
use cryptovault.Common.{
  ℕ, zero, suc, ◌+◌, ◌-◌, ◌*◌, ◌/◌, ◌%◌, ◌^◌, ◌≤◌, ◌<◌, ◌≡◌, refl, sym, ap, ◌∙◌, List, arith, ltb,
  leb, false, Bool-cases, inl, inr, ◌==◌, length, min, dec_lt, subst, ◌∷◌, replicate,
}
use native.Mathlib.Nat.{mod-lt}
use cryptovault.Error.{Result, ok, >>=-eq-ok}
use cryptovault.Slice.{to_le_bytes}
use cryptovault.Fec.Interleaver.Csprng.{
  StreamCipher, CsprngLayer, range, next_index, fisher_yates, window_perm, interleave, deinterleave,
  swap,
}
use cryptovault.Fec.Interleaver.Csprng.Shuffle.{
  swapped, swap_lem, swapped-IsShuffle, range-IsShuffle,
}
use cryptovault.Fec.Interleaver.Csprng.RoundTrip.{max_window, draw, after, next_index_lem}
use cryptovault.Fec.Interleaver.{
  each_window, gather, scatter, interleave_windows, deinterleave_windows,
}
use cryptovault.Fec.Interleaver.Loops.{Shuffles, interleave_windows_lem, deinterleave_windows_lem}
use cryptovault.Fec.Interleaver.Windows.{IsShuffle}

-- A property that more fuel keeps holds below `n` at one fuel, if it holds at each number at some.
uniform {ℓ} :
    (P : ℕ → ℕ → Type ℓ) (n : ℕ)
    → ((i f g : ℕ) → f ≤ g → P i f → P i g)
    → ((i : ℕ) → (f : ℕ) × P i f)
    → (f : ℕ) × ((i : ℕ) → i < n → P i f)
uniform P zero mono each = (0, λ i h. absurd (omega arith))
uniform P (suc n) mono each =
    let (f, below) = uniform P n mono each in
    let (g, last) = each n in
    (
      f + g,
      λ i h. elim (dec_lt i n) [
        | yes low ↦ mono i f (f + g) (omega arith) (below i low)
        | no high ↦ subst (λ j. P j (f + g)) (omega arith) (mono n g (f + g) (omega arith) last)
      ],
    )

-- `q` moved up by `n` bytes
abbrev shift_bytes : ℕ → ℕ → ℕ
shift_bytes zero q = q
shift_bytes (suc n) q = 256 * shift_bytes n q

to_le_bytes-shift_bytes : (n m q : ℕ) → to_le_bytes n (m + shift_bytes n q) ≡ to_le_bytes n m
unfolding to_le_bytes
to_le_bytes-shift_bytes zero m q = refl
to_le_bytes-shift_bytes (suc n) m q =
    let digit : (m + 256 * shift_bytes n q) % 256 ≡ m % 256 = omega arith in
    let rest : (m + 256 * shift_bytes n q) / 256 ≡ m / 256 + shift_bytes n q = omega arith in
    rw (digit, rest) (ap (λ bs. (m % 256) ∷ bs) (to_le_bytes-shift_bytes n (m / 256) q))

-- Eight bytes hold a number up to its multiple of 2^64.
to_le_bytes-wraps : (w : ℕ) → to_le_bytes 8 (w % 2 ^ 64) ≡ to_le_bytes 8 w
to_le_bytes-wraps w =
    let split : w % 2 ^ 64 + shift_bytes 8 (w / 2 ^ 64) ≡ w = omega arith in
    rw (← to_le_bytes-shift_bytes 8 (w % 2 ^ 64) (w / 2 ^ 64), split)

-- The loop over the windows needs the permutations only where they are computed.
each_window_mono :
    (perms perms' : ℕ → ℕ → Result (List ℕ)) (win : ℕ)
    (move_window : List ℕ → ℕ → List ℕ → ℕ → List ℕ → Result (List ℕ)) (s : List ℕ)
    (rounds base w : ℕ) (out : List ℕ) {t : List ℕ}
    → ((filled v : ℕ) (p : List ℕ) → perms filled v ≡ ok p → perms' filled v ≡ ok p)
    → each_window perms win move_window s rounds base w out ≡ ok t
    → each_window perms' win move_window s rounds base w out ≡ ok t
unfolding each_window
each_window_mono perms perms' win move_window s zero base w out mono run = run
each_window_mono perms perms' win move_window s (suc rounds) base w out mono run =
    elim (Bool-cases (ltb base (length s))) [
      | inl more ↦
          let filled = min (length s - base) win in
          let (p, ep, then) = >>=-eq-ok (perms filled w) _ (rw (more, each_window) at run) in
          let (out', em, rest) = >>=-eq-ok (move_window s base p 0 out) _ then in
          rw (more, each_window, mono filled w p ep, em)
            (each_window_mono perms perms' win move_window s rounds (base + filled)
              ((w + 1) % 2 ^ 64) out' mono rest)
      | inr done ↦ rw (done, each_window) (rw (done, each_window) at run)
    ]

module _ (sc : StreamCipher) where
  open sc use {Cipher}

  -- More fuel keeps a draw.
  next_index_mono :
      (f g : ℕ) (c : Cipher) (r : ℕ) {out : ℕ × Cipher}
      → f ≤ g
      → next_index sc f c r ≡ ok out
      → next_index sc g c r ≡ ok out
  unfolding next_index
  next_index_mono zero g c r h run = cc
  next_index_mono (suc f) zero c r h run = absurd (omega arith)
  next_index_mono (suc f) (suc g) c r h run = elim (Bool-cases (r == 0)) [
    | inl z ↦ rw z (rw z at run)
    | inr nz ↦ elim (Bool-cases (ltb (draw sc c).0 (2 ^ 32 / r * r))) [
      | inl low ↦ rw (nz, low) (rw (nz, low) at run)
      | inr high ↦
          rw (nz, high) (next_index_mono f g (draw sc c).1 r (omega arith) (rw (nz, high) at run))
    ]
  ]

  fisher_yates_mono :
      (f g i : ℕ) (c : Cipher) (p : List ℕ) {out : List ℕ}
      → f ≤ g
      → fisher_yates sc f i c p ≡ ok out
      → fisher_yates sc g i c p ≡ ok out
  unfolding fisher_yates
  fisher_yates_mono f g zero c p h run = run
  fisher_yates_mono f g (suc i) c p h run =
      let ((j, c'), drawn, then) = >>=-eq-ok (next_index sc f c ((suc i + 1) % 2 ^ 32)) _ run in
      let (p', swaps, rest) = >>=-eq-ok (swap p (suc i) j) _ then in
      rw (next_index_mono f g c ((suc i + 1) % 2 ^ 32) h drawn, swaps)
        (fisher_yates_mono f g i c' p' h rest)

  window_perm_mono :
      (f g : ℕ) (layer : CsprngLayer) (filled w : ℕ) {out : List ℕ}
      → f ≤ g
      → window_perm sc f layer filled w ≡ ok out
      → window_perm sc g layer filled w ≡ ok out
  unfolding window_perm
  window_perm_mono f g layer filled w h run = elim (Bool-cases (leb filled 1)) [
    | inl small ↦ rw small (rw small at run)
    | inr more ↦ rw more (fisher_yates_mono f g (filled - 1) _ (range 0 filled) h (rw more at run))
  ]

  window_perm-wraps :
      (f : ℕ) (layer : CsprngLayer) (filled w : ℕ)
      → window_perm sc f layer filled (w % 2 ^ 64) ≡ window_perm sc f layer filled w
  unfolding window_perm
  window_perm-wraps f layer filled w = rw (to_le_bytes-wraps w)

  -- From any state, some later draw is below every rejection bound; how much later is not bounded.
  abbrev pub IsEventuallyLive : Type 0
  IsEventuallyLive = (c : Cipher) → (k : ℕ) × ((draw sc (after sc k c)).0 < 2 ^ 32 - max_window)

module _ (sc : StreamCipher) (live : IsEventuallyLive sc) where
  open sc use {Cipher}

  fisher_yates-ends :
      (n i : ℕ) (c : Cipher) (p : List ℕ)
      → n ≤ max_window
      → i < n
      → IsShuffle n p
      → (f : ℕ) × (p' : List ℕ) × (fisher_yates sc f i c p ≡ ok p') × IsShuffle n p'
  unfolding fisher_yates
  fisher_yates-ends n zero c p hn hi v = (0, p, refl, v)
  fisher_yates-ends n (suc i) c p hn hi v =
      let (k, low) = live c in
      let (j, c', e, hj) =
        next_index_lem sc (suc k) c (suc i + 1) k (omega arith) (omega arith) (omega arith) low in
      let (f, p', run, v') =
        fisher_yates-ends n i c' (swapped p (suc i) j) hn (omega arith)
          (swapped-IsShuffle n p (suc i) j hi (omega arith) v) in
      let range_len : suc i + 1 ≡ (suc i + 1) % 2 ^ 32 = omega arith in
      let drawn : next_index sc (suc k) c ((suc i + 1) % 2 ^ 32) ≡ ok (j, c') =
        rw (← range_len) e in
      let swaps : swap p (suc i) j ≡ ok (swapped p (suc i) j) =
        swap_lem p (suc i) j (omega (arith, v.count)) (omega (arith, v.count)) in
      (
        suc k + f,
        p',
        rw
            (
              next_index_mono sc (suc k) (suc k + f) c ((suc i + 1) % 2 ^ 32) (omega arith) drawn,
              swaps,
            )
            (fisher_yates_mono sc f (suc k + f) i c' (swapped p (suc i) j) (omega arith) run),
        v',
      )

  window_perm-ends :
      (layer : CsprngLayer) (filled w : ℕ)
      → filled ≤ max_window
      → (f : ℕ) × (p : List ℕ) × (window_perm sc f layer filled w ≡ ok p) × IsShuffle filled p
  unfolding window_perm
  window_perm-ends layer filled w h = elim (Bool-cases (leb filled 1)) [
    | inl small ↦ (0, range 0 filled, rw small, range-IsShuffle filled)
    | inr more ↦ rw more (
        fisher_yates-ends filled (filled - 1) _ (range 0 filled) h (positive filled more)
          (range-IsShuffle filled))
  ]
    where
      positive : (n : ℕ) → leb n 1 ≡ false → n - 1 < n
      positive n e = ground arith

  -- On fuel `f`, the permutation of a window is computed and is a shuffle of it.
  abbrev IsDrawn : CsprngLayer → ℕ → ℕ → ℕ → Type 0
  IsDrawn layer f filled w =
      (p : List ℕ) × (window_perm sc f layer filled w ≡ ok p) × IsShuffle filled p

  IsDrawn-mono :
      (layer : CsprngLayer) (f g filled w : ℕ)
      → f ≤ g
      → IsDrawn layer f filled w
      → IsDrawn layer g filled w
  IsDrawn-mono layer f g filled w h (p, run, v) =
      (p, window_perm_mono sc f g layer filled w h run, v)

  -- One fuel does for the windows of one number, and one for all numbers.
  IsDrawn-at :
      (layer : CsprngLayer) (win w : ℕ)
      → win ≤ max_window
      → (f : ℕ) × ((filled : ℕ) → filled < suc win → IsDrawn layer f filled w)
  IsDrawn-at layer win w h =
      let (f, each) =
        uniform (λ filled f. filled ≤ max_window → IsDrawn layer f filled w) (suc win)
          (λ i f g m d hi. IsDrawn-mono layer f g i w m (d hi)) ends in
      (f, λ i hi. each i hi (omega arith))
    where
      ends : (i : ℕ) → (f : ℕ) × (i ≤ max_window → IsDrawn layer f i w)
      ends i = elim (dec_lt max_window i) [
        | yes out ↦ (0, λ hi. absurd (omega arith))
        | no fits ↦
            let (f, p, run, v) = window_perm-ends layer i w (omega arith) in (f, λ hi. (p, run, v))
      ]

  window_perm-Shuffles_ends :
      (layer : CsprngLayer) (win : ℕ)
      → win ≤ max_window
      → (f : ℕ) × Shuffles (window_perm sc f layer) win
  window_perm-Shuffles_ends layer win h =
      let (f, each) =
        uniform (λ w f. (filled : ℕ) → filled < suc win → IsDrawn layer f filled w) (2 ^ 64)
          (λ w f g m d i hi. IsDrawn-mono layer f g i w m (d i hi))
          (λ w. IsDrawn-at layer win w h) in
      (
        f,
        λ filled w hf.
            let (p, run, v) = each (w % 2 ^ 64) (mod-lt w (omega arith)) filled (omega arith) in
            (p, sym (window_perm-wraps sc f layer filled w) ∙ run, v),
      )

  -- If from every state of the cipher some later draw is below every rejection bound, however much
  -- later, then on windows of 1 to 4080 bytes the rejection sampling ends: for every seed and
  -- stream there are a number of rounds and a stream of the same length, such that on these rounds
  -- or any more, `interleave` returns that stream and `deinterleave` returns the original from it.
  pub interleave_keyed-ends :
      (layer : CsprngLayer) (s : List ℕ) (win : ℕ)
      → 1 ≤ win
      → win ≤ max_window
      → (rounds : ℕ) × (t : List ℕ) × (length t ≡ length s)
        × ((more : ℕ) → interleave sc (rounds + more) layer s win ≡ ok t)
        × ((more : ℕ) → deinterleave sc (rounds + more) layer t win ≡ ok s)
  unfolding interleave deinterleave interleave_windows deinterleave_windows
  interleave_keyed-ends layer s win lo hi =
      let (f, perms) = window_perm-Shuffles_ends layer win hi in
      let (t, run, size, il) = interleave_windows_lem (window_perm sc f layer) win lo perms s in
      let back = deinterleave_windows_lem (window_perm sc f layer) win lo perms s t size il in
      (
        f,
        t,
        size,
        λ more.
            each_window_mono (window_perm sc f layer) (window_perm sc (f + more) layer) win gather s
              (length s) 0 0 (replicate (length s) 0)
              (λ filled w p. window_perm_mono sc f (f + more) layer filled w (omega arith)) run,
        λ more.
            each_window_mono (window_perm sc f layer) (window_perm sc (f + more) layer) win scatter
              t (length t) 0 0 (replicate (length t) 0)
              (λ filled w p. window_perm_mono sc f (f + more) layer filled w (omega arith)) back,
      )
