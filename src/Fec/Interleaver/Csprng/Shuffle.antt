-- ===== src/Fec/Interleaver/Csprng/Shuffle.antt =====
-- The Fisher-Yates loop of `CsprngLayer::window_perm` in src/fec/interleaver.rs.
use cryptovault.Common.{
  ℕ, zero, suc, ◌+◌, ◌<◌, ◌≡◌, ◌≢◌, refl, sym, ap, ◌∙◌, List, arith, length, get_or, set,
  length-set, get_or-set_self, get_or-set_ne, ℕ_discrete, subst,
}
use cryptovault.Error.{ok}
use cryptovault.Slice.{read-ok, write-ok}
use cryptovault.Fec.Interleaver.Csprng.{swap, range}
use cryptovault.Fec.Interleaver.Windows.{IsShuffle}

-- The list that `swap` leaves.
abbrev pub swapped : List ℕ → ℕ → ℕ → List ℕ
swapped p i j = set (set p i (get_or p j 0)) j (get_or p i 0)

pub swap_lem :
    (p : List ℕ) (i j : ℕ) → i < length p → j < length p → swap p i j ≡ ok (swapped p i j)
unfolding swap
swap_lem p i j hi hj =
    rw (read-ok p i hi, read-ok p j hj, write-ok p i (get_or p j 0) hi)
      (write-ok (set p i (get_or p j 0)) j (get_or p i 0)
        (omega (arith, length-set p i (get_or p j 0))))

module _ (p : List ℕ) (i j : ℕ) (hi : i < length p) (hj : j < length p) where
  length-swapped : length (swapped p i j) ≡ length p
  length-swapped =
      length-set (set p i (get_or p j 0)) j (get_or p i 0) ∙ length-set p i (get_or p j 0)

  swapped-at_j : get_or (swapped p i j) j 0 ≡ get_or p i 0
  swapped-at_j =
      get_or-set_self (set p i (get_or p j 0)) j (get_or p i 0) 0
        (omega (arith, length-set p i (get_or p j 0)))

  swapped-at_i : get_or (swapped p i j) i 0 ≡ get_or p j 0
  swapped-at_i = elim (ℕ_discrete j i) [
    | yes e ↦
        subst (λ k. get_or (swapped p i j) k 0 ≡ get_or p j 0) e
          (swapped-at_j ∙ ap (λ (k : ℕ). get_or p k 0) (sym e))
    | no ne ↦
        get_or-set_ne (set p i (get_or p j 0)) j i (get_or p i 0) 0 ne
        ∙ get_or-set_self p i (get_or p j 0) 0 hi
  ]

  swapped-else : (k : ℕ) → k ≢ i → k ≢ j → get_or (swapped p i j) k 0 ≡ get_or p k 0
  swapped-else k ni nj =
      get_or-set_ne (set p i (get_or p j 0)) j k (get_or p i 0) 0 (λ e. nj (sym e))
      ∙ get_or-set_ne p i k (get_or p j 0) 0 (λ e. ni (sym e))

  swapped-below :
      (n k : ℕ)
      → ((q : ℕ) → q < length p → get_or p q 0 < n)
      → k < length p
      → get_or (swapped p i j) k 0 < n
  swapped-below n k below hk = elim (ℕ_discrete k i) [
    | yes e ↦ omega (arith, ap (λ (q : ℕ). get_or (swapped p i j) q 0) e, swapped-at_i, below j hj)
    | no ni ↦ elim (ℕ_discrete k j) [
      | yes e ↦
          omega (arith, ap (λ (q : ℕ). get_or (swapped p i j) q 0) e, swapped-at_j, below i hi)
      | no nj ↦ omega (arith, swapped-else k ni nj, below k hk)
    ]
  ]

  swapped-onto :
      (k : ℕ)
      → k < length p
      → (q : ℕ) × (q < length p) × (get_or (swapped p i j) q 0 ≡ get_or p k 0)
  swapped-onto k hk = elim (ℕ_discrete k i) [
    | yes e ↦ (j, hj, swapped-at_j ∙ ap (λ (q : ℕ). get_or p q 0) (sym e))
    | no ni ↦ elim (ℕ_discrete k j) [
      | yes e ↦ (i, hi, swapped-at_i ∙ ap (λ (q : ℕ). get_or p q 0) (sym e))
      | no nj ↦ (k, hk, swapped-else k ni nj)
    ]
  ]

pub swapped-IsShuffle :
    (n : ℕ) (p : List ℕ) (i j : ℕ) → i < n → j < n → IsShuffle n p → IsShuffle n (swapped p i j)
swapped-IsShuffle n p i j hi hj v =
    let at_i : i < length p = omega (arith, v.count) in
    let at_j : j < length p = omega (arith, v.count) in
    record {
      count = length-swapped p i j at_i at_j ∙ v.count;
      below = λ k h.
          swapped-below p i j at_i at_j n k (λ q hq. v.below q (omega (arith, v.count)))
            (omega (arith, v.count));
      onto = λ d h.
          let (k, hk, e) = v.onto d h in
          let (q, hq, f) = swapped-onto p i j at_i at_j k (omega (arith, v.count)) in
          (q, omega (arith, v.count), f ∙ e);
    }

length-range : (start n : ℕ) → length (range start n) ≡ n
unfolding range
length-range start zero = refl
length-range start (suc n) = ap suc (length-range (start + 1) n)

get_or-range : (start n k : ℕ) → k < n → get_or (range start n) k 0 ≡ start + k
unfolding range
get_or-range start zero k h = absurd (omega arith)
get_or-range start (suc n) zero h = omega arith
get_or-range start (suc n) (suc k) h = omega (arith, get_or-range (start + 1) n k (omega arith))

pub range-IsShuffle : (n : ℕ) → IsShuffle n (range 0 n)
range-IsShuffle n = record {
  count = length-range 0 n;
  below = λ k h. omega (arith, get_or-range 0 n k h);
  onto = λ d h. (d, h, omega (arith, get_or-range 0 n d h));
}
