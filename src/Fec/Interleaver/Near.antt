-- ===== src/Fec/Interleaver/Near.antt =====
-- src/fec/interleaver.rs: de-interleaving two streams that differ in few places.
use cryptovault.Common.{
  ℕ, zero, suc, ◌+◌, ◌-◌, ◌%◌, ◌^◌, ◌≤◌, ◌<◌, ◌≡◌, refl, ap, ◌∙◌, min, List, [], ◌∷◌, ◌==◌,
  if◌then◌else◌, arith, length, drop, get_or, set, replicate, length-set, length-replicate, dec_lt,
}
use cryptovault.Error.{Result, ok}
use cryptovault.Fec.Interleaver.{scatter, each_window, deinterleave_windows}
use cryptovault.Fec.Interleaver.Windows.{scatter_step}
use cryptovault.Fec.Interleaver.Loops.{Shuffles, each_window_done, each_window_step}
use cryptovault.Fec.ReedSolomon.Laws.{distance, distance_self, distance_nil}

-- One place where two streams may differ.
abbrev differs : ℕ → ℕ → ℕ
differs x y = if x == y then 0 else 1

-- The places from `i` on where two streams differ.
abbrev ahead : List ℕ → List ℕ → ℕ → ℕ
ahead s t i = distance (drop i s) (drop i t)

ahead_step :
    (s t : List ℕ) (i : ℕ)
    → i < length s
    → i < length t
    → ahead s t i ≡ differs (get_or s i 0) (get_or t i 0) + ahead s t (suc i)
ahead_step [] t i h k = absurd (omega arith)
ahead_step (x ∷ s) [] i h k = absurd (omega arith)
ahead_step (x ∷ s) (y ∷ t) zero h k = refl
ahead_step (x ∷ s) (y ∷ t) (suc i) h k = ahead_step s t i (omega arith) (omega arith)

-- Writing one cell of both adds at most one place.
distance-set :
    (s t : List ℕ) (i v w : ℕ)
    → length s ≡ length t
    → distance (set s i v) (set t i w) ≤ distance s t + differs v w
distance-set [] [] i v w h = omega arith
distance-set [] (y ∷ t) i v w h = absurd (omega arith)
distance-set (x ∷ s) [] i v w h = absurd (omega arith)
distance-set (x ∷ s) (y ∷ t) zero v w h = omega arith
distance-set (x ∷ s) (y ∷ t) (suc i) v w h = omega (arith, distance-set s t i v w (omega arith))

-- Two runs of a loop over streams `s` and `t`, from the place `i` to the place `j`: what they wrote
-- differs in no more places than what there was before, and the cells that they read.
record IsNear (s t out_s out_t new_s new_t : List ℕ) (i j : ℕ) : Type 0 where
  size_s : length new_s ≡ length out_s
  size_t : length new_t ≡ length out_t
  near : distance new_s new_t + ahead s t j ≤ distance out_s out_t + ahead s t i

scatter-IsNear :
    (s t : List ℕ) (base : ℕ) (perm : List ℕ) (k : ℕ) (out_s out_t : List ℕ)
    → length s ≡ length t
    → length out_s ≡ length out_t
    → base + k + length perm ≤ length t
    → ((j : ℕ) → j < length perm → base + get_or perm j 0 < length out_t)
    → (new_s : List ℕ) × (new_t : List ℕ) × (scatter s base perm k out_s ≡ ok new_s)
      × (scatter t base perm k out_t ≡ ok new_t)
      × IsNear s t out_s out_t new_s new_t (base + k) (base + k + length perm)
scatter-IsNear s t base [] k out_s out_t same outs ht ho = (
  out_s,
  out_t,
  unfold scatter in refl,
  unfold scatter in refl,
  record {
    size_s = refl;
    size_t = refl;
    near =
        omega (arith, ap (λ (i : ℕ). ahead s t i) {x = base + k + 0} {y = base + k} (omega arith));
  },
)
scatter-IsNear s t base (dst ∷ perm) k out_s out_t same outs ht ho =
    let v = get_or s (base + k) 0 in
    let w = get_or t (base + k) 0 in
    let here = ho 0 (omega arith) in
    let mid_s = set out_s (base + dst) v in
    let mid_t = set out_t (base + dst) w in
    let len_s : length mid_s ≡ length out_s = length-set out_s (base + dst) v in
    let len_t : length mid_t ≡ length out_t = length-set out_t (base + dst) w in
    let (new_s, new_t, run_s, run_t, n) =
      scatter-IsNear s t base perm (k + 1) mid_s mid_t same (omega arith) (omega arith)
        (λ j h. omega (arith, len_t, ho (suc j) (omega arith))) in
    (
      new_s,
      new_t,
      scatter_step s base dst perm k out_s (omega arith) (omega arith) ∙ run_s,
      scatter_step t base dst perm k out_t (omega arith) here ∙ run_t,
      record {
        size_s = n.size_s ∙ len_s;
        size_t = n.size_t ∙ len_t;
        near = omega (
          arith,
          n.near,
          distance-set out_s out_t (base + dst) v w outs,
          ahead_step s t (base + k) (omega arith) (omega arith),
          ap (λ (i : ℕ). ahead s t i) {x = suc (base + k)} {y = base + (k + 1)} (omega arith),
          ap (λ (i : ℕ). ahead s t i) {x = base + (k + 1) + length perm}
              {y = base + k + length (dst ∷ perm)} (omega arith),
        );
      },
    )

-- Past the end there is nothing to differ.
ahead_done : (s t : List ℕ) (i : ℕ) → length s ≤ i → ahead s t i ≡ 0
ahead_done [] t zero h = refl
ahead_done [] t (suc i) h = refl
ahead_done (x ∷ s) t zero h = absurd (omega arith)
ahead_done (x ∷ s) [] (suc i) h = distance_nil (drop i s)
ahead_done (x ∷ s) (y ∷ t) (suc i) h = ahead_done s t i (omega arith)

module _ (window_perm : ℕ → ℕ → Result (List ℕ)) (win : ℕ) (pos : 0 < win)
    (shuffles : Shuffles window_perm win) where
  -- Two runs of the loop from the same window on.
  loop-IsNear :
      (fuel base w : ℕ) (s t out_s out_t : List ℕ)
      → length s ≡ length t
      → length out_s ≡ length s
      → length out_t ≡ length t
      → length t ≤ base + fuel
      → (new_s : List ℕ) × (new_t : List ℕ) × (each_window window_perm win scatter s fuel base w
            out_s
          ≡ ok new_s)
        × (each_window window_perm win scatter t fuel base w out_t ≡ ok new_t)
        × IsNear s t out_s out_t new_s new_t base (length s)
  loop-IsNear zero base w s t out_s out_t same hs ht hf = (
    out_s,
    out_t,
    each_window_done window_perm win scatter s zero base w out_s (omega arith),
    each_window_done window_perm win scatter t zero base w out_t (omega arith),
    record {
      size_s = refl;
      size_t = refl;
      near =
          omega (arith, ahead_done s t (length s) (omega arith), ahead_done s t base (omega arith));
    },
  )
  loop-IsNear (suc fuel) base w s t out_s out_t same hs ht hf = elim (dec_lt base (length t)) [
    | yes more ↦
        let filled = min (length t - base) win in
        let equal : min (length s - base) win ≡ filled = rw same in
        let (p, ep, shuffle) = shuffles filled w (omega arith) in
        let (mid_s, mid_t, em_s, em_t, m) =
          scatter-IsNear s t base p 0 out_s out_t same (omega arith) (omega (arith, shuffle.count))
            (λ j h. omega (arith, shuffle.count, shuffle.below j (omega (arith, shuffle.count)))) in
        let (new_s, new_t, run_s, run_t, n) =
          loop-IsNear fuel (base + filled) ((w + 1) % 2 ^ 64) s t mid_s mid_t same (m.size_s ∙ hs)
            (m.size_t ∙ ht) (omega arith) in
        (
          new_s,
          new_t,
          each_window_step window_perm win scatter s fuel base w filled out_s (omega arith) equal ep
                em_s
              ∙ run_s,
          each_window_step window_perm win scatter t fuel base w filled out_t more refl ep em_t
              ∙ run_t,
          record {
            size_s = n.size_s ∙ m.size_s;
            size_t = n.size_t ∙ m.size_t;
            near = omega (
              arith,
              n.near,
              m.near,
              ap (λ (i : ℕ). ahead s t i) {x = base + 0} {y = base} (omega arith),
              ap (λ (i : ℕ). ahead s t i) {x = base + 0 + length p} {y = base + filled}
                  (omega (arith, shuffle.count)),
            );
          },
        )
    | no done ↦ (
      out_s,
      out_t,
      each_window_done window_perm win scatter s (suc fuel) base w out_s (omega arith),
      each_window_done window_perm win scatter t (suc fuel) base w out_t (omega arith),
      record {
        size_s = refl;
        size_t = refl;
        near =
            omega
              (arith, ahead_done s t (length s) (omega arith), ahead_done s t base (omega arith));
      },
    )
  ]

  -- De-interleaving returns on both streams, and what it returns differs in no more places.
  pub deinterleave_windows_near :
      (s t : List ℕ)
      → length s ≡ length t
      → (new_s : List ℕ) × (new_t : List ℕ) × (deinterleave_windows window_perm win s ≡ ok new_s)
        × (deinterleave_windows window_perm win t ≡ ok new_t)
        × (length new_s ≡ length s)
        × (length new_t ≡ length t)
        × (distance new_s new_t ≤ distance s t)
  unfolding deinterleave_windows
  deinterleave_windows_near s t same =
      let zeros_s : List ℕ = replicate (length s) 0 in
      let zeros_t : List ℕ = replicate (length t) 0 in
      let (new_s, new_t, run_s, run_t, n) =
        loop-IsNear (length t) 0 0 s t zeros_s zeros_t same (length-replicate (length s) 0)
          (length-replicate (length t) 0) (omega arith) in
      (
        new_s,
        new_t,
        ap (λ (n : ℕ). each_window window_perm win scatter s n 0 0 zeros_s) same ∙ run_s,
        run_t,
        n.size_s ∙ length-replicate (length s) 0,
        n.size_t ∙ length-replicate (length t) 0,
        omega (
          arith,
          n.near,
          distance_self zeros_t,
          ap (λ (k : ℕ). distance (replicate k 0) zeros_t) same,
        ),
      )
