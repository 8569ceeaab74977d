-- ===== src/Fec/Interleaver/Total.antt =====
-- The de-interleaving loop of src/fec/interleaver.rs on a stream that no interleaver wrote.
use cryptovault.Common.{
  ℕ, zero, suc, ◌+◌, ◌-◌, ◌%◌, ◌^◌, ◌≤◌, ◌<◌, ◌≡◌, refl, ◌∙◌, min, List, [], ◌∷◌, arith, length,
  get_or, set, replicate, length-set, length-replicate, dec_lt,
}
use cryptovault.Error.{Result, ok}
use cryptovault.Fec.Interleaver.{scatter, each_window, deinterleave_windows}
use cryptovault.Fec.Interleaver.Windows.{scatter_step}
use cryptovault.Fec.Interleaver.Loops.{Shuffles, each_window_done, each_window_step}

scatter_total :
    (t : List ℕ) (base : ℕ) (perm : List ℕ) (k : ℕ) (out : List ℕ)
    → base + k + length perm ≤ length t
    → ((j : ℕ) → j < length perm → base + get_or perm j 0 < length out)
    → (out' : List ℕ) × (scatter t base perm k out ≡ ok out') × (length out' ≡ length out)
scatter_total t base [] k out ht ho = (out, unfold scatter in refl, refl)
scatter_total t base (dst ∷ perm) k out ht ho =
    let v = get_or t (base + k) 0 in
    let same : length (set out (base + dst) v) ≡ length out = length-set out (base + dst) v in
    let (out', run, size) =
      scatter_total t base perm (k + 1) (set out (base + dst) v) (omega arith)
        (λ j h. omega (arith, same, ho (suc j) (omega arith))) in
    (out', scatter_step t base dst perm k out (omega arith) (ho 0 (omega arith)) ∙ run, size ∙ same)

module _ (window_perm : ℕ → ℕ → Result (List ℕ)) (win : ℕ) (pos : 0 < win)
    (shuffles : Shuffles window_perm win) where
  scatter_loop :
      (fuel base w : ℕ) (t out : List ℕ)
      → length t ≤ base + fuel
      → length out ≡ length t
      → (s : List ℕ) × (each_window window_perm win scatter t fuel base w out ≡ ok s)
        × (length s ≡ length t)
  scatter_loop zero base w t out hf ho =
      (out, each_window_done window_perm win scatter t zero base w out (omega arith), ho)
  scatter_loop (suc fuel) base w t out hf ho = elim (dec_lt base (length t)) [
    | yes more ↦
        let filled = min (length t - base) win in
        let (p, ep, shuffle) = shuffles filled w (omega arith) in
        let (out', em, size) =
          scatter_total t base p 0 out (omega (arith, shuffle.count))
            (λ j h. omega (arith, shuffle.count, shuffle.below j (omega (arith, shuffle.count)))) in
        let (s, run, size') =
          scatter_loop fuel (base + filled) ((w + 1) % 2 ^ 64) t out' (omega arith) (size ∙ ho) in
        (
          s,
          each_window_step window_perm win scatter t fuel base w filled out more refl ep em ∙ run,
          size',
        )
    | no done ↦
        (out, each_window_done window_perm win scatter t (suc fuel) base w out (omega arith), ho)
  ]

  -- The de-interleaving loop returns on every stream, with a stream of the same length.
  pub deinterleave_windows_total :
      (t : List ℕ)
      → (s : List ℕ) × (deinterleave_windows window_perm win t ≡ ok s) × (length s ≡ length t)
  unfolding deinterleave_windows
  deinterleave_windows_total t =
      scatter_loop (length t) 0 0 t (replicate (length t) 0) (omega arith)
        (length-replicate (length t) 0)
