-- ===== src/Fec/Interleaver/Windows.antt =====
-- One window of the loops of src/fec/interleaver.rs, and its permutation.
use cryptovault.Common.{
  some, subst, ℕ, zero, suc, ◌+◌, ◌≤◌, ◌<◌, ◌≡◌, refl, sym, ap, ◌∙◌, List, [], ◌∷◌, arith, length,
  get_elem?, get_or, set, length-set, get_elem?-set_self, get_elem?-set_ne, get_elem?-eq-get_or,
  ℕ_discrete,
}
use cryptovault.Error.{ok}
use cryptovault.Slice.{read-ok, write-ok}
use cryptovault.Fec.Interleaver.{gather, scatter}

-- `p` lists the numbers below `n`, each of them, as a reading order of `n` cells.
pub record IsShuffle (n : ℕ) (p : List ℕ) : Type 0 where
  pub count : length p ≡ n
  pub below : (k : ℕ) → k < n → get_or p k 0 < n
  pub onto : (d : ℕ) → d < n → (k : ℕ) × (k < n) × (get_or p k 0 ≡ d)

gather_step :
    (s : List ℕ) (base src : ℕ) (perm : List ℕ) (k : ℕ) (out : List ℕ)
    → base + src < length s
    → base + k < length out
    → gather s base (src ∷ perm) k out
      ≡ gather s base perm (k + 1) (set out (base + k) (get_or s (base + src) 0))
unfolding gather
gather_step s base src perm k out hs ho =
    ground (arith, read-ok s (base + src) hs, write-ok out (base + k) (get_or s (base + src) 0) ho)

pub scatter_step :
    (t : List ℕ) (base dst : ℕ) (perm : List ℕ) (k : ℕ) (out : List ℕ)
    → base + k < length t
    → base + dst < length out
    → scatter t base (dst ∷ perm) k out
      ≡ scatter t base perm (k + 1) (set out (base + dst) (get_or t (base + k) 0))
unfolding scatter
scatter_step t base dst perm k out ht ho =
    ground (arith, read-ok t (base + k) ht, write-ok out (base + dst) (get_or t (base + k) 0) ho)

-- What one gathered window is: `out'` at `base + k + j` holds the cell that `perm` names at `j`.
pub record Gathers (s : List ℕ) (base : ℕ) (perm : List ℕ) (k : ℕ) (out out' : List ℕ)
    : Type 0 where
  pub size : length out' ≡ length out
  pub cells :
      (j : ℕ)
      → j < length perm
      → get_elem? out' (base + k + j) ≡ get_elem? s (base + get_or perm j 0)
  pub before : (p : ℕ) → p < base + k → get_elem? out' p ≡ get_elem? out p

gather_cells :
    (s : List ℕ) (base src : ℕ) (perm : List ℕ) (k : ℕ) (out out' : List ℕ)
    → base + src < length s
    → base + k < length out
    → Gathers s base perm (k + 1) (set out (base + k) (get_or s (base + src) 0)) out'
    → (j : ℕ) → j < suc (length perm)
    → get_elem? out' (base + k + j) ≡ get_elem? s (base + get_or (src ∷ perm) j 0)
gather_cells s base src perm k out out' hs ho g zero h =
    g.before (base + k + 0) (omega arith)
    ∙ ap (λ (p : ℕ). get_elem? (set out (base + k) (get_or s (base + src) 0)) p) (omega arith)
    ∙ get_elem?-set_self out (base + k) (get_or s (base + src) 0) ho
    ∙ sym (get_elem?-eq-get_or s (base + src) 0 hs)
gather_cells s base src perm k out out' hs ho g (suc j) h =
    ap (λ (p : ℕ). get_elem? out' p) (omega arith) ∙ g.cells j (omega arith)

pub gather-Gathers :
    (s : List ℕ) (base : ℕ) (perm : List ℕ) (k : ℕ) (out : List ℕ)
    → ((j : ℕ) → j < length perm → base + get_or perm j 0 < length s)
    → base + k + length perm ≤ length out
    → (out' : List ℕ) × (gather s base perm k out ≡ ok out') × Gathers s base perm k out out'
gather-Gathers s base [] k out hs ho = (
  out,
  unfold gather in refl,
  record { size = refl; cells = λ j h. elim h [ ]; before = λ p h. refl },
)
gather-Gathers s base (src ∷ perm) k out hs ho =
    let v = get_or s (base + src) 0 in
    let at : base + src < length s = hs 0 (omega arith) in
    let (out', run, g) =
      gather-Gathers s base perm (k + 1) (set out (base + k) v) (λ j h. hs (suc j) (omega arith))
        (omega (arith, length-set out (base + k) v)) in
    (
      out',
      gather_step s base src perm k out at (omega arith) ∙ run,
      record {
        size = g.size ∙ length-set out (base + k) v;
        cells = gather_cells s base src perm k out out' at (omega arith) g;
        before = λ p h. g.before p (omega arith) ∙ get_elem?-set_ne out v (omega arith);
      },
    )

-- What one scattered window is, against the list `target` that is being rebuilt.
pub record Scatters (target : List ℕ) (base : ℕ) (perm : List ℕ) (out out' : List ℕ) : Type 0 where
  pub size : length out' ≡ length out
  pub cells :
      (j : ℕ)
      → j < length perm
      → get_elem? out' (base + get_or perm j 0) ≡ get_elem? target (base + get_or perm j 0)
  pub keeps : (p : ℕ) → get_elem? out p ≡ get_elem? target p → get_elem? out' p ≡ get_elem? target p

-- Writing the target's own value at a cell keeps every cell that agrees with the target.
set-keeps :
    (target out : List ℕ) (i v p : ℕ)
    → i < length out
    → get_elem? target i ≡ some v
    → get_elem? out p ≡ get_elem? target p
    → get_elem? (set out i v) p ≡ get_elem? target p
set-keeps target out i v p hi ht agree = elim (ℕ_discrete i p) [
  | yes e ↦
      subst (λ q. get_elem? (set out i v) q ≡ get_elem? target q) e
        (get_elem?-set_self out i v hi ∙ sym ht)
  | no ne ↦ get_elem?-set_ne out v ne ∙ agree
]

scatter_cells :
    (target : List ℕ) (base dst : ℕ) (perm out : List ℕ) (v : ℕ) (out' : List ℕ)
    → base + dst < length out
    → get_elem? target (base + dst) ≡ some v
    → Scatters target base perm (set out (base + dst) v) out'
    → (j : ℕ) → j < suc (length perm)
    → get_elem? out' (base + get_or (dst ∷ perm) j 0)
      ≡ get_elem? target (base + get_or (dst ∷ perm) j 0)
scatter_cells target base dst perm out v out' ho here g zero h =
    g.keeps (base + dst) (get_elem?-set_self out (base + dst) v ho ∙ sym here)
scatter_cells target base dst perm out v out' ho here g (suc j) h = g.cells j (omega arith)

pub scatter-Scatters :
    (t target : List ℕ) (base : ℕ) (perm : List ℕ) (k : ℕ) (out : List ℕ)
    → base + k + length perm ≤ length t
    → ((j : ℕ) → j < length perm → base + get_or perm j 0 < length out)
    → ((j : ℕ)
        → j < length perm
        → get_elem? t (base + k + j) ≡ get_elem? target (base + get_or perm j 0))
    → (out' : List ℕ) × (scatter t base perm k out ≡ ok out') × Scatters target base perm out out'
scatter-Scatters t target base [] k out ht ho hc = (
  out,
  unfold scatter in refl,
  record { size = refl; cells = λ j h. elim h [ ]; keeps = λ p h. h },
)
scatter-Scatters t target base (dst ∷ perm) k out ht ho hc =
    let v = get_or t (base + k) 0 in
    let at : base + dst < length out = ho 0 (omega arith) in
    let here : get_elem? target (base + dst) ≡ some v =
      sym (hc 0 (omega arith))
      ∙ ap (λ (p : ℕ). get_elem? t p) (omega arith)
      ∙ get_elem?-eq-get_or t (base + k) 0 (omega arith) in
    let out₁ = set out (base + dst) v in
    let same : length out₁ ≡ length out = length-set out (base + dst) v in
    let (out', run, g) =
      scatter-Scatters t target base perm (k + 1) out₁ (omega arith)
        (λ j h. rw same (ho (suc j) (omega arith)))
        (λ j h. ap (λ (p : ℕ). get_elem? t p) (omega arith) ∙ hc (suc j) (omega arith)) in
    (
      out',
      scatter_step t base dst perm k out (omega arith) at ∙ run,
      record {
        size = g.size ∙ same;
        cells = scatter_cells target base dst perm out v out' at here g;
        keeps = λ p h. g.keeps p (set-keeps target out (base + dst) v p at here h);
      },
    )
