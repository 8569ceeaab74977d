-- ===== src/Fec/Viterbi/Chunks.antt =====
-- `slice::chunks`, as src/fec/viterbi.rs uses it: the pieces, their lengths, their concatenation.
use cryptovault.Common.{
  ℕ, zero, suc, ◌+◌, ◌*◌, ◌≤◌, ◌<◌, ◌≡◌, refl, ap, ap₂, ◌∙◌, List, [], ◌∷◌, ◌++◌, arith, length,
  take, drop, replicate, map, All, length-take, length-drop, take-append-drop, drop-all,
}
use cryptovault.Fec.Viterbi.{chunks_up_to, chunks}
use cryptovault.Fec.Viterbi.Framing.{last_piece}

abbrev pub concat : List (List ℕ) → List ℕ
concat [] = []
concat (c ∷ cs) = c ++ concat cs

chunks_up_to-lengths :
    (n : ℕ)
    → 1 ≤ n
    → (fuel q r : ℕ) (xs : List ℕ) → length xs ≡ q * n + r
    → r < n
    → length xs ≤ fuel
    → map length (chunks_up_to fuel n xs) ≡ replicate q n ++ last_piece r
unfolding chunks_up_to
chunks_up_to-lengths n pos fuel zero zero [] e h hf = refl
chunks_up_to-lengths n pos fuel zero (suc r) [] e h hf = absurd (omega arith)
chunks_up_to-lengths n pos fuel (suc q) r [] e h hf = absurd (omega arith)
chunks_up_to-lengths n pos zero q r (x ∷ xs) e h hf = absurd (omega arith)
chunks_up_to-lengths n pos (suc fuel) zero zero (x ∷ xs) e h hf = absurd (omega arith)
chunks_up_to-lengths n pos (suc fuel) zero (suc r) (x ∷ xs) e h hf =
    ap₂ (λ (k : ℕ) (cs : List (List ℕ)). k ∷ map length cs) (length-take n (x ∷ xs) ∙ omega arith)
      (ap (λ (l : List ℕ). chunks_up_to fuel n l) (drop-all n (x ∷ xs) (omega arith)))
chunks_up_to-lengths n pos (suc fuel) (suc q) r (x ∷ xs) e h hf =
    ap₂ ◌∷◌ (length-take n (x ∷ xs) ∙ omega arith) (
      chunks_up_to-lengths n pos fuel q r (drop n (x ∷ xs)) (length-drop n (x ∷ xs) ∙ omega arith) h
        (omega (arith, length-drop n (x ∷ xs))))

-- A list of `q * n + r` elements has `q` chunks of `n` and one of `r`, if `r` is not 0.
pub chunks-lengths :
    (n : ℕ) (xs : List ℕ) (q r : ℕ)
    → 1 ≤ n
    → length xs ≡ q * n + r
    → r < n
    → map length (chunks n xs) ≡ replicate q n ++ last_piece r
unfolding chunks
chunks-lengths n xs q r pos e h = chunks_up_to-lengths n pos (length xs) q r xs e h (omega arith)

concat-chunks_up_to :
    (n : ℕ)
    → 1 ≤ n
    → (fuel : ℕ) (xs : List ℕ) → length xs ≤ fuel
    → concat (chunks_up_to fuel n xs) ≡ xs
unfolding chunks_up_to
concat-chunks_up_to n pos fuel [] h = refl
concat-chunks_up_to n pos zero (x ∷ xs) h = absurd (omega arith)
concat-chunks_up_to n pos (suc fuel) (x ∷ xs) h =
    ap (λ (t : List ℕ). take n (x ∷ xs) ++ t)
      (concat-chunks_up_to n pos fuel (drop n (x ∷ xs)) (omega (arith, length-drop n (x ∷ xs))))
    ∙ take-append-drop n (x ∷ xs)

-- The chunks of a list make up the list.
pub concat-chunks : (n : ℕ) (xs : List ℕ) → 1 ≤ n → concat (chunks n xs) ≡ xs
unfolding chunks
concat-chunks n xs pos = concat-chunks_up_to n pos (length xs) xs (omega arith)

chunks_up_to-bounded :
    (n : ℕ)
    → 1 ≤ n
    → (fuel : ℕ) (xs : List ℕ) → All (λ c. (1 ≤ length c) × (length c ≤ n)) (chunks_up_to fuel n xs)
unfolding chunks_up_to
chunks_up_to-bounded n pos fuel [] = tt
chunks_up_to-bounded n pos zero (x ∷ xs) = tt
chunks_up_to-bounded n pos (suc fuel) (x ∷ xs) =
    (omega (arith, length-take n (x ∷ xs)), chunks_up_to-bounded n pos fuel (drop n (x ∷ xs)))

-- A chunk has at least one element and at most `n`.
pub chunks-bounded :
    (n : ℕ) (xs : List ℕ) → 1 ≤ n → All (λ c. (1 ≤ length c) × (length c ≤ n)) (chunks n xs)
unfolding chunks
chunks-bounded n xs pos = chunks_up_to-bounded n pos (length xs) xs
