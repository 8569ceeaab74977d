-- ===== src/Xtask/Finds.antt =====
-- What `find` of Xtask/Text finds.
use mathlib.Core.List.{Memᴰ}
use mathlib.Core.List.Memᴰ
use cryptovault.Common.{
  ℕ, zero, suc, ◌+◌, ◌≤◌, ◌≡◌, refl, sym, ap, ◌∙◌, some, List, [], ◌∷◌, ◌++◌, inl, inr, length,
  drop, arith, append_assoc, Option-cases, subst, length-append,
}
use cryptovault.Xtask.Text.{strip_prefix, find}
use cryptovault.Xtask.Trims.{strip_prefix-append, strip_prefix-eq-some}

drop-length_append : {A : Type 0} (s t : List A) → drop (length s) (s ++ t) ≡ t
drop-length_append [] t = refl
drop-length_append (a ∷ s) t = drop-length_append s t

Memᴰ-drop :
    {A : Type 0} {a : A} (n : ℕ) (s t : List A) → n ≤ length s → Memᴰ a t → Memᴰ a (drop n (s ++ t))
Memᴰ-drop zero s t h m = Memᴰ.append_right s m
Memᴰ-drop (suc n) [] t h m = absurd (omega arith)
Memᴰ-drop (suc n) (b ∷ s) t h m = Memᴰ-drop n s t (omega arith) m

find_here : (m s : List ℕ) {rest : List ℕ} → strip_prefix m s ≡ some rest → find m s ≡ some 0
unfolding find
find_here m [] h = rw h
find_here m (c ∷ s) h = rw h

-- A match at the start.
starts_here :
    (m s rest : List ℕ) (k : ℕ)
    → strip_prefix m s ≡ some rest
    → k ≡ 0
    → s ≡ m ++ drop (k + length m) s
starts_here m s rest k e z =
    let whole = strip_prefix-eq-some m s e in
    let n : length m ≡ k + length m = omega arith in
    whole
    ∙ ap (λ t. m ++ t)
        (sym (
          ap (λ t. drop (k + length m) t) whole
          ∙ subst (λ j. drop j (m ++ rest) ≡ rest) n (drop-length_append m rest)))

drop-later : (j n c : ℕ) (s : List ℕ) → drop (suc j + n) (c ∷ s) ≡ drop (j + n) s
drop-later j n c s = let e : suc j + n ≡ suc (j + n) = omega arith in rw e

-- What `find` finds is there.
pub find-eq-some :
    (m s : List ℕ) (k : ℕ)
    → find m s ≡ some k
    → (pre : List ℕ) × (s ≡ pre ++ (m ++ drop (k + length m) s))
unfolding find
find-eq-some m [] k h = elim (Option-cases (strip_prefix m [])) [
  | inl absent ↦ cc (rw absent at h)
  | inr (rest, e) ↦ ([], starts_here m [] rest k e (cc (rw e at h)))
]
find-eq-some m (c ∷ s) k h = elim (Option-cases (strip_prefix m (c ∷ s))) [
  | inr (rest, e) ↦ ([], starts_here m (c ∷ s) rest k e (cc (rw e at h)))
  | inl absent ↦ elim (Option-cases (find m s)) [
    | inl none_later ↦ cc (rw (absent, none_later) at h)
    | inr (j, f) ↦
        let (pre, split) = find-eq-some m s j f in
        let place : suc j ≡ k = cc (rw (absent, f) at h) in
        (
          c ∷ pre,
          subst (λ i. c ∷ s ≡ c ∷ (pre ++ (m ++ drop (i + length m) (c ∷ s)))) place
              (ap (λ t. c ∷ t)
                (split ∙ ap (λ t. pre ++ (m ++ t)) (sym (drop-later j (length m) c s)))),
        )
  ]
]

-- What is there is found, there or before.
pub find-after :
    (m pre post : List ℕ) (c : ℕ)
    → Memᴰ c post
    → (k : ℕ) × (find m (pre ++ (m ++ post)) ≡ some k)
      × Memᴰ c (drop (k + length m) (pre ++ (m ++ post)))
unfolding find
find-after m [] post c mem =
    let here : 0 + length m ≡ length m = omega arith in
    (
      0,
      find_here m (m ++ post) (strip_prefix-append m post),
      subst (λ t. Memᴰ c t)
          (sym (ap (λ (n : ℕ). drop n (m ++ post)) here ∙ drop-length_append m post)) mem,
    )
find-after m (d ∷ pre) post c mem =
    elim (Option-cases (strip_prefix m (d ∷ (pre ++ (m ++ post))))) [
      | inr (rest, e) ↦
          let apart : d ∷ (pre ++ (m ++ post)) ≡ (d ∷ (pre ++ m)) ++ post =
            ap (λ t. d ∷ t) (sym (append_assoc pre m post)) in
          (
            0,
            find_here m (d ∷ (pre ++ (m ++ post))) e,
            subst (λ t. Memᴰ c (drop (0 + length m) t)) (sym apart)
                (Memᴰ-drop (0 + length m) (d ∷ (pre ++ m)) post (omega (arith, length-append pre m))
                  mem),
          )
      | inl absent ↦
          let (k, f, found) = find-after m pre post c mem in
          (
            suc k,
            rw (absent, f),
            subst (λ t. Memᴰ c t) (sym (drop-later k (length m) d (pre ++ (m ++ post)))) found,
          )
    ]
