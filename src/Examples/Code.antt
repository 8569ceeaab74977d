-- ===== src/Examples/Code.antt =====
-- Lists of numbers as numbers, to build small crates from.
use cryptovault.Common.{
  ℕ, zero, suc, ◌+◌, ◌*◌, ◌/◌, ◌%◌, ◌≤◌, ◌≡◌, refl, sym, ap, ap₂, ◌∙◌, List, [], ◌∷◌, ◌==◌,
  if◌then◌else◌, arith,
}

-- A digit 1 for each unit of an element, and a 2 for its end, in base 3.
push : ℕ → ℕ → ℕ
push zero n = 3 * n + 2
push (suc x) n = 3 * push x n + 1

unfoldable pub code : List ℕ → ℕ
unfolding push
code [] = 0
code (x ∷ xs) = push x (code xs)

-- The digits are read back, with the element so far.
read_back : ℕ → ℕ → ℕ → List ℕ
read_back zero n acc = []
read_back (suc fuel) n acc =
    let same = read_back fuel (n / 3) (acc + 1) in
    let next = read_back fuel (n / 3) 0 in
    if n % 3 == 0 then [] else if n % 3 == 1 then same else acc ∷ next

unfoldable pub decode : ℕ → List ℕ
unfolding read_back
decode n = read_back n n 0

read_back-push :
    (fuel x : ℕ) (xs : List ℕ) (acc : ℕ)
    → push x (code xs) ≤ fuel
    → read_back fuel (push x (code xs)) acc ≡ (acc + x) ∷ xs
unfolding read_back push code
read_back-push zero zero xs acc h = absurd (omega arith)
read_back-push zero (suc x) xs acc h = absurd (omega arith)
read_back-push (suc fuel) zero [] acc h = none_left fuel acc
  where
    empty : (f : ℕ) → read_back f 0 0 ≡ []
    empty zero = refl
    empty (suc f) = refl

    none_left : (f a : ℕ) → a ∷ read_back f 0 0 ≡ (a + 0) ∷ []
    none_left f a = ap₂ ◌∷◌ (omega arith) (empty f)
read_back-push (suc fuel) zero (y ∷ ys) acc h =
    let m = push y (code ys) in
    let two : (3 * m + 2) % 3 ≡ 2 = omega arith in
    let quot : (3 * m + 2) / 3 ≡ m = omega arith in
    rw (two, quot)
      (ap₂ ◌∷◌ (omega arith)
        (read_back-push fuel y ys 0 (omega arith) ∙ ap (λ (n : ℕ). n ∷ ys) (omega arith)))
read_back-push (suc fuel) (suc x) xs acc h =
    let m = push x (code xs) in
    let one : (3 * m + 1) % 3 ≡ 1 = omega arith in
    let quot : (3 * m + 1) / 3 ≡ m = omega arith in
    rw (one, quot)
      (read_back-push fuel x xs (acc + 1) (omega arith) ∙ ap (λ (n : ℕ). n ∷ xs) (omega arith))

pub decode-code : (xs : List ℕ) → decode (code xs) ≡ xs
unfolding decode code
decode-code [] = refl
decode-code (x ∷ xs) =
    read_back-push (push x (code xs)) x xs 0 (omega arith) ∙ ap (λ (n : ℕ). n ∷ xs) (omega arith)

pub code-injective : (xs ys : List ℕ) → code xs ≡ code ys → xs ≡ ys
code-injective xs ys e = sym (decode-code xs) ∙ ap decode e ∙ decode-code ys
