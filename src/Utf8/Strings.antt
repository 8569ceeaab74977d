-- ===== src/Utf8/Strings.antt =====
-- `&str`: the encoding of Unicode scalar values, and what `core::str::from_utf8` says of it.
use cryptovault.Common.{
  ℕ, zero, suc, ◌+◌, ◌/◌, ◌%◌, ◌≤◌, ◌<◌, ◌≡◌, ◌⊎◌, inl, inr, refl, ap, ◌∙◌, List, [], ◌∷◌, ◌++◌,
  none, true, ltb, if◌then◌else◌, arith, length, All, dec_lt, lt→ltb, le→ltb, drop-append_left,
  length-append,
}
use cryptovault.Utf8.{
  width, second_of_three, second_of_four, scan_tail, scan_second, scan_char, scan_from, from_utf8,
  IsUtf8,
}

-- A `char`.
abbrev pub IsScalar : ℕ → Type 0
IsScalar c = (c < 0xD800) ⊎ ((0xE000 ≤ c) × (c < 0x110000))

-- `char::encode_utf8`
abbrev pub encode_char : ℕ → List ℕ
encode_char c =
    if ltb c 0x80
    then c ∷ []
    else if ltb c 0x800
    then (0xC0 + c / 64) ∷ (0x80 + c % 64) ∷ []
    else if ltb c 0x10000
    then (0xE0 + c / 4096) ∷ (0x80 + c / 64 % 64) ∷ (0x80 + c % 64) ∷ []
    else (0xF0 + c / 262144) ∷ (0x80 + c / 4096 % 64) ∷ (0x80 + c / 64 % 64) ∷ (0x80 + c % 64) ∷ []

scan_one : (a : ℕ) (bs : List ℕ) → a < 0x80 → scan_char a bs ≡ width 1
unfolding scan_char
scan_one a bs h = ground arith

scan_two :
    (a b : ℕ) (bs : List ℕ)
    → 0xC2 ≤ a
    → a ≤ 0xDF
    → 0x80 ≤ b
    → b ≤ 0xBF
    → scan_char a (b ∷ bs) ≡ width 2
unfolding scan_char scan_second scan_tail
scan_two a b bs lo hi blo bhi = ground arith

scan_three :
    (a b c : ℕ) (bs : List ℕ)
    → 0xE0 ≤ a
    → a ≤ 0xEF
    → second_of_three a b ≡ true
    → 0x80 ≤ c
    → c ≤ 0xBF
    → scan_char a (b ∷ c ∷ bs) ≡ width 3
unfolding scan_char scan_second scan_tail
scan_three a b c bs lo hi fits clo chi = ground arith

scan_four :
    (a b c d : ℕ) (bs : List ℕ)
    → 0xF0 ≤ a
    → a ≤ 0xF4
    → second_of_four a b ≡ true
    → 0x80 ≤ c
    → c ≤ 0xBF
    → 0x80 ≤ d
    → d ≤ 0xBF
    → scan_char a (b ∷ c ∷ d ∷ bs) ≡ width 4
unfolding scan_char scan_second scan_tail
scan_four a b c d bs lo hi fits clo chi dlo dhi = ground arith

second_three :
    (c : ℕ)
    → IsScalar c
    → 0x800 ≤ c
    → c < 0x10000
    → second_of_three (0xE0 + c / 4096) (0x80 + c / 64 % 64) ≡ true
unfolding second_of_three
second_three c s lo hi = ground arith

second_four :
    (c : ℕ)
    → 0x10000 ≤ c
    → c < 0x110000
    → second_of_four (0xF0 + c / 262144) (0x80 + c / 4096 % 64) ≡ true
unfolding second_of_four
second_four c lo hi = ground arith

-- The scan passes an encoded character, whatever follows it.
pub encode_char-scan :
    (c : ℕ)
    → IsScalar c
    → (a : ℕ) × (bs : List ℕ) × (encode_char c ≡ a ∷ bs)
      × ((rest : List ℕ) → scan_char a (bs ++ rest) ≡ width (suc (length bs)))
encode_char-scan c s = elim (dec_lt c 0x80) [
  | yes h ↦ (c, [], rw (lt→ltb c 0x80 h) refl, λ rest. scan_one c rest h)
  | no h ↦ elim (dec_lt c 0x800) [
    | yes k ↦ (
      0xC0 + c / 64,
      (0x80 + c % 64) ∷ [],
      rw (le→ltb c 0x80 (omega arith), lt→ltb c 0x800 k) refl,
      λ rest. scan_two _ _ rest (omega arith) (omega arith) (omega arith) (omega arith),
    )
    | no k ↦ elim (dec_lt c 0x10000) [
      | yes l ↦ (
        0xE0 + c / 4096,
        (0x80 + c / 64 % 64) ∷ (0x80 + c % 64) ∷ [],
        rw (le→ltb c 0x80 (omega arith), le→ltb c 0x800 (omega arith), lt→ltb c 0x10000 l) refl,
        λ rest.
            scan_three _ _ _ rest (omega arith) (omega arith) (second_three c s (omega arith) l)
              (omega arith) (omega arith),
      )
      | no l ↦ (
        0xF0 + c / 262144,
        (0x80 + c / 4096 % 64) ∷ (0x80 + c / 64 % 64) ∷ (0x80 + c % 64) ∷ [],
        rw
            (
              le→ltb c 0x80 (omega arith),
              le→ltb c 0x800 (omega arith),
              le→ltb c 0x10000 (omega arith),
            )
            refl,
        λ rest.
            let top = scalar_top c s in
            scan_four _ _ _ _ rest (omega arith) (omega arith) (second_four c (omega arith) top)
              (omega arith) (omega arith) (omega arith) (omega arith),
      )
    ]
  ]
]
  where
    scalar_top : (n : ℕ) → IsScalar n → n < 0x110000
    scalar_top n (inl low) = omega arith
    scalar_top n (inr (_, high)) = high

-- `String`: the characters, one after the other.
abbrev pub encode_text : List ℕ → List ℕ
encode_text [] = []
encode_text (c ∷ cs) = encode_char c ++ encode_text cs

-- A character that the scan passes, before a text that it passes.
char_passes :
    (a : ℕ) (bs rest : List ℕ) (fuel i : ℕ)
    → scan_char a (bs ++ rest) ≡ width (suc (length bs))
    → length bs + length rest < fuel
    → ((f j : ℕ) → length rest ≤ f → scan_from f j rest ≡ none)
    → scan_from fuel i (a ∷ (bs ++ rest)) ≡ none
unfolding scan_from
char_passes a bs rest zero i scan long passes = absurd (omega arith)
char_passes a bs rest (suc fuel) i scan long passes =
    rw (scan, scan_from, drop-append_left bs rest) (passes fuel (i + suc (length bs)) (omega arith))

encode_text-passes :
    (cs : List ℕ) (fuel i : ℕ)
    → All (λ c. IsScalar c) cs
    → length (encode_text cs) ≤ fuel
    → scan_from fuel i (encode_text cs) ≡ none
encode_text-passes [] fuel i h long = unfold scan_from in refl
encode_text-passes (c ∷ cs) fuel i (s, h) long =
    let (a, bs, e, scan) = encode_char-scan c s in
    let size : length (encode_text (c ∷ cs)) ≡ suc (length bs) + length (encode_text cs) =
      omega
        (arith, length-append (encode_char c) (encode_text cs), ap (λ (t : List ℕ). length t) e) in
    ap (λ (t : List ℕ). scan_from fuel i (t ++ encode_text cs)) e
    ∙ char_passes a bs (encode_text cs) fuel i (scan (encode_text cs)) (omega arith)
        (λ f j hf. encode_text-passes cs f j h hf)

-- Every string is valid.
pub encode_text-IsUtf8 : (cs : List ℕ) → All (λ c. IsScalar c) cs → IsUtf8 (encode_text cs)
unfolding from_utf8
encode_text-IsUtf8 cs h = encode_text-passes cs (length (encode_text cs)) 0 h (omega arith)
