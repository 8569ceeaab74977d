-- ===== src/Utf8/Decoded.antt =====
-- `&str`: the characters of a byte string that `core::str::from_utf8` accepts.
use cryptovault.Common.{
  ℕ, zero, suc, ◌+◌, ◌-◌, ◌*◌, ◌≤◌, ◌<◌, ◌≡◌, inl, inr, refl, ap, ap₂, ◌∙◌, List, [], ◌∷◌, ◌++◌,
  Option, none, some, ◌↔◌, ltb, arith, length, drop, All, dec_lt, lt→ltb, sym, Bool-cases,
  ℕ_discrete, length-append, subst,
}
use cryptovault.Utf8.{
  Utf8Error, Scan, width, invalid, incomplete, is_continuation, in_range, second_of_three,
  second_of_four, scan_tail, scan_second, scan_char, scan_from, from_utf8, IsUtf8,
}
use cryptovault.Utf8.Strings.{
  IsScalar, encode_char, encode_char-scan, encode_text, encode_text-IsUtf8,
}
use cryptovault.Utf8.Sequences.{
  encode_two, encode_three, encode_four, is_continuation-eq-true, second_of_three-eq-true,
  second_of_four-eq-true, scan_tail-eq-width, scan_second-eq-width,
}

-- The bytes begin with a character, and `k` bytes carry it.
record IsChar (bytes : List ℕ) (k : ℕ) : Type 0 where
  char : ℕ
  rest : List ℕ
  scalar : IsScalar char
  split : bytes ≡ encode_char char ++ rest
  passed : drop k bytes ≡ rest

scan_tail-done : (k m : ℕ) (bs : List ℕ) → scan_tail 0 k bs ≡ width m → k ≡ m
unfolding scan_tail
scan_tail-done k m bs h = cc

one-IsChar : (a k : ℕ) (bs : List ℕ) → a < 0x80 → 1 ≡ k → IsChar (a ∷ bs) k
one-IsChar a k bs h e = record {
  char = a;
  rest = bs;
  scalar = inl (omega arith);
  split = rw (lt→ltb a 0x80 h) refl;
  passed = ap (λ (n : ℕ). drop n (a ∷ bs)) (sym e);
}

two-IsChar :
    (a k : ℕ) (bs : List ℕ)
    → 0xC2 ≤ a
    → a ≤ 0xDF
    → scan_second is_continuation 0 bs ≡ width k
    → IsChar (a ∷ bs) k
two-IsChar a k bs lo hi h =
    let (b, rest, e, good, h1) = scan_second-eq-width is_continuation 0 k bs h in
    let (blo, bhi) = is_continuation-eq-true b good in
    record {
      char = (a - 0xC0) * 64 + (b - 0x80);
      rest = rest;
      scalar = inl (omega arith);
      split =
          ap (λ (t : List ℕ). a ∷ t) e
          ∙ ap (λ (t : List ℕ). t ++ rest) (sym (encode_two a b lo hi blo bhi));
      passed = ap₂ (λ (n : ℕ) (t : List ℕ). drop n (a ∷ t)) (sym (scan_tail-done 2 k rest h1)) e;
    }

-- Three bytes carry no surrogate.
three-IsScalar :
    (a b d : ℕ)
    → 0xE0 ≤ a
    → a ≤ 0xEF
    → 0x80 ≤ b
    → b ≤ 0xBF
    → 0x80 ≤ d
    → d ≤ 0xBF
    → (a ≡ 0xED → b ≤ 0x9F)
    → IsScalar ((a - 0xE0) * 4096 + (b - 0x80) * 64 + (d - 0x80))
three-IsScalar a b d lo hi blo bhi dlo dhi high = elim (dec_lt a 0xED) [
  | yes below ↦ inl (omega arith)
  | no above ↦ elim (ℕ_discrete a 0xED) [
    | yes e ↦ let small = high e in inl (omega arith)
    | no ne ↦ inr (omega arith, omega arith)
  ]
]

three-IsChar :
    (a k : ℕ) (bs : List ℕ)
    → 0xE0 ≤ a
    → a ≤ 0xEF
    → scan_second (second_of_three a) 1 bs ≡ width k
    → IsChar (a ∷ bs) k
three-IsChar a k bs lo hi h =
    let (b, bs1, e, good, h1) = scan_second-eq-width (second_of_three a) 1 k bs h in
    let (blo, bhi, low, high) = second_of_three-eq-true a b good in
    let (d, rest, e1, dlo, dhi, h2) = scan_tail-eq-width 0 2 k bs1 h1 in
    let whole : bs ≡ b ∷ d ∷ rest = e ∙ ap (λ (t : List ℕ). b ∷ t) e1 in
    let c = (a - 0xE0) * 4096 + (b - 0x80) * 64 + (d - 0x80) in
    let long : 0x800 ≤ c = grind (arith, low) in
    record {
      char = c;
      rest = rest;
      scalar = three-IsScalar a b d lo hi blo bhi dlo dhi high;
      split =
          ap (λ (t : List ℕ). a ∷ t) whole
          ∙ ap (λ (t : List ℕ). t ++ rest) (sym (encode_three a b d lo hi blo bhi dlo dhi long));
      passed =
          ap₂ (λ (n : ℕ) (t : List ℕ). drop n (a ∷ t)) (sym (scan_tail-done 3 k rest h2)) whole;
    }

four-IsChar :
    (a k : ℕ) (bs : List ℕ)
    → 0xF0 ≤ a
    → a ≤ 0xF4
    → scan_second (second_of_four a) 2 bs ≡ width k
    → IsChar (a ∷ bs) k
four-IsChar a k bs lo hi h =
    let (b, bs1, e, good, h1) = scan_second-eq-width (second_of_four a) 2 k bs h in
    let (blo, bhi, low, high) = second_of_four-eq-true a b good in
    let (d, bs2, e1, dlo, dhi, h2) = scan_tail-eq-width 1 2 k bs1 h1 in
    let (f, rest, e2, flo, fhi, h3) = scan_tail-eq-width 0 3 k bs2 h2 in
    let whole : bs ≡ b ∷ d ∷ f ∷ rest =
      e ∙ ap (λ (t : List ℕ). b ∷ t) (e1 ∙ ap (λ (t : List ℕ). d ∷ t) e2) in
    let c = (a - 0xF0) * 262144 + (b - 0x80) * 4096 + (d - 0x80) * 64 + (f - 0x80) in
    let long : 0x10000 ≤ c = grind (arith, low) in
    let top : c < 0x110000 = grind (arith, high) in
    record {
      char = c;
      rest = rest;
      scalar = inr (omega arith, top);
      split =
          ap (λ (t : List ℕ). a ∷ t) whole
          ∙ ap (λ (t : List ℕ). t ++ rest)
              (sym (encode_four a b d f lo hi blo bhi dlo dhi flo fhi long));
      passed =
          ap₂ (λ (n : ℕ) (t : List ℕ). drop n (a ∷ t)) (sym (scan_tail-done 4 k rest h3)) whole;
    }

scan_char-IsChar : (a k : ℕ) (bs : List ℕ) → scan_char a bs ≡ width k → IsChar (a ∷ bs) k
unfolding scan_char
scan_char-IsChar a k bs h = elim (Bool-cases (ltb a 0x80)) [
  | inl small ↦ one-IsChar a k bs (ground arith) (word (rw small at h))
  | inr big ↦ elim (Bool-cases (in_range 0xC2 0xDF a)) [
    | inl two ↦ two-IsChar a k bs (ground arith) (ground arith) (rw (big, two) at h)
    | inr not_two ↦ elim (Bool-cases (in_range 0xE0 0xEF a)) [
      | inl three ↦
          three-IsChar a k bs (ground arith) (ground arith) (rw (big, not_two, three) at h)
      | inr not_three ↦ elim (Bool-cases (in_range 0xF0 0xF4 a)) [
        | inl four ↦
            four-IsChar a k bs (ground arith) (ground arith)
              (rw (big, not_two, not_three, four) at h)
        | inr none_of_them ↦ absurd (stopped (rw (big, not_two, not_three, none_of_them) at h))
      ]
    ]
  ]
]
  where
    word : width 1 ≡ width k → 1 ≡ k
    word e = cc

    stopped : invalid 1 ≡ width k → ⊥
    stopped e = cc

-- The text of a list of characters.
abbrev pub IsString : List ℕ → Type 0
IsString bytes = (cs : List ℕ) × All (λ c. IsScalar c) cs × (encode_text cs ≡ bytes)

prepend : (bytes : List ℕ) (k : ℕ) → (c : IsChar bytes k) → IsString c.rest → IsString bytes
prepend bytes k c (cs, scalars, e) =
    (c.char ∷ cs, (c.scalar, scalars), ap (λ (t : List ℕ). encode_char c.char ++ t) e ∙ sym c.split)

shorter : (bytes : List ℕ) (k : ℕ) (c : IsChar bytes k) → length c.rest < length bytes
shorter bytes k c =
    let (a, bs, e, _) = encode_char-scan c.char c.scalar in
    omega (
      arith,
      ap (λ (t : List ℕ). length t) c.split,
      length-append (encode_char c.char) c.rest,
      ap (λ (t : List ℕ). length t) e,
    )

scan_from-IsString :
    (fuel i : ℕ) (bytes : List ℕ)
    → length bytes ≤ fuel
    → scan_from fuel i bytes ≡ none
    → IsString bytes
unfolding scan_from
scan_from-IsString fuel i [] long h = ([], tt, refl)
scan_from-IsString zero i (a ∷ bs) long h = absurd (omega arith)
scan_from-IsString (suc fuel) i (a ∷ bs) long h =
    by_scan (scan_char a bs) refl h (λ j t fits g. scan_from-IsString fuel j t fits g)
  where
    by_scan :
        (r : Scan)
        → scan_char a bs ≡ r
        → (elim r as (λ _. Option Utf8Error) [
          | width k ↦ scan_from fuel (i + k) (drop k (a ∷ bs))
          | invalid k ↦ some (record { valid_up_to = i; error_len = some k })
          | incomplete ↦ some (record { valid_up_to = i; error_len = none })
        ])
          ≡ none
        → ((j : ℕ) (t : List ℕ) → length t ≤ fuel → scan_from fuel j t ≡ none → IsString t)
        → IsString (a ∷ bs)
    by_scan (width k) e g again =
        let c = scan_char-IsChar a k bs e in
        prepend (a ∷ bs) k c (
          again (i + k) c.rest (omega (arith, shorter (a ∷ bs) k c))
            (ap (λ (t : List ℕ). scan_from fuel (i + k) t) (sym c.passed) ∙ g))
    by_scan (invalid k) e g again = cc
    by_scan incomplete e g again = cc

-- A byte string is valid exactly when it encodes a list of characters.
pub IsUtf8-iff : (bytes : List ℕ) → IsUtf8 bytes ↔ IsString bytes
unfolding from_utf8
IsUtf8-iff bytes = (
  λ h. scan_from-IsString (length bytes) 0 bytes (omega arith) h,
  λ (cs, scalars, e). subst (λ t. IsUtf8 t) e (encode_text-IsUtf8 cs scalars),
)
