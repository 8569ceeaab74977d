-- ===== src/Fec/Viterbi/Framing.antt =====
-- src/fec/viterbi.rs: the length arithmetic of the sub-blocks.
use cryptovault.Common.{
  ℕ, zero, suc, ◌+◌, ◌-◌, ◌*◌, ◌/◌, ◌%◌, ◌<◌, ◌≡◌, ◌≢◌, refl, sym, ap, ◌∙◌, ◌⊎◌, ◌↔◌, inl, inr,
  List, [], ◌∷◌, ◌++◌, append-nil, arith, replicate, ℕ_discrete, dec_lt, map,
}
use cryptovault.Consts.{viterbi_chunk, div_ceil}
use cryptovault.Error.{ok, err, invalid_input, ok-injective}
use cryptovault.Slice.{checked_sub-ok}
use cryptovault.Fec.Viterbi.{
  full_chunk_body, chunk_body_lengths, info_lengths, sum, rs_len_from_body,
}

-- The length of what `ViterbiCodec::encode` writes for a stream of `l` bytes, as its comment
-- states it.
abbrev pub coded_len : ℕ → ℕ
coded_len l = 2 * l + 2 * div_ceil l viterbi_chunk

-- The sub-blocks of a stream of `q` full pieces and `r` further bytes.
abbrev pub last_piece : ℕ → List ℕ
last_piece zero = []
last_piece (suc r) = suc r ∷ []

abbrev pub body_of : ℕ → ℕ
body_of l = 2 * l + 2

pub sum-replicate : (q c r : ℕ) → sum (replicate q c ++ last_piece r) ≡ q * c + r
unfolding sum
sum-replicate zero c zero = omega arith
sum-replicate zero c (suc r) = omega arith
sum-replicate (suc q) c r = omega (arith, sum-replicate q c r)

pub sum-bodies :
    (q r : ℕ)
    → sum (map body_of (replicate q viterbi_chunk ++ last_piece r))
      ≡ q * body_of viterbi_chunk + sum (map body_of (last_piece r))
unfolding sum
sum-bodies zero r = omega arith
sum-bodies (suc q) r = omega (arith, sum-bodies q r)

pub sum-last : (r : ℕ) → r < viterbi_chunk → sum (map body_of (last_piece r)) ≡ coded_len r
unfolding sum
sum-last zero h = refl
sum-last (suc r) h = omega arith

map-replicate :
    (q r : ℕ)
    → map body_of (replicate q viterbi_chunk ++ last_piece r)
      ≡ replicate q full_chunk_body ++ map body_of (last_piece r)
map-replicate zero r = refl
map-replicate (suc q) r = ap (λ (t : List ℕ). full_chunk_body ∷ t) (map-replicate q r)

bodies_full :
    (n q : ℕ)
    → n ≡ q * full_chunk_body
    → chunk_body_lengths n ≡ ok (replicate q full_chunk_body ++ [])
unfolding chunk_body_lengths
bodies_full n q e =
    let quot : n / full_chunk_body ≡ q = omega arith in
    let rem : n % full_chunk_body ≡ 0 = omega arith in rw (rem, quot, append-nil)

bodies_partial :
    (n q r : ℕ)
    → n ≡ q * full_chunk_body + (2 * suc r + 2)
    → suc r < viterbi_chunk
    → chunk_body_lengths n ≡ ok (replicate q full_chunk_body ++ (body_of (suc r) ∷ []))
unfolding chunk_body_lengths
bodies_partial n q r e h =
    let quot : n / full_chunk_body ≡ q = omega arith in
    let rem : n % full_chunk_body ≡ body_of (suc r) = omega arith in rw (rem, quot) (ground arith)

-- The decoder splits a coded stream at its sub-blocks' bodies.
pub chunk_body_lengths-coded_len :
    (q r : ℕ)
    → r < viterbi_chunk
    → chunk_body_lengths (coded_len (q * viterbi_chunk + r))
      ≡ ok (map body_of (replicate q viterbi_chunk ++ last_piece r))
chunk_body_lengths-coded_len q zero h =
    bodies_full (coded_len (q * viterbi_chunk + 0)) q (omega arith)
    ∙ ap ok (sym (map-replicate q 0))
chunk_body_lengths-coded_len q (suc r) h =
    bodies_partial (coded_len (q * viterbi_chunk + suc r)) q r (omega arith) h
    ∙ ap ok (sym (map-replicate q (suc r)))

pub info_lengths-map : (ls : List ℕ) → info_lengths (map body_of ls) ≡ ok ls
unfolding info_lengths
info_lengths-map [] = refl
info_lengths-map (l ∷ ls) =
    let half : body_of l / 2 - 1 ≡ l = omega arith in
    rw (checked_sub-ok (body_of l / 2) 1 (omega arith), half, info_lengths-map ls)

-- The derived stream length of a coded stream is the stream's length, for every length.
pub rs_len_from_body-coded_len : (l : ℕ) → rs_len_from_body (coded_len l) ≡ ok l
unfolding rs_len_from_body
rs_len_from_body-coded_len l =
    let q = l / viterbi_chunk in
    let r = l % viterbi_chunk in
    let e : l ≡ q * viterbi_chunk + r = omega arith in
    rw
      (
        ap (λ (n : ℕ). chunk_body_lengths (coded_len n)) e,
        chunk_body_lengths-coded_len q r (omega arith),
        info_lengths-map (replicate q viterbi_chunk ++ last_piece r),
        sum-replicate q viterbi_chunk r,
      )
      (ap ok (sym e))

bodies_bad :
    (n : ℕ)
    → n % full_chunk_body ≢ 0
    → (n % full_chunk_body < 4) ⊎ (n % full_chunk_body % 2 ≢ 0)
    → chunk_body_lengths n ≡ err (invalid_input "malformed blob")
unfolding chunk_body_lengths
bodies_bad n h bad = ground arith

-- A length is either that of a coded stream or refused.
pub chunk_body_lengths_cases :
    (n : ℕ)
    → ((l : ℕ) × (n ≡ coded_len l)) ⊎ (chunk_body_lengths n ≡ err (invalid_input "malformed blob"))
chunk_body_lengths_cases n =
    let q = n / full_chunk_body in
    let r = n % full_chunk_body in
    elim (ℕ_discrete r 0) [
      | yes e ↦ inl (q * viterbi_chunk, omega arith)
      | no ne ↦ elim (dec_lt r 4) [
        | yes small ↦ inr (bodies_bad n ne (inl small))
        | no large ↦ elim (ℕ_discrete (r % 2) 0) [
          | yes even ↦ inl (q * viterbi_chunk + (r / 2 - 1), omega arith)
          | no odd ↦ inr (bodies_bad n ne (inr odd))
        ]
      ]
    ]

pub rs_len_from_body_cases :
    (n : ℕ)
    → ((l : ℕ) × (n ≡ coded_len l)) ⊎ (rs_len_from_body n ≡ err (invalid_input "malformed blob"))
unfolding rs_len_from_body
rs_len_from_body_cases n = elim (chunk_body_lengths_cases n) [
  | inl found ↦ inl found
  | inr bad ↦ inr (rw bad)
]

-- For every body length `n` and stream length `l`, `rs_len_from_body n` is `l` exactly when `n` is
-- the coded length of `l` bytes, and it returns a length or refuses `n` as malformed.
pub rs_len_from_body_iff :
    (n : ℕ)
    → ((l : ℕ) → (rs_len_from_body n ≡ ok l) ↔ (n ≡ coded_len l))
      × (((l : ℕ) × (rs_len_from_body n ≡ ok l))
          ⊎ (rs_len_from_body n ≡ err (invalid_input "malformed blob")))
rs_len_from_body_iff n = elim (rs_len_from_body_cases n) [
  | inl (k, e) ↦
      let run : rs_len_from_body n ≡ ok k = ap rs_len_from_body e ∙ rs_len_from_body-coded_len k in
      (
        λ l. (
          λ h. e ∙ ap coded_len (ok-injective (sym run ∙ h)),
          λ f. ap rs_len_from_body f ∙ rs_len_from_body-coded_len l,
        ),
        inl (k, run),
      )
  | inr bad ↦ (λ l. (λ h. cc, λ f. ap rs_len_from_body f ∙ rs_len_from_body-coded_len l), inr bad)
]
