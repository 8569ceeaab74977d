-- ===== src/Fec/Viterbi/Total.antt =====
-- src/fec/viterbi.rs: `ViterbiCodec::decode` on bytes that no encoder wrote.
use cryptovault.Common.{
  ℕ, ◌+◌, ◌-◌, ◌*◌, ◌/◌, ◌%◌, ◌≤◌, ◌≡◌, refl, ap, ◌∙◌, inl, inr, ◌⊎◌, Option, none, some, List, [],
  ◌∷◌, ◌++◌, arith, length, replicate, map,
}
use cryptovault.Consts.{viterbi_chunk}
use cryptovault.Error.{Result, ok, err, ◌>>=◌, Returns, invalid_input}
use cryptovault.Slice.{checked_sub-ok, slice-ok}
use cryptovault.Fec.Viterbi.{
  ViterbiCrate, Decoded, decoded, length_mismatch, input_too_long, allocation_failed, decode_answer,
  coded_nbits, chunk_body_lengths, sum, max_of, build_decoder, decode_bodies, decode,
}
use cryptovault.Fec.Viterbi.Framing.{
  coded_len, body_of, last_piece, chunk_body_lengths-coded_len, info_lengths-map,
  chunk_body_lengths_cases, sum-bodies, sum-last,
}

-- The bodies that `chunk_body_lengths` accepts: those of a coded stream, and they fill the input.
bodies_cases :
    (n : ℕ)
    → ((ls : List ℕ) × (chunk_body_lengths n ≡ ok (map body_of ls)) × (sum (map body_of ls) ≡ n))
      ⊎ (chunk_body_lengths n ≡ err (invalid_input "malformed blob"))
bodies_cases n = elim (chunk_body_lengths_cases n) [
  | inl (l, e) ↦
      let q = l / viterbi_chunk in
      let r = l % viterbi_chunk in
      let split : n ≡ coded_len (q * viterbi_chunk + r) = e ∙ ap coded_len (omega arith) in
      inl (
        replicate q viterbi_chunk ++ last_piece r,
        ap chunk_body_lengths split ∙ chunk_body_lengths-coded_len q r (omega arith),
        sum-bodies q r ∙ omega (arith, sum-last r (omega arith)),
      )
  | inr bad ↦ inr bad
]

module _ (vc : ViterbiCrate) where
  open vc use {Decoder, new_decoder, decode_block}

  answer-Returns :
      {A : Type 0} (a : Decoded) (f : List ℕ → Result A)
      → ((info : List ℕ) → Returns (f info))
      → Returns (decode_answer a >>= f)
  answer-Returns (decoded info) f h = h info
  answer-Returns length_mismatch f h = tt
  answer-Returns input_too_long f h = tt
  answer-Returns allocation_failed f h = tt

  coded_nbits-ok : (l : ℕ) → coded_nbits (body_of l) ≡ ok (8 * body_of l - 4)
  unfolding coded_nbits
  coded_nbits-ok l = checked_sub-ok (8 * body_of l) 4 (omega arith)

  decode_bodies-Returns :
      (ls : List ℕ) (blob : List ℕ) (d : Decoder) (offset : ℕ) (out : List ℕ)
      → offset + sum (map body_of ls) ≤ length blob
      → Returns (decode_bodies vc d (map body_of ls) blob offset out)
  unfolding decode_bodies sum
  decode_bodies-Returns [] blob d offset out h = tt
  decode_bodies-Returns (l ∷ ls) blob d offset out h =
      rw (slice-ok blob offset (offset + body_of l) (omega arith) (omega arith), coded_nbits-ok l)
        (answer-Returns _ _ (λ info.
          decode_bodies-Returns ls blob _ (offset + body_of l) (out ++ info) (omega arith)))

  build-Returns :
      {A : Type 0} (n : ℕ) (f : Decoder → Result A)
      → ((d : Decoder) → Returns (f d))
      → Returns (build_decoder vc n >>= f)
  build-Returns n f h = go (new_decoder (n * 8)) refl
    where
      go : (o : Option Decoder) → new_decoder (n * 8) ≡ o → Returns (build_decoder vc n >>= f)
      go none e = unfold build_decoder in rw (e, build_decoder) tt
      go (some d) e = unfold build_decoder in rw (e, build_decoder) (h d)

  -- `ViterbiCodec::decode` returns a value or a typed error on every byte string, whatever the
  -- crate answers: no slice is out of range and no length underflows.
  pub decode-Returns : (blob : List ℕ) → Returns (decode vc blob)
  decode-Returns [] = unfold decode in tt
  decode-Returns (x ∷ xs) = elim (bodies_cases (length (x ∷ xs))) [
    | inl (ls, e, fill) ↦
        unfold decode in
        rw (e, info_lengths-map ls)
          (build-Returns (max_of ls) _
            (λ d. decode_bodies-Returns ls (x ∷ xs) d 0 [] (omega arith)))
    | inr bad ↦ unfold decode in rw bad tt
  ]
