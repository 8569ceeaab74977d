-- ===== src/Fec/Viterbi/RoundTrip.antt =====
-- src/fec/viterbi.rs: `ViterbiCodec::encode` and then `ViterbiCodec::decode`.
use cryptovault.Common.{
  ℕ, ◌+◌, ◌*◌, ◌/◌, ◌%◌, ◌≤◌, ◌≡◌, refl, sym, ap, ap₂, ◌∙◌, subst, some, List, [], ◌∷◌, ◌++◌, arith,
  length, map, All, length-append, append-nil, append_assoc,
}
use cryptovault.Consts.{viterbi_chunk}
use cryptovault.Error.{ok}
use cryptovault.Slice.{checked_sub-ok, slice-mid}
use cryptovault.Fec.Viterbi.{
  ViterbiCrate, decoded, coded_nbits, chunks, chunk_body_lengths, info_lengths, sum, max_of,
  encode_chunks, encode, build_decoder, decode_bodies, decode,
}
use cryptovault.Fec.Viterbi.Framing.{
  coded_len, body_of, chunk_body_lengths-coded_len, info_lengths-map, sum-bodies, sum-last,
}
use cryptovault.Fec.Viterbi.Chunks.{concat, chunks-lengths, concat-chunks, chunks-bounded}

-- What the code relies on in the `viterbi` crate: the CCSDS encoder is built, a block of 1 to
-- 125,000 bytes is coded in `2 * l + 2` bytes, a decoder of up to 1,000,000 bits is built (memory
-- allowing), and a decoder that is large enough reads a coded block back, at `16 * l + 12` bits, and
-- stays as large.
pub record IsViterbi (vc : ViterbiCrate) : Type 0 where
  pub encoder : vc.Encoder
  pub encoder_built : vc.new_encoder ≡ some encoder
  pub encoded :
      (c : List ℕ)
      → 1 ≤ length c
      → length c ≤ 125_000
      → (body : List ℕ) × (vc.encode_block encoder c ≡ some body) × (length body ≡ 2 * length c + 2)
  pub bits : vc.Decoder → ℕ
  pub decoder_built :
      (n : ℕ) → n ≤ 1_000_000 → (d : vc.Decoder) × (vc.new_decoder n ≡ some d) × (bits d ≡ n)
  pub decoded_back :
      (c body : List ℕ) (d : vc.Decoder)
      → vc.encode_block encoder c ≡ some body
      → 8 * length c ≤ bits d
      → (d' : vc.Decoder) × (vc.decode_block d body (16 * length c + 12) ≡ (decoded c, d'))
        × (bits d' ≡ bits d)

module _ (vc : ViterbiCrate) (laws : IsViterbi vc) where
  open vc use {Decoder, encode_block, new_decoder, decode_block}
  open laws use {encoder, encoder_built, encoded, bits, decoder_built, decoded_back}

  -- `body` is the coded blocks of the chunks, one after the other.
  abbrev Coded : List (List ℕ) → List ℕ → Type 0
  Coded [] body = body ≡ []
  Coded (c ∷ cs) body =
      (b : List ℕ) × (rest : List ℕ) × (encode_block encoder c ≡ some b)
      × (length b ≡ 2 * length c + 2)
      × (body ≡ b ++ rest)
      × Coded cs rest

  encode_chunks-Coded :
      (cs : List (List ℕ)) (out : List ℕ)
      → All (λ c. (1 ≤ length c) × (length c ≤ viterbi_chunk)) cs
      → (body : List ℕ) × (encode_chunks vc encoder cs out ≡ ok (out ++ body)) × Coded cs body
  unfolding encode_chunks
  encode_chunks-Coded [] out h = ([], ap ok (sym (append-nil out)), refl)
  encode_chunks-Coded (c ∷ cs) out ((lo, hi), h) =
      let (b, e, size) = encoded c lo (omega arith) in
      let (rest, run, coded) = encode_chunks-Coded cs (out ++ b) h in
      (b ++ rest, rw e (run ∙ ap ok (append_assoc out b rest)), (b, rest, e, size, refl, coded))

  length-Coded :
      (cs : List (List ℕ)) (body : List ℕ)
      → Coded cs body
      → length body ≡ sum (map body_of (map length cs))
  unfolding sum
  length-Coded [] body e = ap length e
  length-Coded (c ∷ cs) body (b, rest, e, size, split, coded) =
      omega (arith, ap length split, length-append b rest, length-Coded cs rest coded)

  coded_nbits-body_of : (l : ℕ) → coded_nbits (body_of l) ≡ ok (16 * l + 12)
  unfolding coded_nbits
  coded_nbits-body_of l = checked_sub-ok (8 * body_of l) 4 (omega arith) ∙ ap ok (omega arith)

  decode_step :
      (c b front rest : List ℕ) (lens : List ℕ) (d d' : Decoder) (out : List ℕ)
      → length b ≡ body_of (length c)
      → decode_block d b (16 * length c + 12) ≡ (decoded c, d')
      → decode_bodies vc d (body_of (length c) ∷ lens) (front ++ (b ++ rest)) (length front) out
        ≡ decode_bodies vc d' lens ((front ++ b) ++ rest) (length (front ++ b)) (out ++ c)
  unfolding decode_bodies
  decode_step c b front rest lens d d' out size e =
      rw
        (
          slice-mid front b rest (length front) (length front + body_of (length c)) refl
              (omega arith),
          coded_nbits-body_of (length c),
          e,
        )
        (ap₂ (λ (l : List ℕ) (n : ℕ). decode_bodies vc d' lens l n (out ++ c))
          (sym (append_assoc front b rest)) (omega (arith, length-append front b)))

  decode_bodies-Coded :
      (cs : List (List ℕ)) (body front : List ℕ) (d : Decoder) (out : List ℕ)
      → Coded cs body
      → All (λ c. 8 * length c ≤ bits d) cs
      → decode_bodies vc d (map body_of (map length cs)) (front ++ body) (length front) out
        ≡ ok (out ++ concat cs)
  decode_bodies-Coded [] body front d out e h = unfold decode_bodies in ap ok (sym (append-nil out))
  decode_bodies-Coded (c ∷ cs) body front d out (b, rest, e, size, split, coded) (hc, h) =
      let (d', back, keep) = decoded_back c b d e hc in
      ap
        (λ (l : List ℕ).
          decode_bodies vc d (map body_of (map length (c ∷ cs))) (front ++ l) (length front) out)
        split
      ∙ decode_step c b front rest (map body_of (map length cs)) d d' out size back
      ∙ decode_bodies-Coded cs rest (front ++ b) d' (out ++ c) coded
          (subst (λ n. All (λ c'. 8 * length c' ≤ n) cs) (sym keep) h)
      ∙ ap ok (append_assoc out c (concat cs))

  -- The scratch of the decoder is as large as the largest chunk needs.
  max_of-large :
      (cs : List (List ℕ)) (m : ℕ) → max_of (map length cs) ≤ m → All (λ c. 8 * length c ≤ m * 8) cs
  unfolding max_of
  max_of-large [] m h = tt
  max_of-large (c ∷ cs) m h = (omega arith, max_of-large cs m (omega arith))

  max_of-small :
      (cs : List (List ℕ)) (n : ℕ)
      → All (λ c. (1 ≤ length c) × (length c ≤ n)) cs
      → max_of (map length cs) ≤ n
  unfolding max_of
  max_of-small [] n h = omega arith
  max_of-small (c ∷ cs) n ((lo, hi), h) = omega (arith, max_of-small cs n h)

  build_decoder-ok :
      (n : ℕ) {d : Decoder} → new_decoder (n * 8) ≡ some d → build_decoder vc n ≡ ok d
  unfolding build_decoder
  build_decoder-ok n e = rw (e, build_decoder)

  decode_nonempty :
      (body : List ℕ) (lens infos : List ℕ) {d : Decoder}
      → 1 ≤ length body
      → chunk_body_lengths (length body) ≡ ok lens
      → info_lengths lens ≡ ok infos
      → new_decoder (max_of infos * 8) ≡ some d
      → decode vc body ≡ decode_bodies vc d lens body 0 []
  unfolding decode
  decode_nonempty [] lens infos h e f g = absurd (omega arith)
  decode_nonempty (x ∷ body) lens infos h e f g = rw (e, f, build_decoder-ok (max_of infos) g)

  encode_chunked :
      (xs : List ℕ) → encode vc xs ≡ encode_chunks vc encoder (chunks viterbi_chunk xs) []
  unfolding encode
  encode_chunked xs = rw encoder_built

  -- The coded stream of `xs`, in terms of its chunks.
  encode-Coded :
      (xs : List ℕ)
      → (body : List ℕ) × (encode vc xs ≡ ok body)
        × Coded (chunks viterbi_chunk xs) body
        × (length body ≡ coded_len (length xs))
  encode-Coded xs =
      let cs = chunks viterbi_chunk xs in
      let (body, run, coded) =
        encode_chunks-Coded cs [] (chunks-bounded viterbi_chunk xs (omega arith)) in
      let q = length xs / viterbi_chunk in
      let r = length xs % viterbi_chunk in
      let lens = chunks-lengths viterbi_chunk xs q r (omega arith) (omega arith) (omega arith) in
      (
        body,
        encode_chunked xs ∙ run,
        coded,
        length-Coded cs body coded
            ∙ ap (λ (l : List ℕ). sum (map body_of l)) lens
            ∙ sum-bodies q r
            ∙ omega (arith, sum-last r (omega arith)),
      )

  decode_body :
      (xs body : List ℕ)
      → Coded (chunks viterbi_chunk xs) body
      → length body ≡ coded_len (length xs)
      → decode vc body ≡ ok xs
  decode_body [] [] coded size = unfold decode in refl
  decode_body [] (b ∷ body) coded size = absurd (omega arith)
  decode_body (x ∷ xs) body coded size =
      let s : List ℕ = x ∷ xs in
      let cs = chunks viterbi_chunk s in
      let q = length s / viterbi_chunk in
      let r = length s % viterbi_chunk in
      let split : length s ≡ q * viterbi_chunk + r = omega arith in
      let lens = chunks-lengths viterbi_chunk s q r (omega arith) split (omega arith) in
      let bodies : chunk_body_lengths (length body) ≡ ok (map body_of (map length cs)) =
        ap chunk_body_lengths (size ∙ ap coded_len split)
        ∙ chunk_body_lengths-coded_len q r (omega arith)
        ∙ ap (λ (l : List ℕ). ok (map body_of l)) (sym lens) in
      let m = max_of (map length cs) in
      let small : m ≤ viterbi_chunk =
        max_of-small cs viterbi_chunk (chunks-bounded viterbi_chunk s (omega arith)) in
      let (d, built, large) = decoder_built (m * 8) (omega arith) in
      decode_nonempty body (map body_of (map length cs)) (map length cs) (omega arith) bodies
        (info_lengths-map (map length cs)) built
      ∙ decode_bodies-Coded cs body [] d [] coded (
          subst (λ n. All (λ c. 8 * length c ≤ n) cs) (sym large) (max_of-large cs m (omega arith)))
      ∙ ap ok (concat-chunks viterbi_chunk s (omega arith))

  -- If the `viterbi` crate behaves as documented, `ViterbiCodec::encode` returns on every stream,
  -- with the coded length `2 * l + 2 * div_ceil l viterbi_chunk`, and `ViterbiCodec::decode`
  -- returns the stream from it.
  pub decode-encode :
      (xs : List ℕ)
      → (body : List ℕ) × (encode vc xs ≡ ok body)
        × (length body ≡ coded_len (length xs))
        × (decode vc body ≡ ok xs)
  decode-encode xs =
      let (body, run, coded, size) = encode-Coded xs in
      (body, run, size, decode_body xs body coded size)
