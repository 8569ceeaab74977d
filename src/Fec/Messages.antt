-- ===== src/Fec/Messages.antt =====
-- The errors of the decode path in src/fec.
use cryptovault.Common.{
  ℕ, ◌+◌, ◌-◌, ◌*◌, ◌/◌, ◌%◌, ◌≡◌, ◌⊎◌, inl, inr, refl, Option, none, some, List, [], ◌∷◌, ◌++◌,
  Bool, true, false, ◌&&◌, ◌||◌, ◌==◌, not, ltb, leb, if◌then◌else◌, length, get_elem?, take, drop,
  replicate,
}
use cryptovault.Consts.{max_blob_len, rs_block}
use cryptovault.Error.{
  CryptoError, Result, ok, err, panic, hang, ◌>>=◌, reject_if, invalid_input, error_correction,
}
use cryptovault.Slice.{read, slice, checked_sub}
use cryptovault.Fec.ReedSolomon
use cryptovault.Fec.ReedSolomon.{
  RsCrate, RsAnswer, corrected, uncorrectable, rs_invalid_input, rs_answer, block_count,
}
use cryptovault.Fec.Viterbi
use cryptovault.Fec.Viterbi.{
  ViterbiCrate, Decoded, decoded, length_mismatch, input_too_long, allocation_failed, decode_answer,
  coded_nbits, full_chunk_body, min_chunk_body, chunk_body_lengths, info_lengths, max_of,
  build_decoder, decode_bodies, rs_len_from_body,
}
use cryptovault.Fec.PreFec

-- The four errors.
abbrev pub IsFixed : CryptoError → Type 0
IsFixed e =
    (e ≡ invalid_input "input exceeds maximum size")
    ⊎ (e ≡ invalid_input "malformed blob")
    ⊎ (e ≡ invalid_input "unsupported blob version")
    ⊎ (e ≡ error_correction "forward error correction failed")

pub malformed : IsFixed (invalid_input "malformed blob")
malformed = inr (inl refl)

pub too_long : IsFixed (invalid_input "input exceeds maximum size")
too_long = inl refl

pub failed : IsFixed (error_correction "forward error correction failed")
failed = inr (inr (inr refl))

-- An outcome whose error, if it is one, is among the four.
abbrev pub IsQuiet {ℓ} : {A : Type ℓ} → Result A → Type 0
IsQuiet (ok a) = Unit
IsQuiet (err e) = IsFixed e
IsQuiet panic = Unit
IsQuiet hang = Unit

pub IsQuiet-bind {ℓ κ} :
    {A : Type ℓ} {B : Type κ} (r : Result A) (f : A → Result B)
    → IsQuiet r
    → ((a : A) → IsQuiet (f a))
    → IsQuiet (r >>= f)
IsQuiet-bind (ok a) f h k = k a
IsQuiet-bind (err e) f h k = h
IsQuiet-bind panic f h k = tt
IsQuiet-bind hang f h k = tt

pub IsQuiet-reject_if : (b : Bool) {e : CryptoError} → IsFixed e → IsQuiet (reject_if b e)
IsQuiet-reject_if true h = h
IsQuiet-reject_if false h = tt

pub IsQuiet-if {ℓ} :
    {A : Type ℓ} (b : Bool) (x y : Result A) → IsQuiet x → IsQuiet y → IsQuiet (if b then x else y)
IsQuiet-if true x y h k = h
IsQuiet-if false x y h k = k

pub read-IsQuiet : (s : List ℕ) (i : ℕ) → IsQuiet (read s i)
unfolding read
read-IsQuiet s i = by_answer (get_elem? s i)
  where
    by_answer :
        (o : Option ℕ) → IsQuiet (elim o as (λ _. Result ℕ) [ none ↦ panic | some v ↦ ok v ])
    by_answer none = tt
    by_answer (some v) = tt

pub slice-IsQuiet : (s : List ℕ) (lo hi : ℕ) → IsQuiet (slice s lo hi)
unfolding slice
slice-IsQuiet s lo hi =
    IsQuiet-if (leb lo hi && leb hi (length s)) (ok (take (hi - lo) (drop lo s))) panic tt tt

checked_sub-IsQuiet : (a b : ℕ) → IsQuiet (checked_sub a b)
unfolding checked_sub
checked_sub-IsQuiet a b = IsQuiet-if (leb b a) (ok (a - b)) panic tt tt

chunk_body_lengths-IsQuiet : (n : ℕ) → IsQuiet (chunk_body_lengths n)
unfolding chunk_body_lengths
chunk_body_lengths-IsQuiet n =
    let rem = n % full_chunk_body in
    let bodies = replicate (n / full_chunk_body) full_chunk_body in
    let short = ltb rem min_chunk_body || not (rem % 2 == 0) in
    let bad : Result (List ℕ) = err (invalid_input "malformed blob") in
    let last = ok (bodies ++ (rem ∷ [])) in
    IsQuiet-if (not (rem == 0)) (if short then bad else last) (ok bodies)
      (IsQuiet-if short bad last malformed tt) tt

info_lengths-IsQuiet : (bodies : List ℕ) → IsQuiet (info_lengths bodies)
unfolding info_lengths
info_lengths-IsQuiet [] = tt
info_lengths-IsQuiet (b ∷ bodies) =
    IsQuiet-bind (checked_sub (b / 2) 1) _ (checked_sub-IsQuiet (b / 2) 1)
      (λ info. IsQuiet-bind (info_lengths bodies) _ (info_lengths-IsQuiet bodies) (λ rest. tt))

pub pre_fec-IsQuiet : (received : List ℕ) → IsQuiet (PreFec.validate_pre_fec received)
unfolding PreFec.validate_pre_fec rs_len_from_body
pre_fec-IsQuiet received =
    IsQuiet-bind (reject_if (ltb max_blob_len (length received)) _) _ (IsQuiet-reject_if _ too_long)
      (λ _.
        IsQuiet-bind (rs_len_from_body (length received)) _
          (IsQuiet-bind (chunk_body_lengths (length received)) _
            (chunk_body_lengths-IsQuiet (length received))
            (λ bodies.
              IsQuiet-bind (info_lengths bodies) _ (info_lengths-IsQuiet bodies) (λ _. tt)))
          (λ l.
            IsQuiet-bind (reject_if (l == 0 || not (l % rs_block == 0)) _) _
              (IsQuiet-reject_if _ malformed) (λ _. tt)))

module _ (vc : ViterbiCrate) where
  open vc use {Decoder, new_decoder, decode_block}

  answer-IsQuiet : (a : Decoded) → IsQuiet (decode_answer a)
  answer-IsQuiet (decoded info) = tt
  answer-IsQuiet length_mismatch = malformed
  answer-IsQuiet input_too_long = malformed
  answer-IsQuiet allocation_failed = failed

  decode_bodies-IsQuiet :
      (bodies blob : List ℕ) (d : Decoder) (offset : ℕ) (out : List ℕ)
      → IsQuiet (decode_bodies vc d bodies blob offset out)
  unfolding decode_bodies coded_nbits
  decode_bodies-IsQuiet [] blob d offset out = tt
  decode_bodies-IsQuiet (b ∷ bodies) blob d offset out =
      IsQuiet-bind (slice blob offset (offset + b)) _ (slice-IsQuiet blob offset (offset + b))
        (λ bytes. IsQuiet-bind (coded_nbits b) _ (checked_sub-IsQuiet (8 * b) 4) (λ nbits.
          IsQuiet-bind (decode_answer (decode_block d bytes nbits).0) _
            (answer-IsQuiet (decode_block d bytes nbits).0)
            (λ info.
              decode_bodies-IsQuiet bodies blob (decode_block d bytes nbits).1 (offset + b)
                (out ++ info))))

  build_decoder-IsQuiet : (n : ℕ) → IsQuiet (build_decoder vc n)
  unfolding build_decoder
  build_decoder-IsQuiet n = by_answer (new_decoder (n * 8))
    where
      by_answer :
          (o : Option Decoder)
          → IsQuiet (elim o as (λ _. Result Decoder) [
            | none ↦ err (error_correction "forward error correction failed")
            | some d ↦ ok d
          ])
      by_answer none = failed
      by_answer (some d) = tt

  pub viterbi-IsQuiet : (blob : List ℕ) → IsQuiet (Viterbi.decode vc blob)
  unfolding Viterbi.decode
  viterbi-IsQuiet [] = tt
  viterbi-IsQuiet (x ∷ xs) =
      IsQuiet-bind (chunk_body_lengths (length (x ∷ xs))) _
        (chunk_body_lengths-IsQuiet (length (x ∷ xs)))
        (λ bodies. IsQuiet-bind (info_lengths bodies) _ (info_lengths-IsQuiet bodies) (λ infos.
          IsQuiet-bind (build_decoder vc (max_of infos)) _ (build_decoder-IsQuiet _)
            (λ d. decode_bodies-IsQuiet bodies (x ∷ xs) d 0 [])))

module _ (rs : RsCrate) where
  open rs use {rs_decode}

  answer_rs-IsQuiet : (a : RsAnswer) → IsQuiet (rs_answer a)
  answer_rs-IsQuiet (corrected bytes) = tt
  answer_rs-IsQuiet uncorrectable = failed
  answer_rs-IsQuiet rs_invalid_input = malformed

  pub reed_solomon-IsQuiet : (r : List ℕ) (n : ℕ) → IsQuiet (ReedSolomon.decode rs r n)
  unfolding ReedSolomon.decode
  reed_solomon-IsQuiet r n = by_count (block_count (length r))
    where
      by_count :
          (o : Option ℕ)
          → IsQuiet (elim o as (λ _. Result (List ℕ)) [
            | none ↦ err (invalid_input "malformed blob")
            | some blocks ↦ rs_answer (rs_decode r n)
          ])
      by_count none = malformed
      by_count (some blocks) = answer_rs-IsQuiet (rs_decode r n)
