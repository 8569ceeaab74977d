-- ===== src/Fec/ViterbiOnly.antt =====
-- `ViterbiOnlyFec` of src/fec/viterbi.rs: the inner code as a strategy of its own.
use cryptovault.Common.{
  ℕ, ◌≤◌, ◌≡◌, sym, ap, ◌∙◌, inl, inr, min, List, [], ltb, le→ltb, arith, length, take, take-all,
  append-nil,
}
use cryptovault.Consts.{max_blob_len}
use cryptovault.Error.{
  Result, ok, ◌>>=◌, ◌>>◌, reject_if, invalid_input, Returns, Returns-eq, Returns-bind,
  Returns-reject_if,
}
use cryptovault.Slice.{slice, slice-ok}
use cryptovault.Fec.{ErrorCorrection, Carries, protected_max, IsTotal}
use cryptovault.Fec.Viterbi
use cryptovault.Fec.Viterbi.{ViterbiCrate, rs_len_from_body}
use cryptovault.Fec.Viterbi.Framing.{coded_len, rs_len_from_body-coded_len, rs_len_from_body_cases}
use cryptovault.Fec.Viterbi.RoundTrip.{IsViterbi, decode-encode}
use cryptovault.Fec.Viterbi.Total.{decode-Returns}

unfoldable pub validate_pre_fec : List ℕ → Result ℕ
unfolding rs_len_from_body
validate_pre_fec received = do
  reject_if (ltb max_blob_len (length received)) (invalid_input "input exceeds maximum size")
  rs_len_from_body (length received)

module _ (vc : ViterbiCrate) where
  unfoldable pub encode : List ℕ → Result (List ℕ)
  encode payload = Viterbi.encode vc payload

  unfoldable pub decode : List ℕ → ℕ → Result (List ℕ)
  unfolding slice
  decode encoded pre_len = do
    recovered ← Viterbi.decode vc encoded
    slice recovered 0 (min pre_len (length recovered))

  abbrev pub viterbi_only_fec : ErrorCorrection
  viterbi_only_fec = record {
    encode = encode;
    decode = decode;
    validate_pre_fec = validate_pre_fec;
  }

rs_len_from_body-Returns : (n : ℕ) → Returns (rs_len_from_body n)
rs_len_from_body-Returns n = elim (rs_len_from_body_cases n) [
  | inl (l, e) ↦ Returns-eq (ap rs_len_from_body e ∙ rs_len_from_body-coded_len l) tt
  | inr bad ↦ Returns-eq bad tt
]

slice-prefix : (s : List ℕ) (n : ℕ) → slice s 0 (min n (length s)) ≡ ok (take (min n (length s)) s)
slice-prefix s n =
    slice-ok s 0 (min n (length s)) (omega arith) (omega arith)
    ∙ ap (λ (k : ℕ). ok (take k s)) (omega arith)

-- The inner code alone returns a value or a typed error on arbitrary received bytes and lengths,
-- whatever the crate answers.
pub viterbi_only_fec-IsTotal : (vc : ViterbiCrate) → IsTotal (viterbi_only_fec vc)
unfolding validate_pre_fec decode
viterbi_only_fec-IsTotal vc = record {
  gate = λ received.
      Returns-reject_if (ltb max_blob_len (length received)) _ (rs_len_from_body (length received))
        (λ _. rs_len_from_body-Returns (length received));
  correct = λ received n.
      Returns-bind (Viterbi.decode vc received) _ (decode-Returns vc received)
        (λ s _. Returns-eq (slice-prefix s n) tt);
}

-- If the `viterbi` crate behaves as documented, the inner code alone carries every payload of 1
-- byte up to the protected cap: it encodes it within the blob cap, its gate accepts the blob, and
-- decoding at the length that the gate derives returns the payload with padding.
pub viterbi_only_fec-Carries :
    (vc : ViterbiCrate)
    → IsViterbi vc
    → (xs : List ℕ) → 1 ≤ length xs
    → length xs ≤ protected_max
    → Carries (viterbi_only_fec vc) xs
viterbi_only_fec-Carries vc laws xs lo hi =
    let (body, run, size, back) = decode-encode vc laws xs in
    (
      body,
      length xs,
      [],
      unfold encode in run,
      omega arith,
      gate_at body (length xs) size (omega arith),
      unfold decode in
          rw back (
            slice-prefix xs (length xs)
            ∙ ap ok
                (take-all (min (length xs) (length xs)) xs (omega arith) ∙ sym (append-nil xs))),
    )
  where
    gate_at :
        (body : List ℕ) (l : ℕ)
        → length body ≡ coded_len l
        → length body ≤ max_blob_len
        → validate_pre_fec body ≡ ok l
    gate_at body l size cap =
        unfold validate_pre_fec in
        rw (le→ltb max_blob_len (length body) cap)
          (ap rs_len_from_body size ∙ rs_len_from_body-coded_len l)
