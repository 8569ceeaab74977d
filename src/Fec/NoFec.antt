-- ===== src/Fec/NoFec.antt =====
-- `NoFec` of src/vault.rs: the identity strategy.
use cryptovault.Common.{
  ℕ, ◌≤◌, ◌≡◌, refl, sym, ap, ◌∙◌, min, List, [], ltb, le→ltb, Bool-cases, inl, inr, arith, length,
  take, take-all, append-nil,
}
use cryptovault.Consts.{max_blob_len}
use cryptovault.Error.{Result, ok, ◌>>◌, reject_if, invalid_input}
use cryptovault.Slice.{slice, slice-ok}
use cryptovault.Fec.{ErrorCorrection, Carries, protected_max, IsTotal}

unfoldable pub encode : List ℕ → Result (List ℕ)
encode payload = ok payload

-- `encoded[..end].to_vec()` with `end` clamped to the length
unfoldable pub decode : List ℕ → ℕ → Result (List ℕ)
unfolding slice
decode encoded pre_len = slice encoded 0 (min pre_len (length encoded))

unfoldable pub validate_pre_fec : List ℕ → Result ℕ
validate_pre_fec received = do
  reject_if (ltb max_blob_len (length received)) (invalid_input "input exceeds maximum size")
  ok (length received)

abbrev pub no_fec : ErrorCorrection
no_fec = record { encode = encode; decode = decode; validate_pre_fec = validate_pre_fec }

-- The clamped prefix, at any length.
pub decode_lem :
    (encoded : List ℕ) (n : ℕ) → decode encoded n ≡ ok (take (min n (length encoded)) encoded)
unfolding decode
decode_lem encoded n =
    slice-ok encoded 0 (min n (length encoded)) (omega arith) (omega arith)
    ∙ ap (λ (k : ℕ). ok (take k encoded)) (omega arith)

-- The identity strategy carries every payload of 1 byte up to the protected cap: it encodes it
-- within the blob cap, its gate accepts the blob, and decoding at the length that the gate derives
-- returns the payload with padding.
pub no_fec-Carries : (xs : List ℕ) → 1 ≤ length xs → length xs ≤ protected_max → Carries no_fec xs
unfolding encode validate_pre_fec
no_fec-Carries xs lo hi = (
  xs,
  length xs,
  [],
  refl,
  omega arith,
  rw (le→ltb max_blob_len (length xs) (omega arith)),
  decode_lem xs (length xs)
      ∙ ap ok (take-all (min (length xs) (length xs)) xs (omega arith) ∙ sym (append-nil xs)),
)

-- The identity strategy returns a value or a typed error on arbitrary received bytes and lengths.
pub no_fec-IsTotal : IsTotal no_fec
unfolding validate_pre_fec
no_fec-IsTotal = record {
  gate = λ received. elim (Bool-cases (ltb max_blob_len (length received))) [
    | inl big ↦ rw big tt
    | inr small ↦ rw small tt
  ];
  correct = λ received n. rw (decode_lem received n) tt;
}
