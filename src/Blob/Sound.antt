-- ===== src/Blob/Sound.antt =====
-- src/blob.rs: `decode_blob` on arbitrary received bytes.
use cryptovault.Common.{
  ℕ, ◌+◌, ◌-◌, ◌≤◌, ◌≡◌, sym, subst, ◌⊎◌, ◌∙◌, List, arith, le→ltb, length, take, drop, Bool-cases,
  inl, inr, ◌==◌, ==_iff, length-take, length-drop, get_or, dec_lt, lt→ltb,
}
use cryptovault.Consts.{blob_version, header_len, nonce_len, tag_len, max_plaintext_len}
use cryptovault.Error.{
  ok, err, CryptoError, invalid_input, Returns, Returns-eq, Returns-bind, ok-injective, >>=-eq-ok,
}
use cryptovault.Fec.{ErrorCorrection, IsTotal}
use cryptovault.Slice.{read-ok, slice-ok, from_le_bytes}
use cryptovault.Blob.{decode_blob, parse_protected}
use cryptovault.Blob.RoundTrip.{protected_len}

-- What a parsed payload is: the supported version, a length within the cap, and a body of that
-- length with nonce and tag.
pub record IsParsed (out : ℕ × ℕ × List ℕ) : Type 0 where
  pub version : out.0 ≡ blob_version
  pub small : out.1 ≤ max_plaintext_len
  pub size : length out.2 ≡ nonce_len + out.1 + tag_len

-- The length field of a payload.
abbrev field : List ℕ → ℕ
field s = from_le_bytes (take (header_len - 1) (drop 1 s))

parse_cases :
    (s : List ℕ)
    → ((out : ℕ × ℕ × List ℕ) × (parse_protected s ≡ ok out) × IsParsed out)
      ⊎ ((e : CryptoError) × (parse_protected s ≡ err e))
unfolding parse_protected
parse_cases s = elim (dec_lt (length s) header_len) [
  | yes short ↦ inr (invalid_input "malformed blob", rw (lt→ltb (length s) header_len short))
  | no long ↦ elim (Bool-cases (get_or s 0 0 == blob_version)) [
    | inr other ↦ inr (
      invalid_input "unsupported blob version",
      rw (le→ltb (length s) header_len (omega arith), read-ok s 0 (omega arith), other),
    )
    | inl v1 ↦ elim (dec_lt max_plaintext_len (field s)) [
      | yes big ↦ inr (
        invalid_input "malformed blob",
        rw (
          le→ltb (length s) header_len (omega arith),
          read-ok s 0 (omega arith),
          v1,
          slice-ok s 1 header_len (omega arith) (omega arith),
          lt→ltb max_plaintext_len (field s) big,
        ),
      )
      | no small ↦ elim (dec_lt (length s) (protected_len (field s))) [
        | yes cut ↦ inr (
          invalid_input "malformed blob",
          rw (
            le→ltb (length s) header_len (omega arith),
            read-ok s 0 (omega arith),
            v1,
            slice-ok s 1 header_len (omega arith) (omega arith),
            le→ltb max_plaintext_len (field s) (omega arith),
            lt→ltb (length s) (protected_len (field s)) cut,
          ),
        )
        | no fits ↦ inl (
          (get_or s 0 0, field s, take (protected_len (field s) - header_len) (drop header_len s)),
          rw (
            le→ltb (length s) header_len (omega arith),
            read-ok s 0 (omega arith),
            v1,
            slice-ok s 1 header_len (omega arith) (omega arith),
            le→ltb max_plaintext_len (field s) (omega arith),
            le→ltb (length s) (protected_len (field s)) (omega arith),
            slice-ok s header_len (protected_len (field s)) (omega arith) (omega arith),
          ),
          record {
            version = (==_iff (get_or s 0 0) blob_version).0 v1;
            small = omega arith;
            size =
                length-take (protected_len (field s) - header_len) (drop header_len s)
                ∙ omega (arith, length-drop header_len s);
          },
        )
      ]
    ]
  ]
]

parse_protected-Returns : (s : List ℕ) → Returns (parse_protected s)
parse_protected-Returns s = elim (parse_cases s) [
  | inl (out, e, _) ↦ Returns-eq e tt
  | inr (x, e) ↦ Returns-eq e tt
]

-- Over a strategy that never panics, `decode_blob` returns a value or a typed error on every
-- received byte string.
pub decode_blob-Returns :
    (fec : ErrorCorrection) (received : List ℕ) → IsTotal fec → Returns (decode_blob fec received)
unfolding decode_blob
decode_blob-Returns fec received total =
    Returns-bind (fec.validate_pre_fec received) _ (total.gate received) (λ n _.
      Returns-bind (fec.decode received n) _ (total.correct received n)
        (λ protected _. parse_protected-Returns protected))

parse_protected-IsParsed :
    (s : List ℕ) (out : ℕ × ℕ × List ℕ) → parse_protected s ≡ ok out → IsParsed out
parse_protected-IsParsed s out h = elim (parse_cases s) [
  | inl (found, e, p) ↦ subst (λ o. IsParsed o) (ok-injective (sym e ∙ h)) p
  | inr (x, e) ↦ cc
]

-- Whatever was received and whatever the strategy, what `decode_blob` accepts has the supported
-- version, a plaintext length within the cap, and a body of exactly `nonce ‖ ciphertext ‖ tag`.
pub decode_blob-IsParsed :
    (fec : ErrorCorrection) (received : List ℕ) (out : ℕ × ℕ × List ℕ)
    → decode_blob fec received ≡ ok out
    → IsParsed out
unfolding decode_blob
decode_blob-IsParsed fec received out h =
    let (n, _, rest) = >>=-eq-ok (fec.validate_pre_fec received) _ h in
    let (s, _, parsed) = >>=-eq-ok (fec.decode received n) _ rest in
    parse_protected-IsParsed s out parsed
