-- ===== src/Blob/RoundTrip.antt =====
-- src/blob.rs: `encode_blob` and then `decode_blob`.
use cryptovault.Common.{
  ℕ, ◌+◌, ◌≤◌, ◌≡◌, refl, ap, ◌∙◌, List, [], ◌∷◌, ◌++◌, arith, le→ltb, length, length-append,
  append_assoc,
}
use cryptovault.Consts.{
  blob_version, header_len, nonce_len, tag_len, max_plaintext_len, max_blob_len,
}
use cryptovault.Error.{ok}
use cryptovault.Fec.{ErrorCorrection, Recovers, Delivers}
use cryptovault.Slice.{
  read, slice, slice-mid, to_le_bytes, from_le_bytes, length-to_le_bytes, from_le_bytes-to_le_bytes,
}
use cryptovault.Blob.{protected_payload, encode_blob, decode_blob, parse_protected}

-- The header length and the body's end.
abbrev pub protected_len : ℕ → ℕ
protected_len n = header_len + nonce_len + n + tag_len

parse_steps :
    (s lb body : ℕ → List ℕ) (n : ℕ)
    → header_len ≤ length (s n)
    → read (s n) 0 ≡ ok blob_version
    → slice (s n) 1 header_len ≡ ok (lb n)
    → from_le_bytes (lb n) ≡ n
    → n ≤ max_plaintext_len
    → protected_len n ≤ length (s n)
    → slice (s n) header_len (protected_len n) ≡ ok (body n)
    → parse_protected (s n) ≡ ok (blob_version, n, body n)
unfolding parse_protected
parse_steps s lb body n long version len value small fits cut = rw (
  le→ltb (length (s n)) header_len long,
  version,
  len,
  value,
  le→ltb max_plaintext_len n small,
  le→ltb (length (s n)) (protected_len n) fits,
  cut,
)

-- The corrected payload of a blob is parsed back, whatever padding follows it.
pub parse_protected_lem :
    (n : ℕ) (body pad : List ℕ)
    → n ≤ max_plaintext_len
    → length body ≡ nonce_len + n + tag_len
    → parse_protected (protected_payload blob_version n body ++ pad) ≡ ok (blob_version, n, body)
parse_protected_lem n body pad hn size =
    let len = to_le_bytes 4 n in
    let s : List ℕ = blob_version ∷ ((len ++ body) ++ pad) in
    let four : length len ≡ 4 = length-to_le_bytes 4 n in
    let total : length s ≡ 5 + length body + length pad =
      omega (arith, length-append (len ++ body) pad, length-append len body) in
    let regroup : s ≡ blob_version ∷ (len ++ (body ++ pad)) =
      ap (λ (t : List ℕ). blob_version ∷ t) (append_assoc len body pad) in
    parse_steps (λ _. s) (λ _. len) (λ _. body) n (omega arith) (unfold read in refl)
      (ap (λ (t : List ℕ). slice t 1 header_len) regroup
        ∙ slice-mid (blob_version ∷ []) len (body ++ pad) 1 header_len refl (omega arith))
      (from_le_bytes-to_le_bytes n (omega arith)) hn (omega arith)
      (ap (λ (t : List ℕ). slice t header_len (protected_len n)) regroup
        ∙ slice-mid (blob_version ∷ len) body pad header_len (protected_len n) (omega arith)
            (omega arith))

pub length-protected_payload :
    (n : ℕ) (body : List ℕ) → length (protected_payload blob_version n body) ≡ 5 + length body
length-protected_payload n body =
    omega (arith, length-append (to_le_bytes 4 n) body, length-to_le_bytes 4 n)

-- Over any strategy that recovers payloads, a body of `nonce ‖ ciphertext ‖ tag` for a plaintext
-- within the cap is encoded in a blob within the blob cap, and `decode_blob` returns the version, the
-- plaintext length and the body from it.
pub decode_blob-encode_blob :
    (fec : ErrorCorrection) (n : ℕ) (body : List ℕ)
    → Recovers fec
    → n ≤ max_plaintext_len
    → length body ≡ nonce_len + n + tag_len
    → (blob : List ℕ) × (encode_blob fec blob_version n body ≡ ok blob)
      × (length blob ≤ max_blob_len)
      × (decode_blob fec blob ≡ ok (blob_version, n, body))
unfolding encode_blob decode_blob
decode_blob-encode_blob fec n body recovers hn size =
    let payload = protected_payload blob_version n body in
    let long : length payload ≡ 5 + length body = length-protected_payload n body in
    let (blob, m, pad, run, cap, gate, back) = recovers payload (omega arith) (omega arith) in
    (blob, run, cap, rw (gate, back) (parse_protected_lem n body pad hn size))

-- A blob that a noisy channel delivered is parsed to what was sent.
pub decode_blob-Delivers :
    (fec : ErrorCorrection) (n : ℕ) (body received : List ℕ)
    → Delivers fec (protected_payload blob_version n body) received
    → n ≤ max_plaintext_len
    → length body ≡ nonce_len + n + tag_len
    → decode_blob fec received ≡ ok (blob_version, n, body)
unfolding decode_blob
decode_blob-Delivers fec n body received (m, pad, gate, back) hn size =
    rw (gate, back) (parse_protected_lem n body pad hn size)
