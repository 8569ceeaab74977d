-- ===== src/Examples/Blobs.antt =====
-- The theorems on blobs at work.
use cryptovault.Common.{ℕ, ◌≤◌, ◌≡◌, refl, List, arith, length, replicate}
use cryptovault.Consts.{blob_version, max_blob_len}
use cryptovault.Error.{ok}
use cryptovault.Blob.{encode_blob, decode_blob}
use cryptovault.Blob.RoundTrip.{decode_blob-encode_blob}
use cryptovault.Blob.Sound.{IsParsed, decode_blob-IsParsed}
use cryptovault.Fec.ViterbiOnly.{viterbi_only_fec, viterbi_only_fec-Carries}
use cryptovault.Examples.Crates.{viterbi_crate, viterbi_crate-IsViterbi}

abbrev body : List ℕ
body = replicate 30 6

decode_blob-encode_blob_example :
    (blob : List ℕ) × (encode_blob (viterbi_only_fec viterbi_crate) blob_version 2 body ≡ ok blob)
    × (length blob ≤ max_blob_len)
    × (decode_blob (viterbi_only_fec viterbi_crate) blob ≡ ok (blob_version, 2, body))
decode_blob-encode_blob_example =
    decode_blob-encode_blob (viterbi_only_fec viterbi_crate) 2 body
      (viterbi_only_fec-Carries viterbi_crate viterbi_crate-IsViterbi) (omega arith) refl

decode_blob-IsParsed_example : IsParsed (blob_version, 2, body)
decode_blob-IsParsed_example =
    decode_blob-IsParsed (viterbi_only_fec viterbi_crate) decode_blob-encode_blob_example.0
      (blob_version, 2, body) decode_blob-encode_blob_example.3
