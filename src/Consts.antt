-- ===== src/Consts.antt =====
-- The constants of src/lib.rs.
use cryptovault.Common.{ℕ, ◌+◌, ◌-◌, ◌*◌, ◌/◌}

abbrev pub key_len : ℕ
key_len = 32

abbrev pub salt_len : ℕ
salt_len = 16

abbrev pub nonce_len : ℕ
nonce_len = 12

abbrev pub tag_len : ℕ
tag_len = 16

abbrev pub max_plaintext_len : ℕ
max_plaintext_len = 10 * 1024 * 1024

abbrev pub header_len : ℕ
header_len = 5

abbrev pub termination_overhead : ℕ
termination_overhead = 2

abbrev pub blob_version : ℕ
blob_version = 1

abbrev pub rs_data : ℕ
rs_data = 223

abbrev pub rs_parity : ℕ
rs_parity = 32

abbrev pub rs_block : ℕ
rs_block = 255

abbrev pub rs_interleave_max : ℕ
rs_interleave_max = 16

abbrev pub viterbi_chunk : ℕ
viterbi_chunk = 490 * rs_block

-- `usize::div_ceil`, at a divisor that is not 0.
abbrev pub div_ceil : ℕ → ℕ → ℕ
div_ceil a b = (a + (b - 1)) / b

abbrev pub max_blob_len : ℕ
max_blob_len =
    let protected_max = max_plaintext_len + header_len + nonce_len + tag_len in
    let rs_blocks = div_ceil protected_max rs_data in
    let rs_max = rs_blocks * rs_block in
    let viterbi_chunks = div_ceil rs_max viterbi_chunk in
    rs_max * 2 + termination_overhead * viterbi_chunks

abbrev pub max_b64_len : ℕ
max_b64_len = max_blob_len * 4 / 3 + 4

-- Advice for callers: a payload of a size that a noisy channel carries reliably.
abbrev pub recommended_max_payload : ℕ
recommended_max_payload = 128 * 1024
