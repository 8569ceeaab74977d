-- ===== src/Examples/Runs.antt =====
-- Runs of the executable parts at fixed inputs.
use cryptovault.Common.{◌≡◌, refl, some, none, [], ◌∷◌}
use cryptovault.Consts.{max_blob_len}
use cryptovault.Error.{ok, error_correction, fmt, decimal}
use cryptovault.Fec.Interleaver.Block
use cryptovault.Fec.Interleaver.Csprng
use cryptovault.Fec.Viterbi.{rs_len_from_body}
use cryptovault.Slice.{from_le_bytes}
use cryptovault.Utf8.{from_utf8}
use cryptovault.Examples.Crates.{stream_cipher}

-- "hé€😀", and the first wrong byte of a surrogate.
from_utf8_text :
    from_utf8 (0x68 ∷ 0xC3 ∷ 0xA9 ∷ 0xE2 ∷ 0x82 ∷ 0xAC ∷ 0xF0 ∷ 0x9F ∷ 0x98 ∷ 0x80 ∷ []) ≡ none
unfolding from_utf8
from_utf8_text = refl

from_utf8_surrogate :
    from_utf8 (0x41 ∷ 0xED ∷ 0xA0 ∷ 0x80 ∷ [])
    ≡ some (record { valid_up_to = 1; error_len = some 1 })
unfolding from_utf8
from_utf8_surrogate = refl

max_blob_len_value : max_blob_len ≡ 23_981_412
max_blob_len_value = refl

decimal_text : decimal 20_706 ≡ "20706"
unfolding decimal
decimal_text = refl

fmt_text : fmt (error_correction "x") ≡ "Error correction error: x"
unfolding fmt
fmt_text = refl

-- A window of two rows is read by columns, also when it is not full.
window_perm_partial : Block.read_columns 258 2 4 0 ≡ 0 ∷ 255 ∷ 1 ∷ 256 ∷ 2 ∷ 257 ∷ 3 ∷ []
unfolding Block.read_columns
window_perm_partial = refl

-- A shuffle of four places, drawn from the counting keystream.
shuffle_four :
    Csprng.fisher_yates stream_cipher 2 3 1 (0 ∷ 1 ∷ 2 ∷ 3 ∷ []) ≡ ok (0 ∷ 3 ∷ 2 ∷ 1 ∷ [])
unfolding Csprng.fisher_yates Csprng.next_index Csprng.swap from_le_bytes
shuffle_four = refl

stream_len_of_body : rs_len_from_body 512 ≡ ok 255
unfolding rs_len_from_body
stream_len_of_body = refl
