-- ===== src/Lib.antt =====
-- The verification library of CryptoVault: authenticated encryption behind forward error
-- correction.
--
-- The program. A vault (src/vault.rs) encrypts a plaintext under a 32-byte master key. It derives a
-- sub-key with HKDF (src/kdf.rs), seals the plaintext with an AEAD (src/cipher.rs) under associated
-- data that binds a purpose, the blob header and a context, puts header, nonce and ciphertext into
-- a blob (src/blob.rs), and carries the blob through an error-correction strategy (src/fec/mod.rs):
-- Reed-Solomon codewords (src/fec/rs.rs), an interleaver (src/fec/interleaver.rs) and a Viterbi
-- code in sub-blocks (src/fec/viterbi.rs). Base64 makes it a text. Decryption undoes the steps,
-- each behind a check of lengths. Beside the library stand the release gate (xtask/src/main.rs),
-- which lets a release pass only with a signed review, and the fuzz targets (fuzz/fuzz_targets).
--
-- The files.
-- - Common, Common/Tests, Common/Lists, Common/Texts: the names the rest shares; lists with native
--   lengths; texts as character codes.
-- - Consts: src/lib.rs. Error: src/error.rs, `Result` with panic and a spent fuel as outcomes of
--   their own. Slice: indexing, slicing and little-endian integers of the standard library.
-- - Fec: the trait `ErrorCorrection` as a record of functions, with its contracts `Carries` (a
--   clean channel), `Delivers` (what was received decodes to the payload) and `IsTotal` (arbitrary
--   bytes). Fec/NoFec and Fec/ViterbiOnly are strategies, Fec/Concat is `ConcatenatedFec` (Keyed:
--   `with_csprng_from_master`; Noise: a burst on the channel; Scattered: wrong symbols anywhere),
--   Fec/Messages and Fec/Concat/Messages the errors of the decode path, Fec/PreFec the gate
--   `validate_pre_fec` of src/blob.rs.
-- - Fec/Interleaver: the window loops, with Windows, Loops, Total and Near for what they do
--   on any family of permutations; Block and Csprng are the two layers, Layers the enum `Interleaver`.
--   Block/Inverse says where `deinterleave` takes each byte from, Block/Full what streams of full
--   windows become, Block/Noise what it makes of a burst, Csprng/Liveness that the rejection
--   sampling ends.
-- - Fec/Viterbi: `ViterbiCodec`; Framing has the length arithmetic, Chunks the pieces.
-- - Fec/ReedSolomon: `ReedSolomonCodec`; Laws has what the crate promises.
-- - Kdf, Cipher, Blob, Vault: the files of the same names; Vault/Default is `Default for
--   CryptoVault`, Vault/Sealed is what an encryption makes, Vault/Noise decrypts through noise,
--   Vault/Equal is `constant_time_eq`. Vault/Session has the calls that seal as steps, with the
--   record of what was sealed, Vault/Authentic what a decryption after such steps can return.
--   Vault/Messages is about the errors of a decryption, Vault/Refused about texts brought to a
--   wrong call, Vault/Size about which plaintexts are encrypted and the length of the text,
--   Vault/Lifecycle about the envelope scheme of README.md, which composes the calls.
--   Vault/Strings about the `String` of `decrypt_with_key`. Utf8: the standard library's UTF-8
--   check, with its error text; Utf8/Strings encodes characters, Utf8/Sequences and Utf8/Decoded
--   read them back.
-- - Fuzz: the targets that drive a vault's decryption, and the one that drives the crates, each
--   call of which may panic there.
-- - Xtask: the release gate, on a `Host` of paths and files. Xtask/Version and Xtask/Signature are
--   its readers of the manifest and of the review, Xtask/Text is `str` of the standard library.
--   Trims and Finds say what its functions do on texts in parts, Markers is about the signature,
--   Manifest and Quoted about the version, Roots about the repository's directory, Gate about the
--   whole command.
-- - Examples: crates that behave as documented, and the theorems at work on them.
-- A method is a function of the same name; `self` is an argument only where its fields are read. A
-- string is its UTF-8 bytes, a byte string a list of numbers, a `Zeroizing` buffer its contents.
-- A slice, index, split or subtraction whose bounds depend on the input has the outcome `panic` in
-- the model, also behind a guard that rules it out; arrays of a constant length are lists.
--
-- Parameters. The crates argon2, hkdf, aes-gcm-siv, base64, chacha20, subtle, reedsolomon and
-- viterbi and the operating system's generator are records of functions (Kdf, Cipher, Vault,
-- Fec/Interleaver/Csprng, Fec/ReedSolomon, Fec/Viterbi); the paths, files and environment of a
-- process are `Host` (Xtask). What the theorems rely on is named: `Expands`, `IsAead`, `IsBase64`,
-- `IsLive`, `IsEventuallyLive`, `IsReedSolomon`, `IsViterbi`, `Supplies`, `IsPathSystem` (a path
-- has finitely many directories above it), `Derives` (Argon2id answers). `Binds` is
-- the authenticity of the AEAD without its negligible error. The AEAD, HKDF and Base64 laws are those of the RFCs 8452, 5869 and 4648.
--
-- Bounds. A `usize` is a number, since every product and sum of lengths in the source is far below
-- 2^64; `as u32`, `to_le_bytes` and the window counter keep their wrap-around. The window loops run
-- on as many rounds as the stream has bytes, and each round moves one at least. The rejection
-- sampling of the keyed layer has no bound in the source: it runs on fuel, enough under `IsLive`,
-- by which a draw within the fuel is below every rejection bound; under `IsEventuallyLive`, with no
-- bound on the wait, there is enough fuel for each stream. `repo_root` walks up the directories on
-- fuel, enough when there is more of it than directories above the current one. `chunks` runs on
-- the length of its list.
--
-- Not modelled: wiping of memory, timing (that of `constant_time_eq` included), the strength of the
-- primitives, threads (no value is mutated after it is built), tests.
pub mod Common
pub mod Consts
pub mod Error
pub mod Slice
pub mod Fec
pub mod Kdf
pub mod Cipher
pub mod Utf8
pub mod Blob
pub mod Vault
pub mod Fuzz
pub mod Xtask
mod Examples
