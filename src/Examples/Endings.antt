-- ===== src/Examples/Endings.antt =====
-- Loops and targets that end, on the small crates.
use cryptovault.Common.{
  refl, ℕ, ◌+◌, ◌≡◌, List, [], ◌∷◌, arith, length, replicate, some, ◌==◌, if◌then◌else◌,
}
use cryptovault.Error.{ok, panic}
use cryptovault.Examples.Crates.{stream_cipher, stream_cipher-IsLive}
use cryptovault.Fec.Interleaver.Csprng.{CsprngLayer, interleave, deinterleave}
use cryptovault.Fec.Interleaver.Csprng.Liveness.{IsEventuallyLive, interleave_keyed-ends}
use cryptovault.Fec.ReedSolomon.{corrected, uncorrectable}
use cryptovault.Fuzz.{FuzzedCrates, drive_crates, fuzz_fec_crates}
use cryptovault.Fec.Viterbi.{decoded}
use cryptovault.Slice.{read, slice}

abbrev layer : CsprngLayer
layer = record { seed = replicate 32 7 }

abbrev payload : List ℕ
payload = replicate 600 1

stream_cipher-IsEventuallyLive : IsEventuallyLive stream_cipher
stream_cipher-IsEventuallyLive c = let (k, h, low) = stream_cipher-IsLive c in (k, low)

interleave_keyed-ends_example :
    (rounds : ℕ) × (t : List ℕ) × (length t ≡ length payload)
    × ((more : ℕ) → interleave stream_cipher (rounds + more) layer payload 510 ≡ ok t)
    × ((more : ℕ) → deinterleave stream_cipher (rounds + more) layer t 510 ≡ ok payload)
interleave_keyed-ends_example =
    interleave_keyed-ends stream_cipher stream_cipher-IsEventuallyLive layer payload 510
      (omega arith) (omega arith)

-- Crates whose calls return.
abbrev sound : FuzzedCrates
sound = record {
  decode = λ xs n. ok (corrected xs);
  decode_framed = λ xs. ok uncorrectable;
  Decoder = ℕ;
  new_decoder = λ n. ok (some n);
  decode_block = λ d xs nbits. ok (decoded xs, d);
}

abbrev input : List ℕ
input = 0x41 ∷ 0xFF ∷ []

sound_ends : fuzz_fec_crates sound input ≡ ok tt
unfolding fuzz_fec_crates read slice drive_crates
sound_ends = refl

-- A panic of the inner decoder at the bit count that the target computes is found.
abbrev unsound : FuzzedCrates
unsound = record sound {
  decode_block = λ d xs nbits. if nbits == 7 then panic else ok (decoded xs, d);
}

unsound_panics : fuzz_fec_crates unsound input ≡ panic
unfolding fuzz_fec_crates read slice drive_crates
unsound_panics = refl

empty_skipped : fuzz_fec_crates unsound [] ≡ ok tt
unfolding fuzz_fec_crates
empty_skipped = refl
