-- ===== src/Examples/Releases.antt =====
-- A repository at a release, and the release gate of xtask/src/main.rs on it.
use mathlib.Core.List.{Memᴰ}
use cryptovault.Common.{
  ℕ, ◌<◌, ◌≡◌, refl, ap, ◌∙◌, ◌↔◌, Option, none, some, List, [], ◌∷◌, Bool, true, not, ◌&&◌,
  Bool-cases, inl, inr, length, arith, bytes_of, same_text, if◌then◌else◌,
}
use cryptovault.Error.{ok}
use cryptovault.Xtask.{
  Host, Read, contents, failed, Outcome, success, main, crate_version, version, out, review_gate,
}
use cryptovault.Xtask.Version.{parse_version_line, is_quote}
use cryptovault.Xtask.Signature.{is_signed, reviewer_marker, date_marker}
use cryptovault.Xtask.Text.{is_whitespace, lines}
use cryptovault.Xtask.Trims.{AllPass}
use cryptovault.Xtask.Markers.{IsMarked, is_signed_iff}
use cryptovault.Xtask.Manifest.{IsPackageVersion, crate_version_iff}
use cryptovault.Xtask.Quoted.{NonePass, parse_version_line-quoted}
use cryptovault.Xtask.Roots.{IsPathSystem}
use cryptovault.Xtask.Gate.{IsReleasable, main_iff}

abbrev cargo : List ℕ
cargo =
    bytes_of "[package]\nname = \"vault\"\nversion = \"0.3.0\"\n\n[dependencies]\nversion = \"9\"\n"

abbrev review : List ℕ
review = bytes_of "# Review\r\n- **Reviewer:** Jane Auditor\r\n- **Date:** 2026-07-03\r\n"

abbrev Place : Type 0
Place = List (List ℕ)

abbrev up : Place → Option Place
up [] = none
up (name ∷ place) = some place

abbrev read_file : Place → Read
read_file [] = failed []
read_file (name ∷ []) = if same_text name (bytes_of "Cargo.toml") then contents cargo else failed []
read_file (name ∷ dir ∷ place) =
    if same_text name (bytes_of "fec-0.3.0.signed.md") then contents review else failed []

-- The tool's directory is "/xtask"; the current one is "/".
abbrev project : Host
project = record {
  PathBuf = Place;
  join = λ place name. name ∷ place;
  parent = up;
  display = λ place. [];
  manifest_dir = bytes_of "xtask" ∷ [];
  current_dir = some [];
  is_file = λ place. true;
  is_dir = λ place. true;
  read_to_string = read_file;
}

project-IsPathSystem : IsPathSystem project
project-IsPathSystem = record { depth = λ place. length place; parent_depth = shorter }
  where
    shorter : (dir above : Place) → up dir ≡ some above → length above < length dir
    shorter [] above h = cc
    shorter (name ∷ place) above h =
        let same : place ≡ above = cc h in omega (arith, ap (λ (p : Place). length p) same)

main_iff_example :
    (outcome : Outcome) × (main project 1 (bytes_of "review-gate" ∷ []) ≡ ok outcome)
    × ((outcome.code ≡ success) ↔ (
        (rest : List (List ℕ)) × (bytes_of "review-gate" ∷ [] ≡ bytes_of "review-gate" ∷ rest)
        × IsReleasable project))
unfolding project-IsPathSystem
main_iff_example = main_iff project project-IsPathSystem 1 root_only (bytes_of "review-gate" ∷ [])
  where
    root_only : (dir : Place) → some [] ≡ some dir → length dir < 1
    root_only dir h = let same : [] ≡ dir = cc h in omega (arith, ap (λ (p : Place). length p) same)

-- The gate opens on this repository.
gate_opens :
    review_gate project 1
    ≡ ok (record {
      code = success;
      printed = out (bytes_of "review-gate: OK — signed FEC review found at ") ∷ [];
    })
unfolding review_gate
gate_opens = refl

is_signed_iff_example :
    (is_signed review ≡ true) ↔ (IsMarked review reviewer_marker × IsMarked review date_marker)
is_signed_iff_example = is_signed_iff review

manifest_read : (crate_version project [] ≡ version (bytes_of "0.3.0")) ↔ (
    (text : List ℕ) × (read_file (bytes_of "Cargo.toml" ∷ []) ≡ contents text)
    × IsPackageVersion (lines text) (bytes_of "0.3.0"))
manifest_read = crate_version_iff project [] (bytes_of "0.3.0")

-- A comment behind the value is read as a part of it.
comment_kept :
    parse_version_line (bytes_of "version = \"1.2.3\" # \"final\" tag")
    ≡ some (bytes_of "1.2.3\" # \"final\" tag")
unfolding parse_version_line
comment_kept = refl

-- A marker in the middle of a sentence is read as a signature.
marker_anywhere : is_signed (bytes_of "No Reviewer: assigned. Release Date: unknown") ≡ true
unfolding is_signed
marker_anywhere = refl

abbrev none_of : (ℕ → Bool) → List ℕ → Bool
none_of p [] = true
none_of p (c ∷ s) = not (p c) && none_of p s

none_of-NonePass : (p : ℕ → Bool) (s : List ℕ) → none_of p s ≡ true → NonePass p s
none_of-NonePass p [] h d m = elim m [ ]
none_of-NonePass p (c ∷ s) h d m = elim (Bool-cases (p c)) [
  | inl t ↦ cc (rw t at h)
  | inr f ↦ elim m [
    | Memᴰ.head e ↦ ap p e ∙ f
    | Memᴰ.tail m' ↦ none_of-NonePass p s (rw f at h) d m'
  ]
]

one_blank : AllPass is_whitespace (b' ' ∷ [])
one_blank c (Memᴰ.head e) = ap is_whitespace e
one_blank c (Memᴰ.tail m) = elim m [ ]

quoted_version : parse_version_line (bytes_of "version = \"0.3.0\"") ≡ some (bytes_of "0.3.0")
quoted_version =
    parse_version_line-quoted (b' ' ∷ []) (b' ' ∷ []) b'0' (bytes_of ".3.0") one_blank one_blank
      (none_of-NonePass is_quote (bytes_of "0.3.0") refl)
