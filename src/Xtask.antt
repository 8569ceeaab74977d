-- ===== src/Xtask.antt =====
-- xtask/src/main.rs: the release gate. A text is its character codes; what the process prints is part
-- of its outcome. The paths, the files and the environment are the parameter `Host`. Version and
-- Signature are the readers of the manifest and of the review.
pub mod Text
pub mod Version
pub mod Signature
pub mod Finds
pub mod Roots
pub mod Trims
pub mod Markers
pub mod Manifest
pub mod Gate
pub mod Quoted
use cryptovault.Common.{
  ℕ, zero, suc, ◌+◌, String, Option, none, some, List, [], ◌∷◌, ◌++◌, Bool, ◌&&◌, ◌||◌, not, true,
  false, ◌==◌, if◌then◌else◌, bytes_of, same_text, length, drop,
}
use cryptovault.Error.{Result, ok, hang, ◌>>=◌}
use cryptovault.Xtask.Text.{
  is_empty, trim_start_matches, trim_matches, trim, trim_start, strip_prefix, starts_with, find,
  lines, any,
}
use cryptovault.Xtask.Version.{parse_version_line, scan_manifest}
use cryptovault.Xtask.Signature.{is_signed, reviewer_marker, date_marker}

abbrev pub reviews_dir : List ℕ
reviews_dir = bytes_of "docs/reviews"

-- What `read_to_string` answers: the contents, or the text of the error.
pub data Read : Type 0 where
  contents : List ℕ → Read
  failed : List ℕ → Read

pub record Host : Type 1 where
  pub PathBuf : Type 0
  pub join : PathBuf → List ℕ → PathBuf
  pub parent : PathBuf → Option PathBuf
  pub display : PathBuf → List ℕ
  -- `env!("CARGO_MANIFEST_DIR")`
  pub manifest_dir : PathBuf
  -- `std::env::current_dir().ok()`
  pub current_dir : Option PathBuf
  pub is_file : PathBuf → Bool
  pub is_dir : PathBuf → Bool
  pub read_to_string : PathBuf → Read

pub data ExitCode : Type 0 where
  success : ExitCode
  failure : ExitCode

-- A line that the process prints.
pub data Printed : Type 0 where
  out : List ℕ → Printed
  error : List ℕ → Printed

pub record Outcome : Type 0 where
  pub code : ExitCode
  pub printed : List Printed

-- The answer of `crate_version`: the version, or a message.
pub data VersionAnswer : Type 0 where
  version : List ℕ → VersionAnswer
  no_version : List ℕ → VersionAnswer

-- The lines of `print_usage`.
abbrev pub usage : List Printed
usage =
    error (bytes_of "usage: cargo run --manifest-path xtask/Cargo.toml -- <command>")
    ∷ error []
    ∷ error (bytes_of "commands:")
    ∷ error (
        bytes_of "  review-gate   Fail (non-zero) unless a signed FEC-review artifact\n"
        ++ bytes_of "                `"
        ++ reviews_dir
        ++ bytes_of "/fec-<version>.signed.md` exists for the\n"
        ++ bytes_of "                current crate version. NOT waivable via a flag.")
    ∷ []

abbrev fails : List ℕ → Outcome
fails message = record { code = failure; printed = error message ∷ [] }

abbrev pub unknown_command : List ℕ → Outcome
unknown_command command = record {
  code = failure;
  printed = error (bytes_of "xtask: unknown command `" ++ command ++ bytes_of "`") ∷ usage;
}

module _ (host : Host) where
  open host use {PathBuf, join, parent, display, is_file, is_dir, read_to_string}

  unfoldable pub crate_version : PathBuf → VersionAnswer
  unfolding scan_manifest lines
  crate_version root = elim (read_to_string (join root (bytes_of "Cargo.toml"))) [
    | failed e ↦ no_version (
        bytes_of "cannot read "
        ++ display (join root (bytes_of "Cargo.toml"))
        ++ bytes_of ": "
        ++ e)
    | contents text ↦ elim (scan_manifest false (lines text)) [
      | some v ↦ version v
      | none ↦
          no_version (
            bytes_of "no [package] version found in "
            ++ display (join root (bytes_of "Cargo.toml")))
    ]
  ]

  -- `dir.join("Cargo.toml").is_file() && dir.join(REVIEWS_DIR).is_dir()`
  unfoldable pub is_root : PathBuf → Bool
  is_root dir = is_file (join dir (bytes_of "Cargo.toml")) && is_dir (join dir reviews_dir)

  -- The `loop` of `repo_root`, on `fuel` rounds; `dir.pop()` makes `dir` its parent if it has one.
  unfoldable pub walk_up : ℕ → PathBuf → Result (Option PathBuf)
  unfolding is_root
  walk_up zero dir = hang
  walk_up (suc fuel) dir =
      if is_root dir
      then ok (some dir)
      else (elim (parent dir) [ none ↦ ok none | some above ↦ walk_up fuel above ])

  unfoldable pub walk_from_cwd : ℕ → Result (Option PathBuf)
  unfolding walk_up
  walk_from_cwd fuel = elim host.current_dir [ none ↦ ok none | some dir ↦ walk_up fuel dir ]

  unfoldable pub repo_root : ℕ → Result (Option PathBuf)
  unfolding is_root walk_from_cwd
  repo_root fuel = elim (parent host.manifest_dir) [
    | none ↦ walk_from_cwd fuel
    | some above ↦ if is_root above then ok (some above) else walk_from_cwd fuel
  ]

  -- `root.join(REVIEWS_DIR).join(format!("fec-{version}.signed.md"))`
  abbrev pub artifact_path : PathBuf → List ℕ → PathBuf
  artifact_path root v =
      join (join root reviews_dir) (bytes_of "fec-" ++ v ++ bytes_of ".signed.md")

  -- The `match` on the artifact.
  unfoldable pub check_artifact : PathBuf → List ℕ → Outcome
  unfolding is_signed
  check_artifact artifact v = elim (read_to_string artifact) [
    | contents text ↦
        if is_signed text
        then record {
          code = success;
          printed =
              out (bytes_of "review-gate: OK — signed FEC review found at " ++ display artifact)
              ∷ [];
        }
        else fails (
            bytes_of "review-gate: FAIL — "
            ++ display artifact
            ++ bytes_of " exists but is not a valid signed review\n  it MUST contain a `"
            ++ reviewer_marker
            ++ bytes_of "` line (reviewer identity) and a\n  `"
            ++ date_marker
            ++ bytes_of "` line (review date).")
    | failed e ↦ fails (
        bytes_of "review-gate: FAIL — required signed FEC review is missing.\n  expected: "
        ++ display artifact
        ++ bytes_of "\n  An external review of reedsolomon 0.1.0 / viterbi 0.0.1 MUST\n"
        ++ bytes_of "  be completed and signed before a\n  v"
        ++ v
        ++ bytes_of " tag. This gate is NOT waivable by a flag; a genuine\n"
        ++ bytes_of "  waiver requires a documented owner sign-off + rationale in the\n"
        ++ bytes_of "  release notes.")
  ]

  -- The rest of `review_gate` when `repo_root` has answered.
  unfoldable pub gate_at : Option PathBuf → Outcome
  unfolding crate_version check_artifact
  gate_at none = fails (bytes_of "review-gate: could not locate the repository root Cargo.toml")
  gate_at (some root) = elim (crate_version root) [
    | no_version e ↦ fails (bytes_of "review-gate: " ++ e)
    | version v ↦ check_artifact (artifact_path root v) v
  ]

  unfoldable pub review_gate : ℕ → Result Outcome
  unfolding repo_root gate_at
  review_gate fuel = do found ← repo_root fuel; ok (gate_at found)

  -- `main`, on the arguments after the program's name
  unfoldable pub main : ℕ → List (List ℕ) → Result Outcome
  unfolding review_gate
  main fuel [] = ok (record { code = failure; printed = usage })
  main fuel (command ∷ args) =
      if same_text command (bytes_of "review-gate")
      then review_gate fuel
      else ok (unknown_command command)
