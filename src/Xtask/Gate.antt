-- ===== src/Xtask/Gate.antt =====
-- xtask/src/main.rs: when the release gate opens.
use cryptovault.Common.{
  ℕ, ◌<◌, ◌≡◌, refl, ap, ◌↔◌, Option, none, some, List, [], ◌∷◌, false, Bool-cases, inl, inr,
  same_text, bytes_of, same_text-eq, subst,
}
use cryptovault.Error.{ok}
use cryptovault.Xtask.{
  Host, Read, contents, failed, success, check_artifact, artifact_path, gate_at, review_gate, main,
  crate_version, version, no_version, VersionAnswer, Outcome, failure, usage, unknown_command,
}
use cryptovault.Xtask.Signature.{reviewer_marker, date_marker, is_signed}
use cryptovault.Xtask.Text.{lines}
use cryptovault.Xtask.Markers.{IsMarked, is_signed_iff}
use cryptovault.Xtask.Manifest.{IsPackageVersion, crate_version_iff, cons-head}
use cryptovault.Xtask.Roots.{IsPathSystem, IsRepoRoot, repo_root_lem}

module _ (host : Host) where
  open host use {PathBuf}

  -- A repository is found, its manifest has a version, and the review of that version is there and
  -- has both markers.
  pub record IsReleasable : Type 0 where
    pub root : PathBuf
    pub manifest : List ℕ
    pub release : List ℕ
    pub text : List ℕ
    pub is_root : IsRepoRoot host root
    pub manifest_read :
        host.read_to_string (host.join root (bytes_of "Cargo.toml")) ≡ contents manifest
    pub package_version : IsPackageVersion (lines manifest) release
    pub review_read : host.read_to_string (artifact_path host root release) ≡ contents text
    pub reviewer : IsMarked text reviewer_marker
    pub date : IsMarked text date_marker

module _ (host : Host) (paths : IsPathSystem host) where
  open host use {PathBuf}

  artifact_iff :
      (artifact : PathBuf) (v : List ℕ)
      → ((check_artifact host artifact v).code ≡ success) ↔ (
          (text : List ℕ) × (host.read_to_string artifact ≡ contents text)
          × IsMarked text reviewer_marker
          × IsMarked text date_marker)
  unfolding check_artifact
  artifact_iff artifact v = (
    there (host.read_to_string artifact) refl,
    λ (text, e, r, d). rw (e, check_artifact, (is_signed_iff text).1 (r, d)),
  )
    where
      there :
          (answer : Read)
          → host.read_to_string artifact ≡ answer
          → (check_artifact host artifact v).code ≡ success
          → (text : List ℕ) × (host.read_to_string artifact ≡ contents text)
            × IsMarked text reviewer_marker
            × IsMarked text date_marker
      there (failed e) at run = cc (rw (at, check_artifact) at run)
      there (contents text) at run = elim (Bool-cases (is_signed text)) [
        | inl signed ↦ let (r, d) = (is_signed_iff text).0 signed in (text, at, r, d)
        | inr unsigned ↦ cc (rw (at, check_artifact, unsigned) at run)
      ]

  gate_at_iff :
      (found : Option PathBuf)
      → ((root : PathBuf) → (found ≡ some root) ↔ IsRepoRoot host root)
      → ((gate_at host found).code ≡ success) ↔ IsReleasable host
  unfolding gate_at
  gate_at_iff none finds = (λ e. cc, λ r. cc ((finds r.root).1 r.is_root))
  gate_at_iff (some root) finds = (open_gate (crate_version host root) refl, closed)
    where
      open_gate :
          (answer : VersionAnswer)
          → crate_version host root ≡ answer
          → (gate_at host (some root)).code ≡ success
          → IsReleasable host
      open_gate (no_version e) at run = cc (rw (at, gate_at) at run)
      open_gate (version v) at run =
          let (manifest, m, first) = (crate_version_iff host root v).0 at in
          let (text, t, reviewer, date) =
            (artifact_iff (artifact_path host root v) v).0 (rw (at, gate_at) at run) in
          record {
            root = root;
            manifest = manifest;
            release = v;
            text = text;
            is_root = (finds root).0 refl;
            manifest_read = m;
            package_version = first;
            review_read = t;
            reviewer = reviewer;
            date = date;
          }

      closed : IsReleasable host → (gate_at host (some root)).code ≡ success
      closed r =
          let same : r.root ≡ root = cc ((finds r.root).1 r.is_root) in
          let reads : crate_version host root ≡ version r.release =
            subst (λ d. crate_version host d ≡ version r.release) same
              ((crate_version_iff host r.root r.release).1
                (r.manifest, r.manifest_read, r.package_version)) in
          rw (reads, gate_at)
            (subst
              (λ d. (check_artifact host (artifact_path host d r.release) r.release).code ≡ success)
              same
              ((artifact_iff (artifact_path host r.root r.release) r.release).1
                (r.text, r.review_read, r.reviewer, r.date)))

  -- With paths that have finitely many directories above them, and more rounds than there are above
  -- the current directory, `main` ends, and it exits with success exactly if its first argument is
  -- "review-gate" and the release is ready: the repository's root is found, the manifest there has a
  -- version in `[package]`, and the review of that version is there, with a reviewer and a date.
  pub main_iff :
      (fuel : ℕ)
      → ((dir : PathBuf) → host.current_dir ≡ some dir → paths.depth dir < fuel)
      → (args : List (List ℕ))
      → (outcome : Outcome) × (main host fuel args ≡ ok outcome)
        × ((outcome.code ≡ success)
            ↔ ((rest : List (List ℕ)) × (args ≡ bytes_of "review-gate" ∷ rest) × IsReleasable host))
  unfolding main review_gate
  main_iff fuel enough [] =
      (record { code = failure; printed = usage }, refl, (λ e. cc, λ (rest, e, r). cc))
  main_iff fuel enough (command ∷ args) =
      let (found, run, finds) = repo_root_lem host paths fuel enough in
      let gate = gate_at_iff found finds in
      elim (Bool-cases (same_text command (bytes_of "review-gate"))) [
        | inl same ↦ (
          gate_at host found,
          rw (same, run),
          (
            λ e. (
              args,
              ap (λ c. c ∷ args) (same_text-eq command (bytes_of "review-gate") same),
              gate.0 e,
            ),
            λ (rest, e, r). gate.1 r,
          ),
        )
        | inr other ↦ (
          unknown_command command,
          rw other,
          (
            λ e. cc,
            λ (rest, e, r).
                cc (subst (λ c. same_text c (bytes_of "review-gate") ≡ false) (cons-head e) other),
          ),
        )
      ]
