-- ===== src/Xtask/Manifest.antt =====
-- xtask/src/main.rs: the version that `crate_version` reads in a manifest.
use cryptovault.Common.{
  ℕ, ◌≡◌, ◌≢◌, refl, sym, ap, ◌∙◌, ◌↔◌, ◌⊎◌, some, List, [], ◌∷◌, ◌++◌, Bool, true, false,
  Bool-cases, inl, inr, same_text, bytes_of, if◌then◌else◌, Option-cases, subst,
}
use cryptovault.Xtask.{Host, Read, contents, failed, crate_version, version}
use cryptovault.Xtask.Version.{scan_manifest, parse_version_line}
use cryptovault.Xtask.Text.{starts_with, trim, lines}

abbrev is_header : List ℕ → Bool
is_header line = starts_with b'[' (trim line)

-- Whether the lines leave the section `[package]` open: whether the last header is its own, and what
-- was open before if there is none.
abbrev pub opens_package : Bool → List (List ℕ) → Bool
opens_package open_before [] = open_before
opens_package open_before (line ∷ rest) =
    opens_package
      (if is_header line then same_text (trim line) (bytes_of "[package]") else open_before) rest

-- After the lines `before`, a line that is no header assigns the version `v` in `[package]`.
abbrev IsAssigned : Bool → List (List ℕ) → List ℕ → List ℕ → Type 0
IsAssigned open_before before line v =
    (opens_package open_before before ≡ true)
    × (is_header line ≡ false)
    × (parse_version_line (trim line) ≡ some v)

-- `v` is the version of the first line of `[package]` that assigns one.
abbrev IsFirst : Bool → List (List ℕ) → List ℕ → Type 0
IsFirst open_before ls v =
    (before : List (List ℕ)) × (line : List ℕ) × (after : List (List ℕ)) × (ls
      ≡ before ++ (line ∷ after))
    × IsAssigned open_before before line v
    × ((before' : List (List ℕ)) (line' : List ℕ) (between : List (List ℕ)) (v' : List ℕ)
        → before ≡ before' ++ (line' ∷ between)
        → ¬ IsAssigned open_before before' line' v')

pub cons-head {ℓ} : {A : Type ℓ} {a b : A} {s t : List A} → a ∷ s ≡ b ∷ t → a ≡ b
cons-head e = cc

cons-tail {ℓ} : {A : Type ℓ} {a b : A} {s t : List A} → a ∷ s ≡ b ∷ t → s ≡ t
cons-tail e = cc

abbrev pub IsPackageVersion : List (List ℕ) → List ℕ → Type 0
IsPackageVersion ls v = IsFirst false ls v

-- Whether `[package]` is open after a line.
abbrev open_after : Bool → List ℕ → Bool
open_after open_before line =
    if is_header line then same_text (trim line) (bytes_of "[package]") else open_before

no_cons : (before after : List (List ℕ)) (line : List ℕ) → [] ≢ before ++ (line ∷ after)
no_cons [] after line e = cc
no_cons (l ∷ before) after line e = cc

-- A line assigns a version or is passed over.
assigns_or_skips :
    (b : Bool) (line : List ℕ) (rest : List (List ℕ))
    → ((v : List ℕ) × IsAssigned b [] line v × (scan_manifest b (line ∷ rest) ≡ some v))
      ⊎ (((v : List ℕ) → ¬ IsAssigned b [] line v)
          × (scan_manifest b (line ∷ rest) ≡ scan_manifest (open_after b line) rest))
unfolding scan_manifest
assigns_or_skips b line rest = elim (Bool-cases (is_header line)) [
  | inl header ↦ inr ((λ v (o, h, p). cc), rw header)
  | inr field ↦ elim (Bool-cases b) [
    | inr closed ↦ inr ((λ v (o, h, p). cc), rw (field, closed))
    | inl opened ↦ elim (Option-cases (parse_version_line (trim line))) [
      | inl no_value ↦ inr (
        (λ v (o, h, p). cc),
        rw (field, opened, no_value) (ap (λ c. scan_manifest c rest) opened),
      )
      | inr (v, e) ↦ inl (v, (opened, field, e), rw (field, opened, e))
    ]
  ]
]

-- The version of the rest is that of the whole, behind a line that assigns none.
IsFirst-cons :
    (b : Bool) (line : List ℕ) (rest : List (List ℕ)) (v : List ℕ)
    → ((w : List ℕ) → ¬ IsAssigned b [] line w)
    → IsFirst (open_after b line) rest v
    → IsFirst b (line ∷ rest) v
IsFirst-cons b line rest v skips (before, l, after, e, assigned, first) =
    (line ∷ before, l, after, ap (λ ls. line ∷ ls) e, assigned, earlier)
  where
    earlier :
        (before' : List (List ℕ)) (line' : List ℕ) (between : List (List ℕ)) (w : List ℕ)
        → line ∷ before ≡ before' ++ (line' ∷ between)
        → ¬ IsAssigned b before' line' w
    earlier [] line' between w e' a =
        skips w (subst (λ k. IsAssigned b [] k w) (sym (cons-head e')) a)
    earlier (l' ∷ before') line' between w e' a =
        first before' line' between w (cons-tail e')
          (subst (λ k. IsAssigned b (k ∷ before') line' w) (sym (cons-head e')) a)

-- The loop returns the version of the first line that assigns one in `[package]`.
scan_manifest-eq-some :
    (b : Bool) (ls : List (List ℕ)) (v : List ℕ) → scan_manifest b ls ≡ some v → IsFirst b ls v
unfolding scan_manifest
scan_manifest-eq-some b [] v h = cc
scan_manifest-eq-some b (line ∷ rest) v h = elim (assigns_or_skips b line rest) [
  | inl (w, assigned, e) ↦
      let same : w ≡ v = cc (e, h) in
      (
        [],
        line,
        rest,
        refl,
        subst (λ u. IsAssigned b [] line u) same assigned,
        λ before' line' between v' e' a. absurd (no_cons before' between line' e'),
      )
  | inr (skips, e) ↦
      IsFirst-cons b line rest v skips
        (scan_manifest-eq-some (open_after b line) rest v (sym e ∙ h))
]

scan_manifest-some :
    (b : Bool) (ls : List (List ℕ)) (v : List ℕ) → IsFirst b ls v → scan_manifest b ls ≡ some v
scan_manifest-some b [] v (before, line, after, e, assigned, first) =
    absurd (no_cons before after line e)
scan_manifest-some b (l ∷ ls) v ([], line, after, e, assigned, first) =
    elim (assigns_or_skips b l ls) [
      | inl (w, (o, h, p), run) ↦ let same : l ≡ line = cons-head e in cc (run, p, assigned.2, same)
      | inr (skips, run) ↦
          absurd (skips v (subst (λ k. IsAssigned b [] k v) (sym (cons-head e)) assigned))
    ]
scan_manifest-some b (l ∷ ls) v (k ∷ before, line, after, e, assigned, first) =
    let same : k ≡ l = sym (cons-head e) in
    elim (assigns_or_skips b l ls) [
      | inl (w, a, run) ↦
          absurd (first [] k before w refl (subst (λ j. IsAssigned b [] j w) (sym same) a))
      | inr (skips, run) ↦
          run
          ∙ scan_manifest-some (open_after b l) ls v (
            before,
            line,
            after,
            cons-tail e,
            subst (λ j. IsAssigned (open_after b j) before line v) same assigned,
            λ before' line' between v' e' a.
                first (k ∷ before') line' between v' (ap (λ ls. k ∷ ls) e')
                  (subst (λ j. IsAssigned (open_after b j) before' line' v') (sym same) a),
          )
    ]

module _ (host : Host) where
  open host use {PathBuf, join, read_to_string}

  -- `crate_version` returns a version exactly if the manifest is read and has it.
  pub crate_version_iff :
      (root : PathBuf) (v : List ℕ)
      → (crate_version host root ≡ version v) ↔ (
          (text : List ℕ) × (read_to_string (join root (bytes_of "Cargo.toml")) ≡ contents text)
          × IsPackageVersion (lines text) v)
  unfolding crate_version
  crate_version_iff root v = (
    there (read_to_string (join root (bytes_of "Cargo.toml"))) refl,
    λ (text, e, first). rw (e, crate_version, scan_manifest-some false (lines text) v first),
  )
    where
      there :
          (answer : Read)
          → read_to_string (join root (bytes_of "Cargo.toml")) ≡ answer
          → crate_version host root ≡ version v
          → (text : List ℕ) × (read_to_string (join root (bytes_of "Cargo.toml")) ≡ contents text)
            × IsPackageVersion (lines text) v
      there (failed e) at run = cc (rw (at, crate_version) at run)
      there (contents text) at run = elim (Option-cases (scan_manifest false (lines text))) [
        | inl no_line ↦ cc (rw (at, crate_version, no_line) at run)
        | inr (w, f) ↦
            let same : w ≡ v = cc (rw (at, crate_version, f) at run) in
            (text, at, scan_manifest-eq-some false (lines text) v (f ∙ ap some same))
      ]
