-- ===== src/Xtask/Version.antt =====
-- xtask/src/main.rs: reading the version in a manifest.
use cryptovault.Common.{
  ℕ, Option, none, some, List, [], ◌∷◌, Bool, ◌||◌, ◌==◌, if◌then◌else◌, bytes_of, same_text,
}
use cryptovault.Xtask.Text.{
  is_empty, trim_start_matches, trim_matches, trim, trim_start, strip_prefix, starts_with,
}

abbrev pub is_quote : ℕ → Bool
is_quote c = c == b'"'

-- `let value = rest.trim_matches('"'); if value.is_empty() || value == rest { None } …`
unfoldable pub quoted_value : List ℕ → Option (List ℕ)
unfolding trim_matches is_empty
quoted_value rest =
    let value = trim_matches is_quote rest in
    if is_empty value || same_text value rest then none else some value

-- The two steps after a `strip_prefix(…)?`.
abbrev pub value_after : Option (List ℕ) → Option (List ℕ)
value_after none = none
value_after (some rest) = quoted_value (trim rest)

abbrev pub sign_after : Option (List ℕ) → Option (List ℕ)
sign_after none = none
sign_after (some rest) = value_after (strip_prefix (bytes_of "=") (trim_start rest))

unfoldable pub parse_version_line : List ℕ → Option (List ℕ)
unfolding strip_prefix trim_start_matches trim_matches quoted_value
parse_version_line line = sign_after (strip_prefix (bytes_of "version") line)

-- The loop over the manifest's lines.
unfoldable pub scan_manifest : Bool → List (List ℕ) → Option (List ℕ)
unfolding trim_matches starts_with parse_version_line
scan_manifest in_package [] = none
scan_manifest in_package (line ∷ rest) =
    let trimmed = trim line in
    let after_header = scan_manifest (same_text trimmed (bytes_of "[package]")) rest in
    let after_field = scan_manifest in_package rest in
    if starts_with b'[' trimmed
    then after_header
    else if in_package
    then (elim (parse_version_line trimmed) [ some v ↦ some v | none ↦ after_field ])
    else after_field
