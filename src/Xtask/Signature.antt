-- ===== src/Xtask/Signature.antt =====
-- xtask/src/main.rs: the markers that a signed review carries.
use cryptovault.Common.{
  ℕ, ◌+◌, none, some, List, Bool, ◌&&◌, ◌||◌, not, false, ◌==◌, bytes_of, length, drop,
}
use cryptovault.Xtask.Text.{is_empty, trim_start_matches, trim_matches, find, lines, any}

abbrev pub reviewer_marker : List ℕ
reviewer_marker = bytes_of "Reviewer:"

abbrev pub date_marker : List ℕ
date_marker = bytes_of "Date:"

abbrev pub is_pad : ℕ → Bool
is_pad c = c == b'*' || c == b' ' || c == b'\t'

abbrev has_value : List ℕ → Bool
has_value rest = not (is_empty (trim_matches is_pad rest))

abbrev pub is_lead : ℕ → Bool
is_lead c = c == b'-' || c == b'*' || c == b'#' || c == b'>' || c == b' ' || c == b'\t'

abbrev pub is_star : ℕ → Bool
is_star c = c == b'*'

-- The closure of `has_nonempty_marker`
unfoldable pub line_has_value : List ℕ → List ℕ → Bool
unfolding trim_start_matches trim_matches find is_empty
line_has_value marker line =
    let stripped = trim_start_matches is_star (trim_start_matches is_lead line) in
    elim (find marker stripped) [
      | none ↦ false
      | some idx ↦ has_value (drop (idx + length marker) stripped)
    ]

unfoldable pub has_nonempty_marker : List ℕ → List ℕ → Bool
unfolding lines any line_has_value
has_nonempty_marker text marker = any (line_has_value marker) (lines text)

unfoldable pub is_signed : List ℕ → Bool
unfolding has_nonempty_marker
is_signed text = has_nonempty_marker text reviewer_marker && has_nonempty_marker text date_marker
