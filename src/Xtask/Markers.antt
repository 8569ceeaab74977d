-- ===== src/Xtask/Markers.antt =====
-- xtask/src/main.rs: the signature markers of a review.
use mathlib.Core.List.{Memᴰ}
use cryptovault.Common.{
  ℕ, ◌+◌, ◌≡◌, refl, sym, ap, ◌∙◌, ◌↔◌, List, [], ◌∷◌, ◌++◌, Bool, not, true, false, Bool-cases,
  inl, inr, length, drop, append_assoc, bytes_of, Option-cases, subst,
}
use cryptovault.Xtask.Signature.{
  line_has_value, has_nonempty_marker, is_signed, reviewer_marker, date_marker, is_lead, is_star,
  is_pad,
}
use cryptovault.Xtask.Text.{is_empty, trim_start_matches, trim_matches, find, any, lines}
use cryptovault.Xtask.Trims.{
  trim_start_matches-append, trim_start_matches-splits, trim_matches-left, trim_matches-keeps,
}
use cryptovault.Xtask.Finds.{find-eq-some, find-after}

-- A line with the marker anywhere in it, and after that a character that is no padding.
abbrev pub IsMarkedLine : List ℕ → List ℕ → Type 0
IsMarkedLine marker line =
    (pre : List ℕ) × (post : List ℕ) × (c : ℕ) × (line ≡ pre ++ (marker ++ post))
    × Memᴰ c post
    × (is_pad c ≡ false)

abbrev pub IsMarked : List ℕ → List ℕ → Type 0
IsMarked text marker = (line : List ℕ) × Memᴰ line (lines text) × IsMarkedLine marker line

not-eq-true : (b : Bool) → not b ≡ true → b ≡ false
not-eq-true true h = cc
not-eq-true false h = refl

line_has_value-eq-true :
    (marker line : List ℕ) → line_has_value marker line ≡ true → IsMarkedLine marker line
unfolding line_has_value
line_has_value-eq-true marker line h =
    let once = trim_start_matches is_lead line in
    let stripped = trim_start_matches is_star once in
    elim (Option-cases (find marker stripped)) [
      | inl absent ↦ cc (rw (absent, line_has_value) at h)
      | inr (k, e) ↦
          let value = drop (k + length marker) stripped in
          let left : is_empty (trim_matches is_pad value) ≡ false =
            not-eq-true (is_empty (trim_matches is_pad value)) (rw (e, line_has_value) at h) in
          let (c, m, f) = trim_matches-left is_pad value left in
          let (lead, e1) = trim_start_matches-splits is_lead line in
          let (stars, e2) = trim_start_matches-splits is_star once in
          let (pre, e3) = find-eq-some marker stripped k e in
          let whole : line ≡ lead ++ (stars ++ (pre ++ (marker ++ value))) =
            e1 ∙ ap (λ t. lead ++ t) (e2 ∙ ap (λ t. stars ++ t) e3) in
          (
            lead ++ (stars ++ pre),
            value,
            c,
            whole
                ∙ ap (λ t. lead ++ t) (sym (append_assoc stars pre (marker ++ value)))
                ∙ sym (append_assoc lead (stars ++ pre) (marker ++ value)),
            m,
            f,
          )
    ]

line_has_value-true :
    (d : ℕ) (name line : List ℕ)
    → is_lead d ≡ false
    → is_star d ≡ false
    → IsMarkedLine (d ∷ name) line
    → line_has_value (d ∷ name) line ≡ true
unfolding line_has_value
line_has_value-true d name line hl hs (pre, post, c, e, m, f) =
    let (k, at, found) =
      find-after (d ∷ name) (trim_start_matches is_star (trim_start_matches is_lead pre)) post c
        m in
    let stripped : trim_start_matches is_star (trim_start_matches is_lead line)
        ≡ trim_start_matches is_star (trim_start_matches is_lead pre) ++ ((d ∷ name) ++ post) =
      ap (λ t. trim_start_matches is_star (trim_start_matches is_lead t)) e
      ∙ ap (λ t. trim_start_matches is_star t)
          (trim_start_matches-append is_lead pre (name ++ post) d hl)
      ∙ trim_start_matches-append is_star (trim_start_matches is_lead pre) (name ++ post) d hs in
    rw (
      ap (λ t. find (d ∷ name) t) stripped ∙ at,
      line_has_value,
      trim_matches-keeps is_pad _ c
          (subst (λ t. Memᴰ c (drop (k + length (d ∷ name)) t)) (sym stripped) found) f,
    )

module _ {A : Type 0} (p : A → Bool) where
  any-eq-true : (l : List A) → any p l ≡ true → (a : A) × Memᴰ a l × (p a ≡ true)
  unfolding any
  any-eq-true [] h = cc
  any-eq-true (a ∷ l) h = elim (Bool-cases (p a)) [
    | inl holds ↦ (a, Memᴰ.head refl, holds)
    | inr not_here ↦ let (b, m, holds) = any-eq-true l (rw not_here at h) in (b, Memᴰ.tail m, holds)
  ]

  any-true : (l : List A) (a : A) → Memᴰ a l → p a ≡ true → any p l ≡ true
  unfolding any
  any-true [] a m h = elim m [ ]
  any-true (b ∷ l) a (Memᴰ.head e) h = rw (ap p (sym e), h)
  any-true (b ∷ l) a (Memᴰ.tail m) h = elim (Bool-cases (p b)) [
    | inl holds ↦ rw holds
    | inr not_here ↦ rw not_here (any-true l a m h)
  ]

has_nonempty_marker_iff :
    (text : List ℕ) (d : ℕ) (name : List ℕ)
    → is_lead d ≡ false
    → is_star d ≡ false
    → (has_nonempty_marker text (d ∷ name) ≡ true) ↔ IsMarked text (d ∷ name)
unfolding has_nonempty_marker
has_nonempty_marker_iff text d name hl hs = (
  λ h.
      let (line, m, holds) = any-eq-true (line_has_value (d ∷ name)) (lines text) h in
      (line, m, line_has_value-eq-true (d ∷ name) line holds),
  λ (line, m, marked).
      any-true (line_has_value (d ∷ name)) (lines text) line m
        (line_has_value-true d name line hl hs marked),
)

-- `is_signed` holds exactly of a text with a line in which "Reviewer:" stands, at any place, before
-- a character that is no space, tab or star, and a line in which "Date:" stands so.
pub is_signed_iff :
    (text : List ℕ)
    → (is_signed text ≡ true) ↔ (IsMarked text reviewer_marker × IsMarked text date_marker)
unfolding is_signed
is_signed_iff text =
    let reviewer = has_nonempty_marker_iff text b'R' (bytes_of "eviewer:") refl refl in
    let date = has_nonempty_marker_iff text b'D' (bytes_of "ate:") refl refl in
    (
      λ h. elim (Bool-cases (has_nonempty_marker text reviewer_marker)) [
        | inl r ↦ (reviewer.0 r, date.0 (rw r at h))
        | inr r ↦ cc (rw r at h)
      ],
      λ (r, d). rw (reviewer.1 r, date.1 d),
    )
