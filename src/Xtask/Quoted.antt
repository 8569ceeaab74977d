-- ===== src/Xtask/Quoted.antt =====
-- xtask/src/main.rs: `parse_version_line` on the line that a manifest holds.
use mathlib.Core.List.{Memᴰ}
use cryptovault.Common.{
  ℕ, suc, ◌≡◌, refl, ap, ◌∙◌, some, List, [], ◌∷◌, ◌++◌, Bool, true, false, Bool-cases, inl, inr,
  length, length-append, arith, bytes_of, same_text, same_text-eq,
}
use cryptovault.Xtask.Version.{value_after, parse_version_line, quoted_value, is_quote}
use cryptovault.Xtask.Text.{
  is_whitespace, trim_start_matches, trim_end_matches, trim_matches, keep_char, is_empty,
  strip_prefix,
}
use cryptovault.Xtask.Trims.{AllPass, trim_start_matches-append}

module _ (p : ℕ → Bool) where
  -- No character passes the test.
  abbrev pub NonePass : List ℕ → Type 0
  NonePass s = (c : ℕ) → Memᴰ c s → p c ≡ false

  trim_start_matches-all : (s : List ℕ) → AllPass p s → trim_start_matches p s ≡ []
  unfolding trim_start_matches
  trim_start_matches-all [] h = refl
  trim_start_matches-all (c ∷ s) h =
      rw (h c (Memᴰ.head refl)) (trim_start_matches-all s (λ d m. h d (Memᴰ.tail m)))

  keep_char-none : (c : ℕ) (s : List ℕ) → p c ≡ false → keep_char p c s ≡ c ∷ s
  keep_char-none c [] h = rw h
  keep_char-none c (d ∷ s) h = refl

  trim_end_matches-kept :
      (s : List ℕ) (c : ℕ) → p c ≡ false → trim_end_matches p (s ++ (c ∷ [])) ≡ s ++ (c ∷ [])
  unfolding trim_end_matches
  trim_end_matches-kept [] c h = rw h
  trim_end_matches-kept (d ∷ []) c h = rw h
  trim_end_matches-kept (d ∷ e ∷ s) c h = rw (trim_end_matches-kept (e ∷ s) c h)

  trim_end_matches-last :
      (s : List ℕ) (c : ℕ) → NonePass s → p c ≡ true → trim_end_matches p (s ++ (c ∷ [])) ≡ s
  unfolding trim_end_matches
  trim_end_matches-last [] c none_pass h = rw h
  trim_end_matches-last (d ∷ s) c none_pass h =
      ap (λ t. keep_char p d t) (trim_end_matches-last s c (λ e m. none_pass e (Memᴰ.tail m)) h)
      ∙ keep_char-none d s (none_pass d (Memᴰ.head refl))

  -- A gap before a character that is not trimmed.
  trim_start_matches-gap :
      (gap : List ℕ) (c : ℕ) (s : List ℕ)
      → AllPass p gap
      → p c ≡ false
      → trim_start_matches p (gap ++ (c ∷ s)) ≡ c ∷ s
  trim_start_matches-gap gap c s h f =
      trim_start_matches-append p gap s c f ∙ ap (λ t. t ++ (c ∷ s)) (trim_start_matches-all gap h)

abbrev pub quoted : List ℕ → List ℕ
quoted v = b'"' ∷ (v ++ (b'"' ∷ []))

quoted_value-quoted :
    (a : ℕ) (w : List ℕ) → NonePass is_quote (a ∷ w) → quoted_value (quoted (a ∷ w)) ≡ some (a ∷ w)
unfolding quoted_value trim_matches is_empty
quoted_value-quoted a w h =
    let start : trim_start_matches is_quote (quoted (a ∷ w)) ≡ (a ∷ w) ++ (b'"' ∷ []) =
      unquote a w (h a (Memᴰ.head refl)) in
    let value : trim_matches is_quote (quoted (a ∷ w)) ≡ a ∷ w =
      ap (λ t. trim_end_matches is_quote t) start
      ∙ trim_end_matches-last is_quote (a ∷ w) b'"' h refl in
    rw (value, differs (a ∷ w))
  where
    only_quote : AllPass is_quote (b'"' ∷ [])
    only_quote c (Memᴰ.head e) = ap is_quote e
    only_quote c (Memᴰ.tail m) = elim m [ ]

    unquote :
        (b : ℕ) (s : List ℕ)
        → is_quote b ≡ false
        → trim_start_matches is_quote (quoted (b ∷ s)) ≡ (b ∷ s) ++ (b'"' ∷ [])
    unquote b s f = trim_start_matches-gap is_quote (b'"' ∷ []) b (s ++ (b'"' ∷ [])) only_quote f

    differs : (s : List ℕ) → same_text s (quoted s) ≡ false
    differs s = elim (Bool-cases (same_text s (quoted s))) [
      | inr f ↦ f
      | inl t ↦
          let size : length s ≡ suc (length (s ++ (b'"' ∷ []))) =
            ap (λ (t : List ℕ). length t) (same_text-eq s (quoted s) t) in
          absurd (omega (arith, length-append s (b'"' ∷ [])))
    ]

-- On "version", "=" and a quoted value that is not empty and has no quotes in it, with blanks on
-- either side of the sign, `parse_version_line` returns the value.
pub parse_version_line-quoted :
    (gap gap' : List ℕ) (a : ℕ) (w : List ℕ)
    → AllPass is_whitespace gap
    → AllPass is_whitespace gap'
    → NonePass is_quote (a ∷ w)
    → parse_version_line (bytes_of "version" ++ (gap ++ (bytes_of "=" ++ (gap' ++ quoted (a ∷ w)))))
      ≡ some (a ∷ w)
unfolding parse_version_line trim_matches strip_prefix
parse_version_line-quoted gap gap' a w hg hg' h =
    ap (λ t. value_after (strip_prefix (bytes_of "=") t))
      (trim_start_matches-gap is_whitespace gap b'=' (gap' ++ quoted (a ∷ w)) hg refl)
    ∙ ap (λ t. quoted_value (trim_end_matches is_whitespace t))
        (trim_start_matches-gap is_whitespace gap' b'"' ((a ∷ w) ++ (b'"' ∷ [])) hg' refl)
    ∙ ap (λ t. quoted_value t) (trim_end_matches-kept is_whitespace (b'"' ∷ a ∷ w) b'"' refl)
    ∙ quoted_value-quoted a w h
