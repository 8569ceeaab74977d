-- ===== src/Xtask/Trims.antt =====
-- What the functions of Xtask/Text do on a text that is put together from parts.
use mathlib.Core.List.{Memᴰ}
use mathlib.Core.List.Memᴰ
use cryptovault.Common.{
  ℕ, ◌≡◌, refl, sym, ap, ◌∙◌, some, List, [], ◌∷◌, ◌++◌, Bool, true, false, ◌==◌, Bool-cases, inl,
  inr, eq→==, subst, ==_iff, ap₂,
}
use cryptovault.Xtask.Text.{
  is_empty, keep_char, trim_start_matches, trim_end_matches, trim_matches, strip_prefix,
}

-- Every character passes the test.
abbrev pub AllPass : (ℕ → Bool) → List ℕ → Type 0
AllPass p s = (c : ℕ) → Memᴰ c s → p c ≡ true

pub trim_start_matches-append :
    (p : ℕ → Bool) (s t : List ℕ) (c : ℕ)
    → p c ≡ false
    → trim_start_matches p (s ++ (c ∷ t)) ≡ trim_start_matches p s ++ (c ∷ t)
unfolding trim_start_matches
trim_start_matches-append p [] t c h = rw h
trim_start_matches-append p (d ∷ s) t c h = elim (Bool-cases (p d)) [
  | inl passes ↦ rw passes (trim_start_matches-append p s t c h)
  | inr fails ↦ rw fails
]

-- What is trimmed is a first part.
pub trim_start_matches-splits :
    (p : ℕ → Bool) (s : List ℕ) → (lead : List ℕ) × (s ≡ lead ++ trim_start_matches p s)
unfolding trim_start_matches
trim_start_matches-splits p [] = ([], refl)
trim_start_matches-splits p (c ∷ s) = elim (Bool-cases (p c)) [
  | inl passes ↦
      let (lead, e) = trim_start_matches-splits p s in (c ∷ lead, rw passes (ap (λ t. c ∷ t) e))
  | inr fails ↦ ([], rw fails)
]

trim_start_matches-keeps :
    (p : ℕ → Bool) (s : List ℕ) (c : ℕ) → Memᴰ c s → p c ≡ false → Memᴰ c (trim_start_matches p s)
unfolding trim_start_matches
trim_start_matches-keeps p [] c m h = elim m [ ]
trim_start_matches-keeps p (d ∷ s) c (Memᴰ.head e) h = rw (ap p (sym e), h) (Memᴰ.head e)
trim_start_matches-keeps p (d ∷ s) c (Memᴰ.tail m) h = elim (Bool-cases (p d)) [
  | inl passes ↦ rw passes (trim_start_matches-keeps p s c m h)
  | inr fails ↦ rw fails (Memᴰ.tail m)
]

keep_char-tail :
    (p : ℕ → Bool) (c : ℕ) (t : List ℕ) → is_empty t ≡ false → is_empty (keep_char p c t) ≡ false
unfolding is_empty
keep_char-tail p c [] h = cc
keep_char-tail p c (d ∷ t) h = refl

keep_char-fails :
    (p : ℕ → Bool) (c : ℕ) (t : List ℕ) → p c ≡ false → is_empty (keep_char p c t) ≡ false
unfolding is_empty
keep_char-fails p c [] h = rw h
keep_char-fails p c (d ∷ t) h = refl

keep_char-passes :
    (p : ℕ → Bool) (c : ℕ) (t : List ℕ)
    → p c ≡ true
    → is_empty (keep_char p c t) ≡ false
    → is_empty t ≡ false
unfolding is_empty
keep_char-passes p c [] h e = cc (rw h at e)
keep_char-passes p c (d ∷ t) h e = refl

trim_end_matches-keeps :
    (p : ℕ → Bool) (s : List ℕ) (c : ℕ)
    → Memᴰ c s
    → p c ≡ false
    → is_empty (trim_end_matches p s) ≡ false
unfolding trim_end_matches
trim_end_matches-keeps p [] c m h = elim m [ ]
trim_end_matches-keeps p (d ∷ s) c (Memᴰ.head e) h =
    keep_char-fails p d (trim_end_matches p s) (ap p (sym e) ∙ h)
trim_end_matches-keeps p (d ∷ s) c (Memᴰ.tail m) h =
    keep_char-tail p d (trim_end_matches p s) (trim_end_matches-keeps p s c m h)

trim_end_matches-left :
    (p : ℕ → Bool) (s : List ℕ)
    → is_empty (trim_end_matches p s) ≡ false
    → (c : ℕ) × Memᴰ c s × (p c ≡ false)
unfolding trim_end_matches is_empty
trim_end_matches-left p [] h = cc
trim_end_matches-left p (d ∷ s) h = elim (Bool-cases (p d)) [
  | inl passes ↦
      let (c, m, f) =
        trim_end_matches-left p s (keep_char-passes p d (trim_end_matches p s) passes h) in
      (c, Memᴰ.tail m, f)
  | inr fails ↦ (d, Memᴰ.head refl, fails)
]

-- Trimming leaves something exactly of a text with a character that fails the test.
pub trim_matches-left :
    (p : ℕ → Bool) (s : List ℕ)
    → is_empty (trim_matches p s) ≡ false
    → (c : ℕ) × Memᴰ c s × (p c ≡ false)
unfolding trim_matches
trim_matches-left p s h =
    let (c, m, f) = trim_end_matches-left p (trim_start_matches p s) h in
    let (lead, e) = trim_start_matches-splits p s in
    (c, subst (λ t. Memᴰ c t) (sym e) (Memᴰ.append_right lead m), f)

pub trim_matches-keeps :
    (p : ℕ → Bool) (s : List ℕ) (c : ℕ)
    → Memᴰ c s
    → p c ≡ false
    → is_empty (trim_matches p s) ≡ false
unfolding trim_matches
trim_matches-keeps p s c m h =
    trim_end_matches-keeps p (trim_start_matches p s) c (trim_start_matches-keeps p s c m h) h

pub strip_prefix-append : (m s : List ℕ) → strip_prefix m (m ++ s) ≡ some s
unfolding strip_prefix
strip_prefix-append [] s = refl
strip_prefix-append (a ∷ m) s = rw (eq→== a a refl) (strip_prefix-append m s)

pub strip_prefix-eq-some :
    (m s : List ℕ) {rest : List ℕ} → strip_prefix m s ≡ some rest → s ≡ m ++ rest
unfolding strip_prefix
strip_prefix-eq-some [] s h = cc
strip_prefix-eq-some (a ∷ m) [] h = cc
strip_prefix-eq-some (a ∷ m) (c ∷ s) h = elim (Bool-cases (a == c)) [
  | inl same ↦
      ap₂ (λ b t. b ∷ t) (sym ((==_iff a c).0 same)) (strip_prefix-eq-some m s (rw same at h))
  | inr other ↦ cc (rw other at h)
]
