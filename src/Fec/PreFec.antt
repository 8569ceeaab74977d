-- ===== src/Fec/PreFec.antt =====
-- The free function `validate_pre_fec` of src/blob.rs: the gate before the concatenated decode.
use cryptovault.Common.{
  ℕ, ◌%◌, ◌≤◌, ◌<◌, ◌≡◌, ◌↔◌, ◌⊎◌, sym, ap, ◌∙◌, List, ◌||◌, ◌==◌, not, ltb, lt→ltb, le→ltb, inl,
  inr, true, arith, length, dec_lt, ℕ_discrete, subst,
}
use cryptovault.Consts.{max_blob_len, rs_block}
use cryptovault.Error.{Result, ok, err, ◌>>=◌, ◌>>◌, reject_if, invalid_input, ok-injective}
use cryptovault.Fec.Viterbi.{rs_len_from_body}
use cryptovault.Fec.Viterbi.Framing.{coded_len, rs_len_from_body_cases, rs_len_from_body-coded_len}

unfoldable pub validate_pre_fec : List ℕ → Result ℕ
unfolding rs_len_from_body
validate_pre_fec received = do
  reject_if (ltb max_blob_len (length received)) (invalid_input "input exceeds maximum size")
  l ← rs_len_from_body (length received)
  reject_if (l == 0 || not (l % rs_block == 0)) (invalid_input "malformed blob")
  ok l

-- The lengths that the gate is to accept: those of a coded stream of whole codewords, within the cap.
abbrev pub Framed : ℕ → ℕ → Type 0
Framed n l = (n ≤ max_blob_len) × (n ≡ coded_len l) × (1 ≤ l) × (l % rs_block ≡ 0)

pub validate_pre_fec-Framed :
    (received : List ℕ) (l : ℕ) → Framed (length received) l → validate_pre_fec received ≡ ok l
unfolding validate_pre_fec
validate_pre_fec-Framed received l (cap, e, pos, whole) =
    rw
      (
        le→ltb max_blob_len (length received) cap,
        ap rs_len_from_body e ∙ rs_len_from_body-coded_len l,
      )
      (ground arith)

-- The two refusals, with their fixed messages.
abbrev pub IsRefusal : Result ℕ → Type 0
IsRefusal r =
    (r ≡ err (invalid_input "input exceeds maximum size"))
    ⊎ (r ≡ err (invalid_input "malformed blob"))

pub validate_pre_fec_cases :
    (received : List ℕ)
    → ((l : ℕ) × Framed (length received) l) ⊎ IsRefusal (validate_pre_fec received)
unfolding validate_pre_fec
validate_pre_fec_cases received = elim (dec_lt max_blob_len (length received)) [
  | yes big ↦ inr (inl (rw (lt→ltb max_blob_len (length received) big)))
  | no fits ↦ elim (rs_len_from_body_cases (length received)) [
    | inl (l, e) ↦ elim (dec_lt 0 l) [
      | yes pos ↦ elim (ℕ_discrete (l % rs_block) 0) [
        | yes whole ↦ inl (l, (omega arith, e, pos, whole))
        | no broken ↦ inr (inr (refused l fits e (ground arith)))
      ]
      | no empty ↦ inr (inr (refused l fits e (ground arith)))
    ]
    | inr bad ↦ inr (inr (rw (le→ltb max_blob_len (length received) (omega arith), bad)))
  ]
]
  where
    refused :
        (l : ℕ)
        → ¬ (max_blob_len < length received)
        → length received ≡ coded_len l
        → (l == 0 || not (l % rs_block == 0)) ≡ true
        → validate_pre_fec received ≡ err (invalid_input "malformed blob")
    refused l fits e bad = rw (
      le→ltb max_blob_len (length received) (omega arith),
      ap rs_len_from_body e ∙ rs_len_from_body-coded_len l,
      bad,
    )

-- The gate accepts a received body with the stream length `l` exactly when the body is within the
-- cap and is as long as the coded stream of `l` bytes, `l` a positive whole number of codewords;
-- it refuses every other body, with one of two fixed messages.
pub validate_pre_fec_iff :
    (received : List ℕ)
    → ((l : ℕ) → (validate_pre_fec received ≡ ok l) ↔ Framed (length received) l)
      × (((l : ℕ) × (validate_pre_fec received ≡ ok l)) ⊎ IsRefusal (validate_pre_fec received))
validate_pre_fec_iff received = elim (validate_pre_fec_cases received) [
  | inl (k, f) ↦
      let run = validate_pre_fec-Framed received k f in
      (
        λ l. (
          λ h. subst (λ (n : ℕ). Framed (length received) n) (ok-injective (sym run ∙ h)) f,
          validate_pre_fec-Framed received l,
        ),
        inl (k, run),
      )
  | inr bad ↦ (λ l. (λ h. no_value bad h, validate_pre_fec-Framed received l), inr bad)
]
  where
    no_value : {r : Result ℕ} {l : ℕ} {P : Type 0} → IsRefusal r → r ≡ ok l → P
    no_value (inl a) h = cc
    no_value (inr b) h = cc
