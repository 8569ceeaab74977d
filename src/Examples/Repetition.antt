-- ===== src/Examples/Repetition.antt =====
-- A Reed-Solomon crate with the documented behaviour: every symbol of a codeword carries the whole
-- padded payload, and a symbol that at least 239 places of the first codeword agree on is the right one.
use cryptovault.Common.{
  ℕ, zero, suc, ◌+◌, ◌*◌, ◌≤◌, ◌<◌, ◌≡◌, refl, sym, ap, ◌∙◌, subst, Option, none, some, List, [],
  ◌∷◌, ◌==◌, ==_iff, leb, if◌then◌else◌, arith, length, take, replicate, length-replicate,
  length-take, Bool-cases, inl, inr, false,
}
use cryptovault.Consts.{rs_block, rs_data}
use cryptovault.Fec.ReedSolomon.{RsCrate, RsAnswer, corrected, uncorrectable}
use cryptovault.Fec.ReedSolomon.Laws.{distance, codeword_at, blocks_of, padded, IsReedSolomon}
use cryptovault.Examples.Code.{code, decode, decode-code}

-- The first of the candidates that all but 16 places of the block agree on.
unfoldable pub search : List ℕ → ℕ → List ℕ → Option ℕ
search [] k block = none
search (v ∷ vs) k block =
    let rest = search vs k block in if leb (distance (replicate k v) block) 16 then some v else rest

abbrev answer : ℕ → List ℕ → Option ℕ → RsAnswer
answer n [] o = corrected []
answer n (x ∷ r) none = uncorrectable
answer n (x ∷ r) (some v) = corrected (take n (decode v))

abbrev pub rs_crate : RsCrate
rs_crate = record {
  rs_encode = λ xs. some (replicate (blocks_of (length xs) * rs_block) (code (padded xs)));
  rs_decode = λ r n. answer n r (search (take rs_block r) rs_block (take rs_block r));
}

-- Two symbols that nearly all places agree on are one.
agree :
    (k v w : ℕ) (block : List ℕ)
    → length block ≡ k
    → distance (replicate k v) block + distance (replicate k w) block < k
    → v ≡ w
agree zero v w block e h = absurd (omega arith)
agree (suc k) v w [] e h = absurd (omega arith)
agree (suc k) v w (b ∷ block) e h = elim (Bool-cases (v == b)) [
  | inl same_v ↦ elim (Bool-cases (w == b)) [
    | inl same_w ↦ (==_iff v b).0 same_v ∙ sym ((==_iff w b).0 same_w)
    | inr other ↦ agree k v w block (omega arith) (ground arith)
  ]
  | inr other ↦ agree k v w block (omega arith) (ground arith)
]

not_far : {d : ℕ} → d ≤ 16 → leb d 16 ≡ false → ⊥
not_far {d} lo hi = ground arith

search-near :
    (vs : List ℕ) (j k v : ℕ) (block : List ℕ)
    → length block ≡ k
    → 32 < k
    → distance (replicate k v) block ≤ 16
    → length vs ≡ j
    → distance (replicate j v) vs < j
    → search vs k block ≡ some v
unfolding search
search-near [] zero k v block e hk near size h = absurd (omega arith)
search-near [] (suc j) k v block e hk near size h = absurd (omega arith)
search-near (u ∷ vs) zero k v block e hk near size h = absurd (omega arith)
search-near (u ∷ vs) (suc j) k v block e hk near size h =
    elim (Bool-cases (leb (distance (replicate k u) block) 16)) [
      | inl close ↦ rw close (ap some (agree k u v block e (ground arith)))
      | inr far ↦ rw far (search-near vs j k v block e hk near (omega arith) (smaller far))
    ]
  where
    smaller : leb (distance (replicate k u) block) 16 ≡ false → distance (replicate j v) vs < j
    smaller far = elim (Bool-cases (v == u)) [
      | inl same ↦
          let e2 : v ≡ u = (==_iff v u).0 same in
          let near_u : distance (replicate k u) block ≤ 16 =
            subst (λ (x : ℕ). distance (replicate k x) block ≤ 16) e2 near in
          absurd (not_far near_u far)
      | inr other ↦ ground arith
    ]

take-replicate : (k n v : ℕ) → k ≤ n → take k (replicate n v) ≡ replicate k v
take-replicate zero n v h = refl
take-replicate (suc k) zero v h = absurd (omega arith)
take-replicate (suc k) (suc n) v h = ap (λ (t : List ℕ). v ∷ t) (take-replicate k n v (omega arith))

answer-some :
    (n : ℕ) (r : List ℕ) (v : ℕ)
    → 1 ≤ length r
    → answer n r (some v) ≡ corrected (take n (decode v))
answer-some n [] v h = absurd (omega arith)
answer-some n (x ∷ r) v h = refl

-- Decoding at any block length above 32.
decode-near :
    (r : List ℕ) (k n v : ℕ)
    → 32 < k
    → k ≤ length r
    → distance (replicate k v) (take k r) ≤ 16
    → answer n r (search (take k r) k (take k r)) ≡ corrected (take n (decode v))
decode-near r k n v hk long near =
    let size : length (take k r) ≡ k = omega (arith, length-take k r) in
    ap (answer n r) (search-near (take k r) k k v (take k r) size hk near size (omega arith))
    ∙ answer-some n r v (omega arith)

pub rs_crate-IsReedSolomon : IsReedSolomon rs_crate
rs_crate-IsReedSolomon = record {
  encoded = λ xs h. (
    replicate (blocks_of (length xs) * rs_block) (code (padded xs)),
    refl,
    length-replicate {A = ℕ} (blocks_of (length xs) * rs_block) (code (padded xs)),
  );
  recovered = recovered_lem;
}
  where
    same_word : {a b : List ℕ} → some a ≡ some b → a ≡ b
    same_word h = cc

    recovered_lem :
        (xs cw r : List ℕ) (n : ℕ)
        → some (replicate (blocks_of (length xs) * rs_block) (code (padded xs))) ≡ some cw
        → length r ≡ length cw
        → ((j : ℕ) → distance (codeword_at cw j) (codeword_at r j) ≤ 16)
        → n ≤ blocks_of (length xs) * rs_data
        → answer n r (search (take rs_block r) rs_block (take rs_block r))
          ≡ corrected (take n (padded xs))
    recovered_lem [] cw [] n e size near hn =
        ap (λ (k : ℕ). corrected (take k (padded []))) (sym (omega_zero hn))
      where
        omega_zero : n ≤ 0 → n ≡ 0
        omega_zero h = omega arith
    recovered_lem [] cw (y ∷ r) n e size near hn =
        absurd (omega (arith, ap (λ (l : List ℕ). length l) (same_word e)))
    recovered_lem (x ∷ xs) cw r n e size near hn =
        let v = code (padded (x ∷ xs)) in
        let word = same_word e in
        let total = length-replicate {A = ℕ} (blocks_of (length (x ∷ xs)) * rs_block) v in
        let first : take rs_block cw ≡ replicate rs_block v =
          ap (take rs_block) (sym word)
          ∙ take-replicate rs_block (blocks_of (length (x ∷ xs)) * rs_block) v (omega arith) in
        decode-near r rs_block n v (omega arith)
          (omega (arith, total, ap (λ (l : List ℕ). length l) word))
          (subst (λ (l : List ℕ). distance l (take rs_block r) ≤ 16) first (near 0))
        ∙ ap (λ (l : List ℕ). corrected (take n l)) (decode-code (padded (x ∷ xs)))
