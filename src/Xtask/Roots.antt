-- ===== src/Xtask/Roots.antt =====
-- xtask/src/main.rs: where `repo_root` finds the repository.
use cryptovault.Common.{
  ℕ, zero, suc, ◌<◌, ◌≡◌, refl, sym, ap, ◌∙◌, ◌↔◌, ◌⊎◌, Option, none, some, true, false, Bool-cases,
  inl, inr, bytes_of, arith, subst, Option-cases,
}
use cryptovault.Error.{ok}
use cryptovault.Xtask.{Host, is_root, reviews_dir, walk_up, walk_from_cwd, repo_root}

-- What the gate relies on of paths: there are finitely many directories above one.
pub record IsPathSystem (host : Host) : Type 0 where
  pub depth : host.PathBuf → ℕ
  pub parent_depth :
      (dir above : host.PathBuf) → host.parent dir ≡ some above → depth above < depth dir

module _ (host : Host) where
  open host use {PathBuf, parent}

  -- A directory with the manifest and the reviews.
  abbrev pub HasFiles : PathBuf → Type 0
  HasFiles dir =
      (host.is_file (host.join dir (bytes_of "Cargo.toml")) ≡ true)
      × (host.is_dir (host.join dir reviews_dir) ≡ true)

  is_root_iff : (dir : PathBuf) → (is_root host dir ≡ true) ↔ HasFiles dir
  unfolding is_root
  is_root_iff dir = (
    λ h. elim (Bool-cases (host.is_file (host.join dir (bytes_of "Cargo.toml")))) [
      | inl file ↦ (file, rw file at h)
      | inr no_file ↦ cc (rw no_file at h)
    ],
    λ (file, reviews). rw (file, reviews),
  )

  HasFiles-cases :
      (dir : PathBuf)
      → ((is_root host dir ≡ true) × HasFiles dir) ⊎ ((is_root host dir ≡ false) × ¬ HasFiles dir)
  HasFiles-cases dir = elim (Bool-cases (is_root host dir)) [
    | inl yes_root ↦ inl (yes_root, (is_root_iff dir).0 yes_root)
    | inr no_root ↦ inr (no_root, λ files. cc ((is_root_iff dir).1 files, no_root))
  ]

  -- `root` is the nearest directory with the repository's files, from `dir` upwards.
  pub data Nearest : PathBuf → PathBuf → Type 0 where
    here : {dir : PathBuf} → HasFiles dir → Nearest dir dir
    above :
        {dir up root : PathBuf}
        → ¬ HasFiles dir
        → parent dir ≡ some up
        → Nearest up root
        → Nearest dir root

  -- The directory above the tool's manifest, if it has the files, else the nearest to the current one.
  abbrev pub IsRepoRoot : PathBuf → Type 0
  IsRepoRoot root =
      ((parent host.manifest_dir ≡ some root) × HasFiles root)
      ⊎ (((dir : PathBuf) → parent host.manifest_dir ≡ some dir → ¬ HasFiles dir)
          × (dir : PathBuf) × (host.current_dir ≡ some dir)
          × Nearest dir root)

  Nearest-here : (dir root : PathBuf) → HasFiles dir → Nearest dir root → dir ≡ root
  Nearest-here dir root h (here t) = refl
  Nearest-here dir root h (above f e n) = absurd (f h)

  Nearest-above :
      (dir root : PathBuf)
      → ¬ HasFiles dir
      → Nearest dir root
      → (up : PathBuf) × (parent dir ≡ some up) × Nearest up root
  Nearest-above dir root h (here t) = absurd (h t)
  Nearest-above dir root h (above {up = up} f e n) = (up, e, n)

module _ (host : Host) (paths : IsPathSystem host) where
  open host use {PathBuf, parent}

  walk_up_lem :
      (fuel : ℕ) (dir : PathBuf)
      → paths.depth dir < fuel
      → (found : Option PathBuf) × (walk_up host fuel dir ≡ ok found)
        × ((root : PathBuf) → (found ≡ some root) ↔ Nearest host dir root)
  unfolding walk_up
  walk_up_lem zero dir h = absurd (omega arith)
  walk_up_lem (suc fuel) dir h = elim (HasFiles-cases host dir) [
    | inl (yes_root, files) ↦ (
      some dir,
      rw yes_root,
      λ root. (
        λ e. subst (λ r. Nearest host dir r) (cc e) (here files),
        λ n. ap some (Nearest-here host dir root files n),
      ),
    )
    | inr (no_root, no_files) ↦ elim (Option-cases (parent dir)) [
      | inl top ↦ (
        none,
        rw (no_root, top),
        λ root. (λ e. cc, λ n. let (up, e, _) = Nearest-above host dir root no_files n in cc),
      )
      | inr (up, e) ↦
          let (found, run, nearest) =
            walk_up_lem fuel up (omega (arith, paths.parent_depth dir up e)) in
          (
            found,
            rw (no_root, e) run,
            λ root. (
              λ f. above no_files e ((nearest root).0 f),
              λ n.
                  let (up', e', n') = Nearest-above host dir root no_files n in
                  (nearest root).1 (subst (λ u. Nearest host u root) (cc (e, e')) n'),
            ),
          )
    ]
  ]

  walk_from_cwd_at :
      (fuel : ℕ) (dir : PathBuf) (found : Option PathBuf)
      → host.current_dir ≡ some dir
      → walk_up host fuel dir ≡ ok found
      → walk_from_cwd host fuel ≡ ok found
  unfolding walk_from_cwd
  walk_from_cwd_at fuel dir found e run = rw e run

  walk_from_cwd_lem :
      (fuel : ℕ)
      → ((dir : PathBuf) → host.current_dir ≡ some dir → paths.depth dir < fuel)
      → (found : Option PathBuf) × (walk_from_cwd host fuel ≡ ok found)
        × ((root : PathBuf)
            → (found ≡ some root)
              ↔ ((dir : PathBuf) × (host.current_dir ≡ some dir) × Nearest host dir root))
  unfolding walk_from_cwd
  walk_from_cwd_lem fuel enough = elim (Option-cases host.current_dir) [
    | inl nowhere ↦ (none, rw nowhere, λ root. (λ e. cc, λ (dir, e, n). cc))
    | inr (dir, e) ↦
        let (found, run, nearest) = walk_up_lem fuel dir (enough dir e) in
        (
          found,
          walk_from_cwd_at fuel dir found e run,
          λ root. (
            λ f. (dir, e, (nearest root).0 f),
            λ (dir', e', n). (nearest root).1 (subst (λ d. Nearest host d root) (cc (e, e')) n),
          ),
        )
  ]

  -- `repo_root` returns, and finds a directory exactly if that is the repository's root.
  pub repo_root_lem :
      (fuel : ℕ)
      → ((dir : PathBuf) → host.current_dir ≡ some dir → paths.depth dir < fuel)
      → (found : Option PathBuf) × (repo_root host fuel ≡ ok found)
        × ((root : PathBuf) → (found ≡ some root) ↔ IsRepoRoot host root)
  unfolding repo_root
  repo_root_lem fuel enough =
      let (found, run, nearest) = walk_from_cwd_lem fuel enough in
      elim (Option-cases (parent host.manifest_dir)) [
        | inl top ↦ (
          found,
          rw (top, repo_root) run,
          λ root. (
            λ f. let (dir, e, n) = (nearest root).0 f in inr ((λ d e. cc), dir, e, n),
            λ r. elim r [ inl (e, _) ↦ cc | inr (_, dir, e, n) ↦ (nearest root).1 (dir, e, n) ],
          ),
        )
        | inr (up, e) ↦ elim (HasFiles-cases host up) [
          | inl (yes_root, files) ↦ (
            some up,
            rw (e, repo_root, yes_root),
            λ root. (
              λ f. inl (e ∙ f, subst (λ d. HasFiles host d) (cc f) files),
              λ r. elim r [
                | inl (e', _) ↦ sym e ∙ e'
                | inr (other, d, c, n) ↦ absurd (other up e files)
              ],
            ),
          )
          | inr (no_root, no_files) ↦ (
            found,
            rw (e, repo_root, no_root) run,
            λ root. (
              λ f.
                  let (dir, c, n) = (nearest root).0 f in
                  inr ((λ d e'. subst (λ d. ¬ HasFiles host d) (cc (e, e')) no_files), dir, c, n),
              λ r. elim r [
                | inl (e', files) ↦
                    let same : root ≡ up = cc (e, e') in
                    absurd (no_files (subst (λ d. HasFiles host d) same files))
                | inr (_, dir, c, n) ↦ (nearest root).1 (dir, c, n)
              ],
            ),
          )
        ]
      ]
