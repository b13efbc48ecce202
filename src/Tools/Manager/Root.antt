-- ===== src/Tools/Manager/Root.antt =====
-- `ResolveToolSource` of pkg/tools/source.go: its loop ends, at the nearest directory that holds a
-- manifest.
use jb_mesh.Base.{
  sym, subst, arith, ◌∙◌, ap, refl, Bool-cases, ℕ, zero, suc, true, false, ◌≡◌, ◌⊎◌, inl, inr, some,
  ◌<◌,
}
use jb_mesh.Base.Text.{same, Text, trim_space, is_empty, same_iff}
use jb_mesh.Base.Result.{err, ok, Result}
use jb_mesh.Tools.Manager.Host.{Host}
use jb_mesh.Tools.Manager.Action.{ManagerError, no_root, and_then}
use jb_mesh.Tools.Manager.Source.{
  find_root, has_manifest, start_dir, or_else_path, from_home, resolve_tool_source, search_from,
}

module _ {W : Type 0} (host : Host W) where
  -- The directory some steps up
  abbrev pub up : ℕ → Text → Text
  up zero path = path
  up (suc n) path = up n (host.dir path)

  up_fixed : (path : Text) → host.dir path ≡ path → (n : ℕ) → up n path ≡ path
  up_fixed path h zero = refl
  up_fixed path h (suc n) = ap (up n) h ∙ up_fixed path h n

  -- No directory above the path holds a manifest, or the nearest one that does is the result.
  abbrev pub IsNearest : W → Text → Result ManagerError Text → Type 0
  IsNearest w path r =
      ((r ≡ err no_root) × ((k : ℕ) → has_manifest host w (up k path) ≡ false))
      ⊎ ((k : ℕ) × (r ≡ ok (up k path))
          × (has_manifest host w (up k path) ≡ true)
          × ((j : ℕ) → j < k → has_manifest host w (up j path) ≡ false))

  all_above :
      (w : W) (path : Text) (P : ℕ → Type 0)
      → has_manifest host w path ≡ false
      → ((n : ℕ) → P (suc n) → has_manifest host w (up n (host.dir path)) ≡ false)
      → (k : ℕ) → P k
      → has_manifest host w (up k path) ≡ false
  all_above w path P h below zero p = h
  all_above w path P h below (suc n) p = below n p

  IsNearest-above :
      (w : W) (path : Text) (r : Result ManagerError Text)
      → has_manifest host w path ≡ false
      → IsNearest w (host.dir path) r
      → IsNearest w path r
  IsNearest-above w path r h (inl (e, all_false)) =
      inl (e, λ k. all_above w path (λ k. Unit) h (λ n _. all_false n) k tt)
  IsNearest-above w path r h (inr (k, e, found, below)) = inr (
    suc k,
    e,
    found,
    λ j lt. all_above w path (λ j. j < suc k) h (λ n l. below n (omega arith)) j lt,
  )

  find_root-IsNearest :
      (n : ℕ) (w : W) (path : Text)
      → host.depth path < n
      → IsNearest w path (find_root host n w path)
  unfolding find_root
  find_root-IsNearest zero w path h = absurd (omega arith)
  find_root-IsNearest (suc n) w path h = elim (Bool-cases (has_manifest host w path)) [
    | inl found ↦ inr (0, ground arith, found, λ j lt. absurd (omega arith))
    | inr missing ↦ elim (host.dir-depth path) [
      | inl fixed ↦ inl (
        ground (arith, same_iff (host.dir path) path),
        λ k. ap (has_manifest host w) (up_fixed path fixed k) ∙ missing,
      )
      | inr lower ↦
          let moves : same (host.dir path) path ≡ false =
            ground (arith, same_iff (host.dir path) path, ap host.depth, lower) in
          subst (IsNearest w path) (ground (arith, moves, missing)) (
            IsNearest-above w path (find_root host n w (host.dir path)) missing
              (find_root-IsNearest n w (host.dir path) (omega arith)))
    ]
  ]

  -- Where a search begins it ends, at the nearest directory upwards that holds a manifest or with
  -- the error that there is none.
  pub resolve_tool_source-IsNearest :
      (source : Text) (w : W) (absolute start : Text)
      → is_empty (trim_space source) ≡ false
      → host.abs (from_home host source) ≡ some absolute
      → (let path = or_else_path host absolute (host.eval_symlinks absolute w) in
          start_dir host path (host.stat path w) ≡ ok start)
      → IsNearest w start (resolve_tool_source host source w)
  unfolding resolve_tool_source search_from
  resolve_tool_source-IsNearest source w absolute start h a s =
      subst (IsNearest w start)
        (sym (
          (rw h refl)
          ∙ ap (search_from host w) a
          ∙ ap (λ r. and_then r (λ start. find_root host (suc (host.depth start)) w start)) s))
        (find_root-IsNearest (suc (host.depth start)) w start (omega arith))
