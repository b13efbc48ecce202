-- ===== src/Tools/Manager/Source.antt =====
-- pkg/tools/source.go, and `loadManifest`, `installLocal`, `installGit`, `moveDir` and `copyDir` of
-- pkg/tools/manager.go: where the sources of a tool come from.
use jb_mesh.Base.Text.{contains, same, is_empty, trim_space, has_prefix, Text, lit}
use jb_mesh.Tools.Manager.Action.{
  clone_failed, invalid_yaml, no_root, no_temp, move_failed, symlink_failed, unreadable,
  source_required, no_path, out_of_fuel, Action, ManagerError, after, ◌>>=◌, ◌>>◌, and_then, pure,
  fail, produced, done, cleaned,
}
use jb_mesh.Base.{
  if◌then◌else◌, [], ◌∷◌, ◌==◌, ℕ, zero, suc, Bool, true, false, ◌||◌, Option, none, some, ◌++◌,
}
use jb_mesh.Base.Result.{ok, err, Result}
use jb_mesh.Manifest.{Manifest, apply_defaults}
use jb_mesh.Tools.Manager.Host.{Host, Tree, Entries, file, directory, empty, entry}

-- A directory that holds a jumpboot.yaml
abbrev pub is_file : Option Bool → Bool
is_file (some false) = true
is_file (some true) = false
is_file none = false

module _ {W : Type 0} (host : Host W) where
  abbrev pub manifest_path : Text → Text
  manifest_path path = host.join path (lit "jumpboot.yaml")

  unfoldable pub has_manifest : W → Text → Bool
  has_manifest w path = is_file (host.stat (manifest_path path) w)

  -- The loop of `ResolveToolSource`
  unfoldable pub find_root : ℕ → W → Text → Result ManagerError Text
  unfolding has_manifest
  find_root zero w path = err out_of_fuel
  find_root (suc n) w path =
      let rest = find_root n w (host.dir path) in
      if has_manifest w path
      then ok path
      else if same (host.dir path) path
      then err no_root
      else rest

  abbrev pub from_home : Text → Text
  from_home [] = []
  from_home (c ∷ s) = if c == 126 then host.join host.home s else c ∷ s

  abbrev pub or_else_path : Text → Option Text → Text
  or_else_path path none = path
  or_else_path path (some resolved) = resolved

  -- The directory at which the search begins
  abbrev pub start_dir : Text → Option Bool → Result ManagerError Text
  start_dir path none = err no_path
  start_dir path (some true) = ok path
  start_dir path (some false) = ok (host.dir path)

  unfoldable pub search_from : W → Option Text → Result ManagerError Text
  unfolding find_root
  search_from w none = err no_path
  search_from w (some absolute) =
      let path = or_else_path absolute (host.eval_symlinks absolute w) in
      and_then (start_dir path (host.stat path w))
        (λ start. find_root (suc (host.depth start)) w start)

  -- `ResolveToolSource`
  unfoldable pub resolve_tool_source : Text → W → Result ManagerError Text
  unfolding search_from
  resolve_tool_source source w =
      if is_empty (trim_space source)
      then err source_required
      else search_from w (host.abs (from_home source))

  abbrev pub parsed : Option Text → Result ManagerError Manifest
  parsed none = err unreadable
  parsed (some content) = elim (host.unmarshal content) [
    | none ↦ err invalid_yaml
    | some manifest ↦ ok (apply_defaults manifest)
  ]

  -- `loadManifest`
  unfoldable pub load_manifest : Text → W → Result ManagerError Manifest
  unfolding resolve_tool_source
  load_manifest path w =
      and_then (resolve_tool_source path w) (λ root. parsed (host.read_file (manifest_path root) w))

  abbrev pub remove : Text → W → W
  remove path w = (host.remove_all path w).0

  abbrev pub removed : Text → Action W (Unit {0})
  removed path w = (remove path w, ok tt)

  -- A question to the machine that changes nothing
  abbrev pub ask : {A : Type 0} → (W → Result ManagerError A) → Action W A
  ask question w = (w, question w)

  -- `installLocal`
  unfoldable pub install_local : Text → Text → Action W Text
  unfolding resolve_tool_source load_manifest
  install_local tools_dir source = do
    root ← ask (resolve_tool_source source)
    manifest ← ask (load_manifest root)
    let path = host.join tools_dir manifest.name
    removed path
    (λ w. done symlink_failed (host.symlink root path w))
    pure path

  -- `copyDir`, with `copyFile` for a file; what lies at the source is read once, as a tree
  copy_file : Text → Option Text → Action W (Unit {0})
  copy_file target none = fail unreadable
  copy_file target (some content) = λ w. done move_failed (host.write_file target content w)

  unfoldable mutual
    unfolding copy_file

    pub copy_tree : Text → Tree → Action W (Unit {0})
    copy_tree target (file content) = copy_file target content
    copy_tree target (directory entries) = do
      (λ w. done move_failed (host.mkdir_all target w))
      copy_entries target entries

    pub copy_entries : Text → Entries → Action W (Unit {0})
    copy_entries target empty = pure tt
    copy_entries target (entry name tree entries) = do
      copy_tree (host.join target name) tree
      copy_entries target entries

  -- A file in place of the directory: its target is made, and then it cannot be listed.
  copy_source : Text → Option Tree → Action W (Unit {0})
  unfolding copy_tree
  copy_source target none = fail move_failed
  copy_source target (some (file content)) = do
    (λ w. done move_failed (host.mkdir_all target w))
    fail move_failed
  copy_source target (some (directory entries)) = copy_tree target (directory entries)

  unfoldable pub copy_dir : Text → Text → Action W (Unit {0})
  unfolding copy_source
  copy_dir source target w = copy_source target (host.read_tree source w) w

  move_after : Text → Text → W × Bool → W × Result ManagerError (Unit {0})
  unfolding copy_dir
  move_after source target (w, true) = (w, ok tt)
  move_after source target (w, false) =
      after (copy_dir source target w) (λ _ u. done move_failed (host.remove_all source u))

  -- `moveDir`
  unfoldable pub move_dir : Text → Text → Action W (Unit {0})
  unfolding move_after
  move_dir source target w = move_after source target (host.rename source target w)

  -- The address that git is given
  unfoldable pub git_url : Text → Text
  git_url source =
      let url = lit "https://" ++ source in
      if has_prefix source (lit "https://")
        || has_prefix source (lit "http://")
        || has_prefix source (lit "git@")
        || has_prefix source (lit "ssh://")
      then source
      else if contains url (lit ".git")
      then url
      else url ++ lit ".git"

  -- `installGit`
  unfoldable pub install_git : Text → Text → Action W Text
  unfolding git_url load_manifest move_dir
  install_git tools_dir source = do
    temp ← (λ w. produced no_temp (host.make_temp w))
    cleaned (remove temp) (λ w. done clone_failed (host.clone (git_url source) temp w))
    manifest ← cleaned (remove temp) (ask (load_manifest temp))
    let path = host.join tools_dir manifest.name
    removed path
    cleaned (remove temp) (move_dir temp path)
    pure path
