-- ===== src/Tools/Manager/Host.antt =====
-- What the tool manager of pkg/tools/manager.go asks of the machine: the file system, git, and
-- jumpboot's environments and processes, as an interface over the states `W` of the machine. A
-- command that fails returns `none` or `false`. Environments and processes are numbers.
use jb_mesh.Base.{List, ℕ, ◌<◌, ◌≡◌, Bool, true, Option, none, ◌⊎◌}
use jb_mesh.Base.Text.{Text}
use jb_mesh.Base.Int.{ℤ}
use jb_mesh.Base.Result.{Result}
use jb_mesh.Manifest.{Manifest}

-- What lies at a path; a file that cannot be read has no content.
mutual
  pub data Tree : Type 0 where
    file : Option Text → Tree
    directory : Entries → Tree

  pub data Entries : Type 0 where
    empty : Entries
    entry : Text → Tree → Entries → Entries

-- `jumpboot.PythonEnvironment`
pub record Environment : Type 0 where
  pub handle : ℕ
  pub is_new : Bool
  pub is_goomba : Bool

-- `stat` says whether a path is a directory; `read_dir` whether the directory is missing, where it
-- cannot be read. `dir` goes up until the root.
pub record Host (W : Type 0) : Type 0 where
  pub join : Text → Text → Text
  pub dir : Text → Text
  pub depth : Text → ℕ
  pub abs : Text → Option Text
  pub home : Text
  pub work_dir : Option Text
  pub caller_file : Option Text
  pub quote : Text → Text
  pub unmarshal : Text → Option Manifest
  pub eval_symlinks : Text → W → Option Text
  pub stat : Text → W → Option Bool
  pub read_dir : Text → W → Result Bool (List Text)
  pub read_file : Text → W → Option Text
  pub read_link : Text → W → Option Text
  pub read_tree : Text → W → Option Tree
  pub remove_all : Text → W → W × Bool
  pub symlink : Text → Text → W → W × Bool
  pub rename : Text → Text → W → W × Bool
  pub mkdir_all : Text → W → W × Bool
  pub write_file : Text → Text → W → W × Bool
  pub make_temp : W → W × Option Text
  pub clone : Text → Text → W → W × Bool
  pub in_checkout : Text → W → Bool
  pub pull : Text → W → W × Bool
  pub create_base : Bool → Text → Text → Text → W → W × Option Environment
  pub create_venv : Environment → Text → W → W × Option Environment
  pub install_conda : Environment → Text → W → W × Bool
  pub install_pip : Environment → List Text → Bool → W → W × Bool
  pub install_requirements : Environment → Text → W → W × Bool
  pub open_repl : Environment → W → W × Option ℕ
  pub execute : ℕ → Text → ℤ → W → W × Option Text
  pub close_repl : ℕ → W → W
  pub load_module : Text → W → Option ℕ
  pub open_queue : Environment → ℕ → W → W × Option ℕ
  pub call_queue : ℕ → Text → ℤ → W → W × Bool
  pub close_queue : ℕ → W → W
  pub dir-depth : (path : Text) → (dir path ≡ path) ⊎ (depth (dir path) < depth path)
  pub stat-remove_all :
      (path : Text) (w : W) → (remove_all path w).1 ≡ true → stat path (remove_all path w).0 ≡ none
