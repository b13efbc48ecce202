-- ===== src/Tests/Machines.antt =====
-- A machine to run the tool manager on: every directory is there until it is removed, every manifest
-- is the same, and every command succeeds.
use jb_mesh.Base.Text.{contains, same_refl, Text, same, lit}
use jb_mesh.Base.Int.{pos}
use jb_mesh.Base.{
  arith, if◌then◌else◌, not, ◌||◌, length, ◌++◌, refl, Option, Bool, true, false, ◌≡◌, ◌⊎◌, inl,
  inr, none, some, ◌<◌, List, [], ◌∷◌,
}
use jb_mesh.Base.Result.{ok}
use jb_mesh.Manifest.{Manifest}
use jb_mesh.Tools.Manager.Host.{Host, Environment}

abbrev pub calculator : Manifest
calculator = record {
  name = lit "calc";
  version = lit "1.0.0";
  runtime = record {
    python = lit "3.11";
    requirements = [];
    packages = lit "numpy" ∷ [];
    conda_packages = [];
    mode = lit "persistent";
    transport = lit "repl";
    entrypoint = lit "main.py";
    startup_timeout = pos 60;
  };
  rpc_transport = lit "jsonqueue";
  rpc_methods = (lit "run", false) ∷ [];
  health = none;
  setup = none;
}

unfoldable pub is_removed : Text → List Text → Bool
is_removed path [] = false
is_removed path (p ∷ ps) = same p path || is_removed path ps

unfoldable pub restored : Text → List Text → List Text
restored path [] = []
restored path (p ∷ ps) = let rest = restored path ps in if same p path then rest else p ∷ rest

abbrev pub stat_unless : Text → Bool → Option Bool
stat_unless path true = none
stat_unless path false = some (not (contains path (lit "jumpboot.yaml")))

abbrev environment : Environment
environment = record { handle = 1; is_new = true; is_goomba = false }

pub dir_depth : (path : Text) → ([] ≡ path) ⊎ (0 < length path)
dir_depth [] = inl refl
dir_depth (c ∷ s) = inr (omega arith)

pub stat_removed :
    (path : Text) (w : List Text) → stat_unless path (is_removed path (path ∷ w)) ≡ none
unfolding is_removed
stat_removed path w = rw (same_refl path) refl

unfoldable pub machine : Host (List Text)
unfolding is_removed restored
machine = record {
  join = λ a b. a ++ (lit "/" ++ b);
  dir = λ path. [];
  depth = λ path. length path;
  abs = λ path. some path;
  home = lit "/home/me";
  work_dir = none;
  caller_file = none;
  quote = λ s. s;
  unmarshal = λ content. some calculator;
  eval_symlinks = λ path w. none;
  stat = λ path w. stat_unless path (is_removed path w);
  read_dir = λ path w. ok [];
  read_file = λ path w. some [];
  read_link = λ path w. none;
  read_tree = λ path w. none;
  remove_all = λ path w. (path ∷ w, true);
  symlink = λ target path w. (restored path w, true);
  rename = λ source target w. (restored target w, true);
  mkdir_all = λ path w. (w, true);
  write_file = λ path content w. (w, true);
  make_temp = λ w. (w, some (lit "/tmp/x"));
  clone = λ url path w. (w, true);
  in_checkout = λ path w. false;
  pull = λ path w. (w, true);
  create_base = λ goomba name path python w. (w, some environment);
  create_venv = λ base path w. (w, some environment);
  install_conda = λ env spec w. (w, true);
  install_pip = λ env specs no_cache w. (w, true);
  install_requirements = λ env path w. (w, true);
  open_repl = λ env w. (w, some 1);
  execute = λ repl code timeout w. (w, some []);
  close_repl = λ repl w. w;
  load_module = λ path w. some 1;
  open_queue = λ env program w. (w, some 1);
  call_queue = λ queue method timeout w. (w, true);
  close_queue = λ queue w. w;
  dir-depth = dir_depth;
  stat-remove_all = λ path w h. stat_removed path w;
}
