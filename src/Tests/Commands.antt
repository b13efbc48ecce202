-- ===== src/Tests/Commands.antt =====
-- Concrete runs of the checks of the command line.
use jb_mesh.Base.{All, true, ◌↔◌, false, ◌∷◌, refl, ◌≡◌, []}
use jb_mesh.Cli.Inputs.{extension, service_class_name, detect_content_type, split_csv}
use jb_mesh.Base.Text.{lit, split, has_suffix, same, trim_space}
use jb_mesh.Cli.Preflight.{diff_strings, PythonProbe, compare_method_sets}
use jb_mesh.Cli.Preflight.Parity.{IsPassed, HaveSameMembers, compare_method_sets_iff}
use jb_mesh.Manifest.{Manifest}
use jb_mesh.Tests.Machines.{calculator}

class_name_test : service_class_name (lit "file-store") ≡ lit "FileStoreService"
unfolding service_class_name split has_suffix same
class_name_test = refl

class_name_kept_test : service_class_name (lit "my--service") ≡ lit "MyService"
unfolding service_class_name split has_suffix same
class_name_kept_test = refl

detect_content_type_test : detect_content_type (lit "a.tar.json") ≡ lit "application/json"
unfolding detect_content_type extension same
detect_content_type_test = refl

split_csv_test : split_csv (lit "a, ,b") ≡ lit "a" ∷ lit "b" ∷ []
unfolding split_csv split trim_space
split_csv_test = refl

diff_strings_test : diff_strings (lit "a" ∷ lit "b" ∷ []) (lit "b" ∷ []) ≡ lit "a" ∷ []
unfolding diff_strings same
diff_strings_test = refl

-- A manifest and code with the methods get and put
abbrev with_methods : Manifest
with_methods = record calculator { rpc_methods = (lit "put", false) ∷ (lit "get", true) ∷ [] }

abbrev probe : PythonProbe
probe = record {
  methods = lit "get" ∷ lit "put" ∷ [];
  function_names = [];
  top_level_jumpboot = false;
}

compare_method_sets_iff_example :
    All IsPassed (compare_method_sets with_methods probe)
    ↔ HaveSameMembers (lit "put" ∷ lit "get" ∷ []) probe.methods
compare_method_sets_iff_example = compare_method_sets_iff with_methods probe

agree_test : All IsPassed (compare_method_sets with_methods probe)
unfolding same
agree_test = (compare_method_sets_iff with_methods probe).1 ((refl, (refl, tt)), (refl, (refl, tt)))
