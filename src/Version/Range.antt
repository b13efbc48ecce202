-- ===== src/Version/Range.antt =====
-- pkg/version/version.go: constraints, comparisons of a version joined by commas.
pub mod RoundTrip
pub mod Matching
use jb_mesh.Version.{
  split, join, is_empty, lit, same, trim_space, ok, has_prefix, true, Result, Bool, List, Text,
  Version, Error, Sign, parse, to_string, compare, is_less, is_equal, is_greater,
}
use jb_mesh.Base.Result.{◌>>=◌}
use jb_mesh.Base.{map, ◌++◌, false, [], drop, not, ◌∷◌, if◌then◌else◌}

-- `op` is one of "=", ">=", ">", "<=", "<".
pub record Check : Type 0 where
  pub op : Text
  pub version : Version

pub record Constraint : Type 0 where
  pub checks : List Check

checked : Text → Text → Result Error Check
checked op version_text = do v ← parse version_text; ok (record { op = op; version = v })

parse_one_check : Text → Result Error Check
unfolding checked
parse_one_check s =
    if has_prefix s (lit ">=")
    then checked (lit ">=") (trim_space (drop 2 s))
    else if has_prefix s (lit "<=")
    then checked (lit "<=") (trim_space (drop 2 s))
    else if has_prefix s (lit ">")
    then checked (lit ">") (trim_space (drop 1 s))
    else if has_prefix s (lit "<")
    then checked (lit "<") (trim_space (drop 1 s))
    else checked (lit "=") s

-- The loop over the parts: blank parts are skipped, and the first error ends it.
parse_checks : List Text → Result Error (List Check)
unfolding parse_one_check
parse_checks [] = ok []
parse_checks (part ∷ parts) =
    let trimmed = trim_space part in
    let rest = parse_checks parts in
    let found = (do c ← parse_one_check trimmed; cs ← rest; ok (c ∷ cs)) in
    if is_empty trimmed then rest else found

unfoldable pub parse_constraint : Text → Result Error Constraint
unfolding parse_checks
parse_constraint s =
    let trimmed = trim_space s in
    if is_empty trimmed
    then ok (record { checks = [] })
    else do checks ← parse_checks (split b',' trimmed); ok (record { checks = checks })

-- The switch of `check.match`, on what `Compare` returned.
switch_op : Text → Sign → Bool
switch_op op cmp =
    if same op (lit "=")
    then is_equal cmp
    else if same op (lit ">=")
    then not (is_less cmp)
    else if same op (lit ">")
    then is_greater cmp
    else if same op (lit "<=")
    then not (is_greater cmp)
    else if same op (lit "<")
    then is_less cmp
    else false

-- `check.match`
match_check : Check → Version → Bool
unfolding switch_op
match_check ch v = switch_op ch.op (compare v ch.version)

-- `Constraint.Match`
match_all : List Check → Version → Bool
unfolding match_check
match_all [] v = true
match_all (ch ∷ checks) v = if not (match_check ch v) then false else match_all checks v

unfoldable pub match : Constraint → Version → Bool
unfolding match_all
match c v = match_all c.checks v

check_string : Check → Text
check_string ch =
    if same ch.op (lit "=") then to_string ch.version else ch.op ++ to_string ch.version

-- `Constraint.String`
unfoldable pub constraint_string : Constraint → Text
unfolding check_string
constraint_string c = elim c.checks [
  | [] ↦ lit "*"
  | ch ∷ checks ↦ join b',' (map check_string (ch ∷ checks))
]
