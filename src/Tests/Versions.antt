-- ===== src/Tests/Versions.antt =====
-- pkg/version/version.go on concrete versions and constraints.
use jb_mesh.Base.Decimal.{atoi}
use jb_mesh.Base.{◌∷◌, inl, [], inr, refl, true, arith, ◌≡◌, ◌↔◌}
use jb_mesh.Base.Text.{lit, split}
use jb_mesh.Base.Result.{err, ok}
use jb_mesh.Base.Int.{pos}
use jb_mesh.Version.{Version, less, equal, greater, parse, compare, less_than, to_string, missing_v}
use jb_mesh.Version.Order.{Before, compare_lem}
use jb_mesh.Version.RoundTrip.{IsRelease, parse-to_string, parse-IsRelease}
use jb_mesh.Version.Range.{Check, match, parse_constraint, constraint_string}
use jb_mesh.Version.Range.Matching.{Satisfies, match_iff}
use jb_mesh.Version.Range.RoundTrip.{parse_constraint-constraint_string}

abbrev v1_2_3 : Version
v1_2_3 = record { major = pos 1; minor = pos 2; patch = pos 3 }

abbrev v1_10_0 : Version
v1_10_0 = record { major = pos 1; minor = pos 10; patch = pos 0 }

abbrev at_least : Check
at_least = record { op = lit ">="; version = v1_2_3 }

abbrev below : Check
below = record { op = lit "<"; version = v1_10_0 }

parse_test : parse (lit "v1.2.3") ≡ ok v1_2_3
unfolding parse split atoi
parse_test = refl

parse_missing_test : parse (lit "1.2.3") ≡ err missing_v
unfolding parse
parse_missing_test = refl

less_than_test : less_than v1_2_3 v1_10_0 ≡ true
unfolding less_than compare
less_than_test = refl

compare_lem_example :
    ((compare v1_2_3 v1_10_0 ≡ less) ↔ Before v1_2_3 v1_10_0)
    × ((compare v1_2_3 v1_10_0 ≡ equal) ↔ (v1_2_3 ≡ v1_10_0))
    × ((compare v1_2_3 v1_10_0 ≡ greater) ↔ Before v1_10_0 v1_2_3)
compare_lem_example = compare_lem v1_2_3 v1_10_0

parse-to_string_example : parse (to_string v1_10_0) ≡ ok v1_10_0
parse-to_string_example = parse-to_string v1_10_0 (omega arith, omega arith, omega arith)

parse-IsRelease_example : IsRelease v1_2_3
parse-IsRelease_example = parse-IsRelease (lit "v1.2.3") v1_2_3 parse_test

match_iff_example :
    (match (record { checks = at_least ∷ below ∷ [] }) v1_2_3 ≡ true)
    ↔ (Satisfies at_least v1_2_3 × (Satisfies below v1_2_3 × Unit {0}))
match_iff_example = match_iff (record { checks = at_least ∷ below ∷ [] }) v1_2_3

parse_constraint-constraint_string_example :
    parse_constraint (constraint_string (record { checks = at_least ∷ below ∷ [] }))
    ≡ ok (record { checks = at_least ∷ below ∷ [] })
parse_constraint-constraint_string_example =
    parse_constraint-constraint_string at_least (below ∷ [])
      (inr (inl refl), (omega arith, omega arith, omega arith))
      ((inr (inr (inr (inr refl))), (omega arith, omega arith, omega arith)), tt)
