-- ===== src/Version/Range/Matching.antt =====
-- What a constraint demands of a version.
use jb_mesh.Base.{refl, [], ◌∷◌, ◌≢◌, All, arith, ◌↔◌, List, true, ◌⊎◌, ◌≡◌}
use jb_mesh.Version.{same_iff, lit, Text, Version, Sign, compare, less, equal, greater}
use jb_mesh.Version.Order.{Before, compare_lem}
use jb_mesh.Version.Range.{Check, Constraint, match, match_check, match_all, switch_op}

-- Each operator as a statement about the order of versions; with any other none is satisfied.
abbrev pub Satisfies : Check → Version → Type 0
Satisfies ch v =
    ((ch.op ≡ lit "=") × (v ≡ ch.version))
    ⊎ ((ch.op ≡ lit ">=") × ¬ Before v ch.version)
    ⊎ ((ch.op ≡ lit ">") × Before ch.version v)
    ⊎ ((ch.op ≡ lit "<=") × ¬ Before ch.version v)
    ⊎ ((ch.op ≡ lit "<") × Before v ch.version)

switch_op_iff :
    (op : Text) (s : Sign)
    → (switch_op op s ≡ true) ↔ (
        ((op ≡ lit "=") × (s ≡ equal))
        ⊎ ((op ≡ lit ">=") × (s ≢ less))
        ⊎ ((op ≡ lit ">") × (s ≡ greater))
        ⊎ ((op ≡ lit "<=") × (s ≢ greater))
        ⊎ ((op ≡ lit "<") × (s ≡ less)))
unfolding switch_op
switch_op_iff op s = ground (
  arith,
  same_iff op (lit "="),
  same_iff op (lit ">="),
  same_iff op (lit ">"),
  same_iff op (lit "<="),
  same_iff op (lit "<"),
)

match_check_iff : (ch : Check) (v : Version) → (match_check ch v ≡ true) ↔ Satisfies ch v
unfolding match_check
match_check_iff ch v =
    ground (arith, switch_op_iff ch.op (compare v ch.version), compare_lem v ch.version)

match_all_iff :
    (checks : List Check) (v : Version)
    → (match_all checks v ≡ true) ↔ All (λ ch. Satisfies ch v) checks
unfolding match_all
match_all_iff [] v = (λ h. tt, λ h. refl)
match_all_iff (ch ∷ checks) v = ground (arith, match_check_iff ch v, match_all_iff checks v)

-- A constraint matches a version exactly when each of its checks is satisfied in the order of
-- versions; the empty constraint matches every version.
pub match_iff :
    (c : Constraint) (v : Version) → (match c v ≡ true) ↔ All (λ ch. Satisfies ch v) c.checks
unfolding match
match_iff c v = match_all_iff c.checks v
