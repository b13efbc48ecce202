-- ===== src/Tests/Access.antt =====
-- Typed authorization of pkg/node on a concrete principal.
use jb_mesh.Base.{
  Bool, if◌then◌else◌, ◌↔◌, ◌||◌, false, ◌∷◌, true, [], none, ◌&&◌, ◌≡◌, refl, drop, ◌==◌,
}
use jb_mesh.Base.Text.{lit, same, Text, is_empty, split, trim_space}
use jb_mesh.Base.Result.{ok, err}
use jb_mesh.Node.Authorization.{Principal, Authorization, prepare_authorization}
use jb_mesh.Node.Authorization.Subjects.{
  single_wildcard, IsSubtree, validate_subject_subtree, validate_subject_subtree_iff,
}
use jb_mesh.Node.Authorization.Prepared.{IsPrepared, prepare_authorization-IsPrepared}
use jb_mesh.Node.Authorization.Users.{
  AreConfined, authorization_users, authorization_users-AreConfined,
}
use jb_mesh.Node.Authorization.Reload.{
  Node, IsSecured, Kept, reload_authorization, reload_authorization-Kept,
}

abbrev pub alice : Principal
alice = record {
  principal_id = lit "alice";
  password = lit "pw";
  publish_allow = lit "mesh.alice.>" ∷ [];
  subscribe_allow = [];
}

abbrev pub wanted : Authorization
wanted = record {
  enabled = true;
  principals =
      record alice {
        principal_id = lit " alice ";
        publish_allow = lit "mesh.alice.>" ∷ lit "mesh.alice.> " ∷ [];
      }
      ∷ [];
  internal_username = lit "node";
  internal_password = lit "secret";
}

abbrev pub prepared : Authorization
prepared = record wanted { principals = alice ∷ [] }

prepare_test : prepare_authorization none wanted ≡ ok prepared
unfolding prepare_authorization trim_space split same validate_subject_subtree
prepare_test = refl

validate_test : validate_subject_subtree (lit "mesh.*") ≡ err single_wildcard
unfolding validate_subject_subtree split same
validate_test = refl

validate_subject_subtree_iff_example :
    (validate_subject_subtree (lit "mesh.alice.>") ≡ ok tt) ↔ IsSubtree (lit "mesh.alice.>")
validate_subject_subtree_iff_example = validate_subject_subtree_iff (lit "mesh.alice.>")

prepare_authorization-IsPrepared_example : IsPrepared prepared
prepare_authorization-IsPrepared_example = prepare_authorization-IsPrepared none wanted prepare_test

-- A pattern covers the subjects that begin with it, less a wildcard at its end.
abbrev covers : Text → Text → Bool
covers [] s = is_empty s
covers (c ∷ p) [] = false
covers (c ∷ p) (d ∷ s) = if c == 62 then true else (c == d && covers p s)

abbrev covers_any : Text → Text → Bool
covers_any g s = same g (lit ">") || covers g s

covers_all : (s : Text) → covers_any (lit ">") s ≡ true
unfolding same
covers_all s = refl

authorization_users-AreConfined_example :
    AreConfined covers_any covers_all prepared.principals (drop 1 (authorization_users prepared))
authorization_users-AreConfined_example =
    authorization_users-AreConfined covers_any covers_all none wanted prepare_test

abbrev running : Node
running = record {
  has_server = true;
  is_seed = true;
  authorization = prepared;
  users = authorization_users prepared;
}

running-IsSecured : IsSecured running
unfolding trim_space
running-IsSecured =
    (refl, prepare_authorization-IsPrepared none wanted prepare_test, refl, refl, refl)

reload_authorization-Kept_example : Kept running (reload_authorization none true wanted running)
reload_authorization-Kept_example =
    reload_authorization-Kept none true wanted running running-IsSecured
