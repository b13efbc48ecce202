-- ===== src/Node/Authorization.antt =====
-- pkg/node/node.go: typed authorization of an embedded NATS seed, from what the caller names to the
-- users that NATS is given. The random internal password is an input, `none` where the random
-- source fails, and so is the answer of NATS to a reload.
pub mod Subjects
pub mod Prepared
pub mod Users
pub mod Reload
use jb_mesh.Base.Result.{◌>>=◌, guard, ok, err, ◌>>◌, Result}
use jb_mesh.Base.{
  [], ℕ, Bool, ◌∷◌, Option, suc, if◌then◌else◌, some, none, true, not, any, ◌||◌, false, List,
}
use jb_mesh.Base.Text.{lit, is_empty, trim_space, same, Text}
use jb_mesh.Node.Authorization.Subjects.{SubjectError, validate_subject_subtree}

pub record Principal : Type 0 where
  pub principal_id : Text
  pub password : Text
  pub publish_allow : List Text
  pub subscribe_allow : List Text

pub record Authorization : Type 0 where
  pub enabled : Bool
  pub principals : List Principal
  pub internal_username : Text
  pub internal_password : Text

pub data Direction : Type 0 where
  publish subscribe : Direction

pub data AuthError : Type 0 where
  no_random needs_enabled needs_seed untyped_seed : AuthError
  no_principal_id : ℕ → AuthError
  conflicts_with_internal declared_twice no_credentials : Text → AuthError
  invalid_subject : Text → Direction → Text → SubjectError → AuthError
  reload_refused : AuthError

abbrev pub member : Text → List Text → Bool
member t seen = any (same t) seen

abbrev pub checked_subject : Direction → Text → Text → Result AuthError (Unit {0})
checked_subject kind principal subj = elim (validate_subject_subtree subj) [
  | ok u ↦ ok u
  | err e ↦ err (invalid_subject principal kind subj e)
]

-- The loop of `validateSubjectSubtrees`, with the subjects it has seen.
subtrees : Direction → Text → List Text → List Text → Result AuthError (List Text)
subtrees kind principal seen [] = ok []
subtrees kind principal seen (s ∷ ss) =
    let subj = trim_space s in
    checked_subject kind principal subj
    >> (let known = member subj seen in
        subtrees kind principal (if known then seen else subj ∷ seen) ss >>= λ rest.
        ok (if known then rest else subj ∷ rest))

-- `validateSubjectSubtrees`
unfoldable pub validate_subject_subtrees :
    Direction → Text → List Text → Result AuthError (List Text)
unfolding subtrees
validate_subject_subtrees kind principal subjects = subtrees kind principal [] subjects

-- The body of the loop over the principals, after the texts are trimmed.
check_principal : Text → ℕ → List Text → Principal → Result AuthError (Unit {0})
check_principal internal i seen p =
    guard (not (is_empty p.principal_id)) (no_principal_id i)
    >> guard (not (same p.principal_id internal)) (conflicts_with_internal p.principal_id)
    >> guard (not (member p.principal_id seen)) (declared_twice p.principal_id)
    >> guard (not (is_empty p.password)) (no_credentials p.principal_id)

grant_subjects : Principal → Result AuthError Principal
unfolding validate_subject_subtrees
grant_subjects p = validate_subject_subtrees publish p.principal_id p.publish_allow >>= λ pubs.
    validate_subject_subtrees subscribe p.principal_id p.subscribe_allow >>= λ subs.
    ok (record p { publish_allow = pubs; subscribe_allow = subs })

prepare_principal : Text → ℕ → List Text → Principal → Result AuthError Principal
unfolding check_principal grant_subjects
prepare_principal internal i seen p = check_principal internal i seen p >> grant_subjects p

trim_principal : Principal → Principal
trim_principal p = record p {
  principal_id = trim_space p.principal_id;
  password = trim_space p.password;
}

prepare_principals : Text → ℕ → List Text → List Principal → Result AuthError (List Principal)
unfolding prepare_principal trim_principal
prepare_principals internal i seen [] = ok []
prepare_principals internal i seen (p ∷ ps) =
    prepare_principal internal i seen (trim_principal p) >>= λ q.
    prepare_principals internal (suc i) (q.principal_id ∷ seen) ps >>= λ qs. ok (q ∷ qs)

-- `generateInternalAuth`
abbrev pub generate_internal_auth : Option Text → Result AuthError (Text × Text)
generate_internal_auth none = err no_random
generate_internal_auth (some password) = ok (lit "_jbmesh_internal", password)

-- The internal credentials: those given, unless one of them is blank.
pub internal_auth : Option Text → Authorization → Result AuthError (Text × Text)
internal_auth random a =
    if is_empty (trim_space a.internal_username) || is_empty (trim_space a.internal_password)
    then generate_internal_auth random
    else ok (a.internal_username, a.internal_password)

abbrev pub no_authorization : Authorization
no_authorization = record {
  enabled = false;
  principals = [];
  internal_username = [];
  internal_password = [];
}

pub prepare_enabled : Option Text → Authorization → Result AuthError Authorization
unfolding internal_auth prepare_principals
prepare_enabled random a = internal_auth random a >>= λ internal.
    prepare_principals internal.0 0 [] a.principals >>= λ principals. ok (record {
      enabled = true;
      principals = principals;
      internal_username = internal.0;
      internal_password = internal.1;
    })

-- `prepareAuthorization`
unfoldable pub prepare_authorization : Option Text → Authorization → Result AuthError Authorization
unfolding prepare_enabled
prepare_authorization random a = if a.enabled then prepare_enabled random a else ok no_authorization
