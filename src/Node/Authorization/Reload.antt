-- ===== src/Node/Authorization/Reload.antt =====
-- pkg/node/node.go: `ReloadAuthorization`, a change of the users of a running seed.
use jb_mesh.Base.{
  ◌∙◌, refl, ap, sym, if◌then◌else◌, Bool, ◌≡◌, false, true, List, ◌&&◌, arith, Option,
}
use jb_mesh.Base.Result.{ok-injective, Result, ◌>>◌, guard, ok, err}
use jb_mesh.Base.Text.{is_empty, Text, trim_space}
use jb_mesh.Node.Authorization.{
  Authorization, AuthError, needs_enabled, needs_seed, untyped_seed, reload_refused,
  prepare_authorization, prepare_enabled, internal_auth,
}
use jb_mesh.Node.Authorization.Users.{User, authorization_users}
use jb_mesh.Node.Authorization.Prepared.{IsPrepared, prepare_enabled-ok}

-- The fields of a node that the reload reads and sets: whether it has a server with its options,
-- whether it is a seed, its authorization, and the users that its server has.
pub record Node : Type 0 where
  pub has_server : Bool
  pub is_seed : Bool
  pub authorization : Authorization
  pub users : List User

abbrev pub keep_internal : Node → Authorization → Authorization
keep_internal n a = record a {
  internal_username = n.authorization.internal_username;
  internal_password = n.authorization.internal_password;
}

-- The part of the reload that can fail before NATS is asked.
prepare_reload : Option Text → Authorization → Node → Result AuthError Authorization
unfolding prepare_authorization
prepare_reload random a n =
    guard a.enabled needs_enabled
    >> guard (n.has_server && n.is_seed) needs_seed
    >> guard n.authorization.enabled untyped_seed
    >> prepare_authorization random (keep_internal n a)

-- What NATS's answer to the new options makes of it.
reload_prepared : Bool → Node → Result AuthError Authorization → Node × Result AuthError (Unit {0})
unfolding authorization_users
reload_prepared accepted n (err e) = (n, err e)
reload_prepared accepted n (ok prepared) =
    if accepted
    then (record n { authorization = prepared; users = authorization_users prepared }, ok tt)
    else (n, err reload_refused)

-- `ReloadAuthorization`
unfoldable pub reload_authorization :
    Option Text → Bool → Authorization → Node → Node × Result AuthError (Unit {0})
unfolding prepare_reload reload_prepared
reload_authorization random accepted a n = reload_prepared accepted n (prepare_reload random a n)

-- A seed with typed authorization, whose server has the users that the authorization describes.
abbrev pub IsSecured : Node → Type 0
IsSecured n =
    (n.authorization.enabled ≡ true)
    × IsPrepared n.authorization
    × (n.users ≡ authorization_users n.authorization)
    × (is_empty (trim_space n.authorization.internal_username) ≡ false)
    × (is_empty (trim_space n.authorization.internal_password) ≡ false)

prepare_reload-ok :
    (random : Option Text) (a : Authorization) (n : Node) {out : Authorization}
    → prepare_reload random a n ≡ ok out
    → prepare_enabled random (keep_internal n a) ≡ ok out
unfolding prepare_reload prepare_authorization
prepare_reload-ok random a n h = ground arith

-- An error leaves the node as it was.
abbrev pub IsUnchanged : Node → Node → Result AuthError (Unit {0}) → Type 0
IsUnchanged n m (ok u) = Unit
IsUnchanged n m (err e) = m ≡ n

-- A node after a reload that answered `result` to the node before.
abbrev pub Kept : Node → Node × Result AuthError (Unit {0}) → Type 0
Kept n (m, result) =
    IsSecured m
    × (m.authorization.internal_username ≡ n.authorization.internal_username)
    × (m.authorization.internal_password ≡ n.authorization.internal_password)
    × IsUnchanged n m result

internal_auth-kept :
    (random : Option Text) (a : Authorization) (n : Node) {i : Text × Text}
    → IsSecured n
    → internal_auth random (keep_internal n a) ≡ ok i
    → i ≡ (n.authorization.internal_username, n.authorization.internal_password)
unfolding internal_auth
internal_auth-kept random a n secured h =
    let (e, p, u, name, password) = secured in
    let h' = rw (name, password) at h in sym (ok-injective h')

reload_prepared-Kept :
    (accepted : Bool) (n : Node) (random : Option Text) (a : Authorization)
    (r : Result AuthError Authorization)
    → prepare_reload random a n ≡ r
    → IsSecured n
    → Kept n (reload_prepared accepted n r)
unfolding reload_prepared
reload_prepared-Kept accepted n random a (err e) h secured = (secured, refl, refl, refl)
reload_prepared-Kept false n random a (ok out) h secured = (secured, refl, refl, refl)
reload_prepared-Kept true n random a (ok out) h secured =
    let (prepared, internal, on) =
      prepare_enabled-ok random (keep_internal n a) (prepare_reload-ok random a n h) in
    let same_internal = internal_auth-kept random a n secured internal in
    let (e, p, u, name, password) = secured in
    (
      (
        on,
        prepared,
        refl,
        ap (λ i. is_empty (trim_space i.0)) same_internal ∙ name,
        ap (λ i. is_empty (trim_space i.1)) same_internal ∙ password,
      ),
      ap (λ i. i.0) same_internal,
      ap (λ i. i.1) same_internal,
      tt,
    )

-- A reload, whether it succeeds, fails or is refused, leaves a secured seed secured: its server has
-- exactly the users of a prepared authorization. The internal user keeps its name and password,
-- and a reload that fails changes nothing.
pub reload_authorization-Kept :
    (random : Option Text) (accepted : Bool) (a : Authorization) (n : Node)
    → IsSecured n
    → Kept n (reload_authorization random accepted a n)
unfolding reload_authorization
reload_authorization-Kept random accepted a n secured =
    reload_prepared-Kept accepted n random a (prepare_reload random a n) refl secured
