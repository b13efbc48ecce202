-- ===== src/Node/Authorization/Users.antt =====
-- pkg/node/node.go: `authorizationUsers` and `authorizationPermission`, the users that NATS is
-- given. Whether a pattern covers a subject is NATS's to say, and a parameter here.
use jb_mesh.Base.{
  if◌then◌else◌, ◌∷◌, Bool-cases, ◌&&◌, Bool, ◌≡◌, List, not, inl, drop, All, inr, true, sym, ◌∙◌,
  [], ◌||◌, any, refl, arith, Option,
}
use jb_mesh.Base.Text.{lit, same_refl, Text}
use jb_mesh.Base.Result.{ok}
use jb_mesh.Node.Authorization.{Principal, Authorization, prepare_authorization, member}
use jb_mesh.Node.Authorization.Subjects.{IsSubtree, is_nil}
use jb_mesh.Node.Authorization.Prepared.{IsPrincipal, prepare_authorization-IsPrepared}

pub record Permission : Type 0 where
  pub allow : List Text
  pub deny : List Text

pub record User : Type 0 where
  pub username : Text
  pub password : Text
  pub publish : Permission
  pub subscribe : Permission

-- `authorizationPermission`
unfoldable pub authorization_permission : List Text → Permission
authorization_permission allow = record {
  allow = allow;
  deny = if is_nil allow then lit ">" ∷ [] else [];
}

abbrev pub everything : Permission
everything = record { allow = lit ">" ∷ []; deny = [] }

principal_user : Principal → User
unfolding authorization_permission
principal_user p = record {
  username = p.principal_id;
  password = p.password;
  publish = authorization_permission p.publish_allow;
  subscribe = authorization_permission p.subscribe_allow;
}

principal_users : List Principal → List User
unfolding principal_user
principal_users [] = []
principal_users (p ∷ ps) = principal_user p ∷ principal_users ps

-- `authorizationUsers`
unfoldable pub authorization_users : Authorization → List User
unfolding principal_users
authorization_users a =
    record {
      username = a.internal_username;
      password = a.internal_password;
      publish = everything;
      subscribe = everything;
    }
    ∷ principal_users a.principals

module _ (covers : Text → Text → Bool) (all_covers : (s : Text) → covers (lit ">") s ≡ true) where
  -- What NATS lets a user do: what is allowed, everything where nothing is listed as allowed, but
  -- for what is denied.
  abbrev pub permits : Permission → Text → Bool
  permits p s =
      (is_nil p.allow || any (λ g. covers g s) p.allow) && not (any (λ g. covers g s) p.deny)

  pub permits-authorization_permission :
      (grants : List Text) (s : Text)
      → permits (authorization_permission grants) s ≡ any (λ g. covers g s) grants
  unfolding authorization_permission
  permits-authorization_permission [] s = ground (arith, all_covers s)
  permits-authorization_permission (g ∷ gs) s = ground arith

  -- A subject that a valid grant of the list covers.
  abbrev pub IsGranted : List Text → Text → Type 0
  IsGranted grants s = (g : Text) × IsSubtree g × (member g grants ≡ true) × (covers g s ≡ true)

  abbrev pub IsConfined : Principal → User → Type 0
  IsConfined p u =
      ((s : Text) → permits u.publish s ≡ true → IsGranted p.publish_allow s)
      × ((s : Text) → permits u.subscribe s ≡ true → IsGranted p.subscribe_allow s)

  any-IsGranted :
      (grants : List Text) (s : Text)
      → All IsSubtree grants
      → any (λ g. covers g s) grants ≡ true
      → IsGranted grants s
  any-IsGranted [] s h k = cc
  any-IsGranted (g ∷ gs) s h k = elim (Bool-cases (covers g s)) [
    | inl hit ↦ (g, h.0, ground (arith, same_refl g), hit)
    | inr miss ↦
        let (f, valid, inside, hit) = any-IsGranted gs s h.1 (ground arith) in
        (f, valid, ground arith, hit)
  ]

  permission-IsGranted :
      (grants : List Text) (s : Text)
      → All IsSubtree grants
      → permits (authorization_permission grants) s ≡ true
      → IsGranted grants s
  permission-IsGranted grants s h k =
      any-IsGranted grants s h (sym (permits-authorization_permission grants s) ∙ k)

  -- Each user is the principal's in the same place and may do no more than its grants say.
  abbrev pub AreConfined : List Principal → List User → Type 0
  AreConfined [] [] = Unit
  AreConfined (p ∷ ps) (u ∷ us) = (u.username ≡ p.principal_id) × IsConfined p u × AreConfined ps us
  AreConfined _ _ = ⊥

  principal_users-AreConfined :
      (internal : Text) (ps : List Principal)
      → All (IsPrincipal internal) ps
      → AreConfined ps (principal_users ps)
  unfolding principal_users principal_user
  principal_users-AreConfined internal [] h = tt
  principal_users-AreConfined internal (p ∷ ps) h =
      let (named, external, secret, pubs, subs) = h.0 in
      (
        refl,
        (
          λ s k. permission-IsGranted p.publish_allow s pubs.0 k,
          λ s k. permission-IsGranted p.subscribe_allow s subs.0 k,
        ),
        principal_users-AreConfined internal ps h.1,
      )

  -- Of the users made of a prepared authorization, all but the internal one can publish and
  -- subscribe only to subjects that a valid subtree granted to their principal covers; a principal
  -- without grants can do nothing.
  pub authorization_users-AreConfined :
      (random : Option Text) (a : Authorization) {out : Authorization}
      → prepare_authorization random a ≡ ok out
      → AreConfined out.principals (drop 1 (authorization_users out))
  unfolding authorization_users
  authorization_users-AreConfined random a {out} h =
      principal_users-AreConfined out.internal_username out.principals
        (prepare_authorization-IsPrepared random a h).0
