-- ===== src/Node/Authorization/Prepared.antt =====
-- What `prepareAuthorization` and `validateSubjectSubtrees` leave in an authorization.
use jb_mesh.Node.Authorization.{
  no_authorization, prepare_enabled, grant_subjects, check_principal, Principal, Authorization,
  Direction, publish, subscribe, member, checked_subject, subtrees, validate_subject_subtrees,
  prepare_principal, trim_principal, prepare_principals, internal_auth, prepare_authorization,
}
use jb_mesh.Base.{
  sym, ◌∙◌, ap, Option, suc, Bool-cases, All, ◌≢◌, if◌then◌else◌, ◌≡◌, inl, List, inr, false, refl,
  ℕ, arith, ◌∷◌, Bool, subst, true, [],
}
use jb_mesh.Base.Result.{ok-injective, ok, bind-eq-ok, Result-cases}
use jb_mesh.Base.Text.{Text, trim_space, same_iff}
use jb_mesh.Node.Authorization.Subjects.{
  IsSubtree, validate_subject_subtree, validate_subject_subtree_iff,
}

-- No text occurs twice.
abbrev pub Distinct : List Text → Type 0
Distinct [] = Unit
Distinct (t ∷ ts) = (member t ts ≡ false) × Distinct ts

-- No text of the second list is in the first.
abbrev Fresh : List Text → List Text → Type 0
Fresh seen = All (λ t. member t seen ≡ false)

Fresh-cons :
    (s : Text) (seen ts : List Text) → Fresh (s ∷ seen) ts → (member s ts ≡ false) × Fresh seen ts
Fresh-cons s seen [] h = (refl, tt)
Fresh-cons s seen (t ∷ ts) h =
    let (m, f) = Fresh-cons s seen ts h.1 in
    let first = h.0 in (ground (arith, same_iff s t, same_iff t s), (ground arith, f))

abbrev Clean : List Text → List Text → Type 0
Clean seen ts = All IsSubtree ts × Distinct ts × Fresh seen ts

checked_subject-ok :
    (kind : Direction) (principal s : Text) {u : Unit {0}}
    → checked_subject kind principal s ≡ ok u
    → IsSubtree s
checked_subject-ok kind principal s h = elim (Result-cases (validate_subject_subtree s)) [
  | inl (u, e) ↦ (validate_subject_subtree_iff s).0 e
  | inr (x, e) ↦ let h' = rw (e, checked_subject) at h in cc
]

add_subject :
    (s : Text) (seen ts : List Text) (known : Bool)
    → IsSubtree s
    → member s seen ≡ known
    → Clean (if known then seen else s ∷ seen) ts
    → Clean seen (if known then ts else s ∷ ts)
add_subject s seen ts true valid e clean = clean
add_subject s seen ts false valid e (a, d, f) =
    let (m, g) = Fresh-cons s seen ts f in ((valid, a), (m, d), (e, g))

subtrees-Clean :
    (kind : Direction) (principal : Text) (seen ss : List Text) {out : List Text}
    → subtrees kind principal seen ss ≡ ok out
    → Clean seen out
unfolding subtrees
subtrees-Clean kind principal seen [] h = subst (Clean seen) (ok-injective h) (tt, tt, tt)
subtrees-Clean kind principal seen (s ∷ ss) h =
    let subj = trim_space s in
    let known = member subj seen in
    let (u, valid, h1) = bind-eq-ok (checked_subject kind principal subj) _ h in
    let (rest, ran, h2) =
      bind-eq-ok (subtrees kind principal (if known then seen else subj ∷ seen) ss) _ h1 in
    subst (Clean seen) (ok-injective h2) (
      add_subject subj seen rest known (checked_subject-ok kind principal subj valid) refl
        (subtrees-Clean kind principal (if known then seen else subj ∷ seen) ss ran))

-- The grants that `validateSubjectSubtrees` lets through: subjects that may be granted, none twice.
abbrev pub IsGrants : List Text → Type 0
IsGrants ts = All IsSubtree ts × Distinct ts

-- A principal that may be a user beside the internal one.
abbrev pub IsPrincipal : Text → Principal → Type 0
IsPrincipal internal p =
    (p.principal_id ≢ [])
    × (p.principal_id ≢ internal)
    × (p.password ≢ [])
    × IsGrants p.publish_allow
    × IsGrants p.subscribe_allow

abbrev pub ids : List Principal → List Text
ids [] = []
ids (p ∷ ps) = p.principal_id ∷ ids ps

abbrev pub IsPrepared : Authorization → Type 0
IsPrepared a = All (IsPrincipal a.internal_username) a.principals × Distinct (ids a.principals)

check_principal-ok :
    (internal : Text) (i : ℕ) (seen : List Text) (p : Principal) {u : Unit {0}}
    → check_principal internal i seen p ≡ ok u
    → (p.principal_id ≢ [])
      × (p.principal_id ≢ internal)
      × (member p.principal_id seen ≡ false)
      × (p.password ≢ [])
unfolding check_principal
check_principal-ok internal i seen p h = ground (arith, same_iff p.principal_id internal)

grant_subjects-ok :
    (p : Principal) {q : Principal}
    → grant_subjects p ≡ ok q
    → IsGrants q.publish_allow
      × IsGrants q.subscribe_allow
      × (q.principal_id ≡ p.principal_id)
      × (q.password ≡ p.password)
unfolding grant_subjects validate_subject_subtrees
grant_subjects-ok p h =
    let (pubs, pubs_ok, h1) = bind-eq-ok (subtrees publish p.principal_id [] p.publish_allow) _ h in
    let (subs, subs_ok, h2) =
      bind-eq-ok (subtrees subscribe p.principal_id [] p.subscribe_allow) _ h1 in
    let (a, b, c) = subtrees-Clean publish p.principal_id [] p.publish_allow pubs_ok in
    let (d, e, f) = subtrees-Clean subscribe p.principal_id [] p.subscribe_allow subs_ok in
    subst
      (λ q.
        IsGrants q.publish_allow
        × IsGrants q.subscribe_allow
        × (q.principal_id ≡ p.principal_id)
        × (q.password ≡ p.password))
      (ok-injective h2) ((a, b), (d, e), refl, refl)

prepare_principal-ok :
    (internal : Text) (i : ℕ) (seen : List Text) (p : Principal) {q : Principal}
    → prepare_principal internal i seen p ≡ ok q
    → IsPrincipal internal q × (member q.principal_id seen ≡ false)
unfolding prepare_principal
prepare_principal-ok internal i seen p {q} h =
    let (u, checked, h1) = bind-eq-ok (check_principal internal i seen p) _ h in
    let (named, external, new, secret) = check_principal-ok internal i seen p checked in
    let (pubs, subs, id, password) = grant_subjects-ok p h1 in
    rw (id, password) ((named, external, secret, pubs, subs), new)

prepare_principals-ok :
    (internal : Text) (i : ℕ) (seen : List Text) (ps : List Principal) {qs : List Principal}
    → prepare_principals internal i seen ps ≡ ok qs
    → All (IsPrincipal internal) qs × Distinct (ids qs) × Fresh seen (ids qs)
unfolding prepare_principals
prepare_principals-ok internal i seen [] h =
    subst (λ qs. All (IsPrincipal internal) qs × Distinct (ids qs) × Fresh seen (ids qs))
      (ok-injective h) (tt, tt, tt)
prepare_principals-ok internal i seen (p ∷ ps) h =
    let (q, h0, h1) = bind-eq-ok (prepare_principal internal i seen (trim_principal p)) _ h in
    let (qs, rest, h2) =
      bind-eq-ok (prepare_principals internal (suc i) (q.principal_id ∷ seen) ps) _ h1 in
    let (principal, new) = prepare_principal-ok internal i seen (trim_principal p) h0 in
    let (a, d, f) = prepare_principals-ok internal (suc i) (q.principal_id ∷ seen) ps rest in
    let (m, g) = Fresh-cons q.principal_id seen (ids qs) f in
    subst (λ qs. All (IsPrincipal internal) qs × Distinct (ids qs) × Fresh seen (ids qs))
      (ok-injective h2) ((principal, a), (m, d), (new, g))

pub prepare_enabled-ok :
    (random : Option Text) (a : Authorization) {out : Authorization}
    → prepare_enabled random a ≡ ok out
    → IsPrepared out
      × (internal_auth random a ≡ ok (out.internal_username, out.internal_password))
      × (out.enabled ≡ true)
unfolding prepare_enabled
prepare_enabled-ok random a h =
    let (internal, h0, h1) = bind-eq-ok (internal_auth random a) _ h in
    let (ps, h2, h3) = bind-eq-ok (prepare_principals internal.0 0 [] a.principals) _ h1 in
    let (principals, d, f) = prepare_principals-ok internal.0 0 [] a.principals h2 in
    subst
      (λ out.
        IsPrepared out
        × (internal_auth random a ≡ ok (out.internal_username, out.internal_password))
        × (out.enabled ≡ true))
      (ok-injective h3) ((principals, d), h0, refl)

-- Where an authorization is prepared with success, each principal has a password and an id that is
-- neither empty nor the internal user's, no two have one id, and what each may publish or subscribe
-- to are valid subtrees, none listed twice.
pub prepare_authorization-IsPrepared :
    (random : Option Text) (a : Authorization) {out : Authorization}
    → prepare_authorization random a ≡ ok out
    → IsPrepared out
unfolding prepare_authorization
prepare_authorization-IsPrepared random a {out} h = elim (Bool-cases a.enabled) [
  | inl on ↦
      (prepare_enabled-ok random a
        (sym (ap (λ b. if b then prepare_enabled random a else ok no_authorization) on) ∙ h)).0
  | inr off ↦
      subst IsPrepared
        (ok-injective
          (sym (ap (λ b. if b then prepare_enabled random a else ok no_authorization) off) ∙ h))
        (tt, tt)
]

-- What is prepared of an enabled authorization is enabled.
pub prepare_authorization-enabled :
    (random : Option Text) (a : Authorization) {out : Authorization}
    → a.enabled ≡ true
    → prepare_authorization random a ≡ ok out
    → out.enabled ≡ true
unfolding prepare_authorization
prepare_authorization-enabled random a on h =
    (prepare_enabled-ok random a
      (sym (ap (λ b. if b then prepare_enabled random a else ok no_authorization) on) ∙ h)).2
