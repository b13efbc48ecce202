-- ===== src/Version/RoundTrip.antt =====
-- Printing a version and parsing it back.
use jb_mesh.Base.Result.{ok-injective, bind-eq-ok}
use jb_mesh.Base.{
  subst, inr, inl, List, Option-cases, false, ◌∙◌, ◌++◌, [], ◌∷◌, ap, All-append, ◌≢◌, ◌≤◌, All,
  ◌≡◌, ◌<◌, arith, ℕ, All-weaken,
}
use jb_mesh.Base.Decimal.{
  atoi-InRange, InRange, atoi, itoa, int_limit, digits, itoa_pos, digits-IsDigits, atoi-digits,
}
use jb_mesh.Version.{
  bad_patch, bad_minor, bad_major, split, Text, Version, Error, ok, component, components,
  parse_body, parse, to_string,
}
use jb_mesh.Base.Text.Split.{NoByte, split-append, split_of_NoByte}
use jb_mesh.Base.Int.{ℤ, pos, negsuc, is_negative}

-- A number that a version can hold: not negative, and within Go's `int`.
abbrev pub IsComponent : ℤ → Type 0
IsComponent (pos n) = n < int_limit
IsComponent (negsuc n) = ⊥

abbrev pub IsRelease : Version → Type 0
IsRelease v = IsComponent v.major × IsComponent v.minor × IsComponent v.patch

-- Bytes above the comma and the hyphen: digits, dots, letters and comparison signs.
abbrev pub IsPlain : Text → Type 0
IsPlain = All (λ c. (45 < c) × (c < 127))

digits-IsPlain : (n : ℕ) → IsPlain (digits n)
digits-IsPlain n =
    All-weaken (λ c. (48 ≤ c) × (c ≤ 57)) (λ c. (45 < c) × (c < 127)) (λ c h. omega arith)
      (digits n) (digits-IsDigits n)

digits-NoByte : (b n : ℕ) → b < 48 → NoByte b (digits n)
digits-NoByte b n h =
    All-weaken (λ c. (48 ≤ c) × (c ≤ 57)) (λ c. c ≢ b) (λ c k. omega arith) (digits n)
      (digits-IsDigits n)

itoa-NoByte : (n : ℤ) → IsComponent n → NoByte b'.' (itoa n)
itoa-NoByte (pos n) h = rw itoa_pos (digits-NoByte b'.' n (omega arith))
itoa-NoByte (negsuc n) h = absurd h

itoa-IsPlain : (n : ℤ) → IsComponent n → IsPlain (itoa n)
itoa-IsPlain (pos n) h = rw itoa_pos (digits-IsPlain n)
itoa-IsPlain (negsuc n) h = absurd h

component-itoa : (e : Error) (n : ℤ) → IsComponent n → component e (itoa n) ≡ ok n
unfolding component
component-itoa e (pos n) h = rw (itoa_pos n, atoi-digits n h, component)
component-itoa e (negsuc n) h = absurd h

pub to_string-IsPlain : (v : Version) → IsRelease v → IsPlain (to_string v)
unfolding to_string
to_string-IsPlain v (h, k, l) = (
  omega arith,
  All-append _ (itoa v.major) _ (itoa-IsPlain v.major h) (
    omega arith,
    All-append _ (itoa v.minor) _ (itoa-IsPlain v.minor k) (omega arith, itoa-IsPlain v.patch l),
  ),
)

split-to_string :
    (v : Version)
    → IsRelease v
    → split b'.' (itoa v.major ++ (b'.' ∷ (itoa v.minor ++ (b'.' ∷ itoa v.patch))))
      ≡ itoa v.major ∷ itoa v.minor ∷ itoa v.patch ∷ []
split-to_string v (h, k, l) =
    split-append b'.' (itoa v.major) _ (itoa-NoByte v.major h)
    ∙ ap (λ r. itoa v.major ∷ r) (split-append b'.' (itoa v.minor) _ (itoa-NoByte v.minor k))
    ∙ ap (λ r. itoa v.major ∷ itoa v.minor ∷ r)
        (split_of_NoByte b'.' (itoa v.patch) (itoa-NoByte v.patch l))

components-itoa :
    (v : Version)
    → IsRelease v
    → components (itoa v.major ∷ itoa v.minor ∷ itoa v.patch ∷ []) ≡ ok v
unfolding components
components-itoa v (h, k, l) = rw (
  component-itoa bad_major v.major h,
  component-itoa bad_minor v.minor k,
  component-itoa bad_patch v.patch l,
)

-- Printing a release version and parsing the text gives the version back.
pub parse-to_string : (v : Version) → IsRelease v → parse (to_string v) ≡ ok v
unfolding parse_body parse components to_string
parse-to_string v h = ap components (split-to_string v h) ∙ components-itoa v h

IsComponent-of_InRange : (n : ℤ) → is_negative n ≡ false → InRange n → IsComponent n
IsComponent-of_InRange (pos n) p h = h
IsComponent-of_InRange (negsuc n) p h = cc

component-IsComponent : (e : Error) (s : Text) (n : ℤ) → component e s ≡ ok n → IsComponent n
unfolding component
component-IsComponent e s n h = elim (Option-cases (atoi s)) [
  | inl bad ↦ let h' = rw (bad, component) at h in cc
  | inr (m, read) ↦ ground (arith, IsComponent-of_InRange n, atoi-InRange s n)
]

components-IsRelease : (parts : List Text) (v : Version) → components parts ≡ ok v → IsRelease v
unfolding components
components-IsRelease (a ∷ b ∷ c ∷ []) v h =
    let (major, p, h') = bind-eq-ok (component bad_major a) _ h in
    let (minor, q, h'') = bind-eq-ok (component bad_minor b) _ h' in
    let (patch, r, e) = bind-eq-ok (component bad_patch c) _ h'' in
    let k = component-IsComponent bad_major a major p in
    let l = component-IsComponent bad_minor b minor q in
    let m = component-IsComponent bad_patch c patch r in subst IsRelease (ok-injective e) (k, l, m)
components-IsRelease _ v h = cc

-- Whatever text is parsed, the version that comes out is a release version.
pub parse-IsRelease : (s : Text) (v : Version) → parse s ≡ ok v → IsRelease v
unfolding parse parse_body
parse-IsRelease [] v h = cc
parse-IsRelease (c ∷ rest) v h = ground (arith, components-IsRelease (split b'.' rest) v)
