-- ===== src/Base/Count.antt =====
-- How often a text stands in a list of texts, and in one without its first place.
use jb_mesh.Base.Text.{Text, same, same_sound, same_refl}
use jb_mesh.Base.Tests.{if◌then◌else◌, Bool-cases}
use mathlib.Core.Path.{◌≡◌, sym, ap, ◌∙◌}
use mathlib.Core.Bool.{Bool, true, false}
use mathlib.Core.Logic.{inl, inr}
use mathlib.Core.List.{List, [], ◌∷◌}
use Prim.Native.Nat.{ℕ, suc, ◌-◌}
use native.Mathlib.Omega.{arith}

-- How often a text stands in a list
abbrev pub count : Text → List Text → ℕ
count t [] = 0
count t (s ∷ ss) = let rest = count t ss in if same s t then suc rest else rest

-- A list without the first place of a text has that text once less, and the others as often.
abbrev pub IsWithout : Text → (Text → List Text → List Text) → List Text → Text → Type 0
IsWithout name remove ss t = count t (remove name ss) ≡ count t ss - (if same name t then 1 else 0)

less_if : (b : Bool) (n : ℕ) → n ≡ (if b then suc n else n) - (if b then 1 else 0)
less_if true n = omega arith
less_if false n = omega arith

not_same_sym : (s t : Text) → same s t ≡ false → same t s ≡ false
not_same_sym s t h = elim (Bool-cases (same t s)) [
  | inl e ↦ let p = same_sound t s e in let q = ap (same s) p ∙ same_refl s in cc
  | inr e ↦ e
]

pub count-IsWithout :
    (remove : Text → List Text → List Text)
    → ((name : Text) → remove name [] ≡ [])
    → ((name s : Text) (ss : List Text)
        → remove name (s ∷ ss) ≡ (if same s name then ss else s ∷ remove name ss))
    → (name t : Text) (ss : List Text) → IsWithout name remove ss t
count-IsWithout remove nil cons name t [] = rw (nil name) (omega arith)
count-IsWithout remove nil cons name t (s ∷ ss) =
    let rest = count-IsWithout remove nil cons name t ss in
    elim (Bool-cases (same s name)) [
      | inl e ↦
          let p = same_sound s name e in
          rw (cons name s ss, e, p) (less_if (same name t) (count t ss))
      | inr e ↦ elim (Bool-cases (same s t)) [
        | inl f ↦
            let p = same_sound s t f in
            let r = not_same_sym t name (ap (λ x. same x name) (sym p) ∙ e) in
            let less = rw r at rest in rw (cons name s ss, e, f, r) (omega arith)
        | inr f ↦ rw (cons name s ss, e, f) rest
      ]
    ]
