-- ===== src/Base/Text/Trim.antt =====
-- Trimming white space.
use Prim.Native.Nat.{ℕ}
use mathlib.Core.Path.{◌≡◌, refl, ap, ◌∙◌}
use mathlib.Core.Logic.{inl, inr}
use mathlib.Core.Bool.{false}
use mathlib.Core.List.{[], ◌∷◌}
use jb_mesh.Base.Tests.{Bool-cases}
use jb_mesh.Base.Lists.{All}
use jb_mesh.Base.Text.{Text, is_space, cons_trimmed, trim_left, trim_right, trim_space}

abbrev pub NoSpace : Text → Type 0
NoSpace = All (λ c. is_space c ≡ false)

-- The first byte, if any, is no white space.
abbrev StartsPlain : Text → Type 0
StartsPlain [] = Unit
StartsPlain (c ∷ s) = is_space c ≡ false

trim_left-StartsPlain : (s : Text) → StartsPlain (trim_left s)
unfolding trim_left
trim_left-StartsPlain [] = tt
trim_left-StartsPlain (c ∷ s) = elim (Bool-cases (is_space c)) [
  | inl blank ↦ rw blank (trim_left-StartsPlain s)
  | inr plain ↦ rw plain plain
]

trim_left_of_StartsPlain : (s : Text) → StartsPlain s → trim_left s ≡ s
unfolding trim_left
trim_left_of_StartsPlain [] h = refl
trim_left_of_StartsPlain (c ∷ s) h = rw h

cons_trimmed-StartsPlain : (c : ℕ) (t : Text) → is_space c ≡ false → StartsPlain (cons_trimmed c t)
cons_trimmed-StartsPlain c [] h = rw h h
cons_trimmed-StartsPlain c (d ∷ t) h = h

trim_right-StartsPlain : (s : Text) → StartsPlain s → StartsPlain (trim_right s)
unfolding trim_right
trim_right-StartsPlain [] h = tt
trim_right-StartsPlain (c ∷ s) h = cons_trimmed-StartsPlain c (trim_right s) h

trim_right-cons_trimmed :
    (c : ℕ) (t : Text) → trim_right t ≡ t → trim_right (cons_trimmed c t) ≡ cons_trimmed c t
unfolding trim_right
trim_right-cons_trimmed c [] h = elim (Bool-cases (is_space c)) [
  | inl blank ↦ rw blank
  | inr plain ↦ rw plain (rw plain)
]
trim_right-cons_trimmed c (d ∷ t) h = ap (cons_trimmed c) h

trim_right_idem : (s : Text) → trim_right (trim_right s) ≡ trim_right s
unfolding trim_right
trim_right_idem [] = refl
trim_right_idem (c ∷ s) = trim_right-cons_trimmed c (trim_right s) (trim_right_idem s)

-- Trimming a second time changes nothing.
pub trim_space_idem : (s : Text) → trim_space (trim_space s) ≡ trim_space s
trim_space_idem s =
    unfold trim_space in
    ap trim_right (trim_left_of_StartsPlain _ (trim_right-StartsPlain _ (trim_left-StartsPlain s)))
    ∙ trim_right_idem (trim_left s)

trim_right_of_NoSpace : (s : Text) → NoSpace s → trim_right s ≡ s
unfolding trim_right
trim_right_of_NoSpace [] h = refl
trim_right_of_NoSpace (c ∷ []) h = rw (h.0)
trim_right_of_NoSpace (c ∷ d ∷ s) h = ap (cons_trimmed c) (trim_right_of_NoSpace (d ∷ s) h.1)

NoSpace-StartsPlain : (s : Text) → NoSpace s → StartsPlain s
NoSpace-StartsPlain [] h = tt
NoSpace-StartsPlain (c ∷ s) h = h.0

-- A text without white space is left as it is.
pub trim_space_of_NoSpace : (s : Text) → NoSpace s → trim_space s ≡ s
unfolding trim_space
trim_space_of_NoSpace s h =
    ap trim_right (trim_left_of_StartsPlain s (NoSpace-StartsPlain s h)) ∙ trim_right_of_NoSpace s h
