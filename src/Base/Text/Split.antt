-- ===== src/Base/Text/Split.antt =====
-- Splitting, joining and cutting at a separator byte.
use Prim.Native.Nat.{ℕ}
use mathlib.Core.Path.{◌≡◌, refl, ap, ◌∙◌}
use mathlib.Core.Logic.{◌≢◌, inl, inr}
use mathlib.Core.Option.{some}
use mathlib.Core.List.{List, [], ◌∷◌, ◌++◌}
use native.Mathlib.Omega.{arith}
use jb_mesh.Base.Tests.{◌==◌, Bool-cases}
use jb_mesh.Base.Lists.{All}
use jb_mesh.Base.Text.{Text, split, join, cut, cons_head}

-- The separator does not occur.
abbrev pub NoByte : ℕ → Text → Type 0
NoByte b = All (λ c. c ≢ b)

pub split-append : (b : ℕ) (p s : Text) → NoByte b p → split b (p ++ (b ∷ s)) ≡ p ∷ split b s
unfolding split
split-append b [] s h = ground arith
split-append b (c ∷ p) s h = ground (arith, split-append b p s h.1)

pub split_of_NoByte : (b : ℕ) (p : Text) → NoByte b p → split b p ≡ p ∷ []
unfolding split
split_of_NoByte b [] h = refl
split_of_NoByte b (c ∷ p) h = ground (arith, split_of_NoByte b p h.1)

-- Splitting takes a join apart where no part holds the separator.
pub split-join :
    (b : ℕ) (p : Text) (ps : List Text)
    → All (NoByte b) (p ∷ ps)
    → split b (join b (p ∷ ps)) ≡ p ∷ ps
unfolding join
split-join b p [] h = split_of_NoByte b p h.0
split-join b p (q ∷ ps) h =
    split-append b p (join b (q ∷ ps)) h.0 ∙ ap (◌∷◌ p) (split-join b q ps h.1)

cons_head-NoByte :
    (b c : ℕ) (ps : List Text) → c ≢ b → All (NoByte b) ps → All (NoByte b) (cons_head c ps)
cons_head-NoByte b c [] n h = ((n, tt), tt)
cons_head-NoByte b c (p ∷ ps) n h = ((n, h.0), h.1)

-- No part of a split holds the separator.
pub split-NoByte : (b : ℕ) (s : Text) → All (NoByte b) (split b s)
unfolding split
split-NoByte b [] = (tt, tt)
split-NoByte b (c ∷ s) = elim (Bool-cases (c == b)) [
  | inl same ↦ rw same (tt, split-NoByte b s)
  | inr other ↦ rw other (cons_head-NoByte b c (split b s) (ground arith) (split-NoByte b s))
]

pub cut-append : (b : ℕ) (k v : Text) → NoByte b k → cut b (k ++ (b ∷ v)) ≡ some (k, v)
unfolding cut
cut-append b [] v h = ground arith
cut-append b (c ∷ k) v h = ground (arith, cut-append b k v h.1)
