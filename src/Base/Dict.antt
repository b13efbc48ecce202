-- ===== src/Base/Dict.antt =====
-- A Go map with string keys as an association list; a read of a missing key is `none`.
use mathlib.Core.Path.{◌≡◌, refl, ap}
use mathlib.Core.Logic.{inl, inr}
use mathlib.Core.Bool.{Bool}
use mathlib.Core.Option.{Option, none, some}
use mathlib.Core.List.{List, [], ◌∷◌}
use native.Mathlib.Omega.{arith}
use jb_mesh.Base.Tests.{if◌then◌else◌, Bool-cases}
use jb_mesh.Base.Text.{Text, same, same_iff}

abbrev pub Dict {ℓ} : Type ℓ → Type ℓ
Dict V = List (Text × V)

module _ {ℓ} {V : Type ℓ} where
  unfoldable pub lookup : Text → Dict V → Option V
  lookup k [] = none
  lookup k ((j, v) ∷ m) = if same j k then some v else lookup k m

  -- `m[k] = v`
  unfoldable pub insert : Text → V → Dict V → Dict V
  insert k v [] = (k, v) ∷ []
  insert k v ((j, w) ∷ m) = if same j k then (k, v) ∷ m else (j, w) ∷ insert k v m

  -- `delete(m, k)`
  unfoldable pub delete : Text → Dict V → Dict V
  delete k [] = []
  delete k ((j, w) ∷ m) = if same j k then delete k m else (j, w) ∷ delete k m

  -- The entries whose key passes the test.
  unfoldable pub keep_keys : (Text → Bool) → Dict V → Dict V
  keep_keys p [] = []
  keep_keys p ((j, w) ∷ m) = if p j then (j, w) ∷ keep_keys p m else keep_keys p m

  pub lookup-insert :
      (k j : Text) (v : V) (m : Dict V)
      → lookup j (insert k v m) ≡ (if same k j then some v else lookup j m)
  unfolding lookup insert
  lookup-insert k j v [] = refl
  lookup-insert k j v ((i, w) ∷ m) =
      ground (arith, same_iff k j, same_iff i k, same_iff i j, lookup-insert k j v m)

  pub lookup-delete :
      (k j : Text) (m : Dict V) → lookup j (delete k m) ≡ (if same k j then none else lookup j m)
  unfolding lookup delete
  lookup-delete k j [] = ground arith
  lookup-delete k j ((i, w) ∷ m) =
      ground (arith, same_iff k j, same_iff i k, same_iff i j, lookup-delete k j m)

  pub lookup-keep_keys :
      (p : Text → Bool) (j : Text) (m : Dict V)
      → lookup j (keep_keys p m) ≡ (if p j then lookup j m else none)
  unfolding lookup keep_keys
  lookup-keep_keys p j [] = ground arith
  lookup-keep_keys p j ((i, w) ∷ m) = elim (Bool-cases (same i j)) [
    | inl e ↦ ground (arith, lookup-keep_keys p j m, ap p ((same_iff i j).0 e))
    | inr n ↦ ground (arith, lookup-keep_keys p j m)
  ]

  abbrev pub adjusted : (V → V) → Option V → Option V
  adjusted f none = none
  adjusted f (some v) = some (f v)

  -- A change of the value of a key that is there.
  unfoldable pub adjust : Text → (V → V) → Dict V → Dict V
  adjust k f [] = []
  adjust k f ((j, v) ∷ m) = if same j k then (j, f v) ∷ m else (j, v) ∷ adjust k f m

  pub lookup-adjust :
      (k j : Text) (f : V → V) (m : Dict V)
      → lookup j (adjust k f m) ≡ (if same k j then adjusted f (lookup j m) else lookup j m)
  unfolding lookup adjust
  lookup-adjust k j f [] = ground arith
  lookup-adjust k j f ((i, w) ∷ m) =
      ground (arith, same_iff k j, same_iff i k, same_iff i j, lookup-adjust k j f m)

  pub lookup_empty : (k : Text) → ◌≡◌ {A = Option V} (lookup k []) none
  unfolding lookup
  lookup_empty k = refl
