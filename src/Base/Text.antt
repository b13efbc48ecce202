-- ===== src/Base/Text.antt =====
-- Go's strings as lists of bytes, with the functions of Go's package `strings` that the program
-- calls. White space and letter case are ASCII's.
pub mod Split
pub mod Trim
use Prim.Native.Nat.{ℕ, ◌+◌}
use Prim.Native.Char.{code}
use Prim.Native.String.{String}
use mathlib.Core.Path.{◌≡◌, refl}
use mathlib.Core.Logic.{◌↔◌}
use mathlib.Core.Bool.{Bool, true, false, ◌&&◌, ◌||◌}
use mathlib.Core.Option.{Option, none, some}
use mathlib.Core.List.{List, [], ◌∷◌, ◌++◌}
use native.Mathlib.Omega.{arith}
use jb_mesh.Base.Tests.{◌==◌, leb, ltb, if◌then◌else◌}

abbrev pub Text : Type 0
Text = List ℕ

-- The bytes of an ASCII literal.
abbrev pub lit : String → Text
lit String.[] = []
lit (String.◌∷◌ c s) = code c ∷ lit s

-- `a == b` on strings.
unfoldable pub same : Text → Text → Bool
same [] [] = true
same (a ∷ s) (b ∷ t) = a == b && same s t
same _ _ = false

pub same_sound : (s t : Text) → same s t ≡ true → s ≡ t
unfolding same
same_sound [] [] h = refl
same_sound (a ∷ s) (b ∷ t) h = ground (arith, same_sound s t)
same_sound [] (b ∷ t) h = cc
same_sound (a ∷ s) [] h = cc

pub same_refl : (s : Text) → same s s ≡ true
unfolding same
same_refl [] = refl
same_refl (a ∷ s) = ground (arith, same_refl s)

pub same_iff : (s t : Text) → (same s t ≡ true) ↔ (s ≡ t)
same_iff s t = (same_sound s t, λ e. rw e (same_refl t))

-- `s == ""`
abbrev pub is_empty : Text → Bool
is_empty [] = true
is_empty (c ∷ s) = false

-- `strings.HasPrefix(s, prefix)`
unfoldable pub has_prefix : Text → Text → Bool
has_prefix s [] = true
has_prefix [] (p ∷ ps) = false
has_prefix (c ∷ s) (p ∷ ps) = c == p && has_prefix s ps

-- `strings.Contains(s, sub)`
unfoldable pub contains : Text → Text → Bool
unfolding has_prefix
contains [] sub = has_prefix [] sub
contains (c ∷ s) sub = has_prefix (c ∷ s) sub || contains s sub

-- a byte of the text
abbrev pub has_byte : ℕ → Text → Bool
has_byte b [] = false
has_byte b (c ∷ s) = c == b || has_byte b s

-- The white space that `strings.TrimSpace` trims: tab to carriage return, and the blank.
abbrev pub is_space : ℕ → Bool
is_space c = (leb 9 c && leb c 13) || c == 32

unfoldable pub trim_left : Text → Text
trim_left [] = []
trim_left (c ∷ s) = if is_space c then trim_left s else c ∷ s

-- A byte in front of what is left of its rest: white space before nothing is dropped.
abbrev pub cons_trimmed : ℕ → Text → Text
cons_trimmed c [] = if is_space c then [] else c ∷ []
cons_trimmed c (d ∷ t) = c ∷ d ∷ t

unfoldable pub trim_right : Text → Text
trim_right [] = []
trim_right (c ∷ s) = cons_trimmed c (trim_right s)

-- `strings.TrimSpace`
unfoldable pub trim_space : Text → Text
unfolding trim_left trim_right
trim_space s = trim_right (trim_left s)

abbrev pub cons_head : ℕ → List Text → List Text
cons_head c [] = (c ∷ []) ∷ []
cons_head c (p ∷ ps) = (c ∷ p) ∷ ps

-- `strings.Split` at a separator of one byte
unfoldable pub split : ℕ → Text → List Text
split b [] = [] ∷ []
split b (c ∷ s) = if c == b then [] ∷ split b s else cons_head c (split b s)

-- `strings.Join` with a separator of one byte
unfoldable pub join : ℕ → List Text → Text
join b [] = []
join b (p ∷ []) = p
join b (p ∷ q ∷ ps) = p ++ (b ∷ join b (q ∷ ps))

abbrev pub cut_after : ℕ → Option (Text × Text) → Option (Text × Text)
cut_after c none = none
cut_after c (some (k, v)) = some (c ∷ k, v)

-- `strings.Cut` at a separator of one byte; `none` if it is not found
unfoldable pub cut : ℕ → Text → Option (Text × Text)
cut b [] = none
cut b (c ∷ s) = if c == b then some ([], s) else cut_after c (cut b s)

abbrev pub lower_byte : ℕ → ℕ
lower_byte c = if leb 65 c && leb c 90 then c + 32 else c

-- `strings.ToLower`
unfoldable pub to_lower : Text → Text
to_lower [] = []
to_lower (c ∷ s) = lower_byte c ∷ to_lower s

-- `strings.ReplaceAll(s, old, "")` for an `old` of one byte
unfoldable pub remove_byte : ℕ → Text → Text
remove_byte b [] = []
remove_byte b (c ∷ s) = if c == b then remove_byte b s else c ∷ remove_byte b s

-- `a < b` on Go strings: by bytes, a proper prefix first.
abbrev pub text_ltb : Text → Text → Bool
text_ltb [] [] = false
text_ltb [] (y ∷ ys) = true
text_ltb (x ∷ xs) [] = false
text_ltb (x ∷ xs) (y ∷ ys) = if ltb x y then true else (x == y && text_ltb xs ys)

-- `strings.HasSuffix(s, suffix)`
unfoldable pub has_suffix : Text → Text → Bool
unfolding same
has_suffix [] suffix = same [] suffix
has_suffix (c ∷ s) suffix = same (c ∷ s) suffix || has_suffix s suffix

-- A text in its place among ordered ones
unfoldable pub place : Text → List Text → List Text
place s [] = s ∷ []
place s (t ∷ ts) = let rest = place s ts in if text_ltb t s then t ∷ rest else s ∷ t ∷ ts

-- `sort.Strings`
unfoldable pub sort_strings : List Text → List Text
unfolding place
sort_strings [] = []
sort_strings (s ∷ ss) = place s (sort_strings ss)
