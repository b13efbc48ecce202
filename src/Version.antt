-- ===== src/Version.antt =====
-- pkg/version/version.go: versions vMAJOR.MINOR.PATCH, their order, and constraints on them.
pub mod Order
pub mod RoundTrip
pub mod Range
use jb_mesh.Base.Result.{Result, ok, err, ◌>>=◌}
use jb_mesh.Base.{
  ℕ, zero, suc, ◌+◌, ◌-◌, ◌*◌, ◌/◌, ◌%◌, ◌^◌, ◌≤◌, ◌<◌, ◌≡◌, refl, sym, ap, ◌∙◌, subst, ◌≢◌, ◌↔◌,
  ◌⊎◌, inl, inr, Bool, true, false, not, ◌&&◌, ◌||◌, Option, none, some, List, [], ◌∷◌, ◌++◌, map,
  arith, ltb, leb, ◌==◌, if◌then◌else◌, ltb→lt, lt→ltb, ==_iff, Bool-cases, Option-cases,
  and-eq-true, length, take, drop, any, all, length-append, All, All-append,
}
use jb_mesh.Base.Text.{
  Text, lit, same, same_iff, same_sound, same_refl, is_empty, has_prefix, contains, has_byte,
  is_space, trim_space, split, join, cut, to_lower, remove_byte,
}
use jb_mesh.Base.Int.{ℤ, pos, negsuc, int_ltb, int_eqb, is_negative}
use jb_mesh.Base.Decimal.{itoa, atoi}

pub record Version : Type 0 where
  pub major : ℤ
  pub minor : ℤ
  pub patch : ℤ

-- Why a text is refused; the messages also quote the text.
pub data Error : Type 0 where
  empty_version missing_v component_count bad_major bad_minor bad_patch : Error

-- `strconv.Atoi` and the test for a negative number
component : Error → Text → Result Error ℤ
component e part = elim (atoi part) [
  | none ↦ err e
  | some n ↦ if is_negative n then err e else ok n
]

-- The three components; any other number of parts is refused.
components : List Text → Result Error Version
components (a ∷ b ∷ c ∷ []) = do
  major ← component bad_major a
  minor ← component bad_minor b
  patch ← component bad_patch c
  ok (record { major = major; minor = minor; patch = patch })
components _ = err component_count

parse_body : Text → Result Error Version
parse_body [] = err empty_version
parse_body (c ∷ rest) = if c == b'v' then components (split b'.' rest) else err missing_v

unfoldable pub parse : Text → Result Error Version
unfolding parse_body components component
parse s = parse_body s

-- `Version.String`
unfoldable pub to_string : Version → Text
to_string v = b'v' ∷ (itoa v.major ++ (b'.' ∷ (itoa v.minor ++ (b'.' ∷ itoa v.patch))))

-- -1, 0 and 1
pub data Sign : Type 0 where
  less equal greater : Sign

abbrev compare_int : ℤ → ℤ → Sign → Sign
compare_int a b next = if int_eqb a b then next else if int_ltb a b then less else greater

unfoldable pub compare : Version → Version → Sign
compare v w =
    compare_int v.major w.major (compare_int v.minor w.minor (compare_int v.patch w.patch equal))

abbrev pub is_less : Sign → Bool
is_less less = true
is_less _ = false

abbrev pub is_equal : Sign → Bool
is_equal equal = true
is_equal _ = false

abbrev pub is_greater : Sign → Bool
is_greater greater = true
is_greater _ = false

unfoldable pub less_than : Version → Version → Bool
less_than v w = is_less (compare v w)

unfoldable pub equals : Version → Version → Bool
equals v w = is_equal (compare v w)

unfoldable pub greater_than : Version → Version → Bool
greater_than v w = is_greater (compare v w)

-- `Validate`
unfoldable pub validate : Text → Result Error (Unit {0})
validate s = do _ ← parse s; ok tt
