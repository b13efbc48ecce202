-- ===== src/Base/Int.antt =====
-- Go's `int`, as an integer: its range is stated where it matters.
use Prim.Native.Nat.{ℕ, zero, suc, ◌+◌, ◌-◌}
use mathlib.Core.Path.{◌≡◌, refl}
use mathlib.Core.Logic.{◌↔◌, inl, inr}
use mathlib.Core.Bool.{Bool, true, false}
use native.Mathlib.Omega.{arith}
use jb_mesh.Base.Tests.{ltb, leb, if◌then◌else◌, ◌==◌, Bool-cases}

-- `negsuc n` is -(n + 1).
pub data ℤ : Type 0 where
  pos : ℕ → ℤ
  negsuc : ℕ → ℤ

abbrev pub int_ltb : ℤ → ℤ → Bool
int_ltb (pos a) (pos b) = ltb a b
int_ltb (pos a) (negsuc b) = false
int_ltb (negsuc a) (pos b) = true
int_ltb (negsuc a) (negsuc b) = ltb b a

abbrev pub int_eqb : ℤ → ℤ → Bool
int_eqb (pos a) (pos b) = a == b
int_eqb (negsuc a) (negsuc b) = a == b
int_eqb _ _ = false

abbrev pub is_negative : ℤ → Bool
is_negative (pos a) = false
is_negative (negsuc a) = true

-- `a - b` on natural numbers
unfoldable pub difference : ℕ → ℕ → ℤ
difference a b = if leb b a then pos (a - b) else negsuc (b - a - 1)

unfoldable pub int_add : ℤ → ℤ → ℤ
unfolding difference
int_add (pos a) (pos b) = pos (a + b)
int_add (pos a) (negsuc b) = difference a (suc b)
int_add (negsuc a) (pos b) = difference b (suc a)
int_add (negsuc a) (negsuc b) = negsuc (suc (a + b))

abbrev pub int_neg : ℤ → ℤ
int_neg (pos zero) = pos 0
int_neg (pos (suc n)) = negsuc n
int_neg (negsuc n) = pos (suc n)

unfoldable pub int_sub : ℤ → ℤ → ℤ
unfolding int_add
int_sub a b = int_add a (int_neg b)

pub int_ltb_irrefl : (a : ℤ) → int_ltb a a ≡ false
int_ltb_irrefl (pos a) = ground arith
int_ltb_irrefl (negsuc a) = ground arith

pub int_ltb_trans : (a b c : ℤ) → int_ltb a b ≡ true → int_ltb b c ≡ true → int_ltb a c ≡ true
int_ltb_trans (pos a) (pos b) (pos c) h k = ground arith
int_ltb_trans (pos a) (pos b) (negsuc c) h k = cc
int_ltb_trans (pos a) (negsuc b) c h k = cc
int_ltb_trans (negsuc a) (pos b) (pos c) h k = refl
int_ltb_trans (negsuc a) (pos b) (negsuc c) h k = cc
int_ltb_trans (negsuc a) (negsuc b) (pos c) h k = refl
int_ltb_trans (negsuc a) (negsuc b) (negsuc c) h k = ground arith

pub int_ltb_asymm : (a b : ℤ) → int_ltb a b ≡ true → int_ltb b a ≡ false
int_ltb_asymm (pos a) (pos b) h = ground arith
int_ltb_asymm (pos a) (negsuc b) h = cc
int_ltb_asymm (negsuc a) (pos b) h = refl
int_ltb_asymm (negsuc a) (negsuc b) h = ground arith

-- Of two integers neither of which is below the other, each is the other.
pub int_ltb_total : (a b : ℤ) → int_ltb a b ≡ false → int_ltb b a ≡ false → a ≡ b
int_ltb_total (pos a) (pos b) h k = ground arith
int_ltb_total (pos a) (negsuc b) h k = cc
int_ltb_total (negsuc a) (pos b) h k = cc
int_ltb_total (negsuc a) (negsuc b) h k = ground arith

pub int_eqb_iff : (a b : ℤ) → (int_eqb a b ≡ true) ↔ (a ≡ b)
int_eqb_iff (pos a) (pos b) = ground arith
int_eqb_iff (pos a) (negsuc b) = ground arith
int_eqb_iff (negsuc a) (pos b) = ground arith
int_eqb_iff (negsuc a) (negsuc b) = ground arith

-- From `a < b` and `b ≤ c` follows `a < c`.
pub int_ltb_of_not_lt : (a b c : ℤ) → int_ltb a b ≡ true → int_ltb c b ≡ false → int_ltb a c ≡ true
int_ltb_of_not_lt a b c h k = elim (Bool-cases (int_ltb a c)) [
  | inl lt ↦ lt
  | inr ge ↦ elim (Bool-cases (int_ltb c a)) [
    | inl gt ↦ let q = int_ltb_trans c a b gt h in cc
    | inr le ↦ let e = int_ltb_total a c ge le in let h' = rw e at h in cc
  ]
]
