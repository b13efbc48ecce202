-- ===== src/Base/Decimal.antt =====
-- Go's `strconv.Itoa` and `strconv.Atoi`, on an `int` of 64 bits.
use jb_mesh.Base.Tests.{lt→ltb, ◌==◌, leb, ltb, if◌then◌else◌, Bool-cases}
use jb_mesh.Base.Text.{Text}
use jb_mesh.Base.Int.{ℤ, pos, negsuc}
use Prim.Native.Nat.{ℕ, zero, suc, ◌+◌, ◌-◌, ◌*◌, ◌/◌, ◌%◌, ◌^◌, ◌≤◌, ◌<◌}
use mathlib.Core.Path.{◌≡◌, refl}
use mathlib.Core.Logic.{inl, inr}
use mathlib.Core.Bool.{Bool, true, false, ◌&&◌}
use mathlib.Core.Option.{Option, none, some}
use mathlib.Core.List.{[], ◌∷◌}
use native.Mathlib.Omega.{arith}
use jb_mesh.Base.Lists.{All}

abbrev pub int_limit : ℕ
int_limit = 2 ^ 63

-- The digits of `n` in front of `t`; the fuel is more than `n`.
digits_onto : ℕ → ℕ → Text → Text
digits_onto zero n t = t
digits_onto (suc fuel) n t =
    let grown = (48 + n % 10) ∷ t in
    let more = digits_onto fuel (n / 10) grown in if n / 10 == 0 then grown else more

unfoldable pub digits : ℕ → Text
unfolding digits_onto
digits n = digits_onto (suc n) n []

unfoldable pub itoa : ℤ → Text
unfolding digits
itoa (pos n) = digits n
itoa (negsuc n) = b'-' ∷ digits (suc n)

abbrev pub is_digit : ℕ → Bool
is_digit c = leb 48 c && leb c 57

-- The number that the digits stand for, behind those already read.
unfoldable pub value : ℕ → Text → Option ℕ
value acc [] = some acc
value acc (c ∷ s) = if is_digit c then value (acc * 10 + (c - 48)) s else none

-- The digits of an unsigned number: at least one.
unfoldable pub magnitude : Text → Option ℕ
unfolding value
magnitude [] = none
magnitude (c ∷ s) = value 0 (c ∷ s)

abbrev signed : Bool → ℕ → Option ℤ
signed false n = if ltb n int_limit then some (pos n) else none
signed true zero = some (pos zero)
signed true (suc n) = if ltb n int_limit then some (negsuc n) else none

abbrev with_sign : Bool → Option ℕ → Option ℤ
with_sign negative none = none
with_sign negative (some n) = signed negative n

-- A sign, `+` or `-`, is optional; `none` stands for the error, out of range included.
unfoldable pub atoi : Text → Option ℤ
unfolding magnitude
atoi [] = none
atoi (c ∷ s) =
    if c == b'-'
    then with_sign true (magnitude s)
    else if c == b'+'
    then with_sign false (magnitude s)
    else with_sign false (magnitude (c ∷ s))

value-digits_onto : (fuel n : ℕ) (t : Text) → n < fuel → value 0 (digits_onto fuel n t) ≡ value n t
unfolding digits_onto value
value-digits_onto zero n t h = absurd (omega arith)
value-digits_onto (suc fuel) n t h =
    ground (arith, value-digits_onto fuel (n / 10) ((48 + n % 10) ∷ t))

-- A byte that is neither a digit nor the end of one.
abbrev pub IsDigits : Text → Type 0
IsDigits = All (λ c. (48 ≤ c) × (c ≤ 57))

digits_onto-IsDigits : (fuel n : ℕ) (t : Text) → IsDigits t → IsDigits (digits_onto fuel n t)
unfolding digits_onto
digits_onto-IsDigits zero n t h = h
digits_onto-IsDigits (suc fuel) n t h =
    ground (arith, digits_onto-IsDigits fuel (n / 10) ((48 + n % 10) ∷ t))

pub digits-IsDigits : (n : ℕ) → IsDigits (digits n)
unfolding digits
digits-IsDigits n = digits_onto-IsDigits (suc n) n [] tt

digits_onto-cons :
    (fuel n c : ℕ) (t : Text) → (d : ℕ) × (s : Text) × (digits_onto fuel n (c ∷ t) ≡ d ∷ s)
unfolding digits_onto
digits_onto-cons zero n c t = (c, t, refl)
digits_onto-cons (suc fuel) n c t = elim (Bool-cases (n / 10 == 0)) [
  | inl small ↦ (48 + n % 10, c ∷ t, rw small)
  | inr large ↦
      let (d, s, e) = digits_onto-cons fuel (n / 10) (48 + n % 10) (c ∷ t) in (d, s, rw large e)
]

-- At least one digit is printed.
pub digits-cons : (n : ℕ) → (d : ℕ) × (s : Text) × (digits n ≡ d ∷ s)
unfolding digits digits_onto
digits-cons n = elim (Bool-cases (n / 10 == 0)) [
  | inl small ↦ (48 + n % 10, [], rw small)
  | inr large ↦ let (d, s, e) = digits_onto-cons n (n / 10) (48 + n % 10) [] in (d, s, rw large e)
]

value-digits : (n : ℕ) → value 0 (digits n) ≡ some n
unfolding digits value
value-digits n = value-digits_onto (suc n) n [] (omega arith)

pub magnitude-digits : (n : ℕ) → magnitude (digits n) ≡ some n
unfolding magnitude
magnitude-digits n = let (d, s, e) = digits-cons n in rw e (rw e at (value-digits n))

first-digit : (n d : ℕ) (s : Text) → digits n ≡ d ∷ s → (48 ≤ d) × (d ≤ 57)
first-digit n d s e = (rw e at (digits-IsDigits n)).0

-- A number that is no sign keeps its value through printing and reading.
pub atoi-digits : (n : ℕ) → n < int_limit → atoi (digits n) ≡ some (pos n)
unfolding atoi
atoi-digits n h =
    let (d, s, e) = digits-cons n in
    let range = first-digit n d s e in
    let m = magnitude-digits n in rw e (ground (arith, rw e at m, range))

pub itoa_pos : (n : ℕ) → itoa (pos n) ≡ digits n
unfolding itoa
itoa_pos n = refl

-- Go's `int`.
abbrev pub InRange : ℤ → Type 0
InRange (pos n) = n < int_limit
InRange (negsuc n) = n < int_limit

signed-InRange : (negative : Bool) (m : ℕ) (n : ℤ) → signed negative m ≡ some n → InRange n
signed-InRange negative m (pos n) e = signed-InRange_pos negative m n e
  where
    signed-InRange_pos : (b : Bool) (m n : ℕ) → signed b m ≡ some (pos n) → n < int_limit
    signed-InRange_pos false m n e = ground arith
    signed-InRange_pos true zero n e = ground arith
    signed-InRange_pos true (suc m) n e = ground arith
signed-InRange negative m (negsuc n) e = signed-InRange_negsuc negative m n e
  where
    signed-InRange_negsuc : (b : Bool) (m n : ℕ) → signed b m ≡ some (negsuc n) → n < int_limit
    signed-InRange_negsuc false m n e = ground arith
    signed-InRange_negsuc true zero n e = ground arith
    signed-InRange_negsuc true (suc m) n e = ground arith

with_sign-InRange :
    (negative : Bool) (m : Option ℕ) (n : ℤ) → with_sign negative m ≡ some n → InRange n
with_sign-InRange negative none n e = cc
with_sign-InRange negative (some m) n e = signed-InRange negative m n e

-- Whatever `Atoi` returns lies in the range of `int`.
pub atoi-InRange : (s : Text) (n : ℤ) → atoi s ≡ some n → InRange n
unfolding atoi
atoi-InRange [] n e = cc
atoi-InRange (c ∷ s) n e = ground (
  arith,
  with_sign-InRange true (magnitude s) n,
  with_sign-InRange false (magnitude s) n,
  with_sign-InRange false (magnitude (c ∷ s)) n,
)

itoa_negsuc : (n : ℕ) → itoa (negsuc n) ≡ b'-' ∷ digits (suc n)
unfolding itoa
itoa_negsuc n = refl

-- Printing an `int` and reading it gives it back.
pub atoi-itoa : (n : ℤ) → InRange n → atoi (itoa n) ≡ some n
atoi-itoa (pos n) h = rw itoa_pos (atoi-digits n h)
atoi-itoa (negsuc n) h =
    rw itoa_negsuc (unfold atoi in rw (magnitude-digits (suc n)) (rw (lt→ltb n int_limit h)))
