-- ===== src/Version/Order.antt =====
-- The order of versions that `Version.Compare` computes.
use jb_mesh.Base.Int.{int_eqb_iff, ℤ, pos, negsuc, int_ltb}
use jb_mesh.Base.{sym, ◌∙◌, ap, false, inr, inl, ◌<◌, ◌≡◌, refl, ◌↔◌, ◌⊎◌, true, arith}
use jb_mesh.Version.{less_than, is_less, compare, compare_int, Version, Sign, less, equal, greater}

abbrev flip : Sign → Sign
flip less = greater
flip equal = equal
flip greater = less

-- `a < b` on integers, as a statement.
abbrev pub IntLt : ℤ → ℤ → Type 0
IntLt (pos a) (pos b) = a < b
IntLt (pos a) (negsuc b) = ⊥
IntLt (negsuc a) (pos b) = Unit
IntLt (negsuc a) (negsuc b) = b < a

-- The lexicographic order on (major, minor, patch).
abbrev pub Before : Version → Version → Type 0
Before v w =
    IntLt v.major w.major
    ⊎ ((v.major ≡ w.major)
        × (IntLt v.minor w.minor ⊎ ((v.minor ≡ w.minor) × IntLt v.patch w.patch)))

int_ltb_iff : (a b : ℤ) → (int_ltb a b ≡ true) ↔ IntLt a b
int_ltb_iff (pos a) (pos b) = ground arith
int_ltb_iff (pos a) (negsuc b) = ((λ h. cc), λ h. absurd h)
int_ltb_iff (negsuc a) (pos b) = ((λ h. tt), λ h. refl)
int_ltb_iff (negsuc a) (negsuc b) = ground arith

IntLt-irrefl : (a : ℤ) → ¬ IntLt a a
IntLt-irrefl (pos a) h = omega arith
IntLt-irrefl (negsuc a) h = omega arith

IntLt-trans : (a b c : ℤ) → IntLt a b → IntLt b c → IntLt a c
IntLt-trans (pos a) (pos b) (pos c) h k = omega arith
IntLt-trans (pos a) (pos b) (negsuc c) h k = k
IntLt-trans (pos a) (negsuc b) c h k = absurd h
IntLt-trans (negsuc a) (pos b) (pos c) h k = tt
IntLt-trans (negsuc a) (pos b) (negsuc c) h k = absurd k
IntLt-trans (negsuc a) (negsuc b) (pos c) h k = tt
IntLt-trans (negsuc a) (negsuc b) (negsuc c) h k = omega arith

compare_int-less :
    (a b : ℤ) (next : Sign)
    → (compare_int a b next ≡ less) ↔ (IntLt a b ⊎ ((a ≡ b) × (next ≡ less)))
compare_int-less a b next = ground (
  arith,
  int_eqb_iff a b,
  int_ltb_iff a b,
  IntLt-irrefl a,
  λ (e : a ≡ b) (h : IntLt a b). IntLt-irrefl b (rw e at h),
)

compare_int-equal :
    (a b : ℤ) (next : Sign) → (compare_int a b next ≡ equal) ↔ ((a ≡ b) × (next ≡ equal))
compare_int-equal a b next = ground (arith, int_eqb_iff a b)

compare_int-flip :
    (a b : ℤ) (next : Sign) → compare_int b a (flip next) ≡ flip (compare_int a b next)
compare_int-flip (pos a) (pos b) next = ground arith
compare_int-flip (pos a) (negsuc b) next = refl
compare_int-flip (negsuc a) (pos b) next = refl
compare_int-flip (negsuc a) (negsuc b) next = ground arith

Before-irrefl : (v : Version) → ¬ Before v v
Before-irrefl v (inl h) = IntLt-irrefl v.major h
Before-irrefl v (inr (_, inl h)) = IntLt-irrefl v.minor h
Before-irrefl v (inr (_, inr (_, h))) = IntLt-irrefl v.patch h

compare-less : (v w : Version) → (compare v w ≡ less) ↔ Before v w
unfolding compare
compare-less v w =
    let rest = compare_int v.minor w.minor (compare_int v.patch w.patch equal) in
    ground (
      arith,
      compare_int-less v.major w.major
          (compare_int v.minor w.minor (compare_int v.patch w.patch equal)),
      compare_int-less v.minor w.minor (compare_int v.patch w.patch equal),
      compare_int-less v.patch w.patch equal,
    )

Version-eq : (v w : Version) → v.major ≡ w.major → v.minor ≡ w.minor → v.patch ≡ w.patch → v ≡ w
Version-eq v w p q r = λ i. record { major = p i; minor = q i; patch = r i }

compare-equal : (v w : Version) → (compare v w ≡ equal) ↔ (v ≡ w)
unfolding compare
compare-equal v w = (
  λ h.
      let minor_patch : Sign = compare_int v.minor w.minor (compare_int v.patch w.patch equal) in
      let (p, h') = (compare_int-equal v.major w.major minor_patch).0 h in
      let (q, h'') = (compare_int-equal v.minor w.minor (compare_int v.patch w.patch equal)).0 h' in
      let (r, _) = (compare_int-equal v.patch w.patch equal).0 h'' in Version-eq v w p q r,
  λ e. rw e (
      (compare_int-equal w.major w.major _).1 (
        refl,
        (compare_int-equal w.minor w.minor _).1
            (refl, (compare_int-equal w.patch w.patch equal).1 (refl, refl)),
      )),
)

compare-flip : (v w : Version) → compare w v ≡ flip (compare v w)
unfolding compare
compare-flip v w =
    let low = compare_int-flip v.patch w.patch equal in
    let mid = compare_int-flip v.minor w.minor (compare_int v.patch w.patch equal) in
    let high =
      compare_int-flip v.major w.major
        (compare_int v.minor w.minor (compare_int v.patch w.patch equal)) in
    cc (low, mid, high)

flip-greater : (s : Sign) → (s ≡ greater) ↔ (flip s ≡ less)
flip-greater less = ground arith
flip-greater equal = ground arith
flip-greater greater = ground arith

compare-greater : (v w : Version) → (compare v w ≡ greater) ↔ Before w v
compare-greater v w =
    let (there, back) = flip-greater (compare v w) in
    let (to, from) = compare-less w v in
    let flipped = compare-flip v w in
    (λ h. to (flipped ∙ there h), λ b. back (sym flipped ∙ from b))

-- `Compare` gives less, equal or greater exactly when the first version comes before the second
-- in the lexicographic order on (major, minor, patch), is the same version, or comes after it.
pub compare_lem :
    (v w : Version)
    → ((compare v w ≡ less) ↔ Before v w)
      × ((compare v w ≡ equal) ↔ (v ≡ w))
      × ((compare v w ≡ greater) ↔ Before w v)
compare_lem v w = (compare-less v w, compare-equal v w, compare-greater v w)

Before-trans : (u v w : Version) → Before u v → Before v w → Before u w
Before-trans u v w (inl h) (inl k) = inl (IntLt-trans u.major v.major w.major h k)
Before-trans u v w (inl h) (inr (e, _)) = inl (rw e at h)
Before-trans u v w (inr (e, _)) (inl k) = inl (rw e k)
Before-trans u v w (inr (e, inl h)) (inr (e', inl k)) =
    inr (e ∙ e', inl (IntLt-trans u.minor v.minor w.minor h k))
Before-trans u v w (inr (e, inl h)) (inr (e', inr (f, _))) = inr (e ∙ e', inl (rw f at h))
Before-trans u v w (inr (e, inr (f, _))) (inr (e', inl k)) = inr (e ∙ e', inl (rw f k))
Before-trans u v w (inr (e, inr (f, h))) (inr (e', inr (f', k))) =
    inr (e ∙ e', inr (f ∙ f', IntLt-trans u.patch v.patch w.patch h k))

is_less_iff : (s : Sign) → (is_less s ≡ true) ↔ (s ≡ less)
is_less_iff less = ground arith
is_less_iff equal = ground arith
is_less_iff greater = ground arith

-- `LessThan` is a strict order: no version is less than itself, and it is transitive.
pub less_than_order :
    (u v w : Version)
    → (less_than u u ≡ false) × (less_than u v ≡ true → less_than v w ≡ true → less_than u w ≡ true)
unfolding less_than
less_than_order u v w = (
  ap is_less ((compare-equal u u).1 refl),
  λ h k.
      let uv = (compare-less u v).0 ((is_less_iff (compare u v)).0 h) in
      let vw = (compare-less v w).0 ((is_less_iff (compare v w)).0 k) in
      (is_less_iff (compare u w)).1 ((compare-less u w).1 (Before-trans u v w uv vw)),
)
