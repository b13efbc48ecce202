-- ===== src/Cli/Preflight/Parity.antt =====
-- What the check of the methods says: manifest and code have the same ones.
use jb_mesh.Base.{
  List, ◌||◌, Bool-cases, length, true, [], false, inl, ap, ◌↔◌, refl, arith, Bool, map, All-weaken,
  ◌≡◌, ◌∷◌, All, sym, ◌∙◌, ℕ, inr,
}
use jb_mesh.Base.Text.{same, place, Text, sort_strings, text_ltb}
use jb_mesh.Manifest.{Manifest}
use jb_mesh.Cli.Preflight.{
  pass, PreflightCheck, PythonProbe, is_member, diff_strings, sorted_keys, parity, parity_verdict,
  or_agree, compare_method_sets,
}

diff_strings-All : (a b : List Text) → diff_strings a b ≡ [] → All (λ s. is_member s b ≡ true) a
unfolding diff_strings
diff_strings-All [] b h = tt
diff_strings-All (s ∷ a) b h = ground (arith, Bool-cases (is_member s b), diff_strings-All a b)

abbrev pub IsPassed : PreflightCheck → Type 0
IsPassed c = c.status ≡ pass

parity_verdict-nil :
    (count : ℕ) (in_code in_manifest : List Text)
    → All IsPassed (parity_verdict count in_code in_manifest)
    → (in_code ≡ []) × (in_manifest ≡ [])
unfolding parity_verdict or_agree
parity_verdict-nil count [] [] h = (refl, refl)
parity_verdict-nil count [] (s ∷ in_manifest) h = let p = h.0 in cc
parity_verdict-nil count (s ∷ in_code) in_manifest h = let p = h.0 in cc

diff_strings-nil : (a b : List Text) → All (λ s. is_member s b ≡ true) a → diff_strings a b ≡ []
unfolding diff_strings
diff_strings-nil [] b h = refl
diff_strings-nil (s ∷ a) b h = rw (h.0) (diff_strings-nil a b h.1)

-- Each of two lists has the members of the other.
abbrev pub HaveSameMembers : List Text → List Text → Type 0
HaveSameMembers a b = All (λ s. is_member s b ≡ true) a × All (λ s. is_member s a ≡ true) b

parity_iff : (a b : List Text) → All IsPassed (parity a b) ↔ HaveSameMembers a b
unfolding parity
parity_iff a b = (
  λ h.
      let (p, q) = parity_verdict-nil (length a) (diff_strings a b) (diff_strings b a) h in
      (diff_strings-All a b p, diff_strings-All b a q),
  λ h. rw (diff_strings-nil a b h.0, diff_strings-nil b a h.1, parity_verdict, or_agree) (refl, tt),
)

or_swap : (a b c : Bool) → (a || (b || c)) ≡ (b || (a || c))
or_swap true true c = refl
or_swap true false c = refl
or_swap false true c = refl
or_swap false false c = refl

is_member-place : (s t : Text) (ts : List Text) → is_member s (place t ts) ≡ is_member s (t ∷ ts)
unfolding place
is_member-place s t [] = refl
is_member-place s t (u ∷ ts) = elim (Bool-cases (text_ltb u t)) [
  | inl e ↦ rw (e, is_member-place s t ts) (or_swap (same s u) (same s t) (is_member s ts))
  | inr e ↦ rw e refl
]

is_member-sort_strings :
    (s : Text) (ss : List Text) → is_member s (sort_strings ss) ≡ is_member s ss
unfolding sort_strings
is_member-sort_strings s [] = refl
is_member-sort_strings s (t ∷ ss) =
    is_member-place s t (sort_strings ss) ∙ ap (λ b. same s t || b) (is_member-sort_strings s ss)

All-place : (P : Text → Type 0) (t : Text) (ts : List Text) → All P (place t ts) ↔ All P (t ∷ ts)
unfolding place
All-place P t [] = (λ h. h, λ h. h)
All-place P t (u ∷ ts) = elim (Bool-cases (text_ltb u t)) [
  | inl e ↦ rw e (
    λ h. let (p, ps) = (All-place P t ts).0 h.1 in (p, (h.0, ps)),
    λ h. (h.1.0, (All-place P t ts).1 (h.0, h.1.1)),
  )
  | inr e ↦ rw e (λ h. h, λ h. h)
]

All-sort_strings : (P : Text → Type 0) (ss : List Text) → All P (sort_strings ss) ↔ All P ss
unfolding sort_strings
All-sort_strings P [] = (λ h. h, λ h. h)
All-sort_strings P (t ∷ ss) = (
  λ h. let (p, ps) = (All-place P t (sort_strings ss)).0 h in (p, (All-sort_strings P ss).0 ps),
  λ h. (All-place P t (sort_strings ss)).1 (h.0, (All-sort_strings P ss).1 h.1),
)

members-sort :
    (a b : List Text)
    → All (λ s. is_member s (sort_strings b) ≡ true) (sort_strings a)
      ↔ All (λ s. is_member s b ≡ true) a
members-sort a b = (
  λ h.
      All-weaken (λ s. is_member s (sort_strings b) ≡ true) (λ s. is_member s b ≡ true)
        (λ s k. sym (is_member-sort_strings s b) ∙ k) a ((All-sort_strings _ a).0 h),
  λ h. (All-sort_strings _ a).1 (
      All-weaken (λ s. is_member s b ≡ true) (λ s. is_member s (sort_strings b) ≡ true)
        (λ s k. is_member-sort_strings s b ∙ k) a h),
)

abbrev pub method_names : List (Text × Bool) → List Text
method_names methods = map (λ m. m.0) methods

-- The checks of the methods all pass exactly if every method of the manifest is one of the code, and
-- every one of the code one of the manifest.
pub compare_method_sets_iff :
    (manifest : Manifest) (probe : PythonProbe)
    → All IsPassed (compare_method_sets manifest probe)
      ↔ HaveSameMembers (method_names manifest.rpc_methods) probe.methods
unfolding compare_method_sets sorted_keys
compare_method_sets_iff manifest probe =
    let names = method_names manifest.rpc_methods in
    let (to, from) = parity_iff (sort_strings names) (sort_strings probe.methods) in
    (
      λ h.
          let (p, q) = to h in
          ((members-sort names probe.methods).0 p, (members-sort probe.methods names).0 q),
      λ h.
          from ((members-sort names probe.methods).1 h.0, (members-sort probe.methods names).1 h.1),
    )
