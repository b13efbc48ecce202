-- ===== src/Node/Authorization/Subjects.antt =====
-- pkg/node/node.go: `validateSubjectSubtree`, which subjects may be granted.
use jb_mesh.Base.{
  [], ◌==◌, Bool, ◌∷◌, ◌⊎◌, ◌≡◌, if◌then◌else◌, true, not, any, ◌||◌, false, ◌≢◌, List, ◌↔◌, arith,
  refl,
}
use jb_mesh.Base.Text.{same_iff, lit, is_empty, same, Text, split, has_byte}
use jb_mesh.Base.Result.{guard, ok, err, ◌>>◌, Result}

pub data SubjectError : Type 0 where
  blank_subject all_subjects has_whitespace empty_token single_wildcard : SubjectError
  wildcard_not_last partial_wildcard : SubjectError

-- `strings.ContainsAny(subj, " \t\r\n")`
abbrev pub has_blank : Text → Bool
has_blank s = any (λ c. c == 32 || c == 9 || c == 13 || c == 10) s

-- The switch on one token; `last` says whether it is the last one.
abbrev pub check_part : Text → Bool → Result SubjectError (Unit {0})
check_part part last =
    if is_empty part
    then err empty_token
    else if same part (lit "*")
    then err single_wildcard
    else if same part (lit ">")
    then (if last then ok tt else err wildcard_not_last)
    else if has_byte 62 part || has_byte 42 part
    then err partial_wildcard
    else ok tt

abbrev pub is_nil {ℓ} : {A : Type ℓ} → List A → Bool
is_nil [] = true
is_nil (x ∷ xs) = false

abbrev pub check_parts : List Text → Result SubjectError (Unit {0})
check_parts [] = ok tt
check_parts (part ∷ parts) = check_part part (is_nil parts) >> check_parts parts

-- `validateSubjectSubtree`
unfoldable pub validate_subject_subtree : Text → Result SubjectError (Unit {0})
validate_subject_subtree subj =
    guard (not (is_empty subj)) blank_subject
    >> guard (not (same subj (lit ">"))) all_subjects
    >> guard (not (has_blank subj)) has_whitespace
    >> check_parts (split 46 subj)

-- A token that names itself: not empty, and without a wildcard.
abbrev pub IsLiteral : Text → Type 0
IsLiteral t = (is_empty t ≡ false) × (has_byte 62 t ≡ false) × (has_byte 42 t ≡ false)

-- Literal tokens, of which the last may be the full wildcard instead.
abbrev pub IsGrant : List Text → Type 0
IsGrant [] = Unit
IsGrant (t ∷ []) = IsLiteral t ⊎ (t ≡ lit ">")
IsGrant (t ∷ u ∷ ts) = IsLiteral t × IsGrant (u ∷ ts)

-- A subject that may be granted.
abbrev pub IsSubtree : Text → Type 0
IsSubtree s = (s ≢ []) × (s ≢ lit ">") × (has_blank s ≡ false) × IsGrant (split 46 s)

check_part_iff :
    (t : Text) (last : Bool)
    → (check_part t last ≡ ok tt) ↔ (IsLiteral t ⊎ ((t ≡ lit ">") × (last ≡ true)))
check_part_iff t last = ground (arith, same_iff t (lit "*"), same_iff t (lit ">"))

check_parts_iff : (ts : List Text) → (check_parts ts ≡ ok tt) ↔ IsGrant ts
check_parts_iff [] = (λ h. tt, λ h. refl)
check_parts_iff (t ∷ []) = ground (arith, check_part_iff t true)
check_parts_iff (t ∷ u ∷ ts) = ground (arith, check_part_iff t false, check_parts_iff (u ∷ ts))

-- A subject passes validation exactly when it is not blank, is not the all-subject wildcard, has
-- no blanks, and its tokens are literal, but for a last one that may be the full wildcard.
pub validate_subject_subtree_iff : (s : Text) → (validate_subject_subtree s ≡ ok tt) ↔ IsSubtree s
unfolding validate_subject_subtree
validate_subject_subtree_iff s = ground (arith, same_iff s (lit ">"), check_parts_iff (split 46 s))
