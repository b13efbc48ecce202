-- ===== src/Tests/Sorting.antt =====
-- A sort of records, which is one that a query can be given.
use jb_mesh.Base.{
  All-weaken, if◌then◌else◌, ◌≡◌, Bool-cases, inr, inl, All, true, false, List, [], ◌∷◌,
}
use mathlib.Core.List.{Perm}
use mathlib.Core.List.Perm
use jb_mesh.Base.Text.{text_ltb, Text}
use jb_mesh.Node.SplitBrain.{text_ltb_trans, text_ltb_irrefl}
use jb_mesh.Logstore.Normalize.{Record}
use jb_mesh.Logstore.Query.Answers.{IsSorted, Sorting}

place_record : Record → List Record → List Record
place_record r [] = r ∷ []
place_record r (s ∷ rs) =
    let rest = place_record r rs in if text_ltb s.ts r.ts then r ∷ s ∷ rs else s ∷ rest

unfoldable pub sort_records : List Record → List Record
unfolding place_record
sort_records [] = []
sort_records (r ∷ rs) = place_record r (sort_records rs)

place_record-perm : (r : Record) (rs : List Record) → Perm (place_record r rs) (r ∷ rs)
unfolding place_record
place_record-perm r [] = Perm.refl (r ∷ [])
place_record-perm r (s ∷ rs) = elim (Bool-cases (text_ltb s.ts r.ts)) [
  | inl e ↦ rw e (Perm.refl (r ∷ s ∷ rs))
  | inr e ↦ rw e (Perm.trans (Perm.cons s (place_record-perm r rs)) (Perm.swap r s rs))
]

pub sort_records-perm : (rs : List Record) → Perm (sort_records rs) rs
unfolding sort_records
sort_records-perm [] = Perm.refl []
sort_records-perm (r ∷ rs) =
    Perm.trans (place_record-perm r (sort_records rs)) (Perm.cons r (sort_records-perm rs))

All-place_record :
    (P : Record → Type 0) (r : Record) (rs : List Record)
    → P r
    → All P rs
    → All P (place_record r rs)
unfolding place_record
All-place_record P r [] p h = (p, tt)
All-place_record P r (s ∷ rs) p h = elim (Bool-cases (text_ltb s.ts r.ts)) [
  | inl e ↦ rw e (p, h)
  | inr e ↦ rw e (h.0, All-place_record P r rs p h.1)
]

not_below : (a b c : Text) → text_ltb a b ≡ true → text_ltb a c ≡ false → text_ltb b c ≡ false
not_below a b c h k = elim (Bool-cases (text_ltb b c)) [
  | inl e ↦ let q = text_ltb_trans a b c h e in cc
  | inr e ↦ e
]

place_record-IsSorted : (r : Record) (rs : List Record) → IsSorted rs → IsSorted (place_record r rs)
unfolding place_record
place_record-IsSorted r [] h = (tt, tt)
place_record-IsSorted r (s ∷ rs) h = elim (Bool-cases (text_ltb s.ts r.ts)) [
  | inl e ↦ rw e (
    (
      elim (Bool-cases (text_ltb r.ts s.ts)) [
        | inl f ↦ let q = text_ltb_trans r.ts s.ts r.ts f e in let no = text_ltb_irrefl r.ts in cc
        | inr f ↦ f
      ],
      All-weaken (λ t. text_ltb s.ts t.ts ≡ false) (λ t. text_ltb r.ts t.ts ≡ false)
          (λ t k. not_below s.ts r.ts t.ts e k) rs h.0,
    ),
    h,
  )
  | inr e ↦ rw e (
    All-place_record (λ t. text_ltb s.ts t.ts ≡ false) r rs e h.0,
    place_record-IsSorted r rs h.1,
  )
]

pub sort_records-IsSorted : (rs : List Record) → IsSorted (sort_records rs)
unfolding sort_records
sort_records-IsSorted [] = tt
sort_records-IsSorted (r ∷ rs) =
    place_record-IsSorted r (sort_records rs) (sort_records-IsSorted rs)

abbrev pub sorting : Sorting
sorting = record {
  sort = sort_records;
  sort-perm = sort_records-perm;
  sort-IsSorted = sort_records-IsSorted;
}
