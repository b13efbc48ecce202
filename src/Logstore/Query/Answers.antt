-- ===== src/Logstore/Query/Answers.antt =====
-- What a query answers: records that match, as many as the limit allows, the last ones of their
-- order left out.
use jb_mesh.Base.{
  Option, ◌++◌, ◌≢◌, ◌≡◌, if◌then◌else◌, length, All, ◌≤◌, ℕ, Bool, true, false, none, some, List,
  ◌∷◌, [],
}
use mathlib.Core.List.{Perm}
use jb_mesh.Base.Text.{text_ltb, Text}
use jb_mesh.Base.Int.{ℤ}
use jb_mesh.Logstore.Normalize.{Record}
use jb_mesh.Logstore.Query.{Archive, QueryRequest, record_matches}

-- No record is followed by one whose timestamp is a greater text.
abbrev pub IsSorted : List Record → Type 0
IsSorted [] = Unit
IsSorted (r ∷ rs) = All (λ s. text_ltb r.ts s.ts ≡ false) rs × IsSorted rs

-- What `sort.Slice` promises: the same records, in order.
pub record Sorting : Type 1 where
  pub sort : List Record → List Record
  pub sort-perm : (rs : List Record) → Perm (sort rs) rs
  pub sort-IsSorted : (rs : List Record) → IsSorted (sort rs)

-- No record of the first list is older than one of the second.
abbrev pub AreNewer : List Record → List Record → Type 0
AreNewer recs left = All (λ r. All (λ s. text_ltb r.ts s.ts ≡ false) left) recs

-- The records of a list that pass a test
abbrev pub keep : (Record → Bool) → List Record → List Record
keep test [] = []
keep test (r ∷ rs) = let rest = keep test rs in if test r then r ∷ rest else rest

module _ (archive : Archive) where
  abbrev pub one : Option Record → List Record
  one none = []
  one (some rec) = rec ∷ []

  -- The records of the lines that can be decoded, of the files in their order
  abbrev pub decoded_lines : List Text → List Record
  decoded_lines [] = []
  decoded_lines (line ∷ lines) = one (archive.decode line) ++ decoded_lines lines

  abbrev pub stored_records : List Text → List Record
  stored_records [] = []
  stored_records (path ∷ paths) = decoded_lines (archive.lines path) ++ stored_records paths

  -- The records that are given and those that are left out, which together are those of the files
  -- that match.
  abbrev pub IsNewest :
      QueryRequest → ℤ → ℤ → List Text → ℕ → List Record → Bool → List Record → Type 0
  IsNewest req start end paths limit recs truncated left =
      Perm (recs ++ left) (keep (record_matches archive req start end) (stored_records paths))
      × IsSorted (recs ++ left)
      × AreNewer recs left
      × (length recs ≤ limit)
      × (truncated ≡ false → left ≡ [])
      × (truncated ≡ true → (length recs ≡ limit) × (left ≢ []))
