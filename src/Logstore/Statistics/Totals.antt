-- ===== src/Logstore/Statistics/Totals.antt =====
-- The groups of `Stats` add up.
use jb_mesh.Base.Text.{join, same, Text}
use jb_mesh.Base.{
  subst, sym, if◌then◌else◌, ◌+◌, Bool-cases, arith, ◌≡◌, All, length, inl, inr, ◌≤◌, ◌<◌, ℕ, suc,
  Bool, true, false, List, ◌∷◌, [],
}
use jb_mesh.Base.Dict.{Dict}
use jb_mesh.Base.Result.{ok}
use jb_mesh.Logstore.Normalize.{Record}
use jb_mesh.Logstore.Query.{Archive, QueryConfig, Limits, query_records}
use jb_mesh.Logstore.Statistics.{
  StatsGroup, StatsRequest, stats, stats_query, stats_response, count_records, count_record,
  count_in, values, group_names, no_group, is_error, group_fields,
}

abbrev pub total_records : List StatsGroup → ℕ
total_records [] = 0
total_records (g ∷ groups) = g.records + total_records groups

abbrev pub total_errors : List StatsGroup → ℕ
total_errors [] = 0
total_errors (g ∷ groups) = g.errors + total_errors groups

-- How many of the records are errors
abbrev pub count_errors : List Record → ℕ
count_errors [] = 0
count_errors (rec ∷ recs) = (if is_error rec then 1 else 0) + count_errors recs

-- A group is not empty, and has at most as many errors as records.
abbrev pub IsGroup : StatsGroup → Type 0
IsGroup g = (0 < g.records) × (g.errors ≤ g.records)

abbrev AddsUp : Bool → Dict StatsGroup → Dict StatsGroup → Type 0
AddsUp failed groups more =
    (total_records (values more) ≡ suc (total_records (values groups)))
    × (total_errors (values more) ≡ (if failed then 1 else 0) + total_errors (values groups))
    × (All IsGroup (values groups) → All IsGroup (values more))

count_in-AddsUp :
    (key : Text) (g : StatsGroup) (failed : Bool) (groups : Dict StatsGroup)
    → AddsUp failed groups (count_in key g failed groups)
unfolding count_in
count_in-AddsUp key g true [] = ground arith
count_in-AddsUp key g false [] = ground arith
count_in-AddsUp key g true ((k, h) ∷ groups) =
    let (a, b, c) = count_in-AddsUp key g true groups in
    elim (Bool-cases (same k key)) [
      | inl e ↦ rw e (ground arith, ground arith, λ (i, j). (ground arith, j))
      | inr e ↦ rw e (ground arith, ground arith, λ (i, j). (i, c j))
    ]
count_in-AddsUp key g false ((k, h) ∷ groups) =
    let (a, b, c) = count_in-AddsUp key g false groups in
    elim (Bool-cases (same k key)) [
      | inl e ↦ rw e (ground arith, ground arith, λ (i, j). (ground arith, j))
      | inr e ↦ rw e (ground arith, ground arith, λ (i, j). (i, c j))
    ]

count_record-AddsUp :
    (names : List Text) (rec : Record) (groups : Dict StatsGroup)
    → AddsUp (is_error rec) groups (count_record names rec groups)
unfolding count_record
count_record-AddsUp names rec groups =
    let p = group_fields names rec ([], no_group) in
    count_in-AddsUp (join 124 p.0) p.1 (is_error rec) groups

count_records-total :
    (names : List Text) (recs : List Record) (groups : Dict StatsGroup)
    → All IsGroup (values groups)
    → (let more = values (count_records names recs groups) in
        (total_records more ≡ length recs + total_records (values groups))
        × (total_errors more ≡ count_errors recs + total_errors (values groups))
        × All IsGroup more)
unfolding count_records
count_records-total names [] groups h = (omega arith, omega arith, h)
count_records-total names (rec ∷ recs) groups h =
    let (a, b, c) = count_record-AddsUp names rec groups in
    let (d, e, f) = count_records-total names recs (count_record names rec groups) (c h) in
    (omega arith, ground arith, f)

-- What the groups say of the records
abbrev pub IsTotal : List Record → List StatsGroup → Type 0
IsTotal recs groups =
    (total_records groups ≡ length recs)
    × (total_errors groups ≡ count_errors recs)
    × All IsGroup groups

stats_response-IsTotal :
    (req : StatsRequest) (recs : List Record) (truncated : Bool) (limits : Limits)
    → IsTotal recs (stats_response req (ok (recs, truncated), limits)).groups
unfolding stats_response
stats_response-IsTotal req recs truncated limits =
    let (a, b, c) = count_records-total (group_names req.group_by) recs [] tt in
    (omega arith, omega arith, c)

-- Statistics that succeed are those of the records of their query: their groups are not empty, and
-- add up to as many records, and as many errors, as the query answers.
pub stats-IsTotal :
    (archive : Archive) (sort : List Record → List Record) (cfg : QueryConfig) (req : StatsRequest)
    (recs : List Record) (truncated : Bool)
    → (query_records archive sort cfg (stats_query cfg req)).0 ≡ ok (recs, truncated)
    → IsTotal recs (stats archive sort cfg req).groups
unfolding stats
stats-IsTotal archive sort cfg req recs truncated h =
    subst
      (λ r.
        IsTotal recs
          (stats_response req (r, (query_records archive sort cfg (stats_query cfg req)).1)).groups)
      (sym h)
      (stats_response-IsTotal req recs truncated
        (query_records archive sort cfg (stats_query cfg req)).1)
