-- ===== src/Logstore/Query.antt =====
-- pkg/logstore/logstore.go: queries over the stored records, and their statistics. A time is its
-- number of nanoseconds. The clock, the formats of times and durations, the directories and files and
-- the JSON codec answer through `Archive`; a file that cannot be opened has no lines.
pub mod Answers
use jb_mesh.Base.Result.{◌>>=◌, Result, ok, err}
use jb_mesh.Base.Int.{ℤ, pos, negsuc, int_sub, int_add, int_ltb, int_eqb}
use jb_mesh.Base.Text.{has_prefix, same, sort_strings, has_suffix, trim_space, is_empty, Text, lit}
use jb_mesh.Base.{
  drop, ltb, if◌then◌else◌, length, ◌*◌, take, ℕ, zero, suc, Bool, true, false, not, ◌&&◌, ◌||◌,
  Option, none, some, ◌++◌, List, ◌∷◌, [],
}
use jb_mesh.Logstore.Normalize.{Record, positive_or}
use jb_mesh.Logstore.Subject.{Origin}

pub record QueryRequest : Type 0 where
  pub since : Text
  pub until : Text
  pub node : Text
  pub tool : Text
  pub method : Text
  pub kind : Text
  pub level : Text
  pub corr : Text
  pub limit : ℤ

pub record Limits : Type 0 where
  pub limit : ℕ
  pub max_query_limit : ℕ
  pub max_query_window : ℤ

-- The limits of a store's configuration
pub record QueryConfig : Type 0 where
  pub max_query_limit : ℤ
  pub max_query_window : ℤ

pub data QueryError : Type 0 where
  empty_time bad_window no_directory : QueryError
  unsupported_time : Text → QueryError

pub record Archive : Type 0 where
  pub now : ℤ
  pub zero_time : ℤ
  pub parse_duration : Text → Option ℤ
  pub parse_time : Text → Text → Option ℤ
  pub root : Text
  pub join : Text → Text → Text
  pub read_root : Result Bool (List (Text × Bool))
  pub read_dir : Text → Option (List (Text × Bool))
  pub lines : Text → List Text
  pub decode : Text → Option Record

abbrev pub nanoseconds_per_hour : ℕ
nanoseconds_per_hour = 3600 * (1000 * (1000 * 1000))

abbrev pub day : ℤ
day = pos (24 * nanoseconds_per_hour)

abbrev pub rfc3339_nano : Text
rfc3339_nano = lit "2006-01-02T15:04:05.999999999Z07:00"

abbrev pub rfc3339 : Text
rfc3339 = lit "2006-01-02T15:04:05Z07:00"

abbrev pub date_only : Text
date_only = lit "2006-01-02"

-- `effectiveQueryLimit`
unfoldable pub effective_query_limit : QueryConfig → ℕ
effective_query_limit cfg = positive_or 1000 cfg.max_query_limit

-- The limit of a request
unfoldable pub request_limit : ℕ → ℤ → ℕ
request_limit max (negsuc n) = max
request_limit max (pos zero) = max
request_limit max (pos (suc n)) = if ltb max (suc n) then max else suc n

-- A filter that is not set, or that the record has
unfoldable pub is_asked : Text → Text → Bool
is_asked wanted value = is_empty (trim_space wanted) || same (trim_space wanted) value

module _ (archive : Archive) where
  first_layout : Text → List Text → Result QueryError ℤ
  first_layout raw [] = err (unsupported_time raw)
  first_layout raw (layout ∷ layouts) =
      let rest = first_layout raw layouts in
      elim (archive.parse_time layout raw) [ none ↦ rest | some t ↦ ok t ]

  -- The time that a duration is counted back from
  abbrev pub anchored : ℤ → ℤ
  anchored anchor = if int_eqb anchor archive.zero_time then archive.now else anchor

  -- `parseTimeOrDuration`
  unfoldable pub parse_time_or_duration : Text → ℤ → Result QueryError ℤ
  unfolding first_layout
  parse_time_or_duration text anchor =
      let raw = trim_space text in
      if is_empty raw then err empty_time else elim (archive.parse_duration raw) [
        | none ↦ first_layout raw (rfc3339_nano ∷ rfc3339 ∷ date_only ∷ [])
        | some d ↦ ok (int_sub (anchored anchor) d)
      ]

  -- A bound that is given, or else its default
  abbrev pub bound : Text → ℤ → ℤ → Result QueryError ℤ
  bound text anchor default =
      if is_empty (trim_space text) then ok default else parse_time_or_duration text anchor

  -- The window, cut to its greatest length
  abbrev pub cut_window : ℤ → ℤ → ℤ → Result QueryError (ℤ × ℤ)
  cut_window max start end =
      if not (int_ltb start end)
      then err bad_window
      else if int_ltb (pos 0) max && int_ltb max (int_sub end start)
      then ok (int_sub end max, end)
      else ok (start, end)

  -- `resolveTimeRange`
  unfoldable pub resolve_time_range : QueryConfig → Text → Text → Result QueryError (ℤ × ℤ)
  unfolding parse_time_or_duration
  resolve_time_range cfg since until = do
    end ← bound until archive.zero_time archive.now
    start ← bound since end (int_sub end (pos nanoseconds_per_hour))
    cut_window cfg.max_query_window start end

  -- The log files of a day's directory
  log_files : Text → List (Text × Bool) → List Text
  log_files dir [] = []
  log_files dir ((name, is_dir) ∷ children) =
      let rest = log_files dir children in
      if is_dir || not (has_prefix name (lit "node=")) || not (has_suffix name (lit ".jsonl"))
      then rest
      else archive.join dir name ∷ rest

  children : Text → Option (List (Text × Bool)) → List Text
  unfolding log_files
  children dir none = []
  children dir (some entries) = log_files dir entries

  -- A day that the window, widened by a day on each side, does not touch is passed over.
  is_near : ℤ → ℤ → Option ℤ → Bool
  is_near start end none = false
  is_near start end (some date) =
      not (int_ltb (int_add date day) (int_sub start day)) && not (int_ltb (int_add end day) date)

  day_files : ℤ → ℤ → List (Text × Bool) → List Text
  unfolding children is_near
  day_files start end [] = []
  day_files start end ((name, is_dir) ∷ entries) =
      let rest = day_files start end entries in
      let dir = archive.join archive.root name in
      if not is_dir || not (has_prefix name (lit "date="))
      then rest
      else if is_near start end (archive.parse_time date_only (drop 5 name))
      then children dir (archive.read_dir dir) ++ rest
      else rest

  -- `pathsForRange`
  unfoldable pub paths_for_range : ℤ → ℤ → Result QueryError (List Text)
  unfolding day_files
  paths_for_range start end = elim archive.read_root [
    | ok entries ↦ ok (sort_strings (day_files start end entries))
    | err true ↦ ok []
    | err false ↦ err no_directory
  ]

  abbrev pub in_window : ℤ → ℤ → Option ℤ → Bool
  in_window start end none = false
  in_window start end (some t) = not (int_ltb t start) && not (int_ltb end t)

  -- `recordMatches`
  unfoldable pub record_matches : QueryRequest → ℤ → ℤ → Record → Bool
  unfolding is_asked
  record_matches req start end rec =
      in_window start end (archive.parse_time rfc3339_nano rec.ts)
      && is_asked req.node rec.origin.node
      && is_asked req.tool rec.origin.tool
      && is_asked req.method rec.origin.method
      && is_asked req.kind rec.origin.kind
      && is_asked req.level rec.level
      && is_asked req.corr rec.corr

  unfoldable pub matching : QueryRequest → ℤ → ℤ → Option Record → List Record
  unfolding record_matches
  matching req start end none = []
  matching req start end (some rec) = if record_matches req start end rec then rec ∷ [] else []

  -- The loop over the lines of a file
  unfoldable pub read_lines : QueryRequest → ℤ → ℤ → List Text → List Record
  unfolding matching
  read_lines req start end [] = []
  read_lines req start end (line ∷ lines) =
      matching req start end (archive.decode line) ++ read_lines req start end lines

  unfoldable pub read_paths : QueryRequest → ℤ → ℤ → List Text → List Record
  unfolding read_lines
  read_paths req start end [] = []
  read_paths req start end (path ∷ paths) =
      read_lines req start end (archive.lines path) ++ read_paths req start end paths

  -- The newest records, at most as many as the limit, and whether there are more
  abbrev pub limited : (List Record → List Record) → ℕ → List Record → List Record × Bool
  limited sort limit recs = (take limit (sort recs), ltb limit (length (sort recs)))

  -- `queryRecords`, with the order of the records by `sort`
  unfoldable pub query_records :
      (List Record → List Record)
      → QueryConfig
      → QueryRequest
      → Result QueryError (List Record × Bool) × Limits
  unfolding resolve_time_range paths_for_range read_paths
  query_records sort cfg req =
      let max = effective_query_limit cfg in
      let limit = request_limit max req.limit in
      let limits : Limits = record {
        limit = limit;
        max_query_limit = max;
        max_query_window = cfg.max_query_window;
      } in
      (
        do
          (start, end) ← resolve_time_range cfg req.since req.until
          paths ← paths_for_range start end
          ok (limited sort limit (read_paths req start end paths)),
        limits,
      )
