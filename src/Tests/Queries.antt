-- ===== src/Tests/Queries.antt =====
-- Runs of queries over a small log.
use jb_mesh.Base.Text.{sort_strings, has_suffix, trim_space, has_prefix, same, lit, Text}
use jb_mesh.Base.Int.{int_sub, negsuc, pos}
use jb_mesh.Base.{if◌then◌else◌, ◌-◌, true, false, none, some, List, [], ◌∷◌, refl, ◌≡◌}
use jb_mesh.Base.Result.{ok}
use jb_mesh.Logstore.Normalize.{Record}
use jb_mesh.Logstore.Query.{
  Archive, QueryRequest, QueryConfig, query_records, request_limit, effective_query_limit,
}
use jb_mesh.Logstore.Statistics.{StatsRequest, stats, stats_query}
use jb_mesh.Logstore.Statistics.Totals.{IsTotal, stats-IsTotal}
use jb_mesh.Tests.Sorting.{sort_records}

abbrev entry : Text → Text → Record
entry ts level = record {
  schema = lit "jb.mesh.log.v1";
  ts = ts;
  level = level;
  origin = record { kind = lit "tool"; node = lit "n1"; tool = lit "db"; method = [] };
  subject = lit "logs.tool.n1.db";
  corr = lit "c";
  duration_ms = none;
  is_ok = none;
  message = lit "m";
  content = none;
  is_redacted = false;
  truncated = false;
}

-- The lines of its one file are a time each, 0 to 9; a record at 5 is an error.
abbrev archive : Archive
archive = record {
  now = pos 10;
  zero_time = negsuc 0;
  parse_duration = λ s. some (pos 7);
  parse_time = λ layout s. elim s [ [] ↦ none | c ∷ t ↦ some (pos (c - 48)) ];
  root = lit "/logs/raw";
  join = λ a b. b;
  read_root = ok ((lit "date=0", true) ∷ []);
  read_dir = λ dir. some ((lit "node=n1.jsonl", false) ∷ (lit "notes", false) ∷ []);
  lines = λ path. lit "1" ∷ lit "9" ∷ lit "5" ∷ lit "4" ∷ [];
  decode = λ line. some (entry line (if same line (lit "5") then lit "error" else lit "info"));
}

abbrev limits : QueryConfig
limits = record { max_query_limit = pos 100; max_query_window = pos 0 }

abbrev newest : QueryRequest
newest = record {
  since = lit "7ns";
  until = [];
  node = lit "n1";
  tool = [];
  method = [];
  kind = [];
  level = [];
  corr = [];
  limit = pos 2;
}

abbrev answer : List Record
answer = entry (lit "9") (lit "info") ∷ entry (lit "5") (lit "error") ∷ []

abbrev last_week : StatsRequest
last_week = record { since = lit "7ns"; until = []; group_by = lit "level" ∷ [] }

abbrev counted_records : List Record
counted_records =
    entry (lit "9") (lit "info") ∷ entry (lit "5") (lit "error") ∷ entry (lit "4") (lit "info") ∷ []

stats_query_test :
    (query_records archive sort_records limits (stats_query limits last_week)).0
    ≡ ok (counted_records, false)
unfolding query_records trim_space int_sub request_limit effective_query_limit sort_records
    sort_strings has_prefix has_suffix
stats_query_test = refl

stats-IsTotal_example : IsTotal counted_records (stats archive sort_records limits last_week).groups
stats-IsTotal_example =
    stats-IsTotal archive sort_records limits last_week counted_records false stats_query_test
