-- ===== src/Logstore/Statistics.antt =====
-- pkg/logstore/logstore.go: `Query`, `Tail` and `Stats`. The groups of `Stats` and the order of
-- their keys are one association list, in the order in which the keys first came.
pub mod Totals
use jb_mesh.Base.{
  if◌then◌else◌, ℕ, zero, suc, Bool, true, false, not, ◌&&◌, ◌||◌, Option, none, some, ◌++◌, List,
  ◌∷◌, [],
}
use jb_mesh.Base.Dict.{Dict}
use jb_mesh.Base.Result.{ok, err, Result}
use jb_mesh.Base.Text.{trim_space, join, is_empty, same, Text, lit}
use jb_mesh.Base.Int.{pos}
use jb_mesh.Logstore.Normalize.{Record}
use jb_mesh.Logstore.Query.{
  Archive, QueryRequest, QueryConfig, Limits, query_records, effective_query_limit, QueryError,
}

pub record QueryResponse : Type 0 where
  pub is_ok : Bool
  pub records : List Record
  pub truncated : Bool
  pub limits : Limits
  pub failure : Option QueryError

pub record StatsRequest : Type 0 where
  pub since : Text
  pub until : Text
  pub group_by : List Text

pub record StatsGroup : Type 0 where
  pub node : Text
  pub kind : Text
  pub tool : Text
  pub method : Text
  pub level : Text
  pub records : ℕ
  pub errors : ℕ

pub record StatsResponse : Type 0 where
  pub is_ok : Bool
  pub since : Text
  pub until : Text
  pub groups : List StatsGroup
  pub limits : Limits
  pub failure : Option QueryError

abbrev pub no_group : StatsGroup
no_group = record {
  node = [];
  kind = [];
  tool = [];
  method = [];
  level = [];
  records = 0;
  errors = 0;
}

-- The switch over the fields that records are grouped by: the parts of the key, and the group
unfoldable pub group_field : Text → Record → List Text × StatsGroup → List Text × StatsGroup
group_field name rec (parts, g) =
    if same name (lit "node")
    then (parts ++ (lit "node=" ++ rec.origin.node) ∷ [], record g { node = rec.origin.node })
    else if same name (lit "kind")
    then (parts ++ (lit "kind=" ++ rec.origin.kind) ∷ [], record g { kind = rec.origin.kind })
    else if same name (lit "tool")
    then (parts ++ (lit "tool=" ++ rec.origin.tool) ∷ [], record g { tool = rec.origin.tool })
    else if same name (lit "method")
    then (
      parts ++ (lit "method=" ++ rec.origin.method) ∷ [],
      record g { method = rec.origin.method },
    )
    else if same name (lit "level")
    then (parts ++ (lit "level=" ++ rec.level) ∷ [], record g { level = rec.level })
    else (parts, g)

unfoldable pub group_fields : List Text → Record → List Text × StatsGroup → List Text × StatsGroup
unfolding group_field
group_fields [] rec p = p
group_fields (name ∷ names) rec p = group_fields names rec (group_field (trim_space name) rec p)

-- A record that counts as an error
unfoldable pub is_error : Record → Bool
is_error rec = same rec.level (lit "error") || elim rec.is_ok [ none ↦ false | some b ↦ not b ]

abbrev pub counted : Bool → StatsGroup → StatsGroup
counted true g = record g { records = suc g.records; errors = suc g.errors }
counted false g = record g { records = suc g.records }

-- A record more in the group of a key, which is new or there
unfoldable pub count_in : Text → StatsGroup → Bool → Dict StatsGroup → Dict StatsGroup
count_in key g failed [] = (key, counted failed (record g { records = 0; errors = 0 })) ∷ []
count_in key g failed ((k, h) ∷ groups) =
    let rest = count_in key g failed groups in
    if same k key then (k, counted failed h) ∷ groups else (k, h) ∷ rest

unfoldable pub count_record : List Text → Record → Dict StatsGroup → Dict StatsGroup
unfolding group_fields count_in is_error
count_record names rec groups =
    let (parts, g) = group_fields names rec ([], no_group) in
    count_in (join 124 parts) g (is_error rec) groups

unfoldable pub count_records : List Text → List Record → Dict StatsGroup → Dict StatsGroup
unfolding count_record
count_records names [] groups = groups
count_records names (rec ∷ recs) groups = count_records names recs (count_record names rec groups)

abbrev pub values : Dict StatsGroup → List StatsGroup
values [] = []
values ((k, g) ∷ groups) = g ∷ values groups

abbrev pub group_names : List Text → List Text
group_names [] = lit "node" ∷ lit "kind" ∷ []
group_names (name ∷ names) = name ∷ names

-- The query of a request for statistics
abbrev pub stats_query : QueryConfig → StatsRequest → QueryRequest
stats_query cfg req = record {
  since = req.since;
  until = req.until;
  node = [];
  tool = [];
  method = [];
  kind = [];
  level = [];
  corr = [];
  limit = pos (effective_query_limit cfg);
}

abbrev pub query_response : Result QueryError (List Record × Bool) × Limits → QueryResponse
query_response (ok (recs, truncated), limits) = record {
  is_ok = true;
  records = recs;
  truncated = truncated;
  limits = limits;
  failure = none;
}
query_response (err e, limits) = record {
  is_ok = false;
  records = [];
  truncated = false;
  limits = limits;
  failure = some e;
}

unfoldable pub stats_response :
    StatsRequest → Result QueryError (List Record × Bool) × Limits → StatsResponse
unfolding count_records
stats_response req (ok (recs, truncated), limits) = record {
  is_ok = true;
  since = req.since;
  until = req.until;
  groups = values (count_records (group_names req.group_by) recs []);
  limits = limits;
  failure = none;
}
stats_response req (err e, limits) = record {
  is_ok = false;
  since = [];
  until = [];
  groups = [];
  limits = limits;
  failure = some e;
}

module _ (archive : Archive) (sort : List Record → List Record) where
  -- `Query`
  unfoldable pub query : QueryConfig → QueryRequest → QueryResponse
  unfolding query_records
  query cfg req = query_response (query_records archive sort cfg req)

  -- `Tail`
  unfoldable pub tail : QueryConfig → QueryRequest → QueryResponse
  unfolding query
  tail cfg req =
      if is_empty (trim_space req.since)
      then query cfg (record req { since = lit "1h" })
      else query cfg req

  -- `Stats`
  unfoldable pub stats : QueryConfig → StatsRequest → StatsResponse
  unfolding stats_response query_records
  stats cfg req = stats_response req (query_records archive sort cfg (stats_query cfg req))
