-- ===== src/Logstore/Normalize.antt =====
-- pkg/logstore/logstore.go: `Normalize`, from a message to the record that is stored. What Go's
-- library answers is the argument `lib`: whether a text is a timestamp, the time now, a random
-- correlation id, the encoding of a map and a hash.
pub mod Valid
use jb_mesh.Base.{
  take, ◌*◌, true, if◌then◌else◌, zero, is_some, false, not, none, length, Option, suc, ℕ, [], ◌&&◌,
  leb, Bool, ◌||◌, some,
}
use jb_mesh.Base.Result.{ok, err, ◌>>◌, guard, Result}
use jb_mesh.Base.Text.{is_empty, lit, Text, same, has_prefix}
use jb_mesh.Base.Int.{negsuc, pos, ℤ}
use jb_mesh.Base.Decimal.{itoa}
use jb_mesh.Base.Json.{
  Json, Fields, null, boolean, number, string, array, object, empty, field, get, add,
}
use jb_mesh.Logstore.Redact.{redact_map}
use jb_mesh.Logstore.Subject.{
  normalize_level, normalize_kind, Origin, infer_from_subject, first_non_empty,
}

pub record Library : Type 0 where
  pub is_time : Text → Bool
  pub now : Text
  pub corr : Text
  pub encode : Fields → Option Text
  pub hash : Text → Text

pub record Config : Type 0 where
  pub message_max_bytes : ℤ
  pub data_max_bytes : ℤ
  pub redact : Bool
  pub strict : Bool

pub record Record : Type 0 where
  pub schema : Text
  pub ts : Text
  pub level : Text
  pub origin : Origin
  pub subject : Text
  pub corr : Text
  pub duration_ms : Option Text
  pub is_ok : Option Bool
  pub message : Text
  pub content : Option Fields
  pub is_redacted : Bool
  pub truncated : Bool

pub data LogError : Type 0 where
  not_an_object invalid_ts missing_fields : LogError

abbrev pub schema_v1 : Text
schema_v1 = lit "jb.mesh.log.v1"

-- A limit, or the default where it is not positive
abbrev pub positive_or : ℕ → ℤ → ℕ
positive_or default (pos zero) = default
positive_or default (pos (suc n)) = suc n
positive_or default (negsuc n) = default

-- The limits of `withDefaults`
abbrev pub message_limit : Config → ℕ
message_limit cfg = positive_or (4 * 1024) cfg.message_max_bytes

abbrev pub data_limit : Config → ℕ
data_limit cfg = positive_or (32 * 1024) cfg.data_max_bytes

-- `asString`
abbrev pub as_string : Option Json → Text
as_string (some (string s)) = s
as_string _ = []

-- `asFloat` on a decoded number
abbrev as_number : Option Json → Option Text
as_number (some (number n)) = some n
as_number _ = none

abbrev as_bool : Option Json → Option Bool
as_bool (some (boolean b)) = some b
as_bool _ = none

-- `asMap`
abbrev as_map : Option Json → Option Fields
as_map (some (object m)) = some m
as_map _ = none

-- `truncateString` with a positive limit, and whether it truncates
unfoldable pub truncate_string : ℕ → Text → Text
truncate_string max s = if leb (length s) max then s else take max s

abbrev is_cut : ℕ → Text → Bool
is_cut max s = not (leb (length s) max)

-- What `truncateData` puts in the place of data that it cannot keep.
abbrev summary : Library → Text → Fields
summary lib b = field (lit "truncated") (boolean true) (
    field (lit "original_bytes") (number (itoa (pos (length b))))
      (field (lit "sha256") (string (lib.hash b)) empty))

abbrev encoded : Library → Fields → Text
encoded lib m = elim (lib.encode m) [ none ↦ [] | some b ↦ b ]

abbrev fits : Library → ℕ → Fields → Bool
fits lib max m = elim (lib.encode m) [ none ↦ false | some b ↦ leb (length b) max ]

-- `truncateData` with a positive limit, and whether it truncates
unfoldable pub truncate_data : Library → ℕ → Option Fields → Option Fields × Bool
truncate_data lib max none = (none, false)
truncate_data lib max (some m) =
    if fits lib max m then (some m, false) else (some (summary lib (encoded lib m)), true)

abbrev redact_data : Bool → Option Fields → Option Fields
redact_data true (some m) = some (redact_map m)
redact_data _ content = content

-- `validate`
unfoldable pub validate : Library → Record → Result LogError (Unit {0})
validate lib rec =
    guard
      (not (
        not (same rec.schema schema_v1)
        || is_empty rec.subject
        || is_empty rec.message
        || is_empty rec.origin.node
        || is_empty rec.level
        || is_empty rec.origin.kind
        || is_empty rec.ts))
      missing_fields
    >> guard (lib.is_time rec.ts) invalid_ts

-- The record after redaction and truncation.
finished : Library → Config → Record → Record
unfolding truncate_string truncate_data
finished lib cfg rec =
    let (content, content_cut) =
      truncate_data lib (data_limit cfg) (redact_data cfg.redact rec.content) in
    record rec {
      message = truncate_string (message_limit cfg) rec.message;
      content = content;
      truncated = is_cut (message_limit cfg) rec.message || content_cut;
    }

-- The last steps for both kinds of message: redaction, truncation and validation.
finish : Library → Config → Record → Result LogError Record
unfolding finished validate
finish lib cfg rec = validate lib (finished lib cfg rec) >> ok (finished lib cfg rec)

-- The entries of the nested map whose keys are not there yet.
add_missing : Fields → Fields → Fields
add_missing content empty = content
add_missing content (field k v m) =
    add_missing (if is_some (get k content) then content else add k v content) m

-- `flattenEventData`
unfoldable pub flatten_event_data : Fields → Fields
unfolding add_missing
flatten_event_data content = elim (as_map (get (lit "data") content)) [
  | none ↦ content
  | some nested ↦ add_missing content nested
]

-- The record of an event, before it is redacted and truncated.
event_record : Library → Config → Text → Fields → Record
unfolding flatten_event_data
event_record lib cfg subject raw =
    let ts =
      first_non_empty (as_string (get (lit "ts") raw)) (as_string (get (lit "timestamp") raw)) in
    let corr = first_non_empty (as_string (get (lit "corr") raw)) (
      first_non_empty (as_string (get (lit "correlation_id") raw))
        (as_string (get (lit "trace_id") raw))) in
    record {
      schema = schema_v1;
      ts = if not (is_empty ts) && lib.is_time ts then ts else lib.now;
      level = lit "info";
      origin = record {
        kind = lit "event";
        node = as_string (get (lit "node") raw);
        tool = [];
        method = [];
      };
      subject = subject;
      corr = first_non_empty corr lib.corr;
      duration_ms = none;
      is_ok = none;
      message = first_non_empty (as_string (get (lit "type") raw)) subject;
      content = some (flatten_event_data raw);
      is_redacted = cfg.redact;
      truncated = false;
    }

-- `normalizeEvent`
unfoldable pub normalize_event : Library → Config → Text → Fields → Result LogError Record
unfolding event_record finish
normalize_event lib cfg subject raw = finish lib cfg (event_record lib cfg subject raw)

-- The record of a log message, before it is redacted and truncated.
log_record : Library → Config → Text → Fields → Record
unfolding infer_from_subject
log_record lib cfg subject raw = record {
  schema = first_non_empty (as_string (get (lit "schema") raw)) schema_v1;
  ts = first_non_empty (as_string (get (lit "ts") raw)) lib.now;
  level = normalize_level (as_string (get (lit "level") raw)) cfg.strict;
  origin = infer_from_subject subject (record {
    kind = normalize_kind (as_string (get (lit "kind") raw)) cfg.strict;
    node = as_string (get (lit "node") raw);
    tool = as_string (get (lit "tool") raw);
    method = as_string (get (lit "method") raw);
  });
  subject = subject;
  corr = first_non_empty (as_string (get (lit "corr") raw)) lib.corr;
  duration_ms = as_number (get (lit "duration_ms") raw);
  is_ok = as_bool (get (lit "ok") raw);
  message = first_non_empty (as_string (get (lit "message") raw)) subject;
  content = as_map (get (lit "data") raw);
  is_redacted = cfg.redact;
  truncated = false;
}

normalize_log : Library → Config → Text → Fields → Result LogError Record
unfolding log_record finish
normalize_log lib cfg subject raw =
    let ts = as_string (get (lit "ts") raw) in
    guard (is_empty ts || lib.is_time ts) invalid_ts
    >> finish lib cfg (log_record lib cfg subject raw)

normalize_object : Library → Config → Text → Fields → Result LogError Record
unfolding normalize_log normalize_event
normalize_object lib cfg subject raw =
    if has_prefix subject (lit "events.")
    then normalize_event lib cfg subject raw
    else normalize_log lib cfg subject raw

-- `Normalize`; `none` is a payload that is no JSON object
unfoldable pub normalize : Library → Config → Text → Option Fields → Result LogError Record
unfolding normalize_object
normalize lib cfg subject none = err not_an_object
normalize lib cfg subject (some raw) = normalize_object lib cfg subject raw
