-- ===== src/Tests/Logs.antt =====
-- pkg/logstore on concrete messages.
use jb_mesh.Base.Text.{to_lower, lit, same, has_prefix, remove_byte, split, contains, trim_space}
use jb_mesh.Base.Int.{pos}
use jb_mesh.Base.{some, ◌↔◌, arith, true, [], none, ◌≡◌, refl}
use jb_mesh.Base.Result.{ok}
use jb_mesh.Base.Json.{get, Fields, string, object, empty, field}
use jb_mesh.Logstore.Redact.{AreRedacted, redact_map, redacted, is_sensitive_key, redact_map_iff}
use jb_mesh.Logstore.Sanitize.{IsSafeName, sanitize_node, sanitize_node-IsSafeName}
use jb_mesh.Logstore.Subject.{
  normalize_level, normalize_kind, blank_origin, infer_from_subject, subject_for,
  infer_from_subject-subject_for,
}
use jb_mesh.Logstore.Normalize.{Library, Config, Record, normalize, schema_v1}
use jb_mesh.Logstore.Normalize.Valid.{IsValid, normalize-IsValid}

abbrev login : Fields
login = field (lit "user") (string (lit "ann")) (field (lit "API-Key") (string (lit "k1")) empty)

redact_test :
    redact_map login
    ≡ field (lit "user") (string (lit "ann")) (field (lit "API-Key") redacted empty)
unfolding redact_map is_sensitive_key contains to_lower remove_byte
redact_test = refl

redact_map_iff_example :
    AreRedacted (redact_map login) × ((redact_map login ≡ login) ↔ AreRedacted login)
redact_map_iff_example = redact_map_iff login

sanitize_test : sanitize_node (lit " ../my host/") ≡ lit "my-host"
unfolding sanitize_node trim_space
sanitize_test = refl

sanitize_node-IsSafeName_example : IsSafeName (sanitize_node (lit "../etc"))
sanitize_node-IsSafeName_example = sanitize_node-IsSafeName (lit "../etc")

infer_from_subject-subject_for_example :
    infer_from_subject
      (subject_for (lit "n1") (lit "tool_call") (lit "db") (lit "get"))
      blank_origin
    ≡ record {
      kind = lit "tool_call";
      node = sanitize_node (lit "n1");
      tool = sanitize_node (lit "db");
      method = sanitize_node (lit "get");
    }
unfolding sanitize_node trim_space
infer_from_subject-subject_for_example =
    infer_from_subject-subject_for (lit "n1") (lit "db") (lit "get") refl refl (ground arith)
      (ground arith) (ground arith)

abbrev library : Library
library = record {
  is_time = λ t. same t (lit "T0");
  now = lit "T0";
  corr = lit "c";
  encode = λ m. some [];
  hash = λ b. lit "h";
}

abbrev strict_config : Config
strict_config = record {
  message_max_bytes = pos 5;
  data_max_bytes = pos 0;
  redact = true;
  strict = true;
}

abbrev message : Fields
message = field (lit "message") (string (lit "logged in")) (field (lit "data") (object login) empty)

abbrev stored : Record
stored = record {
  schema = schema_v1;
  ts = lit "T0";
  level = lit "info";
  origin = record { kind = lit "tool_call"; node = lit "n1"; tool = lit "db"; method = lit "get" };
  subject = lit "logs.call.n1.db.get";
  corr = lit "c";
  duration_ms = none;
  is_ok = none;
  message = lit "logge";
  content = some (field (lit "user") (string (lit "ann")) (field (lit "API-Key") redacted empty));
  is_redacted = true;
  truncated = true;
}

normalize_test :
    normalize library strict_config (lit "logs.call.n1.db.get") (some message) ≡ ok stored
unfolding normalize infer_from_subject redact_map is_sensitive_key contains to_lower remove_byte
    has_prefix same split get normalize_level normalize_kind
normalize_test = refl

normalize-IsValid_example :
    IsValid library strict_config stored × (stored.subject ≡ lit "logs.call.n1.db.get")
normalize-IsValid_example =
    normalize-IsValid library strict_config (lit "logs.call.n1.db.get") (some message)
      normalize_test
