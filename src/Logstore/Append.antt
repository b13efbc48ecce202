-- ===== src/Logstore/Append.antt =====
-- pkg/logstore/logstore.go: the store that records are appended to, with its counters, and
-- pkg/logstore/producer.go: what a producer publishes. The encoding of a record, its day, the hash
-- and the files are arguments; an open file is only known by its path.
use jb_mesh.Base.Result.{◌>>=◌, Result, err, ok}
use jb_mesh.Base.{
  length, ◌+◌, ◌*◌, if◌then◌else◌, ltb, any, ℕ, suc, Bool, true, false, Option, none, some, List,
  ◌∷◌, [], ◌++◌, not,
}
use jb_mesh.Base.Text.{is_empty, same, Text, lit}
use jb_mesh.Base.Int.{ℤ, pos}
use jb_mesh.Base.Json.{Json, Fields, string, boolean, number, object, empty, field, null}
use jb_mesh.Base.Decimal.{itoa}
use jb_mesh.Logstore.Normalize.{Library, Config, Record, LogError, normalize, positive_or}
use jb_mesh.Logstore.Sanitize.{sanitize_node}
use jb_mesh.Logstore.Subject.{subject_for}

-- `Stats`
pub record Stats : Type 0 where
  pub is_ok : Bool
  pub records_written : ℕ
  pub bytes_written : ℕ
  pub last_write_ts : Text
  pub last_error : Text
  pub backend_ok : Bool

-- `Store`
pub record LogStore : Type 0 where
  pub config : Config
  pub record_max_bytes : ℕ
  pub storage_dir : Text
  pub files : List Text
  pub stats : Stats

-- `marshal` ends the line with a newline; `day` is the date of a timestamp.
pub record Disk : Type 0 where
  pub marshal : Record → Option Text
  pub day : Text → Option Text
  pub mkdir : Text → Bool
  pub open_file : Text → Bool
  pub write_line : Text → Text → Bool

pub data AppendError : Type 0 where
  not_normal : LogError → AppendError
  marshal_failed bad_ts no_directory no_file write_failed : AppendError

-- `NewStore`, once its directory is there
abbrev pub new_log_store : Config → ℤ → Text → LogStore
new_log_store cfg record_max dir = record {
  config = cfg;
  record_max_bytes = positive_or (64 * 1024) record_max;
  storage_dir = dir;
  files = [];
  stats = record {
    is_ok = true;
    records_written = 0;
    bytes_written = 0;
    last_write_ts = [];
    last_error = [];
    backend_ok = true;
  };
}

-- `truncateRecord`
unfoldable pub truncate_record : Library → Record → Text → Record
truncate_record lib rec line = record rec {
  truncated = true;
  message = lit "record truncated";
  content = some (
      field (lit "truncated") (boolean true) (
        field (lit "original_bytes") (number (itoa (pos (length line))))
          (field (lit "sha256") (string (lib.hash line)) empty)));
}

abbrev pub marshalled : Record → Option Text → Result AppendError (Record × Text)
marshalled rec none = err marshal_failed
marshalled rec (some line) = ok (rec, line)

abbrev pub normalized : Result LogError Record → Result AppendError Record
normalized (ok rec) = ok rec
normalized (err e) = err (not_normal e)

abbrev pub dated : Option Text → Result AppendError Text
dated none = err bad_ts
dated (some date) = ok date

abbrev pub is_open : Text → List Text → Bool
is_open path files = any (same path) files

module _ (disk : Disk) (lib : Library) where
  -- The line of a record, which is cut to a summary if it is too long
  unfoldable pub record_line : ℕ → Record → Result AppendError (Record × Text)
  unfolding truncate_record
  record_line max rec = do
    (whole, line) ← marshalled rec (disk.marshal rec)
    (if ltb max (length line)
        then marshalled (truncate_record lib whole line)
            (disk.marshal (truncate_record lib whole line))
        else ok (whole, line))

  -- `pathFor`
  unfoldable pub path_for : Text → Record → Result AppendError Text
  unfolding sanitize_node
  path_for dir rec = do
    date ← dated (disk.day rec.ts)
    ok (
        dir
        ++ (lit "/raw/date="
            ++ (date ++ (lit "/node=" ++ (sanitize_node rec.origin.node ++ lit ".jsonl")))))

  -- `Append` up to the lock: the record, its line and its path
  unfoldable pub prepare_line :
      LogStore → Text → Option Fields → Result AppendError (Record × Text × Text)
  unfolding record_line path_for normalize
  prepare_line s subject payload = do
    rec ← normalized (normalize lib s.config subject payload)
    (kept, line) ← record_line s.record_max_bytes rec
    path ← path_for s.storage_dir kept
    ok (kept, line, path)

  -- `setErrorLocked`; of the text of an error only that there is one is kept
  unfoldable pub set_error : LogStore → LogStore
  set_error s = record s {
    stats = record s.stats { last_error = lit "error"; backend_ok = false; is_ok = false };
  }

  written : LogStore → Record → Text → Text → LogStore × Result AppendError Record
  unfolding set_error
  written s rec line path =
      if disk.write_line path line
      then (
        record s {
          stats = record {
            is_ok = true;
            records_written = suc s.stats.records_written;
            bytes_written = s.stats.bytes_written + length line;
            last_write_ts = rec.ts;
            last_error = [];
            backend_ok = true;
          };
        },
        ok rec,
      )
      else (set_error s, err write_failed)

  -- The part of `Append` under the lock
  write_record :
      LogStore → Result AppendError (Record × Text × Text) → LogStore × Result AppendError Record
  unfolding written
  write_record s (err e) = (set_error s, err e)
  write_record s (ok (rec, line, path)) =
      if is_open path s.files
      then written s rec line path
      else if not (disk.mkdir path)
      then (set_error s, err no_directory)
      else if not (disk.open_file path)
      then (set_error s, err no_file)
      else written (record s { files = path ∷ s.files }) rec line path

  -- `Append`
  unfoldable pub append : Text → Option Fields → LogStore → LogStore × Result AppendError Record
  unfolding write_record prepare_line
  append subject payload s = write_record s (prepare_line s subject payload)

-- `Close`: the files that are open after it
unfoldable pub close_files : LogStore → LogStore
close_files s = record s { files = [] }

-- `PublishOptions`; a time is none if it is zero, and a duration is that of the record
pub record PublishOptions : Type 0 where
  pub level : Text
  pub kind : Text
  pub tool : Text
  pub method : Text
  pub corr : Text
  pub duration_ms : Option Text
  pub is_ok : Option Bool
  pub message : Text
  pub content : Option Fields
  pub subject : Text
  pub occurred_at : Option Text

abbrev pub some_field : Text → Option Json → Fields → Fields
some_field key none m = m
some_field key (some v) m = field key v m

abbrev pub mapped : {A : Type 0} → (A → Json) → Option A → Option Json
mapped f none = none
mapped f (some a) = some (f a)

abbrev pub object_or_null : Option Fields → Json
object_or_null none = null
object_or_null (some m) = object m

-- The message of `Publish`
unfoldable pub published_record : Text → PublishOptions → Fields
published_record node opts = field (lit "level") (string opts.level) (
    field (lit "kind") (string opts.kind) (
      field (lit "node") (string node) (
        field (lit "tool") (string opts.tool) (
          field (lit "method") (string opts.method) (
            field (lit "corr") (string opts.corr) (
              field (lit "message") (string opts.message) (
                field (lit "data") (object_or_null opts.content) (
                  some_field (lit "ts") (mapped string opts.occurred_at) (
                    some_field (lit "duration_ms") (mapped number opts.duration_ms)
                      (some_field (lit "ok") (mapped boolean opts.is_ok) empty))))))))))

-- `Publish`: the subject and the message, `none` where no subject can be made
unfoldable pub publish : Text → PublishOptions → Option (Text × Fields)
unfolding subject_for published_record
publish node opts =
    let subject =
      if is_empty opts.subject
      then subject_for node opts.kind opts.tool opts.method
      else opts.subject in
    if is_empty subject then none else some (subject, published_record node opts)
