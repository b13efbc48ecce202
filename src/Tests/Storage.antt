-- ===== src/Tests/Storage.antt =====
-- The file store of pkg/filestore and its tool over an object store in memory.
use jb_mesh.Base.{
  Bool, true, if◌then◌else◌, ap, none, refl, [], ◌∙◌, List, ◌∷◌, some, Option, length, false, ◌≡◌,
  subst,
}
use jb_mesh.Base.Text.{lit, Text, same_refl, same}
use jb_mesh.Base.Dict.{lookup-insert, insert, lookup, delete, Dict}
use jb_mesh.Base.Result.{ok}
use jb_mesh.Base.Json.{get}
use jb_mesh.Files.Store
use jb_mesh.Files.Store.{
  info_to_meta, has_key_prefix, Bucket, ObjectInfo, Describes, FileMeta, FileError, get_failed,
  is_required,
}
use jb_mesh.Files.Tool.{Base64, file_tool_put, file_tool_get, string_param}
use jb_mesh.Files.Handlers.{
  FilePutRequest, handle_put, put_params, raw_reply, file_tool_put-handle_put,
}
use jb_mesh.Files.RoundTrip.{key_params, stored_reply, file_tool_get-file_tool_put}

abbrev Memory : Type 0
Memory = Dict (Text × (Text × Text))

abbrev described : Text → Text × (Text × Text) → ObjectInfo
described key (content, headers) = record {
  name = key;
  size = length content;
  headers = some headers;
  mod_time = 0;
  deleted = false;
}

abbrev opened : Text → Option (Text × (Text × Text)) → Option (Option Text × Option ObjectInfo)
opened key none = none
opened key (some (content, headers)) = some (some content, some (described key (content, headers)))

abbrev described_all : Memory → List ObjectInfo
described_all [] = []
described_all ((key, object) ∷ m) = described key object ∷ described_all m

memory_get-put :
    (key : Text) (headers : Text × Text) (content : Text) (s t : Memory)
    → ◌≡◌ {A = Memory × Bool} (insert key (content, headers) s, true) (t, true)
    → (info : ObjectInfo) × Describes info key headers content
      × (opened key (lookup key t) ≡ some (some content, some info))
memory_get-put key headers content s t h = (
  described key (content, headers),
  (refl, refl, refl),
  subst
      (λ m.
        opened key (lookup key m) ≡ some (some content, some (described key (content, headers))))
      (ap (λ p. p.0) h)
      (ap (opened key) (lookup-insert key key (content, headers) s)
        ∙ ap (λ b. opened key (if b then some (content, headers) else lookup key s))
            (same_refl key)),
)

abbrev memory : Bucket Memory
memory = record {
  put = λ key headers content s. (insert key (content, headers) s, true);
  get = λ key s. opened key (lookup key s);
  get_info = λ key s. none;
  delete = λ key s. (delete key s, true);
  list = λ s. some (described_all s);
  get-put = memory_get-put;
}

abbrev base64 : Base64
base64 = record { encode = λ b. b; decode = λ b. some b; decode-encode = λ b. refl }

abbrev hash : Text → Text
hash b = lit "h"

abbrev note : FilePutRequest
note = record { key = lit "a/n"; content = lit "hi"; content_type = [] }

abbrev after_put : Memory
after_put = (lit "a/n", (lit "hi", (lit "application/octet-stream", lit "h"))) ∷ []

put_test : (file_tool_put memory hash base64 7 (put_params note) []).0 ≡ after_put
unfolding file_tool_put Store.put string_param get same insert
put_test = refl

file_tool_get-file_tool_put_example :
    file_tool_get memory hash base64 (key_params (lit "a/n")) after_put
    ≡ ok (stored_reply memory hash base64 (lit "a/n") (lit "hi") [])
unfolding file_tool_put Store.put string_param get same insert
file_tool_get-file_tool_put_example =
    file_tool_get-file_tool_put memory hash base64 7 (lit "a/n") (lit "hi") [] [] after_put refl

file_tool_put-handle_put_example :
    handle_put memory hash base64 7 (some note) []
    ≡ raw_reply (file_tool_put memory hash base64 7 (put_params note) [])
file_tool_put-handle_put_example = file_tool_put-handle_put memory hash base64 7 note [] refl
