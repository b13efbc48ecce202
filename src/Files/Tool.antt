-- ===== src/Files/Tool.antt =====
-- pkg/mesh/files.go: the built-in "files" tool, `fileToolHandler` and the functions of its methods.
-- Base64 is an interface with its law.
use jb_mesh.Base.{◌&&◌, some, if◌then◌else◌, [], Bool, List, none, ◌∷◌, Option, true, false, ◌≡◌, ℕ}
use jb_mesh.Base.Result.{ok, Result, err, ◌>>=◌}
use jb_mesh.Base.Text.{lit, Text, is_empty}
use jb_mesh.Base.Json.{Fields, null, string, get}
use jb_mesh.Files.Store
use jb_mesh.Files.Store.{
  Bucket, FileMeta, FileError, is_required, not_a_string, unknown_method, invalid_base64,
}

pub record Base64 : Type 0 where
  pub encode : Text → Text
  pub decode : Text → Option Text
  pub decode-encode : (b : Text) → decode (encode b) ≡ some b

-- A reply to put, get, head or delete; a field that the method does not set is empty.
pub record FileReply : Type 0 where
  pub key : Text
  pub content : Text
  pub content_type : Text
  pub size : ℕ
  pub etag : Text
  pub created : Option ℕ

-- `stringParam`
unfoldable pub string_param : Fields → Text → Bool → Result FileError Text
string_param params key required = elim (get key params) [
  | none ↦ if required then err (is_required key) else ok []
  | some null ↦ if required then err (is_required key) else ok []
  | some (string s) ↦ if required && is_empty s then err (is_required key) else ok s
  | some _ ↦ err (not_a_string key)
]

abbrev pub default_type : Text → Text
default_type [] = lit "application/octet-stream"
default_type (c ∷ s) = c ∷ s

-- A test before a change of the store: its error leaves the store as it is.
abbrev pub checked {ℓ} :
    {S : Type 0} {A : Type ℓ} {B : Type 0}
    → S
    → Result FileError A
    → (A → S × Result FileError B)
    → S × Result FileError B
checked s (ok a) f = f a
checked s (err e) f = (s, err e)

abbrev pub decoded : Option Text → Result FileError Text
decoded none = err invalid_base64
decoded (some b) = ok b

abbrev pub put_reply : FileMeta → FileReply
put_reply meta = record {
  key = meta.key;
  content = [];
  content_type = meta.content_type;
  size = meta.size;
  etag = meta.etag;
  created = none;
}

abbrev pub no_reply : FileReply
no_reply = record { key = []; content = []; content_type = []; size = 0; etag = []; created = none }

-- The reply, where there is no error.
abbrev pub replied {ℓ} :
    {S : Type 0} {A : Type ℓ}
    → (A → FileReply)
    → S × Result FileError A
    → S × Result FileError FileReply
replied f (s, ok a) = (s, ok (f a))
replied f (s, err e) = (s, err e)

module _ {S : Type 0} (bucket : Bucket S) (hash : Text → Text) (base64 : Base64) where
  -- `fileToolPut`
  unfoldable pub file_tool_put : ℕ → Fields → S → S × Result FileError FileReply
  file_tool_put now params s = checked s (string_param params (lit "key") true) (λ key.
      checked s (string_param params (lit "data") true) (λ encoded.
        checked s (decoded (base64.decode encoded)) (λ content.
          checked s (string_param params (lit "content_type") false) (λ content_type.
            replied put_reply
              (Store.put bucket hash now key content (default_type content_type) s)))))

  -- `fileToolGet`
  unfoldable pub file_tool_get : Fields → S → Result FileError FileReply
  file_tool_get params s = string_param params (lit "key") true >>= λ key.
      Store.get bucket hash key s >>= λ found.
      ok (record (put_reply found.1) { content = base64.encode found.0 })

  -- `fileToolHead`
  unfoldable pub file_tool_head : Fields → S → Result FileError FileReply
  file_tool_head params s = string_param params (lit "key") true >>= λ key.
      Store.head bucket hash key s >>= λ meta.
      ok (record (put_reply meta) { created = some meta.created })

  -- `fileToolDelete`
  unfoldable pub file_tool_delete : Fields → S → S × Result FileError FileReply
  file_tool_delete params s =
      checked s (string_param params (lit "key") true)
        (λ key. replied (λ u. no_reply) (Store.delete bucket hash key s))

  -- `fileToolList`
  unfoldable pub file_tool_list : Fields → S → Result FileError (List FileMeta)
  file_tool_list params s =
      string_param params (lit "prefix") false >>= λ prefix. Store.list bucket hash prefix s
