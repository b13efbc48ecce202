-- ===== src/Files/Handlers.antt =====
-- pkg/mesh/files.go: the handlers of the raw subjects files.put to files.list, for requests already
-- decoded from JSON; `none` is a message that does not decode.
use jb_mesh.Base.{
  length, [], Bool, true, ◌∷◌, refl, Bool-cases, inl, inr, false, Option, List, none, ◌≡◌, not,
  some, ℕ,
}
use jb_mesh.Base.Text.{is_empty, lit, Text, same}
use jb_mesh.Base.Result.{guard, Result, ◌>>◌, ◌>>=◌, ok, err}
use jb_mesh.Base.Json.{Fields, string, field, empty, get}
use jb_mesh.Files.Store
use jb_mesh.Files.Store.{
  Bucket, FileMeta, FileError, is_required, invalid_request, put_failed, reply_failed,
}
use jb_mesh.Files.Tool.{
  Base64, FileReply, default_type, checked, decoded, put_reply, no_reply, replied, file_tool_put,
  string_param,
}

pub record FilePutRequest : Type 0 where
  pub key : Text
  pub content : Text
  pub content_type : Text

abbrev required_key : Text → Result FileError (Unit {0})
required_key key = guard (not (is_empty key)) (is_required (lit "key"))

abbrev request {ℓ} : {A : Type ℓ} → Option A → Result FileError A
request none = err invalid_request
request (some a) = ok a

-- The parameters that the tool takes for a raw request.
abbrev pub put_params : FilePutRequest → Fields
put_params req = field (lit "key") (string req.key) (
    field (lit "data") (string req.content)
      (field (lit "content_type") (string req.content_type) empty))

-- The store's error in the text of a reply, as in `put failed: %v`
abbrev pub prefixed {ℓ} : {A : Type ℓ} → Text → Result FileError A → Result FileError A
prefixed what (ok a) = ok a
prefixed what (err e) = err (reply_failed what e)

abbrev pub prefixed_change {ℓ} :
    {S : Type 0} {A : Type ℓ} → Text → S × Result FileError A → S × Result FileError A
prefixed_change what (s, r) = (s, prefixed what r)

-- An error of the tool's put as the raw subject answers it: the store's error has a prefix
abbrev pub raw_error : FileError → FileError
raw_error put_failed = reply_failed (lit "put failed") put_failed
raw_error e = e

abbrev pub raw_reply :
    {S : Type 0} → S × Result FileError FileReply → S × Result FileError FileReply
raw_reply (s, ok r) = (s, ok r)
raw_reply (s, err e) = (s, err (raw_error e))

module _ {S : Type 0} (bucket : Bucket S) (hash : Text → Text) (base64 : Base64) where
  -- `subscribeFilePut`
  unfoldable pub handle_put : ℕ → Option FilePutRequest → S → S × Result FileError FileReply
  handle_put now message s = checked s (request message) (λ req.
      checked s (required_key req.key) (λ u.
        checked s (decoded (base64.decode req.content)) (λ content. replied put_reply (
          prefixed_change (lit "put failed")
            (Store.put bucket hash now req.key content (default_type req.content_type) s)))))

  -- `subscribeFileGet`
  unfoldable pub handle_get : Option Text → S → Result FileError FileReply
  handle_get message s = request message >>= λ key.
      (required_key key
        >> (prefixed (lit "get failed") (Store.get bucket hash key s) >>= λ found.
            ok (record (put_reply found.1) { content = base64.encode found.0 })))

  -- `subscribeFileHead`
  unfoldable pub handle_head : Option Text → S → Result FileError FileReply
  handle_head message s = request message >>= λ key.
      (required_key key
        >> (prefixed (lit "head failed") (Store.head bucket hash key s) >>= λ meta.
            ok (record (put_reply meta) { created = some meta.created })))

  -- `subscribeFileDelete`
  unfoldable pub handle_delete : Option Text → S → S × Result FileError FileReply
  handle_delete message s = checked s (request message) (λ key. checked s (required_key key) (λ u.
      replied (λ u. no_reply)
        (prefixed_change (lit "delete failed") (Store.delete bucket hash key s))))

  -- `subscribeFileList`
  unfoldable pub handle_list : Option Text → S → Result FileError (List FileMeta)
  handle_list message s =
      request message >>= λ prefix. prefixed (lit "list failed") (Store.list bucket hash prefix s)

  put_answer-raw :
      (meta : FileMeta) (p : S × Bool)
      → replied put_reply (prefixed_change (lit "put failed") (Store.put_answer bucket hash meta p))
        ≡ raw_reply (replied put_reply (Store.put_answer bucket hash meta p))
  unfolding Store.put_answer
  put_answer-raw meta (t, true) = refl
  put_answer-raw meta (t, false) = refl

  put-raw :
      (now : ℕ) (key content content_type : Text) (s : S)
      → is_empty key ≡ false
      → replied put_reply (
          prefixed_change (lit "put failed") (Store.put bucket hash now key content content_type s))
        ≡ raw_reply (replied put_reply (Store.put bucket hash now key content content_type s))
  unfolding Store.put
  put-raw now [] content content_type s h = cc
  put-raw now (c ∷ key) content content_type s h =
      put_answer-raw
        (record {
          key = c ∷ key;
          size = length content;
          content_type = content_type;
          etag = hash content;
          created = now;
        })
        (bucket.put (c ∷ key) (content_type, hash content) content s)

  decoded-raw :
      (now : ℕ) (key content_type : Text) (s : S) (o : Option Text)
      → is_empty key ≡ false
      → checked s (decoded o) (λ content.
        replied put_reply (
          prefixed_change
            (lit "put failed")
            (Store.put bucket hash now key content content_type s)))
        ≡ raw_reply (
            checked s
              (decoded o)
              (λ content. replied put_reply (Store.put bucket hash now key content content_type s)))
  decoded-raw now key content_type s none h = refl
  decoded-raw now key content_type s (some content) h = put-raw now key content content_type s h

  -- A put of some content through the tool and the same one through the raw subject change the store
  -- alike, and give the same reply or the same error, but that the raw subject puts a prefix before
  -- an error of the store.
  pub file_tool_put-handle_put :
      (now : ℕ) (req : FilePutRequest) (s : S)
      → is_empty req.content ≡ false
      → handle_put now (some req) s
        ≡ raw_reply (file_tool_put bucket hash base64 now (put_params req) s)
  unfolding file_tool_put handle_put string_param get same
  file_tool_put-handle_put now req s some_content = elim (Bool-cases (is_empty req.key)) [
    | inl blank ↦ rw blank refl
    | inr named ↦
        rw (named, some_content)
          (decoded-raw now req.key (default_type req.content_type) s (base64.decode req.content)
            named)
  ]
