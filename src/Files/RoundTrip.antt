-- ===== src/Files/RoundTrip.antt =====
-- What one method of the "files" tool leaves for the next.
use jb_mesh.Base.{
  subst, Bool-cases, inr, inl, All, List, ap, refl, ◌∷◌, true, [], none, ◌≡◌, length, ℕ, arith,
}
use jb_mesh.Base.Result.{Result, err, ok}
use jb_mesh.Base.Text.{is_empty, has_prefix, lit, Text, same}
use jb_mesh.Base.Json.{Fields, string, field, empty, get}
use jb_mesh.Files.Store
use jb_mesh.Files.Store.{
  Bucket, FileMeta, FileError, ObjectInfo, get_failed, info_to_meta, has_key_prefix, is_listed,
}
use jb_mesh.Files.Handlers.{FilePutRequest, put_params}
use jb_mesh.Files.Tool.{
  Base64, FileReply, default_type, put_reply, replied, file_tool_put, file_tool_get, file_tool_list,
  string_param,
}

abbrev pub key_params : Text → Fields
key_params key = field (lit "key") (string key) empty

has_key_prefix-has_prefix :
    (s prefix : Text) → has_key_prefix s prefix ≡ true → has_prefix s prefix ≡ true
unfolding has_key_prefix has_prefix same
has_key_prefix-has_prefix s [] h = refl
has_key_prefix-has_prefix [] (p ∷ ps) h = ground arith
has_key_prefix-has_prefix (c ∷ s) (p ∷ ps) h = ground (arith, has_key_prefix-has_prefix s ps)

is_listed-has_prefix :
    (prefix : Text) (info : ObjectInfo)
    → is_listed prefix info ≡ true
    → has_prefix info.name prefix ≡ true
unfolding has_prefix
is_listed-has_prefix [] info h = refl
is_listed-has_prefix (p ∷ ps) info h = has_key_prefix-has_prefix info.name (p ∷ ps) (ground arith)

list_infos-has_prefix :
    (prefix : Text) (infos : List ObjectInfo)
    → All (λ m. has_prefix m.key prefix ≡ true) (Store.list_infos prefix infos)
unfolding Store.list_infos info_to_meta
list_infos-has_prefix prefix [] = tt
list_infos-has_prefix prefix (info ∷ infos) = elim (Bool-cases (is_listed prefix info)) [
  | inl shown ↦
      rw shown (is_listed-has_prefix prefix info shown, list_infos-has_prefix prefix infos)
  | inr hidden ↦ rw hidden (list_infos-has_prefix prefix infos)
]

module _ {S : Type 0} (bucket : Bucket S) (hash : Text → Text) (base64 : Base64) where
  -- What the tool says of an object that was stored with this content and content type.
  abbrev pub stored_reply : Text → Text → Text → FileReply
  stored_reply key content content_type = record {
    key = key;
    content = base64.encode content;
    content_type = default_type content_type;
    size = length content;
    etag = hash content;
    created = none;
  }

  abbrev pub encoded_request : Text → Text → Text → FilePutRequest
  encoded_request key content content_type = record {
    key = key;
    content = base64.encode content;
    content_type = content_type;
  }

  replied-ok :
      {A : Type 0} (f : A → FileReply) (p : S × Result FileError A) {t : S} {r : FileReply}
      → replied f p ≡ (t, ok r)
      → (a : A) × (p ≡ (t, ok a))
  replied-ok f (s, ok a) h = (a, ap (λ p. (p.0, ok a)) h)
  replied-ok f (s, err e) h = let e' = ap (λ p. p.1) h in cc

  file_tool_put-ok :
      (now : ℕ) (key content content_type : Text) (s t : S) {r : FileReply}
      → file_tool_put bucket hash base64 now
          (put_params (encoded_request key content content_type))
          s
        ≡ (t, ok r)
      → (meta : FileMeta) × (Store.put bucket hash now key content (default_type content_type) s
          ≡ (t, ok meta))
  unfolding file_tool_put string_param get same
  file_tool_put-ok now key content content_type s t h = elim (Bool-cases (is_empty key)) [
    | inl blank ↦ let e = ap (λ p. p.1) (rw blank at h) in cc
    | inr named ↦ elim (Bool-cases (is_empty (base64.encode content))) [
      | inl blank ↦ let e = ap (λ p. p.1) (rw (named, blank) at h) in cc
      | inr given ↦ replied-ok put_reply _ (rw (named, given, base64.decode-encode content) at h)
    ]
  ]

  -- What was put through the tool, base64-encoded under a key, the tool gets back under that key:
  -- the same encoded content, with its length, its hash and its content type or, if that was empty,
  -- the default one.
  pub file_tool_get-file_tool_put :
      (now : ℕ) (key content content_type : Text) (s t : S) {r : FileReply}
      → file_tool_put bucket hash base64 now
          (put_params (encoded_request key content content_type))
          s
        ≡ (t, ok r)
      → file_tool_get bucket hash base64 (key_params key) t
        ≡ ok (stored_reply key content content_type)
  unfolding file_tool_get string_param get same
  file_tool_get-file_tool_put now key content content_type s t h =
      let (m, stored) = file_tool_put-ok now key content content_type s t h in
      let (meta, found, name, size, type_kept, etag) =
        Store.get-put bucket hash now key content (default_type content_type) s t stored in
      let named =
        (Store.put-ok bucket hash now key content (default_type content_type) s t stored).0 in
      rw (named, found)
        (λ i. ok (record {
          key = name i;
          content = base64.encode content;
          content_type = type_kept i;
          size = size i;
          etag = etag i;
          created = none;
        }))

  -- The tool lists only files whose key begins with the prefix that it was given.
  pub file_tool_list-has_prefix :
      (prefix : Text) (s : S) {files : List FileMeta}
      → file_tool_list bucket hash base64 (field (lit "prefix") (string prefix) empty) s ≡ ok files
      → All (λ m. has_prefix m.key prefix ≡ true) files
  unfolding file_tool_list string_param get same
  file_tool_list-has_prefix prefix s h =
      let (infos, listed) = Store.list-ok bucket hash prefix s h in
      subst (All (λ m. has_prefix m.key prefix ≡ true)) listed (list_infos-has_prefix prefix infos)
