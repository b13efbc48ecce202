-- ===== src/Files/Store.antt =====
-- pkg/filestore/filestore.go: `Store`, a layer over a NATS object store. The object store is an
-- interface, `Bucket`, with what its documentation promises as laws; the SHA-256 of the content is
-- a function `hash`, and the time of a put is an argument.
use jb_mesh.Base.{
  true, inr, inl, Option-cases, false, refl, ap, ◌&&◌, some, if◌then◌else◌, length, [], Bool, List,
  none, ◌∷◌, Option, take, ◌||◌, ◌≡◌, leb, ℕ, not,
}
use jb_mesh.Base.Result.{ok-injective, ok, Result, err}
use jb_mesh.Base.Text.{lit, Text, is_empty, same}

pub record ObjectInfo : Type 0 where
  pub name : Text
  pub size : ℕ
  pub headers : Option (Text × Text)
  pub mod_time : ℕ
  pub deleted : Bool

-- The name, size and headers that a stored object has.
abbrev pub Describes : ObjectInfo → Text → Text × Text → Text → Type 0
Describes info key headers content =
    (info.name ≡ key) × (info.size ≡ length content) × (info.headers ≡ some headers)

-- An object store with states in `S`; `none` is an error, and so is a change that answers false, of
-- which nothing is said of what it leaves. The headers are those of the content type and the etag.
-- What `get` opens is read in two steps, its content and its description.
pub record Bucket (S : Type 0) : Type 0 where
  pub put : Text → Text × Text → Text → S → S × Bool
  pub get : Text → S → Option (Option Text × Option ObjectInfo)
  pub get_info : Text → S → Option ObjectInfo
  pub delete : Text → S → S × Bool
  pub list : S → Option (List ObjectInfo)
  pub get-put :
      (key : Text) (headers : Text × Text) (content : Text) (s t : S)
      → put key headers content s ≡ (t, true)
      → (info : ObjectInfo) × Describes info key headers content
        × (get key t ≡ some (some content, some info))

pub record FileMeta : Type 0 where
  pub key : Text
  pub size : ℕ
  pub content_type : Text
  pub etag : Text
  pub created : ℕ

pub data FileError : Type 0 where
  is_required not_a_string unknown_method : Text → FileError
  invalid_request invalid_base64 put_failed get_failed read_failed info_failed : FileError
  head_failed delete_failed list_failed : FileError
  reply_failed : Text → FileError → FileError

-- `infoToMeta`
unfoldable pub info_to_meta : ObjectInfo → FileMeta
info_to_meta info = record {
  key = info.name;
  size = info.size;
  content_type = elim info.headers [ none ↦ [] | some h ↦ h.0 ];
  etag = elim info.headers [ none ↦ [] | some h ↦ h.1 ];
  created = info.mod_time;
}

-- `hasPrefix`
unfoldable pub has_key_prefix : Text → Text → Bool
has_key_prefix s prefix = leb (length prefix) (length s) && same (take (length prefix) s) prefix

-- An object that the listing shows.
abbrev pub is_listed : Text → ObjectInfo → Bool
is_listed prefix info = not info.deleted && (is_empty prefix || has_key_prefix info.name prefix)

unfoldable pub list_infos : Text → List ObjectInfo → List FileMeta
unfolding info_to_meta
list_infos prefix [] = []
list_infos prefix (info ∷ infos) =
    let rest = list_infos prefix infos in
    if is_listed prefix info then info_to_meta info ∷ rest else rest

module _ {S : Type 0} (bucket : Bucket S) (hash : Text → Text) where
  -- What the bucket's answer to a put makes of it.
  unfoldable pub put_answer : FileMeta → S × Bool → S × Result FileError FileMeta
  put_answer meta (t, false) = (t, err put_failed)
  put_answer meta (t, true) = (t, ok meta)

  -- `Put`
  unfoldable pub put : ℕ → Text → Text → Text → S → S × Result FileError FileMeta
  unfolding put_answer
  put now key content content_type s =
      let etag = hash content in
      let meta : FileMeta = record {
        key = key;
        size = length content;
        content_type = content_type;
        etag = etag;
        created = now;
      } in
      if is_empty key
      then (s, err (is_required (lit "key")))
      else put_answer meta (bucket.put key (content_type, etag) content s)

  read_object : Option (Option Text × Option ObjectInfo) → Result FileError (Text × FileMeta)
  unfolding info_to_meta
  read_object none = err get_failed
  read_object (some (none, info)) = err read_failed
  read_object (some (some content, none)) = err info_failed
  read_object (some (some content, some info)) = ok (content, info_to_meta info)

  -- `Get`
  unfoldable pub get : Text → S → Result FileError (Text × FileMeta)
  unfolding read_object
  get key s = read_object (bucket.get key s)

  -- `Head`
  unfoldable pub head : Text → S → Result FileError FileMeta
  unfolding info_to_meta
  head key s = elim (bucket.get_info key s) [
    | none ↦ err head_failed
    | some info ↦ ok (info_to_meta info)
  ]

  -- What the bucket's answer makes of a deletion.
  delete_answer : S × Bool → S × Result FileError (Unit {0})
  delete_answer (t, false) = (t, err delete_failed)
  delete_answer (t, true) = (t, ok tt)

  -- `Delete`
  unfoldable pub delete : Text → S → S × Result FileError (Unit {0})
  unfolding delete_answer
  delete key s = delete_answer (bucket.delete key s)

  -- `List`; that there are no objects is no error, and the bucket's answer is then the empty list
  unfoldable pub list : Text → S → Result FileError (List FileMeta)
  unfolding list_infos
  list prefix s = elim (bucket.list s) [
    | none ↦ err list_failed
    | some infos ↦ ok (list_infos prefix infos)
  ]

  put_answer-ok :
      (meta : FileMeta) (t : S) (p : S × Bool) {m : FileMeta}
      → put_answer meta p ≡ (t, ok m)
      → p ≡ (t, true)
  unfolding put_answer
  put_answer-ok meta t (u, false) h = let e = ap (λ p. p.1) h in cc
  put_answer-ok meta t (u, true) h = ap (λ p. (p.0, true)) h

  -- A put that succeeds has a key, and the bucket has taken the content.
  pub put-ok :
      (now : ℕ) (key content content_type : Text) (s t : S) {m : FileMeta}
      → put now key content content_type s ≡ (t, ok m)
      → (is_empty key ≡ false) × (bucket.put key (content_type, hash content) content s ≡ (t, true))
  unfolding put
  put-ok now [] content content_type s t h = let e = ap (λ p. p.1) h in cc
  put-ok now (c ∷ key) content content_type s t h = (refl, put_answer-ok _ t _ h)

  -- What a put stored is what a get finds.
  pub get-put :
      (now : ℕ) (key content content_type : Text) (s t : S) {m : FileMeta}
      → put now key content content_type s ≡ (t, ok m)
      → (meta : FileMeta) × (get key t ≡ ok (content, meta))
        × (meta.key ≡ key)
        × (meta.size ≡ length content)
        × (meta.content_type ≡ content_type)
        × (meta.etag ≡ hash content)
  unfolding get read_object info_to_meta
  get-put now key content content_type s t h =
      let (info, (name, size, headers), found) =
        bucket.get-put key (content_type, hash content) content s t
          (put-ok now key content content_type s t h).1 in
      (
        info_to_meta info,
        ap read_object found,
        name,
        size,
        ap (λ o. elim o [ none ↦ [] | some h ↦ h.0 ]) headers,
        ap (λ o. elim o [ none ↦ [] | some h ↦ h.1 ]) headers,
      )

  -- The files that `list` shows.
  pub list-ok :
      (prefix : Text) (s : S) {files : List FileMeta}
      → list prefix s ≡ ok files
      → (infos : List ObjectInfo) × (list_infos prefix infos ≡ files)
  unfolding list
  list-ok prefix s h = elim (Option-cases (bucket.list s)) [
    | inl no_list ↦ let h' = rw (no_list, list) at h in cc
    | inr (infos, listed) ↦ (infos, ok-injective (rw (listed, list) at h))
  ]
