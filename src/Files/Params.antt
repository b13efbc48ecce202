-- ===== src/Files/Params.antt =====
-- pkg/mesh/file_resolve.go: `ResolveFileParams`, which downloads the files that the parameters of a
-- call name. What the local store and `files.get` of another node answer, a content and its type, and
-- the temporary files are arguments; `none` in place of the other node is that there is none.
use jb_mesh.Base.{
  if◌then◌else◌, ◌==◌, any, length, ℕ, Bool, Option, none, some, List, ◌∷◌, [], ◌++◌, not, ◌&&◌,
  ◌||◌,
}
use jb_mesh.Base.Text.{same, has_prefix, to_lower, has_byte, contains, is_empty, Text, lit}
use jb_mesh.Base.Json.{Json, Fields, string, empty, field}

-- `fileParamNames`
abbrev pub file_param_names : List Text
file_param_names =
    lit "audio"
    ∷ lit "image"
    ∷ lit "file"
    ∷ lit "input_file"
    ∷ lit "video"
    ∷ lit "document"
    ∷ lit "attachment"
    ∷ lit "photo"
    ∷ lit "path"
    ∷ lit "filepath"
    ∷ lit "file_path"
    ∷ lit "input_path"
    ∷ lit "input"
    ∷ lit "source"
    ∷ []

-- A value that may be the key of a file
unfoldable pub is_file_key : Text → Bool
is_file_key value =
    not (
      has_prefix value (lit "/")
      || has_prefix value (lit "~/")
      || has_prefix value (lit "./")
      || has_prefix value (lit "http://")
      || has_prefix value (lit "https://"))
    && contains value (lit "/")

unfoldable pub is_file_param : Text → Text → Bool
unfolding is_file_key
is_file_param key value =
    not (is_empty value) && any (same (to_lower key)) file_param_names && is_file_key value

-- `filepath.Ext`: the text from the last dot of the last element of a path
unfoldable pub file_ext : Text → Option Text
file_ext [] = none
file_ext (c ∷ s) = elim (file_ext s) [
  | some ext ↦ some ext
  | none ↦ if c == 46 && not (has_byte 47 s) then some (c ∷ s) else none
]

-- The extension of a temporary file
unfoldable pub temp_ext : Text → Text → Text
unfolding file_ext
temp_ext key content_type = elim (file_ext key) [
  | some ext ↦ ext
  | none ↦
      if contains content_type (lit "ogg")
      then lit ".ogg"
      else if contains content_type (lit "wav")
      then lit ".wav"
      else if contains content_type (lit "mp3")
      then lit ".mp3"
      else lit ".bin"
]

-- `create` makes a temporary file of an extension, given how many there are.
pub record Temp : Type 0 where
  pub create : ℕ → Text → Option Text
  pub write : Text → Text → Bool

pub data ResolveError : Type 0 where
  no_temp_file write_failed : ResolveError

-- The parameters, and the temporary files that have been made
pub record Resolving : Type 0 where
  pub params : Fields
  pub temp_files : List Text
  pub failure : Option ResolveError

abbrev pub kept : Text → Json → Resolving → Resolving
kept key value r = record r { params = field key value r.params }

module _ (store : Text → Option (Text × Text)) (remote : Option (Text → Option (Text × Text)))
    (temp : Temp) where
  -- The file of a key: that of the local store, or else that of the other node
  unfoldable pub fetch_file : Text → Option (Text × Text)
  fetch_file key = elim (store key) [
    | some found ↦ some found
    | none ↦ elim remote [ none ↦ none | some request ↦ request key ]
  ]

  -- A file that has been downloaded, and then the parameters after it
  saved :
      Text → Text → Text → List Text → Fields → (List Text → Resolving) → Option Text → Resolving
  saved key value content files m rest none = record {
    params = field key (string value) m;
    temp_files = files;
    failure = some no_temp_file;
  }
  saved key value content files m rest (some name) =
      if temp.write name content
      then kept key (string name) (rest (files ++ name ∷ []))
      else record {
        params = field key (string value) m;
        temp_files = files;
        failure = some write_failed;
      }

  downloaded :
      Text → Text → List Text → Fields → (List Text → Resolving) → Option (Text × Text) → Resolving
  unfolding saved temp_ext
  downloaded key value files m rest none = kept key (string value) (rest files)
  downloaded key value files m rest (some (content, content_type)) =
      saved key value content files m rest
        (temp.create (length files) (temp_ext value content_type))

  -- One parameter, and then the parameters after it
  resolve_one : Text → Json → List Text → Fields → (List Text → Resolving) → Resolving
  unfolding downloaded fetch_file is_file_param
  resolve_one key (string value) files m rest =
      if is_file_param key value
      then downloaded key value files m rest (fetch_file value)
      else kept key (string value) (rest files)
  resolve_one key value files m rest = kept key value (rest files)

  -- The loop over the parameters, given the temporary files made so far
  unfoldable pub resolve_params : Fields → List Text → Resolving
  unfolding resolve_one
  resolve_params empty files = record { params = empty; temp_files = files; failure = none }
  resolve_params (field key value m) files = resolve_one key value files m (resolve_params m)

  -- `ResolveFileParams`; the temporary files are those that the cleanup removes, and after a failure,
  -- when there is no cleanup, those that stay.
  unfoldable pub resolve_file_params : Fields → Resolving
  unfolding resolve_params
  resolve_file_params params = resolve_params params []
