-- ===== src/Mesh/Requests.antt =====
-- pkg/mesh/mesh.go: the requests by which a node is asked to install, update, remove, configure or
-- inspect a tool, or for a tool's schema. A request is sent to its subject on a node, whose handler
-- answers it. The JSON codecs, NATS's request and reply and the handlers are arguments.
use jb_mesh.Base.Int.{ℤ}
use jb_mesh.Base.Result.{Result, err, ok}
use jb_mesh.Base.Text.{split, Text, lit}
use jb_mesh.Base.{Bool, true, false, Option, none, some, List, ◌∷◌, [], ◌++◌}
use jb_mesh.Base.Json.{Fields}

-- `UninstallRequest`
pub record UninstallRequest : Type 0 where
  pub tool_name : Text
  pub remove_env : Bool

-- `UpdateRequest`
pub record UpdateRequest : Type 0 where
  pub tool_name : Text
  pub clean : Bool

-- What an update answers
pub record Updated : Type 0 where
  pub tool_name : Text
  pub old_version : Text
  pub new_version : Text

-- `ConfigRequest`
pub record ConfigRequest : Type 0 where
  pub tool_name : Text
  pub action : Text
  pub values : Option Fields

-- What an installation answers
pub record Installed : Type 0 where
  pub tool_name : Text
  pub version : Text

-- `ReleaseInspectRepoState`
pub record RepoState : Type 0 where
  pub root : Text
  pub resolved_path : Text
  pub branch : Text
  pub commit : Text
  pub upstream : Text
  pub upstream_commit : Text
  pub ahead : ℤ
  pub behind : ℤ
  pub status_short : Text
  pub dirty : Bool

-- `ReleaseInspectInfo`
pub record ReleaseInspectInfo : Type 0 where
  pub tool_name : Text
  pub tool_path : Text
  pub manifest_version : Text
  pub repo : Option RepoState

-- A result with the fields that all results have: `UninstallResult`, `UpdateResult`, `ConfigResult`,
-- `InstallResult`, `ReleaseInspectResult` and `SchemaResult`, whose own fields are the content. A
-- schema's result does not name the node.
pub record Reply (A : Type 0) : Type 0 where
  pub is_ok : Bool
  pub content : Option A
  pub failure : Text
  pub node : Text

-- The encodings of a kind of requests and of their results
pub record RequestCodec (Q A : Type 0) : Type 0 where
  pub encode_request : Q → Option Text
  pub decode_request : Text → Option Q
  pub encode_reply : Reply A → Option Text
  pub decode_reply : Text → Option (Reply A)

pub data RequestError : Type 0 where
  marshal_failed bad_response : RequestError
  request_failed : Text → RequestError

-- The subject of a kind of requests on a node
unfoldable pub node_subject : Text → Text → Text
node_subject kind node = lit "node." ++ (node ++ (b'.' ∷ kind))

unfoldable pub schema_subject : Text → Text → Text
schema_subject node tool = lit "node." ++ (node ++ (lit ".tools." ++ (tool ++ lit ".schema")))

abbrev pub or_empty : Option Text → Text
or_empty none = []
or_empty (some s) = s

module _ {Q A : Type 0} (codec : RequestCodec Q A) where
  abbrev pub reply_of : Text → Result Text A → Reply A
  reply_of node (ok a) = record { is_ok = true; content = some a; failure = []; node = node }
  reply_of node (err e) = record { is_ok = false; content = none; failure = e; node = node }

  answer_request : (Q → Result Text A) → Text → Option Q → Reply A
  answer_request handler node none = reply_of node (err (lit "invalid request"))
  answer_request handler node (some req) = reply_of node (handler req)

  -- The handler of a kind of requests on a node: its answer, empty if it cannot be encoded
  unfoldable pub serve : (Q → Result Text A) → Text → Text → Text
  unfolding answer_request
  serve handler node message =
      or_empty (codec.encode_reply (answer_request handler node (codec.decode_request message)))

  abbrev pub parsed_reply : Option (Reply A) → Result RequestError (Reply A)
  parsed_reply none = err bad_response
  parsed_reply (some r) = ok r

  received : Text → Option Text → Result RequestError (Reply A)
  received node none = err (request_failed node)
  received node (some message) = parsed_reply (codec.decode_reply message)

  -- A request to a subject of a node
  sent : (Text → Text → Option Text) → Text → Text → Option Text → Result RequestError (Reply A)
  unfolding received
  sent send subject node none = err marshal_failed
  sent send subject node (some message) = received node (send subject message)

  unfoldable pub ask : (Text → Text → Option Text) → Text → Text → Q → Result RequestError (Reply A)
  unfolding sent
  ask send subject node req = sent send subject node (codec.encode_request req)

-- `SubscribeUninstall`
unfoldable pub serve_uninstall :
    RequestCodec UninstallRequest (Unit {0})
    → (Text → Bool → Result Text (Unit {0}))
    → Text
    → Text
    → Text
unfolding serve
serve_uninstall codec handler node message =
    serve codec (λ req. handler req.tool_name req.remove_env) node message

-- `RequestUninstall`
unfoldable pub request_uninstall :
    RequestCodec UninstallRequest (Unit {0})
    → (Text → Text → Option Text)
    → Text
    → Text
    → Bool
    → Result RequestError (Reply (Unit {0}))
unfolding ask node_subject
request_uninstall codec send node tool remove_env =
    ask codec send (node_subject (lit "uninstall") node) node
      (record { tool_name = tool; remove_env = remove_env })

abbrev pub updated : Text → Result Text (Text × Text) → Result Text Updated
updated tool (ok (old, new)) =
    ok (record { tool_name = tool; old_version = old; new_version = new })
updated tool (err e) = err e

-- `SubscribeUpdate`
unfoldable pub serve_update :
    RequestCodec UpdateRequest Updated
    → (Text → Bool → Result Text (Text × Text))
    → Text
    → Text
    → Text
unfolding serve
serve_update codec handler node message =
    serve codec (λ req. updated req.tool_name (handler req.tool_name req.clean)) node message

-- `RequestUpdate`
unfoldable pub request_update :
    RequestCodec UpdateRequest Updated
    → (Text → Text → Option Text)
    → Text
    → Text
    → Bool
    → Result RequestError (Reply Updated)
unfolding ask node_subject
request_update codec send node tool clean =
    ask codec send (node_subject (lit "update") node) node
      (record { tool_name = tool; clean = clean })

-- `SubscribeConfig`
unfoldable pub serve_config :
    RequestCodec ConfigRequest Fields
    → (Text → Text → Option Fields → Result Text Fields)
    → Text
    → Text
    → Text
unfolding serve
serve_config codec handler node message =
    serve codec (λ req. handler req.tool_name req.action req.values) node message

-- `RequestConfig`
unfoldable pub request_config :
    RequestCodec ConfigRequest Fields
    → (Text → Text → Option Text)
    → Text
    → Text
    → Text
    → Option Fields
    → Result RequestError (Reply Fields)
unfolding ask node_subject
request_config codec send node tool action values =
    ask codec send (node_subject (lit "config") node) node
      (record { tool_name = tool; action = action; values = values })

-- `SubscribeReleaseInspect`
unfoldable pub serve_release_inspect :
    RequestCodec Text ReleaseInspectInfo
    → (Text → Result Text ReleaseInspectInfo)
    → Text
    → Text
    → Text
unfolding serve
serve_release_inspect codec handler node message = serve codec handler node message

-- `RequestReleaseInspect`
unfoldable pub request_release_inspect :
    RequestCodec Text ReleaseInspectInfo
    → (Text → Text → Option Text)
    → Text
    → Text
    → Result RequestError (Reply ReleaseInspectInfo)
unfolding ask node_subject
request_release_inspect codec send node tool =
    ask codec send (node_subject (lit "release.inspect") node) node tool

abbrev pub installed : Result Text (Text × Text) → Result Text Installed
installed (ok (tool, version)) = ok (record { tool_name = tool; version = version })
installed (err e) = err e

-- `SubscribeInstall`
unfoldable pub serve_install :
    RequestCodec Text Installed → (Text → Result Text (Text × Text)) → Text → Text → Text
unfolding serve
serve_install codec handler node message =
    serve codec (λ source. installed (handler source)) node message

-- `RequestInstall`
unfoldable pub request_install :
    RequestCodec Text Installed
    → (Text → Text → Option Text)
    → Text
    → Text
    → Result RequestError (Reply Installed)
unfolding ask node_subject
request_install codec send node source =
    ask codec send (node_subject (lit "install") node) node source

-- The tool that the subject of a request for a schema names
unfoldable pub schema_tool : List Text → Option Text
schema_tool (a ∷ b ∷ c ∷ tool ∷ e ∷ rest) = some tool
schema_tool _ = none

schema_reply : (Text → Result Text Fields) → Option Text → Reply Fields
schema_reply handler none = record {
  is_ok = false;
  content = none;
  failure = lit "invalid subject format";
  node = [];
}
schema_reply handler (some tool) = elim (handler tool) [
  | ok schema ↦ record { is_ok = true; content = some schema; failure = []; node = [] }
  | err e ↦ record { is_ok = false; content = none; failure = e; node = [] }
]

-- `SubscribeToolSchema`, for a request on a subject
unfoldable pub serve_tool_schema : (Text → Result Text Fields) → Text → Reply Fields
unfolding schema_reply schema_tool
serve_tool_schema handler subject = schema_reply handler (schema_tool (split 46 subject))

schema_received :
    (Text → Option (Reply Fields)) → Text → Option Text → Result RequestError (Reply Fields)
schema_received decode node none = err (request_failed node)
schema_received decode node (some message) = elim (decode message) [
  | none ↦ err bad_response
  | some r ↦ ok r
]

-- `GetToolSchema`
unfoldable pub get_tool_schema :
    (Text → Option (Reply Fields))
    → (Text → Text → Option Text)
    → Text
    → Text
    → Result RequestError (Reply Fields)
unfolding schema_received schema_subject
get_tool_schema decode send node tool =
    schema_received decode node (send (schema_subject node tool) [])
