-- ===== src/Node/Streams.antt =====
-- pkg/node/node.go: the handlers of a node for calls and for streams of a tool's methods. What the
-- executor answers, the JSON codec and NATS are arguments; a handler returns what it publishes, and
-- the log record that it makes.
pub mod Frames
use jb_mesh.Base.{
  if◌then◌else◌, length, is_some, ℕ, suc, Bool, true, false, Option, none, some, List, ◌∷◌, [],
  ◌++◌, not, ◌&&◌, ◌||◌,
}
use jb_mesh.Base.Text.{is_empty, trim_space, same, Text, lit}
use jb_mesh.Base.Result.{ok, Result, err}
use jb_mesh.Base.Json.{Json, Fields, string, boolean, empty, field, get, add}
use jb_mesh.Mesh.Calls.{CallRequest, no_request, cancel_subject}
use jb_mesh.Logstore.Normalize.{as_string}

-- The correlation id of a call: that of the request, or else that of the parameters
unfoldable pub call_corr : CallRequest → Text
unfolding get
call_corr req =
    if is_empty (trim_space req.corr)
    then trim_space (as_string (get (lit "corr") req.params))
    else trim_space req.corr

-- The subject that a call can be cancelled by, if it has an id
unfoldable pub cancelled_by : CallRequest → Option Text
unfolding cancel_subject
cancelled_by req =
    if is_empty (trim_space req.call_id)
    then none
    else some (cancel_subject (trim_space req.call_id))

pub record CallLog : Type 0 where
  pub level : Text
  pub corr : Text
  pub is_ok : Bool
  pub frames : ℕ

-- `delete(frame, key)`
unfoldable pub without_key : Text → Fields → Fields
without_key key empty = empty
without_key key (field j v m) =
    let rest = without_key key m in if same j key then rest else field j v rest

-- `if _, ok := frame[key]; !ok { frame[key] = value }`
unfoldable pub with_default : Text → Json → Fields → Fields
unfolding get add
with_default key value m = elim (get key m) [ none ↦ add key value m | some v ↦ m ]

-- A frame as it is passed on
unfoldable pub stamped_frame : Text → Fields → Fields
unfolding without_key with_default
stamped_frame node frame =
    with_default (lit "node") (string node) (without_key (lit "request_id") frame)

-- What a loop over frames has published, and whether a publication failed
pub record Pumped : Type 0 where
  pub messages : List Text
  pub has_failed : Bool

-- `publish` says of a message whether it can be published after those that were published before.
module _ (encode : Fields → Option Text) (publish : List Text → Text → Bool) (node : Text) where
  -- The loop over the frames, after the messages that it has published: a frame that cannot be encoded
  -- is passed over, and the loop ends at the first message that cannot be published.
  unfoldable pub pump_frames : List Text → List Fields → Pumped
  unfolding stamped_frame
  pump_frames sent [] = record { messages = []; has_failed = false }
  pump_frames sent (frame ∷ frames) = elim (encode (stamped_frame node frame)) [
    | none ↦ pump_frames sent frames
    | some message ↦
        let rest = pump_frames (sent ++ message ∷ []) frames in
        if publish sent message
        then record rest { messages = message ∷ rest.messages }
        else record { messages = []; has_failed = true }
  ]

  abbrev pub error_frame : Text → Fields
  error_frame message =
      field (lit "error") (string message)
        (field (lit "done") (boolean true) (field (lit "node") (string node) empty))

  abbrev pub published_error : Option Text → List Text
  published_error none = []
  published_error (some message) = if publish [] message then message ∷ [] else []

  -- `publishStreamErrorFrame`
  unfoldable pub publish_stream_error_frame : Text → Text → List Text
  publish_stream_error_frame reply message =
      if is_empty reply then [] else published_error (encode (error_frame message))

  streamed : CallRequest → Text → Bool → Result Text (List Fields) → List Text × Option CallLog
  unfolding pump_frames publish_stream_error_frame call_corr
  streamed req reply cancelled (err message) = (
    publish_stream_error_frame reply message,
    some (record { level = lit "error"; corr = call_corr req; is_ok = false; frames = 0 }),
  )
  streamed req reply cancelled (ok frames) =
      let pumped = pump_frames [] frames in
      let failed = pumped.has_failed || cancelled in
      (
        pumped.messages,
        some (record {
          level = if failed then lit "error" else lit "info";
          corr = call_corr req;
          is_ok = not failed;
          frames = length pumped.messages;
        }),
      )

  requested :
      (CallRequest → Result Text (List Fields))
      → Text
      → Bool
      → Option CallRequest
      → List Text × Option CallLog
  unfolding streamed publish_stream_error_frame
  requested call reply cancelled none =
      (publish_stream_error_frame reply (lit "invalid request"), none)
  requested call reply cancelled (some req) = streamed req reply cancelled (call req)

  -- `handleStreamRequest`: the published frames, and the log record. `call` is the executor's
  -- `CallStream`, and `cancelled` says whether the call was cancelled before it ended.
  unfoldable pub handle_stream_request :
      (Text → Option CallRequest)
      → (CallRequest → Result Text (List Fields))
      → Bool
      → Text
      → Text
      → List Text × Option CallLog
  unfolding requested
  handle_stream_request decode call cancelled reply content =
      requested call reply cancelled (if is_empty content then some no_request else decode content)

-- `levelForCall`
unfoldable pub level_for_call : Option Text → Text
level_for_call none = lit "info"
level_for_call (some e) = lit "error"

-- `messageForCall`
unfoldable pub message_for_call : Text → Text → Option Text → Text
message_for_call tool method none = tool ++ (lit "." ++ (method ++ lit " completed"))
message_for_call tool method (some e) = tool ++ (lit "." ++ (method ++ lit " failed"))

-- The handler of a call, that `registerTool` gives to the mesh client: what the executor returns is
-- its answer, and this is its log record.
unfoldable pub call_log : CallRequest → Option Text → CallLog
unfolding level_for_call call_corr
call_log req failure = record {
  level = level_for_call failure;
  corr = call_corr req;
  is_ok = not (is_some failure);
  frames = 0;
}
