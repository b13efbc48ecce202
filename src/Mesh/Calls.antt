-- ===== src/Mesh/Calls.antt =====
-- pkg/mesh/mesh.go: calls of tools. The caller's side is `Call`, `CallWithContext` and `Stream`, the
-- other side the handler of an endpoint. The JSON codec, NATS and the tool's own handler are
-- arguments; a new id for a call is an argument too.
use jb_mesh.Base.{if◌then◌else◌, Bool, true, false, Option, none, some, List, ◌∷◌, [], ◌++◌}
use jb_mesh.Base.Result.{Result, ok, err}
use jb_mesh.Base.Text.{trim_space, is_empty, Text, lit}
use jb_mesh.Base.Json.{Json, Fields, string, empty, get}
use jb_mesh.Files.Params.{Resolving}

-- `CallRequest`
pub record CallRequest : Type 0 where
  pub params : Fields
  pub corr : Text
  pub call_id : Text

abbrev pub no_request : CallRequest
no_request = record { params = empty; corr = []; call_id = [] }

-- `CallResult`
pub record CallResult : Type 0 where
  pub is_ok : Bool
  pub answer : Option Json
  pub failure : Text
  pub node : Text

-- `StreamFrame`
pub record StreamFrame : Type 0 where
  pub chunk : Option Json
  pub answer : Option Json
  pub is_done : Bool
  pub failure : Text
  pub node : Text

pub data CallError : Type 0 where
  is_cancelled marshal_failed bad_response : CallError
  call_failed : Text → CallError

-- `CancelSubject`
unfoldable pub cancel_subject : Text → Text
cancel_subject call_id = lit "cancel." ++ call_id

-- `StreamSubject`
unfoldable pub stream_subject : Text → Text → Text
stream_subject tool method = lit "tools." ++ (tool ++ (lit "." ++ (method ++ lit ".stream")))

-- `NodeStreamSubject`
unfoldable pub node_stream_subject : Text → Text → Text → Text
unfolding stream_subject
node_stream_subject node tool method =
    lit "node." ++ (node ++ (lit "." ++ stream_subject tool method))

-- The subject of a call, to a node if one is named
unfoldable pub call_subject : Text → Text → Text → Text
call_subject target tool method =
    let subject = lit "tools." ++ (tool ++ (lit "." ++ method)) in
    if is_empty target then subject else lit "node." ++ (target ++ (lit "." ++ subject))

-- A text that is not blank
abbrev pub named_text : Option Json → Option Text
named_text (some (string s)) = if is_empty (trim_space s) then none else some (trim_space s)
named_text _ = none

unfoldable pub first_corr : List Text → Fields → Option Text
unfolding get
first_corr [] params = none
first_corr (key ∷ keys) params =
    let rest = first_corr keys params in
    elim (named_text (get key params)) [ none ↦ rest | some corr ↦ some corr ]

-- `extractCorr`
unfoldable pub extract_corr : Fields → Option Text
unfolding first_corr
extract_corr params = first_corr (lit "corr" ∷ lit "correlation_id" ∷ lit "trace_id" ∷ []) params

abbrev pub text_of : Option Text → Text
text_of none = []
text_of (some s) = s

-- The request that the caller sends
unfoldable pub call_request : Text → Fields → CallRequest
unfolding extract_corr
call_request call_id params = record {
  params = params;
  corr = text_of (extract_corr params);
  call_id = call_id;
}

-- What `CallWithContext` meets after it has sent its request
pub data Outcome : Type 0 where
  answered : Text → Outcome
  unanswered cancelled : Outcome

-- How the caller reads a request and an answer
pub record Codec : Type 0 where
  pub encode_request : CallRequest → Option Text
  pub decode_request : Text → Option CallRequest
  pub encode_result : CallResult → Option Text
  pub decode_result : Text → Option CallResult

module _ (codec : Codec) where
  abbrev pub parsed : Option CallResult → Result CallError CallResult
  parsed none = err bad_response
  parsed (some result) = ok result

  received : Text → Option Text → Result CallError CallResult
  received subject none = err (call_failed subject)
  received subject (some message) = parsed (codec.decode_result message)

  sent : (Text → Text → Option Text) → Text → Option Text → Result CallError CallResult
  unfolding received
  sent send subject none = err marshal_failed
  sent send subject (some request) = received subject (send subject request)

  -- `Call`; `send` is NATS's request and reply
  unfoldable pub call :
      (Text → Text → Option Text) → Text → Text → Text → Fields → Result CallError CallResult
  unfolding sent call_subject call_request
  call send target tool method params =
      sent send (call_subject target tool method) (codec.encode_request (call_request [] params))

  finished : Text → Text → Outcome → Result CallError CallResult × List Text
  finished call_id subject (answered message) = (parsed (codec.decode_result message), [])
  finished call_id subject unanswered = (err (call_failed subject), [])
  finished call_id subject cancelled = (err is_cancelled, cancel_subject call_id ∷ [])

  sent_with_context :
      (Text → Text → Outcome) → Text → Text → Option Text → Result CallError CallResult × List Text
  unfolding finished
  sent_with_context send call_id subject none = (err marshal_failed, [])
  sent_with_context send call_id subject (some request) =
      finished call_id subject (send subject request)

  -- `CallWithContext`: the result, and the subjects of the cancellations that are published
  unfoldable pub call_with_context :
      Bool
      → (Text → Text → Outcome)
      → Text
      → Text
      → Text
      → Text
      → Fields
      → Result CallError CallResult × List Text
  unfolding sent_with_context call_subject call_request
  call_with_context is_done send call_id target tool method params =
      if is_done
      then (err is_cancelled, [])
      else sent_with_context send call_id (call_subject target tool method)
          (codec.encode_request (call_request call_id params))

  abbrev pub replied : Text → Result Text Json → CallResult
  replied node (ok answer) = record {
    is_ok = true;
    answer = some answer;
    failure = [];
    node = node;
  }
  replied node (err failure) = record {
    is_ok = false;
    answer = none;
    failure = failure;
    node = node;
  }

  -- The parameters after the files have been resolved, if there is a file store
  abbrev pub resolved : Option (Fields → Resolving) → Fields → Fields
  resolved none params = params
  resolved (some resolve) params = (resolve params).params

  served :
      Option (Fields → Resolving)
      → (CallRequest → Text → Fields → Result Text Json)
      → Text
      → Text
      → Option CallRequest
      → CallResult
  served resolve handler node method none = replied node (err (lit "invalid request"))
  served resolve handler node method (some req) =
      let params = resolved resolve req.params in
      replied node (handler (record req { params = params }) method params)

  -- The handler of an endpoint and of a subject of the node: its answer, which is empty if the result
  -- cannot be encoded
  unfoldable pub handle_call :
      Option (Fields → Resolving)
      → (CallRequest → Text → Fields → Result Text Json)
      → Text
      → Text
      → Text
      → Text
  unfolding served
  handle_call resolve handler node method message = text_of (
      codec.encode_result (
        served resolve handler node method
          (if is_empty message then some no_request else codec.decode_request message)))

-- What the loop of `Stream` meets: a message, and whether the caller takes its frame before the
-- context ends; or the end of the context.
pub data Arrival : Type 0 where
  message : Text → Bool → Arrival
  context_done : Arrival

-- The frames that the caller gets, and the cancellations that are published
pub record Streamed : Type 0 where
  pub frames : List StreamFrame
  pub cancellations : List Text

abbrev pub parse_failure : StreamFrame
parse_failure = record {
  chunk = none;
  answer = none;
  is_done = true;
  failure = lit "parse frame";
  node = [];
}

abbrev pub cancellation : Text → Streamed
cancellation call_id = record { frames = []; cancellations = cancel_subject call_id ∷ [] }

arrived : Text → Bool → Streamed → Option StreamFrame → Streamed
arrived call_id true rest none = record { frames = parse_failure ∷ []; cancellations = [] }
arrived call_id false rest none = record { frames = []; cancellations = [] }
arrived call_id false rest (some frame) = cancellation call_id
arrived call_id true rest (some frame) =
    if frame.is_done
    then record { frames = frame ∷ []; cancellations = [] }
    else record rest { frames = frame ∷ rest.frames }

-- The loop of `Stream`
unfoldable pub read_stream : (Text → Option StreamFrame) → Text → List Arrival → Streamed
unfolding arrived
read_stream decode call_id [] = record { frames = []; cancellations = [] }
read_stream decode call_id (context_done ∷ arrivals) = cancellation call_id
read_stream decode call_id (message content taken ∷ arrivals) =
    arrived call_id taken (read_stream decode call_id arrivals) (decode content)
