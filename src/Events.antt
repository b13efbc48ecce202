-- ===== src/Events.antt =====
-- pkg/events/events.go: the events of tools and nodes, what `Emit` publishes, what a subscriber is
-- given, and the history that a stream keeps. The clock, the JSON codec and NATS are arguments.
use jb_mesh.Base.{if◌then◌else◌, ◌*◌, ℕ, zero, suc, Bool, Option, none, some, List, ◌∷◌, [], ◌++◌}
use jb_mesh.Base.Int.{negsuc, int_ltb, int_eqb, ℤ, pos}
use jb_mesh.Base.Result.{err, ok, Result}
use jb_mesh.Base.Text.{is_empty, Text, lit}
use jb_mesh.Base.Json.{Fields, string, number, object, empty, field}
use jb_mesh.Base.Decimal.{itoa}

pub record Event : Type 0 where
  pub event_type : Text
  pub node : Text
  pub timestamp : ℕ
  pub content : Option Fields

abbrev event : Text → Text → Fields → Event
event event_type node m = record {
  event_type = event_type;
  node = node;
  timestamp = 0;
  content = some m;
}

-- `ToolInstalled`
unfoldable pub tool_installed : Text → Text → Text → Event
tool_installed node tool version =
    event (lit "tool.installed") node
      (field (lit "tool") (string tool) (field (lit "version") (string version) empty))

-- `ToolConfigured`
unfoldable pub tool_configured : Text → Text → Fields → Event
tool_configured node tool config =
    event (lit "tool.configured") node
      (field (lit "tool") (string tool) (field (lit "config") (object config) empty))

-- `ToolStarted`
unfoldable pub tool_started : Text → Text → Event
tool_started node tool = event (lit "tool.started") node (field (lit "tool") (string tool) empty)

-- `ToolStopped`
unfoldable pub tool_stopped : Text → Text → Text → Event
tool_stopped node tool reason =
    event (lit "tool.stopped") node
      (field (lit "tool") (string tool) (field (lit "reason") (string reason) empty))

-- `ToolCrashed`
unfoldable pub tool_crashed : Text → Text → Text → ℤ → Event
tool_crashed node tool message restart_count = event (lit "tool.crashed") node (
    field (lit "tool") (string tool) (
      field (lit "error") (string message)
        (field (lit "restart_count") (number (itoa restart_count)) empty)))

-- `ToolRemoved`
unfoldable pub tool_removed : Text → Text → Event
tool_removed node tool = event (lit "tool.removed") node (field (lit "tool") (string tool) empty)

-- `NodeJoined`
unfoldable pub node_joined : Text → Fields → Event
node_joined node capabilities =
    event (lit "node.joined") node (field (lit "capabilities") (object capabilities) empty)

-- `NodeLeft`
unfoldable pub node_left : Text → Text → Event
node_left node reason = event (lit "node.left") node (field (lit "reason") (string reason) empty)

-- `NodeHealth`
unfoldable pub node_health : Text → Text → Fields → Event
node_health node status resources =
    event (lit "node.health") node
      (field (lit "status") (string status) (field (lit "resources") (object resources) empty))

-- `UserEvent`
unfoldable pub user_event : Text → Text → Option Fields → Event
user_event node topic content = record {
  event_type = lit "user." ++ topic;
  node = node;
  timestamp = 0;
  content = content;
}

pub data EventError : Type 0 where
  marshal_failed : EventError
  publish_failed subscribe_failed : Text → EventError
  no_stream : EventError

-- What an event carries when it is published
abbrev pub stamped : Text → ℕ → Event → Event
stamped bus_node now e = record e {
  timestamp = now;
  node = if is_empty e.node then bus_node else e.node;
}

published : (Text → Text → Bool) → Text → Option Text → Result EventError (Text × Text)
published publish subject none = err marshal_failed
published publish subject (some message) =
    if publish subject message then ok (subject, message) else err (publish_failed subject)

-- `Emit`: the subject and the message that are published
unfoldable pub emit :
    (Event → Option Text)
    → (Text → Text → Bool)
    → Text
    → ℕ
    → Event
    → Result EventError (Text × Text)
unfolding published
emit encode publish bus_node now e =
    published publish (lit "events." ++ e.event_type) (encode (stamped bus_node now e))

-- `Subscribe`: the calls of its handler, for the messages that arrive
unfoldable pub deliver : (Text → Option Event) → List Text → List Event
deliver decode [] = []
deliver decode (message ∷ messages) =
    let rest = deliver decode messages in elim (decode message) [ none ↦ rest | some e ↦ e ∷ rest ]

-- `SubscribeType`: its pattern
unfoldable pub type_pattern : Text → Text
type_pattern event_type = lit "events." ++ event_type

-- The loop of `History` and `HistorySince`, over the messages that the stream delivers
unfoldable pub read_history : (Text → Option Event) → ℕ → List Text → List Event
read_history decode zero messages = []
read_history decode (suc n) [] = []
read_history decode (suc n) (message ∷ messages) =
    let rest = read_history decode n messages in
    elim (decode message) [ none ↦ rest | some e ↦ e ∷ rest ]

-- `History` and `HistorySince`; without a subscription there are no messages
unfoldable pub history :
    (Text → Option Event) → Text → ℤ → Option (List Text) → Result EventError (List Event)
unfolding read_history
history decode filter limit none = err (subscribe_failed filter)
history decode filter (negsuc n) (some messages) = ok []
history decode filter (pos n) (some messages) = ok (read_history decode n messages)

pub record PersistConfig : Type 0 where
  pub stream_name : Text
  pub max_age : ℤ
  pub max_msgs : ℤ

pub record StreamConfig : Type 0 where
  pub name : Text
  pub subjects : List Text
  pub max_age : ℤ
  pub max_msgs : ℤ

abbrev pub nanoseconds_per_day : ℤ
nanoseconds_per_day = pos (24 * (3600 * (1000 * (1000 * 1000))))

-- `DefaultPersistConfig`
unfoldable pub default_persist_config : PersistConfig
default_persist_config = record {
  stream_name = lit "MESH_EVENTS";
  max_age = nanoseconds_per_day;
  max_msgs = pos 10000;
}

-- The stream that `NewPersistentBus` asks for
unfoldable pub stream_config : PersistConfig → StreamConfig
stream_config cfg = record {
  name = if is_empty cfg.stream_name then lit "MESH_EVENTS" else cfg.stream_name;
  subjects = lit "events.>" ∷ [];
  max_age = if int_eqb cfg.max_age (pos 0) then nanoseconds_per_day else cfg.max_age;
  max_msgs = if int_ltb (pos 0) cfg.max_msgs then cfg.max_msgs else pos 0;
}

-- `NewPersistentBus`: the name of the stream
unfoldable pub new_persistent_bus : (StreamConfig → Bool) → PersistConfig → Result EventError Text
unfolding stream_config
new_persistent_bus add_stream cfg =
    if add_stream (stream_config cfg) then ok (stream_config cfg).name else err no_stream
