-- ===== src/Tests/Starts.antt =====
-- The start of a node that finds a seed, and a stream of one frame.
use jb_mesh.Base.Text.{split, trim_space, same, lit, Text}
use jb_mesh.Base.Int.{pos}
use jb_mesh.Base.{
  length, ◌||◌, not, Bool, true, false, Option, none, some, List, ◌∷◌, [], ◌≡◌, refl,
}
use jb_mesh.Base.Result.{ok}
use jb_mesh.Base.Json.{Fields, string, empty, field}
use jb_mesh.Base.Decimal.{itoa}
use jb_mesh.Discovery.Peers.{Peer}
use jb_mesh.Node.Start.{NodeConfig, NatsConfig, ServerOptions, joins, listens, new_options}
use jb_mesh.Node.Start.Roles.{Follows, IsGuarded, new_options-Follows}
use jb_mesh.Tests.Access.{wanted, prepared}
use jb_mesh.Node.Authorization.{prepare_authorization}
use jb_mesh.Node.Authorization.Users.{authorization_users}
use jb_mesh.Node.Authorization.Subjects.{validate_subject_subtree}
use jb_mesh.Mesh.Calls.{no_request}
use jb_mesh.Node.Streams.{CallLog, handle_stream_request}
use jb_mesh.Node.Streams.Frames.{IsPassedOn, encoded_frames, handle_stream_request-IsPassedOn}

abbrev seed : Peer
seed = record {
  name = lit "n1";
  host = lit "h";
  port = pos 4222;
  leaf_port = pos 0;
  role = lit "seed";
  ip = lit "10.0.0.1";
  version = lit "v1";
  tool_count = pos 0;
  started_at = pos 5;
}

abbrev config : NodeConfig
config = record {
  node_name = lit "n2";
  nats_url = [];
  token = lit "t";
  username = [];
  password = [];
  authorization = record {
    enabled = false;
    principals = [];
    internal_username = [];
    internal_password = [];
  };
  role = [];
  leaf_address = [];
  no_mdns = false;
  embed_port = pos 0;
  embed_host = [];
  leaf_port = pos 0;
  leaf_host = [];
  websocket_host = [];
  websocket_port = pos 0;
}

abbrev file : NatsConfig
file = record { embed_port = pos 0; embed_host = []; leaf_host = []; store_dir = lit "/js" }

abbrev options : ServerOptions
options = record {
  host = lit "0.0.0.0";
  port = pos 4222;
  server_name = lit "n2";
  store_dir = lit "/js";
  authorization = lit "t";
  users = [];
  websocket = none;
  leaf_node = joins (lit "nats-leaf://10.0.0.1:7422" ∷ []);
}

new_options_test : new_options (λ s. some s) none file config (some (seed ∷ [])) ≡ ok options
unfolding new_options trim_space same itoa
new_options_test = refl

-- The node of that configuration with typed authorization, and no peers: a seed with two users
abbrev secured_config : NodeConfig
secured_config = record config { token = []; authorization = wanted }

abbrev secured_options : ServerOptions
secured_options = record options {
  authorization = [];
  users = authorization_users prepared;
  leaf_node = listens (lit "0.0.0.0") (pos 7422);
}

secured_test : new_options (λ s. some s) none file secured_config (some []) ≡ ok secured_options
unfolding new_options trim_space same itoa prepare_authorization split validate_subject_subtree
secured_test = refl

new_options-Follows_example :
    Follows (λ s. some s) [] secured_options.leaf_node
    × IsGuarded none secured_config secured_options
new_options-Follows_example =
    new_options-Follows (λ s. some s) none file secured_config [] secured_options refl refl
      secured_test

abbrev first_text : Fields → Option Text
first_text m = some (lit "frame")

abbrev frames : List Fields
frames = field (lit "request_id") (string (lit "7")) empty ∷ []

handle_stream_request-IsPassedOn_example :
    (has_failed : Bool) × (log : CallLog) × ((handle_stream_request first_text
        (λ sent m. true)
        (lit "n1")
        (λ s. some no_request)
        (λ r. ok frames)
        false
        (lit "inbox")
        (lit "call")).1
      ≡ some log)
    × IsPassedOn first_text
        (λ sent m. true)
        (lit "n1")
        (encoded_frames first_text (λ sent m. true) (lit "n1") frames)
        (handle_stream_request first_text
          (λ sent m. true)
          (lit "n1")
          (λ s. some no_request)
          (λ r. ok frames)
          false
          (lit "inbox")
          (lit "call")).0
        has_failed
    × (log.frames
        ≡ length
            (handle_stream_request first_text
              (λ sent m. true)
              (lit "n1")
              (λ s. some no_request)
              (λ r. ok frames)
              false
              (lit "inbox")
              (lit "call")).0)
    × (log.is_ok ≡ not (has_failed || false))
handle_stream_request-IsPassedOn_example =
    handle_stream_request-IsPassedOn first_text (λ sent m. true) (lit "n1") (λ s. some no_request)
      (λ r. ok frames) false (lit "inbox") (lit "call") no_request frames refl refl refl
