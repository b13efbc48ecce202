-- ===== src/Mesh/Connect.antt =====
-- pkg/mesh/connect.go: the address and the options of a connection to NATS. A parsed address and its
-- printing are those of Go's package net/url, as arguments.
use jb_mesh.Base.Result.{◌>>=◌, err, ok, Result}
use jb_mesh.Base.Text.{trim_space, cut, same, is_empty, Text, lit}
use jb_mesh.Base.Dict.{Dict, lookup, insert, delete}
use jb_mesh.Base.{
  if◌then◌else◌, ℕ, Bool, true, false, Option, none, some, List, ◌∷◌, [], ◌++◌, not, ◌&&◌, ◌||◌,
}

abbrev pub Values : Type 0
Values = Dict (List Text)

pub record WebSocketConfig : Type 0 where
  pub proxy_path : Text
  pub bearer_token : Text
  pub headers : Values
  pub query : Values

-- The fields of the mesh client's configuration that a connection uses
pub record ConnectConfig : Type 0 where
  pub nats_url : Text
  pub node_name : Text
  pub token : Text
  pub username : Text
  pub password : Text
  pub web_socket : WebSocketConfig

pub record Url : Type 0 where
  pub scheme : Text
  pub location : Text
  pub query : Values

pub data ConnectError : Type 0 where
  bad_url not_a_web_socket bad_pair : Text → ConnectError
  half_user_info token_and_user_info : ConnectError

-- `nats.Option`; the caller's own options are numbers
pub data ConnectOption : Type 0 where
  with_name with_token with_proxy_path : Text → ConnectOption
  with_user_info : Text → Text → ConnectOption
  with_headers : Values → ConnectOption
  with_extra : ℕ → ConnectOption

abbrev pub default_url : Text
default_url = lit "nats://127.0.0.1:4222"

abbrev pub is_unset : Values → Bool
is_unset [] = true
is_unset (v ∷ vs) = false

-- `hasWebSocketClientConfig`
unfoldable pub has_web_socket_client_config : WebSocketConfig → Bool
has_web_socket_client_config cfg =
    not (is_empty cfg.proxy_path)
    || not (is_empty cfg.bearer_token)
    || not (is_unset cfg.headers)
    || not (is_unset cfg.query)

-- The values of a key that `url.Values` keeps, with one more
abbrev pub with_value : Text → Option (List Text) → List Text
with_value value none = value ∷ []
with_value value (some values) = values ++ value ∷ []

-- `Add`
unfoldable pub add_value : Text → Text → Values → Values
add_value key value m = insert key (with_value value (lookup key m)) m

unfoldable pub add_values : Text → List Text → Values → Values
unfolding add_value
add_values key [] m = m
add_values key (value ∷ values) m = add_values key values (add_value key value m)

-- The loop over the query of the configuration
unfoldable pub merge_query : Values → Values → Values
unfolding add_values
merge_query [] query = query
merge_query ((key, values) ∷ more) query =
    merge_query more (add_values key values (delete key query))

merged_url : (Url → Text) → Text → Values → Option Url → Result ConnectError Text
unfolding merge_query
merged_url print raw query none = err (bad_url raw)
merged_url print raw query (some url) =
    if same url.scheme (lit "ws") || same url.scheme (lit "wss")
    then ok (print (record url { query = merge_query query url.query }))
    else err (not_a_web_socket raw)

-- `prepareConnectURL`
unfoldable pub prepare_connect_url :
    (Text → Option Url) → (Url → Text) → Text → WebSocketConfig → Result ConnectError Text
unfolding has_web_socket_client_config merged_url
prepare_connect_url parse print raw cfg =
    if is_empty raw
    then ok default_url
    else if not (has_web_socket_client_config cfg)
    then ok raw
    else merged_url print raw cfg.query (parse raw)

-- `cloneHeader`, which copies, and the bearer token
unfoldable pub connect_headers : WebSocketConfig → Values
connect_headers cfg =
    if is_empty cfg.bearer_token
    then cfg.headers
    else insert (lit "Authorization") ((lit "Bearer " ++ cfg.bearer_token) ∷ []) cfg.headers

abbrev pub option_if : Bool → ConnectOption → List ConnectOption
option_if true o = o ∷ []
option_if false o = []

-- The option for a user name and a password
abbrev pub user_option : ConnectConfig → Result ConnectError (List ConnectOption)
user_option cfg =
    if is_empty cfg.username && is_empty cfg.password
    then ok []
    else if is_empty cfg.username || is_empty cfg.password
    then err half_user_info
    else if not (is_empty cfg.token)
    then err token_and_user_info
    else ok (with_user_info cfg.username cfg.password ∷ [])

-- `prepareConnectOptions`
unfoldable pub prepare_connect_options :
    ConnectConfig → List ConnectOption → Result ConnectError (List ConnectOption)
unfolding connect_headers
prepare_connect_options cfg extra = do
  user ← user_option cfg
  ok (
      option_if (not (is_empty cfg.node_name)) (with_name cfg.node_name)
      ++ (option_if (not (is_empty cfg.token)) (with_token cfg.token)
          ++ (user
              ++ (option_if (not (is_unset (connect_headers cfg.web_socket)))
                    (with_headers (connect_headers cfg.web_socket))
                  ++ (option_if (not (is_empty cfg.web_socket.proxy_path))
                        (with_proxy_path cfg.web_socket.proxy_path)
                      ++ extra)))))

-- `Connect` up to the call of NATS: the address and the options
unfoldable pub connect :
    (Text → Option Url)
    → (Url → Text)
    → ConnectConfig
    → List ConnectOption
    → Result ConnectError (Text × List ConnectOption)
unfolding prepare_connect_url prepare_connect_options
connect parse print cfg extra = do
  url ←
      prepare_connect_url parse print (if is_empty cfg.nats_url then default_url else cfg.nats_url)
        cfg.web_socket
  opts ← prepare_connect_options cfg extra
  ok (url, opts)

parse_pair : Text → Option (Text × Text) → Values → Result ConnectError Values
unfolding add_value
parse_pair pair none m = err (bad_pair pair)
parse_pair pair (some (key, value)) m =
    if is_empty (trim_space key)
    then err (bad_pair pair)
    else ok (add_value (trim_space key) value m)

-- The loop of `ParseKeyValuePairs`
unfoldable pub parse_pairs : List Text → Values → Result ConnectError Values
unfolding parse_pair
parse_pairs [] m = ok m
parse_pairs (pair ∷ pairs) m = parse_pair pair (cut 61 pair) m >>= parse_pairs pairs

-- `ParseKeyValuePairs`; a nil map is an empty one
unfoldable pub parse_key_value_pairs : List Text → Result ConnectError Values
unfolding parse_pairs
parse_key_value_pairs pairs = parse_pairs pairs []
