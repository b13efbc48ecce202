-- ===== src/Lib.antt =====
-- jb-mesh
--
-- A node of the mesh runs tools, an embedded NATS server (pkg/node), a search for other nodes by
-- mDNS (pkg/discovery), and a log store that keeps the records which nodes publish (pkg/logstore).
--
--   Base       texts as lists of bytes with the functions of Go's packages strings and strconv that
--              the program calls, Go's `int` and maps, and results with errors
--   Version    pkg/version/version.go: versions (Version), their order (Version/Order), constraints
--              (Version/Range)
--   Discovery  pkg/discovery/discovery.go: FindSeed (Discovery/Peers), the TXT records that
--              startAdvertising sends and entryToPeer reads (Discovery/Txt), browseOnce and Browse
--              (Discovery/Browse)
--   Node       pkg/node/node.go: shouldDemote and onPeerFound (Node/SplitBrain), which decide on the
--              peers that Discovery finds; prepareAuthorization (Node/Authorization),
--              validateSubjectSubtree (Node/Authorization/Subjects), authorizationUsers
--              (Node/Authorization/Users), ReloadAuthorization (Node/Authorization/Reload);
--              InstallTool, UpdateTool, UninstallTool and the subscriptions for streams
--              (Node/Tools), which compose the manager, the executor and the mesh client; the
--              decisions of New and embeddedNATSOptions (Node/Start); handleStreamRequest and the
--              handler of calls (Node/Streams)
--   Tools      pkg/tools/recovery.go: the crash monitor, its calls and the two halves of a pass of
--              monitorLoop (Tools/Recovery), the loop over what it observes (Tools/Recovery/Attempts);
--              Start, Stop, ForceKill, markReplStopped and Close of executor.go
--              (Tools/Executor), with the invariant they keep (Tools/Executor/Consistent);
--              toolconfig.go (Tools/Settings); the health checks of executor.go (Tools/Health);
--              manager.go and source.go: the interface to the machine (Tools/Manager/Host), where
--              sources come from (Tools/Manager/Source), environments, packages and setups
--              (Tools/Manager/Environment, with the bundled package of pkg/sdk/sdk.go), and LoadAll,
--              Install, Update, Uninstall and EnsureEnvironment (Tools/Manager/Registry)
--   Manifest   pkg/config/manifest.go: Validate and ApplyDefaults
--   Logstore   pkg/logstore: redaction (Logstore/Redact), names (Logstore/Sanitize), subjects of
--              logstore.go and producer.go (Logstore/Subject), Normalize (Logstore/Normalize),
--              queryRecords (Logstore/Query), Query, Tail and Stats (Logstore/Statistics), Append,
--              and Publish of producer.go (Logstore/Append)
--   Mesh       pkg/mesh/mesh.go: RegisterTool, UnregisterTool and reRegisterTools; connect.go
--              (Mesh/Connect); Call, CallWithContext, Stream and the handler of an endpoint
--              (Mesh/Calls); the requests between nodes (Mesh/Requests)
--   Events     pkg/events/events.go
--   Files      pkg/filestore/filestore.go (Files/Store) over an object store that is an interface, the
--              files tool of pkg/mesh/files.go (Files/Tool) and its raw subjects (Files/Handlers);
--              file_resolve.go (Files/Params)
--   Cli        cmd/jb-mesh: names, lists and values given as arguments, of init_service.go, logs_cmd.go
--              and main.go (Cli/Inputs), and the checks of preflight.go (Cli/Preflight)
--   Tests      concrete runs
--
-- State is passed on explicitly: an operation of a Go object is a function from the record of its
-- fields to the new record. What runs concurrently is a sequence of steps: a pass of monitorLoop is
-- cut where it waits, and Tools/Recovery/Backoff takes every order of the steps. A lock is held for
-- the whole of each step. Loops are structural recursion over their list. The search of
-- ResolveToolSource upwards is recursion on fuel: one more than the depth of the path is enough, as
-- each step up lowers the depth or is at the root. Go's `int` is an integer; its range is stated where it matters. The doubled backoff of the
-- crash monitor is a natural number: it does not leave the range of time.Duration as long as the
-- initial and the maximal backoff are below 2^62 nanoseconds. White space and letter case are
-- ASCII's. A Go map is an association list.
--
-- Parameters of the model: zeroconf's entries, the random source, NATS's answer to new options and
-- its matching of subjects, the clock, timestamps, the JSON and YAML codecs, the hash, the order that
-- sort.Slice makes, and the machine of the tool manager: its file system, git, environments and
-- processes. Not modelled: NATS connections, goroutines that only wait, and of the command line its
-- flags, its output and its calls of the packages.
pub mod Base
pub mod Version
pub mod Discovery
pub mod Node
pub mod Tools
pub mod Logstore
pub mod Tests
pub mod Files
pub mod Manifest
pub mod Mesh
pub mod Events
pub mod Cli
