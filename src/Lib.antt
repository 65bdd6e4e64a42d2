-- ===== src/Lib.antt =====
-- SIT: a Manager that runs commands on remote Nodes over websockets, and the Node agent itself.
--
-- The program. A Node enrolls once with a token and is given a secret (internal/manager/auth.go).
-- It then keeps a connection to the Manager (internal/transport), on which each frame is an
-- envelope (internal/protocol). The Manager's handshake checks the secret
-- (internal/managerd/server.go), its registry holds the online sessions
-- (internal/manager/registry.go), its reports handle what nodes send (reports.go), and its
-- dispatcher sends tasks, or leaves them queued in the database, and pairs results with them
-- (dispatcher.go, store/sqlite.go). Admins and agents give commands through the REST handlers
-- (api) and the MCP gateway (mcp). The Node's client acknowledges each instruction, runs it
-- through the executor and reports the result (internal/node). The command `sit node setup` writes
-- a node's configuration (cmd/sit/node_setup.go).
--
-- The files. Prelude, Exec, Table and Strings are shared: texts, maps and integers; actions that
-- return a result beside the state, as Go methods do, with the rules for what an action keeps; SQL
-- tables as lists of rows; and Go's package strings. Decimal prints and reads numbers.
--   Protocol, Protocol/Codec: internal/protocol.
--   Transport, Transport/Backoff: conn.go, pump.go and backoff.go of internal/transport, a call of
--     Send as one step; Transport/Pumps: the goroutines of pump.go as a step relation, with Link as
--     the abstract link that its outbound side implements.
--   Store, Store/Models, Store/Tasks, Store/Search, Store/Order: internal/manager/store. A function has its
--     method's name (UpsertNode is upsert_node), and takes and returns the tables.
--   Window: the bounded memory of ids in dispatcher.go and in internal/node/executor.go.
--   Registry, Dispatcher, Reports, Auth: the files of those names in internal/manager. Manager
--     declares the state that their actions share, and the outside world.
--   Manager/Config: internal/manager/config.go.
--   Managerd: internal/managerd/server.go; Managerd/Upgrade: internal/transport/server.go.
--   Node/Identity, Node/Config, Node/Executor, Node/Client, Node/Reporter: the files of those names in
--     internal/node; Node/Agent: its bootstrap.go, with internal/transport/dial.go.
--   Api, Api/Tasks, Api/Nodes, Api/Routes: the handlers of internal/manager/api, the admin middleware
--     and the table of routes.
--   Mcp, Mcp/Tools, Mcp/Responses: the gateway of internal/manager/mcp and the bodies it writes.
--   Setup: cmd/sit/node_setup.go. Setup/Host is the system and the terminal that it runs on,
--     Setup/Paths the functions of path/filepath, and Setup/Prompts, Accounts, Files, Services and
--     Flow its functions, down to runNodeSetup.
--   Cli: the commands node and node enroll of cmd/sit/node.go.
--   Tests: each theorem with hypotheses, at a concrete input.
-- The proofs are in the modules below each of these, named for what they prove.
--
-- Conventions. Times are natural numbers of milliseconds since 1970. A text is a list of code
-- points. The clock, the ids, the random tokens, and the failures of the database and the network
-- are streams given from outside, so that a theorem holds for all of them; a database call that
-- fails has changed nothing. A section of code under a mutex is one step. encoding/json, bcrypt,
-- SHA-256, the shell and the predefined handlers are parameters; an HTTP request is given with its
-- path as segments and its JSON body as decoded, and a reply as its status and what its body says.
-- Exit codes are integers; a digit string that is too large for 64 bits is an error, as strconv
-- reports it. The only functions on fuel are the printing of a number, which has one step for each
-- digit at least, and the loop of promptRequired, which has one for each line of the input and one
-- for its end; a theorem on prompt_required shows that it is enough.
--
-- Not modelled: the listeners and the websocket library, the opening of the database and the scanning
-- of its rows, the operating system's process groups, the happy-eyeballs dialer, and the flags and
-- the wiring of the command line on the cobra library. A write to a file that fails is taken to
-- change nothing.
mod Prelude
pub mod Strings
pub mod Exec
pub mod Table
pub mod Protocol
pub mod Store
pub mod Window
pub mod Transport
pub mod Registry
pub mod Manager
pub mod Dispatcher
pub mod Reports
pub mod Auth
pub mod Managerd
pub mod Node
pub mod Api
pub mod Mcp
mod Decimal
pub mod Setup
pub mod Cli
mod Tests
