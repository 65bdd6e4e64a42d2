-- ===== src/Mcp.antt =====
-- internal/manager/mcp: the gateway. A request is given as it was decoded, an answer by what it says.
pub mod OptIn
pub mod Values
pub mod Tools
pub mod Responses
use sit.Prelude.{
  ℕ, suc, ◌+◌, Text, text, ◌==◌, Bool, true, false, ◌&&◌, Option, none, some, List, ◌∷◌, not,
  is_empty, if◌then◌else◌,
}
use sit.Prelude.Int.{pos, add_seconds64}
use sit.Strings.{trim_space}
use sit.Exec.{
  Error, Result, ok, err, Exec, io, cancelled, pure, fail, lift, gets, attempt, modify, ignore,
  ◌>>=◌, ◌>>◌,
}
use sit.Protocol
use sit.Protocol.{Json, Notification, heartbeat}
use sit.Store
use sit.Store.Models.{Node, Status, online, Task, queued}
use sit.Registry.{is_online, last_heartbeat}
use sit.Manager.{Manager, now_millis, new_id, query}
use sit.Dispatcher.{create_task, wait, cancel_wait}
use sit.Api.{bearer_token}

-- The parts of an HTTP request that the gateway reads; `body` is `none` where it is not JSON.
pub record Call : Type 0 where
  pub name : Text
  pub command : Text
  pub timeout_sec : Option ℕ  -- the integer part of a positive number, or `none`

pub data Method : Type 0 where
  initialize tools_list : Method
  tools_call : Option Call → Method
  other : Text → Method

pub record RpcRequest : Type 0 where
  pub has_id : Bool
  pub method : Method

pub record HttpRequest : Type 0 where
  pub is_post : Bool
  pub authorization : Text
  pub node_header : Text
  pub node_param : Text
  pub body : Option RpcRequest

-- What ends the wait of run_command.
pub data Ending : Type 0 where
  context_done timed_out : Ending
  result : Task → Ending

pub data Answer : Type 0 where
  status : ℕ → Answer  -- an HTTP status without a JSON-RPC body
  server_info tool_list : Answer
  rpc_error : ℕ → Answer  -- the code, without its minus sign
  pending : Text → Answer
  finished : Task → Answer
  node_status : Node → Status → Option Notification → Answer

unfoldable pub resolve_node : HttpRequest → Text
resolve_node r =
    if is_empty (trim_space r.node_header)
    then trim_space r.node_param
    else trim_space r.node_header

gate_open : Result Node → Result Node
gate_open (err e) = err e
gate_open (ok n) = if n.mcp_enabled then ok n else err io

-- nodeGate, whose statuses all become one error code
unfoldable pub node_gate : HttpRequest → Exec Manager Node
unfolding gate_open
node_gate r =
    if is_empty (resolve_node r)
    then fail io
    else do n ← attempt (query (Store.get_node (resolve_node r))); lift (gate_open n)

-- The end of the wait
unfoldable pub conclude : Text → Ending → Exec Manager Answer
conclude id context_done = do cancel_wait id; fail cancelled
conclude id timed_out = do cancel_wait id; pure (pending id)
conclude id (result t) = pure (finished t)

created_or : Text → Ending → Result Task → Exec Manager Answer
unfolding conclude
created_or id ending (err e) = do cancel_wait id; fail e
created_or id ending (ok t) = conclude id ending

abbrev command_task : Text → Call → Text → ℕ → Task
command_task node_id c id now = record {
  task_id = id;
  node_id = node_id;
  kind = Protocol.InstructionKind.shell;
  command = c.command;
  name = List.[];
  args_json = List.[];
  state = queued;
  created_at = now;
  sent_at = 0;
  finished_at = 0;
  deadline = add_seconds64 now (elim c.timeout_sec [ none ↦ 60 | some n ↦ n ]);
  exit_code = pos 0;
  stdout = List.[];
  stderr = List.[];
  truncated = false;
  duration_ms = 0;
}

-- The waiter is registered before the task is created.
unfoldable pub run_command : Json → Text → Call → Ending → Exec Manager Answer
unfolding created_or
run_command j node_id c ending = do
  now ← now_millis
  id ← new_id
  ch ← wait id
  r ← attempt (create_task j (command_task node_id c id now))
  created_or id ending r

abbrev live_status : Bool → Node → Status
live_status true n = online
live_status false n = n.status

-- Only a heartbeat is shown; before the first, the session has the zero notification.
abbrev shown : Option Notification → Option Notification
shown none = none
shown (some n) = elim n.kind [
  | heartbeat ↦ some n
  | Protocol.NotificationKind.register ↦ none
  | Protocol.NotificationKind.result ↦ none
  | Protocol.NotificationKind.event ↦ none
  | Protocol.NotificationKind.result_chunk ↦ none
  | Protocol.NotificationKind.other k ↦ none
]

unfoldable pub get_status : Node → Exec Manager Answer
get_status n = do
  is_live ← gets (λ m. is_online n.node_id m.registry)
  hb ← gets (λ m. last_heartbeat n.node_id m.registry)
  pure (node_status n (live_status is_live n) (shown hb))

abbrev answered : Result Answer → Exec Manager Answer
answered (ok a) = pure a
answered (err e) = pure (rpc_error 32_000)

unfoldable pub call_tool : Json → Call → Ending → Result Node → Exec Manager Answer
call_tool j c ending (err e) = pure (rpc_error 32_000)
call_tool j c ending (ok n) =
    if c.name == text "run_command"
    then (do r ← attempt (run_command j n.node_id c ending); answered r)
    else if c.name == text "get_status"
    then get_status n
    else pure (rpc_error 32_601)

unfoldable pub handle_tool_call : Json → HttpRequest → Option Call → Ending → Exec Manager Answer
handle_tool_call j r none ending = pure (rpc_error 32_602)
handle_tool_call j r (some c) ending = do n ← attempt (node_gate r); call_tool j c ending n

serve_method : Json → HttpRequest → Method → Ending → Exec Manager Answer
unfolding handle_tool_call
serve_method j r initialize ending = pure server_info
serve_method j r tools_list ending = pure tool_list
serve_method j r (tools_call c) ending = handle_tool_call j r c ending
serve_method j r (other name) ending = pure (rpc_error 32_601)

serve_body : Json → HttpRequest → Option RpcRequest → Ending → Exec Manager Answer
unfolding serve_method
serve_body j r none ending = pure (rpc_error 32_700)
serve_body j r (some req) ending =
    if req.has_id then serve_method j r req.method ending else pure (status 202)

-- An empty token opens the gateway to all.
abbrev pub may_call : Text → HttpRequest → Bool
may_call token r = if is_empty token then true else bearer_token r.authorization == token

unfoldable pub serve_rpc : Json → Text → HttpRequest → Ending → Exec Manager Answer
unfolding serve_body
serve_rpc j token r ending =
    if r.is_post
    then (if may_call token r then serve_body j r r.body ending else pure (status 401))
    else pure (status 405)
