-- ===== src/Tests/Gates.antt =====
-- The REST handlers and the MCP gateway: internal/manager/api and internal/manager/mcp.
use sit.Prelude.{
  ℕ, Text, text, ltb, ◌≡◌, ◌≢◌, ◌⊎◌, true, false, refl, none, some, Bool, List, ◌∷◌, [], get,
  select, All,
}
use sit.Prelude.Int.{pos}
use sit.Exec.{ok}
use sit.Protocol
use mathlib.Core.List.{Perm}
use sit.Store.Models.{Node}
use sit.Store.Search.{is_listed}
use sit.Store.Search.Listing.{IsNewestFirst}
use sit.Api.{nodes}
use sit.Api.Nodes.{to_dtos, handle_list_nodes}
use sit.Api.Nodes.Live.{ShowsLive, handle_list_nodes_lem}
use sit.Api.Routes.{Request, serve_api}
use sit.Api.Routes.Protected.{IsEntry, HasSession, IsTurnedAway, serve_api_guards}
use sit.Manager.{failing, AdminSession, now_millis}
use sit.Managerd.{wss_auth}
use sit.Managerd.Handshake.{node_header}
use sit.Api.{failure, bearer_token, require_admin, handle_me, handle_delete_node}
use sit.Api.Access.{require_admin_guards, deleted_stays_out}
use sit.Api.Tasks.{TaskRequest, handle_create_task}
use sit.Api.Tasks.Created.{Outcome, handle_create_task_outcome}
use sit.Mcp.{HttpRequest, tools_call, timed_out, may_call, serve_rpc}
use sit.Mcp.OptIn.{IsOpen, IsUntouched, serve_rpc_opt_in}
use sit.Api.{handle_revoke}
use sit.Api.Kick.{handle_revoke_kicks}
use sit.Registry.{is_online, conn_of}
use sit.Tests.Entry.{n1_revoked}
use sit.Tests.Fixtures.{crypto, json, manager}

abbrev header : Text
header = text "Bearer none"

require_admin_guards_example :
    ((s : AdminSession) × (get (bearer_token header) manager.admin_sessions ≡ some s)
      × (ltb s.expires_at 1_000 ≡ false)
      × (require_admin header handle_me manager ≡ handle_me s.username (now_millis manager).1))
    ⊎ (((require_admin header handle_me manager).0
          ≡ ok (record { status = 401; body = failure (text "unauthorized") }))
        × ((require_admin header handle_me manager).1.db ≡ manager.db)
        × ((require_admin header handle_me manager).1.registry ≡ manager.registry))
require_admin_guards_example = require_admin_guards header handle_me manager

deleted_stays_out_example :
    (wss_auth crypto
      (node_header (text "n1") (text "secret"))
      (handle_delete_node (text "n1") manager).1).0
    ≢ ok (text "n1")
deleted_stays_out_example =
    deleted_stays_out crypto (text "n1") (node_header (text "n1") (text "secret")) manager
      n1_revoked

abbrev request : TaskRequest
request = record {
  kind = Protocol.InstructionKind.shell;
  command = text "ls";
  name = [];
  args = [];
  timeout_sec = pos 5;
}

handle_create_task_outcome_example :
    Outcome manager (handle_create_task json (text "n1") (some request) manager)
handle_create_task_outcome_example =
    handle_create_task_outcome json (text "n1") (some request) manager

abbrev rpc : HttpRequest
rpc = record {
  is_post = true;
  authorization = text "bearer key";
  node_header = [];
  node_param = text "n1";
  body = some (record {
    has_id = true;
    method =
        tools_call
          (some (record { name = text "run_command"; command = text "ls"; timeout_sec = none }));
  });
}

serve_rpc_opt_in_example :
    ((may_call (text "key") rpc ≡ true) × IsOpen rpc manager)
    ⊎ IsUntouched manager (serve_rpc json (text "key") rpc timed_out manager).1
serve_rpc_opt_in_example = serve_rpc_opt_in json (text "key") rpc timed_out manager

handle_revoke_kicks_example :
    let m' = (handle_revoke (text "n1") manager).1 in
    (is_online (text "n1") m'.registry ≡ false)
    × ((i : ℕ)
        → conn_of (text "n1") manager.registry ≡ some i
        → (m'.registry.conns i).is_open ≡ false)
    × ((wss_auth crypto (node_header (text "n1") (text "secret")) m').0 ≢ ok (text "n1"))
handle_revoke_kicks_example =
    handle_revoke_kicks crypto (text "n1") (node_header (text "n1") (text "secret")) manager
      n1_revoked

-- a request for the nodes, without a session
abbrev listing : Request
listing = record {
  method = text "GET";
  path = text "api" ∷ text "v1" ∷ text "nodes" ∷ [];
  authorization = header;
  query = λ key. [];
  credentials = none;
  exchange = none;
  display_name = none;
  task = none;
}

abbrev matches : Text → Text → Bool
matches pattern value = true

serve_api_guards_example :
    IsEntry listing
    ⊎ (HasSession listing manager
        ⊎ IsTurnedAway (serve_api crypto json matches listing manager) manager)
serve_api_guards_example = serve_api_guards crypto json matches listing manager

database_up : failing manager ≡ false
unfolding failing
database_up = refl

handle_list_nodes_lem_example :
    (rows : List Node) × ((handle_list_nodes json matches [] (text "n") manager).0
      ≡ ok (record { status = 200; body = nodes (to_dtos json manager.registry rows) }))
    × Perm rows (select (is_listed matches [] (text "n")) manager.db.nodes)
    × IsNewestFirst rows
    × All (ShowsLive manager.registry) (to_dtos json manager.registry rows)
    × ((handle_list_nodes json matches [] (text "n") manager).1.db ≡ manager.db)
    × ((handle_list_nodes json matches [] (text "n") manager).1.registry ≡ manager.registry)
handle_list_nodes_lem_example = handle_list_nodes_lem json matches [] (text "n") manager database_up
