-- ===== src/Api/Routes.antt =====
-- Handler of internal/manager/api/router.go: the table of routes, and the request that each takes.
-- A request is given with its path as segments, its query as a function, and its body as each
-- handler's decoder reads it, `none` where that fails.
pub mod Protected
use sit.Prelude.{
  ℕ, Text, text, ◌==◌, Bool, true, false, ◌&&◌, ◌||◌, not, Option, none, some, List, [], ◌∷◌, ◌++◌,
  is_empty, if◌then◌else◌,
}
use sit.Exec.{Exec}
use sit.Protocol.{Json}
use sit.Manager.{Manager}
use sit.Auth.{Crypto}
use sit.Api.{
  Reply, Body, reply, refuse, require_admin, handle_login, handle_logout, handle_me,
  handle_patch_node, handle_delete_node, set_mcp, handle_enroll, handle_enroll_exchange,
  handle_revoke, empty,
}
use sit.Api.Tasks.{
  TaskRequest, handle_create_task, handle_list_tasks, handle_get_task, handle_activities,
}
use sit.Api.Nodes.{handle_list_nodes, handle_get_node}

-- A part of a pattern: a word, or one segment of any text.
pub data Part : Type 0 where
  word : Text → Part
  any : Part

pub data Handler : Type 0 where
  login exchange logout me list_nodes get_node patch_node delete_node mcp_enable mcp_disable
        activities create_task list_tasks get_task enroll revoke :
      Handler

pub record Route : Type 0 where
  pub method : Text
  pub pattern : List Part
  pub is_protected : Bool
  pub handler : Handler

pub record Request : Type 0 where
  pub method : Text
  pub path : List Text
  pub authorization : Text
  pub query : Text → Text
  pub credentials : Option (Text × Text)  -- username and password
  pub exchange : Option (Text × Text)  -- enroll_token and node_id
  pub display_name : Option Text
  pub task : Option TaskRequest

-- behind "/api/v1"
abbrev v1 : List Part → List Part
v1 parts = word (text "api") ∷ word (text "v1") ∷ parts

abbrev public : Text → List Part → Handler → Route
public method parts h = record {
  method = method;
  pattern = v1 parts;
  is_protected = false;
  handler = h;
}

-- `prot`
abbrev protected : Text → List Part → Handler → Route
protected method parts h = record {
  method = method;
  pattern = v1 parts;
  is_protected = true;
  handler = h;
}

abbrev nodes_path : List Part → List Part
nodes_path parts = word (text "nodes") ∷ parts

abbrev pub routes : List Route
routes =
    public (text "POST") (word (text "auth") ∷ word (text "login") ∷ []) login
    ∷ public (text "POST") (word (text "enroll") ∷ word (text "exchange") ∷ []) exchange
    ∷ protected (text "POST") (word (text "auth") ∷ word (text "logout") ∷ []) logout
    ∷ protected (text "GET") (word (text "auth") ∷ word (text "me") ∷ []) me
    ∷ protected (text "GET") (nodes_path []) list_nodes
    ∷ protected (text "GET") (nodes_path (any ∷ [])) get_node
    ∷ protected (text "PATCH") (nodes_path (any ∷ [])) patch_node
    ∷ protected (text "DELETE") (nodes_path (any ∷ [])) delete_node
    ∷ protected (text "POST") (nodes_path (any ∷ word (text "mcp:enable") ∷ [])) mcp_enable
    ∷ protected (text "POST") (nodes_path (any ∷ word (text "mcp:disable") ∷ [])) mcp_disable
    ∷ protected (text "GET") (nodes_path (any ∷ word (text "activities") ∷ [])) activities
    ∷ protected (text "POST") (nodes_path (any ∷ word (text "tasks") ∷ [])) create_task
    ∷ protected (text "GET") (nodes_path (any ∷ word (text "tasks") ∷ [])) list_tasks
    ∷ protected (text "GET") (word (text "tasks") ∷ any ∷ []) get_task
    ∷ protected (text "POST") (nodes_path (word (text "enroll") ∷ [])) enroll
    ∷ protected (text "POST") (nodes_path (any ∷ word (text "revoke") ∷ [])) revoke
    ∷ []

-- The segments at the places of `any`; such a segment is not empty.
unfoldable pub match_path : List Part → List Text → Option (List Text)
match_path [] [] = some []
match_path [] (s ∷ path) = none
match_path (p ∷ parts) [] = none
match_path (word w ∷ parts) (s ∷ path) =
    let rest = match_path parts path in if w == s then rest else none
match_path (any ∷ parts) (s ∷ path) =
    let rest = match_path parts path in
    if is_empty s then none else elim rest [ none ↦ none | some ids ↦ some (s ∷ ids) ]

-- ServeMux answers HEAD by the routes of GET.
abbrev takes : Text → Text → Bool
takes method asked = method == asked || (method == text "GET" && asked == text "HEAD")

-- No two routes match one request, so the first that does is the mux's choice.
pub data Choice : Type 0 where
  found : Route → List Text → Choice
  missing : ℕ → Choice  -- 405 where another method would match, else 404

abbrev pick : Route → Option (List Text) → Bool → Choice → Choice → Choice
pick r none by_method rest later = rest
pick r (some ids) by_method rest later = if by_method then found r ids else later

unfoldable pub choose : List Route → Text → List Text → ℕ → Choice
choose [] method path status = missing status
choose (r ∷ rs) method path status =
    let rest = choose rs method path status in
    let later = choose rs method path 405 in
    pick r (match_path r.pattern path) (takes r.method method) rest later

-- No segment is "." or "..", and none is empty but the last one.
abbrev pub is_clean : List Text → Bool
is_clean [] = true
is_clean (s ∷ []) = not (s == text ".") && not (s == text "..")
is_clean (s ∷ t ∷ path) =
    let rest = is_clean (t ∷ path) in
    not (is_empty s) && not (s == text ".") && not (s == text "..") && rest

abbrev first : List Text → Text
first [] = []
first (id ∷ ids) = id

module _ (c : Crypto) (j : Json) (like : Text → Text → Bool) (r : Request) where
  -- The handler of a route, for the admin `who` of a protected one and the id in the path.
  run_handler : Handler → Text → Text → Exec Manager Reply
  run_handler login id who = handle_login c r.credentials
  run_handler exchange id who = handle_enroll_exchange c r.exchange
  run_handler logout id who = handle_logout r.authorization
  run_handler me id who = handle_me who
  run_handler list_nodes id who =
      handle_list_nodes j like (r.query (text "status")) (r.query (text "q"))
  run_handler get_node id who = handle_get_node j id
  run_handler patch_node id who = handle_patch_node id r.display_name
  run_handler delete_node id who = handle_delete_node id
  run_handler mcp_enable id who = set_mcp id true
  run_handler mcp_disable id who = set_mcp id false
  run_handler activities id who =
      handle_activities id (r.query (text "limit")) (r.query (text "before"))
  run_handler create_task id who = handle_create_task j id r.task
  run_handler list_tasks id who =
      handle_list_tasks id (r.query (text "state")) (r.query (text "limit"))
  run_handler get_task id who = handle_get_task id
  run_handler enroll id who = handle_enroll c
  run_handler revoke id who = handle_revoke id

  run_route : Route → List Text → Exec Manager Reply
  unfolding run_handler
  run_route route ids =
      if route.is_protected
      then require_admin r.authorization (run_handler route.handler (first ids))
      else run_handler route.handler (first ids) []

  chosen : Choice → Exec Manager Reply
  unfolding run_route
  chosen (missing status) = reply status empty
  chosen (found route ids) = run_route route ids

  -- ServeMux redirects a path that is not clean to the clean one, except for CONNECT.
  unfoldable pub serve_api : Exec Manager Reply
  unfolding chosen
  serve_api =
      if is_clean r.path || r.method == text "CONNECT"
      then chosen (choose routes r.method r.path 404)
      else reply 301 empty
