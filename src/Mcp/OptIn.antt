-- ===== src/Mcp/OptIn.antt =====
-- The gates of internal/manager/mcp and the state behind them.
use sit.Prelude.{
  Text, ◌≡◌, refl, ◌⊎◌, inl, inr, true, Option, none, some, is_empty, Bool-cases, Option-cases,
}
use sit.Exec.{◌>>=◌}
use sit.Protocol.{Json}
use sit.Table.{find}
use sit.Store
use sit.Store.{node_key}
use sit.Store.Models.{Node}
use sit.Manager.{Manager, query}
use sit.Mcp.{
  Call, Method, initialize, tools_list, tools_call, RpcRequest, HttpRequest, Ending, resolve_node,
  node_gate, call_tool, handle_tool_call, serve_method, serve_body, may_call, serve_rpc,
}

-- The node that a request names exists and has opted in.
abbrev pub IsOpen : HttpRequest → Manager → Type 0
IsOpen r m =
    (n : Node) × (find node_key (resolve_node r) m.db.nodes ≡ some n) × (n.mcp_enabled ≡ true)

-- The database, the registry with its connections, and the dispatcher are as they were.
pub record IsUntouched (m m' : Manager) : Type 0 where
  pub db : m'.db ≡ m.db
  pub registry : m'.registry ≡ m.registry
  pub dispatcher : m'.dispatcher ≡ m.dispatcher

untouched : (m : Manager) → IsUntouched m m
untouched m = record { db = refl; registry = refl; dispatcher = refl }

tool_call_opt_in :
    (j : Json) (r : HttpRequest) (c : Option Call) (ending : Ending) (m : Manager)
    → IsOpen r m ⊎ IsUntouched m (handle_tool_call j r c ending m).1
unfolding handle_tool_call node_gate call_tool query Store.get_node ◌>>=◌
tool_call_opt_in j r none ending m = inr (untouched m)
tool_call_opt_in j r (some c) ending m = elim (Bool-cases (is_empty (resolve_node r))) [
  | inl e ↦ inr (rw e (untouched m))
  | inr e ↦ elim (Bool-cases (m.world.fails m.world.calls)) [
    | inl f ↦ inr (rw (e, f) (record { db = refl; registry = refl; dispatcher = refl }))
    | inr f ↦ elim (Option-cases (find node_key (resolve_node r) m.db.nodes)) [
      | inl n ↦ inr (rw (e, f, n) (record { db = refl; registry = refl; dispatcher = refl }))
      | inr (node, n) ↦ elim (Bool-cases node.mcp_enabled) [
        | inl o ↦ inl (node, n, o)
        | inr o ↦ inr (rw (e, f, n, o) (record { db = refl; registry = refl; dispatcher = refl }))
      ]
    ]
  ]
]

method_opt_in :
    (j : Json) (r : HttpRequest) (method : Method) (ending : Ending) (m : Manager)
    → IsOpen r m ⊎ IsUntouched m (serve_method j r method ending m).1
unfolding serve_method ◌>>=◌
method_opt_in j r initialize ending m = inr (untouched m)
method_opt_in j r tools_list ending m = inr (untouched m)
method_opt_in j r (tools_call c) ending m = tool_call_opt_in j r c ending m
method_opt_in j r (Method.other name) ending m = inr (untouched m)

body_opt_in :
    (j : Json) (r : HttpRequest) (body : Option RpcRequest) (ending : Ending) (m : Manager)
    → IsOpen r m ⊎ IsUntouched m (serve_body j r body ending m).1
unfolding serve_body ◌>>=◌
body_opt_in j r none ending m = inr (untouched m)
body_opt_in j r (some req) ending m = elim (Bool-cases req.has_id) [
  | inl e ↦ rw e (method_opt_in j r req.method ending m)
  | inr e ↦ rw e (inr (untouched m))
]

-- A request to the gateway touches the database, the sessions or the dispatcher only if it carries
-- the gateway's token, where there is one, and names a node that exists and has opted in.
pub serve_rpc_opt_in :
    (j : Json) (token : Text) (r : HttpRequest) (ending : Ending) (m : Manager)
    → ((may_call token r ≡ true) × IsOpen r m) ⊎ IsUntouched m (serve_rpc j token r ending m).1
unfolding serve_rpc ◌>>=◌ resolve_node node_gate
serve_rpc_opt_in j token r ending m = elim (Bool-cases r.is_post) [
  | inl p ↦ elim (Bool-cases (may_call token r)) [
    | inl a ↦
        rw (p, a) (elim (body_opt_in j r r.body ending m) [ inl o ↦ inl (refl, o) | inr u ↦ inr u ])
    | inr a ↦ rw (p, a) (inr (untouched m))
  ]
  | inr p ↦ rw p (inr (untouched m))
]
