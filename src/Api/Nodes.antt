-- ===== src/Api/Nodes.antt =====
-- The reads of internal/manager/api/node_handlers.go.
pub mod Live
use sit.Prelude.{
  ℕ, Text, text, Bool, true, false, Option, none, some, List, [], ◌∷◌, is_empty, if◌then◌else◌,
}
use sit.Exec.{Result, ok, err, Exec, not_found, pure, gets, attempt, modify, ignore, ◌>>=◌, ◌>>◌}
use sit.Protocol.{Json, Addr, Notification, heartbeat}
use sit.Protocol
use sit.Store
use sit.Store.Models.{Node, Status, online}
use sit.Store.Search.{list_nodes}
use sit.Registry.{Registry, is_online, last_heartbeat}
use sit.Manager.{Manager, query}
use sit.Api.{NodeDto, HeartbeatMetric, Reply, nodes, node, reply, refuse}

module _ (j : Json) where
  -- toDTO: a node with a session is online, whatever its row says.
  unfoldable pub to_dto : Registry → Node → NodeDto
  to_dto r n = record {
    node_id = n.node_id;
    display_name = n.display_name;
    status = if is_online n.node_id r then online else n.status;
    last_seen = n.last_seen;
    os = n.os;
    arch = n.arch;
    version = n.version;
    hostname = n.hostname;
    addrs = if is_empty n.addrs_json then [] else j.addrs_of n.addrs_json;
    mcp_enabled = n.mcp_enabled;
    created_at = n.created_at;
    heartbeat = none;
  }

  unfoldable pub to_dtos : Registry → List Node → List NodeDto
  to_dtos r [] = []
  to_dtos r (n ∷ ns) = to_dto r n ∷ to_dtos r ns

  abbrev listed : Registry → Result (List Node) → Exec Manager Reply
  listed r (err e) = refuse 500 (text "internal")
  listed r (ok ns) = reply 200 (nodes (to_dtos r ns))

  unfoldable pub handle_list_nodes : (Text → Text → Bool) → Text → Text → Exec Manager Reply
  handle_list_nodes like status q = do
    found ← attempt (query (list_nodes like status q))
    r ← gets (λ m. m.registry)
    listed r found

  -- Only a heartbeat is shown: before the first, the session has the zero notification.
  abbrev metric : Option Notification → Option HeartbeatMetric
  metric none = none
  metric (some n) = elim n.kind [
    | heartbeat ↦
        some (record { uptime_sec = n.uptime_sec; load = n.load; mem_used_mb = n.mem_used_mb })
    | Protocol.NotificationKind.register ↦ none
    | Protocol.NotificationKind.result ↦ none
    | Protocol.NotificationKind.event ↦ none
    | Protocol.NotificationKind.result_chunk ↦ none
    | Protocol.NotificationKind.other k ↦ none
  ]

  abbrev shown : Text → Registry → Result Node → Exec Manager Reply
  shown id r (err not_found) = refuse 404 (text "not_found")
  shown id r (err _) = refuse 500 (text "internal")
  shown id r (ok n) =
      reply 200 (node (record (to_dto r n) { heartbeat = metric (last_heartbeat id r) }))

  unfoldable pub handle_get_node : Text → Exec Manager Reply
  handle_get_node id = do
    found ← attempt (query (Store.get_node id))
    r ← gets (λ m. m.registry)
    shown id r found
