-- ===== src/Reports.antt =====
-- internal/manager/reports.go: a notification goes to the registry, the store and the dispatcher,
-- under the node id of the handshake.
pub mod Isolation
pub mod Registration
use sit.Prelude.{
  ℕ, Text, text, Bool, true, false, Option, none, some, List, [], ◌∷◌, if◌then◌else◌, ◌==◌,
}
use sit.Exec.{Error, Result, ok, err, Exec, pure, attempt, ◌>>=◌, ◌>>◌}
use sit.Protocol
use sit.Protocol.{Addr, Notification, NotificationKind, Json}
use sit.Store
use sit.Store.Models.{Node, Status, online, offline, ActivityType, ActivityDetail}
use sit.Registry.{touch, set_heartbeat}
use sit.Manager.{Manager, now_millis, query, on_registry}
use sit.Dispatcher.{log_activity, flush_queue, handle_result}

-- json.Marshal of the addresses; "[]" where there are none or it fails
pub addrs_json : Json → List Addr → Text
addrs_json j [] = text "[]"
addrs_json j (a ∷ more) = elim (j.addrs_text (a ∷ more)) [ none ↦ text "[]" | some t ↦ t ]

-- The row of a registering node: the name and the creation time of an existing row are kept.
registered_node : Json → Text → Notification → ℕ → Result Node → Node
registered_node j node_id n now existing = record {
  node_id = node_id;
  display_name = elim existing [ err _ ↦ [] | ok old ↦ old.display_name ];
  os = n.os;
  arch = n.arch;
  version = n.version;
  hostname = n.hostname;
  addrs_json = addrs_json j n.addrs;
  status = online;
  mcp_enabled = false;
  last_seen = now;
  created_at = elim existing [ err _ ↦ now | ok old ↦ old.created_at ];
}

unfoldable pub handle_register : Json → Text → Notification → ℕ → Exec Manager (Unit {0})
unfolding addrs_json registered_node
handle_register j node_id n now = do
  existing ← attempt (query (Store.get_node node_id))
  query (Store.upsert_node (registered_node j node_id n now existing))
  log_activity node_id ActivityType.register (ActivityDetail.registered n.os n.arch n.version)
  log_activity node_id ActivityType.online ActivityDetail.empty
  flush_queue j node_id

unfoldable pub handle_event : Text → Notification → ℕ → Exec Manager (Unit {0})
handle_event node_id n now = do
  log_activity node_id ActivityType.event (ActivityDetail.reported n.event_name n.detail)
  if n.event_name == text "shutting_down"
      then query (Store.set_node_status node_id offline now)
      else pure tt

unfoldable pub route : Json → NotificationKind → Text → Notification → ℕ → Exec Manager (Unit {0})
route j NotificationKind.register id n now = handle_register j id n now
route j NotificationKind.heartbeat id n now = do
  on_registry (set_heartbeat id n now)
  query (Store.set_node_status id online now)
route j NotificationKind.result id n now = handle_result n
route j NotificationKind.event id n now = handle_event id n now
route j NotificationKind.result_chunk id n now = pure tt
route j (NotificationKind.other k) id n now = pure tt

unfoldable pub handle : Json → Text → Notification → Exec Manager (Unit {0})
unfolding route
handle j id n = do now ← now_millis; on_registry (touch id now); route j n.kind id n now
