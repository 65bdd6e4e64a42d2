-- ===== src/Reports/Isolation.antt =====
-- Handle of internal/manager/reports.go and the rows of other nodes.
use sit.Prelude.{ℕ, Text, ◌==◌, ◌≡◌, refl, false, Option}
use sit.Exec.Keeps.{Keeps, keeps_rules}
use sit.Protocol.{Notification, NotificationKind, Json}
use sit.Table.{find}
use sit.Store.{node_key}
use sit.Store.Models.{Node}
use sit.Manager.{Manager}
use sit.Manager.Rules.{OfDb, db_rules}
use sit.Dispatcher.Rows.{
  Same, log-Same, flush_queue-Same, handle_result-Same, get_node-Same, upsert-Same, status-Same,
}
use sit.Reports.{handle_register, handle_event, route, handle}

module _ (other : Text) (row : Option Node) (id : Text) (d : (id == other) ≡ false) where
  register-Same :
      (j : Json) (n : Notification) (now : ℕ)
      → Keeps (OfDb (Same other row)) (handle_register j id n now)
  unfolding handle_register
  register-Same j n now =
      search
        (
          keeps_rules,
          db_rules,
          log-Same other row,
          flush_queue-Same other row,
          get_node-Same other row,
          upsert-Same other row,
          d,
        )
        depth 12

  event-Same : (n : Notification) (now : ℕ) → Keeps (OfDb (Same other row)) (handle_event id n now)
  unfolding handle_event
  event-Same n now =
      search (keeps_rules, db_rules, log-Same other row, status-Same other row, d) depth 9

  route-Same :
      (j : Json) (k : NotificationKind) (n : Notification) (now : ℕ)
      → Keeps (OfDb (Same other row)) (route j k id n now)
  unfolding route
  route-Same j NotificationKind.register n now = register-Same j n now
  route-Same j NotificationKind.heartbeat n now =
      search (keeps_rules, db_rules, status-Same other row, d)
  route-Same j NotificationKind.result n now = handle_result-Same other row n
  route-Same j NotificationKind.event n now = event-Same n now
  route-Same j NotificationKind.result_chunk n now = search keeps_rules
  route-Same j (NotificationKind.other k) n now = search keeps_rules

  handle-Same : (j : Json) (n : Notification) → Keeps (OfDb (Same other row)) (handle j id n)
  unfolding handle
  handle-Same j n = search (keeps_rules, db_rules, route-Same)

-- Whatever a node sends, and whatever fails on the way, the row of every other node stays as it is:
-- also where the notification claims another node's id, or a result or a queued task is another's.
pub handle_isolates :
    (j : Json) (id other : Text) (n : Notification) (m : Manager)
    → (id == other) ≡ false
    → find node_key other (handle j id n m).1.db.nodes ≡ find node_key other m.db.nodes
handle_isolates j id other n m d =
    ((handle-Same other (find node_key other m.db.nodes) id d j n).at m
      (record { holds = refl })).holds
