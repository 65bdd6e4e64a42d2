-- ===== src/Reports/Registration.antt =====
-- handleRegister of internal/manager/reports.go and the row of the node.
use sit.Prelude.{
  ℕ, ◌+◌, Text, eq_refl, ◌≡◌, refl, ◌⊎◌, inl, inr, Option, some, arith, Bool, true, false,
  Bool-cases, ◌∙◌,
}
use sit.Exec.{Result, err, io, Exec, ◌>>=◌, ◌>>◌}
use sit.Exec.Keeps.{Keeps, keeps_rules}
use sit.Protocol.{Notification, Json}
use sit.Table.{find}
use sit.Table.Laws.{find-upsert}
use sit.Store
use sit.Store.{node_key}
use sit.Store.Models.{Node, online, ActivityType, ActivityDetail}
use sit.Manager.{Manager, query}
use sit.Manager.Rules.{OfDb}
use sit.Dispatcher.{log_activity, flush_queue}
use sit.Dispatcher.Rows.{Same, log-Same, flush_queue-Same}
use sit.Reports.{addrs_json, registered_node, handle_register}

-- What the rest of the handler does once the row is written.
abbrev after_row : Json → Text → Notification → Exec Manager (Unit {0})
after_row j id n = do
  log_activity id ActivityType.register (ActivityDetail.registered n.os n.arch n.version)
  log_activity id ActivityType.online ActivityDetail.empty
  flush_queue j id

after_row-Same :
    (j : Json) (id : Text) (n : Notification) (row : Option Node)
    → Keeps (OfDb (Same id row)) (after_row j id n)
after_row-Same j id n row = search (keeps_rules, log-Same id row, flush_queue-Same id row)

-- The row of a node that was known, with what it reports now.
abbrev pub reported_row : Json → Notification → ℕ → Node → Node
reported_row j n now old = record old {
  os = n.os;
  arch = n.arch;
  version = n.version;
  hostname = n.hostname;
  addrs_json = addrs_json j n.addrs;
  status = online;
  last_seen = now;
}

abbrev with_row : Json → Text → Notification → ℕ → Result Node → Exec Manager (Unit {0})
with_row j id n now existing = do
  query (Store.upsert_node (registered_node j id n now existing))
  after_row j id n

upserted :
    (j : Json) (id : Text) (n : Notification) (now : ℕ) (existing : Result Node) (old : Node)
    (m : Manager)
    → find node_key id m.db.nodes ≡ some old
    → find node_key id (Store.upsert_node (registered_node j id n now existing) m.db).1.nodes
      ≡ some (reported_row j n now old)
unfolding Store.upsert_node registered_node
upserted j id n now existing old m h =
    let row = registered_node j id n now existing in
    find-upsert node_key id row (Store.refresh row) m.db.nodes (λ r. refl) ∙ rw (h, eq_refl id) refl

-- the lookup is one call and leaves the rest, whatever it gives
lookup_lem :
    (id : Text) (m : Manager)
    → (query (Store.get_node id) m).1
      ≡ record m { world = record m.world { calls = m.world.calls + 1 } }
unfolding query Store.get_node
lookup_lem id m = ground arith

-- What writing the row comes to: the database fails in that call and the row stays, or it has what
-- the node reports.
abbrev Written :
    Json → Text → Notification → ℕ → Node → (Result (Unit {0}) × Manager) → Bool → Type 0
Written j id n now old (result, after) failed =
    ((failed ≡ true) × (result ≡ err io) × (find node_key id after.db.nodes ≡ some old))
    ⊎ ((failed ≡ false) × (find node_key id after.db.nodes ≡ some (reported_row j n now old)))

with_row_found :
    (j : Json) (id : Text) (n : Notification) (now : ℕ) (existing : Result Node) (old : Node)
    (m : Manager)
    → find node_key id m.db.nodes ≡ some old
    → Written j id n now old (with_row j id n now existing m) (m.world.fails m.world.calls)
unfolding ◌>>=◌ query Store.upsert_node registered_node
with_row_found j id n now existing old m h = elim (Bool-cases (m.world.fails m.world.calls)) [
  | inl e ↦ inl (e, rw e refl, rw e h)
  | inr e ↦ inr (
    e,
    rw e
        ((after_row-Same j id n (some (reported_row j n now old))).at
          (record m {
            db = (Store.upsert_node (registered_node j id n now existing) m.db).1;
            world = record m.world { calls = m.world.calls + 1 };
          })
          (record { holds = upserted j id n now existing old m h })).holds,
  )
]

-- When a known node registers again, its row has what it reports now, under the status online, and
-- keeps its display name, its permission for MCP and its creation time. Only if the call of the
-- database that writes the row fails, which is the handler's second, the row is as it was, and the
-- handler fails with the database's error.
pub handle_register_keeps :
    (j : Json) (id : Text) (n : Notification) (now : ℕ) (old : Node) (m : Manager)
    → find node_key id m.db.nodes ≡ some old
    → ((m.world.fails (m.world.calls + 1) ≡ true)
        × ((handle_register j id n now m).0 ≡ err io)
        × (find node_key id (handle_register j id n now m).1.db.nodes ≡ some old))
      ⊎ ((m.world.fails (m.world.calls + 1) ≡ false)
          × (find node_key id (handle_register j id n now m).1.db.nodes
              ≡ some (reported_row j n now old)))
unfolding handle_register ◌>>=◌
handle_register_keeps j id n now old m h =
    rw (lookup_lem id m) (with_row_found j id n now (query (Store.get_node id) m).0 old _ h)
