-- ===== src/Managerd/Sessions.antt =====
-- handleConn of internal/managerd/server.go for two connections of one node.
use sit.Prelude.{
  ℕ, ◌+◌, Text, eq_refl, ◌≡◌, refl, true, false, none, arith, nat_eq, get, get-put, get-remove,
}
use sit.Exec.{Exec, ◌>>=◌, ◌>>◌}
use sit.Transport.{set_conn, close}
use sit.Registry.{Registry, add, drop_session, is_online, conn_of}
use sit.Manager.{Manager, now_millis, on_registry}
use sit.Managerd.{open_session, end_session}

-- A node reconnects while its old connection is still being read, and then the old reader ends.
abbrev pub reconnect : Text → ℕ → ℕ → Exec Manager (Unit {0})
reconnect id old new = do open_session id old; open_session id new; end_session id

no_conn : (id : Text) (r : Registry) → get id r.sessions ≡ none → conn_of id r ≡ none
unfolding conn_of
no_conn id r h = ground (arith, h)

dropped-conn_of : (id : Text) (r : Registry) → conn_of id (drop_session id r) ≡ none
unfolding drop_session
dropped-conn_of id r = no_conn id (drop_session id r) (rw (get-remove, eq_refl) refl)

-- When a node without a session connects, connects again on another, open connection, and then the
-- reader of the first connection ends, the session of the new connection is the one that is
-- removed: the old connection is closed, the new one stays open, and yet the node counts as
-- offline and no task can be sent to it.
pub reconnect_drops_new :
    (id : Text) (old new : ℕ) (m : Manager)
    → nat_eq old new ≡ false
    → (m.registry.conns new).is_open ≡ true
    → get id m.registry.sessions ≡ none
    → let r = (reconnect id old new m).1.registry in
      ((r.conns old).is_open ≡ false)
      × ((r.conns new).is_open ≡ true)
      × (is_online id r ≡ false)
      × (conn_of id r ≡ none)
unfolding open_session end_session now_millis on_registry ◌>>=◌ add drop_session is_online conn_of
    set_conn close
reconnect_drops_new id old new m d h f = (
  rw (f, get-put, eq_refl) (ground (arith, d)),
  rw (f, get-put, eq_refl) (ground (arith, d, h)),
  rw (get-remove, eq_refl) refl,
  dropped-conn_of id (
      add id new (m.world.clock (m.world.readings + 1))
        (add id old (m.world.clock m.world.readings) m.registry)),
)
