-- ===== src/Managerd/Upgrade.antt =====
-- ServeHTTP of internal/transport/server.go, with the handshake and the handler that
-- internal/managerd/server.go gives it.
use sit.Prelude.{ℕ, Text, ◌≡◌, refl, Bool, true, Option, none, some, List, [], if◌then◌else◌}
use sit.Exec.{Error, Result, ok, err, Exec, pure, attempt, ◌>>=◌, ◌>>◌}
use sit.Exec.Keeps.{Keeps, keeps_rules}
use sit.Protocol.{Envelope, Json}
use sit.Transport.{Conn, set_conn}
use sit.Registry.{Registry}
use sit.Manager.{Manager, now_millis, on_registry}
use sit.Manager.Rules.{OfRegistry, Registry-query}
use sit.Auth.{Crypto, verify_node}
use sit.Managerd.{check_pair, wss_auth, handle_conn}

abbrev opened : Text → Text → ℕ → Conn
opened node_id remote_addr now = record {
  info = record { node_id = node_id; remote_addr = remote_addr; connected_at = now };
  is_open = true;
  accepted = [];
  reason = [];
}

-- newWSConn, under a number that names the connection
unfoldable pub new_ws_conn : ℕ → Text → Text → ℕ → Registry → Registry
new_ws_conn i node_id remote_addr now r = record r {
  conns = set_conn i (opened node_id remote_addr now) r.conns;
}

module _ (c : Crypto) (j : Json) where
  serve_conn : Text → Text → ℕ → List Envelope → Exec Manager (Option ℕ)
  unfolding new_ws_conn
  serve_conn node_id remote_addr i envs = do
    now ← now_millis
    on_registry (new_ws_conn i node_id remote_addr now)
    handle_conn j node_id i envs
    pure none

  -- the status that is written, if it is not the upgrade's own
  upgrade : Bool → Text → ℕ → List Envelope → Result Text → Exec Manager (Option ℕ)
  unfolding serve_conn
  upgrade accepts remote_addr i envs (err e) = pure (some 401)
  upgrade accepts remote_addr i envs (ok node_id) =
      if accepts then serve_conn node_id remote_addr i envs else pure none

  -- `accepts` is whether websocket.Accept succeeds, `envs` what the connection then reads.
  unfoldable pub serve_http : Bool → Text → Text → ℕ → List Envelope → Exec Manager (Option ℕ)
  unfolding upgrade
  serve_http accepts header remote_addr i envs = do
    who ← attempt (wss_auth c header)
    upgrade accepts remote_addr i envs who

abbrev HasRegistry : Registry → Registry → Type 0
HasRegistry r r' = r' ≡ r

check_pair-HasRegistry :
    (c : Crypto) (r : Registry) (pair : Option (Text × Text))
    → Keeps (OfRegistry (HasRegistry r)) (check_pair c pair)
unfolding check_pair verify_node
check_pair-HasRegistry c r none = search keeps_rules
check_pair-HasRegistry c r (some (node_id, secret)) = search (keeps_rules, Registry-query) depth 20

wss_auth-HasRegistry :
    (c : Crypto) (header : Text) (r : Registry)
    → Keeps (OfRegistry (HasRegistry r)) (wss_auth c header)
unfolding wss_auth
wss_auth-HasRegistry c header r = check_pair-HasRegistry c r _

-- A handshake that fails is answered with 401 before any connection is made: the registry is as it
-- was.
pub serve_http_refuses :
    (c : Crypto) (j : Json) (accepts : Bool) (header remote_addr : Text) (i : ℕ)
    (envs : List Envelope) (m : Manager) (e : Error)
    → (wss_auth c header m).0 ≡ err e
    → ((serve_http c j accepts header remote_addr i envs m).0 ≡ ok (some 401))
      × ((serve_http c j accepts header remote_addr i envs m).1.registry ≡ m.registry)
unfolding serve_http upgrade ◌>>=◌
serve_http_refuses c j accepts header remote_addr i envs m e n = (
  rw n refl,
  rw n ((wss_auth-HasRegistry c header m.registry).at m (record { holds = refl })).holds,
)
