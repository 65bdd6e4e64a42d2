-- ===== src/Manager.antt =====
-- The state of the Manager process: the core services' fields, the database and the outside world.
-- Each handler of Dispatcher, Reports, Auth and Managerd is an action on it.
pub mod Config
pub mod Rules
use sit.Prelude.{ℕ, ◌+◌, Text, Bool, Option, Map, if◌then◌else◌}
use sit.Exec.{Result, ok, err, Exec, io}
use sit.Protocol.{Envelope}
use sit.Store.{Db}
use sit.Store.Models.{Task}
use sit.Transport.{Conn, set_conn, send}
use sit.Registry.{Registry}
use sit.Window.{Window}

-- Time, randomness and failures come from outside, each as a stream with the place reached in it:
-- the readings of the clock, the ids and the tokens drawn, and which calls of the database or the
-- network fail.
pub record World : Type 0 where
  pub clock : ℕ → ℕ
  pub readings : ℕ
  pub id : ℕ → Text
  pub ids : ℕ
  pub token : ℕ → Text
  pub tokens : ℕ
  pub fails : ℕ → Bool
  pub calls : ℕ

-- dispatcher.go. A channel is named by a number; its buffer has one place.
pub record Dispatcher : Type 0 where
  pub window : Window (Unit {0})
  pub waiters : Map ℕ
  pub channels : ℕ → Option Task
  pub next_channel : ℕ

pub record AdminSession : Type 0 where
  pub username : Text
  pub expires_at : ℕ

pub record Manager : Type 0 where
  pub db : Db
  pub registry : Registry
  pub dispatcher : Dispatcher
  pub admin_sessions : Map AdminSession
  pub world : World

-- protocol.NowMillis()
unfoldable pub now_millis : Exec Manager ℕ
now_millis m = (
  ok (m.world.clock m.world.readings),
  record m { world = record m.world { readings = m.world.readings + 1 } },
)

-- protocol.NewID()
unfoldable pub new_id : Exec Manager Text
new_id m =
    (ok (m.world.id m.world.ids), record m { world = record m.world { ids = m.world.ids + 1 } })

-- randToken()
unfoldable pub rand_token : Exec Manager Text
rand_token m = (
  ok (m.world.token m.world.tokens),
  record m { world = record m.world { tokens = m.world.tokens + 1 } },
)

-- Whether the next call of the database or the network fails.
unfoldable pub failing : Manager → Bool
failing m = m.world.fails m.world.calls

unfoldable pub called : Manager → Manager
called m = record m { world = record m.world { calls = m.world.calls + 1 } }

abbrev with_db : {A : Type 0} → Manager → Result A × Db → Result A × Manager
with_db m (r, db) = (r, record m { db = db })

-- One call of the Store. A call that fails has changed nothing.
unfoldable pub query : {A : Type 0} → Exec Db A → Exec Manager A
unfolding failing called
query op m = if failing m then (err io, called m) else with_db (called m) (op m.db)

abbrev with_conn : ℕ → Manager → Result (Unit {0}) × Conn → Result (Unit {0}) × Manager
with_conn i m (r, c) =
    (r, record m { registry = record m.registry { conns = set_conn i c m.registry.conns } })

-- conn.Send(ctx, e)
unfoldable pub send_on : ℕ → Envelope → Exec Manager (Unit {0})
unfolding failing called
send_on i e m = with_conn i (called m) (send (failing m) e (m.registry.conns i))

-- A call of the registry.
unfoldable pub on_registry : (Registry → Registry) → Exec Manager (Unit {0})
on_registry f m = (ok tt, record m { registry = f m.registry })
