-- ===== src/Registry.antt =====
-- internal/manager/registry.go: the online sessions, by node.
pub mod Laws
use sit.Prelude.{
  ℕ, ◌-◌, Text, text, ◌==◌, Bool, true, false, Option, none, some, List, [], ◌∷◌, ltb, Map, get,
  put, remove, has, if◌then◌else◌,
}
use sit.Protocol.{Notification, blank, other}
use sit.Protocol
use sit.Transport.{Conn, Conns, set_conn, close}

abbrev pub offline_timeout_ms : ℕ
offline_timeout_ms = 90_000

pub record Session : Type 0 where
  pub conn : ℕ
  pub last_seen : ℕ
  pub last_heartbeat : Notification

-- The zero Notification: its kind is the empty text.
abbrev pub no_heartbeat : Notification
no_heartbeat = blank (Protocol.NotificationKind.other [])

pub record Registry : Type 0 where
  pub sessions : Map Session
  pub conns : Conns

-- `conns[i].Close(reason)`
unfoldable pub close_conn : ℕ → Text → Registry → Registry
close_conn i reason r = record r { conns = set_conn i (close reason (r.conns i)) r.conns }

abbrev close_old : Option Session → Registry → Registry
close_old none r = r
close_old (some old) r = close_conn old.conn (text "replaced by new session") r

unfoldable pub add : Text → ℕ → ℕ → Registry → Registry
unfolding close_conn
add node_id conn now r =
    let r' = close_old (get node_id r.sessions) r in
    record r' {
      sessions =
          put node_id (record { conn = conn; last_seen = now; last_heartbeat = no_heartbeat })
            r.sessions;
    }

unfoldable pub drop_session : Text → Registry → Registry
drop_session node_id r = record r { sessions = remove node_id r.sessions }

unfoldable pub conn_of : Text → Registry → Option ℕ
conn_of node_id r = elim (get node_id r.sessions) [ none ↦ none | some s ↦ some s.conn ]

unfoldable pub is_online : Text → Registry → Bool
is_online node_id r = has (get node_id r.sessions)

abbrev changed : Text → Option Session → (Session → Session) → Registry → Registry
changed node_id none f r = r
changed node_id (some s) f r = record r { sessions = put node_id (f s) r.sessions }

unfoldable pub touch : Text → ℕ → Registry → Registry
touch node_id now r = changed node_id (get node_id r.sessions) (λ s. record s { last_seen = now }) r

unfoldable pub set_heartbeat : Text → Notification → ℕ → Registry → Registry
set_heartbeat node_id hb now r =
    changed node_id (get node_id r.sessions)
      (λ s. record s { last_heartbeat = hb; last_seen = now }) r

unfoldable pub last_seen : Text → Registry → Option ℕ
last_seen node_id r = elim (get node_id r.sessions) [ none ↦ none | some s ↦ some s.last_seen ]

unfoldable pub last_heartbeat : Text → Registry → Option Notification
last_heartbeat node_id r = elim (get node_id r.sessions) [
  | none ↦ none
  | some s ↦ some s.last_heartbeat
]

abbrev pub is_stale : ℕ → Session → Bool
is_stale now s = ltb offline_timeout_ms (now - s.last_seen)

-- What the loop over the sessions leaves: the ids reaped, the sessions kept, the connections.
pub record Reaped : Type 0 where
  pub ids : List Text
  pub kept : Map Session
  pub conns : Conns

unfoldable pub reap : ℕ → Map Session → Conns → Reaped
reap now [] conns = record { ids = []; kept = []; conns = conns }
reap now ((id, s) ∷ m) conns =
    let rest = reap now m (
      if is_stale now s
      then set_conn s.conn (close (text "heartbeat timeout") (conns s.conn)) conns
      else conns) in
    if is_stale now s
    then record rest { ids = id ∷ rest.ids }
    else record rest { kept = (id, s) ∷ rest.kept }

unfoldable pub reap_stale : ℕ → Registry → List Text × Registry
unfolding reap
reap_stale now r =
    let done = reap now r.sessions r.conns in
    (done.ids, record { sessions = done.kept; conns = done.conns })

session_ids : Map Session → List Text
session_ids [] = []
session_ids ((id, s) ∷ m) = id ∷ session_ids m

unfoldable pub online_ids : Registry → List Text
unfolding session_ids
online_ids r = session_ids r.sessions
