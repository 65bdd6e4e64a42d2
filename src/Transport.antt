-- ===== src/Transport.antt =====
-- internal/transport: connections (conn.go, pump.go). A connection is named by a number; its record
-- holds what the business layers can see and what Send has accepted, in order.
pub mod Backoff
pub mod Pumps
use sit.Prelude.{ℕ, Text, Bool, false, List, [], ◌∷◌, ◌++◌, nat_eq, if◌then◌else◌}
use sit.Exec.{Result, ok, err, conn_closed, cancelled}
use sit.Protocol.{Envelope}

pub record SessionInfo : Type 0 where
  pub node_id : Text
  pub remote_addr : Text
  pub connected_at : ℕ

pub record Conn : Type 0 where
  pub info : SessionInfo
  pub is_open : Bool
  pub accepted : List Envelope
  pub reason : Text

abbrev pub Conns : Type 0
Conns = ℕ → Conn

unfoldable pub set_conn : ℕ → Conn → Conns → Conns
set_conn i c conns j = if nat_eq i j then c else conns j

-- Close runs once: later calls keep the first reason.
unfoldable pub close : Text → Conn → Conn
close reason c = if c.is_open then record c { is_open = false; reason = reason } else c

-- Send on an open connection enqueues, unless the context ends while the buffer is full.
unfoldable pub send : Bool → Envelope → Conn → Result (Unit {0}) × Conn
send context_ends e c =
    if c.is_open
    then (if context_ends
        then (err cancelled, c)
        else (ok tt, record c { accepted = c.accepted ++ e ∷ [] }))
    else (err conn_closed, c)
