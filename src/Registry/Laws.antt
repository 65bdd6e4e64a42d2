-- ===== src/Registry/Laws.antt =====
-- The operations of internal/manager/registry.go, against each other.
use sit.Prelude.{
  ℕ, ◌+◌, ◌≤◌, Text, text, ◌==◌, eq_iff, eq_refl, ◌≡◌, refl, Bool, true, false, Option, none, some,
  [], ◌∷◌, arith, Map, IsMap, get, get-put, put-IsMap, if◌then◌else◌, inl, inr, Option-cases,
  contains, ◌∙◌,
}
use sit.Transport.{Conns, set_conn, close}
use sit.Registry.{Session, Registry, no_heartbeat, add, touch, is_stale, reap, reap_stale}

abbrev pub live : ℕ → Option Session → Option Session
live now none = none
live now (some s) = if is_stale now s then none else some s

abbrev pub goes_stale : ℕ → Option Session → Bool
goes_stale now none = false
goes_stale now (some s) = is_stale now s

get-reap :
    (now : ℕ) (id : Text) (m : Map Session) (conns : Conns)
    → IsMap m
    → get id (reap now m conns).kept ≡ live now (get id m)
unfolding reap get
get-reap now id [] conns h = refl
get-reap now id ((k, s) ∷ m) conns h = ground (
  arith,
  get-reap now id m (set_conn s.conn (close (text "heartbeat timeout") (conns s.conn)) conns) h.1,
  get-reap now id m conns h.1,
  eq_iff k id,
)

contains-reap :
    (now : ℕ) (id : Text) (m : Map Session) (conns : Conns)
    → IsMap m
    → contains id (reap now m conns).ids ≡ goes_stale now (get id m)
unfolding reap get
contains-reap now id [] conns h = refl
contains-reap now id ((k, s) ∷ m) conns h = ground (
  arith,
  contains-reap now id m (set_conn s.conn (close (text "heartbeat timeout") (conns s.conn)) conns)
      h.1,
  contains-reap now id m conns h.1,
  eq_iff k id,
)

-- With at most one session for each node, the reaper removes exactly the sessions with no frame
-- for more than the offline timeout, keeps the others as they are, and returns exactly the ids
-- that it removed.
pub reap_stale_exact :
    (now : ℕ) (id : Text) (r : Registry)
    → IsMap r.sessions
    → (get id (reap_stale now r).1.sessions ≡ live now (get id r.sessions))
      × (contains id (reap_stale now r).0 ≡ goes_stale now (get id r.sessions))
unfolding reap_stale
reap_stale_exact now id r h =
    (get-reap now id r.sessions r.conns h, contains-reap now id r.sessions r.conns h)

closed_stays :
    (now : ℕ) (i : ℕ) (m : Map Session) (conns : Conns)
    → (conns i).is_open ≡ false
    → ((reap now m conns).conns i).is_open ≡ false
unfolding reap set_conn close
closed_stays now i [] conns h = h
closed_stays now i ((k, s) ∷ m) conns h = ground (
  arith,
  closed_stays now i m (set_conn s.conn (close (text "heartbeat timeout") (conns s.conn)) conns),
  closed_stays now i m conns,
)

reaped_closed :
    (now : ℕ) (id : Text) (s : Session) (m : Map Session) (conns : Conns)
    → get id m ≡ some s
    → is_stale now s ≡ true
    → ((reap now m conns).conns s.conn).is_open ≡ false
unfolding reap get set_conn close
reaped_closed now id s [] conns h e = cc
reaped_closed now id s ((k, x) ∷ m) conns h e = ground (
  arith,
  closed_stays now s.conn m
      (set_conn x.conn (close (text "heartbeat timeout") (conns x.conn)) conns),
  reaped_closed now id s m
      (set_conn x.conn (close (text "heartbeat timeout") (conns x.conn)) conns),
  reaped_closed now id s m conns,
)

-- A session that the reaper removes has its connection closed.
pub reap_stale_closes :
    (now : ℕ) (id : Text) (s : Session) (r : Registry)
    → get id r.sessions ≡ some s
    → is_stale now s ≡ true
    → ((reap_stale now r).1.conns s.conn).is_open ≡ false
unfolding reap_stale
reap_stale_closes now id s r h e = reaped_closed now id s r.sessions r.conns h e

reap-IsMap : (now : ℕ) (m : Map Session) (conns : Conns) → IsMap m → IsMap (reap now m conns).kept
unfolding reap
reap-IsMap now [] conns h = tt
reap-IsMap now ((k, s) ∷ m) conns h = ground (
  arith,
  reap-IsMap now m (set_conn s.conn (close (text "heartbeat timeout") (conns s.conn)) conns) h.1,
  reap-IsMap now m conns h.1,
  get-reap now k m conns h.1,
)

-- Adding a session makes the node online on the new connection, leaves the other nodes' sessions
-- alone, and closes the connection that it replaces.
pub add_replaces :
    (id other : Text) (conn now : ℕ) (r : Registry)
    → (get other (add id conn now r).sessions ≡ (
        if id == other
        then some (record { conn = conn; last_seen = now; last_heartbeat = no_heartbeat })
        else get other r.sessions))
      × ((old : Session)
          → get id r.sessions ≡ some old
          → ((add id conn now r).conns old.conn).is_open ≡ false)
unfolding add set_conn close
add_replaces id other conn now r = (
  ground (
    arith,
    get-put id other (record { conn = conn; last_seen = now; last_heartbeat = no_heartbeat })
        r.sessions,
  ),
  λ old h. ground arith,
)

pub add-IsMap :
    (id : Text) (conn now : ℕ) (r : Registry)
    → IsMap r.sessions
    → IsMap (add id conn now r).sessions
unfolding add
add-IsMap id conn now r h =
    put-IsMap id (record { conn = conn; last_seen = now; last_heartbeat = no_heartbeat }) r.sessions
      h

pub touch-IsMap :
    (id : Text) (now : ℕ) (r : Registry) → IsMap r.sessions → IsMap (touch id now r).sessions
unfolding touch
touch-IsMap id now r h = elim (Option-cases (get id r.sessions)) [
  | inl e ↦ rw e h
  | inr (s, e) ↦ rw e (put-IsMap id (record s { last_seen = now }) r.sessions h)
]

get-touch_self :
    (id : Text) (now : ℕ) (s : Session) (r : Registry)
    → get id r.sessions ≡ some s
    → get id (touch id now r).sessions ≡ some (record s { last_seen = now })
unfolding touch
get-touch_self id now s r h = rw h (rw get-put (rw eq_refl refl))

-- With at most one session for each node, a frame keeps its node's session through a reaping up to
-- the timeout later.
pub touch_survives :
    (id : Text) (seen now : ℕ) (s : Session) (r : Registry)
    → IsMap r.sessions
    → get id r.sessions ≡ some s
    → now ≤ seen + 90_000
    → get id (reap_stale now (touch id seen r)).1.sessions ≡ some (record s { last_seen = seen })
touch_survives id seen now s r m h le =
    (reap_stale_exact now id (touch id seen r) (touch-IsMap id seen r m)).0
    ∙ rw (get-touch_self id seen s r h) (ground arith)
