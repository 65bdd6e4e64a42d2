-- ===== src/Tests/Sessions.antt =====
-- The registry: internal/manager/registry.go, and handleConn of internal/managerd/server.go.
use sit.Prelude.{
  text, ◌==◌, ◌≡◌, refl, true, false, none, some, get, IsMap, contains, if◌then◌else◌,
}
use sit.Registry.{Session, no_heartbeat, add, is_online, conn_of, reap_stale}
use sit.Registry.Laws.{live, goes_stale, reap_stale_exact, reap_stale_closes, add_replaces}
use sit.Managerd.Sessions.{reconnect, reconnect_drops_new}
use sit.Tests.Fixtures.{manager, registry, n1_session}

session-n1 : get (text "n1") registry.sessions ≡ some n1_session
unfolding get ◌==◌
session-n1 = refl

registry-IsMap : IsMap registry.sessions
unfolding get
registry-IsMap = (refl, tt)

reap_stale_exact_example :
    (get (text "n1") (reap_stale 95_000 registry).1.sessions
      ≡ live 95_000 (get (text "n1") registry.sessions))
    × (contains (text "n1") (reap_stale 95_000 registry).0
        ≡ goes_stale 95_000 (get (text "n1") registry.sessions))
reap_stale_exact_example = reap_stale_exact 95_000 (text "n1") registry registry-IsMap

reap_stale_closes_example : ((reap_stale 95_000 registry).1.conns 7).is_open ≡ false
reap_stale_closes_example = reap_stale_closes 95_000 (text "n1") n1_session registry session-n1 refl

add_replaces_example :
    (get (text "n1") (add (text "n1") 8 200 registry).sessions ≡ (
      if text "n1" == text "n1"
      then some (record { conn = 8; last_seen = 200; last_heartbeat = no_heartbeat })
      else get (text "n1") registry.sessions))
    × ((old : Session)
        → get (text "n1") registry.sessions ≡ some old
        → ((add (text "n1") 8 200 registry).conns old.conn).is_open ≡ false)
add_replaces_example = add_replaces (text "n1") (text "n1") 8 200 registry

no_n3 : get (text "n3") manager.registry.sessions ≡ none
unfolding get ◌==◌
no_n3 = refl

reconnect_drops_new_example :
    let r = (reconnect (text "n3") 1 2 manager).1.registry in
    ((r.conns 1).is_open ≡ false)
    × ((r.conns 2).is_open ≡ true)
    × (is_online (text "n3") r ≡ false)
    × (conn_of (text "n3") r ≡ none)
reconnect_drops_new_example = reconnect_drops_new (text "n3") 1 2 manager refl refl no_n3
