-- ===== src/Tests/Entry.antt =====
-- Enrollment, the handshake and the admin: internal/manager/auth.go and internal/managerd/server.go.
use sit.Prelude.{
  Text, text, ltb, ◌==◌, ◌≡◌, ◌≢◌, refl, ◌⊎◌, true, false, some, nat_eq, if◌then◌else◌,
}
use sit.Strings.{is_space, cut, after_prefix, trim_space}
use sit.Strings.Laws.{last_ok, is_free→Free}
use sit.Exec.{◌>>=◌, ok, err, io, token_invalid, bad_credentials}
use sit.Store
use sit.Store.{consume_enroll_token, consumable}
use sit.Table.{find, upsert, update}
use sit.Manager.{Manager, now_millis, rand_token, query}
use sit.Auth.{verify_node, issue, enroll, revoke_node, login, logout, verify_admin}
use sit.Auth.Tokens.{IsSpent, valid_at, enroll_once}
use sit.Auth.Credentials.{Accepts}
use sit.Auth.Sessions.{HasSession, login_lifetime}
use sit.Managerd.{wss_auth, bearer_token}
use sit.Managerd.Handshake.{
  node_header, IsNodeId, wss_auth_sound, enroll_connects, revoked_stays_out,
}
use sit.Tests.Fixtures.{crypto, manager}

n1_passes : (wss_auth crypto (node_header (text "n1") (text "secret")) manager).0 ≡ ok (text "n1")
unfolding wss_auth verify_node bearer_token cut after_prefix trim_space is_space query
    Store.get_credential ◌>>=◌ ◌==◌ find
n1_passes = refl

wss_auth_sound_example :
    (secret : Text) × (cut 58 (bearer_token (node_header (text "n1") (text "secret")))
      ≡ some (text "n1", secret))
    × Accepts crypto (text "n1") secret manager.db
wss_auth_sound_example =
    wss_auth_sound crypto (node_header (text "n1") (text "secret")) (text "n1") manager n1_passes

enroll_once_example :
    ((a : Text × Text)
      → (enroll crypto (text "token") (text "n3") manager).0 ≡ ok a
      → (valid_at crypto (text "token") 1_000 manager ≡ true)
        × IsSpent (text "#token") (enroll crypto (text "token") (text "n3") manager).1.db)
    × (IsSpent (text "#token") manager.db
        → (((enroll crypto (text "token") (text "n3") manager).0 ≡ err io)
            ⊎ ((enroll crypto (text "token") (text "n3") manager).0 ≡ err token_invalid))
          × ((enroll crypto (text "token") (text "n3") manager).1.db ≡ manager.db))
enroll_once_example = enroll_once crypto (text "token") (text "n3") manager

n3_enrolls : (enroll crypto (text "token") (text "n3") manager).0 ≡ ok (text "secret", text "n3")
unfolding enroll issue consume_enroll_token consumable now_millis rand_token query
    Store.put_credential Store.get_node Store.upsert_node ◌>>=◌ ◌==◌ find upsert update
n3_enrolls = refl

n3-IsNodeId : IsNodeId (text "n3")
unfolding is_space
n3-IsNodeId = (refl, is_free→Free (nat_eq 58) (text "n3") refl, refl)

secret_ends : last_ok is_space (text "secret") ≡ true
unfolding is_space
secret_ends = refl

enroll_connects_example :
    let m1 = (enroll crypto (text "token") (text "n3") manager).1 in
    (wss_auth crypto (node_header (text "n3") (text "secret")) m1).0
    ≡ (if m1.world.fails m1.world.calls then err bad_credentials else ok (text "n3"))
enroll_connects_example =
    enroll_connects crypto (text "token") (text "n3") manager (text "secret") (text "n3") n3_enrolls
      n3-IsNodeId secret_ends

pub n1_revoked : (revoke_node (text "n1") manager).0 ≡ ok tt
unfolding revoke_node now_millis query Store.revoke_credential ◌>>=◌ ◌==◌ find
n1_revoked = refl

revoked_stays_out_example :
    (wss_auth crypto
      (node_header (text "n1") (text "secret"))
      (revoke_node (text "n1") manager).1).0
    ≢ ok (text "n1")
revoked_stays_out_example =
    revoked_stays_out crypto (text "n1") (node_header (text "n1") (text "secret")) manager
      n1_revoked

root_logs_in : (login crypto (text "root") (text "pw") 500 manager).0 ≡ ok (text "secret", 1_500)
unfolding login now_millis rand_token query Store.get_admin ◌>>=◌ ◌==◌ find
root_logs_in = refl

login_lifetime_example :
    let m1 = (login crypto (text "root") (text "pw") 500 manager).1 in
    (ltb 1_500 (m1.world.clock m1.world.readings) ≡ false
      → ((verify_admin (text "secret") m1).0 ≡ ok (text "root"))
        × HasSession (text "secret") (text "root") 1_500 (verify_admin (text "secret") m1).1)
    × (ltb 1_500 (m1.world.clock m1.world.readings) ≡ true
        → ((verify_admin (text "secret") m1).0 ≡ err token_invalid)
          × ((m2 : Manager)
              → m2.admin_sessions ≡ (verify_admin (text "secret") m1).1.admin_sessions
              → (verify_admin (text "secret") m2).0 ≡ err token_invalid))
    × ((verify_admin (text "secret") (logout (text "secret") m1).1).0 ≡ err token_invalid)
login_lifetime_example =
    login_lifetime crypto (text "root") (text "pw") 500 manager (text "secret") 1_500 root_logs_in
