-- ===== src/Api/Kick.antt =====
-- handleRevoke of internal/manager/api and the session that it ends.
use sit.Prelude.{
  ℕ, Text, text, eq_refl, ◌≡◌, ◌≢◌, refl, inl, inr, false, Option, none, some, arith, Option-cases,
  get, get-remove, subst, sym,
}
use sit.Exec.{Error, Result, ok, err, ◌>>=◌}
use sit.Transport.{set_conn, close}
use sit.Registry.{Registry, close_conn, conn_of, drop_session, is_online}
use sit.Manager.{Manager, now_millis, query, on_registry}
use sit.Auth.{Crypto, revoke_node}
use sit.Auth.Credentials.{IsRevoked, revoke_node_revokes}
use sit.Managerd.{wss_auth}
use sit.Managerd.Handshake.{IsRevoked-refused}
use sit.Api.{kicked, after_revoke, handle_revoke}

revoke_node_registry : (id : Text) (m : Manager) → (revoke_node id m).1.registry ≡ m.registry
unfolding revoke_node now_millis query ◌>>=◌
revoke_node_registry id m = ground arith

dropped_offline : (id : Text) (r : Registry) → is_online id (drop_session id r) ≡ false
unfolding is_online drop_session
dropped_offline id r = rw (get-remove, eq_refl) refl

some_is_not_none : {i : ℕ} → some i ≡ none → ⊥
some_is_not_none h = cc

no_conn_offline : (id : Text) (r : Registry) → conn_of id r ≡ none → is_online id r ≡ false
unfolding is_online conn_of
no_conn_offline id r h = elim (Option-cases (get id r.sessions)) [
  | inl n ↦ rw n refl
  | inr (s, n) ↦ absurd (some_is_not_none (rw (n, conn_of) at h))
]

closed_dropped :
    (id reason : Text) (i : ℕ) (r : Registry)
    → ((drop_session id (close_conn i reason r)).conns i).is_open ≡ false
unfolding drop_session close_conn set_conn close
closed_dropped id reason i r = ground arith

-- The state after the kick, for a node with the session that `conn` names.
record IsKicked (id : Text) (before : Manager) (conn : Option ℕ) (after : Manager) : Type 0 where
  db : after.db ≡ before.db
  offline : is_online id after.registry ≡ false
  closed : (i : ℕ) → conn ≡ some i → (after.registry.conns i).is_open ≡ false

same_conn : {i k : ℕ} → some i ≡ some k → i ≡ k
same_conn e = cc

kicked-IsKicked :
    (id : Text) (conn : Option ℕ) (m : Manager)
    → conn_of id m.registry ≡ conn
    → IsKicked id m conn (kicked id conn m).1
unfolding on_registry ◌>>=◌
kicked-IsKicked id none m h = record {
  db = refl;
  offline = no_conn_offline id m.registry h;
  closed = λ i e. cc;
}
kicked-IsKicked id (some i) m h = record {
  db = refl;
  offline = dropped_offline id (close_conn i (text "credential revoked") m.registry);
  closed = λ k e.
      subst
        (λ k.
          ((drop_session id (close_conn i (text "credential revoked") m.registry)).conns k).is_open
          ≡ false)
        (same_conn e) (closed_dropped id (text "credential revoked") i m.registry);
}

not_ok : (e : Error) (r : Result (Unit {0})) → r ≡ err e → r ≡ ok tt → ⊥
not_ok e r p q = cc

after_revoke-IsKicked :
    (id : Text) (r : Result (Unit {0})) (m : Manager)
    → r ≡ ok tt
    → IsKicked id m (conn_of id m.registry) (after_revoke id r m).1
unfolding ◌>>=◌
after_revoke-IsKicked id (ok u) m h = kicked-IsKicked id (conn_of id m.registry) m refl
after_revoke-IsKicked id (err e) m h = absurd (not_ok e (err e) refl h)

-- When an admin revokes a node and the revocation reports no error, the node is offline at once,
-- the connection that it had is closed, and no header passes the handshake as that node any more.
pub handle_revoke_kicks :
    (c : Crypto) (id header : Text) (m : Manager)
    → (revoke_node id m).0 ≡ ok tt
    → let m' = (handle_revoke id m).1 in
      (is_online id m'.registry ≡ false)
      × ((i : ℕ) → conn_of id m.registry ≡ some i → (m'.registry.conns i).is_open ≡ false)
      × ((wss_auth c header m').0 ≢ ok id)
unfolding handle_revoke ◌>>=◌
handle_revoke_kicks c id header m h =
    let done = after_revoke-IsKicked id (revoke_node id m).0 (revoke_node id m).1 h in
    (
      done.offline,
      λ i e. done.closed i (rw (revoke_node_registry id m) e),
      IsRevoked-refused c id header (handle_revoke id m).1
          (subst (IsRevoked id) (sym done.db) (revoke_node_revokes id m h)),
    )
