-- ===== src/Api/Access.antt =====
-- requireAdmin and handleDeleteNode of internal/manager/api.
use sit.Prelude.{
  Text, text, ltb, ◌≡◌, ◌≢◌, refl, ◌⊎◌, inl, inr, false, some, is_empty, Bool-cases, Option-cases,
  get,
}
use sit.Exec.{Result, ok, err, Exec, attempt, ◌>>=◌, ◌>>◌}
use sit.Exec.Keeps.{Keeps, keeps_rules}
use sit.Store
use sit.Store.{Db}
use sit.Manager.{Manager, AdminSession, now_millis, query, on_registry}
use sit.Manager.Rules.{OfDb, db_rules}
use sit.Auth.{Crypto, revoke_node, verify_admin, logout}
use sit.Auth.Credentials.{IsRevoked, revoke_node_revokes}
use sit.Registry.{drop_session}
use sit.Managerd.{wss_auth}
use sit.Managerd.Handshake.{IsRevoked-refused}
use sit.Api.{failure, Reply, bearer_token, require_admin, done_or, handle_delete_node}

-- A protected handler runs only for a token that names a session in its time, and then with the
-- user of that session; otherwise the reply is 401 and neither the database nor the registry is
-- touched.
pub require_admin_guards :
    (header : Text) (next : Text → Exec Manager Reply) (m : Manager)
    → ((s : AdminSession) × (get (bearer_token header) m.admin_sessions ≡ some s)
        × (ltb s.expires_at (m.world.clock m.world.readings) ≡ false)
        × (require_admin header next m ≡ next s.username (now_millis m).1))
      ⊎ (((require_admin header next m).0
            ≡ ok (record { status = 401; body = failure (text "unauthorized") }))
          × ((require_admin header next m).1.db ≡ m.db)
          × ((require_admin header next m).1.registry ≡ m.registry))
unfolding require_admin verify_admin now_millis logout ◌>>=◌
require_admin_guards header next m = elim (Bool-cases (is_empty (bearer_token header))) [
  | inl e ↦ inr (rw e (refl, refl, refl))
  | inr e ↦ elim (Option-cases (get (bearer_token header) m.admin_sessions)) [
    | inl n ↦ inr (rw (e, n) (refl, refl, refl))
    | inr (s, n) ↦ elim (Bool-cases (ltb s.expires_at (m.world.clock m.world.readings))) [
      | inl x ↦ inr (rw (e, n, x) (refl, refl, refl))
      | inr x ↦ inl (s, n, x, rw (e, n, x) refl)
    ]
  ]
]

delete_node-IsRevoked : (id other : Text) → Keeps (IsRevoked id) (Store.delete_node other)
unfolding Store.delete_node
delete_node-IsRevoked id other = record { at = λ db h. h }

-- The rest of the handler once the credential is revoked
abbrev finish_delete : Text → Exec Manager Reply
finish_delete id = do
  on_registry (drop_session id)
  r ← attempt (query (Store.delete_node id))
  done_or (text "internal") r

done_or-IsRevoked :
    (id code : Text) (r : Result (Unit {0})) → Keeps (OfDb (IsRevoked id)) (done_or code r)
done_or-IsRevoked id code (ok u) = record { at = λ m h. h }
done_or-IsRevoked id code (err e) = record { at = λ m h. h }

finish_delete-IsRevoked : (id : Text) → Keeps (OfDb (IsRevoked id)) (finish_delete id)
finish_delete-IsRevoked id =
    search (keeps_rules, db_rules, delete_node-IsRevoked, done_or-IsRevoked)

-- A node that has been deleted, with no error from the revocation of its credential on the way,
-- does not pass the handshake again with any header, whether or not the database then removed its
-- row.
pub deleted_stays_out :
    (c : Crypto) (id header : Text) (m : Manager)
    → (revoke_node id m).0 ≡ ok tt
    → (wss_auth c header (handle_delete_node id m).1).0 ≢ ok id
unfolding handle_delete_node ◌>>=◌
deleted_stays_out c id header m h =
    IsRevoked-refused c id header (finish_delete id (revoke_node id m).1).1
      ((finish_delete-IsRevoked id).at (revoke_node id m).1
        (record { holds = revoke_node_revokes id m h })).holds
