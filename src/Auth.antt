-- ===== src/Auth.antt =====
-- internal/manager/auth.go: admin sessions, enrollment tokens and node credentials.
pub mod Tokens
pub mod Credentials
pub mod Sessions
pub mod Issued
use sit.Prelude.{
  ℕ, ◌+◌, Text, text, Bool, true, false, Option, none, some, List, [], ◌∷◌, ltb, get, put, remove,
  is_empty, if◌then◌else◌, ◌==◌,
}
use sit.Exec.{
  Error, Result, ok, err, Exec, bad_credentials, token_invalid, revoked, io, not_found, pure, fail,
  lift, gets, attempt, modify, ignore, ◌>>=◌, ◌>>◌,
}
use sit.Store
use sit.Store.Models.{
  Node, offline, Credential, CredentialState, active, EnrollToken, unused, Admin,
}
use sit.Manager.{Manager, AdminSession, now_millis, new_id, rand_token, query}

-- What the program takes from the cryptographic libraries: bcrypt for passwords (`none` is its
-- error) and SHA-256, in hexadecimal, for tokens.
pub record Crypto : Type 0 where
  pub bcrypt_hash : Text → Option Text
  pub bcrypt_matches : Text → Text → Bool
  pub hash_token : Text → Text

-- Any error of the lookup is reported as bad credentials.
known_admin : Result Admin → Result Admin
known_admin (ok a) = ok a
known_admin (err e) = err bad_credentials

open_session : Text → Text → ℕ → Exec Manager (Text × ℕ)
open_session username token expires_at m = (
  ok (token, expires_at),
  record m {
    admin_sessions =
        put token (record { username = username; expires_at = expires_at }) m.admin_sessions;
  },
)

unfoldable pub logout : Text → Exec Manager (Unit {0})
logout token = modify λ m. record m { admin_sessions = remove token m.admin_sessions }

-- An expired session is deleted when it is used.
check_session : Text → Option AdminSession → Exec Manager Text
unfolding logout
check_session token none = fail token_invalid
check_session token (some s) = do
  now ← now_millis
  if ltb s.expires_at now then (do logout token; fail token_invalid) else pure s.username

unfoldable pub verify_admin : Text → Exec Manager Text
unfolding check_session
verify_admin token = do found ← gets (λ m. get token m.admin_sessions); check_session token found

fresh_node_id : Text → Exec Manager Text
fresh_node_id node_id = if is_empty node_id then new_id else pure node_id

-- A node row is made if there is none; an error of that is dropped.
ensure_node : Text → ℕ → Result Node → Exec Manager (Unit {0})
ensure_node node_id now (err not_found) = ignore (
    query (
      Store.upsert_node (record {
        node_id = node_id;
        display_name = [];
        os = [];
        arch = [];
        version = [];
        hostname = [];
        addrs_json = text "[]";
        status = offline;
        mcp_enabled = false;
        last_seen = now;
        created_at = now;
      })))
ensure_node node_id now _ = pure tt

unfoldable pub revoke_node : Text → Exec Manager (Unit {0})
revoke_node node_id = do now ← now_millis; query (Store.revoke_credential node_id now)

module _ (c : Crypto) where
  hashed : Option Text → Result Text
  hashed none = err io
  hashed (some h) = ok h

  unfoldable pub seed_admin : Text → Text → Exec Manager (Unit {0})
  unfolding hashed
  seed_admin username password = do
    h ← lift (hashed (c.bcrypt_hash password))
    now ← now_millis
    query (Store.put_admin (record { username = username; password_hash = h; created_at = now }))

  unfoldable pub login : Text → Text → ℕ → Exec Manager (Text × ℕ)
  unfolding known_admin open_session
  login username password ttl = do
    found ← attempt (query (Store.get_admin username))
    adm ← lift (known_admin found)
    if c.bcrypt_matches adm.password_hash password
        then (do token ← rand_token; now ← now_millis; open_session username token (now + ttl))
        else fail bad_credentials

  unfoldable pub mint_enroll_token : ℕ → Exec Manager (Text × ℕ)
  mint_enroll_token ttl = do
    token ← rand_token
    now ← now_millis
    at ← now_millis
    query (
        Store.put_enroll_token (record {
          token_hash = c.hash_token token;
          state = unused;
          expires_at = now + ttl;
          created_at = at;
        }))
    pure (token, now + ttl)

  -- Enroll once the token is consumed
  unfoldable pub issue : Text → Exec Manager (Text × Text)
  unfolding fresh_node_id ensure_node
  issue node_id = do
    id ← fresh_node_id node_id
    secret ← rand_token
    now ← now_millis
    query (
        Store.put_credential (record {
          node_id = id;
          secret_hash = c.hash_token secret;
          state = active;
          issued_at = now;
          revoked_at = 0;
        }))
    existing ← attempt (query (Store.get_node id))
    ensure_node id now existing
    pure (secret, id)

  unfoldable pub enroll : Text → Text → Exec Manager (Text × Text)
  enroll enroll_token node_id = do
    now ← now_millis
    consumed ← query (Store.consume_enroll_token (c.hash_token enroll_token) now)
    if consumed then issue node_id else fail token_invalid

  -- subtle.ConstantTimeCompare is equality of the two hashes
  check_credential : Text → Result Credential → Result (Unit {0})
  check_credential secret (err e) = err bad_credentials
  check_credential secret (ok cred) = elim cred.state [
    | CredentialState.revoked ↦ err revoked
    | active ↦ if c.hash_token secret == cred.secret_hash then ok tt else err bad_credentials
  ]

  unfoldable pub verify_node : Text → Text → Exec Manager (Unit {0})
  unfolding check_credential
  verify_node node_id secret = do
    found ← attempt (query (Store.get_credential node_id))
    lift (check_credential secret found)
