-- ===== src/Auth/Sessions.antt =====
-- Login, VerifyAdmin and Logout of internal/manager/auth.go.
use sit.Prelude.{
  ℕ, ltb, Text, eq_refl, ◌≡◌, refl, inl, inr, true, false, none, some, arith, if◌then◌else◌,
  Bool-cases, Option-cases, get, put, Map, get-put, get-remove,
}
use sit.Exec.{Result, ok, err, token_invalid, ◌>>=◌}
use sit.Table.{find}
use sit.Store
use sit.Store.{Db, admin_key}
use sit.Manager.{Manager, AdminSession, now_millis, query, rand_token}
use sit.Auth.{Crypto, login, logout, verify_admin}

-- The session that a token names.
abbrev pub HasSession : Text → Text → ℕ → Manager → Type 0
HasSession token username expires_at m =
    get token m.admin_sessions ≡ some (record { username = username; expires_at = expires_at })

put_session :
    (username t token : Text) (e expires_at : ℕ) (sessions : Map AdminSession)
    → (r : Result (Text × ℕ)) → r ≡ ok (t, e)
    → r ≡ ok (token, expires_at)
    → get token (put t (record { username = username; expires_at = e }) sessions)
      ≡ some (record { username = username; expires_at = expires_at })
put_session username t token e expires_at sessions r q h = ground (
  arith,
  get-put t token (record { username = username; expires_at = e }) sessions,
  eq_refl token,
)

login-HasSession :
    (c : Crypto) (username password : Text) (ttl : ℕ) (m : Manager) (token : Text) (expires_at : ℕ)
    → (login c username password ttl m).0 ≡ ok (token, expires_at)
    → HasSession token username expires_at (login c username password ttl m).1
unfolding login query Store.get_admin now_millis rand_token ◌>>=◌
login-HasSession c username password ttl m token expires_at h =
    elim (Bool-cases (m.world.fails m.world.calls)) [
      | inl e ↦ cc (rw e at h)
      | inr e ↦ elim (Option-cases (find admin_key username m.db.admins)) [
        | inl n ↦ cc (rw (e, n) at h)
        | inr (a, n) ↦ elim (Bool-cases (c.bcrypt_matches a.password_hash password)) [
          | inl b ↦
              rw (e, n, b)
                (put_session username _ token _ expires_at m.admin_sessions _ refl
                  (rw (e, n, b) at h))
          | inr b ↦ cc (rw (e, n, b) at h)
        ]
      ]
    ]

-- What `VerifyAdmin` answers for a token with a session.
verify_session :
    (token username : Text) (expires_at : ℕ) (m : Manager)
    → HasSession token username expires_at m
    → if ltb expires_at (m.world.clock m.world.readings)
      then (((verify_admin token m).0 ≡ err token_invalid)
          × (get token (verify_admin token m).1.admin_sessions ≡ none))
      else (((verify_admin token m).0 ≡ ok username)
          × HasSession token username expires_at (verify_admin token m).1)
unfolding verify_admin now_millis logout ◌>>=◌
verify_session token username expires_at m h =
    elim (Bool-cases (ltb expires_at (m.world.clock m.world.readings))) [
      | inl e ↦
          rw (h, e) (refl, ground (arith, get-remove token token m.admin_sessions, eq_refl token))
      | inr e ↦ rw (h, e) (refl, h)
    ]

no_session :
    (token : Text) (m : Manager)
    → get token m.admin_sessions ≡ none
    → (verify_admin token m).0 ≡ err token_invalid
unfolding verify_admin ◌>>=◌
no_session token m h = rw h refl

logged_out :
    (token : Text) (m : Manager) → (verify_admin token (logout token m).1).0 ≡ err token_invalid
unfolding logout ◌>>=◌
logged_out token m = no_session token (logout token m).1 (rw get-remove (rw eq_refl refl))

-- A login that succeeds opens a session for exactly that user: until the expiry that it returned
-- the token verifies as the user and stays valid; past it the token is refused, at this use and at any
-- use in a later state with the same sessions; and once logged out it is refused at once.
pub login_lifetime :
    (c : Crypto) (username password : Text) (ttl : ℕ) (m : Manager) (token : Text) (expires_at : ℕ)
    → (login c username password ttl m).0 ≡ ok (token, expires_at)
    → let m1 = (login c username password ttl m).1 in
      (ltb expires_at (m1.world.clock m1.world.readings) ≡ false
        → ((verify_admin token m1).0 ≡ ok username)
          × HasSession token username expires_at (verify_admin token m1).1)
      × (ltb expires_at (m1.world.clock m1.world.readings) ≡ true
          → ((verify_admin token m1).0 ≡ err token_invalid)
            × ((m2 : Manager)
                → m2.admin_sessions ≡ (verify_admin token m1).1.admin_sessions
                → (verify_admin token m2).0 ≡ err token_invalid))
      × ((verify_admin token (logout token m1).1).0 ≡ err token_invalid)
login_lifetime c username password ttl m token expires_at h =
    let m1 = (login c username password ttl m).1 in
    let s = login-HasSession c username password ttl m token expires_at h in
    let v = verify_session token username expires_at m1 s in
    (
      λ e. rw e at v,
      λ e. let w = (rw e at v) in (w.0, λ m2 same. no_session token m2 (rw same w.1)),
      logged_out token m1,
    )
