-- ===== src/Auth/Credentials.antt =====
-- VerifyNode and RevokeNode of internal/manager/auth.go and the stored credential.
use sit.Prelude.{
  Text, ◌==◌, eq_refl, eq_iff, ◌≡◌, ◌≢◌, refl, inl, inr, some, arith, if◌then◌else◌, Bool-cases,
  Option-cases, ◌∙◌,
}
use sit.Exec.{ok, err, bad_credentials, ◌>>=◌}
use sit.Table.{find}
use sit.Table.Laws.{find-update}
use sit.Store
use sit.Store.{Db, credential_key}
use sit.Store.Models.{Credential, CredentialState, active}
use sit.Manager.{Manager, now_millis, query}
use sit.Auth.{Crypto, verify_node, revoke_node, check_credential}

-- The credential of a node, as the handshake reads it: active, with the hash of this secret.
abbrev pub Accepts : Crypto → Text → Text → Db → Type 0
Accepts c node_id secret db =
    (cred : Credential) × (find credential_key node_id db.credentials ≡ some cred)
    × (cred.state ≡ active)
    × (cred.secret_hash ≡ c.hash_token secret)

abbrev pub IsRevoked : Text → Db → Type 0
IsRevoked node_id db =
    (cred : Credential) × (find credential_key node_id db.credentials ≡ some cred)
    × (cred.state ≡ CredentialState.revoked)

-- An accepted secret passes, unless the database fails, which is reported as bad credentials.
pub verify_node-Accepts :
    (c : Crypto) (node_id secret : Text) (m : Manager)
    → Accepts c node_id secret m.db
    → (verify_node c node_id secret m).0
      ≡ (if m.world.fails m.world.calls then err bad_credentials else ok tt)
unfolding verify_node query Store.get_credential ◌>>=◌
verify_node-Accepts c node_id secret m (cred, f, s, h) =
    ground (arith, eq_iff (c.hash_token secret) cred.secret_hash)

-- What the check of a stored credential lets pass.
passed :
    (c : Crypto) (secret : Text) (cred : Credential)
    → check_credential c secret (ok cred) ≡ ok tt
    → (cred.state ≡ active) × (cred.secret_hash ≡ c.hash_token secret)
unfolding check_credential
passed c secret cred h = elim (Bool-cases (c.hash_token secret == cred.secret_hash)) [
  | inl e ↦ (ground arith, ground (arith, eq_iff (c.hash_token secret) cred.secret_hash))
  | inr e ↦ ground arith
]

-- Only the secret whose hash is stored passes, and only while the credential is active.
pub verify_node_sound :
    (c : Crypto) (node_id secret : Text) (m : Manager)
    → (verify_node c node_id secret m).0 ≡ ok tt
    → Accepts c node_id secret m.db
unfolding verify_node query Store.get_credential ◌>>=◌
verify_node_sound c node_id secret m h = elim (Bool-cases (m.world.fails m.world.calls)) [
  | inl e ↦ cc (rw e at h)
  | inr e ↦ elim (Option-cases (find credential_key node_id m.db.credentials)) [
    | inl n ↦ cc (rw (e, n) at h)
    | inr (cred, n) ↦ let p = passed c secret cred (rw (e, n) at h) in (cred, n, p.0, p.1)
  ]
]

-- A revoked node is refused, whatever secret it shows.
pub verify_node_revoked :
    (c : Crypto) (node_id secret : Text) (m : Manager)
    → IsRevoked node_id m.db
    → (verify_node c node_id secret m).0 ≢ ok tt
unfolding verify_node query Store.get_credential ◌>>=◌
verify_node_revoked c node_id secret m (cred, f, s) = ground arith

pub revoke_node_revokes :
    (node_id : Text) (m : Manager)
    → (revoke_node node_id m).0 ≡ ok tt
    → IsRevoked node_id (revoke_node node_id m).1.db
unfolding revoke_node now_millis query Store.revoke_credential ◌>>=◌
revoke_node_revokes node_id m h = elim (Bool-cases (m.world.fails m.world.calls)) [
  | inl e ↦ cc (rw e at h)
  | inr e ↦ elim (Option-cases (find credential_key node_id m.db.credentials)) [
    | inl n ↦ cc (rw (e, n) at h)
    | inr (cred, n) ↦
        rw (e, n)
          (
            record cred {
              state = CredentialState.revoked;
              revoked_at = m.world.clock m.world.readings;
            },
            find-update credential_key node_id node_id
                  (λ c. record c {
                    state = CredentialState.revoked;
                    revoked_at = m.world.clock m.world.readings;
                  })
                  m.db.credentials (λ r. refl)
                ∙ ground (arith, n, eq_refl node_id),
            refl,
          )
  ]
]
