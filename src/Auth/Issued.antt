-- ===== src/Auth/Issued.antt =====
-- Enroll of internal/manager/auth.go and the credential that it stores.
use sit.Prelude.{
  ℕ, ◌+◌, Text, eq_refl, ◌≡◌, refl, inl, inr, Bool, true, false, List, arith, is_empty,
  if◌then◌else◌, Bool-cases, Option-cases, ◌∙◌, sym,
}
use sit.Exec.{Error, Result, ok, err, Exec, token_invalid, resume, fail, pure, attempt, ◌>>=◌, ◌>>◌}
use sit.Exec.Keeps.{Keeps, keeps_rules}
use sit.Table.{find}
use sit.Table.Laws.{find-upsert}
use sit.Store
use sit.Store.{Db, credential_key, consume_enroll_token}
use sit.Store.Models.{Credential, active, Node}
use sit.Manager.{Manager, now_millis, query, rand_token, new_id}
use sit.Manager.Rules.{OfDb, db_rules}
use sit.Auth.{Crypto, issue, enroll, ensure_node, fresh_node_id}
use sit.Auth.Credentials.{Accepts}

abbrev HasCredentials : List Credential → Db → Type 0
HasCredentials cs db = db.credentials ≡ cs

module _ (cs : List Credential) where
  upsert-HasCredentials : (n : Node) → Keeps (HasCredentials cs) (Store.upsert_node n)
  unfolding Store.upsert_node
  upsert-HasCredentials n = record { at = λ s h. h }

  get_node-HasCredentials : (id : Text) → Keeps (HasCredentials cs) (Store.get_node id)
  unfolding Store.get_node
  get_node-HasCredentials id = record { at = λ s h. h }

  ensure-HasCredentials :
      (id : Text) (now : ℕ) (r : Result Node)
      → Keeps (OfDb (HasCredentials cs)) (ensure_node id now r)
  unfolding ensure_node
  ensure-HasCredentials id now (err Error.not_found) =
      search (keeps_rules, db_rules, upsert-HasCredentials)
  ensure-HasCredentials id now _ = search keeps_rules

-- The end of `Enroll`: the node's row, then the answer.
abbrev finish_with : Text → Text → ℕ → Result Node → Exec Manager (Text × Text)
finish_with secret id now existing = do ensure_node id now existing; pure (secret, id)

abbrev finish : Text → Text → ℕ → Exec Manager (Text × Text)
finish secret id now = do
  existing ← attempt (query (Store.get_node id))
  finish_with secret id now existing

finish-HasCredentials :
    (secret id : Text) (now : ℕ) (cs : List Credential)
    → Keeps (OfDb (HasCredentials cs)) (finish secret id now)
finish-HasCredentials secret id now cs =
    search (keeps_rules, db_rules, get_node-HasCredentials, ensure-HasCredentials) depth 9

abbrev issued_credential : Text → Text → ℕ → Credential
issued_credential id hash now = record {
  node_id = id;
  secret_hash = hash;
  state = active;
  issued_at = now;
  revoked_at = 0;
}

put_credential-Accepts :
    (c : Crypto) (id secret : Text) (now : ℕ) (db : Db)
    → Accepts c id secret
        (Store.put_credential (issued_credential id (c.hash_token secret) now) db).1
unfolding Store.put_credential
put_credential-Accepts c id secret now db =
    let new = issued_credential id (c.hash_token secret) now in
    let merge = λ (old : Credential). record new { node_id = old.node_id } in
    let found = find-upsert credential_key id new merge db.credentials (λ x. refl) in
    elim (Option-cases (find credential_key id db.credentials)) [
      | inl n ↦ (new, found ∙ rw (n, eq_refl id) refl, refl, refl)
      | inr (old, n) ↦ (merge old, found ∙ rw (n, eq_refl id) refl, refl, refl)
    ]

-- Neither the lookup nor the row of the node decides the answer.
ensure_passes :
    (secret id : Text) (now : ℕ) (r : Result Node) (m : Manager)
    → (finish_with secret id now r m).0 ≡ ok (secret, id)
unfolding ensure_node ◌>>=◌
ensure_passes secret id now (err Error.not_found) m = refl
ensure_passes secret id now (err Error.constraint) m = refl
ensure_passes secret id now (err Error.io) m = refl
ensure_passes secret id now (err Error.conn_closed) m = refl
ensure_passes secret id now (err Error.bad_credentials) m = refl
ensure_passes secret id now (err Error.token_invalid) m = refl
ensure_passes secret id now (err Error.revoked) m = refl
ensure_passes secret id now (err Error.malformed_token) m = refl
ensure_passes secret id now (err Error.cancelled) m = refl
ensure_passes secret id now (err Error.timed_out) m = refl
ensure_passes secret id now (err Error.unsupported) m = refl
ensure_passes secret id now (err Error.not_root) m = refl
ensure_passes secret id now (err Error.is_required) m = refl
ensure_passes secret id now (err Error.refusing) m = refl
ensure_passes secret id now (err Error.no_free_id) m = refl
ensure_passes secret id now (err Error.usage) m = refl
ensure_passes secret id now (ok n) m = refl

finish_answer :
    (secret id : Text) (now : ℕ) (m : Manager) → (finish secret id now m).0 ≡ ok (secret, id)
unfolding ◌>>=◌
finish_answer secret id now m =
    ensure_passes secret id now (query (Store.get_node id) m).0 (query (Store.get_node id) m).1

finished :
    (c : Crypto) (s i : Text) (now : ℕ) (m : Manager) (secret id : Text)
    → Accepts c i s m.db
    → (finish s i now m).0 ≡ ok (secret, id)
    → Accepts c id secret (finish s i now m).1.db
finished c s i now m secret id (cred, f, a, e) h =
    let same = (finish-HasCredentials s i now m.db.credentials).at m (record { holds = refl }) in
    let answer = sym (finish_answer s i now m) ∙ h in
    (cred, rw same.holds (ground (arith, answer, f)), a, ground (arith, answer, e))

-- `Enroll` from the point where the node's id is known
abbrev issue_as : Crypto → Text → Exec Manager (Text × Text)
issue_as c id = do
  secret ← rand_token
  now ← now_millis
  query (Store.put_credential (issued_credential id (c.hash_token secret) now))
  finish secret id now

issue_as-Accepts :
    (c : Crypto) (i : Text) (m : Manager) (secret id : Text)
    → (issue_as c i m).0 ≡ ok (secret, id)
    → Accepts c id secret (issue_as c i m).1.db
unfolding ◌>>=◌ rand_token now_millis query Store.put_credential
issue_as-Accepts c i m secret id h =
    let hash = c.hash_token (m.world.token m.world.tokens) in
    let now = m.world.clock m.world.readings in
    let m' = (now_millis (rand_token m).1).1 in
    let stored = record m' {
      db = (Store.put_credential (issued_credential i hash now) m.db).1;
      world = record m'.world { calls = m'.world.calls + 1 };
    } in
    elim (Bool-cases (m.world.fails m.world.calls)) [
      | inl e ↦ cc (rw e at h)
      | inr e ↦ rw e (
          finished c (m.world.token m.world.tokens) i now stored secret id
            (put_credential-Accepts c i (m.world.token m.world.tokens) now m.db) (rw e at h))
    ]

issue-Accepts :
    (c : Crypto) (node_id : Text) (m : Manager) (secret id : Text)
    → (issue c node_id m).0 ≡ ok (secret, id)
    → Accepts c id secret (issue c node_id m).1.db
unfolding issue ◌>>=◌ fresh_node_id new_id
issue-Accepts c node_id m secret id h = elim (Bool-cases (is_empty node_id)) [
  | inl e ↦ rw e (issue_as-Accepts c (m.world.id m.world.ids) (new_id m).1 secret id (rw e at h))
  | inr e ↦ rw e (issue_as-Accepts c node_id m secret id (rw e at h))
]

abbrev if_consumed : Crypto → Text → Bool → Exec Manager (Text × Text)
if_consumed c node_id consumed = if consumed then issue c node_id else fail token_invalid

consumed-Accepts :
    (c : Crypto) (node_id : Text) (r : Result Bool) (m : Manager) (secret id : Text)
    → (resume r (if_consumed c node_id) m).0 ≡ ok (secret, id)
    → Accepts c id secret (resume r (if_consumed c node_id) m).1.db
unfolding ◌>>=◌
consumed-Accepts c node_id (ok true) m secret id h = issue-Accepts c node_id m secret id h
consumed-Accepts c node_id (ok false) m secret id h = cc
consumed-Accepts c node_id (err e) m secret id h = cc

pub enroll-Accepts :
    (c : Crypto) (token node_id : Text) (m : Manager) (secret id : Text)
    → (enroll c token node_id m).0 ≡ ok (secret, id)
    → Accepts c id secret (enroll c token node_id m).1.db
unfolding enroll ◌>>=◌ now_millis
enroll-Accepts c token node_id m secret id h =
    let now = m.world.clock m.world.readings in
    let r = query (consume_enroll_token (c.hash_token token) now) (now_millis m).1 in
    consumed-Accepts c node_id r.0 r.1 secret id h
