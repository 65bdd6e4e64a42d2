-- ===== src/Managerd/Handshake.antt =====
-- wssAuth of internal/managerd/server.go and the credentials behind it.
use sit.Prelude.{
  Text, text, ◌≡◌, ◌≢◌, refl, inl, inr, true, false, Option, none, some, [], ◌∷◌, ◌++◌, arith,
  nat_eq, is_empty, if◌then◌else◌, Bool-cases, ◌∙◌, sym, subst,
}
use sit.Strings.{is_space, trim_space, cut, after_prefix}
use sit.Strings.Laws.{Free, first_ok, last_ok, last_ok-append, trim_space_id, cut-append}
use sit.Exec.{Result, ok, err, bad_credentials, resume, pure, ◌>>=◌}
use sit.Manager.{Manager}
use sit.Auth.{Crypto, verify_node, enroll, revoke_node}
use sit.Auth.Credentials.{
  IsRevoked, Accepts, verify_node-Accepts, verify_node_sound, revoke_node_revokes,
}
use sit.Auth.Issued.{enroll-Accepts}
use sit.Managerd.{bearer_token, wss_auth, check_pair}

-- The header that a node with this identity sends.
abbrev pub node_header : Text → Text → Text
node_header id secret = text "Bearer " ++ (id ++ 58 ∷ secret)

-- An id that a header can carry: not empty, without a colon, and not starting with a space.
abbrev pub IsNodeId : Text → Type 0
IsNodeId id = (is_empty id ≡ false) × Free (nat_eq 58) id × (first_ok is_space id ≡ true)

first_ok-node :
    (id rest : Text)
    → is_empty id ≡ false
    → first_ok is_space id ≡ true
    → first_ok is_space (id ++ rest) ≡ true
first_ok-node [] rest e h = cc
first_ok-node (c ∷ id) rest e h = h

colon_no_space : is_space 58 ≡ false
unfolding is_space
colon_no_space = refl

bearer_token-append : (s : Text) → bearer_token (text "Bearer " ++ s) ≡ trim_space s
unfolding bearer_token after_prefix
bearer_token-append s = refl

bearer_token-node_header :
    (id secret : Text)
    → IsNodeId id
    → last_ok is_space secret ≡ true
    → cut 58 (bearer_token (node_header id secret)) ≡ some (id, secret)
bearer_token-node_header id secret (e, f, h) l =
    rw
      (
        bearer_token-append (id ++ 58 ∷ secret),
        trim_space_id (id ++ 58 ∷ secret) (first_ok-node id (58 ∷ secret) e h)
            (last_ok-append is_space 58 id secret colon_no_space l),
      )
      (cut-append 58 id secret f)

abbrev named : Text → Result (Unit {0}) → Result Text
named id (ok _) = ok id
named id (err e) = err e

-- The answer for a header that splits into an id and a secret.
pair_answer :
    (c : Crypto) (id secret : Text) (m : Manager)
    → is_empty id ≡ false
    → (check_pair c (some (id, secret)) m).0 ≡ named id (verify_node c id secret m).0
unfolding check_pair ◌>>=◌
pair_answer c id secret m e = rw e (go (verify_node c id secret m).0 (verify_node c id secret m).1)
  where
    go : (r : Result (Unit {0})) (m : Manager) → (resume r (λ _. pure id) m).0 ≡ named id r
    go (ok u) m = refl
    go (err e) m = refl

named_ok : (id id' : Text) (r : Result (Unit {0})) → named id r ≡ ok id' → (r ≡ ok tt) × (id ≡ id')
named_ok id id' (ok u) h = (refl, cc)
named_ok id id' (err e) h = cc

pair_sound :
    (c : Crypto) (pair : Option (Text × Text)) (id : Text) (m : Manager)
    → (check_pair c pair m).0 ≡ ok id
    → (secret : Text) × (pair ≡ some (id, secret)) × Accepts c id secret m.db
unfolding check_pair ◌>>=◌
pair_sound c none id m h = cc
pair_sound c (some (i, secret)) id m h = elim (Bool-cases (is_empty i)) [
  | inl e ↦ cc (rw e at h)
  | inr e ↦
      let p = named_ok i id (verify_node c i secret m).0 (sym (pair_answer c i secret m e) ∙ h) in
      (
        secret,
        rw (p.1) refl,
        subst (λ i. Accepts c i secret m.db) p.1 (verify_node_sound c i secret m p.0),
      )
]

-- Whoever passes the handshake as a node showed that node's id with the secret of its credential,
-- which is active.
pub wss_auth_sound :
    (c : Crypto) (header id : Text) (m : Manager)
    → (wss_auth c header m).0 ≡ ok id
    → (secret : Text) × (cut 58 (bearer_token header) ≡ some (id, secret))
      × Accepts c id secret m.db
unfolding wss_auth
wss_auth_sound c header id m h = pair_sound c (cut 58 (bearer_token header)) id m h

pub accepted_connects :
    (c : Crypto) (id secret : Text) (m : Manager)
    → IsNodeId id
    → last_ok is_space secret ≡ true
    → Accepts c id secret m.db
    → (wss_auth c (node_header id secret) m).0
      ≡ (if m.world.fails m.world.calls then err bad_credentials else ok id)
unfolding wss_auth
accepted_connects c id secret m i l a =
    rw
      (
        bearer_token-node_header id secret i l,
        pair_answer c id secret m i.0,
        verify_node-Accepts c id secret m a,
      )
      (ground arith)

-- A node that has enrolled connects with the id and the secret that it was given, unless the
-- database fails, which is reported as bad credentials; the id must be one that a header can
-- carry, and the secret must not end in a space.
pub enroll_connects :
    (c : Crypto) (token node_id : Text) (m : Manager) (secret id : Text)
    → (enroll c token node_id m).0 ≡ ok (secret, id)
    → IsNodeId id
    → last_ok is_space secret ≡ true
    → let m1 = (enroll c token node_id m).1 in
      (wss_auth c (node_header id secret) m1).0
      ≡ (if m1.world.fails m1.world.calls then err bad_credentials else ok id)
enroll_connects c token node_id m secret id h i l =
    accepted_connects c id secret (enroll c token node_id m).1 i l
      (enroll-Accepts c token node_id m secret id h)

pub IsRevoked-refused :
    (c : Crypto) (id header : Text) (m : Manager)
    → IsRevoked id m.db
    → (wss_auth c header m).0 ≢ ok id
IsRevoked-refused c id header m (revoked_cred, found, is_revoked) a =
    let (secret, shown, (cred, found', is_active, hash)) = wss_auth_sound c header id m a in
    ground (arith, found, is_revoked, found', is_active)

-- After a call of RevokeNode that reports no error, no header passes the handshake as that node.
pub revoked_stays_out :
    (c : Crypto) (id header : Text) (m : Manager)
    → (revoke_node id m).0 ≡ ok tt
    → (wss_auth c header (revoke_node id m).1).0 ≢ ok id
revoked_stays_out c id header m h =
    IsRevoked-refused c id header (revoke_node id m).1 (revoke_node_revokes id m h)
