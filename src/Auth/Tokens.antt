-- ===== src/Auth/Tokens.antt =====
-- Enroll of internal/manager/auth.go and the enrollment tokens.
use sit.Prelude.{
  ℕ, Text, eq_refl, ◌≡◌, refl, ◌⊎◌, inl, inr, Bool, true, false, Option, none, some, List, arith,
  if◌then◌else◌, Bool-cases, Option-cases, ◌∙◌,
}
use sit.Exec.{Error, Result, ok, err, Exec, io, token_invalid, fail, ◌>>=◌}
use sit.Exec.Keeps.{Keeps, keeps_rules}
use sit.Table.{find}
use sit.Table.Laws.{find-update}
use sit.Store
use sit.Store.{Db, token_key, consumable, consume_enroll_token}
use sit.Store.Models.{EnrollToken, used, Node, Credential}
use sit.Manager.{Manager, now_millis, query}
use sit.Manager.Rules.{OfDb, db_rules}
use sit.Auth.{Crypto, issue, enroll, ensure_node, fresh_node_id}

-- The token with this hash, if there is one, is used up.
abbrev pub IsSpent : Text → Db → Type 0
IsSpent hash db =
    (t : EnrollToken) × (find token_key hash db.enroll_tokens ≡ some t) × (t.state ≡ used)

abbrev pub may_consume : ℕ → Option EnrollToken → Bool
may_consume now none = false
may_consume now (some t) = consumable now t

-- The statement answers whether the token was unused and in its time, and spends it if so.
pub consume_cases :
    (hash : Text) (now : ℕ) (db : Db)
    → ((consume_enroll_token hash now db).0
        ≡ ok (may_consume now (find token_key hash db.enroll_tokens)))
      × (may_consume now (find token_key hash db.enroll_tokens) ≡ true
          → IsSpent hash (consume_enroll_token hash now db).1)
      × (may_consume now (find token_key hash db.enroll_tokens) ≡ false
          → (consume_enroll_token hash now db).1 ≡ db)
unfolding consume_enroll_token
consume_cases hash now db = elim (Option-cases (find token_key hash db.enroll_tokens)) [
  | inl n ↦ rw n (refl, λ h. cc, λ h. refl)
  | inr (t, n) ↦ elim (Bool-cases (consumable now t)) [
    | inl c ↦
        rw (n, c)
          (
            refl,
            λ h. (
              record t { state = used },
              find-update token_key hash hash (λ (t : EnrollToken). record t { state = used })
                    db.enroll_tokens (λ r. refl)
                  ∙ ground (arith, n, eq_refl hash),
              refl,
            ),
            λ h. cc,
          )
    | inr c ↦ rw (n, c) (refl, λ h. cc, λ h. refl)
  ]
]

spent_refused :
    (hash : Text) (now : ℕ) (db : Db)
    → IsSpent hash db
    → may_consume now (find token_key hash db.enroll_tokens) ≡ false
unfolding consumable
spent_refused hash now db (t, f, u) = rw (f, u) refl

abbrev HasTokens : List EnrollToken → Db → Type 0
HasTokens ts db = db.enroll_tokens ≡ ts

module _ (ts : List EnrollToken) where
  upsert-HasTokens : (n : Node) → Keeps (HasTokens ts) (Store.upsert_node n)
  unfolding Store.upsert_node
  upsert-HasTokens n = record { at = λ s h. h }

  credential-HasTokens : (c : Credential) → Keeps (HasTokens ts) (Store.put_credential c)
  unfolding Store.put_credential
  credential-HasTokens c = record { at = λ s h. h }

  get_node-HasTokens : (id : Text) → Keeps (HasTokens ts) (Store.get_node id)
  unfolding Store.get_node
  get_node-HasTokens id = record { at = λ s h. h }

  fresh-HasTokens : (id : Text) → Keeps (OfDb (HasTokens ts)) (fresh_node_id id)
  unfolding fresh_node_id
  fresh-HasTokens id = search (keeps_rules, db_rules)

  ensure-HasTokens :
      (id : Text) (now : ℕ) (r : Result Node) → Keeps (OfDb (HasTokens ts)) (ensure_node id now r)
  unfolding ensure_node
  ensure-HasTokens id now (err Error.not_found) = search (keeps_rules, db_rules, upsert-HasTokens)
  ensure-HasTokens id now _ = search keeps_rules

  issue-HasTokens : (c : Crypto) (id : Text) → Keeps (OfDb (HasTokens ts)) (issue c id)
  unfolding issue
  issue-HasTokens c id =
      search
        (
          keeps_rules, db_rules, credential-HasTokens, get_node-HasTokens, fresh-HasTokens,
          ensure-HasTokens,
        )
        depth 9

-- `Enroll` after its clock reading
abbrev enroll_at : Crypto → Text → Text → ℕ → Exec Manager (Text × Text)
enroll_at c token node_id now =
    query (consume_enroll_token (c.hash_token token) now) >>= λ consumed.
    if consumed then issue c node_id else fail token_invalid

abbrev pub valid_at : Crypto → Text → ℕ → Manager → Bool
valid_at c token now m = may_consume now (find token_key (c.hash_token token) m.db.enroll_tokens)

-- What a call of `Enroll` has done, by whether the database fails and the token is valid.
data Enrolled (c : Crypto) (token node_id : Text) (now : ℕ) (m : Manager)
    : Result (Text × Text) × Manager → Type 0 where
  broken :
      {r : Result (Text × Text) × Manager}
      → r.0 ≡ err io
      → r.1.db ≡ m.db
      → Enrolled c token node_id now m r
  refused :
      {r : Result (Text × Text) × Manager}
      → valid_at c token now m ≡ false
      → r.0 ≡ err token_invalid
      → r.1.db ≡ m.db
      → Enrolled c token node_id now m r
  accepted :
      (m' : Manager)
      → valid_at c token now m ≡ true
      → IsSpent (c.hash_token token) m'.db
      → Enrolled c token node_id now m (issue c node_id m')

enrolled :
    (c : Crypto) (token node_id : Text) (now : ℕ) (m : Manager)
    → Enrolled c token node_id now m (enroll_at c token node_id now m)
unfolding query ◌>>=◌
enrolled c token node_id now m =
    let facts = consume_cases (c.hash_token token) now m.db in
    elim (Bool-cases (m.world.fails m.world.calls)) [
      | inl e ↦ rw e (broken refl refl)
      | inr e ↦ elim (Bool-cases (valid_at c token now m)) [
        | inl v ↦ rw (e, facts.0, v) (accepted _ v (facts.1 v))
        | inr v ↦ rw (e, facts.0, v) (refused v refl (facts.2 v))
      ]
    ]

-- A spent token stays spent through the issue of a credential.
IsSpent-issue :
    (hash : Text) (c : Crypto) (id : Text) (m : Manager)
    → IsSpent hash m.db
    → IsSpent hash (issue c id m).1.db
IsSpent-issue hash c id m (t, f, u) =
    (t, rw (((issue-HasTokens m.db.enroll_tokens c id).at m (record { holds = refl })).holds) f, u)

accepted-IsSpent :
    (c : Crypto) (token node_id : Text) (now : ℕ) (m : Manager) (r : Result (Text × Text) × Manager)
    → Enrolled c token node_id now m r
    → {a : Text × Text} → r.0 ≡ ok a
    → (valid_at c token now m ≡ true) × IsSpent (c.hash_token token) r.1.db
accepted-IsSpent c token node_id now m r (broken e d) h = cc
accepted-IsSpent c token node_id now m r (refused v e d) h = cc
accepted-IsSpent c token node_id now m _ (accepted m' v s) h =
    (v, IsSpent-issue (c.hash_token token) c node_id m' s)

spent_rejected :
    (c : Crypto) (token node_id : Text) (now : ℕ) (m : Manager) (r : Result (Text × Text) × Manager)
    → IsSpent (c.hash_token token) m.db
    → Enrolled c token node_id now m r
    → ((r.0 ≡ err io) ⊎ (r.0 ≡ err token_invalid)) × (r.1.db ≡ m.db)
spent_rejected c token node_id now m r s (broken e d) = (inl e, d)
spent_rejected c token node_id now m r s (refused v e d) = (inr e, d)
spent_rejected c token node_id now m _ s (accepted m' v t) =
    absurd (true_false v (spent_refused (c.hash_token token) now m.db s))
  where
    true_false : {b : Bool} → b ≡ true → b ≡ false → ⊥
    true_false p q = cc

-- Whoever enrolls successfully held a token that was unused and in its time, and has spent it; the
-- use of a spent token fails, whatever node asks, and changes nothing in the database.
pub enroll_once :
    (c : Crypto) (token node_id : Text) (m : Manager)
    → ((a : Text × Text)
        → (enroll c token node_id m).0 ≡ ok a
        → (valid_at c token (m.world.clock m.world.readings) m ≡ true)
          × IsSpent (c.hash_token token) (enroll c token node_id m).1.db)
      × (IsSpent (c.hash_token token) m.db
          → (((enroll c token node_id m).0 ≡ err io)
              ⊎ ((enroll c token node_id m).0 ≡ err token_invalid))
            × ((enroll c token node_id m).1.db ≡ m.db))
unfolding enroll now_millis ◌>>=◌
enroll_once c token node_id m =
    let now = m.world.clock m.world.readings in
    let m' = (now_millis m).1 in
    let done = enrolled c token node_id now m' in
    (
      λ a h. accepted-IsSpent c token node_id now m' (enroll_at c token node_id now m') done h,
      λ s. spent_rejected c token node_id now m' (enroll_at c token node_id now m') s done,
    )
