-- ===== src/Store.antt =====
-- internal/manager/store: the Store interface as sqlite.go implements it. Each method is an action
-- on the tables; a failure of the database itself is added by the caller (Manager).
pub mod Models
pub mod Order
pub mod Search
pub mod Tasks
use sit.Prelude.{
  ℕ, zero, suc, ◌+◌, Text, ◌==◌, Bool, true, false, ◌&&◌, Option, none, some, List, [], ◌∷◌, ◌++◌,
  leb, ltb, nat_eq, select, take, has, is_empty, if◌then◌else◌,
}
use sit.Exec.{Error, Result, ok, err, Exec, not_found, constraint}
use sit.Table.{find, update, delete, upsert}
use Models.{
  Status, online, offline, Node, CredentialState, active, revoked, Credential, EnrollState, unused,
  used, EnrollToken, TaskState, queued, sent, succeeded, failed, timeout, Task, Activity, Admin,
}

pub record Db : Type 0 where
  pub nodes : List Node
  pub credentials : List Credential
  pub enroll_tokens : List EnrollToken
  pub tasks : List Task
  pub activities : List Activity
  pub next_activity : ℕ  -- AUTOINCREMENT
  pub admins : List Admin

abbrev pub empty_db : Db
empty_db = record {
  nodes = [];
  credentials = [];
  enroll_tokens = [];
  tasks = [];
  activities = [];
  next_activity = 1;
  admins = [];
}

abbrev pub node_key : Node → Text
node_key n = n.node_id

abbrev pub credential_key : Credential → Text
credential_key c = c.node_id

abbrev pub token_key : EnrollToken → Text
token_key t = t.token_hash

abbrev pub task_key : Task → Text
task_key t = t.task_id

abbrev pub admin_key : Admin → Text
admin_key a = a.username

-- sql.ErrNoRows becomes ErrNotFound
abbrev pub or_not_found : {A : Type 0} → Option A → Result A
or_not_found none = err not_found
or_not_found (some a) = ok a

-- `affectOne`: no affected row becomes ErrNotFound
abbrev pub affect_one : {A : Type 0} → Option A → Db → Db → Result (Unit {0}) × Db
affect_one none db db' = (err not_found, db)
affect_one (some a) db db' = (ok tt, db')

-- Nodes

-- display_name, mcp_enabled and created_at stay as they are on a conflict
abbrev pub refresh : Node → Node → Node
refresh n old = record old {
  os = n.os;
  arch = n.arch;
  version = n.version;
  hostname = n.hostname;
  addrs_json = n.addrs_json;
  status = n.status;
  last_seen = n.last_seen;
}

unfoldable pub upsert_node : Node → Exec Db (Unit {0})
upsert_node n db = (ok tt, record db { nodes = upsert node_key n (refresh n) db.nodes })

unfoldable pub get_node : Text → Exec Db Node
get_node id db = (or_not_found (find node_key id db.nodes), db)

unfoldable pub set_display_name : Text → Text → Exec Db (Unit {0})
set_display_name id name db =
    affect_one (find node_key id db.nodes) db
      (record db { nodes = update node_key id (λ n. record n { display_name = name }) db.nodes })

unfoldable pub set_node_status : Text → Status → ℕ → Exec Db (Unit {0})
set_node_status id status at db = affect_one (find node_key id db.nodes) db (record db {
  nodes = update node_key id (λ n. record n { status = status; last_seen = at }) db.nodes;
})

unfoldable pub set_mcp_enabled : Text → Bool → Exec Db (Unit {0})
set_mcp_enabled id enabled db =
    affect_one (find node_key id db.nodes) db
      (record db { nodes = update node_key id (λ n. record n { mcp_enabled = enabled }) db.nodes })

unfoldable pub delete_node : Text → Exec Db (Unit {0})
delete_node id db = (ok tt, record db { nodes = delete node_key id db.nodes })

-- Credentials

-- every column but the key is set anew on a conflict
unfoldable pub put_credential : Credential → Exec Db (Unit {0})
put_credential c db = (
  ok tt,
  record db {
    credentials =
        upsert credential_key c (λ old. record c { node_id = old.node_id }) db.credentials;
  },
)

unfoldable pub get_credential : Text → Exec Db Credential
get_credential id db = (or_not_found (find credential_key id db.credentials), db)

unfoldable pub revoke_credential : Text → ℕ → Exec Db (Unit {0})
revoke_credential id at db = affect_one (find credential_key id db.credentials) db (record db {
  credentials =
      update credential_key id (λ c. record c { state = revoked; revoked_at = at }) db.credentials;
})

-- Enrollment tokens

abbrev insert : {R : Type 0} → (R → Text) → R → List R → (List R → Db) → Db → Result (Unit {0}) × Db
insert key r rows build db =
    if has (find key (key r) rows) then (err constraint, db) else (ok tt, build (rows ++ r ∷ []))

unfoldable pub put_enroll_token : EnrollToken → Exec Db (Unit {0})
put_enroll_token t db =
    insert token_key t db.enroll_tokens (λ rows. record db { enroll_tokens = rows }) db

abbrev is_unused : EnrollState → Bool
is_unused unused = true
is_unused _ = false

-- WHERE token_hash=? AND state='unused' AND expires_at>=?
unfoldable pub consumable : ℕ → EnrollToken → Bool
consumable now t = is_unused t.state && leb now t.expires_at

abbrev consume_found : Text → ℕ → Option EnrollToken → Exec Db Bool
consume_found hash now none db = (ok false, db)
consume_found hash now (some t) db =
    if consumable now t
    then (
      ok true,
      record db {
        enroll_tokens =
            update token_key hash (λ (t : EnrollToken). record t { state = used }) db.enroll_tokens;
      },
    )
    else (ok false, db)

-- The hash is the primary key, so the statement affects one row at most.
unfoldable pub consume_enroll_token : Text → ℕ → Exec Db Bool
consume_enroll_token hash now db = consume_found hash now (find token_key hash db.enroll_tokens) db

-- Admins

unfoldable pub put_admin : Admin → Exec Db (Unit {0})
put_admin a db = (
  ok tt,
  record db {
    admins = upsert admin_key a (λ old. record old { password_hash = a.password_hash }) db.admins;
  },
)

unfoldable pub get_admin : Text → Exec Db Admin
get_admin name db = (or_not_found (find admin_key name db.admins), db)
