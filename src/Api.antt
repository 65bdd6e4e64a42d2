-- ===== src/Api.antt =====
-- internal/manager/api: the REST handlers. A request's JSON body is given as it was decoded, `none`
-- where that failed; a reply is its status and what its body says.
pub mod Access
pub mod Tasks
pub mod Nodes
pub mod Routes
pub mod Kick
use sit.Prelude.{
  ℕ, zero, suc, ◌+◌, Text, text, ◌==◌, Bool, true, false, ◌&&◌, Option, none, some, List, [], ◌∷◌,
  ltb, leb, nat_eq, is_empty, if◌then◌else◌,
}
use sit.Prelude.Int.{ℤ, pos, negsuc, is_pos, add_seconds64}
use sit.Strings.{trim_space}
use sit.Exec.{
  Error, Result, ok, err, Exec, not_found, pure, gets, attempt, modify, ignore, ◌>>=◌, ◌>>◌,
}
use sit.Protocol.{Addr, InstructionKind, Json, predefined, shell}
use sit.Store
use sit.Store.Models.{Status, Task, TaskState, Activity}
use sit.Store.Tasks.{get_task, list_tasks, list_activities}
use sit.Registry.{close_conn, conn_of, drop_session}
use sit.Manager.{Manager, now_millis, new_id, query, on_registry}
use sit.Dispatcher.{create_task}
use sit.Auth.{Crypto, enroll, login, logout, mint_enroll_token, revoke_node, verify_admin}
use sit.Node.Config.{atoi}

pub record HeartbeatMetric : Type 0 where
  pub uptime_sec : ℕ
  pub load : List Text
  pub mem_used_mb : ℕ

-- A node as the API shows it.
pub record NodeDto : Type 0 where
  pub node_id : Text
  pub display_name : Text
  pub status : Status
  pub last_seen : ℕ
  pub os : Text
  pub arch : Text
  pub version : Text
  pub hostname : Text
  pub addrs : List Addr
  pub mcp_enabled : Bool
  pub created_at : ℕ
  pub heartbeat : Option HeartbeatMetric

-- A body by what it carries; an error by its code.
pub data Body : Type 0 where
  empty : Body
  failure : Text → Body
  session : Text → ℕ → Body
  user : Text → Body
  enroll_token : Text → ℕ → Body
  credential : Text → Text → Body
  mcp : Text → Bool → Body
  accepted : Text → TaskState → Body
  task : Task → Body
  tasks : List Task → Body
  activities : List Activity → Body
  nodes : List NodeDto → Body
  node : NodeDto → Body

pub record Reply : Type 0 where
  pub status : ℕ
  pub body : Body

abbrev pub reply : ℕ → Body → Exec Manager Reply
reply status body m = (ok (record { status = status; body = body }), m)

abbrev pub refuse : ℕ → Text → Exec Manager Reply
refuse status code = reply status (failure code)

-- a code point, with a capital letter of ASCII made small
abbrev lower : ℕ → ℕ
lower c = if leb 65 c && leb c 90 then c + 32 else c

-- the rest of the header behind "Bearer ", in letters of either case
after_scheme : Text → Text → Option Text
after_scheme [] s = some s
after_scheme (c ∷ p) [] = none
after_scheme (c ∷ p) (x ∷ s) =
    let rest = after_scheme p s in if nat_eq (lower c) (lower x) then rest else none

unfoldable pub bearer_token : Text → Text
unfolding after_scheme
bearer_token header = elim (after_scheme (text "Bearer ") header) [
  | none ↦ []
  | some rest ↦ trim_space rest
]

admitted : (Text → Exec Manager Reply) → Result Text → Exec Manager Reply
admitted next (err e) = refuse 401 (text "unauthorized")
admitted next (ok name) = next name

-- The middleware: the handler runs with the name of the admin.
unfoldable pub require_admin : Text → (Text → Exec Manager Reply) → Exec Manager Reply
unfolding admitted
require_admin header next =
    if is_empty (bearer_token header)
    then refuse 401 (text "unauthorized")
    else do who ← attempt (verify_admin (bearer_token header)); admitted next who

-- A query parameter, with a default and a cap.
positive_int : ℕ → ℕ → Option ℤ → ℕ
positive_int def max (some (pos (suc n))) = if ltb max (suc n) then max else suc n
positive_int def max _ = def

unfoldable pub query_int : ℕ → ℕ → Text → ℕ
unfolding positive_int
query_int def max s = if is_empty s then def else positive_int def max (atoi s)

-- Nodes

abbrev done_or : Text → Result (Unit {0}) → Exec Manager Reply
done_or code (ok u) = reply 204 empty
done_or code (err e) = refuse 500 code

-- Only a missing row stops here; another error of the lookup goes on.
abbrev unless_missing : {A : Type 0} → Result A → Exec Manager Reply → Exec Manager Reply
unless_missing (err not_found) next = refuse 404 (text "not_found")
unless_missing _ next = next

rename : Text → Text → Exec Manager Reply
rename id name = do
  known ← attempt (query (Store.get_node id))
  unless_missing known
      do r ← attempt (query (Store.set_display_name id name)); done_or (text "internal") r

unfoldable pub handle_patch_node : Text → Option Text → Exec Manager Reply
unfolding rename
handle_patch_node id none = refuse 400 (text "bad_request")
handle_patch_node id (some name) = rename id name

unfoldable pub handle_delete_node : Text → Exec Manager Reply
handle_delete_node id = do
  ignore (revoke_node id)
  on_registry (drop_session id)
  r ← attempt (query (Store.delete_node id))
  done_or (text "internal") r

abbrev toggled : Text → Bool → Result (Unit {0}) → Exec Manager Reply
toggled id enabled (ok u) = reply 200 (mcp id enabled)
toggled id enabled (err e) = refuse 500 (text "internal")

unfoldable pub set_mcp : Text → Bool → Exec Manager Reply
set_mcp id enabled = do
  known ← attempt (query (Store.get_node id))
  unless_missing known
      do r ← attempt (query (Store.set_mcp_enabled id enabled)); toggled id enabled r

-- Enrollment and sessions

abbrev kicked : Text → Option ℕ → Exec Manager Reply
kicked id none = reply 204 empty
kicked id (some i) = do
  on_registry (close_conn i (text "credential revoked"))
  on_registry (drop_session id)
  reply 204 empty

abbrev after_revoke : Text → Result (Unit {0}) → Exec Manager Reply
after_revoke id (err e) = refuse 500 (text "internal")
after_revoke id (ok u) = do conn ← gets (λ m. conn_of id m.registry); kicked id conn

unfoldable pub handle_revoke : Text → Exec Manager Reply
handle_revoke id = do r ← attempt (revoke_node id); after_revoke id r

unfoldable pub handle_logout : Text → Exec Manager Reply
handle_logout header = do logout (bearer_token header); reply 204 empty

unfoldable pub handle_me : Text → Exec Manager Reply
handle_me name = reply 200 (user name)

module _ (c : Crypto) where
  abbrev minted : Result (Text × ℕ) → Exec Manager Reply
  minted (ok (token, exp)) = reply 200 (enroll_token token exp)
  minted (err e) = refuse 500 (text "internal")

  -- thirty minutes
  unfoldable pub handle_enroll : Exec Manager Reply
  handle_enroll = do r ← attempt (mint_enroll_token c 1_800_000); minted r

  abbrev exchanged : Result (Text × Text) → Exec Manager Reply
  exchanged (ok (secret, id)) = reply 200 (credential id secret)
  exchanged (err e) = refuse 401 (text "token_invalid")

  -- the body's token and node id
  unfoldable pub handle_enroll_exchange : Option (Text × Text) → Exec Manager Reply
  handle_enroll_exchange none = refuse 400 (text "bad_request")
  handle_enroll_exchange (some (token, id)) =
      if is_empty token
      then refuse 400 (text "bad_request")
      else do r ← attempt (enroll c token id); exchanged r

  abbrev logged_in : Result (Text × ℕ) → Exec Manager Reply
  logged_in (ok (token, exp)) = reply 200 (session token exp)
  logged_in (err e) = refuse 401 (text "bad_credentials")

  -- the body's name and password; a session lasts twelve hours
  unfoldable pub handle_login : Option (Text × Text) → Exec Manager Reply
  handle_login none = refuse 400 (text "bad_request")
  handle_login (some (name, password)) = do
    r ← attempt (login c name password 43_200_000)
    logged_in r
