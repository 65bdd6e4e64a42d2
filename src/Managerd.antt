-- ===== src/Managerd.antt =====
-- internal/managerd/server.go: the Manager process put together: the node handshake, the loop that
-- reads a connection, and the reaper; with BearerToken of internal/transport/server.go.
pub mod Handshake
pub mod Sessions
pub mod Upgrade
use sit.Prelude.{
  ℕ, Text, text, ◌==◌, Bool, true, false, Option, none, some, List, [], ◌∷◌, is_empty,
  if◌then◌else◌,
}
use sit.Strings.{trim_space, cut, after_prefix}
use sit.Exec.{
  Error, Result, ok, err, Exec, malformed_token, not_found, pure, fail, gets, attempt, modify,
  ignore, lift, ◌>>=◌, ◌>>◌,
}
use sit.Protocol
use sit.Protocol.{Json, Envelope, MessageType, Notification}
use sit.Protocol.Codec
use sit.Protocol.Codec.{Coded, as_notification}
use sit.Store
use sit.Store.Models.{offline, Admin, ActivityType, ActivityDetail}
use sit.Store.Tasks.{append_activity}
use sit.Registry
use sit.Registry.{Registry, add, drop_session}
use sit.Manager.{Manager, now_millis, query, on_registry}
use sit.Auth.{Crypto, verify_node, seed_admin}
use sit.Reports.{handle}

-- The token of an Authorization header, or the empty text.
unfoldable pub bearer_token : Text → Text
bearer_token header = elim (after_prefix (text "Bearer ") header) [
  | none ↦ []
  | some rest ↦ trim_space rest
]

-- "<node_id>:<secret>"
module _ (c : Crypto) where
  check_pair : Option (Text × Text) → Exec Manager Text
  check_pair none = fail malformed_token
  check_pair (some (node_id, secret)) =
      if is_empty node_id
      then fail malformed_token
      else do verify_node c node_id secret; pure node_id

  unfoldable pub wss_auth : Text → Exec Manager Text
  unfolding check_pair
  wss_auth header = check_pair (cut 58 (bearer_token header))

  -- NewServer, once the store is open: the admin is seeded if it is not there.
  seed_missing : Text → Text → Result Admin → Exec Manager (Unit {0})
  seed_missing user password (err not_found) = seed_admin c user password
  seed_missing user password _ = pure tt

  unfoldable pub new_server : Text → Text → Exec Manager (Unit {0})
  unfolding seed_missing
  new_server user password =
      if is_empty user
      then pure tt
      else if is_empty password
      then pure tt
      else do found ← attempt (query (Store.get_admin user)); seed_missing user password found

-- One frame of a connection: only notifications are handled, and an error is only logged.
handle_coded : Json → Text → Coded Notification → Exec Manager (Unit {0})
handle_coded j node_id (Coded.ok n) = ignore (handle j node_id n)
handle_coded j node_id (Coded.err e) = pure tt

handle_typed : Json → Text → Envelope → MessageType → Exec Manager (Unit {0})
unfolding handle_coded
handle_typed j node_id env MessageType.notification = handle_coded j node_id (as_notification j env)
handle_typed j node_id env _ = pure tt

unfoldable pub handle_frame : Json → Text → Envelope → Exec Manager (Unit {0})
unfolding handle_typed
handle_frame j node_id env = handle_typed j node_id env env.type

unfoldable pub handle_frames : Json → Text → List Envelope → Exec Manager (Unit {0})
handle_frames j node_id [] = pure tt
handle_frames j node_id (env ∷ envs) = do handle_frame j node_id env; handle_frames j node_id envs

-- The start of a connection's life, and its deferred end.
unfoldable pub open_session : Text → ℕ → Exec Manager (Unit {0})
open_session node_id conn = do now ← now_millis; on_registry (add node_id conn now)

unfoldable pub end_session : Text → Exec Manager (Unit {0})
end_session node_id = on_registry (drop_session node_id)

-- handleConn where nothing interleaves: the frames read until the connection ends.
unfoldable pub handle_conn : Json → Text → ℕ → List Envelope → Exec Manager (Unit {0})
handle_conn j node_id conn envs = do
  open_session node_id conn
  handle_frames j node_id envs
  end_session node_id

-- One tick of the reaper.
mark_offline : ℕ → Text → Exec Manager (Unit {0})
mark_offline now id = do
  ignore (query (Store.set_node_status id offline now))
  ignore (
      query (
        append_activity (record {
          id = 0;
          node_id = id;
          type = ActivityType.offline;
          detail = ActivityDetail.empty;
          at = now;
        })))

mark_all : ℕ → List Text → Exec Manager (Unit {0})
unfolding mark_offline
mark_all now [] = pure tt
mark_all now (id ∷ ids) = do mark_offline now id; mark_all now ids

take_stale : ℕ → Exec Manager (List Text)
take_stale now m =
    let (ids, r) = Registry.reap_stale now m.registry in (ok ids, record m { registry = r })

unfoldable pub reap_tick : Exec Manager (Unit {0})
unfolding mark_all take_stale
reap_tick = do now ← now_millis; ids ← take_stale now; mark_all now ids
