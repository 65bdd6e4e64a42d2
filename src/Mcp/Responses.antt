-- ===== src/Mcp/Responses.antt =====
-- The bodies that internal/manager/mcp/gateway.go and tools.go write: JSON-RPC responses and the
-- tools' results in them.
use sit.Prelude.{
  ◌≡◌, refl, ◌⊎◌, inl, inr, has, ℕ, ◌-◌, Text, text, Bool, true, false, Option, none, some, List,
  [], ◌∷◌, is_empty, if◌then◌else◌,
}
use sit.Prelude.Int.{ℤ, negsuc}
use sit.Protocol.{Addr, Notification, Json}
use sit.Store.Models.{Node, Status, Task, TaskState, timeout}
use sit.Store.Search.{status_text}
use sit.Store.Tasks.{state_text}
use sit.Mcp.{Answer, server_info, tool_list, rpc_error, pending, finished, node_status}
use sit.Mcp
use sit.Mcp.Values.{
  Value, Values, Fields, Codec, null, boolean, integer, number, array, object, item, no_items,
  field, no_fields, natural, text_field,
}
use sit.Mcp.Tools.{tool_defs}

pub record RpcResponse : Type 0 where
  pub id : Value
  pub result : Option Value
  pub error : Option ℤ  -- the code

-- an HTTP status, with the JSON-RPC body if there is one
pub record HttpReply : Type 0 where
  pub status : ℕ
  pub body : Option RpcResponse

-- the answer to initialize
info : Value
info = object (
    text_field (text "protocolVersion") (text "2025-03-26") (
      field (text "serverInfo")
        (object (
          text_field (text "name") (text "sit-manager")
            (text_field (text "version") (text "0.1.0") no_fields)))
        (field (text "capabilities") (object (field (text "tools") (object no_fields) no_fields))
          no_fields)))

abbrev is_timeout : TaskState → Bool
is_timeout timeout = true
is_timeout _ = false

unfoldable pub task_result : Task → Value
task_result t = object (
    text_field (text "stdout") t.stdout (
      text_field (text "stderr") t.stderr (
        field (text "exit_code") (integer t.exit_code) (
          field (text "duration_ms") (natural t.duration_ms) (
            field (text "truncated") (boolean t.truncated) (
              field (text "timed_out") (boolean (is_timeout t.state))
                (text_field (text "state") (state_text t.state) no_fields)))))))

unfoldable pub pending_result : Text → Value
pending_result id =
    object (text_field (text "task_id") id (field (text "pending") (boolean true) no_fields))

numbers : List Text → Values
numbers [] = no_items
numbers (n ∷ ns) = item (number n) (numbers ns)

heartbeat_field : Option Notification → Fields
unfolding numbers
heartbeat_field none = no_fields
heartbeat_field (some hb) =
    field (text "last_heartbeat")
      (object (
        field (text "uptime_sec") (natural hb.uptime_sec) (
          field (text "load") (array (numbers hb.load))
            (field (text "mem_used_mb") (natural hb.mem_used_mb) no_fields))))
      no_fields

addr_values : List Addr → Values
addr_values [] = no_items
addr_values (a ∷ more) =
    item
      (object (
        text_field (text "ip") a.ip (
          text_field (text "family") a.family
            (text_field (text "iface") a.iface (text_field (text "scope") a.scope no_fields)))))
      (addr_values more)

module _ (j : Json) where
  -- the body of getStatus
  unfoldable pub status_result : Node → Status → Option Notification → Value
  unfolding heartbeat_field addr_values
  status_result n s hb = object (
      text_field (text "node_id") n.node_id (
        text_field (text "display_name") n.display_name (
          text_field (text "status") (status_text s) (
            field (text "last_seen") (natural n.last_seen) (
              text_field (text "os") n.os (
                text_field (text "arch") n.arch (
                  text_field (text "version") n.version (
                    field (text "addrs")
                      (if is_empty n.addrs_json
                        then null
                        else array (addr_values (j.addrs_of n.addrs_json)))
                      (heartbeat_field hb)))))))))

  module _ (c : Codec) where
    -- normalizeID: the raw id, or null where there is none or it is not JSON
    unfoldable pub normalize_id : Option Text → Value
    normalize_id none = null
    normalize_id (some raw) = elim (c.value_of raw) [ none ↦ null | some v ↦ v ]

    unfoldable pub write_result : Option Text → Value → HttpReply
    write_result id result = record {
      status = 200;
      body = some (record { id = normalize_id id; result = some result; error = none });
    }

    unfoldable pub write_rpc_error : Option Text → ℕ → HttpReply
    write_rpc_error id code = record {
      status = 200;
      body =
          some (record { id = normalize_id id; result = none; error = some (negsuc (code - 1)) });
    }

    unfoldable pub write_tool_result : Option Text → Value → HttpReply
    write_tool_result id payload = write_result id (
        object (
          field (text "content")
            (array (
              item
                (object (
                  text_field (text "type") (text "text")
                    (text_field (text "text") (c.text_of payload) no_fields)))
                no_items))
            (field (text "structuredContent") payload
              (field (text "isError") (boolean false) no_fields))))

    -- What is written for each answer to a request with the given id.
    unfoldable pub respond : Option Text → Answer → HttpReply
    unfolding info
    respond id (Mcp.Answer.status code) = record { status = code; body = none }
    respond id server_info = write_result id info
    respond id tool_list = write_result id (object (field (text "tools") tool_defs no_fields))
    respond id (rpc_error code) = write_rpc_error id code
    respond id (pending task_id) = write_tool_result id (pending_result task_id)
    respond id (finished t) = write_tool_result id (task_result t)
    respond id (node_status n s hb) = write_tool_result id (status_result n s hb)

-- Of the answers to a request that has an id, those that are JSON-RPC bodies carry the id and
-- exactly one of a result and an error.
abbrev pub IsEcho : Value → Option RpcResponse → Type 0
IsEcho id none = Unit
IsEcho id (some r) =
    (r.id ≡ id)
    × (((has r.result ≡ true) × (has r.error ≡ false))
        ⊎ ((has r.result ≡ false) × (has r.error ≡ true)))

respond-IsEcho :
    (j : Json) (c : Codec) (id : Option Text) (a : Answer)
    → IsEcho (normalize_id j c id) (respond j c id a).body
unfolding respond write_result write_rpc_error write_tool_result
respond-IsEcho j c id (Mcp.Answer.status code) = tt
respond-IsEcho j c id server_info = (refl, inl (refl, refl))
respond-IsEcho j c id tool_list = (refl, inl (refl, refl))
respond-IsEcho j c id (rpc_error code) = (refl, inr (refl, refl))
respond-IsEcho j c id (pending task_id) = (refl, inl (refl, refl))
respond-IsEcho j c id (finished t) = (refl, inl (refl, refl))
respond-IsEcho j c id (node_status n s hb) = (refl, inl (refl, refl))
