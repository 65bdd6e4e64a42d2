-- ===== src/Protocol.antt =====
-- internal/protocol: the messages that Manager and Node exchange. A kind that the code compares
-- with a constant is a constructor; any other text is carried by `other`.
pub mod Codec
use sit.Prelude.{ℕ, Text, Bool, false, Option, none, List, [], text}
use sit.Prelude.Int.{ℤ, pos}

abbrev pub Bytes : Type 0
Bytes = List ℕ

abbrev pub protocol_version : ℕ
protocol_version = 1

abbrev pub max_frame_bytes : ℕ
max_frame_bytes = 1_048_576

pub data MessageType : Type 0 where
  instruction notification ack : MessageType
  other : Text → MessageType

pub data InstructionKind : Type 0 where
  predefined shell : InstructionKind
  other : Text → InstructionKind

pub record Instruction : Type 0 where
  pub kind : InstructionKind
  pub name : Text
  pub args : Option Text  -- the JSON object, as its text
  pub command : Text
  pub timeout_sec : ℤ
  pub deadline : ℤ  -- unix ms
  pub stream : Bool

pub data NotificationKind : Type 0 where
  register heartbeat result event result_chunk : NotificationKind
  other : Text → NotificationKind

pub record Addr : Type 0 where
  pub ip : Text
  pub family : Text
  pub iface : Text
  pub scope : Text

-- `load` is only carried on: each number is kept as its text.
pub record Notification : Type 0 where
  pub kind : NotificationKind
  pub node_id : Text
  pub hostname : Text
  pub os : Text
  pub arch : Text
  pub version : Text
  pub addrs : List Addr
  pub uptime_sec : ℕ
  pub load : List Text
  pub mem_used_mb : ℕ
  pub ref_id : Text
  pub exit_code : ℤ
  pub stdout : Bytes
  pub stderr : Bytes
  pub duration_ms : ℕ
  pub truncated : Bool
  pub timed_out : Bool
  pub event_name : Text
  pub detail : Text

-- `Notification{Kind: k}`: every other field has its zero value.
abbrev pub blank : NotificationKind → Notification
blank k = record {
  kind = k;
  node_id = [];
  hostname = [];
  os = [];
  arch = [];
  version = [];
  addrs = [];
  uptime_sec = 0;
  load = [];
  mem_used_mb = 0;
  ref_id = [];
  exit_code = pos 0;
  stdout = [];
  stderr = [];
  duration_ms = 0;
  truncated = false;
  timed_out = false;
  event_name = [];
  detail = [];
}

pub record Ack : Type 0 where
  pub ref_id : Text

pub record Envelope : Type 0 where
  pub v : ℕ
  pub type : MessageType
  pub id : Text
  pub ts : ℕ  -- unix ms
  pub payload : Bytes

-- encoding/json, which the program calls; `none` is its error.
pub record Json : Type 0 where
  pub instruction_bytes : Instruction → Option Bytes
  pub instruction_of : Bytes → Option Instruction
  pub notification_bytes : Notification → Option Bytes
  pub notification_of : Bytes → Option Notification
  pub ack_bytes : Ack → Option Bytes
  pub ack_of : Bytes → Option Ack
  pub envelope_bytes : Envelope → Option Bytes
  pub envelope_of : Bytes → Option Envelope
  pub is_object : Text → Bool
  pub addrs_text : List Addr → Option Text
  pub addrs_of : Text → List Addr  -- what Unmarshal leaves, whether or not it fails
