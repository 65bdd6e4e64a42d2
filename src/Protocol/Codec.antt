-- ===== src/Protocol/Codec.antt =====
-- codec.go: frames are encoded and decoded under a size limit and a version check.
pub mod RoundTrip
use sit.Prelude.{ℕ, Text, Option, none, some, ltb, nat_eq, length, if◌then◌else◌}
use sit.Protocol.{
  Bytes, protocol_version, max_frame_bytes, MessageType, Instruction, Notification, Ack, Envelope,
  Json,
}

pub data CodecError : Type 0 where
  frame_too_large unsupported_version bad_json wrong_type : CodecError

pub data Coded (A : Type 0) : Type 0 where
  ok : A → Coded A
  err : CodecError → Coded A

-- json.Unmarshal into a value, with its error
abbrev from_json : {A : Type 0} → Option A → Coded A
from_json none = err bad_json
from_json (some a) = ok a

module _ (j : Json) (id : Text) (now : ℕ) where
  new_envelope : MessageType → Option Bytes → Coded Envelope
  new_envelope typ none = err bad_json
  new_envelope typ (some raw) =
      ok (record { v = protocol_version; type = typ; id = id; ts = now; payload = raw })

  unfoldable pub new_instruction : Instruction → Coded Envelope
  unfolding new_envelope
  new_instruction p = new_envelope MessageType.instruction (j.instruction_bytes p)

  unfoldable pub new_notification : Notification → Coded Envelope
  unfolding new_envelope
  new_notification p = new_envelope MessageType.notification (j.notification_bytes p)

  unfoldable pub new_ack : Text → Coded Envelope
  unfolding new_envelope
  new_ack ref_id = new_envelope MessageType.ack (j.ack_bytes (record { ref_id = ref_id }))

abbrev check_size : Bytes → Coded Bytes
check_size b = if ltb max_frame_bytes (length b) then err frame_too_large else ok b

abbrev encoded : Option Bytes → Coded Bytes
encoded none = err bad_json
encoded (some b) = check_size b

abbrev check_version : Coded Envelope → Coded Envelope
check_version (err e) = err e
check_version (ok e) = if nat_eq e.v protocol_version then ok e else err unsupported_version

module _ (j : Json) where
  unfoldable pub encode : Envelope → Coded Bytes
  encode e = encoded (j.envelope_bytes e)

  unfoldable pub decode : Bytes → Coded Envelope
  decode b =
      if ltb max_frame_bytes (length b)
      then err frame_too_large
      else check_version (from_json (j.envelope_of b))

  abbrev as_type : {A : Type 0} → MessageType → MessageType → Option A → Coded A
  as_type MessageType.instruction MessageType.instruction p = from_json p
  as_type MessageType.notification MessageType.notification p = from_json p
  as_type MessageType.ack MessageType.ack p = from_json p
  as_type _ _ p = err wrong_type

  unfoldable pub as_instruction : Envelope → Coded Instruction
  as_instruction e = as_type e.type MessageType.instruction (j.instruction_of e.payload)

  unfoldable pub as_notification : Envelope → Coded Notification
  as_notification e = as_type e.type MessageType.notification (j.notification_of e.payload)

  unfoldable pub as_ack : Envelope → Coded Ack
  as_ack e = as_type e.type MessageType.ack (j.ack_of e.payload)
