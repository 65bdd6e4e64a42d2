-- ===== src/Store/Models.antt =====
-- internal/manager/store/models.go: the rows of the tables. State columns are enumerations; the
-- text of an activity's detail is kept as the value that is marshalled into it.
use sit.Prelude.{ℕ, Text, Bool}
use sit.Prelude.Int.{ℤ}
use sit.Protocol.{Bytes, InstructionKind}

pub data Status : Type 0 where
  online offline : Status

pub record Node : Type 0 where
  pub node_id : Text
  pub display_name : Text
  pub os : Text
  pub arch : Text
  pub version : Text
  pub hostname : Text
  pub addrs_json : Text
  pub status : Status
  pub mcp_enabled : Bool
  pub last_seen : ℕ  -- unix ms
  pub created_at : ℕ

pub data CredentialState : Type 0 where
  active revoked : CredentialState

pub record Credential : Type 0 where
  pub node_id : Text
  pub secret_hash : Text
  pub state : CredentialState
  pub issued_at : ℕ
  pub revoked_at : ℕ

pub data EnrollState : Type 0 where
  unused used expired : EnrollState

pub record EnrollToken : Type 0 where
  pub token_hash : Text
  pub state : EnrollState
  pub expires_at : ℕ
  pub created_at : ℕ

pub data TaskState : Type 0 where
  queued sent succeeded failed expired timeout : TaskState

pub record Task : Type 0 where
  pub task_id : Text
  pub node_id : Text
  pub kind : InstructionKind
  pub command : Text
  pub name : Text
  pub args_json : Text
  pub state : TaskState
  pub created_at : ℕ
  pub sent_at : ℕ
  pub finished_at : ℕ
  pub deadline : ℤ
  pub exit_code : ℤ
  pub stdout : Bytes
  pub stderr : Bytes
  pub truncated : Bool
  pub duration_ms : ℕ

pub data ActivityDetail : Type 0 where
  empty : ActivityDetail
  task_sent : Text → InstructionKind → ActivityDetail
  task_result : Text → TaskState → ActivityDetail
  registered : Text → Text → Text → ActivityDetail
  reported : Text → Text → ActivityDetail

pub data ActivityType : Type 0 where
  register online offline event task_sent task_result : ActivityType

pub record Activity : Type 0 where
  pub id : ℕ
  pub node_id : Text
  pub type : ActivityType
  pub detail : ActivityDetail
  pub at : ℕ

pub record Admin : Type 0 where
  pub username : Text
  pub password_hash : Text
  pub created_at : ℕ
