-- ===== src/Tests/Fixtures.antt =====
-- A small Manager, with its outside world, that the examples share.
use sit.Prelude.{get, ℕ, ◌+◌, Text, text, refl, true, false, none, some, [], ◌∷◌, arith}
use sit.Prelude.Int.{pos}
use sit.Protocol
use sit.Protocol.{Json, Instruction, shell, Notification, NotificationKind, blank, Envelope}
use sit.Store.{empty_db}
use sit.Store.Models.{Node, offline, Task, queued, unused, active}
use sit.Transport.{Conn}
use sit.Registry.{Registry, Session, no_heartbeat}
use sit.Window.{empty_window}
use sit.Window.Laws.{IsWindow}
use sit.Manager.{World, Manager}
use sit.Auth.{Crypto}
use sit.Node.Executor.{Host, RunError}

abbrev pub crypto : Crypto
crypto = record {
  bcrypt_hash = λ p. some p;
  bcrypt_matches = λ h p. true;
  hash_token = λ t. 35 ∷ t;
}

-- encoding/json on the few values that the examples marshal
abbrev pub json : Json
json = record {
  instruction_bytes = λ p. some (123 ∷ 125 ∷ []);
  instruction_of = λ b. none;
  notification_bytes = λ n. none;
  notification_of = λ b. none;
  ack_bytes = λ a. none;
  ack_of = λ b. none;
  envelope_bytes = λ e. none;
  envelope_of = λ b. none;
  is_object = λ t. true;
  addrs_text = λ a. none;
  addrs_of = λ t. [];
}

abbrev pub world : World
world = record {
  clock = λ n. n + 1_000;
  readings = 0;
  id = λ n. text "id";
  ids = 0;
  token = λ n. text "secret";
  tokens = 0;
  fails = λ n. false;
  calls = 0;
}

abbrev pub node_row : Text → Node
node_row id = record {
  node_id = id;
  display_name = text "box";
  os = [];
  arch = [];
  version = [];
  hostname = [];
  addrs_json = text "[]";
  status = offline;
  mcp_enabled = true;
  last_seen = 5;
  created_at = 3;
}

abbrev pub task_row : Text → ℕ → ℕ → Task
task_row id created deadline = record {
  task_id = id;
  node_id = text "n1";
  kind = Protocol.InstructionKind.shell;
  command = text "ls";
  name = [];
  args_json = [];
  state = queued;
  created_at = created;
  sent_at = 0;
  finished_at = 0;
  deadline = pos deadline;
  exit_code = pos 0;
  stdout = [];
  stderr = [];
  truncated = false;
  duration_ms = 0;
}

abbrev pub open_conn : Conn
open_conn = record {
  info = record { node_id = text "n1"; remote_addr = []; connected_at = 1 };
  is_open = true;
  accepted = [];
  reason = [];
}

abbrev pub n1_session : Session
n1_session = record { conn = 7; last_seen = 100; last_heartbeat = no_heartbeat }

abbrev pub registry : Registry
registry = record { sessions = (text "n1", n1_session) ∷ []; conns = λ i. open_conn }

abbrev pub manager : Manager
manager = record {
  db = record empty_db {
    nodes = node_row (text "n1") ∷ node_row (text "n2") ∷ [];
    credentials =
        record {
          node_id = text "n1";
          secret_hash = text "#secret";
          state = active;
          issued_at = 1;
          revoked_at = 0;
        }
        ∷ [];
    enroll_tokens =
        record { token_hash = text "#token"; state = unused; expires_at = 9_000; created_at = 1 }
        ∷ [];
    tasks = task_row (text "late") 20 30 ∷ task_row (text "b") 15 0 ∷ task_row (text "a") 10 0 ∷ [];
    admins = record { username = text "root"; password_hash = text "pw"; created_at = 1 } ∷ [];
  };
  registry = registry;
  dispatcher = record {
    window = empty_window;
    waiters = (text "a", 4) ∷ [];
    channels = λ c. none;
    next_channel = 5;
  };
  admin_sessions = [];
  world = world;
}

-- every command prints a line
abbrev pub host : Host
host = record {
  run_command = λ c timeout. record {
    stdout = text "ok";
    stderr = [];
    error = RunError.success;
    duration_ms = 2;
    deadline_exceeded = false;
  };
  handlers = [];
}

abbrev pub list_files : Instruction
list_files = record {
  kind = Protocol.InstructionKind.shell;
  name = [];
  args = none;
  command = text "ls";
  timeout_sec = pos 0;
  deadline = pos 0;
  stream = false;
}

pub empty-IsWindow : {V : Type 0} (n : ℕ) → IsWindow n (empty_window {V = V})
unfolding get
empty-IsWindow n = record { bounded = omega arith; distinct = tt; agree = λ id. refl }
