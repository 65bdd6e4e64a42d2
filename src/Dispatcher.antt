-- ===== src/Dispatcher.antt =====
-- internal/manager/dispatcher.go: tasks are created, sent or queued, and paired with results. Each
-- section under the mutex is one action; json is encoding/json.
pub mod Results
pub mod Completion
pub mod Delivery
pub mod Creation
pub mod Frames
pub mod Queue
pub mod Races
pub mod Rows
use sit.Prelude.{
  ℕ, ◌+◌, Text, Bool, true, false, ◌&&◌, Option, none, some, List, [], ◌∷◌, nat_eq, get, put,
  remove, has, is_empty, if◌then◌else◌,
}
use sit.Prelude.Int.{pos, is_pos, nonzero, exceeds}
use sit.Exec.{
  Result, ok, err, Exec, io, pure, fail, lift, gets, attempt, modify, ignore, ◌>>=◌, ◌>>◌,
}
use sit.Protocol.{Bytes, Instruction, Notification, Envelope, Json}
use sit.Protocol
use sit.Protocol.Codec.{Coded, new_instruction}
use sit.Store.{or_not_found}
use sit.Store.Models.{
  TaskState, queued, sent, succeeded, failed, expired, timeout, Task, ActivityType, ActivityDetail,
}
use sit.Store.Tasks
use sit.Store.Tasks.{get_task, queued_tasks, update_task_state, complete_task, append_activity}
use sit.Registry.{is_online, conn_of}
use sit.Window.{lookup, push}
use sit.Manager.{Manager, now_millis, new_id, query, send_on}

abbrev pub dedup_window : ℕ
dedup_window = 4096

-- Both `appendActivity` methods: an error is dropped.
unfoldable pub log_activity : Text → ActivityType → ActivityDetail → Exec Manager (Unit {0})
log_activity node_id typ detail = do
  at ← now_millis
  ignore (
      query (
        append_activity
          (record { id = 0; node_id = node_id; type = typ; detail = detail; at = at })))

-- The instruction that carries a task. Its timeout_sec is not set.
unfoldable pub instruction_of_task : Json → Task → Instruction
instruction_of_task j t = record {
  kind = t.kind;
  name = t.name;
  args =
      if is_empty t.args_json
      then none
      else if j.is_object t.args_json
      then some t.args_json
      else none;
  command = t.command;
  timeout_sec = pos 0;
  deadline = t.deadline;
  stream = false;
}

coded : {A : Type 0} → Coded A → Result A
coded (Coded.ok a) = ok a
coded (Coded.err e) = err io

-- NewInstruction, which draws an id and a time once the payload is marshalled
drawn : Json → Instruction → Option Bytes → Exec Manager Envelope
drawn j p none = fail io
drawn j p (some raw) = do id ← new_id; now ← now_millis; lift (coded (new_instruction j id now p))

unfoldable pub instruction_envelope : Json → Instruction → Exec Manager Envelope
unfolding drawn coded
instruction_envelope j p = drawn j p (j.instruction_bytes p)

-- Up to `conn.Send`: the envelope's id is the task's.
unfoldable pub send_frame : Json → Task → Exec Manager (Unit {0})
send_frame j t = do
  conn ← gets (λ m. conn_of t.node_id m.registry)
  i ← lift (or_not_found conn)
  env ← instruction_envelope j (instruction_of_task j t)
  send_on i (record env { id = t.task_id })

unfoldable pub mark_sent : Task → Exec Manager (Unit {0})
mark_sent t = do at ← now_millis; query (update_task_state t.task_id sent at)

unfoldable pub send : Json → Task → Exec Manager (Unit {0})
send j t = do send_frame j t; mark_sent t

-- `t` as CreateTask stores it
stamp : Task → ℕ → Task
stamp t now = record t { state = queued; created_at = now }

creation_time : Task → Exec Manager ℕ
creation_time t = if nat_eq t.created_at 0 then now_millis else pure t.created_at

-- what CreateTask returns after trying to send
delivered : Task → Result (Unit {0}) → Task
delivered t (ok _) = record t { state = sent }
delivered t (err e) = t

deliver : Json → Task → Bool → Exec Manager Task
deliver j t false = pure t
deliver j t true = do r ← attempt (send j t); pure (delivered t r)

-- CreateTask once the row is stored
unfoldable pub dispatch_created : Json → Task → Exec Manager Task
unfolding delivered deliver
dispatch_created j t = do
  log_activity t.node_id ActivityType.task_sent (ActivityDetail.task_sent t.task_id t.kind)
  online ← gets (λ m. is_online t.node_id m.registry)
  deliver j t online

unfoldable pub create_task : Json → Task → Exec Manager Task
unfolding stamp creation_time
create_task j t = do
  now ← creation_time t
  query (Tasks.create_task (stamp t now))
  dispatch_created j (stamp t now)

unfoldable pub has_passed : ℕ → Task → Bool
has_passed now t = is_pos t.deadline && exceeds now t.deadline

unfoldable pub flush_one : Json → ℕ → Task → Exec Manager (Unit {0})
unfolding has_passed
flush_one j now t =
    if has_passed now t
    then ignore (query (update_task_state t.task_id expired now))
    else ignore (send j t)

unfoldable pub flush_all : Json → ℕ → List Task → Exec Manager (Unit {0})
flush_all j now [] = pure tt
flush_all j now (t ∷ ts) = do flush_one j now t; flush_all j now ts

unfoldable pub flush_queue : Json → Text → Exec Manager (Unit {0})
unfolding flush_all
flush_queue j node_id = do
  tasks ← query (queued_tasks node_id)
  now ← now_millis
  flush_all j now tasks

-- The waiters: `wait` returns the channel that it made.
unfoldable pub wait : Text → Exec Manager ℕ
wait task_id m =
    let ch = m.dispatcher.next_channel in
    (
      ok ch,
      record m {
        dispatcher = record m.dispatcher {
          waiters = put task_id ch m.dispatcher.waiters;
          next_channel = ch + 1;
        };
      },
    )

unfoldable pub cancel_wait : Text → Exec Manager (Unit {0})
cancel_wait task_id = modify λ m. record m {
  dispatcher = record m.dispatcher { waiters = remove task_id m.dispatcher.waiters };
}

give : Text → Option ℕ → Task → Manager → Manager
give task_id none t m = m
give task_id (some ch) t m = record m {
  dispatcher = record m.dispatcher {
    waiters = remove task_id m.dispatcher.waiters;
    channels = λ c. if nat_eq ch c then some t else m.dispatcher.channels c;
  };
}

unfoldable pub notify_waiter : Text → Task → Exec Manager (Unit {0})
unfolding give
notify_waiter task_id t = modify λ m. give task_id (get task_id m.dispatcher.waiters) t m

unfoldable pub seen_recently : Text → Manager → Bool
seen_recently id m = has (lookup id m.dispatcher.window)

unfoldable pub mark_seen : Text → Exec Manager (Unit {0})
mark_seen id = modify λ m. record m {
  dispatcher = record m.dispatcher { window = push dedup_window id tt m.dispatcher.window };
}

unfoldable pub result_state : Notification → TaskState
result_state n = if n.timed_out then timeout else if nonzero n.exit_code then failed else succeeded

-- The row that CompleteTask writes from; it reads no other column of it.
abbrev pub result_task : Notification → ℕ → Task
result_task n now = record {
  task_id = n.ref_id;
  node_id = [];
  kind = Protocol.InstructionKind.other [];
  command = [];
  name = [];
  args_json = [];
  state = result_state n;
  created_at = 0;
  sent_at = 0;
  finished_at = now;
  deadline = pos 0;
  exit_code = n.exit_code;
  stdout = n.stdout;
  stderr = n.stderr;
  truncated = n.truncated;
  duration_ms = n.duration_ms;
}

-- with the full row, or nothing if it cannot be read back
announce : Text → Result Task → Exec Manager (Unit {0})
announce ref_id (err e) = pure tt
announce ref_id (ok full) = do
  log_activity full.node_id ActivityType.task_result
      (ActivityDetail.task_result full.task_id full.state)
  notify_waiter ref_id full

unfoldable pub store_result : Notification → Exec Manager (Unit {0})
unfolding announce result_state
store_result n = do
  now ← now_millis
  query (complete_task (result_task n now))
  full ← attempt (query (get_task n.ref_id))
  announce n.ref_id full

unfoldable pub handle_result : Notification → Exec Manager (Unit {0})
handle_result n = if is_empty n.ref_id then pure tt else do
  seen ← gets (seen_recently n.ref_id)
  if seen then pure tt else do mark_seen n.ref_id; store_result n
