-- ===== src/Node/Executor.antt =====
-- internal/node/executor.go: how an instruction is run, within limits of time and output.
pub mod Once
pub mod Limits
use sit.Prelude.{
  ℕ, zero, suc, ◌+◌, ◌*◌, Text, text, ◌==◌, Bool, true, false, ◌&&◌, ◌||◌, not, Option, none, some,
  List, [], ◌∷◌, ◌++◌, ltb, length, take, Map, get, if◌then◌else◌,
}
use sit.Prelude.Int.{ℤ, pos, negsuc, minus_one, is_pos, nonzero, exceeds}
use sit.Protocol
use sit.Protocol.{
  Bytes, Instruction, InstructionKind, predefined, shell, Notification, NotificationKind, blank,
}
use sit.Window.{Window, empty_window, lookup, remember}

abbrev pub max_output_bytes : ℕ
max_output_bytes = 65_536

abbrev pub dedup_window : ℕ
dedup_window = 1024

-- How a shell command ended: cmd.Run's error, seen as an exit code or as another error.
pub data RunError : Type 0 where
  success : RunError
  exited : ℤ → RunError
  failed : RunError

-- What a run of the operating system, or of a predefined handler, gives back.
pub record ShellRun : Type 0 where
  pub stdout : Bytes
  pub stderr : Bytes
  pub error : RunError
  pub duration_ms : ℕ
  pub deadline_exceeded : Bool

pub record HandlerRun : Type 0 where
  pub out : Bytes
  pub code : ℤ
  pub error : Option Bytes
  pub duration_ms : ℕ
  pub deadline_exceeded : Bool

-- The outside: the shell, and the whitelisted handlers, each given its timeout in seconds.
pub record Host : Type 0 where
  pub run_command : Text → ℕ → ShellRun
  pub handlers : Map (Option Text → ℕ → HandlerRun)

-- `started` records what was run, the latest last: a command or a handler's name.
pub record Executor : Type 0 where
  pub window : Window Notification
  pub started : List Text

abbrev pub new_executor : Executor
new_executor = record { window = empty_window; started = [] }

unfoldable pub truncate : Bytes → Bytes × Bool
truncate b = if ltb max_output_bytes (length b) then (take max_output_bytes b, true) else (b, false)

unfoldable pub exit_code : RunError → ℤ
exit_code RunError.success = pos 0
exit_code (exited c) = c
exit_code RunError.failed = minus_one

-- the timeout in seconds, 60 unless the instruction sets one
unfoldable pub timeout_of : ℤ → ℕ
timeout_of (pos zero) = 60
timeout_of (pos (suc n)) = suc n
timeout_of (negsuc n) = 60

abbrev pub result_for : Text → Notification
result_for id = record (blank NotificationKind.result) { ref_id = id }

-- a result that no run stands behind
refused : Text → Text → Notification
refused id why = record (result_for id) { exit_code = minus_one; stderr = why }

unfoldable pub shell_result : Text → ShellRun → Notification
unfolding truncate exit_code
shell_result id r =
    let (out, t1) = truncate r.stdout in
    let (se, t2) = truncate r.stderr in
    record (result_for id) {
      duration_ms = r.duration_ms;
      stdout = out;
      stderr = se;
      truncated = t1 || t2;
      timed_out = r.deadline_exceeded;
      exit_code = if r.deadline_exceeded then minus_one else exit_code r.error;
    }

with_error : Option Bytes → Notification → Notification
unfolding truncate
with_error none res = res
with_error (some e) res =
    let (se, t2) = truncate e in
    record res {
      stderr = se;
      truncated = res.truncated || t2;
      exit_code = if nonzero res.exit_code then res.exit_code else minus_one;
    }

unfoldable pub handler_result : Text → HandlerRun → Notification
unfolding truncate with_error
handler_result id r =
    let (out, t1) = truncate r.out in
    let res = with_error r.error (record (result_for id) {
      duration_ms = r.duration_ms;
      exit_code = r.code;
      stdout = out;
      truncated = t1;
    }) in
    record res { timed_out = r.deadline_exceeded }

abbrev starts : Text → Executor → Executor
starts what e = record e { started = e.started ++ what ∷ [] }

unfoldable pub is_late : ℕ → Instruction → Bool
is_late now i = is_pos i.deadline && exceeds now i.deadline

module _ (h : Host) where
  unfoldable pub run_shell : Text → Instruction → Executor → Notification × Executor
  run_shell id i e =
      (shell_result id (h.run_command i.command (timeout_of i.timeout_sec)), starts i.command e)

  run_handler :
      Text
      → Instruction
      → Option (Option Text → ℕ → HandlerRun)
      → Executor
      → Notification × Executor
  run_handler id i none e = (refused id (text "unknown predefined command: " ++ i.name), e)
  run_handler id i (some fn) e =
      (handler_result id (fn i.args (timeout_of i.timeout_sec)), starts i.name e)

  unfoldable pub run_predefined : Text → Instruction → Executor → Notification × Executor
  unfolding run_handler refused
  run_predefined id i e = run_handler id i (get i.name h.handlers) e

  abbrev run_kind : InstructionKind → Text → Instruction → Executor → Notification × Executor
  run_kind shell id i e = run_shell id i e
  run_kind predefined id i e = run_predefined id i e
  run_kind (InstructionKind.other k) id i e = (refused id (text "unknown instruction kind"), e)

  -- remember, on the executor
  abbrev keep : Text → Notification × Executor → Notification × Executor
  keep id (res, e) = (res, record e { window = remember dedup_window id res e.window })

  unfoldable pub run_new : ℕ → Text → Instruction → Executor → Notification × Executor
  unfolding is_late refused
  run_new now id i e =
      if is_late now i
      then (refused id (text "deadline exceeded before execution"), e)
      else run_kind i.kind id i e

  execute_unless : Option Notification → ℕ → Text → Instruction → Executor → Notification × Executor
  execute_unless (some prior) now id i e = (prior, e)
  execute_unless none now id i e = keep id (run_new now id i e)

  unfoldable pub execute : ℕ → Text → Instruction → Executor → Notification × Executor
  unfolding execute_unless
  execute now id i e = execute_unless (lookup id e.window) now id i e
