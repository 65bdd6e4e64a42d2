-- ===== src/Api/Tasks.antt =====
-- internal/manager/api/task_handlers.go and activity_handlers.go.
pub mod Created
use sit.Prelude.{
  ℕ, zero, suc, Text, text, ◌==◌, Bool, true, false, Option, none, some, List, is_empty,
  if◌then◌else◌,
}
use sit.Prelude.Int.{ℤ, pos, negsuc, add_seconds64}
use sit.Exec.{
  Error, Result, ok, err, Exec, not_found, pure, gets, attempt, modify, ignore, ◌>>=◌, ◌>>◌,
}
use sit.Protocol.{InstructionKind, Json, predefined, shell}
use sit.Store
use sit.Store.Models.{Task, queued, Activity}
use sit.Store.Tasks.{get_task, list_tasks, list_activities}
use sit.Manager.{Manager, now_millis, new_id, query}
use sit.Dispatcher.{create_task}
use sit.Node.Config.{atoi}
use sit.Api.{
  Body, failure, accepted, task, tasks, activities, Reply, reply, refuse, unless_missing, query_int,
}

pub record TaskRequest : Type 0 where
  pub kind : InstructionKind
  pub command : Text
  pub name : Text
  pub args : Text
  pub timeout_sec : ℤ

-- What is asked of each kind
abbrev pub is_complete : InstructionKind → TaskRequest → Bool
is_complete shell req = if is_empty req.command then false else true
is_complete predefined req = if is_empty req.name then false else true
is_complete (InstructionKind.other k) req = false

-- 60 seconds, unless the request has a positive number of them
abbrev pub timeout_of : ℤ → ℕ
timeout_of (pos zero) = 60
timeout_of (pos (suc n)) = suc n
timeout_of (negsuc n) = 60

abbrev pub new_task : Text → TaskRequest → Text → ℕ → Task
new_task node_id req id now = record {
  task_id = id;
  node_id = node_id;
  kind = req.kind;
  command = req.command;
  name = req.name;
  args_json = req.args;
  state = queued;
  created_at = now;
  sent_at = 0;
  finished_at = 0;
  deadline = add_seconds64 now (timeout_of req.timeout_sec);
  exit_code = pos 0;
  stdout = List.[];
  stderr = List.[];
  truncated = false;
  duration_ms = 0;
}

abbrev created_or : Result Task → Exec Manager Reply
created_or (ok t) = reply 202 (accepted t.task_id t.state)
created_or (err e) = refuse 500 (text "internal")

-- The handler once the request is complete
unfoldable pub submit : Json → Text → TaskRequest → Exec Manager Reply
submit j node_id req = do
  now ← now_millis
  id ← new_id
  r ← attempt (create_task j (new_task node_id req id now))
  created_or r

checked : Json → Text → TaskRequest → Exec Manager Reply
checked j node_id req = do
  known ← attempt (query (Store.get_node node_id))
  unless_missing known (submit j node_id req)

unfoldable pub handle_create_task : Json → Text → Option TaskRequest → Exec Manager Reply
unfolding checked
handle_create_task j node_id none = refuse 400 (text "bad_request")
handle_create_task j node_id (some req) =
    if is_complete req.kind req then checked j node_id req else refuse 400 (text "bad_request")

abbrev listed : Result (List Task) → Exec Manager Reply
listed (ok ts) = reply 200 (tasks ts)
listed (err e) = refuse 500 (text "internal")

unfoldable pub handle_list_tasks : Text → Text → Text → Exec Manager Reply
handle_list_tasks node_id state limit = do
  r ← attempt (query (list_tasks node_id state (query_int 50 500 limit)))
  listed r

abbrev got : Result Task → Exec Manager Reply
got (ok t) = reply 200 (task t)
got (err not_found) = refuse 404 (text "not_found")
got (err _) = refuse 500 (text "internal")

unfoldable pub handle_get_task : Text → Exec Manager Reply
handle_get_task id = do r ← attempt (query (get_task id)); got r

-- `before`, where it is a positive number; the statement reads no other
abbrev before_of : Option ℤ → ℕ
before_of (some (pos n)) = n
before_of _ = 0

abbrev happened : Result (List Activity) → Exec Manager Reply
happened (ok acts) = reply 200 (activities acts)
happened (err e) = refuse 500 (text "internal")

unfoldable pub handle_activities : Text → Text → Text → Exec Manager Reply
handle_activities node_id limit before = do
  r ← attempt (
      query (
        list_activities node_id (query_int 50 500 limit)
          (if is_empty before then 0 else before_of (atoi before))))
  happened r
