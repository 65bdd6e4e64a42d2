-- ===== src/Store/Tasks.antt =====
-- sqlite.go: the tasks table, which doubles as the offline queue, and the activities timeline.
use sit.Prelude.{
  ℕ, zero, suc, ◌+◌, Text, text, ◌==◌, Bool, true, false, ◌&&◌, ◌||◌, List, [], ◌∷◌, ◌++◌, leb, ltb,
  select, take, has, is_empty, if◌then◌else◌,
}
use sit.Exec.{ok, err, Exec, constraint}
use sit.Table.{find, update}
use sit.Store.{Db, task_key, or_not_found, affect_one}
use sit.Store.Models.{TaskState, queued, sent, succeeded, failed, expired, timeout, Task, Activity}
use sit.Store.Order.{sort, by}
use sit.Prelude.Int.{pos}

-- The columns that the INSERT names; the others have the defaults of the schema.
abbrev pub new_row : Task → Task
new_row t = record t {
  sent_at = 0;
  finished_at = 0;
  exit_code = pos 0;
  stdout = [];
  stderr = [];
  truncated = false;
  duration_ms = 0;
}

unfoldable pub create_task : Task → Exec Db (Unit {0})
create_task t db =
    if has (find task_key t.task_id db.tasks)
    then (err constraint, db)
    else (ok tt, record db { tasks = db.tasks ++ new_row t ∷ [] })

unfoldable pub get_task : Text → Exec Db Task
get_task id db = (or_not_found (find task_key id db.tasks), db)

abbrev pub is_queued : TaskState → Bool
is_queued queued = true
is_queued _ = false

abbrev pub is_queued_for : Text → Task → Bool
is_queued_for node_id t = t.node_id == node_id && is_queued t.state

unfoldable pub queued_tasks : Text → Exec Db (List Task)
queued_tasks node_id db =
    (ok (sort (by (λ t. t.created_at)) (select (is_queued_for node_id) db.tasks)), db)

abbrev pub state_text : TaskState → Text
state_text queued = text "queued"
state_text sent = text "sent"
state_text succeeded = text "succeeded"
state_text failed = text "failed"
state_text expired = text "expired"
state_text timeout = text "timeout"

abbrev limited : {A : Type 0} → ℕ → List A → List A
limited zero xs = xs
limited (suc n) xs = take (suc n) xs

abbrev listed_for : Text → Text → Task → Bool
listed_for node_id state_filter t =
    t.node_id == node_id && (is_empty state_filter || state_text t.state == state_filter)

unfoldable pub list_tasks : Text → Text → ℕ → Exec Db (List Task)
list_tasks node_id state_filter limit db = (
  ok (
      limited limit (
        sort (λ (a b : Task). leb b.created_at a.created_at)
          (select (listed_for node_id state_filter) db.tasks))),
  db,
)

abbrev pub stamped : TaskState → ℕ → Task → Task
stamped sent at t = record t { state = sent; sent_at = at }
stamped s at t = record t { state = s }

unfoldable pub update_task_state : Text → TaskState → ℕ → Exec Db (Unit {0})
update_task_state id state at db =
    affect_one (find task_key id db.tasks) db
      (record db { tasks = update task_key id (stamped state at) db.tasks })

abbrev pub completed : Task → Task → Task
completed t old = record old {
  state = t.state;
  finished_at = t.finished_at;
  exit_code = t.exit_code;
  stdout = t.stdout;
  stderr = t.stderr;
  truncated = t.truncated;
  duration_ms = t.duration_ms;
}

unfoldable pub complete_task : Task → Exec Db (Unit {0})
complete_task t db =
    affect_one (find task_key t.task_id db.tasks) db
      (record db { tasks = update task_key t.task_id (completed t) db.tasks })

-- The id is the database's, whatever the argument holds.
unfoldable pub append_activity : Activity → Exec Db (Unit {0})
append_activity a db = (
  ok tt,
  record db {
    activities = db.activities ++ record a { id = db.next_activity } ∷ [];
    next_activity = db.next_activity + 1;
  },
)

abbrev seen_before : ℕ → Activity → Bool
seen_before zero a = true
seen_before (suc n) a = ltb a.at (suc n)

-- `before` bounds the time, if it is positive
unfoldable pub list_activities : Text → ℕ → ℕ → Exec Db (List Activity)
list_activities node_id limit before db = (
  ok (
      limited limit (
        sort (λ (a b : Activity). leb b.at a.at)
          (select (λ (a : Activity). a.node_id == node_id && seen_before before a) db.activities))),
  db,
)
