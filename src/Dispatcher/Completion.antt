-- ===== src/Dispatcher/Completion.antt =====
-- HandleResult of internal/manager/dispatcher.go, the tasks table and the waiter.
use sit.Prelude.{
  ℕ, zero, suc, ◌+◌, Text, Bool, true, ◌==◌, eq_iff, eq_refl, ◌≡◌, refl, false, none, some, List,
  arith, get, remove, get-remove, is_empty, if◌then◌else◌, ◌∙◌,
}
use mathlib.Core.Option
use sit.Exec.{ok, ◌>>=◌}
use sit.Prelude.Int.{ℤ, pos, negsuc, nonzero}
use sit.Protocol.{Notification}
use sit.Table.{find, update}
use sit.Table.Laws.{find-update}
use sit.Store.{task_key}
use sit.Store.Models.{Task, TaskState}
use sit.Store.Tasks.{complete_task, completed, get_task, append_activity}
use sit.Manager.{Manager, now_millis, query}
use sit.Dispatcher.{
  log_activity, notify_waiter, announce, store_result, handle_result, seen_recently, result_task,
  result_state,
}
use sit.Dispatcher.Results.{marked, handle_result_new}

-- No call of the database fails from here on.
abbrev pub DbWorks : Manager → Type 0
DbWorks m = (i : ℕ) → m.world.fails i ≡ false

find_complete :
    (k : Text) (n : Notification) (now : ℕ) (tasks : List Task)
    → find task_key k (update task_key n.ref_id (completed (result_task n now)) tasks) ≡ (
        if n.ref_id == k
        then Option.map (completed (result_task n now)) (find task_key k tasks)
        else find task_key k tasks)
find_complete k n now tasks =
    find-update task_key n.ref_id k (completed (result_task n now)) tasks (λ r. refl)

-- the state for a result's timed_out and exit_code
abbrev pub outcome : Bool → ℤ → TaskState
outcome true code = TaskState.timeout
outcome false (pos zero) = TaskState.succeeded
outcome false (pos (suc k)) = TaskState.failed
outcome false (negsuc k) = TaskState.failed

-- the row as it is after the result, column by column
abbrev pub done_row : Notification → Manager → Task → Task
done_row n m t = record t {
  state = outcome n.timed_out n.exit_code;
  finished_at = m.world.clock m.world.readings;
  exit_code = n.exit_code;
  stdout = n.stdout;
  stderr = n.stderr;
  truncated = n.truncated;
  duration_ms = n.duration_ms;
}

outcome_lem :
    (late : Bool) (code : ℤ)
    → (if late
        then TaskState.timeout
        else if nonzero code
        then TaskState.failed
        else TaskState.succeeded)
      ≡ outcome late code
outcome_lem true code = refl
outcome_lem false (pos zero) = refl
outcome_lem false (pos (suc k)) = refl
outcome_lem false (negsuc k) = refl

done_row-completed :
    (n : Notification) (m : Manager) (t : Task)
    → completed (result_task n (m.world.clock m.world.readings)) t ≡ done_row n m t
unfolding result_state
done_row-completed n m t = rw (outcome_lem n.timed_out n.exit_code) refl

pub store_result_rows :
    (n : Notification) (m : Manager) (t : Task)
    → DbWorks m
    → find task_key n.ref_id m.db.tasks ≡ some t
    → ((store_result n m).0 ≡ ok tt)
      × ((store_result n m).1.db.tasks
          ≡ update task_key n.ref_id
              (completed (result_task n (m.world.clock m.world.readings)))
              m.db.tasks)
unfolding store_result announce log_activity notify_waiter query now_millis complete_task get_task
    append_activity ◌>>=◌
store_result_rows n m t w f = ground (
  arith,
  w m.world.calls,
  w (m.world.calls + 1),
  w (m.world.calls + 1 + 1),
  find_complete n.ref_id n (m.world.clock m.world.readings) m.db.tasks,
  eq_refl n.ref_id,
)

get-remove_self : {V : Type 0} (k : Text) (l : List (Text × V)) → get k (remove k l) ≡ none
get-remove_self k l = rw get-remove (rw eq_refl refl)

store_result_waiter :
    (n : Notification) (m : Manager) (t : Task)
    → DbWorks m
    → find task_key n.ref_id m.db.tasks ≡ some t
    → ((ch : ℕ)
        → get n.ref_id m.dispatcher.waiters ≡ some ch
        → (store_result n m).1.dispatcher.channels ch
          ≡ some (completed (result_task n (m.world.clock m.world.readings)) t))
      × (get n.ref_id (store_result n m).1.dispatcher.waiters ≡ none)
unfolding store_result announce log_activity notify_waiter query now_millis complete_task get_task
    append_activity ◌>>=◌
store_result_waiter n m t w f = (
  λ ch g. ground (
    arith,
    w m.world.calls,
    w (m.world.calls + 1),
    w (m.world.calls + 1 + 1),
    find_complete n.ref_id n (m.world.clock m.world.readings) m.db.tasks,
    eq_refl n.ref_id,
  ),
  ground (
    arith,
    w m.world.calls,
    w (m.world.calls + 1),
    w (m.world.calls + 1 + 1),
    find_complete n.ref_id n (m.world.clock m.world.readings) m.db.tasks,
    eq_refl n.ref_id,
    get-remove_self n.ref_id m.dispatcher.waiters,
  ),
)

-- A result whose ref_id was not seen recently and names a known task, with the database working,
-- is stored in that task's row: the state timeout if it timed out, else failed if its exit code is
-- not zero, else succeeded; its exit code, output, error output, truncation and duration; and the
-- time at which it is handled. The row's other columns and the other rows stay. The whole row is
-- given to the task's waiter, if there is one, and no waiter is left for the task.
pub handle_result_completes :
    (n : Notification) (m : Manager) (t : Task)
    → DbWorks m
    → is_empty n.ref_id ≡ false
    → seen_recently n.ref_id m ≡ false
    → find task_key n.ref_id m.db.tasks ≡ some t
    → ((handle_result n m).0 ≡ ok tt)
      × ((k : Text)
          → find task_key k (handle_result n m).1.db.tasks
            ≡ (if n.ref_id == k then some (done_row n m t) else find task_key k m.db.tasks))
      × ((ch : ℕ)
          → get n.ref_id m.dispatcher.waiters ≡ some ch
          → (handle_result n m).1.dispatcher.channels ch ≡ some (done_row n m t))
      × (get n.ref_id (handle_result n m).1.dispatcher.waiters ≡ none)
handle_result_completes n m t w e s f =
    let rows = store_result_rows n (marked n.ref_id m) t w f in
    let waiter = store_result_waiter n (marked n.ref_id m) t w f in
    rw (handle_result_new n m e s, ← done_row-completed n m t)
      (
        rows.0,
        λ k. rw rows.1 (
            find_complete k n (m.world.clock m.world.readings) m.db.tasks
            ∙ ground (arith, f, eq_iff n.ref_id k)),
        waiter.0,
        waiter.1,
      )
