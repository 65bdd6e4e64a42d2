-- ===== src/Dispatcher/Creation.antt =====
-- CreateTask of internal/manager/dispatcher.go and the tasks table.
use sit.Prelude.{
  ℕ, Text, eq_refl, ◌≡◌, refl, ◌⊎◌, Bool, true, false, some, List, arith, ◌∙◌, Bool-cases,
  Option-cases, inl, inr, nat_eq,
}
use sit.Exec.{Error, Result, ok, err, Exec, io, constraint, gets, ◌>>=◌}
use sit.Protocol.{Json}
use sit.Table.{find, update}
use sit.Table.Laws.{find-update, find-append}
use sit.Store.{task_key}
use sit.Store.Models.{Task, queued, sent, ActivityType, ActivityDetail}
use sit.Store.Tasks
use sit.Store.Tasks.{new_row, stamped, update_task_state, append_activity}
use sit.Registry.{is_online}
use sit.Manager.{Manager, now_millis, query}
use sit.Dispatcher.{log_activity, send, delivered, deliver, stamp, dispatch_created, create_task}
use sit.Dispatcher.Delivery.{SentOr, log_activity-HasTasks, send_tasks}

-- The row that answers for a task, after the answer `t'` of CreateTask.
abbrev pub IsStored : Task → List Task → Type 0
IsStored t' tasks =
    (row : Task) × (find task_key t'.task_id tasks ≡ some row)
    × (row.state ≡ t'.state)
    × (row.node_id ≡ t'.node_id)
    × (row.command ≡ t'.command)
    × (row.created_at ≡ t'.created_at)

sent_row :
    (t row : Task) (at : ℕ) (tasks : List Task)
    → find task_key t.task_id tasks ≡ some row
    → find task_key t.task_id (update task_key t.task_id (stamped sent at) tasks)
      ≡ some (stamped sent at row)
sent_row t row at tasks f =
    find-update task_key t.task_id t.task_id (stamped sent at) tasks (λ r. refl)
    ∙ ground (arith, f, eq_refl t.task_id)

-- An action that always answers, with a task whose row is stored.
abbrev pub Answers : Result Task × Manager → Type 0
Answers (r, m) = (t' : Task) × (r ≡ ok t') × IsStored t' m.db.tasks

record Fresh (t : Task) (tasks : List Task) : Type 0 where
  state : t.state ≡ queued
  row : find task_key t.task_id tasks ≡ some (new_row t)

delivered_stored :
    (t : Task) (before : List Task)
    → Fresh t before
    → (r : Result (Unit {0})) (m : Manager) → SentOr t before r m.db.tasks
    → Answers (ok (delivered t r), m)
unfolding delivered
delivered_stored t before h (ok u) m (at, e) = (
  record t { state = sent },
  refl,
  (
    stamped sent at (new_row t),
    rw e (sent_row t (new_row t) at before h.row),
    refl,
    refl,
    refl,
    refl,
  ),
)
delivered_stored t before h (err x) m e = (t, refl, (new_row t, rw e h.row, refl, refl, refl, refl))

deliver_stored :
    (j : Json) (t : Task) (online : Bool) (m : Manager)
    → Fresh t m.db.tasks
    → Answers (deliver j t online m)
unfolding deliver ◌>>=◌
deliver_stored j t false m h = (t, refl, (new_row t, h.row, refl, refl, refl, refl))
deliver_stored j t true m h =
    delivered_stored t m.db.tasks h (send j t m).0 (send j t m).1 (send_tasks j t m)

log_activity_ok :
    (node_id : Text) (typ : ActivityType) (detail : ActivityDetail) (m : Manager)
    → (log_activity node_id typ detail m).0 ≡ ok tt
unfolding log_activity now_millis ◌>>=◌
log_activity_ok node_id typ detail m = refl

bind_log :
    {B : Type 0} (node_id : Text) (typ : ActivityType) (detail : ActivityDetail)
    (f : Exec Manager B) (m : Manager)
    → (log_activity node_id typ detail >>= λ _. f) m ≡ f (log_activity node_id typ detail m).1
unfolding ◌>>=◌
bind_log node_id typ detail f m = rw log_activity_ok refl

abbrev after_log : Json → Task → Exec Manager Task
after_log j t = gets (λ m. is_online t.node_id m.registry) >>= λ online. deliver j t online

abbrev logged : Json → Task → Manager → Manager
logged j t m =
    (log_activity t.node_id ActivityType.task_sent (ActivityDetail.task_sent t.task_id t.kind) m).1

logged_tasks : (j : Json) (t : Task) (m : Manager) → (logged j t m).db.tasks ≡ m.db.tasks
logged_tasks j t m =
    ((log_activity-HasTasks m.db.tasks t.node_id ActivityType.task_sent
        (ActivityDetail.task_sent t.task_id t.kind)).at
      m (record { holds = refl })).holds

dispatch_created_stored :
    (j : Json) (t : Task) (m : Manager) → Fresh t m.db.tasks → Answers (dispatch_created j t m)
unfolding dispatch_created
dispatch_created_stored j t m h =
    rw
      (bind_log t.node_id ActivityType.task_sent (ActivityDetail.task_sent t.task_id t.kind)
        (after_log j t) m)
      (unfold ◌>>=◌ in
        deliver_stored j t (is_online t.node_id (logged j t m).registry) (logged j t m)
          (rw (logged_tasks j t m) h))

-- CreateTask once it has its time
abbrev created : Json → Task → Exec Manager Task
created j t = query (Tasks.create_task t) >>= λ _. dispatch_created j t

-- by whether the insertion is refused
created_error :
    (j : Json) (t : Task) (m : Manager) (e : Error)
    → (query (Tasks.create_task t) m).0 ≡ err e
    → created j t m ≡ (err e, (query (Tasks.create_task t) m).1)
unfolding ◌>>=◌
created_error j t m e h = rw h refl

created_ok :
    (j : Json) (t : Task) (m : Manager)
    → (query (Tasks.create_task t) m).0 ≡ ok tt
    → created j t m ≡ dispatch_created j t (query (Tasks.create_task t) m).1
unfolding ◌>>=◌
created_ok j t m h = rw h refl

insert_cases :
    (t : Task) (m : Manager)
    → (t.state ≡ queued)
    → (((query (Tasks.create_task t) m).0 ≡ ok tt)
        × Fresh t (query (Tasks.create_task t) m).1.db.tasks)
      ⊎ ((e : Error) × ((query (Tasks.create_task t) m).0 ≡ err e)
          × ((query (Tasks.create_task t) m).1.db ≡ m.db)
          × ((query (Tasks.create_task t) m).1.registry ≡ m.registry))
unfolding query Tasks.create_task
insert_cases t m q = elim (Bool-cases (m.world.fails m.world.calls)) [
  | inl e ↦ rw e (inr (io, refl, refl, refl))
  | inr e ↦ elim (Option-cases (find task_key t.task_id m.db.tasks)) [
    | inl n ↦
        rw (e, n)
          (inl (
            refl,
            record {
              state = q;
              row =
                  find-append task_key t.task_id m.db.tasks (new_row t)
                  ∙ ground (arith, n, eq_refl t.task_id);
            },
          ))
    | inr (x, n) ↦ rw (e, n) (inr (constraint, refl, refl, refl))
  ]
]

-- What CreateTask answers after the insertion, and its errors.
created_cases :
    (j : Json) (t : Task) (m : Manager)
    → t.state ≡ queued
    → Answers (created j t m)
      ⊎ ((e : Error) × ((created j t m).0 ≡ err e)
          × ((created j t m).1.db ≡ m.db)
          × ((created j t m).1.registry ≡ m.registry))
created_cases j t m q = elim (insert_cases t m q) [
  | inl (answer, fresh) ↦ inl (
      rw (created_ok j t m answer)
        (dispatch_created_stored j t (query (Tasks.create_task t) m).1 fresh))
  | inr (e, answer, same, quiet) ↦ inr (rw (created_error j t m e answer) (e, refl, same, quiet))
]

-- CreateTask answers with a task whose row, with the same state, is in the database, whatever became
-- of the attempt to send it; or it reports an error, and then the database is as it was and no
-- connection has been touched.
pub create_task_stored :
    (j : Json) (t : Task) (m : Manager)
    → Answers (create_task j t m)
      ⊎ ((e : Error) × ((create_task j t m).0 ≡ err e)
          × ((create_task j t m).1.db ≡ m.db)
          × ((create_task j t m).1.registry ≡ m.registry))
unfolding create_task ◌>>=◌ now_millis
create_task_stored j t m = elim (Bool-cases (nat_eq t.created_at 0)) [
  | inl e ↦ rw e (created_cases j (stamp t (m.world.clock m.world.readings)) (now_millis m).1 refl)
  | inr e ↦ rw e (created_cases j (stamp t t.created_at) m refl)
]
